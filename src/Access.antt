-- ===== src/Access.antt =====
-- routes/request_guards.py and routes/session_token.py: who may call the local API.
-- Starlette, the methods of `str` and the compiled origin pattern are parameters. A header is `none`
-- when the request has none of that name. `hmac.compare_digest` is the equality of texts.
pub mod Served
mod Examples
use Prim.Native.String.{slice, len, find}
use crawl_viz.Base.{
  ℕ, ◌+◌, String, Bool, true, false, not, ◌&&◌, ◌||◌, Option, none, some, List, [], ◌∷◌, map, ltb,
  if◌then◌else◌, str_eq,
}
use crawl_viz.Base.Texts.{contains}
use text.Mathlib.Text.{starts_with}

-- `str.strip`, `str.lower`, `str.upper` and `str.rstrip("/")`.
pub record TextRules : Type 0 where
  pub strip : String → String
  pub lower : String → String
  pub upper : String → String
  pub rstrip_slash : String → String

-- The ASGI scope with the headers that the checks read.
pub record Request : Type 0 where
  pub scope_type : String
  pub method : String
  pub path : String
  pub host : Option String
  pub origin : Option String
  pub content_type : Option String
  pub authorization : Option String

pub record RequestGuards : Type 0 where
  pub allowed_hosts : List String
  pub allowed_origins : List String
  pub origin_pattern : Option (String → Bool)

pub data Refusal : Type 0 where
  misdirected forbidden unsupported_media_type : Refusal

-- Whether a request reaches the routes, or the status of the reply that it gets instead.
pub data Outcome : Type 0 where
  reached : Outcome
  refused : ℕ → Outcome

pub status_code : Refusal → ℕ
status_code misdirected = 421
status_code forbidden = 403
status_code unsupported_media_type = 415

abbrev pub state_changing_methods : List String
state_changing_methods = "POST" ∷ "PUT" ∷ "PATCH" ∷ "DELETE" ∷ []

abbrev pub token_exempt_paths : List String
token_exempt_paths =
    "/session" ∷ "/docs" ∷ "/docs/oauth2-redirect" ∷ "/redoc" ∷ "/openapi.json" ∷ []

-- `headers.get(name, "")`
pub header : Option String → String
header none = ""
header (some h) = h

-- The part of a text before a separator of one byte, all of it if there is none.
pub before : String → String → String
before sep s = if ltb (find s sep) (len s) then slice s 0 (find s sep) else s

module _ (rules : TextRules) where
  -- `self._allowed_hosts` and `self._allowed_origins`
  pub new_guards : List String → List String → Option (String → Bool) → RequestGuards
  new_guards hosts origins pattern = record {
    allowed_hosts = map (λ name. rules.lower (rules.strip name)) hosts;
    allowed_origins = map (λ origin. rules.rstrip_slash (rules.strip origin)) origins;
    origin_pattern = pattern;
  }

  -- `host[: closing + 1] if closing != -1 else host`
  pub bracketed : String → String
  bracketed host = if ltb (find host "]") (len host) then slice host 0 (find host "]" + 1) else host

  pub host_name : String → String
  unfolding bracketed before
  host_name host_header =
      let host = rules.lower (rules.strip host_header) in
      if starts_with host "[" then bracketed host else before ":" host

  pub host_allowed : RequestGuards → Request → Bool
  unfolding host_name header
  host_allowed g r = contains g.allowed_hosts (host_name (header r.host))

  pub is_allowed_origin : RequestGuards → String → Bool
  is_allowed_origin g origin =
      contains g.allowed_origins origin
      || elim g.origin_pattern [ none ↦ false | some fullmatch ↦ fullmatch origin ]

  pub origin_allowed : RequestGuards → Request → Bool
  unfolding is_allowed_origin
  origin_allowed g r = elim r.origin [ none ↦ true | some origin ↦ is_allowed_origin g origin ]

  pub is_json : Request → Bool
  unfolding before header
  is_json r =
      str_eq (rules.lower (rules.strip (before ";" (header r.content_type)))) "application/json"

  -- `none`: the request passes.
  pub check : RequestGuards → Request → Option Refusal
  unfolding host_allowed origin_allowed is_json
  check g r =
      if not (host_allowed g r)
      then some misdirected
      else if not (origin_allowed g r)
      then some forbidden
      else if contains state_changing_methods (rules.upper r.method) && not (is_json r)
      then some unsupported_media_type
      else none

  pub guard_middleware : RequestGuards → (Request → Outcome) → Request → Outcome
  unfolding check status_code
  guard_middleware g app r =
      if not (str_eq r.scope_type "http") || str_eq r.method "OPTIONS"
      then app r
      else elim (check g r) [ none ↦ app r | some refusal ↦ refused (status_code refusal) ]

  pub bearer_matches : String → String → Bool
  bearer_matches token header =
      starts_with header "Bearer "
      && str_eq (rules.strip (slice header (len "Bearer ") (len header))) token

  pub authorization_matches : String → Option String → Bool
  unfolding bearer_matches
  authorization_matches token authorization = elim authorization [
    | none ↦ false
    | some header ↦ bearer_matches token header
  ]

  pub token_middleware : String → (Request → Outcome) → Request → Outcome
  unfolding authorization_matches
  token_middleware token app r =
      let exempt =
        not (str_eq r.scope_type "http")
        || str_eq r.method "OPTIONS"
        || contains token_exempt_paths r.path in
      if exempt || authorization_matches token r.authorization then app r else refused 401

  -- The two middlewares, the guards outermost, in front of the routes.
  pub serve : RequestGuards → String → Request → Outcome
  unfolding guard_middleware token_middleware
  serve g token r = guard_middleware g (token_middleware token (λ _. reached)) r

-- `os.environ.get(TOKEN_ENV_VAR) or _generated_token`
pub get_session_token : Option String → String → String
get_session_token none generated = generated
get_session_token (some token) generated = if str_eq token "" then generated else token

-- `none`: the reply 404.
pub get_session : Option String → String → Option String
get_session none generated = some generated
get_session (some token) generated = if str_eq token "" then some generated else none
