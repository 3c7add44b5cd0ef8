-- ===== src/Access/Served.antt =====
-- Which requests reach the routes, and that the token that is served opens them.
use Prim.Native.String.{slice, len, ◌++◌ as ◌+++◌}
use crawl_viz.Base.{
  ◌≡◌, ◌↔◌, ◌⊎◌, ap, sym, subst, ◌∙◌, String, Bool, true, false, not, ◌&&◌, ◌||◌, Option, none,
  some, if◌then◌else◌, str_eq, eq_iff, arith,
}
use crawl_viz.Base.Texts.{contains}
use crawl_viz.Access.{
  TextRules, Request, RequestGuards, Refusal, Outcome, reached, refused, misdirected, forbidden,
  unsupported_media_type, status_code, check, host_allowed, origin_allowed, is_json,
  state_changing_methods, token_exempt_paths, authorization_matches, bearer_matches, serve,
  guard_middleware, token_middleware, get_session, get_session_token,
}
use text.Mathlib.TextPositions.{starts_with-append, slice-append_right, len-append}

-- What a request needs: an allowed host, an allowed origin if it names one, JSON if it may change
-- state, and the token unless its path is exempt.
pub record IsAdmitted (rules : TextRules) (g : RequestGuards) (token : String) (r : Request)
    : Type 0 where
  pub host : host_allowed rules g r ≡ true
  pub origin : origin_allowed rules g r ≡ true
  pub json : contains state_changing_methods (rules.upper r.method) ≡ true → is_json rules r ≡ true
  pub bearer :
      (contains token_exempt_paths r.path ≡ true)
      ⊎ (authorization_matches rules token r.authorization ≡ true)

-- The two middlewares on the answers of their tests.
abbrev gates : Bool → Bool → Bool → Bool → Bool → Bool → Outcome
gates host origin change json exempt bearer =
    elim (if not host
      then some misdirected
      else if not origin
      then some forbidden
      else if change && not json
      then some unsupported_media_type
      else none) [
        | none ↦ if exempt || bearer then reached else refused 401
        | some refusal ↦ refused (status_code refusal)
      ]

gates_iff :
    (host origin change json exempt bearer : Bool)
    → (gates host origin change json exempt bearer ≡ reached) ↔ (
        (host ≡ true)
        × (origin ≡ true)
        × (change ≡ true → json ≡ true)
        × ((exempt ≡ true) ⊎ (bearer ≡ true)))
gates_iff host origin change json exempt bearer = ground arith

module _ (rules : TextRules) (g : RequestGuards) (token : String) (r : Request)
    (http : str_eq r.scope_type "http" ≡ true) (method : str_eq r.method "OPTIONS" ≡ false) where
  abbrev answer : Option Refusal → Outcome → Outcome
  answer o app = elim o [ none ↦ app | some refusal ↦ refused (status_code refusal) ]

  guarded :
      (app : Request → Outcome) → guard_middleware rules g app r ≡ answer (check rules g r) (app r)
  unfolding guard_middleware
  guarded app = ground (arith, http, method)

  authorized : token_middleware rules token (λ _. reached) r ≡ (
      if contains token_exempt_paths r.path || authorization_matches rules token r.authorization
      then reached
      else refused 401)
  unfolding token_middleware
  authorized = ground (arith, http, method)

  served :
      serve rules g token r
      ≡ gates
          (host_allowed rules g r)
          (origin_allowed rules g r)
          (contains state_changing_methods (rules.upper r.method))
          (is_json rules r)
          (contains token_exempt_paths r.path)
          (authorization_matches rules token r.authorization)
  unfolding serve check
  served =
      guarded (token_middleware rules token (λ _. reached))
      ∙ ap (answer (check rules g r)) authorized

-- A request of the HTTP API, preflights aside, reaches the routes exactly if it has all that it needs.
pub serve_iff :
    (rules : TextRules) (g : RequestGuards) (token : String) (r : Request)
    → str_eq r.scope_type "http" ≡ true
    → str_eq r.method "OPTIONS" ≡ false
    → (serve rules g token r ≡ reached) ↔ IsAdmitted rules g token r
serve_iff rules g token r http method =
    let (there, back) =
      gates_iff (host_allowed rules g r) (origin_allowed rules g r)
        (contains state_changing_methods (rules.upper r.method)) (is_json rules r)
        (contains token_exempt_paths r.path) (authorization_matches rules token r.authorization) in
    (
      (λ h.
          let (host, origin, json, bearer) = there (sym (served rules g token r http method) ∙ h) in
          record { host = host; origin = origin; json = json; bearer = bearer }),
      λ a. served rules g token r http method ∙ back (a.host, a.origin, a.json, a.bearer),
    )

bearer_matches_own :
    (rules : TextRules) (token : String)
    → rules.strip token ≡ token
    → bearer_matches rules token ("Bearer " +++ token) ≡ true
unfolding bearer_matches
bearer_matches_own rules token h =
    let supplied : slice ("Bearer " +++ token) (len "Bearer ") (len ("Bearer " +++ token)) ≡ token =
      ap (slice ("Bearer " +++ token) (len "Bearer ")) (len-append "Bearer " token)
      ∙ slice-append_right "Bearer " token in
    ground (
      arith,
      starts_with-append "Bearer " token,
      eq_iff (rules.strip (slice ("Bearer " +++ token) (len "Bearer ") (len ("Bearer " +++ token))))
          token,
      ap rules.strip supplied,
      h,
    )

get_session-eq :
    (env : Option String) (generated token : String)
    → get_session env generated ≡ some token
    → token ≡ get_session_token env generated
unfolding get_session get_session_token
get_session-eq none generated token h = ground arith
get_session-eq (some own) generated token h = ground arith

-- A header with the token that `/session` serves is accepted, if stripping does not change the token.
pub get_session-authorization_matches :
    (rules : TextRules) (env : Option String) (generated token : String)
    → get_session env generated ≡ some token
    → rules.strip token ≡ token
    → authorization_matches rules (get_session_token env generated) (some ("Bearer " +++ token))
      ≡ true
unfolding authorization_matches
get_session-authorization_matches rules env generated token served h =
    subst (λ t. bearer_matches rules t ("Bearer " +++ token) ≡ true)
      (get_session-eq env generated token served) (bearer_matches_own rules token h)
