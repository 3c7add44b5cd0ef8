-- ===== src/Network.antt =====
-- infrastructure/network_client.py: one request of the shared HTTP client.
-- A host name is looked up by the parameter `Dns`, and a request is answered by the parameter `Server`:
-- both get the number of requests sent before. aiohttp looks up no host that is an address itself; a
-- kept connection counts as the lookup that opened it. A body is its chunks, each the number of
-- decompressed bytes in it, so a text is known by its bytes; the decoding is left out.
pub mod Guard
mod Redirects
mod Examples
use crawl_viz.Base.{
  ℕ, zero, suc, ◌+◌, ◌≤◌, String, Bool, true, false, not, ◌&&◌, ◌||◌, Option, none, some, List, [],
  ◌∷◌, ◌++◌, ltb, leb, ◌==◌, if◌then◌else◌, str_eq,
}
use crawl_viz.Base.Texts.{contains}
use crawl_viz.Network.Guard.{
  UrlParts, IpAddress, Refusal, resolves_to_private, ensure_public_url, resolve,
}

pub record Response : Type 0 where
  pub url : String
  pub status : ℕ
  pub location : Option String
  pub content_type : String
  pub content_length : Option ℕ
  pub chunks : List ℕ

-- How the server of a URL answers.
pub data Answer : Type 0 where
  received : Response → Answer
  unreachable : Answer

-- The answers of the inner resolver for a host name, `none` if it has none.
abbrev pub Dns : Type 0
Dns = ℕ → Option String → Option (List IpAddress)

-- The addresses that a request may connect to, or a ClientConnectorError, with the resolver's refusal if
-- that is its `os_error`.
pub data Target : Type 0 where
  reaches : List IpAddress → Target
  unresolved : Option Refusal → Target

abbrev pub Server : Type 0
Server = ℕ → String → Answer

pub data FetchError : Type 0 where
  blocked_address : Refusal → FetchError
  too_many_redirects unsupported_content_type response_too_large unknown_method : FetchError
  response_error : ℕ → FetchError
  connector_error : Option Refusal → FetchError

pub data Fetched : Type 0 where
  body : ℕ → Fetched
  json : Fetched
  failed : FetchError → Fetched

-- `REDIRECT_STATUSES`
abbrev pub is_redirect : ℕ → Bool
is_redirect s = s == 301 || s == 302 || s == 303 || s == 307 || s == 308

-- `raise_for_status` raises at a status of at least 400.
abbrev pub is_error_status : ℕ → Bool
is_error_status s = leb 400 s

-- The loop over the chunks: the bytes of the body, `none` once they pass the limit, and the bytes
-- that were read for it.
pub read_chunks : ℕ → ℕ → List ℕ → Option ℕ × ℕ
read_chunks limit size [] = (some size, size)
read_chunks limit size (c ∷ cs) =
    let rest = read_chunks limit (size + c) cs in
    if ltb limit (size + c) then (none, size + c) else rest

-- `response.content_type not in content_types`, where None accepts any.
pub type_accepted : Option (List String) → String → Bool
type_accepted none t = true
type_accepted (some types) t = contains types t

-- `response.content_length or 0`
pub announced : Option ℕ → ℕ
announced none = 0
announced (some n) = n

pub body_or_error : Option ℕ → Fetched
body_or_error none = failed response_too_large
body_or_error (some size) = body size

pub read_text : ℕ → Option (List String) → Response → Fetched
unfolding read_chunks type_accepted announced body_or_error
read_text limit content_types r =
    if not (type_accepted content_types r.content_type)
    then failed unsupported_content_type
    else if ltb limit (announced r.content_length)
    then failed response_too_large
    else body_or_error (read_chunks limit 0 r.chunks).0

module _ (split : String → UrlParts) (join : String → String → String) (dns : Dns) (server : Server)
    (check_addresses : Bool) (max_response_bytes : ℕ) (content_types : Option (List String)) where
  -- `if self.check_addresses: ensure_public_url(url)`
  pub refusal : String → Option Refusal
  refusal url = if check_addresses then ensure_public_url (split url) else none

  -- The lookup of `PublicAddressResolver` if addresses are checked, of the default resolver otherwise.
  pub looked_up : Option (List IpAddress) → Target
  looked_up none = unresolved none
  looked_up (some ips) =
      if check_addresses
      then elim (resolve ips) [
        | none ↦ unresolved (some resolves_to_private)
        | some public ↦ reaches public
      ]
      else reaches ips

  pub target_of : ℕ → String → Target
  unfolding looked_up
  target_of sent url = elim (split url).address [
    | some ip ↦ reaches (ip ∷ [])
    | none ↦ looked_up (dns sent (split url).hostname)
  ]

  pub finish : Response → Fetched
  unfolding read_text
  finish r =
      if is_error_status r.status
      then failed (response_error r.status)
      else read_text max_response_bytes content_types r

  -- Where a response leads: `none` is its end.
  pub redirect_of : Response → Option String
  redirect_of r = elim r.location [
    | none ↦ none
    | some location ↦
        if not (is_redirect r.status) || str_eq location ""
        then none
        else some (join r.url location)
  ]

  -- The rounds of the loop that are left, and for each connection its URL and the addresses that it may be to.
  pub get_rounds : ℕ → ℕ → String → Fetched × List (String × List IpAddress)
  unfolding refusal target_of finish redirect_of
  get_rounds zero sent url = (failed too_many_redirects, [])
  get_rounds (suc rounds) sent url = elim (refusal url) [
    | some r ↦ (failed (blocked_address r), [])
    | none ↦ elim (target_of sent url) [
      | unresolved e ↦ (failed (connector_error e), [])
      | reaches ips ↦ elim (server sent url) [
        | unreachable ↦ (failed (connector_error none), (url, ips) ∷ [])
        | received response ↦ elim (redirect_of response) [
          | none ↦ (finish response, (url, ips) ∷ [])
          | some target ↦
              (let (result, connections) = get_rounds rounds (suc sent) target in
                (result, (url, ips) ∷ connections))
        ]
      ]
    ]
  ]

  pub execute_get : ℕ → ℕ → String → Fetched × List (String × List IpAddress)
  unfolding get_rounds
  execute_get max_redirects sent url = get_rounds (max_redirects + 1) sent url

  -- A redirect is aiohttp's own affair here, and refused when addresses are checked: the answer is the
  -- last one, a status of 300 to 399 included.
  pub execute_post : ℕ → String → Fetched × List (String × List IpAddress)
  unfolding refusal target_of
  execute_post sent url = elim (refusal url) [
    | some r ↦ (failed (blocked_address r), [])
    | none ↦ elim (target_of sent url) [
      | unresolved e ↦ (failed (connector_error e), [])
      | reaches ips ↦ elim (server sent url) [
        | unreachable ↦ (failed (connector_error none), (url, ips) ∷ [])
        | received response ↦ (
          if is_error_status response.status then failed (response_error response.status) else json,
          (url, ips) ∷ [],
        )
      ]
    ]
  ]

-- `raise error.os_error from error`
pub unwrap : Fetched → Fetched
unwrap (body size) = body size
unwrap json = json
unwrap (failed (connector_error (some r))) = failed (blocked_address r)
unwrap (failed e) = failed e

-- Whether the client has a session: the first request opens it, `close` drops it.
pub record NetworkClient : Type 0 where
  pub allow_private_addresses : Bool
  pub max_response_bytes : ℕ
  pub max_redirects : ℕ
  pub session : Bool

module _ (split : String → UrlParts) (join : String → String → String) (dns : Dns)
    (server : Server) where
  -- `method` is upper case; the requests sent before are counted by the caller.
  pub emit_request :
      String
      → Option (List String)
      → ℕ
      → String
      → NetworkClient
      → (Fetched × List (String × List IpAddress)) × NetworkClient
  unfolding execute_get execute_post unwrap
  emit_request method content_types sent url c =
      let checked = not c.allow_private_addresses in
      let opened : NetworkClient = record c { session = true } in
      let get =
        execute_get split join dns server checked c.max_response_bytes content_types c.max_redirects
          sent url in
      let post =
        execute_post split join dns server checked c.max_response_bytes content_types sent url in
      if str_eq method "GET"
      then ((unwrap get.0, get.1), opened)
      else if str_eq method "POST"
      then ((unwrap post.0, post.1), opened)
      else ((failed unknown_method, []), opened)

pub close : NetworkClient → NetworkClient
close c = record c { session = false }
