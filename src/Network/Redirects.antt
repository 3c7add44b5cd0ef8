-- ===== src/Network/Redirects.antt =====
-- What a GET may connect to, how often, and how much it reads.
use crawl_viz.Base.{
  ℕ, zero, suc, ◌+◌, ◌≤◌, ◌≡◌, subst, refl, String, Bool, true, false, Option, none, some, List, [],
  ◌∷◌, length, ltb, All, if◌then◌else◌, arith, Bool-cases, Option-cases, inl, inr, not, ◌⊎◌,
}
use crawl_viz.Network.Guard.{
  UrlParts, Refusal, IpAddress, judged, is_blocked_address, any_blocked, ensure_public_url, resolve,
}
use crawl_viz.Network.{
  Dns, Target, reaches, unresolved, looked_up, target_of, Server, Answer, received, unreachable,
  Response, Fetched, body, read_chunks, read_text, body_or_error, is_error_status, type_accepted,
  announced, refusal, finish, redirect_of, get_rounds, execute_get,
}

-- A body that was read is within the limit.
abbrev IsWithin : ℕ → Fetched → Type 0
IsWithin limit (body size) = size ≤ limit
IsWithin limit f = Unit

read_chunks-size :
    (limit size : ℕ) (chunks : List ℕ)
    → size ≤ limit
    → IsWithin limit (body_or_error (read_chunks limit size chunks).0)
unfolding read_chunks body_or_error
read_chunks-size limit size [] h = h
read_chunks-size limit size (c ∷ cs) h = elim (Bool-cases (ltb limit (size + c))) [
  | inl over ↦ rw over tt
  | inr fits ↦ rw fits (read_chunks-size limit (size + c) cs (ground (arith, fits)))
]

-- However long a body is, no more of it is read than the limit and one chunk.
pub read_chunks-read_le :
    (limit chunk size : ℕ) (chunks : List ℕ)
    → size ≤ limit
    → All (λ c. c ≤ chunk) chunks
    → (read_chunks limit size chunks).1 ≤ limit + chunk
unfolding read_chunks
read_chunks-read_le limit chunk size [] h small = omega arith
read_chunks-read_le limit chunk size (c ∷ cs) h small = elim (Bool-cases (ltb limit (size + c))) [
  | inl over ↦ rw over (omega (arith, small.0))
  | inr fits ↦
      rw fits (read_chunks-read_le limit chunk (size + c) cs (ground (arith, fits)) small.1)
]

-- An address that is neither multicast nor of a network of its own, the IPv4 address that it carries if any.
abbrev pub IsPublic : IpAddress → Type 0
IsPublic ip = ((judged ip).is_multicast ≡ false) × ((judged ip).is_global ≡ true)

is_blocked_address-IsPublic : (ip : IpAddress) → is_blocked_address ip ≡ false → IsPublic ip
unfolding is_blocked_address
is_blocked_address-IsPublic ip h = ground (arith, h)

any_blocked-IsPublic : (ips : List IpAddress) → any_blocked ips ≡ false → All IsPublic ips
unfolding any_blocked
any_blocked-IsPublic [] h = tt
any_blocked-IsPublic (ip ∷ ips) h = (
  is_blocked_address-IsPublic ip (ground (arith, h)),
  any_blocked-IsPublic ips (ground (arith, h)),
)

abbrev pub Connection : Type 0
Connection = String × List IpAddress

-- What was fetched and what was connected to for it.
abbrev IsSafe : ℕ → ℕ → Fetched × List Connection → Type 0
IsSafe limit rounds (result, connections) =
    All (λ c. All IsPublic c.1) connections × (length connections ≤ rounds) × IsWithin limit result

Answer-cases : (a : Answer) → (a ≡ unreachable) ⊎ ((r : Response) × (a ≡ received r))
Answer-cases unreachable = inl refl
Answer-cases (received r) = inr (r, refl)

Target-cases :
    (t : Target)
    → ((e : Option Refusal) × (t ≡ unresolved e)) ⊎ ((ips : List IpAddress) × (t ≡ reaches ips))
Target-cases (unresolved e) = inl (e, refl)
Target-cases (reaches ips) = inr (ips, refl)

abbrev TargetOk : Target → Type 0
TargetOk (unresolved e) = Unit
TargetOk (reaches ips) = All IsPublic ips

module _ (split : String → UrlParts) (join : String → String → String) (dns : Dns) (server : Server)
    (max_response_bytes : ℕ) (content_types : Option (List String)) where
  finish-IsWithin :
      (r : Response)
      → IsWithin max_response_bytes
          (finish split join dns server true max_response_bytes content_types r)
  unfolding finish read_text
  finish-IsWithin r = either (is_error_status r.status) _ _ tt (
      either (not (type_accepted content_types r.content_type)) _ _ tt (
        either (ltb max_response_bytes (announced r.content_length)) _ _ tt
          (read_chunks-size max_response_bytes 0 r.chunks (omega arith))))
    where
      either :
          (b : Bool) (x y : Fetched)
          → IsWithin max_response_bytes x
          → IsWithin max_response_bytes y
          → IsWithin max_response_bytes (if b then x else y)
      either true x y h k = h
      either false x y h k = k

  looked_up-TargetOk :
      (names : Option (List IpAddress))
      → TargetOk (looked_up split join dns server true max_response_bytes content_types names)
  unfolding looked_up resolve
  looked_up-TargetOk none = tt
  looked_up-TargetOk (some ips) = elim (Bool-cases (any_blocked ips)) [
    | inl bad ↦ rw (TargetOk, bad) tt
    | inr good ↦ rw (TargetOk, good) (any_blocked-IsPublic ips good)
  ]

  -- A URL that the check lets pass reaches public addresses only, if it reaches any.
  target_of-TargetOk :
      (sent : ℕ) (url : String)
      → ensure_public_url (split url) ≡ none
      → TargetOk (target_of split join dns server true max_response_bytes content_types sent url)
  unfolding target_of ensure_public_url
  target_of-TargetOk sent url h = elim (Option-cases (split url).address) [
    | inl named ↦ rw (TargetOk, named) (looked_up-TargetOk (dns sent (split url).hostname))
    | inr (ip, literal) ↦
        rw (TargetOk, literal) (is_blocked_address-IsPublic ip (ground (arith, h, literal)), tt)
  ]

  -- A round whose URL reaches public addresses, and the rounds after it.
  answered :
      (rounds sent : ℕ) (url : String) (ips : List IpAddress)
      → ensure_public_url (split url) ≡ none
      → target_of split join dns server true max_response_bytes content_types sent url ≡ reaches ips
      → All IsPublic ips
      → ((target : String)
          → IsSafe max_response_bytes rounds (
              get_rounds split join dns server true max_response_bytes content_types rounds
                (suc sent)
                target))
      → IsSafe max_response_bytes (suc rounds) (
          get_rounds split join dns server true max_response_bytes content_types
            (suc rounds)
            sent
            url)
  unfolding get_rounds refusal
  answered rounds sent url ips allowed found public later = elim (Answer-cases (server sent url)) [
    | inl lost ↦ rw (get_rounds, refusal, allowed, found, lost) ((public, tt), omega arith, tt)
    | inr (response, got) ↦
        elim (Option-cases
          (redirect_of split join dns server true max_response_bytes content_types response)) [
            | inl last ↦
                rw (get_rounds, refusal, allowed, found, got, last)
                  ((public, tt), omega arith, finish-IsWithin response)
            | inr (target, next) ↦
                (let (hosts, count, size) = later target in
                  rw (get_rounds, refusal, allowed, found, got, next)
                    ((public, hosts), omega (arith, count), size))
          ]
  ]

  get_rounds-IsSafe :
      (rounds sent : ℕ) (url : String)
      → IsSafe max_response_bytes rounds
          (get_rounds split join dns server true max_response_bytes content_types rounds sent url)
  unfolding get_rounds refusal
  get_rounds-IsSafe zero sent url = (tt, omega arith, tt)
  get_rounds-IsSafe (suc rounds) sent url = elim (Option-cases (ensure_public_url (split url))) [
    | inr (r, blocked) ↦ rw (get_rounds, refusal, blocked) (tt, omega arith, tt)
    | inl allowed ↦
        (let target =
            target_of split join dns server true max_response_bytes content_types sent url in
          let ok = target_of-TargetOk sent url allowed in
          elim (Target-cases target) [
            | inl (e, lost) ↦ rw (get_rounds, refusal, allowed, lost) (tt, omega arith, tt)
            | inr (ips, found) ↦
                answered rounds sent url ips allowed found (subst TargetOk found ok)
                  (get_rounds-IsSafe rounds (suc sent))
          ])
  ]

-- Whatever names resolve to, a GET with the address check on connects to public addresses only,
-- redirect targets included, at most once more often than the redirect limit; and a body that it
-- returns is within the size limit.
pub execute_get-IsSafe :
    (split : String → UrlParts) (join : String → String → String) (dns : Dns) (server : Server)
    (max_response_bytes : ℕ) (content_types : Option (List String)) (max_redirects sent : ℕ)
    (url : String)
    → let (result, connections) =
        execute_get split join dns server true max_response_bytes content_types max_redirects sent
          url in
      All (λ c. All IsPublic c.1) connections
      × (length connections ≤ max_redirects + 1)
      × ((size : ℕ) → result ≡ body size → size ≤ max_response_bytes)
unfolding execute_get
execute_get-IsSafe split join dns server max_response_bytes content_types max_redirects sent url =
    let (hosts, count, size) =
      get_rounds-IsSafe split join dns server max_response_bytes content_types (max_redirects + 1)
        sent url in
    (hosts, count, λ n e. subst (IsWithin max_response_bytes) e size)
