-- ===== src/Llm.antt =====
-- infrastructure/llm_handler.py and services/scoring_service.py: one request to an LLM provider, and the
-- shortening of the URLs in it. The translators and the HTTP client are the parameter `Provided`: the answer
-- to the n-th request with a key. A URL is its list of character codes here.
pub mod Attempts
pub mod Prefix
mod Examples
use crawl_viz.Base.{
  ℕ, zero, suc, ◌+◌, String, Bool, true, false, ◌&&◌, ◌||◌, Option, none, some, List, [], ◌∷◌, ◌++◌,
  length, max, leb, ◌==◌, map, drop, if◌then◌else◌,
}
use crawl_viz.Base.Texts.{contains}
use crawl_viz.Keys.{Provider, next_key, mark_invalid}

-- What a request comes to: a response, a ClientResponseError with its status, or another exception.
pub data Answer : Type 0 where
  answered : String → Answer
  response_error : ℕ → Answer
  other_error : Answer

abbrev pub Provided : Type 0
Provided = ℕ → Option String → Answer

pub data Sent : Type 0 where
  response : String → Sent
  unknown_scoring_type no_key_list : Sent
  raised : Answer → Sent

-- `LlmHandler.translators`
abbrev pub translators : List String
translators = "openrouter" ∷ "openai" ∷ "anthropic" ∷ "gemini" ∷ "nvidia" ∷ "groq" ∷ []

pub is_rejection : Answer → Bool
is_rejection (response_error status) = status == 401 || status == 403
is_rejection a = false

pub outcome : Answer → Sent
outcome (answered r) = response r
outcome a = raised a

-- `mark_invalid(llm_type, key)`; no key is in no list.
pub drop_key : Option String → Provider → Bool × Provider
drop_key none p = (false, p)
drop_key (some key) p = mark_invalid key p

module _ (provided : Provided) (cooldown : ℕ) (clock : ℕ → ℕ) where
  -- The rounds of the loop: the result, `none` when the rounds run out, how many requests were sent, and the
  -- provider's keys after them.
  pub rounds : ℕ → ℕ → Provider → Option Sent × ℕ × Provider
  unfolding is_rejection outcome drop_key
  rounds zero sent p = (none, sent, p)
  rounds (suc fuel) sent p = elim (next_key cooldown (clock sent) p) [
    | none ↦ (some no_key_list, sent, p)
    | some (key, p') ↦
        (let answer = provided sent key in
          let (dropped, p'') = drop_key key p' in
          let again = rounds fuel (suc sent) p'' in
          if is_rejection answer
          then (if dropped then again else (some (raised answer), suc sent, p'))
          else (some (outcome answer), suc sent, p'))
  ]

  -- A provider without keys is asked once, without a key.
  pub send : String → Provider → Option Sent × ℕ × Provider
  unfolding rounds
  send llm_type p =
      let r = rounds (max 1 (length p.keys)) 0 p in
      if contains translators llm_type then r else (some unknown_scoring_type, 0, p)

abbrev pub Url : Type 0
Url = List ℕ

abbrev pub slash : ℕ
slash = 47

pub shared : Url → Url → Url
shared [] v = []
shared (a ∷ u) [] = []
shared (a ∷ u) (b ∷ v) = let rest = shared u v in if a == b then a ∷ rest else []

-- `os.path.commonprefix`
pub commonprefix : List Url → Url
unfolding shared
commonprefix [] = []
commonprefix (u ∷ []) = u
commonprefix (u ∷ v ∷ us) = shared u (commonprefix (v ∷ us))

pub up_to : ℕ → Url → Url
up_to a [] = if a == slash then a ∷ [] else []
up_to a (b ∷ rest) = a ∷ b ∷ rest

-- `prefix[: prefix.rfind("/") + 1]`
pub to_slash : Url → Url
unfolding up_to
to_slash [] = []
to_slash (a ∷ u) = up_to a (to_slash u)

pub common_url_prefix : List Url → Url
unfolding commonprefix to_slash
common_url_prefix urls = if leb 2 (length urls) then to_slash (commonprefix urls) else []

pub starts_with : Url → Url → Bool
starts_with [] u = true
starts_with (a ∷ p) [] = false
starts_with (a ∷ p) (b ∷ u) = let rest = starts_with p u in (a == b) && rest

-- `d["url"].removeprefix(url_prefix)`
pub remove_prefix : Url → Url → Url
unfolding starts_with
remove_prefix prefix u = if starts_with prefix u then drop (length prefix) u else u

-- "http://" and "https://"
abbrev pub http_scheme : Url
http_scheme = 104 ∷ 116 ∷ 116 ∷ 112 ∷ 58 ∷ 47 ∷ 47 ∷ []

abbrev pub https_scheme : Url
https_scheme = 104 ∷ 116 ∷ 116 ∷ 112 ∷ 115 ∷ 58 ∷ 47 ∷ 47 ∷ []

pub has_scheme : Url → Bool
unfolding starts_with
has_scheme k = starts_with http_scheme k || starts_with https_scheme k

-- The key of a result, `k if k.startswith(("http://", "https://")) else prefix + k`.
pub restore_url : Url → Url → Url
unfolding has_scheme
restore_url prefix k = if has_scheme k then k else prefix ++ k

-- `_restore_urls` of an answer by URL: nothing is restored without a prefix.
pub restore_urls {ℓ} : {A : Type ℓ} → Url → List (Url × A) → List (Url × A)
unfolding restore_url
restore_urls [] results = results
restore_urls (a ∷ prefix) results = map (λ r. (restore_url (a ∷ prefix) r.0, r.1)) results
