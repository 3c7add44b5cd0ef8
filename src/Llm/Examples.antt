-- ===== src/Llm/Examples.antt =====
-- A provider whose first key is rejected, and a batch of two URLs.
use crawl_viz.Base.{ℕ, zero, ◌+◌, ◌≤◌, ◌≡◌, ◌≢◌, ◌↔◌, ◌⊎◌, refl, false, none, List, [], ◌∷◌, arith}
use crawl_viz.Base.Texts.{lookup}
use crawl_viz.Keys.{Provider}
use crawl_viz.Keys.Rotation.{IsReady}
use crawl_viz.Llm.{
  Provided, answered, response_error, send, common_url_prefix, commonprefix, shared, to_slash,
  up_to, remove_prefix, restore_url, restore_urls, has_scheme, starts_with, Url,
}
use crawl_viz.Llm.Attempts.{send-IsDone}
use crawl_viz.Llm.Prefix.{restore_url-remove_prefix}

abbrev provider : Provider
provider = record { keys = "a" ∷ "b" ∷ []; index = 0; timestamps = ("a", 0) ∷ ("b", 0) ∷ [] }

provider-IsReady : IsReady provider
unfolding lookup
provider-IsReady = record { place = omega arith; stamped = ((λ h. cc), ((λ h. cc), tt)) }

abbrev first_rejected : Provided
first_rejected sent key = elim sent [ zero ↦ response_error 401 | _ ↦ answered "ok" ]

send-IsDone_example :
    let (result, sent, p') = send first_rejected 60 (λ n. 1000 + n) "openai" provider in
    (result ≢ none) × (sent ≤ 2) × IsReady p'
send-IsDone_example =
    send-IsDone first_rejected 60 (λ n. 1000 + n) "openai" provider provider-IsReady

-- "x/a" and "x/b"
abbrev urls : List Url
urls = (120 ∷ 47 ∷ 97 ∷ []) ∷ (120 ∷ 47 ∷ 98 ∷ []) ∷ []

prefix : common_url_prefix urls ≡ 120 ∷ 47 ∷ []
unfolding common_url_prefix commonprefix shared to_slash up_to
prefix = refl

restored : restore_urls {A = ℕ} (120 ∷ 47 ∷ []) ((97 ∷ [], 80) ∷ []) ≡ (120 ∷ 47 ∷ 97 ∷ [], 80) ∷ []
unfolding restore_urls restore_url has_scheme starts_with
restored = refl

restore_url-remove_prefix_example :
    (restore_url
        (common_url_prefix urls)
        (remove_prefix (common_url_prefix urls) (120 ∷ 47 ∷ 98 ∷ []))
      ≡ 120 ∷ 47 ∷ 98 ∷ [])
    ↔ ((has_scheme (remove_prefix (common_url_prefix urls) (120 ∷ 47 ∷ 98 ∷ [])) ≡ false)
        ⊎ (common_url_prefix urls ≡ []))
restore_url-remove_prefix_example = restore_url-remove_prefix urls 1 refl
