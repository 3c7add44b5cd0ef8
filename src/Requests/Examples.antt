-- ===== src/Requests/Examples.antt =====
-- A page, a refusal of robots.txt and two answers of 429.
use crawl_viz.Base.{
  ℕ, ◌+◌, ◌/◌, ◌*◌, ◌≤◌, ◌≡◌, refl, true, false, Option, none, some, List, [], ◌∷◌, map, arith,
}
use crawl_viz.Models.{UrlRules, Domain, Node, seed_node}
use crawl_viz.Requests.{
  PaceSettings, PaceState, new_pace, Answer, page, error, Turn, fetch, fetch_if, fetch_all,
  delay_at,
}
use crawl_viz.Requests.Pace.{ended, IsDecaying, limit, fetch_all-ended, fetch_all-backoff_le}

abbrev rules : UrlRules
rules = record { build_url = λ base path. path; normalize_url = λ u. u }

abbrev site : Domain
site = record { name = "site"; base_url = "https://h"; link_selector = "//a" }

abbrev node : ℕ → Node
node i = seed_node rules i "/a" site

abbrev settings : PaceSettings
settings = record {
  min_delay = 1_000;
  backoff_start = 1_000;
  max_backoff = 10_000;
  grow = λ d. 2 * d;
  success_decay = λ d. d / 2;
  failure_decay = λ d. d / 2;
}

abbrev turn : Option ℕ → Answer → Turn
turn none answer = record {
  robots = some false;
  now = 500;
  jitter = 20;
  resumed = 2_000;
  answer = answer;
}
turn (some now) answer = record {
  robots = none;
  now = now;
  jitter = 20;
  resumed = now + 1_000;
  answer = answer;
}

abbrev turns : List (Node × Turn)
turns =
    (node 0, turn (some 0) (page "<p>"))
    ∷ (node 1, turn none (page ""))
    ∷ (node 2, turn (some 3_000) (error true "ClientResponseError" "429"))
    ∷ (node 3, turn (some 9_000) (error true "ClientResponseError" ""))
    ∷ []

settings-IsDecaying : IsDecaying settings rules
settings-IsDecaying d = (omega arith, omega arith)

fetch_all-ended_example :
    ended (fetch_all settings rules turns new_pace).0 ≡ map (λ e. e.0.id) turns
fetch_all-ended_example = fetch_all-ended settings rules turns new_pace

abbrev pace : PaceState
pace = record { last_request_time = 0; backoff_delay = 0 }

fetch_all-backoff_le_example :
    (fetch_all settings rules turns pace).1.backoff_delay ≤ limit settings rules
fetch_all-backoff_le_example =
    fetch_all-backoff_le settings rules turns pace settings-IsDecaying (omega arith)

pauses : (fetch settings rules (node 0) (turn (some 400) (page "<p>")) pace).1 ≡ some 620
unfolding fetch fetch_if delay_at
pauses = refl
