-- ===== src/Requests/Pace.antt =====
-- Every fetch has one outcome, keeps its distance and a bounded backoff.
use crawl_viz.Base.{
  ℕ, ◌+◌, ◌≤◌, ◌≡◌, refl, Bool, true, false, Option, none, some, List, [], ◌∷◌, ◌++◌, max, arith,
  ap, ◌∙◌, subst, map,
}
use crawl_viz.Models.{UrlRules, Node}
use crawl_viz.Requests.{
  PaceSettings, PaceState, Answer, page, error, Turn, FetchEvent, request_started,
  response_received, page_fetched, request_failed, delay_at, backoff_after, settle, fetch_if, fetch,
  fetch_all,
}

-- The nodes whose fetch some events report as ended, and the nodes whose fetch they report as begun.
abbrev pub ended : List FetchEvent → List ℕ
ended [] = []
ended (request_started i u ∷ es) = ended es
ended (response_received i ∷ es) = ended es
ended (page_fetched i p u c ∷ es) = i ∷ ended es
ended (request_failed i t m ∷ es) = i ∷ ended es

module _ (set : PaceSettings) (rules : UrlRules) where
  settle-ended : (n : Node) (a : Answer) (s : PaceState) → ended (settle set n a s).0 ≡ n.id ∷ []
  unfolding settle
  settle-ended n (page c) s = refl
  settle-ended n (error r t m) s = refl

  fetch_if-ended :
      (robots : Option Bool) (n : Node) (t : Turn) (s : PaceState)
      → ended (fetch_if set robots rules n t s).0 ≡ n.id ∷ []
  unfolding fetch_if
  fetch_if-ended none n t s = settle-ended n t.answer _
  fetch_if-ended (some true) n t s = settle-ended n t.answer _
  fetch_if-ended (some false) n t s = refl

  ended-append : (es fs : List FetchEvent) → ended (es ++ fs) ≡ ended es ++ ended fs
  ended-append [] fs = refl
  ended-append (request_started i u ∷ es) fs = ended-append es fs
  ended-append (response_received i ∷ es) fs = ended-append es fs
  ended-append (page_fetched i p u c ∷ es) fs = ap (λ l. i ∷ l) (ended-append es fs)
  ended-append (request_failed i t m ∷ es) fs = ap (λ l. i ∷ l) (ended-append es fs)

  -- Each node that a worker takes ends in one report, that its page was fetched or that its request
  -- failed, and the reports come in the order of the nodes.
  pub fetch_all-ended :
      (turns : List (Node × Turn)) (s : PaceState)
      → ended (fetch_all set rules turns s).0 ≡ map (λ e. e.0.id) turns
  unfolding fetch_all fetch
  fetch_all-ended [] s = refl
  fetch_all-ended ((n, t) ∷ rest) s =
      let (es, _, s') = fetch set rules n t s in
      ended-append es (fetch_all set rules rest s').0
      ∙ cc (fetch_if-ended t.robots n t s, fetch_all-ended rest s')

  -- Decays that do not let the backoff grow, as factors of at most 1 do.
  abbrev pub IsDecaying : Type 0
  IsDecaying = (d : ℕ) → (set.success_decay d ≤ d) × (set.failure_decay d ≤ d)

  abbrev pub limit : ℕ
  limit = max set.backoff_start set.max_backoff

  settle-backoff :
      (n : Node) (a : Answer) (s : PaceState)
      → IsDecaying
      → s.backoff_delay ≤ limit
      → (settle set n a s).1.backoff_delay ≤ limit
  unfolding settle backoff_after
  settle-backoff n (page c) s d h = omega (arith, d s.backoff_delay)
  settle-backoff n (error r t m) s d h = ground (arith, d s.backoff_delay)

  fetch_if-backoff :
      (robots : Option Bool) (n : Node) (t : Turn) (s : PaceState)
      → IsDecaying
      → s.backoff_delay ≤ limit
      → (fetch_if set robots rules n t s).2.backoff_delay ≤ limit
  unfolding fetch_if
  fetch_if-backoff none n t s d h = settle-backoff n t.answer _ d h
  fetch_if-backoff (some true) n t s d h = settle-backoff n t.answer _ d h
  fetch_if-backoff (some false) n t s d h = h

  -- A backoff within the larger of its start value and its maximum stays within it, whatever is
  -- fetched and however it ends, if the decays do not let it grow.
  pub fetch_all-backoff_le :
      (turns : List (Node × Turn)) (s : PaceState)
      → IsDecaying
      → s.backoff_delay ≤ limit
      → (fetch_all set rules turns s).1.backoff_delay ≤ limit
  unfolding fetch_all fetch
  fetch_all-backoff_le [] s d h = h
  fetch_all-backoff_le ((n, t) ∷ rest) s d h =
      fetch_all-backoff_le rest _ d (fetch_if-backoff t.robots n t s d h)

  abbrev Keeps : ℕ → PaceState → Option ℕ → Type 0
  Keeps now s none = Unit {0}
  Keeps now s (some pause) = s.last_request_time + set.min_delay ≤ now + pause

  fetch_if-Keeps :
      (robots : Option Bool) (n : Node) (t : Turn) (s : PaceState)
      → Keeps t.now s (fetch_if set robots rules n t s).1
  unfolding fetch_if delay_at
  fetch_if-Keeps none n t s = omega arith
  fetch_if-Keeps (some true) n t s = omega arith
  fetch_if-Keeps (some false) n t s = tt

  -- A worker that pauses as long as it computed requests no sooner than the minimum delay after
  -- the request that was the last when it computed the pause.
  pub fetch-pause :
      (n : Node) (t : Turn) (s : PaceState) {pause : ℕ}
      → (fetch set rules n t s).1 ≡ some pause
      → s.last_request_time + set.min_delay ≤ t.now + pause
  unfolding fetch
  fetch-pause n t s h = subst (Keeps t.now s) h (fetch_if-Keeps t.robots n t s)
