-- ===== src/Stopping/Reasons.antt =====
-- A crawl is stopped at most once, for a reason that holds, and as soon as one does.
use crawl_viz.Base.{
  ℕ, ◌+◌, ◌≤◌, ◌<◌, ◌≡◌, ◌≢◌, String, Bool, true, false, Option, none, some, List, [], ◌∷◌, length,
  arith, sum_by, length-append, All, eq_iff,
}
use crawl_viz.Stopping.{
  StopConditions, StopReason, target_reached, max_nodes_reached, time_limit_reached, no_progress,
  StopCrawl, StoppingState, new_stopping_state, StoppingEvent, node_added, page_fetched,
  node_updated, stop_crawl, stop, stop_if, check_time_conditions, on_node_added, on_page_fetched,
  handle, process, watch,
}

abbrev pub flag : Bool → ℕ
flag true = 1
flag false = 0

abbrev pub fetched : Option StoppingEvent × (ℕ × ℕ) → ℕ
fetched (none, t) = 0
fetched (some (node_added url), t) = 0
fetched (some (page_fetched depth), t) = 1
fetched (some node_updated, t) = 0
fetched (some stop_crawl, t) = 0

module _ (in_url : String → String → Bool) (set : StopConditions) where
  -- What one operation may do to the state, and to the count of emitted stops.
  record Counts (es : List StopCrawl) (s s' : StoppingState) : Type 0 where
    once : length es + flag s.stopped ≡ flag s'.stopped
    start : s'.start_time ≡ s.start_time

  stop_if-Counts :
      (met : Bool) (r : StopReason) (now : ℕ) (s : StoppingState)
      → Counts (stop_if in_url set met r now s).0 s (stop_if in_url set met r now s).1
  unfolding stop_if stop
  stop_if-Counts met r now s = record { once = ground arith; start = ground arith }

  check-Counts :
      (now : ℕ) (s : StoppingState)
      → let (es, s') = check_time_conditions in_url set now s in
        Counts es s s' × (s'.node_count ≡ s.node_count)
  unfolding check_time_conditions stop_if stop
  check-Counts now s = (record { once = ground arith; start = ground arith }, ground arith)

  process-Counts :
      (e : StoppingEvent) (at now : ℕ) (s : StoppingState)
      → let (es, s') = process in_url set e at now s in
        Counts es s s' × (s'.node_count ≡ s.node_count + fetched (some e, (at, now)))
  unfolding process handle on_node_added on_page_fetched check_time_conditions stop_if stop
  process-Counts (node_added url) at now s =
      (record { once = ground arith; start = ground arith }, ground arith)
  process-Counts (page_fetched depth) at now s =
      (record { once = ground arith; start = ground arith }, ground arith)
  process-Counts node_updated at now s =
      (record { once = ground arith; start = ground arith }, ground arith)
  process-Counts stop_crawl at now s =
      (record { once = ground arith; start = ground arith }, ground arith)

  watch-Counts :
      (hist : List (Option StoppingEvent × (ℕ × ℕ))) (s : StoppingState)
      → let (es, s') = watch in_url set hist s in
        (length es + flag s.stopped ≡ flag s'.stopped)
        × (s'.node_count ≡ s.node_count + sum_by fetched hist)
  unfolding watch
  watch-Counts [] s = (omega arith, omega arith)
  watch-Counts ((none, (at, now)) ∷ rest) s =
      let (es, s') = check_time_conditions in_url set now s in
      let (c, n) = check-Counts now s in
      let r = watch-Counts rest s' in
      (omega (arith, c.once, r, length-append es (watch in_url set rest s').0), omega (arith, n, r))
  watch-Counts ((some e, (at, now)) ∷ rest) s =
      let (es, s') = process in_url set e at now s in
      let (c, n) = process-Counts e at now s in
      let r = watch-Counts rest s' in
      (omega (arith, c.once, r, length-append es (watch in_url set rest s').0), omega (arith, n, r))

  -- Whatever the events, the rounds of the timer and the clock, a crawl emits exactly one stop if
  -- it ends up stopped and none otherwise, and it has counted exactly the pages that were fetched.
  pub watch_once :
      (start : ℕ) (hist : List (Option StoppingEvent × (ℕ × ℕ)))
      → let (es, s) = watch in_url set hist (new_stopping_state start) in
        (length es ≡ flag s.stopped) × (s.node_count ≡ sum_by fetched hist)
  watch_once start hist =
      let r = watch-Counts hist (new_stopping_state start) in (omega (arith, r), omega (arith, r))

  abbrev pub IsFetch : StoppingEvent → Type 0
  IsFetch (page_fetched depth) = Unit {0}
  IsFetch (node_added url) = ⊥
  IsFetch node_updated = ⊥
  IsFetch stop_crawl = ⊥

  -- A crawl that goes on after an event is within its time limit and its time without progress,
  -- and if a page was fetched, below its number of pages.
  pub process-running :
      (e : StoppingEvent) (at now : ℕ) (s : StoppingState)
      → let (es, s') = process in_url set e at now s in
        s'.stopped ≡ false
        → (now < s'.start_time + set.max_duration)
          × (now < s'.last_activity_time + set.no_progress_timeout)
          × (IsFetch e → s'.node_count < set.max_nodes)
  unfolding process handle on_node_added on_page_fetched check_time_conditions stop_if stop
  process-running (node_added url) at now s h = (ground arith, ground arith, λ v. elim v [ ])
  process-running (page_fetched depth) at now s h = (ground arith, ground arith, λ v. ground arith)
  process-running node_updated at now s h = (ground arith, ground arith, λ v. elim v [ ])
  process-running stop_crawl at now s h = (ground arith, ground arith, λ v. elim v [ ])

  -- What the reason of a stop says of the state after the event.
  abbrev pub IsJustified : ℕ → StoppingState → StopReason → Type 0
  IsJustified now s (target_reached url) =
      (set.target_url ≢ "") × (in_url set.target_url url ≡ true)
  IsJustified now s max_nodes_reached = set.max_nodes ≤ s.node_count
  IsJustified now s time_limit_reached = s.start_time + set.max_duration ≤ now
  IsJustified now s no_progress = s.last_activity_time + set.no_progress_timeout ≤ now

  -- Every stop that an event leads to gives a reason that holds, and the counts of that moment.
  pub process-IsJustified :
      (e : StoppingEvent) (at now : ℕ) (s : StoppingState)
      → let (es, s') = process in_url set e at now s in
        All
          (λ c.
            IsJustified now s' c.reason
            × (c.node_count ≡ s'.node_count)
            × (c.max_depth ≡ s'.max_seen_depth))
          es
  unfolding process handle on_node_added on_page_fetched check_time_conditions stop_if stop
  process-IsJustified (node_added url) at now s = ground (arith, eq_iff set.target_url "")
  process-IsJustified (page_fetched depth) at now s = ground arith
  process-IsJustified node_updated at now s = ground (arith, eq_iff set.target_url "")
  process-IsJustified stop_crawl at now s = ground arith
