-- ===== src/Stopping/Examples.antt =====
-- A crawl of at most two pages.
use crawl_viz.Base.{
  ℕ, ◌≡◌, refl, String, Bool, true, false, Option, none, some, List, [], ◌∷◌, length, sum_by, All,
}
use crawl_viz.Stopping.{
  StopConditions, StoppingState, new_stopping_state, StoppingEvent, node_added, page_fetched,
  process, watch, handle, on_page_fetched, check_time_conditions, stop_if, stop,
}
use crawl_viz.Stopping.Reasons.{flag, fetched, IsJustified, watch_once, process-IsJustified}

abbrev conditions : StopConditions
conditions = record { max_nodes = 2; max_duration = 100; no_progress_timeout = 30; target_url = "" }

abbrev anywhere : String → String → Bool
anywhere part url = true

abbrev history : List (Option StoppingEvent × (ℕ × ℕ))
history =
    (some (node_added "/a"), (0, 0))
    ∷ (some (page_fetched 0), (1, 1))
    ∷ (none, (2, 2))
    ∷ (some (page_fetched 1), (3, 3))
    ∷ (none, (200, 200))
    ∷ []

watch_once_example :
    let (es, s) = watch anywhere conditions history (new_stopping_state 0) in
    (length es ≡ flag s.stopped) × (s.node_count ≡ sum_by fetched history)
watch_once_example = watch_once anywhere conditions 0 history

first_page_runs :
    (process anywhere conditions (page_fetched 0) 1 1 (new_stopping_state 0)).1.stopped ≡ false
unfolding process handle on_page_fetched check_time_conditions stop_if stop
first_page_runs = refl

abbrev after_one : StoppingState
after_one = record {
  node_count = 1;
  max_seen_depth = 0;
  start_time = 0;
  last_activity_time = 1;
  stopped = false;
}

process-IsJustified_example :
    let (es, s') = process anywhere conditions (page_fetched 1) 3 3 after_one in
    All
      (λ c.
        IsJustified anywhere conditions 3 s' c.reason
        × (c.node_count ≡ s'.node_count)
        × (c.max_depth ≡ s'.max_seen_depth))
      es
process-IsJustified_example = process-IsJustified anywhere conditions (page_fetched 1) 3 3 after_one
