-- ===== src/Stopping.antt =====
-- pipelines/stopping_pipeline.py: when a crawl ends.
-- The clock is an argument `now` of each operation; a time condition `now - t >= limit` is written
-- `t + limit <= now`, which holds at the same times. `in_url` is Python's `in` on texts.
pub mod Reasons
mod Examples
use crawl_viz.Base.{
  ℕ, suc, ◌+◌, ◌-◌, String, Option, none, some, Bool, true, false, not, ◌&&◌, List, [], ◌∷◌, ◌++◌,
  leb, max, if◌then◌else◌, str_eq,
}

pub record StopConditions : Type 0 where
  pub max_nodes : ℕ
  pub max_duration : ℕ
  pub no_progress_timeout : ℕ
  pub target_url : String

pub data StopReason : Type 0 where
  target_reached : String → StopReason
  max_nodes_reached time_limit_reached no_progress : StopReason

pub record StopCrawl : Type 0 where
  pub reason : StopReason
  pub node_count : ℕ
  pub max_depth : ℕ
  pub duration : ℕ

pub record StoppingState : Type 0 where
  pub node_count : ℕ
  pub max_seen_depth : ℕ
  pub start_time : ℕ
  pub last_activity_time : ℕ
  pub stopped : Bool

abbrev pub new_stopping_state : ℕ → StoppingState
new_stopping_state now = record {
  node_count = 0;
  max_seen_depth = 0;
  start_time = now;
  last_activity_time = now;
  stopped = false;
}

pub data StoppingEvent : Type 0 where
  node_added : String → StoppingEvent
  page_fetched : ℕ → StoppingEvent
  node_updated stop_crawl : StoppingEvent

module _ (in_url : String → String → Bool) (set : StopConditions) where
  -- `_stop`: the lock lets one caller at a time in, and the first one emits.
  pub stop : StopReason → ℕ → StoppingState → List StopCrawl × StoppingState
  stop reason now s = if s.stopped then ([], s) else (
    record {
      reason = reason;
      node_count = s.node_count;
      max_depth = s.max_seen_depth;
      duration = now - s.start_time;
    }
        ∷ [],
    record s { stopped = true },
  )

  pub stop_if : Bool → StopReason → ℕ → StoppingState → List StopCrawl × StoppingState
  unfolding stop
  stop_if met reason now s = if met then stop reason now s else ([], s)

  pub check_time_conditions : ℕ → StoppingState → List StopCrawl × StoppingState
  unfolding stop_if
  check_time_conditions now s =
      let (es, s') = stop_if (leb (s.start_time + set.max_duration) now) time_limit_reached now s in
      let (fs, s'') =
        stop_if (leb (s'.last_activity_time + set.no_progress_timeout) now) no_progress now s' in
      (es ++ fs, s'')

  pub on_node_added : String → ℕ → StoppingState → List StopCrawl × StoppingState
  unfolding stop_if
  on_node_added url now s =
      stop_if (not (str_eq set.target_url "") && in_url set.target_url url) (target_reached url) now
        (record s { last_activity_time = now })

  unfoldable pub on_page_fetched : ℕ → ℕ → StoppingState → List StopCrawl × StoppingState
  unfolding stop_if
  on_page_fetched depth now s =
      let s' : StoppingState = record s {
        node_count = suc s.node_count;
        max_seen_depth = max s.max_seen_depth depth;
        last_activity_time = now;
      } in
      stop_if (leb set.max_nodes s'.node_count) max_nodes_reached now s'

  pub handle : StoppingEvent → ℕ → StoppingState → List StopCrawl × StoppingState
  unfolding on_node_added on_page_fetched
  handle (node_added url) now s = on_node_added url now s
  handle (page_fetched depth) now s = on_page_fetched depth now s
  handle node_updated now s = ([], record s { last_activity_time = now })
  handle stop_crawl now s = ([], s)

  -- `_process`: the handler at time `at`, then the time check at time `now`.
  unfoldable pub process : StoppingEvent → ℕ → ℕ → StoppingState → List StopCrawl × StoppingState
  unfolding handle check_time_conditions
  process e at now s =
      let (es, s') = handle e at s in
      let (fs, s'') = check_time_conditions now s' in (es ++ fs, s'')

  -- A history: events with their two readings of the clock; `none` is a round of `_time_watch`.
  pub watch : List (Option StoppingEvent × (ℕ × ℕ)) → StoppingState → List StopCrawl × StoppingState
  unfolding process check_time_conditions
  watch [] s = ([], s)
  watch ((none, (at, now)) ∷ rest) s =
      let (es, s') = check_time_conditions now s in let (fs, s'') = watch rest s' in (es ++ fs, s'')
  watch ((some e, (at, now)) ∷ rest) s =
      let (es, s') = process e at now s in let (fs, s'') = watch rest s' in (es ++ fs, s'')
