-- ===== src/Telemetry.antt =====
-- ui_bridge/telemetry_bridge.py: the translation of the crawl's events into UI messages.
-- `str`, `unquote` and a link's `nlp_vector` are parameters. `now` is the monotonic clock, in hundredths
-- of a millisecond. The `ts` of a message is left out, as are failures of the gateway.
pub mod Nodes
pub mod Handlers
pub mod Replay
pub mod Pending
pub mod Stages
mod Examples
use Prim.Native.String.{◌++◌ as ◌+++◌}
use crawl_viz.Base.{
  ℕ, ◌+◌, ◌-◌, String, Bool, true, false, Option, none, some, List, [], ◌∷◌, ◌++◌, length, leb,
  ◌==◌, map, str_eq, if◌then◌else◌, ◌&&◌,
}
use crawl_viz.Base.Int.{ℤ}
use crawl_viz.Base.Texts.{Dict, lookup, insert, erase}
use crawl_viz.Models.{Link, Node}
use crawl_viz.Admission.{Candidate}
use crawl_viz.Snapshot.{
  NodeRecord, NodeDetailRecord, ErrorRecord, CandidateRecord, CrawlMetrics, CrawlStateSnapshot,
  Phase, started, completed, failed, enqueued, record_pipeline_event, add_error,
}

pub data TelemetryEvent : Type 0 where
  node_added : Node → TelemetryEvent
  page_fetched : Node → TelemetryEvent
  content_filtered : Node → ℕ → ℕ → ℕ → TelemetryEvent
  links_scored : Node → List Link → TelemetryEvent
  priority_calculated : Node → List Candidate → TelemetryEvent
  storage_node_updated : ℕ → TelemetryEvent
  stop_crawl : String → ℕ → ℕ → ℕ → Option String → TelemetryEvent
  request_enqueued : String → ℕ → TelemetryEvent
  request_started : String → ℕ → String → TelemetryEvent
  request_response_received : String → ℕ → TelemetryEvent
  request_failed : Node → String → String → TelemetryEvent
  extraction_started : String → ℕ → TelemetryEvent
  link_extraction_completed : String → ℕ → TelemetryEvent
  item_extraction_completed : String → ℕ → TelemetryEvent
  processing_extraction_failed : Node → String → String → TelemetryEvent
  filtering_enqueued : String → ℕ → TelemetryEvent
  filtering_worker_cycle_started : String → ℕ → TelemetryEvent
  filtering_pipeline_error : Node → String → String → TelemetryEvent
  scoring_enqueued : String → ℕ → TelemetryEvent
  scoring_started : String → ℕ → TelemetryEvent
  scoring_completed : Node → ℕ → TelemetryEvent
  scoring_failed : Node → String → String → TelemetryEvent
  high_score_links : Node → List Link → TelemetryEvent
  low_score_links : Node → List Link → TelemetryEvent
  priority_calculation_started : String → ℕ → TelemetryEvent
  priority_calculation_failed : Node → String → String → TelemetryEvent
  transformation_started : String → ℕ → TelemetryEvent
  transformation_completed : Node → ℕ → TelemetryEvent
  transformation_failed : Node → String → String → TelemetryEvent
  transformation_step_skipped : Node → String → ℕ → ℕ → TelemetryEvent
  export_batch_started : String → ℕ → TelemetryEvent
  export_batch_completed : String → ℕ → ℕ → TelemetryEvent
  export_batch_failed : String → String → String → TelemetryEvent
  export_row_failed : String → String → String → String → TelemetryEvent
  storage_operation_failed : String → String → String → TelemetryEvent
  retry_operation_failed : String → String → String → String → TelemetryEvent
  unsubscribed : TelemetryEvent

pub record PipelineTick : Type 0 where
  pub stage : String
  pub phase : Phase
  pub node_id : Option String
  pub worker_id : Option ℕ
  pub queue_size : Option ℕ
  pub duration_ms : Option ℕ
  pub detail : Option String

pub record ChildView : Type 0 where
  pub url : String
  pub score : ℕ
  pub priority : ℤ

pub record CandidateView : Type 0 where
  pub url : String
  pub nlp_score : ℕ
  pub nlp_breakdown : Dict ℕ

pub data Message : Type 0 where
  node_added_message : NodeRecord → Message
  node_scored_detail : NodeDetailRecord → Message
  node_state_changed : String → String → Dict ℕ → Message
  node_expanded : String → ℕ → List ChildView → Message
  crawl_stopped : String → ℕ → ℕ → ℕ → Option String → CrawlMetrics → Message
  pipeline_event : PipelineTick → Message
  node_error : ErrorRecord → Message
  candidate_evaluated : String → String → List CandidateView → Message

pub record PendingDetail : Type 0 where
  pub nlp_score : ℕ
  pub nlp_breakdown : Dict ℕ
  pub llm_score : Option ℕ
  pub priority : ℤ

-- `_stage_started_at`: the start of a stage at a node.
abbrev pub Starts : Type 0
Starts = List ((String × String) × ℕ)

pub record TelemetryBridge : Type 0 where
  pub snapshot : CrawlStateSnapshot
  pub priority_strategy_name : String
  pub stage_started_at : Starts
  pub pending_detail : Dict PendingDetail

abbrev pub max_pending_detail : ℕ
max_pending_detail = 2000

pub same_key : String × String → String → String → Bool
same_key (a, b) stage node_id = str_eq a stage && str_eq b node_id

pub started_at : String → String → Starts → Option ℕ
unfolding same_key
started_at stage node_id [] = none
started_at stage node_id ((k, t) ∷ rest) =
    let found = started_at stage node_id rest in if same_key k stage node_id then some t else found

pub forget_start : String → String → Starts → Starts
unfolding same_key
forget_start stage node_id [] = []
forget_start stage node_id ((k, t) ∷ rest) =
    let d = forget_start stage node_id rest in if same_key k stage node_id then d else (k, t) ∷ d

pub note_start : String → String → ℕ → Starts → Starts
unfolding same_key
note_start stage node_id now [] = ((stage, node_id), now) ∷ []
note_start stage node_id now ((k, t) ∷ rest) =
    let d = note_start stage node_id now rest in
    if same_key k stage node_id then (k, now) ∷ rest else (k, t) ∷ d

-- The duration that a tick closes.
pub duration_of : Phase → Option String → String → ℕ → Starts → Option ℕ
unfolding started_at
duration_of completed (some id) stage now d = elim (started_at stage id d) [
  | none ↦ none
  | some t ↦ some (now - t)
]
duration_of failed (some id) stage now d = elim (started_at stage id d) [
  | none ↦ none
  | some t ↦ some (now - t)
]
duration_of _ _ stage now d = none

pub starts_after : Phase → Option String → String → ℕ → Starts → Starts
unfolding note_start forget_start
starts_after started (some id) stage now d = note_start stage id now d
starts_after completed (some id) stage now d = forget_start stage id d
starts_after failed (some id) stage now d = forget_start stage id d
starts_after _ _ stage now d = d

-- `_tick`; the duration of the argument is not read.
pub tick : ℕ → PipelineTick → TelemetryBridge → Message × TelemetryBridge
unfolding duration_of starts_after record_pipeline_event
tick now t b =
    let duration = duration_of t.phase t.node_id t.stage now b.stage_started_at in
    (
      pipeline_event (record t { duration_ms = duration }),
      record b {
        snapshot = record_pipeline_event t.stage t.phase t.queue_size duration b.snapshot;
        stage_started_at = starts_after t.phase t.node_id t.stage now b.stage_started_at;
      },
    )

-- `_error`
pub report_error : ErrorRecord → TelemetryBridge → Message × TelemetryBridge
unfolding add_error
report_error e b = (node_error e, record b { snapshot = add_error e b.snapshot })
