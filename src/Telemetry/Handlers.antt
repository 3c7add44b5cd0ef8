-- ===== src/Telemetry/Handlers.antt =====
-- ui_bridge/telemetry_bridge.py: the handlers, and `put`.
use Prim.Native.String.{◌++◌ as ◌+++◌}
use crawl_viz.Base.{ℕ, String, Bool, true, false, Option, none, some, List, [], ◌∷◌}
use crawl_viz.Base.Texts.{Dict}
use crawl_viz.Models.{Link, Node}
use crawl_viz.Snapshot.{
  ErrorRecord, Phase, enqueued, started, completed, failed, increment, record_pipeline_event,
}
use crawl_viz.Telemetry.{
  TelemetryEvent, node_added, page_fetched, content_filtered, links_scored, priority_calculated,
  storage_node_updated, stop_crawl, request_enqueued, request_started, request_response_received,
  request_failed, extraction_started, link_extraction_completed, item_extraction_completed,
  processing_extraction_failed, filtering_enqueued, filtering_worker_cycle_started,
  filtering_pipeline_error, scoring_enqueued, scoring_started, scoring_completed, scoring_failed,
  high_score_links, low_score_links, priority_calculation_started, priority_calculation_failed,
  transformation_started, transformation_completed, transformation_failed,
  transformation_step_skipped, export_batch_started, export_batch_completed, export_batch_failed,
  export_row_failed, storage_operation_failed, retry_operation_failed, PipelineTick, Message,
  pipeline_event, TelemetryBridge, tick, report_error,
}
use crawl_viz.Telemetry.Nodes.{
  Handled, update, on_node_added, on_page_fetched, on_content_filtered, on_links_scored,
  on_priority_calculated, on_crawl_stopped, candidate_message,
}

-- `_tick(stage=…, phase="enqueued", …)` and the other shapes of a call of `_tick`.
abbrev enqueued_tick : String → String → ℕ → PipelineTick
enqueued_tick stage node_id queue_size = record {
  stage = stage;
  phase = enqueued;
  node_id = some node_id;
  worker_id = none;
  queue_size = some queue_size;
  duration_ms = none;
  detail = none;
}

abbrev started_tick : String → Option String → Option ℕ → Option String → PipelineTick
started_tick stage node_id worker_id detail = record {
  stage = stage;
  phase = started;
  node_id = node_id;
  worker_id = worker_id;
  queue_size = none;
  duration_ms = none;
  detail = detail;
}

abbrev ended_tick : Phase → String → Option String → String → PipelineTick
ended_tick phase stage node_id detail = record {
  stage = stage;
  phase = phase;
  node_id = node_id;
  worker_id = none;
  queue_size = none;
  duration_ms = none;
  detail = some detail;
}

unfoldable pub only_tick : ℕ → PipelineTick → TelemetryBridge → Handled
unfolding tick
only_tick now t b = let (m, b') = tick now t b in (m ∷ [], b')

unfoldable pub only_error : ErrorRecord → TelemetryBridge → Handled
unfolding report_error
only_error e b = let (m, b') = report_error e b in (m ∷ [], b')

-- A handler that returns `[self._tick(…), self._error(…)]`.
unfoldable pub tick_and_error : ℕ → PipelineTick → ErrorRecord → TelemetryBridge → Handled
unfolding tick report_error
tick_and_error now t e b =
    let (m, b') = tick now t b in let (n, b'') = report_error e b' in (m ∷ n ∷ [], b'')

unfoldable pub stage_failed : ℕ → String → String → String → String → TelemetryBridge → Handled
unfolding tick_and_error
stage_failed now stage node_id error_type error_message b =
    tick_and_error now (ended_tick failed stage (some node_id) error_message)
      (record {
        node_id = some node_id;
        stage = stage;
        error_type = error_type;
        error_message = error_message;
      })
      b

module _ (str : ℕ → String) (unquote : String → String) (nlp_vector : Link → Dict ℕ) where
  -- An export batch brings its own duration.
  unfoldable pub on_export_completed : String → ℕ → ℕ → TelemetryBridge → Handled
  unfolding update
  on_export_completed table inserted_count duration_ms b = (
    pipeline_event
          (record (ended_tick completed "export" none
            (table +++ ": " +++ str inserted_count +++ " rows")) { duration_ms = some duration_ms })
        ∷ [],
    update (record_pipeline_event "export" completed none (some duration_ms)) b,
  )

  unfoldable pub on_step_skipped : Node → String → ℕ → ℕ → TelemetryBridge → Handled
  unfolding only_error
  on_step_skipped node transform_type input_length limit = only_error (record {
    node_id = some (str node.id);
    stage = "transformation";
    error_type = "TransformSkipped";
    error_message =
        "The "
        +++ transform_type
        +++ " step was skipped: the field is "
        +++ str input_length
        +++ " characters and the limit is "
        +++ str limit
        +++ ". The field keeps its value from before the step.";
  })

  -- The stages from the priorities on, and the failures of the storage and the retries.
  unfoldable pub handle_late : ℕ → TelemetryEvent → TelemetryBridge → Handled
  unfolding only_tick stage_failed on_step_skipped on_export_completed tick_and_error only_error
  handle_late now (priority_calculation_started id worker) b =
      only_tick now (started_tick "priority" (some id) (some worker) none) b
  handle_late now (priority_calculation_failed node type message) b =
      stage_failed now "priority" (str node.id) type message b
  handle_late now (transformation_started id worker) b =
      only_tick now (started_tick "transformation" (some id) (some worker) none) b
  handle_late now (transformation_completed node n) b =
      only_tick now
        (ended_tick completed "transformation" (some (str node.id)) (str n +++ " items")) b
  handle_late now (transformation_failed node type message) b =
      stage_failed now "transformation" (str node.id) type message b
  handle_late now (transformation_step_skipped node type size limit) b =
      on_step_skipped node type size limit b
  handle_late now (export_batch_started table size) b =
      only_tick now
        (started_tick "export" none none (some (table +++ " (batch=" +++ str size +++ ")"))) b
  handle_late now (export_batch_completed table inserted duration) b =
      on_export_completed table inserted duration b
  handle_late now (export_batch_failed table type message) b =
      tick_and_error now (ended_tick failed "export" none (table +++ ": " +++ message))
        (record { node_id = none; stage = "export"; error_type = type; error_message = message }) b
  handle_late now (export_row_failed table field value type) b =
      only_error
        (record {
          node_id = none;
          stage = "export";
          error_type = type;
          error_message = table +++ "." +++ field +++ ": " +++ value;
        })
        b
  handle_late now (storage_operation_failed id type message) b =
      only_error
        (record {
          node_id = some id;
          stage = "storage";
          error_type = type;
          error_message = message;
        })
        b
  handle_late now (retry_operation_failed id stage type message) b =
      only_error
        (record {
          node_id = some id;
          stage = "retry:" +++ stage;
          error_type = type;
          error_message = message;
        })
        b
  handle_late now _ b = ([], b)

  unfoldable pub handle : ℕ → TelemetryEvent → TelemetryBridge → Handled
  unfolding on_node_added on_page_fetched on_content_filtered on_links_scored on_priority_calculated
      on_crawl_stopped only_tick stage_failed candidate_message handle_late update
  handle now (node_added node) b = on_node_added str unquote nlp_vector node b
  handle now (page_fetched node) b = on_page_fetched str unquote nlp_vector node b
  handle now (content_filtered node accepted rejected items) b =
      on_content_filtered str unquote nlp_vector node accepted rejected items b
  handle now (links_scored node links) b = on_links_scored str unquote nlp_vector node links b
  handle now (priority_calculated parent links) b =
      on_priority_calculated str unquote nlp_vector parent links b
  handle now (storage_node_updated items) b = ([], update (increment "total_items_stored" items) b)
  handle now (stop_crawl reason node_count max_depth duration detail) b =
      on_crawl_stopped str unquote nlp_vector reason node_count max_depth duration detail b
  handle now (request_enqueued id n) b = only_tick now (enqueued_tick "request" id n) b
  handle now (request_started id worker url) b =
      only_tick now (started_tick "request" (some id) (some worker) (some url)) b
  handle now (request_response_received id size) b =
      only_tick now (ended_tick completed "request" (some id) (str size +++ " B")) b
  handle now (request_failed node type message) b =
      stage_failed now "request" (str node.id) type message b
  handle now (extraction_started id worker) b =
      only_tick now (started_tick "extraction" (some id) (some worker) none) b
  handle now (link_extraction_completed id n) b =
      only_tick now (ended_tick completed "extraction" (some id) (str n +++ " links")) b
  handle now (item_extraction_completed id n) b = ([], b)
  handle now (processing_extraction_failed node type message) b =
      stage_failed now "extraction" (str node.id) type message b
  handle now (filtering_enqueued id n) b = only_tick now (enqueued_tick "filtering" id n) b
  handle now (filtering_worker_cycle_started id worker) b =
      only_tick now (started_tick "filtering" (some id) (some worker) none) b
  handle now (filtering_pipeline_error node type message) b =
      stage_failed now "filtering" (str node.id) type message b
  handle now (scoring_enqueued id n) b = only_tick now (enqueued_tick "scoring" id n) b
  handle now (scoring_started id worker) b =
      only_tick now (started_tick "scoring" (some id) (some worker) none) b
  handle now (scoring_completed node n) b =
      only_tick now (ended_tick completed "scoring" (some (str node.id)) (str n +++ " sent to LLM"))
        b
  handle now (scoring_failed node type message) b =
      stage_failed now "scoring" (str node.id) type message b
  handle now (high_score_links node links) b =
      candidate_message str unquote nlp_vector "trusted_no_llm" node links b
  handle now (low_score_links node links) b =
      candidate_message str unquote nlp_vector "dropped" node links b
  handle now e b = handle_late now e b

  abbrev pub is_stop : TelemetryEvent → Bool
  is_stop (stop_crawl _ _ _ _ _) = true
  is_stop _ = false

  -- The messages that are broadcast, whether the gateway is stopped after them, and the bridge.
  unfoldable pub put : ℕ → TelemetryEvent → TelemetryBridge → List Message × Bool × TelemetryBridge
  unfolding handle
  put now e b = let (messages, b') = handle now e b in (messages, is_stop e, b')
