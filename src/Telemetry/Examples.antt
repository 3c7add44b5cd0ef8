-- ===== src/Telemetry/Examples.antt =====
-- A bridge that sees a few events of a crawl.
use crawl_viz.Base.{ℕ, ◌≡◌, refl, String, none, some, []}
use crawl_viz.Base.Texts.{Dict, insert, lookup}
use crawl_viz.Models.{Link}
use crawl_viz.Snapshot.{
  new_snapshot, all_new, ErrorRecord, record_pipeline_event, stats_of, count_phase, add_duration,
}
use crawl_viz.Telemetry.{
  TelemetryBridge, request_started, request_response_received, filtering_worker_cycle_started, tick,
  duration_of, starts_after, started_at, note_start, forget_start, same_key,
}
use crawl_viz.Telemetry.Handlers.{put, handle, only_tick}
use crawl_viz.Telemetry.Replay.{without_metrics, apply_all, put-apply_all}
use crawl_viz.Telemetry.Stages.{completions, put-completions}

abbrev str : ℕ → String
str n = "7"

abbrev unquote : String → String
unquote url = url

abbrev no_vector : Link → Dict ℕ
no_vector link = []

bridge : TelemetryBridge
unfolding new_snapshot
bridge = record {
  snapshot = new_snapshot 4000 1000;
  priority_strategy_name = "balanced";
  stage_started_at = [];
  pending_detail = [];
}

abbrev page_link : Link
page_link = record {
  url = "/a";
  anchor = "a";
  context = "";
  score = some 80;
  nlp_score = 4;
  relevance_type = none;
  expansions = [];
}

-- One request, from its start to its answer.
requested : TelemetryBridge
unfolding put
requested =
    (put str unquote no_vector 350 (request_response_received "7" 10)
      (put str unquote no_vector 100 (request_started "7" 0 "/a") bridge).2).2

request_completed : completions "request" requested.snapshot ≡ 1
unfolding requested bridge completions put handle only_tick tick duration_of starts_after started_at
    note_start forget_start same_key new_snapshot all_new record_pipeline_event stats_of count_phase
    add_duration insert lookup
request_completed = refl

put-apply_all_example :
    let (messages, stops, b') = put str unquote no_vector 100 (request_started "7" 0 "/a") bridge in
    without_metrics b'.snapshot ≡ apply_all messages (without_metrics bridge.snapshot)
put-apply_all_example = put-apply_all str unquote no_vector 100 (request_started "7" 0 "/a") bridge

put-completions_example :
    let (messages, stops, b') =
      put str unquote no_vector 100 (filtering_worker_cycle_started "7" 0) requested in
    completions "filtering" b'.snapshot ≡ completions "filtering" requested.snapshot
put-completions_example =
    put-completions str unquote no_vector "filtering" 100 (filtering_worker_cycle_started "7" 0)
      requested refl

abbrev error : String → ErrorRecord
error message = record {
  node_id = none;
  stage = "export";
  error_type = "OSError";
  error_message = message;
}
