-- ===== src/Telemetry/Replay.antt =====
-- A client that got a full snapshot once and then applies each message sees what the snapshot holds.
use crawl_viz.Base.{
  ℕ, ◌≡◌, refl, ap, ◌∙◌, String, Option, none, some, List, [], ◌∷◌, map, Option-cases, inl, inr,
}
use crawl_viz.Base.Texts.{Dict, lookup, erase}
use crawl_viz.Models.{Link, Node}
use crawl_viz.Snapshot.{
  CrawlStateSnapshot, add_node, set_node_state, increment, mark_stopped, add_candidate,
  set_node_detail, record_pipeline_event, add_error,
}
use crawl_viz.Telemetry.{
  TelemetryEvent, node_added, page_fetched, content_filtered, links_scored, priority_calculated,
  storage_node_updated, stop_crawl, request_enqueued, request_started, request_response_received,
  request_failed, extraction_started, link_extraction_completed, item_extraction_completed,
  processing_extraction_failed, filtering_enqueued, filtering_worker_cycle_started,
  filtering_pipeline_error, scoring_enqueued, scoring_started, scoring_completed, scoring_failed,
  high_score_links, low_score_links, priority_calculation_started, priority_calculation_failed,
  transformation_started, transformation_completed, transformation_failed,
  transformation_step_skipped, export_batch_started, export_batch_completed, export_batch_failed,
  export_row_failed, storage_operation_failed, retry_operation_failed, unsubscribed, CandidateView,
  Message, node_added_message, node_scored_detail, node_state_changed, node_expanded, crawl_stopped,
  pipeline_event, node_error, candidate_evaluated, PendingDetail, TelemetryBridge, tick,
  report_error,
}
use crawl_viz.Telemetry.Nodes.{
  update, moved, on_node_added, attach_detail, node_record, on_page_fetched, on_content_filtered,
  on_links_scored, on_priority_calculated, on_crawl_stopped, add_candidates, candidate_view,
  candidate_message,
}
use crawl_viz.Telemetry.Handlers.{
  put, handle, only_tick, only_error, tick_and_error, stage_failed, on_export_completed,
  on_step_skipped,
}

-- The counters are sent with the last message only.
abbrev pub without_metrics : CrawlStateSnapshot → CrawlStateSnapshot
without_metrics s = record s { metrics = [] }

pub show_candidates : String → String → List CandidateView → CrawlStateSnapshot → CrawlStateSnapshot
show_candidates parent_id decision [] s = s
show_candidates parent_id decision (c ∷ cs) s = show_candidates parent_id decision cs (
    add_candidate
      (record {
        parent_id = parent_id;
        url = c.url;
        nlp_score = c.nlp_score;
        decision = decision;
        nlp_breakdown = c.nlp_breakdown;
      })
      s)

-- What a client does with a message.
pub apply : Message → CrawlStateSnapshot → CrawlStateSnapshot
apply (node_added_message r) s = add_node r s
apply (node_scored_detail d) s = set_node_detail d s
apply (node_state_changed id state counts) s = set_node_state id state s
apply (node_expanded id n children) s = set_node_state id "EXPANDED" s
apply (crawl_stopped reason n depth duration detail metrics) s = mark_stopped reason s
apply (pipeline_event t) s = record_pipeline_event t.stage t.phase t.queue_size t.duration_ms s
apply (node_error e) s = add_error e s
apply (candidate_evaluated parent_id decision cs) s = show_candidates parent_id decision cs s

pub apply_all : List Message → CrawlStateSnapshot → CrawlStateSnapshot
apply_all [] s = s
apply_all (m ∷ ms) s = apply_all ms (apply m s)

-- The client's view after a handler is the view before it with the handler's messages applied.
abbrev IsShown : CrawlStateSnapshot → List Message × TelemetryBridge → Type 0
IsShown s (messages, b) = without_metrics b.snapshot ≡ apply_all messages (without_metrics s)

increment-without_metrics :
    (counter : String) (by : ℕ) (s : CrawlStateSnapshot)
    → without_metrics (increment counter by s) ≡ without_metrics s
unfolding increment
increment-without_metrics counter by s = elim (Option-cases (lookup counter s.metrics)) [
  | inl unknown ↦ rw (unknown, increment) refl
  | inr (n, known) ↦ rw (known, increment) refl
]

moved-without_metrics :
    (node_id state counter : String) (s : CrawlStateSnapshot)
    → without_metrics (moved node_id state counter s)
      ≡ set_node_state node_id state (without_metrics s)
unfolding moved set_node_state
moved-without_metrics node_id state counter s =
    increment-without_metrics counter 1 (set_node_state node_id state s)

module _ (str : ℕ → String) (unquote : String → String) (nlp_vector : Link → Dict ℕ) where
  add_candidates-show :
      (parent_id decision : String) (links : List Link) (s : CrawlStateSnapshot)
      → without_metrics (add_candidates str unquote nlp_vector parent_id decision links s)
        ≡ show_candidates parent_id decision
            (map (candidate_view str unquote nlp_vector) links)
            (without_metrics s)
  unfolding add_candidates show_candidates candidate_view add_candidate
  add_candidates-show parent_id decision [] s = refl
  add_candidates-show parent_id decision (link ∷ links) s =
      add_candidates-show parent_id decision links _

  candidates-IsShown :
      (decision : String) (node : Node) (links : List Link) (b : TelemetryBridge)
      → IsShown b.snapshot (candidate_message str unquote nlp_vector decision node links b)
  unfolding candidate_message update apply apply_all
  candidates-IsShown decision node [] b = refl
  candidates-IsShown decision node (link ∷ links) b =
      add_candidates-show (str node.id) decision (link ∷ links) b.snapshot

  attach_detail-IsShown :
      (node_id : String) (pending : Option PendingDetail) (b : TelemetryBridge)
      → IsShown b.snapshot (attach_detail str unquote nlp_vector node_id pending b)
  unfolding attach_detail update apply apply_all set_node_detail
  attach_detail-IsShown node_id none b = refl
  attach_detail-IsShown node_id (some p) b = refl

  node_added-IsShown :
      (node : Node) (b : TelemetryBridge)
      → IsShown b.snapshot (on_node_added str unquote nlp_vector node b)
  unfolding on_node_added apply apply_all add_node
  node_added-IsShown node b =
      let r = node_record str unquote nlp_vector node in
      let b' : TelemetryBridge = record b {
        snapshot = increment "nodes_created" 1 (add_node r b.snapshot);
        pending_detail = erase r.url b.pending_detail;
      } in
      let pending = lookup r.url b.pending_detail in
      let attached = attach_detail str unquote nlp_vector r.node_id pending b' in
      attach_detail-IsShown r.node_id pending b'
      ∙ ap (apply_all attached.0)
          (increment-without_metrics "nodes_created" 1 (add_node r b.snapshot))

  filtered-IsShown :
      (node : Node) (accepted rejected items : ℕ) (b : TelemetryBridge)
      → IsShown b.snapshot
          (on_content_filtered str unquote nlp_vector node accepted rejected items b)
  unfolding on_content_filtered update apply apply_all
  filtered-IsShown node accepted rejected items b =
      increment-without_metrics "total_links_found" accepted _
      ∙ moved-without_metrics (str node.id) "FILTERED" "nodes_filtered" b.snapshot

  -- Whatever event the bridge handles, a client that saw the snapshot without its counters before and
  -- applies the broadcast messages in order sees the snapshot without its counters after.
  pub put-apply_all :
      (now : ℕ) (e : TelemetryEvent) (b : TelemetryBridge)
      → let (messages, stops, b') = put str unquote nlp_vector now e b in
        without_metrics b'.snapshot ≡ apply_all messages (without_metrics b.snapshot)
  unfolding put handle stage_failed on_page_fetched on_links_scored on_priority_calculated
      on_crawl_stopped on_export_completed on_step_skipped update apply apply_all mark_stopped
      record_pipeline_event only_tick tick tick_and_error only_error report_error add_error
  put-apply_all now (node_added node) b = node_added-IsShown node b
  put-apply_all now (page_fetched node) b =
      moved-without_metrics (str node.id) "FETCHED" "nodes_fetched" b.snapshot
  put-apply_all now (content_filtered node accepted rejected items) b =
      filtered-IsShown node accepted rejected items b
  put-apply_all now (links_scored node links) b =
      moved-without_metrics (str node.id) "SCORED" "nodes_scored" b.snapshot
  put-apply_all now (priority_calculated parent links) b =
      moved-without_metrics (str parent.id) "EXPANDED" "nodes_expanded" b.snapshot
  put-apply_all now (storage_node_updated items) b =
      increment-without_metrics "total_items_stored" items b.snapshot
  put-apply_all now (stop_crawl reason n depth duration detail) b = refl
  put-apply_all now (request_enqueued id n) b = refl
  put-apply_all now (request_started id worker url) b = refl
  put-apply_all now (request_response_received id size) b = refl
  put-apply_all now (request_failed node type message) b = refl
  put-apply_all now (extraction_started id worker) b = refl
  put-apply_all now (link_extraction_completed id n) b = refl
  put-apply_all now (item_extraction_completed id n) b = refl
  put-apply_all now (processing_extraction_failed node type message) b = refl
  put-apply_all now (filtering_enqueued id n) b = refl
  put-apply_all now (filtering_worker_cycle_started id worker) b = refl
  put-apply_all now (filtering_pipeline_error node type message) b = refl
  put-apply_all now (scoring_enqueued id n) b = refl
  put-apply_all now (scoring_started id worker) b = refl
  put-apply_all now (scoring_completed node n) b = refl
  put-apply_all now (scoring_failed node type message) b = refl
  put-apply_all now (high_score_links node links) b =
      candidates-IsShown "trusted_no_llm" node links b
  put-apply_all now (low_score_links node links) b = candidates-IsShown "dropped" node links b
  put-apply_all now (priority_calculation_started id worker) b = refl
  put-apply_all now (priority_calculation_failed node type message) b = refl
  put-apply_all now (transformation_started id worker) b = refl
  put-apply_all now (transformation_completed node n) b = refl
  put-apply_all now (transformation_failed node type message) b = refl
  put-apply_all now (transformation_step_skipped node type size limit) b = refl
  put-apply_all now (export_batch_started table size) b = refl
  put-apply_all now (export_batch_completed table inserted duration) b = refl
  put-apply_all now (export_batch_failed table type message) b = refl
  put-apply_all now (export_row_failed table field value type) b = refl
  put-apply_all now (storage_operation_failed id type message) b = refl
  put-apply_all now (retry_operation_failed id stage type message) b = refl
  put-apply_all now unsubscribed b = refl
