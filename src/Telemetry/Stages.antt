-- ===== src/Telemetry/Stages.antt =====
-- Which stages the Pipeline Monitor ever sees complete.
use crawl_viz.Base.{
  ℕ, ◌≡◌, refl, ap, ◌∙◌, String, false, Option, none, some, List, [], ◌∷◌, str_eq, eq_iff,
  if◌then◌else◌, Option-cases, Bool-cases, inl, inr, arith,
}
use crawl_viz.Base.Texts.{Dict, contains, lookup, insert, lookup-insert}
use crawl_viz.Models.{Link, Node}
use crawl_viz.Snapshot.{
  CrawlStateSnapshot, StageStats, Phase, enqueued, started, completed, failed, stats_of,
  count_phase, record_pipeline_event, increment, new_stats, set_node_state, set_node_detail,
  add_candidate, add_node, mark_stopped, add_error,
}
use crawl_viz.Telemetry.{
  TelemetryEvent, TelemetryBridge, PendingDetail, duration_of, tick, report_error, request_enqueued,
  request_started, request_response_received, request_failed, extraction_started,
  link_extraction_completed, item_extraction_completed, processing_extraction_failed,
  filtering_enqueued, filtering_worker_cycle_started, filtering_pipeline_error, scoring_enqueued,
  scoring_started, scoring_completed, scoring_failed, high_score_links, low_score_links,
  priority_calculation_started, priority_calculation_failed, transformation_started,
  transformation_completed, transformation_failed, transformation_step_skipped,
  export_batch_started, export_batch_completed, export_batch_failed, export_row_failed,
  storage_operation_failed, retry_operation_failed, unsubscribed, node_added, page_fetched,
  content_filtered, links_scored, priority_calculated, storage_node_updated, stop_crawl,
}
use crawl_viz.Telemetry.Nodes.{
  moved, add_candidates, candidate_message, attach_detail, on_node_added, on_page_fetched,
  on_content_filtered, on_links_scored, on_priority_calculated, on_crawl_stopped, update,
}
use crawl_viz.Telemetry.Handlers.{
  put, handle, stage_failed, on_export_completed, on_step_skipped, only_tick, tick_and_error,
  only_error,
}

unfoldable pub completions : String → CrawlStateSnapshot → ℕ
completions stage s = (stats_of stage s.pipeline_stats).completed

stats_of-insert :
    (stage other : String) (st : StageStats) (d : Dict StageStats)
    → stats_of other (insert stage st d) ≡ (if str_eq stage other then st else stats_of other d)
unfolding stats_of
stats_of-insert stage other st d =
    ap (λ o. elim o [ none ↦ new_stats | some x ↦ x ]) (lookup-insert stage other st d)
    ∙ elim (Bool-cases (str_eq stage other)) [
      | inl same ↦ rw same refl
      | inr differ ↦ rw differ refl
    ]

-- A tick of another stage completes nothing.
completions-other :
    (stage other : String) (phase : Phase) (queue_size duration : Option ℕ) (s : CrawlStateSnapshot)
    → str_eq other stage ≡ false
    → completions stage (record_pipeline_event other phase queue_size duration s)
      ≡ completions stage s
unfolding completions record_pipeline_event
completions-other stage other phase queue_size duration s h =
    let st = count_phase phase queue_size duration (stats_of other s.pipeline_stats) in
    let same : stats_of stage (insert other st s.pipeline_stats) ≡ stats_of stage s.pipeline_stats =
      stats_of-insert other stage st s.pipeline_stats
      ∙ ap (λ b. if b then st else stats_of stage s.pipeline_stats) h in
    ap (λ x. x.completed) same

-- Nor does a tick of any stage whose phase is not the completed one.
completions-phase :
    (stage other : String) (phase : Phase) (queue_size duration : Option ℕ) (s : CrawlStateSnapshot)
    → ((st : StageStats) → (count_phase phase queue_size duration st).completed ≡ st.completed)
    → completions stage (record_pipeline_event other phase queue_size duration s)
      ≡ completions stage s
unfolding completions record_pipeline_event
completions-phase stage other phase queue_size duration s h =
    elim (Bool-cases (str_eq other stage)) [
      | inr differ ↦ completions-other stage other phase queue_size duration s differ
      | inl same ↦
          (let st = count_phase phase queue_size duration (stats_of other s.pipeline_stats) in
            let mine : stats_of stage (insert other st s.pipeline_stats) ≡ st =
              stats_of-insert other stage st s.pipeline_stats
              ∙ ap (λ b. if b then st else stats_of stage s.pipeline_stats) same in
            ap (λ x. x.completed) mine
            ∙ h (stats_of other s.pipeline_stats)
            ∙ ap (λ i. (stats_of i s.pipeline_stats).completed) ((eq_iff other stage).0 same))
    ]

-- The stages that report their completions.
abbrev pub completing_stages : List String
completing_stages = "request" ∷ "extraction" ∷ "scoring" ∷ "transformation" ∷ "export" ∷ []

completions-increment :
    (stage counter : String) (by : ℕ) (s : CrawlStateSnapshot)
    → completions stage (increment counter by s) ≡ completions stage s
unfolding completions increment
completions-increment stage counter by s = elim (Option-cases (lookup counter s.metrics)) [
  | inl unknown ↦ rw (unknown, increment) refl
  | inr (n, known) ↦ rw (known, increment) refl
]

completions-moved :
    (stage node_id state counter : String) (s : CrawlStateSnapshot)
    → completions stage (moved node_id state counter s) ≡ completions stage s
unfolding moved completions set_node_state
completions-moved stage node_id state counter s =
    completions-increment stage counter 1 (set_node_state node_id state s)

module _ (str : ℕ → String) (unquote : String → String) (nlp_vector : Link → Dict ℕ) where
  completions-add_candidates :
      (stage parent_id decision : String) (links : List Link) (s : CrawlStateSnapshot)
      → completions stage (add_candidates str unquote nlp_vector parent_id decision links s)
        ≡ completions stage s
  unfolding add_candidates completions add_candidate
  completions-add_candidates stage parent_id decision [] s = refl
  completions-add_candidates stage parent_id decision (link ∷ links) s =
      completions-add_candidates stage parent_id decision links _

  completions-candidate_message :
      (stage decision : String) (node : Node) (links : List Link) (b : TelemetryBridge)
      → completions stage
          (candidate_message str unquote nlp_vector decision node links b).1.snapshot
        ≡ completions stage b.snapshot
  unfolding candidate_message update
  completions-candidate_message stage decision node [] b = refl
  completions-candidate_message stage decision node (link ∷ links) b =
      completions-add_candidates stage (str node.id) decision (link ∷ links) b.snapshot

  completions-attach_detail :
      (stage node_id : String) (pending : Option PendingDetail) (b : TelemetryBridge)
      → completions stage (attach_detail str unquote nlp_vector node_id pending b).1.snapshot
        ≡ completions stage b.snapshot
  unfolding attach_detail update completions set_node_detail
  completions-attach_detail stage node_id none b = refl
  completions-attach_detail stage node_id (some p) b = refl

  -- Whatever the events are, a stage that is none of these five never counts as completed.
  pub put-completions :
      (stage : String) (now : ℕ) (e : TelemetryEvent) (b : TelemetryBridge)
      → contains completing_stages stage ≡ false
      → let (messages, stops, b') = put str unquote nlp_vector now e b in
        completions stage b'.snapshot ≡ completions stage b.snapshot
  unfolding put handle stage_failed on_node_added on_page_fetched on_content_filtered
      on_links_scored on_priority_calculated on_crawl_stopped on_export_completed on_step_skipped
      update add_node mark_stopped only_tick tick tick_and_error only_error report_error add_error
      completions
  put-completions stage now (node_added node) b h =
      completions-attach_detail stage _ _ _ ∙ completions-increment stage "nodes_created" 1 _
  put-completions stage now (page_fetched node) b h = completions-moved stage _ _ _ _
  put-completions stage now (content_filtered node accepted rejected items) b h =
      completions-increment stage "total_links_found" accepted _ ∙ completions-moved stage _ _ _ _
  put-completions stage now (links_scored node links) b h = completions-moved stage _ _ _ _
  put-completions stage now (priority_calculated parent links) b h = completions-moved stage _ _ _ _
  put-completions stage now (storage_node_updated items) b h =
      completions-increment stage "total_items_stored" items _
  put-completions stage now (stop_crawl reason n depth duration detail) b h = refl
  put-completions stage now (request_enqueued id n) b h =
      completions-phase stage "request" enqueued (some n) none b.snapshot (λ st. refl)
  put-completions stage now (request_started id worker url) b h =
      completions-phase stage "request" started none none b.snapshot (λ st. refl)
  put-completions stage now (request_response_received id size) b h =
      completions-other stage "request" completed none
        (duration_of completed (some id) "request" now b.stage_started_at) b.snapshot
        (ground (arith, h))
  put-completions stage now (request_failed node type message) b h =
      completions-phase stage "request" failed none
        (duration_of failed (some (str node.id)) "request" now b.stage_started_at) b.snapshot
        (λ st. refl)
  put-completions stage now (extraction_started id worker) b h =
      completions-phase stage "extraction" started none none b.snapshot (λ st. refl)
  put-completions stage now (link_extraction_completed id n) b h =
      completions-other stage "extraction" completed none
        (duration_of completed (some id) "extraction" now b.stage_started_at) b.snapshot
        (ground (arith, h))
  put-completions stage now (item_extraction_completed id n) b h = refl
  put-completions stage now (processing_extraction_failed node type message) b h =
      completions-phase stage "extraction" failed none
        (duration_of failed (some (str node.id)) "extraction" now b.stage_started_at) b.snapshot
        (λ st. refl)
  put-completions stage now (filtering_enqueued id n) b h =
      completions-phase stage "filtering" enqueued (some n) none b.snapshot (λ st. refl)
  put-completions stage now (filtering_worker_cycle_started id worker) b h =
      completions-phase stage "filtering" started none none b.snapshot (λ st. refl)
  put-completions stage now (filtering_pipeline_error node type message) b h =
      completions-phase stage "filtering" failed none
        (duration_of failed (some (str node.id)) "filtering" now b.stage_started_at) b.snapshot
        (λ st. refl)
  put-completions stage now (scoring_enqueued id n) b h =
      completions-phase stage "scoring" enqueued (some n) none b.snapshot (λ st. refl)
  put-completions stage now (scoring_started id worker) b h =
      completions-phase stage "scoring" started none none b.snapshot (λ st. refl)
  put-completions stage now (scoring_completed node n) b h =
      completions-other stage "scoring" completed none
        (duration_of completed (some (str node.id)) "scoring" now b.stage_started_at) b.snapshot
        (ground (arith, h))
  put-completions stage now (scoring_failed node type message) b h =
      completions-phase stage "scoring" failed none
        (duration_of failed (some (str node.id)) "scoring" now b.stage_started_at) b.snapshot
        (λ st. refl)
  put-completions stage now (high_score_links node links) b h =
      completions-candidate_message stage "trusted_no_llm" node links b
  put-completions stage now (low_score_links node links) b h =
      completions-candidate_message stage "dropped" node links b
  put-completions stage now (priority_calculation_started id worker) b h =
      completions-phase stage "priority" started none none b.snapshot (λ st. refl)
  put-completions stage now (priority_calculation_failed node type message) b h =
      completions-phase stage "priority" failed none
        (duration_of failed (some (str node.id)) "priority" now b.stage_started_at) b.snapshot
        (λ st. refl)
  put-completions stage now (transformation_started id worker) b h =
      completions-phase stage "transformation" started none none b.snapshot (λ st. refl)
  put-completions stage now (transformation_completed node n) b h =
      completions-other stage "transformation" completed none
        (duration_of completed (some (str node.id)) "transformation" now b.stage_started_at)
        b.snapshot (ground (arith, h))
  put-completions stage now (transformation_failed node type message) b h =
      completions-phase stage "transformation" failed none
        (duration_of failed (some (str node.id)) "transformation" now b.stage_started_at) b.snapshot
        (λ st. refl)
  put-completions stage now (transformation_step_skipped node type size limit) b h = refl
  put-completions stage now (export_batch_started table size) b h =
      completions-phase stage "export" started none none b.snapshot (λ st. refl)
  put-completions stage now (export_batch_completed table inserted duration) b h =
      completions-other stage "export" completed none (some duration) b.snapshot (ground (arith, h))
  put-completions stage now (export_batch_failed table type message) b h =
      completions-phase stage "export" failed none none b.snapshot (λ st. refl)
  put-completions stage now (export_row_failed table field value type) b h = refl
  put-completions stage now (storage_operation_failed id type message) b h = refl
  put-completions stage now (retry_operation_failed id stage' type message) b h = refl
  put-completions stage now unsubscribed b h = refl
