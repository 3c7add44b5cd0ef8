-- ===== src/Telemetry/Nodes.antt =====
-- ui_bridge/telemetry_bridge.py: the handlers of the node lifecycle and of the scoring cascade.
use crawl_viz.Base.{
  ℕ, ◌==◌, String, Option, none, some, List, [], ◌∷◌, length, leb, map, if◌then◌else◌,
}
use crawl_viz.Base.Texts.{Dict, lookup, insert, erase}
use crawl_viz.Models.{Link, Node}
use crawl_viz.Admission.{Candidate}
use crawl_viz.Snapshot.{
  NodeRecord, NodeDetailRecord, CrawlStateSnapshot, add_node, set_node_state, increment,
  mark_stopped, add_candidate, set_node_detail,
}
use crawl_viz.Telemetry.{
  ChildView, CandidateView, Message, node_added_message, node_scored_detail, node_state_changed,
  node_expanded, crawl_stopped, candidate_evaluated, PendingDetail, TelemetryBridge,
  max_pending_detail,
}

abbrev pub Handled : Type 0
Handled = List Message × TelemetryBridge

unfoldable pub update :
    (CrawlStateSnapshot → CrawlStateSnapshot) → TelemetryBridge → TelemetryBridge
update f b = record b { snapshot = f b.snapshot }

-- `set_node_state`, then `increment` of one counter.
unfoldable pub moved : String → String → String → CrawlStateSnapshot → CrawlStateSnapshot
moved node_id state counter s = increment counter 1 (set_node_state node_id state s)

-- `len(self._pending_detail) >= _MAX_PENDING_DETAIL`: the oldest entry goes.
unfoldable pub make_room : Dict PendingDetail → Dict PendingDetail
make_room [] = []
make_room ((k, p) ∷ rest) =
    if leb max_pending_detail (length ((k, p) ∷ rest)) then rest else (k, p) ∷ rest

-- `entry.get("score") or None`
unfoldable pub score_or_none : ℕ → Option ℕ
score_or_none score = if score == 0 then none else some score

module _ (str : ℕ → String) (unquote : String → String) (nlp_vector : Link → Dict ℕ) where
  unfoldable pub node_record : Node → NodeRecord
  node_record node = record {
    node_id = str node.id;
    url = unquote node.link.url;
    depth = node.depth;
    priority = node.priority;
    llm_score = node.llm_score;
    parent_id = elim node.parent [ none ↦ none | some p ↦ some (str p) ];
    state = "CREATED";
  }

  unfoldable pub detail_record : String → String → PendingDetail → NodeDetailRecord
  detail_record strategy node_id p = record {
    node_id = node_id;
    nlp_score = some p.nlp_score;
    nlp_breakdown = p.nlp_breakdown;
    llm_score = p.llm_score;
    priority = some p.priority;
    priority_strategy = some strategy;
  }

  unfoldable pub attach_detail : String → Option PendingDetail → TelemetryBridge → Handled
  unfolding update detail_record
  attach_detail node_id none b = ([], b)
  attach_detail node_id (some p) b =
      let detail = detail_record b.priority_strategy_name node_id p in
      (node_scored_detail detail ∷ [], update (set_node_detail detail) b)

  unfoldable pub on_node_added : Node → TelemetryBridge → Handled
  unfolding node_record attach_detail
  on_node_added node b =
      let r = node_record node in
      let pending = lookup r.url b.pending_detail in
      let b' : TelemetryBridge = record b {
        snapshot = increment "nodes_created" 1 (add_node r b.snapshot);
        pending_detail = erase r.url b.pending_detail;
      } in
      let (messages, b'') = attach_detail r.node_id pending b' in
      (node_added_message r ∷ messages, b'')

  unfoldable pub on_page_fetched : Node → TelemetryBridge → Handled
  unfolding update moved
  on_page_fetched node b = (
    node_state_changed (str node.id) "FETCHED" [] ∷ [],
    update (moved (str node.id) "FETCHED" "nodes_fetched") b,
  )

  unfoldable pub on_content_filtered : Node → ℕ → ℕ → ℕ → TelemetryBridge → Handled
  unfolding update moved
  on_content_filtered node accepted rejected items b = (
    node_state_changed (str node.id) "FILTERED" (
          ("links_accepted", accepted)
          ∷ ("links_rejected", rejected)
          ∷ ("items_accepted", items)
          ∷ [])
        ∷ [],
    update
        (λ s.
          increment "total_links_found" accepted
            (moved (str node.id) "FILTERED" "nodes_filtered" s))
        b,
  )

  unfoldable pub on_links_scored : Node → List Link → TelemetryBridge → Handled
  unfolding update moved
  on_links_scored node scored_links b = (
    node_state_changed (str node.id) "SCORED" (("scored_count", length scored_links) ∷ []) ∷ [],
    update (moved (str node.id) "SCORED" "nodes_scored") b,
  )

  unfoldable pub pending_of : Candidate → PendingDetail
  unfolding score_or_none
  pending_of c = record {
    nlp_score = c.link.nlp_score;
    nlp_breakdown = nlp_vector c.link;
    llm_score = score_or_none c.score;
    priority = c.priority;
  }

  unfoldable pub stash : List Candidate → Dict PendingDetail → Dict PendingDetail
  unfolding make_room pending_of
  stash [] pending = pending
  stash (c ∷ cs) pending = stash cs (insert (unquote c.link.url) (pending_of c) (make_room pending))

  unfoldable pub child_view : Candidate → ChildView
  child_view c = record { url = unquote c.link.url; score = c.score; priority = c.priority }

  unfoldable pub on_priority_calculated : Node → List Candidate → TelemetryBridge → Handled
  unfolding moved stash child_view
  on_priority_calculated parent links b = (
    node_expanded (str parent.id) (length links) (map child_view links) ∷ [],
    record b {
      snapshot = moved (str parent.id) "EXPANDED" "nodes_expanded" b.snapshot;
      pending_detail = stash links b.pending_detail;
    },
  )

  unfoldable pub on_crawl_stopped : String → ℕ → ℕ → ℕ → Option String → TelemetryBridge → Handled
  unfolding update
  on_crawl_stopped reason node_count max_depth duration detail b = (
    crawl_stopped reason node_count max_depth duration detail b.snapshot.metrics ∷ [],
    update (mark_stopped reason) b,
  )

  unfoldable pub candidate_view : Link → CandidateView
  candidate_view link = record {
    url = unquote link.url;
    nlp_score = link.nlp_score;
    nlp_breakdown = nlp_vector link;
  }

  unfoldable pub add_candidates :
      String → String → List Link → CrawlStateSnapshot → CrawlStateSnapshot
  add_candidates parent_id decision [] s = s
  add_candidates parent_id decision (link ∷ links) s = add_candidates parent_id decision links (
      add_candidate
        (record {
          parent_id = parent_id;
          url = unquote link.url;
          nlp_score = link.nlp_score;
          decision = decision;
          nlp_breakdown = nlp_vector link;
        })
        s)

  unfoldable pub candidate_message : String → Node → List Link → TelemetryBridge → Handled
  unfolding update add_candidates candidate_view
  candidate_message decision node [] b = ([], b)
  candidate_message decision node (link ∷ links) b = (
    candidate_evaluated (str node.id) decision (map candidate_view (link ∷ links)) ∷ [],
    update (add_candidates (str node.id) decision (link ∷ links)) b,
  )
