-- ===== src/Snapshot.antt =====
-- ui_bridge/crawl_state_snapshot.py: what the UI is shown of one crawl.
-- A duration is a whole number of hundredths of a millisecond, as it is rounded. Wall-clock times (`ts`,
-- `created_at`, the elapsed seconds) and the averages of `to_dict` are left out.
pub mod Bounded
use crawl_viz.Base.{
  ℕ, ◌+◌, ◌-◌, String, Bool, true, false, Option, none, some, List, [], ◌∷◌, ◌++◌, length, drop,
  str_eq, if◌then◌else◌,
}
use crawl_viz.Base.Int.{ℤ}
use crawl_viz.Base.Texts.{Dict, lookup, insert}

pub record NodeRecord : Type 0 where
  pub node_id : String
  pub url : String
  pub depth : ℕ
  pub priority : ℤ
  pub llm_score : Option ℕ
  pub parent_id : Option String
  pub state : String

-- `CrawlMetrics`: its counters by name.
abbrev pub CrawlMetrics : Type 0
CrawlMetrics = Dict ℕ

abbrev pub new_metrics : CrawlMetrics
new_metrics =
    ("nodes_created", 0)
    ∷ ("nodes_fetched", 0)
    ∷ ("nodes_filtered", 0)
    ∷ ("nodes_scored", 0)
    ∷ ("nodes_expanded", 0)
    ∷ ("total_links_found", 0)
    ∷ ("total_items_stored", 0)
    ∷ []

pub record StageStats : Type 0 where
  pub started : ℕ
  pub completed : ℕ
  pub failed : ℕ
  pub queue_size : ℕ
  pub last_duration_ms : Option ℕ
  pub total_duration_ms : ℕ
  pub duration_samples : ℕ

abbrev pub new_stats : StageStats
new_stats = record {
  started = 0;
  completed = 0;
  failed = 0;
  queue_size = 0;
  last_duration_ms = none;
  total_duration_ms = 0;
  duration_samples = 0;
}

abbrev pub pipeline_stages : List String
pipeline_stages =
    "request" ∷ "extraction" ∷ "filtering" ∷ "scoring" ∷ "priority" ∷ "transformation" ∷ "export"
    ∷ []

pub record CandidateRecord : Type 0 where
  pub parent_id : String
  pub url : String
  pub nlp_score : ℕ
  pub decision : String
  pub nlp_breakdown : Dict ℕ

pub record NodeDetailRecord : Type 0 where
  pub node_id : String
  pub nlp_score : Option ℕ
  pub nlp_breakdown : Dict ℕ
  pub llm_score : Option ℕ
  pub priority : Option ℤ
  pub priority_strategy : Option String

pub record ErrorRecord : Type 0 where
  pub node_id : Option String
  pub stage : String
  pub error_type : String
  pub error_message : String

pub record CrawlStateSnapshot : Type 0 where
  pub max_candidates : ℕ
  pub max_errors : ℕ
  pub status : String
  pub stop_reason : Option String
  pub metrics : CrawlMetrics
  pub nodes : Dict NodeRecord
  pub pipeline_stats : Dict StageStats
  pub candidates : List CandidateRecord
  pub node_details : Dict NodeDetailRecord
  pub errors : List ErrorRecord

unfoldable pub all_new : List String → Dict StageStats
all_new [] = []
all_new (stage ∷ stages) = (stage, new_stats) ∷ all_new stages

unfoldable pub new_snapshot : ℕ → ℕ → CrawlStateSnapshot
unfolding all_new
new_snapshot max_candidates max_errors = record {
  max_candidates = max_candidates;
  max_errors = max_errors;
  status = "RUNNING";
  stop_reason = none;
  metrics = new_metrics;
  nodes = [];
  pipeline_stats = all_new pipeline_stages;
  candidates = [];
  node_details = [];
  errors = [];
}

unfoldable pub add_node : NodeRecord → CrawlStateSnapshot → CrawlStateSnapshot
add_node r s = record s { nodes = insert r.node_id r s.nodes }

-- The state of a node that is unknown is not set.
unfoldable pub set_state_in : String → String → Dict NodeRecord → Dict NodeRecord
set_state_in node_id state [] = []
set_state_in node_id state ((k, r) ∷ rest) =
    let others = set_state_in node_id state rest in
    if str_eq k node_id then (k, record r { state = state }) ∷ rest else (k, r) ∷ others

unfoldable pub set_node_state : String → String → CrawlStateSnapshot → CrawlStateSnapshot
unfolding set_state_in
set_node_state node_id state s = record s { nodes = set_state_in node_id state s.nodes }

-- A counter of no such name is ignored.
unfoldable pub increment : String → ℕ → CrawlStateSnapshot → CrawlStateSnapshot
increment counter by s = elim (lookup counter s.metrics) [
  | none ↦ s
  | some n ↦ record s { metrics = insert counter (n + by) s.metrics }
]

unfoldable pub mark_stopped : String → CrawlStateSnapshot → CrawlStateSnapshot
mark_stopped reason s = record s { status = "STOPPED"; stop_reason = some reason }

unfoldable pub add_duration : Option ℕ → StageStats → StageStats
add_duration none st = st
add_duration (some d) st = record st {
  last_duration_ms = some d;
  total_duration_ms = st.total_duration_ms + d;
  duration_samples = st.duration_samples + 1;
}

pub data Phase : Type 0 where
  enqueued started completed failed : Phase

unfoldable pub count_phase : Phase → Option ℕ → Option ℕ → StageStats → StageStats
unfolding add_duration
count_phase enqueued none duration st = st
count_phase enqueued (some n) duration st = record st { queue_size = n }
count_phase started queue_size duration st = record st { started = st.started + 1 }
count_phase completed queue_size duration st =
    add_duration duration (record st { completed = st.completed + 1 })
count_phase failed queue_size duration st = record st { failed = st.failed + 1 }

-- `pipeline_stats.setdefault(stage, StageStats())`
unfoldable pub stats_of : String → Dict StageStats → StageStats
stats_of stage stats = elim (lookup stage stats) [ none ↦ new_stats | some st ↦ st ]

unfoldable pub record_pipeline_event :
    String → Phase → Option ℕ → Option ℕ → CrawlStateSnapshot → CrawlStateSnapshot
unfolding stats_of count_phase
record_pipeline_event stage phase queue_size duration_ms s = record s {
  pipeline_stats =
      insert stage (count_phase phase queue_size duration_ms (stats_of stage s.pipeline_stats))
        s.pipeline_stats;
}

-- `append` of a deque with a `maxlen`.
unfoldable pub append_bounded {ℓ} : {A : Type ℓ} → ℕ → A → List A → List A
append_bounded maxlen x xs = drop (length (xs ++ x ∷ []) - maxlen) (xs ++ x ∷ [])

unfoldable pub add_candidate : CandidateRecord → CrawlStateSnapshot → CrawlStateSnapshot
unfolding append_bounded
add_candidate c s = record s { candidates = append_bounded s.max_candidates c s.candidates }

unfoldable pub set_node_detail : NodeDetailRecord → CrawlStateSnapshot → CrawlStateSnapshot
set_node_detail d s = record s { node_details = insert d.node_id d s.node_details }

unfoldable pub add_error : ErrorRecord → CrawlStateSnapshot → CrawlStateSnapshot
unfolding append_bounded
add_error e s = record s { errors = append_bounded s.max_errors e s.errors }
