-- ===== src/Retry/Examples.antt =====
-- Node 0 of a small storage, whose fetch fails again and again.
use crawl_viz.Base.{◌≡◌, refl, true, some, List, [], ◌∷◌, get_elem?, min, sum_by}
use crawl_viz.Models.{UrlRules, Domain, Node, seed_node}
use crawl_viz.Models.Storage.{Storage, new_storage, add_node}
use crawl_viz.Retry.{
  RetrySettings, FailureEvent, request_failed, empty_score_results, new_retry_state,
  handle_failures,
}
use crawl_viz.Retry.Caps.{
  requeues, reschedules, fetch_failure, scoring_failure, handle_failures_capped,
}

abbrev rules : UrlRules
rules = record { build_url = λ base path. path; normalize_url = λ u. u }

abbrev site : Domain
site = record { name = "site"; base_url = "https://h"; link_selector = "//a" }

abbrev page : Node
page = seed_node rules 0 "/a" site

abbrev store : Storage
store = add_node rules page new_storage

abbrev settings : RetrySettings
settings = record {
  has_requests_pipeline = true;
  max_request_retries = 2;
  max_scoring_retries = 1;
  retry_base_delay = 2;
  retry_growth = 2;
  empty_score_demotion = 5;
  fetch_retry_demotion = 2;
}

abbrev failures : List FailureEvent
failures =
    request_failed 0 "TimeoutError"
    ∷ empty_score_results 0
    ∷ request_failed 0 "TimeoutError"
    ∷ request_failed 0 "TimeoutError"
    ∷ []

handle_failures_capped_example :
    let ts = (handle_failures settings failures (new_retry_state store)).0 in
    (requeues 0 ts ≡ min 2 (sum_by (fetch_failure 0) failures))
    × (reschedules 0 ts ≡ min 1 (sum_by (scoring_failure 0) failures))
handle_failures_capped_example = handle_failures_capped settings store failures 0 refl

page-stored : get_elem? (new_retry_state store).storage.nodes 0 ≡ some page
unfolding new_retry_state add_node new_storage
page-stored = refl
