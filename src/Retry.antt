-- ===== src/Retry.antt =====
-- pipelines/retry_processor.py: what becomes of a node whose fetch or scoring failed.
-- A delayed requeue is a task that names its node and its delay; the counters are functions, where
-- a node that was never counted has 0. Delays and demotions are whole numbers.
pub mod Caps
mod Examples
use crawl_viz.Base.{
  ℕ, suc, ◌-◌, ◌*◌, ◌^◌, String, Bool, true, false, ◌||◌, List, [], ◌∷◌, ◌++◌, ltb, ◌==◌,
  if◌then◌else◌, str_eq,
}
use crawl_viz.Base.Int.{pos}
use crawl_viz.Base.Texts.{contains}
use crawl_viz.Models.{decrease_priority, fail}
use crawl_viz.Models.Storage.{Storage, update_node}

-- infrastructure/fetch_errors.py
abbrev pub rejection_error_names : List String
rejection_error_names =
    "BlockedAddressError" ∷ "TooManyRedirectsError" ∷ "ResponseTooLargeError"
    ∷ "UnsupportedContentTypeError" ∷ []

pub record RetrySettings : Type 0 where
  pub has_requests_pipeline : Bool
  pub max_request_retries : ℕ
  pub max_scoring_retries : ℕ
  pub retry_base_delay : ℕ
  pub retry_growth : ℕ
  pub empty_score_demotion : ℕ
  pub fetch_retry_demotion : ℕ

pub record RetryState : Type 0 where
  pub storage : Storage
  pub retry_counts : ℕ → ℕ
  pub scoring_retry_counts : ℕ → ℕ

pub data FailureEvent : Type 0 where
  request_failed : ℕ → String → FailureEvent
  empty_score_results scoring_failed : ℕ → FailureEvent

pub new_retry_state : Storage → RetryState
new_retry_state storage = record {
  storage = storage;
  retry_counts = λ i. 0;
  scoring_retry_counts = λ i. 0;
}

-- `_requeue` and `_reschedule`, each with its node and its delay.
pub data RetryTask : Type 0 where
  requeue reschedule : ℕ → ℕ → RetryTask

pub set_count : ℕ → ℕ → (ℕ → ℕ) → ℕ → ℕ
set_count node_id attempts counts i = if node_id == i then attempts else counts i

pub is_rejection : String → Bool
is_rejection error_type =
    str_eq error_type "RobotsDisallowed" || contains rejection_error_names error_type

module _ (set : RetrySettings) where
  unfoldable pub delay_of : ℕ → ℕ
  delay_of attempts = set.retry_base_delay * set.retry_growth ^ (attempts - 1)

  pub reschedule_scoring : ℕ → ℕ → RetryState → List RetryTask × RetryState
  unfolding set_count update_node
  reschedule_scoring node_id demote s =
      let attempts = suc (s.scoring_retry_counts node_id) in
      let s' : RetryState = record s {
        scoring_retry_counts = set_count node_id attempts s.scoring_retry_counts;
      } in
      if ltb set.max_scoring_retries attempts then ([], s') else (
        reschedule node_id (delay_of attempts) ∷ [],
        if demote == 0 then s' else record s' {
          storage = update_node node_id (decrease_priority (pos demote)) s'.storage;
        },
      )

  pub on_request_failed : ℕ → String → RetryState → List RetryTask × RetryState
  unfolding set_count is_rejection update_node
  on_request_failed node_id error_type s =
      let attempts = suc (s.retry_counts node_id) in
      let failed : RetryState = record s { storage = update_node node_id fail s.storage } in
      let counts = set_count node_id attempts s.retry_counts in
      if is_rejection error_type
      then ([], failed)
      else if ltb set.max_request_retries attempts
      then ([], record failed { retry_counts = counts })
      else if set.has_requests_pipeline
      then (
        requeue node_id (delay_of attempts) ∷ [],
        record s {
          retry_counts = counts;
          storage =
              update_node node_id (decrease_priority (pos set.fetch_retry_demotion)) s.storage;
        },
      )
      else ([], record failed { retry_counts = counts })

  pub handle_failure : FailureEvent → RetryState → List RetryTask × RetryState
  handle_failure (request_failed i error_type) s = on_request_failed i error_type s
  handle_failure (empty_score_results i) s = reschedule_scoring i set.empty_score_demotion s
  handle_failure (scoring_failed i) s = reschedule_scoring i 0 s

  -- A history of failures: the tasks that were spawned, in order, and the state at the end.
  pub handle_failures : List FailureEvent → RetryState → List RetryTask × RetryState
  handle_failures [] s = ([], s)
  handle_failures (e ∷ es) s =
      let (ts, s') = handle_failure e s in let (us, s'') = handle_failures es s' in (ts ++ us, s'')
