-- ===== src/Retry/Caps.antt =====
-- How often a node is retried, and when it is given up.
use crawl_viz.Base.{
  ℕ, suc, ◌+◌, ◌≡◌, ◌≢◌, ◌⊎◌, refl, String, true, none, some, List, [], ◌∷◌, ◌++◌, length, ltb,
  ◌==◌, if◌then◌else◌, arith, min, sum_by, Bool-cases, inl, inr, get_elem?, get_elem?-set_self,
  get_elem?-lt, not, ◌&&◌,
}
use crawl_viz.Base.Int.{pos}
use crawl_viz.Models.{Node, fail, decrease_priority}
use crawl_viz.Models.Storage.{Storage, update_node}
use crawl_viz.Retry.{
  RetrySettings, RetryState, FailureEvent, request_failed, empty_score_results, scoring_failed,
  RetryTask, requeue, reschedule, new_retry_state, set_count, is_rejection, reschedule_scoring,
  on_request_failed, handle_failure, handle_failures,
}

-- How many of the tasks fetch node `i` again, and how many score it again.
abbrev pub requeues : ℕ → List RetryTask → ℕ
requeues i [] = 0
requeues i (requeue j d ∷ ts) = (if j == i then 1 else 0) + requeues i ts
requeues i (reschedule j d ∷ ts) = requeues i ts

abbrev pub reschedules : ℕ → List RetryTask → ℕ
reschedules i [] = 0
reschedules i (requeue j d ∷ ts) = reschedules i ts
reschedules i (reschedule j d ∷ ts) = (if j == i then 1 else 0) + reschedules i ts

requeues-append :
    (i : ℕ) (ts us : List RetryTask) → requeues i (ts ++ us) ≡ requeues i ts + requeues i us
requeues-append i [] us = omega arith
requeues-append i (requeue j d ∷ ts) us = omega (arith, requeues-append i ts us)
requeues-append i (reschedule j d ∷ ts) us = requeues-append i ts us

reschedules-append :
    (i : ℕ) (ts us : List RetryTask)
    → reschedules i (ts ++ us) ≡ reschedules i ts + reschedules i us
reschedules-append i [] us = omega arith
reschedules-append i (requeue j d ∷ ts) us = reschedules-append i ts us
reschedules-append i (reschedule j d ∷ ts) us = omega (arith, reschedules-append i ts us)

-- The failures of node `i` that may be retried: fetches that were not refused, and scorings.
abbrev pub fetch_failure : ℕ → FailureEvent → ℕ
fetch_failure i (request_failed j error_type) =
    if j == i && not (is_rejection error_type) then 1 else 0
fetch_failure i (empty_score_results j) = 0
fetch_failure i (scoring_failed j) = 0

abbrev pub scoring_failure : ℕ → FailureEvent → ℕ
scoring_failure i (request_failed j error_type) = 0
scoring_failure i (empty_score_results j) = if j == i then 1 else 0
scoring_failure i (scoring_failed j) = if j == i then 1 else 0

update_node-at :
    (i : ℕ) (f : Node → Node) (s : Storage) {n : Node}
    → get_elem? s.nodes i ≡ some n
    → get_elem? (update_node i f s).nodes i ≡ some (f n)
unfolding update_node
update_node-at i f s {n} h =
    rw (h, update_node) (get_elem?-set_self s.nodes i (f n) (get_elem?-lt s.nodes i h))

fail-ready : (n : Node) → (fail n).ready ≢ none
unfolding fail
fail-ready n h = ground arith

module _ (set : RetrySettings) where
  handle_failure-requeues :
      (i : ℕ) (e : FailureEvent) (s : RetryState)
      → set.has_requests_pipeline ≡ true
      → let (ts, s') = handle_failure set e s in
        (requeues i ts + min set.max_request_retries (s.retry_counts i)
          ≡ min set.max_request_retries (s'.retry_counts i))
        × (s'.retry_counts i ≡ s.retry_counts i + fetch_failure i e)
  unfolding handle_failure reschedule_scoring on_request_failed set_count
  handle_failure-requeues i (request_failed j error_type) s h = ground arith
  handle_failure-requeues i (empty_score_results j) s h = ground arith
  handle_failure-requeues i (scoring_failed j) s h = ground arith

  handle_failure-reschedules :
      (i : ℕ) (e : FailureEvent) (s : RetryState)
      → let (ts, s') = handle_failure set e s in
        (reschedules i ts + min set.max_scoring_retries (s.scoring_retry_counts i)
          ≡ min set.max_scoring_retries (s'.scoring_retry_counts i))
        × (s'.scoring_retry_counts i ≡ s.scoring_retry_counts i + scoring_failure i e)
  unfolding handle_failure reschedule_scoring on_request_failed set_count
  handle_failure-reschedules i (request_failed j error_type) s = ground arith
  handle_failure-reschedules i (empty_score_results j) s = ground arith
  handle_failure-reschedules i (scoring_failed j) s = ground arith

  handle_failures-requeues :
      (i : ℕ) (es : List FailureEvent) (s : RetryState)
      → set.has_requests_pipeline ≡ true
      → requeues i (handle_failures set es s).0 + min set.max_request_retries (s.retry_counts i)
        ≡ min set.max_request_retries (s.retry_counts i + sum_by (fetch_failure i) es)
  unfolding handle_failures
  handle_failures-requeues i [] s h = ground arith
  handle_failures-requeues i (e ∷ es) s h =
      let (ts, s') = handle_failure set e s in
      ground (
        arith,
        handle_failure-requeues i e s h,
        handle_failures-requeues i es s' h,
        requeues-append i ts (handle_failures set es s').0,
      )

  handle_failures-reschedules :
      (i : ℕ) (es : List FailureEvent) (s : RetryState)
      → reschedules i (handle_failures set es s).0
          + min set.max_scoring_retries (s.scoring_retry_counts i)
        ≡ min set.max_scoring_retries (s.scoring_retry_counts i + sum_by (scoring_failure i) es)
  unfolding handle_failures
  handle_failures-reschedules i [] s = ground arith
  handle_failures-reschedules i (e ∷ es) s =
      let (ts, s') = handle_failure set e s in
      ground (
        arith,
        handle_failure-reschedules i e s,
        handle_failures-reschedules i es s',
        reschedules-append i ts (handle_failures set es s').0,
      )

  -- With the requests pipeline wired in, a history of failures fetches a node again as often as its
  -- fetch failed for a reason that may pass, up to the cap, and scores it again as often as its
  -- scoring failed or came back empty, up to the other cap.
  pub handle_failures_capped :
      (storage : Storage) (es : List FailureEvent) (i : ℕ)
      → set.has_requests_pipeline ≡ true
      → let ts = (handle_failures set es (new_retry_state storage)).0 in
        (requeues i ts ≡ min set.max_request_retries (sum_by (fetch_failure i) es))
        × (reschedules i ts ≡ min set.max_scoring_retries (sum_by (scoring_failure i) es))
  handle_failures_capped storage es i h =
      let s = new_retry_state storage in
      unfold new_retry_state in
      (
        ground (arith, handle_failures-requeues i es s h),
        ground (arith, handle_failures-reschedules i es s),
      )

  -- What a failed fetch may come to, given the tasks and the storage after it.
  abbrev pub Settled : ℕ → Node → List RetryTask → Storage → Type 0
  Settled i n ts s =
      (m : Node) × (get_elem? s.nodes i ≡ some m)
      × (((length ts ≡ 1)
            × (requeues i ts ≡ 1)
            × (m.ready ≡ n.ready)
            × (m.priority ≡ (decrease_priority (pos set.fetch_retry_demotion) n).priority))
          ⊎ ((ts ≡ []) × (m.ready ≢ none)))

  given_up :
      (i : ℕ) (s : Storage) {n : Node}
      → get_elem? s.nodes i ≡ some n
      → Settled i n [] (update_node i fail s)
  given_up i s {n} h = (fail n, update_node-at i fail s h, inr (refl, fail-ready n))

  -- A failed fetch of a stored node either requeues the node, once, less urgent and as ready as it
  -- was, or spawns nothing and leaves the node resolved: nothing waits for it for ever.
  pub on_request_failed-Settled :
      (i : ℕ) (error_type : String) (s : RetryState) {n : Node}
      → get_elem? s.storage.nodes i ≡ some n
      → let (ts, s') = on_request_failed set i error_type s in Settled i n ts s'.storage
  unfolding on_request_failed update_node decrease_priority
  on_request_failed-Settled i error_type s {n} h = elim (Bool-cases (is_rejection error_type)) [
    | inl refused ↦ rw (refused, on_request_failed) (given_up i s.storage h)
    | inr passing ↦ elim (Bool-cases (ltb set.max_request_retries (suc (s.retry_counts i)))) [
      | inl over ↦ rw (passing, over, on_request_failed) (given_up i s.storage h)
      | inr under ↦ elim (Bool-cases set.has_requests_pipeline) [
        | inl wired ↦
            rw (passing, under, wired, on_request_failed)
              (
                decrease_priority (pos set.fetch_retry_demotion) n,
                update_node-at i _ s.storage h,
                inl (refl, ground arith, refl, refl),
              )
        | inr unwired ↦ rw (passing, under, unwired, on_request_failed) (given_up i s.storage h)
      ]
    ]
  ]
