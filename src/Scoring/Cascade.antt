-- ===== src/Scoring/Cascade.antt =====
-- What a node's links go through, end to end.
use crawl_viz.Base.{
  ℕ, ◌≤◌, ◌≡◌, ◌≢◌, refl, ap, ◌∙◌, Bool, true, false, Option, none, List, [], ◌∷◌, ◌++◌, length,
  SameItems, sum_by-append, Option-cases, inl, inr, arith,
}
use crawl_viz.Models.{Link}
use crawl_viz.Budget.Account.{CallMeter}
use crawl_viz.Scoring.Buckets.{Settings, Outside, Buckets, bucket_links}
use crawl_viz.Scoring.Batches.{take_llm_calls, batches}
use crawl_viz.Scoring.Partition.{bucket_links-SameItems}
use crawl_viz.Scoring.Limits.{join, take_llm_calls-SameItems, batches_cover}
use crawl_viz.Scoring.Process.{
  ScoringEvent, high_score_links, low_score_links, scoring_failed, Services, ScoringState,
  call_batches, score_sampled, score_links,
}

pub has_failed : List ScoringEvent → Bool
has_failed [] = false
has_failed (scoring_failed ∷ es) = true
has_failed (_ ∷ es) = has_failed es

module _ {W : Type 0} (svc : Services W) where
  length-call_batches :
      (w : W) (bs : List (List Link)) → length (call_batches svc w bs).0 ≤ length bs
  unfolding call_batches
  length-call_batches w [] = omega arith
  length-call_batches w (b ∷ bs) =
      ground (arith, length-call_batches (svc.llm_score_links w b).1 bs)

  -- A loop that did not raise has sent every batch.
  call_batches_all :
      (w : W) (bs : List (List Link))
      → (call_batches svc w bs).1 ≢ none
      → (call_batches svc w bs).0 ≡ bs
  unfolding call_batches
  call_batches_all w [] h = refl
  call_batches_all w (b ∷ bs) h = ground (arith, call_batches_all (svc.llm_score_links w b).1 bs)

  -- The stage reports a failure exactly when an exception left the LLM or the space update.
  pub score_sampled_calls :
      (w : W) (size : Option ℕ) (sampled : List Link)
      → let (es, calls, _) = score_sampled svc w size sampled in
        (length calls ≤ length (batches size sampled))
        × (has_failed es ≡ false → calls ≡ batches size sampled)
  unfolding score_sampled has_failed
  score_sampled_calls w size sampled =
      let bs = batches size sampled in
      elim (Option-cases (call_batches svc w bs).1) [
        | inl raised ↦ rw (raised, score_sampled) (length-call_batches w bs, λ h. cc)
        | inr (scored, back) ↦
            rw (back, score_sampled)
              (length-call_batches w bs, λ h. call_batches_all w bs (λ e. cc))
      ]

  module _ {R S : Type 0} (meter : CallMeter S) (out : Outside R) (set : Settings) where
    -- A page's scored links: the stage first reports the trusted and the dropped ones, and with the
    -- links kept for the LLM these are the page's links, each as often; unless it reports a
    -- failure, the batches that went out are those links, all and in order.
    pub score_links_conserves :
        (scored : List Link) (s : ScoringState R S W)
        → let o = score_links svc meter out set scored s in
          (kept : List Link) × (trusted : List Link) × (dropped : List Link) × (es : List
            ScoringEvent)
          × (o.events ≡ high_score_links trusted ∷ low_score_links dropped ∷ es)
          × SameItems (kept ++ (trusted ++ dropped)) scored
          × (has_failed es ≡ false → kept ≢ [] → join o.calls ≡ kept)
    unfolding score_links
    score_links_conserves scored s =
        let b : Buckets = (bucket_links out set s.rng scored).0 in
        let kept = (take_llm_calls meter set.llm_batch_size b.sampled b.skip_llm s.budget).0 in
        let same =
          take_llm_calls-SameItems meter set.llm_batch_size b.sampled b.skip_llm s.budget in
        let all = bucket_links-SameItems out set s.rng scored in
        (
          kept.0,
          kept.1,
          b.dropped,
          (score_sampled svc s.world set.llm_batch_size kept.0).0,
          refl,
          (λ w. omega (
            arith,
            same w,
            all w,
            sum_by-append w kept.0 (kept.1 ++ b.dropped),
            sum_by-append w kept.1 b.dropped,
            sum_by-append w kept.0 kept.1,
            sum_by-append w b.sampled b.skip_llm,
            sum_by-append w b.sampled (b.skip_llm ++ b.dropped),
            sum_by-append w b.skip_llm b.dropped,
          )),
          (λ ok ne.
              ap join ((score_sampled_calls s.world set.llm_batch_size kept.0).1 ok)
              ∙ (batches_cover set.llm_batch_size kept.0 ne).0),
        )
