-- ===== src/Scoring/Buckets.antt =====
-- `ScoringPipeline.bucket_links`: which links go to the LLM, which are trusted, which are dropped.
-- Parameters, as they are third-party or float code: `percentile` is `numpy.percentile`; a
-- `portion` is `int(n * fraction)` for one of the three configured fractions; `sample` is
-- `random.Random.sample(range(n), k)`, with the generator's state passed on.
use crawl_viz.Base.{
  ℕ, suc, ◌-◌, Bool, true, false, ◌&&◌, Option, none, some, List, [], ◌∷◌, ◌++◌, map, length, take,
  drop, ltb, leb, ◌==◌, min, if◌then◌else◌,
}
use crawl_viz.Models.{Link}
use crawl_viz.Scoring.Ranked.{rank}

pub record Settings : Type 0 where
  pub low_threshold : ℕ
  pub high_threshold : ℕ
  pub percentile_bucketing : Bool
  pub low_percentile : ℕ
  pub high_percentile : ℕ
  pub percentile_min_links : ℕ
  pub max_llm_links : Option ℕ
  pub llm_batch_size : Option ℕ
  pub low_score_portion : ℕ → ℕ
  pub high_score_llm_portion : ℕ → ℕ
  pub high_score_random_portion : ℕ → ℕ

pub record Outside (R : Type 0) : Type 0 where
  pub percentile : List ℕ → ℕ → ℕ
  pub sample : R → ℕ → ℕ → List ℕ × R

pub record Parts : Type 0 where
  pub low : List Link
  pub high : List Link
  pub mid : List Link

-- The loop that tests each link against both thresholds.
unfoldable pub split_links : ℕ → ℕ → List Link → Parts
split_links low high [] = record { low = []; high = []; mid = [] }
split_links low high (l ∷ ls) =
    let rest = split_links low high ls in
    if ltb l.nlp_score low
    then record rest { low = l ∷ rest.low }
    else if ltb high l.nlp_score
    then record rest { high = l ∷ rest.high }
    else record rest { mid = l ∷ rest.mid }

abbrev pub in_indices : List ℕ → ℕ → Bool
in_indices [] i = false
in_indices (j ∷ js) i = if j == i then true else in_indices js i

-- `for i, link in enumerate(…)`: the links at the drawn indices, and the others.
unfoldable pub pick : List ℕ → ℕ → List Link → List Link × List Link
pick drawn i [] = ([], [])
pick drawn i (l ∷ ls) =
    let (chosen, others) = pick drawn (suc i) ls in
    if in_indices drawn i then (l ∷ chosen, others) else (chosen, l ∷ others)

pub record Buckets : Type 0 where
  pub sampled : List Link
  pub skip_llm : List Link
  pub dropped : List Link

-- The cap on one prompt: the best-ranked links stay, the others are trusted.
unfoldable pub cap_sample : Option ℕ → Buckets → Buckets
cap_sample none b = b
cap_sample (some limit) b =
    let ranked = rank b.sampled in
    if ltb limit (length b.sampled)
    then record b { sampled = take limit ranked; skip_llm = b.skip_llm ++ drop limit ranked }
    else b

-- The lists from the picked parts of the low and the high bucket; `top` is the budget for the
-- best-ranked of the links of the high bucket that were not drawn.
unfoldable pub assemble : List Link × List Link → List Link → List Link × List Link → ℕ → Buckets
assemble (low_sampled, dropped) mid (high_random_part, others) top =
    let remaining_high = rank others in
    record {
      sampled = low_sampled ++ (mid ++ (high_random_part ++ take top remaining_high));
      skip_llm = drop top remaining_high;
      dropped = dropped;
    }

module _ {R : Type 0} (out : Outside R) (set : Settings) where
  -- `set(self.rng.sample(range(n), k)) if k else set()`
  unfoldable pub draw : R → ℕ → ℕ → List ℕ × R
  draw r n k = if k == 0 then ([], r) else out.sample r n k

  unfoldable pub thresholds : List Link → ℕ × ℕ
  thresholds links =
      let scores = map (λ (l : Link). l.nlp_score) links in
      if set.percentile_bucketing && leb set.percentile_min_links (length links)
      then (out.percentile scores set.low_percentile, out.percentile scores set.high_percentile)
      else (set.low_threshold, set.high_threshold)

  -- The budgets, the draws and the three lists for links that are split already.
  unfoldable pub choose : R → Parts → Buckets × R
  choose r parts =
      let low_budget = min (set.low_score_portion (length parts.low)) (length parts.low) in
      let high_budget = min (set.high_score_llm_portion (length parts.high)) (length parts.high) in
      let high_random_budget = set.high_score_random_portion high_budget in
      let high_top_budget = high_budget - high_random_budget in
      let (low_indices, r') = draw r (length parts.low) low_budget in
      let (high_random_indices, r'') =
        draw r' (length parts.high)
          (if high_random_budget == 0 then 0 else min high_random_budget (length parts.high)) in
      (
        assemble (pick low_indices 0 parts.low) parts.mid (pick high_random_indices 0 parts.high)
            high_top_budget,
        r'',
      )

  unfoldable pub bucket_links : R → List Link → Buckets × R
  bucket_links r links =
      let (low, high) = thresholds links in
      let (b, r') = choose r (split_links low high links) in (cap_sample set.max_llm_links b, r')
