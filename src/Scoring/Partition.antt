-- ===== src/Scoring/Partition.antt =====
-- Every link of a page ends in exactly one of the three lists, and who may be dropped.
use crawl_viz.Base.{
  ℕ, suc, ◌+◌, ◌<◌, ◌≡◌, refl, Option, none, some, List, [], ◌∷◌, ◌++◌, take, drop, SameItems,
  sum_by, sum_by-append, take-append-drop, ap, sym, subst, All, arith,
}
use crawl_viz.Models.{Link}
use crawl_viz.Scoring.Ranked.{rank, rank-SameItems}
use crawl_viz.Scoring.Buckets.{
  Settings, Outside, Parts, split_links, pick, Buckets, cap_sample, thresholds, assemble, choose,
  bucket_links,
}

split_links-sum_by :
    (low high : ℕ) (ls : List Link) (w : Link → ℕ)
    → let p = split_links low high ls in
      sum_by w p.low + sum_by w p.high + sum_by w p.mid ≡ sum_by w ls
unfolding split_links
split_links-sum_by low high [] w = omega arith
split_links-sum_by low high (l ∷ ls) w = ground (arith, split_links-sum_by low high ls w)

pick-sum_by :
    (drawn : List ℕ) (i : ℕ) (ls : List Link) (w : Link → ℕ)
    → sum_by w (pick drawn i ls).0 + sum_by w (pick drawn i ls).1 ≡ sum_by w ls
unfolding pick
pick-sum_by drawn i [] w = omega arith
pick-sum_by drawn i (l ∷ ls) w = ground (arith, pick-sum_by drawn (suc i) ls w)

-- The two parts of a cut, counted.
pub cut-sum_by :
    (n : ℕ) (ls : List Link) (w : Link → ℕ)
    → sum_by w (take n (rank ls)) + sum_by w (drop n (rank ls)) ≡ sum_by w ls
cut-sum_by n ls w = omega (
  arith,
  sum_by-append w (take n (rank ls)) (drop n (rank ls)),
  ap (sum_by w) (take-append-drop n (rank ls)),
  rank-SameItems ls w,
)

abbrev pub weight : (Link → ℕ) → Buckets → ℕ
weight w b = sum_by w b.sampled + sum_by w b.skip_llm + sum_by w b.dropped

cap_sample-weight :
    (limit : Option ℕ) (b : Buckets) (w : Link → ℕ) → weight w (cap_sample limit b) ≡ weight w b
unfolding cap_sample
cap_sample-weight none b w = refl
cap_sample-weight (some limit) b w =
    ground (
      arith,
      cut-sum_by limit b.sampled w,
      sum_by-append w b.skip_llm (drop limit (rank b.sampled)),
    )

assemble-weight :
    (low : List Link × List Link) (mid : List Link) (high : List Link × List Link) (top : ℕ)
    (w : Link → ℕ)
    → weight w (assemble low mid high top)
      ≡ sum_by w low.0 + sum_by w low.1 + sum_by w mid + sum_by w high.0 + sum_by w high.1
unfolding assemble
assemble-weight (ls, ds) mid (rs, os) top w =
    let best = take top (rank os) in
    omega (
      arith,
      sum_by-append w ls (mid ++ (rs ++ best)),
      sum_by-append w mid (rs ++ best),
      sum_by-append w rs best,
      cut-sum_by top os w,
    )

low_below :
    (low high : ℕ) (ls : List Link) → All (λ l. l.nlp_score < low) (split_links low high ls).low
unfolding split_links
low_below low high [] = tt
low_below low high (l ∷ ls) = ground (arith, low_below low high ls)

pick-All :
    (P : Link → Type 0) (drawn : List ℕ) (i : ℕ) (ls : List Link)
    → All P ls
    → All P (pick drawn i ls).0 × All P (pick drawn i ls).1
unfolding pick
pick-All P drawn i [] h = (tt, tt)
pick-All P drawn i (l ∷ ls) h = ground (arith, pick-All P drawn (suc i) ls h.1)

dropped-cap_sample : (limit : Option ℕ) (b : Buckets) → (cap_sample limit b).dropped ≡ b.dropped
unfolding cap_sample
dropped-cap_sample none b = refl
dropped-cap_sample (some limit) b = ground arith

module _ {R : Type 0} (out : Outside R) (set : Settings) where
  choose-weight :
      (r : R) (p : Parts) (w : Link → ℕ)
      → weight w (choose out set r p).0 ≡ sum_by w p.low + sum_by w p.high + sum_by w p.mid
  unfolding choose
  choose-weight r p w = omega (
    arith,
    assemble-weight (pick _ 0 p.low) p.mid (pick _ 0 p.high) _ w,
    pick-sum_by _ 0 p.low w,
    pick-sum_by _ 0 p.high w,
  )

  -- The three lists hold the page's links, each as often as the page does: none is lost, doubled or
  -- made up, whatever is drawn and wherever the thresholds and the cap lie.
  pub bucket_links-SameItems :
      (r : R) (links : List Link)
      → let b = (bucket_links out set r links).0 in
        SameItems (b.sampled ++ (b.skip_llm ++ b.dropped)) links
  unfolding bucket_links
  bucket_links-SameItems r links w =
      let (low, high) = thresholds out set links in
      let p = split_links low high links in
      let b : Buckets = (choose out set r p).0 in
      let c : Buckets = cap_sample set.max_llm_links b in
      omega (
        arith,
        sum_by-append w c.sampled (c.skip_llm ++ c.dropped),
        sum_by-append w c.skip_llm c.dropped,
        cap_sample-weight set.max_llm_links b w,
        choose-weight r p w,
        split_links-sum_by low high links w,
      )

  -- A link is dropped only if its score is below the low threshold in force.
  pub dropped_below :
      (r : R) (links : List Link)
      → All
          (λ l. l.nlp_score < (thresholds out set links).0)
          (bucket_links out set r links).0.dropped
  unfolding bucket_links choose assemble
  dropped_below r links =
      let (low, high) = thresholds out set links in
      let p = split_links low high links in
      subst (All (λ l. l.nlp_score < low)) (sym (dropped-cap_sample set.max_llm_links _))
        (pick-All (λ l. l.nlp_score < low) _ 0 p.low (low_below low high links)).1
