-- ===== src/Scoring/Limits.antt =====
-- How much goes to the LLM: the cap on one page, the call budget, the batches.
use crawl_viz.Base.{
  ℕ, zero, suc, ◌+◌, ◌-◌, ◌*◌, ◌≤◌, ◌<◌, ◌≡◌, ◌≢◌, refl, Option, none, some, List, [], ◌∷◌, ◌++◌,
  length, take, drop, ltb, ◌==◌, min, SameItems, sum_by-append, take-append-drop, ap, ◌∙◌,
  Bool-cases, inl, inr, All, arith, length-take, length-drop, SameItems-length,
}
use crawl_viz.Models.{Link}
use crawl_viz.Budget.Account.{CallMeter}
use crawl_viz.Scoring.Ranked.{rank, rank-SameItems, rank-IsRanked, Leads, take-Leads-drop}
use crawl_viz.Scoring.Buckets.{Buckets, cap_sample}
use crawl_viz.Scoring.Batches.{
  batch_size, ceil_div, take_llm_calls, keep_affordable, batches, chunks,
}
use crawl_viz.Scoring.Partition.{cut-sum_by}

length-rank : (ls : List Link) → length (rank ls) ≡ length ls
length-rank ls = SameItems-length (rank ls) ls (rank-SameItems ls)

-- With more links chosen than the cap, exactly the cap is sampled, each sampled link scores at
-- least as much as each that the cap moves to the trusted ones; otherwise nothing is moved.
pub cap_sample-ranked :
    (limit : ℕ) (b : Buckets)
    → let c = cap_sample (some limit) b in
      (length c.sampled ≡ min limit (length b.sampled))
      × ((length b.sampled ≤ limit → c ≡ b)
          × (limit < length b.sampled
              → (moved : List Link) × (c.skip_llm ≡ b.skip_llm ++ moved)
                × All (λ l. Leads l moved) c.sampled))
unfolding cap_sample
cap_sample-ranked limit b = elim (Bool-cases (ltb limit (length b.sampled))) [
  | inl over ↦ simp over (
    length-take limit (rank b.sampled) ∙ ap (min limit) (length-rank b.sampled),
    (
      (λ h. absurd (ground arith)),
      λ h. (
        drop limit (rank b.sampled),
        refl,
        take-Leads-drop limit (rank b.sampled) (rank-IsRanked b.sampled),
      ),
    ),
  )
  | inr fits ↦ simp fits (ground arith, ((λ h. refl), λ h. absurd (ground arith)))
]

chunk_count :
    (c k n rest : ℕ)
    → rest ≡ n - k
    → c * suc k < rest + suc k
    → rest ≤ c * suc k
    → c ≤ rest
    → (suc c * suc k < suc n + suc k) × (suc n ≤ suc c * suc k) × (suc c ≤ suc n)
chunk_count zero k n rest e a b d = omega arith
chunk_count (suc c) k n rest e a b d = omega arith

chunks_facts :
    (rounds size : ℕ) (ls : List Link)
    → 0 < size
    → length ls ≤ rounds
    → let cs = chunks rounds size ls in
      (length cs * size < length ls + size)
      × (length ls ≤ length cs * size)
      × (length cs ≤ length ls)
unfolding chunks
chunks_facts zero size [] p h = omega arith
chunks_facts zero size (l ∷ ls) p h = absurd (omega arith)
chunks_facts (suc rounds) size [] p h = omega arith
chunks_facts (suc rounds) zero (l ∷ ls) p h = elim p [ ]
chunks_facts (suc rounds) (suc k) (l ∷ ls) p h =
    let r = chunks_facts rounds (suc k) (drop k ls) p (omega (arith, length-drop k ls)) in
    chunk_count _ k (length ls) (length (drop k ls)) (length-drop k ls) r.0 r.1 r.2

batch_size_pos : (size : Option ℕ) (n : ℕ) → 0 < n → 0 < batch_size size n
unfolding batch_size
batch_size_pos none n h = h
batch_size_pos (some zero) n h = h
batch_size_pos (some (suc k)) n h = omega arith

pub join : List (List Link) → List Link
join [] = []
join (c ∷ cs) = c ++ join cs

join-chunks :
    (rounds size : ℕ) (ls : List Link)
    → 0 < size
    → length ls ≤ rounds
    → (join (chunks rounds size ls) ≡ ls)
      × All (λ c. (0 < length c) × (length c ≤ size)) (chunks rounds size ls)
unfolding chunks join
join-chunks zero size [] p h = (refl, tt)
join-chunks zero size (l ∷ ls) p h = absurd (omega arith)
join-chunks (suc rounds) size [] p h = (refl, tt)
join-chunks (suc rounds) zero (l ∷ ls) p h = elim p [ ]
join-chunks (suc rounds) (suc k) (l ∷ ls) p h =
    let r = join-chunks rounds (suc k) (drop k ls) p (omega (arith, length-drop k ls)) in
    (
      ap (λ t. l ∷ take k ls ++ t) r.0 ∙ ap (λ t. l ∷ t) (take-append-drop k ls),
      ((omega arith, omega (arith, length-take k ls)), r.1),
    )

quotient_le : (c g n : ℕ) → c * n < g * n + n → c ≤ g
quotient_le c g n h = grind arith

ceil_unique : (k n m : ℕ) → 0 < n → k * n < m + n → m ≤ k * n → k ≡ ceil_div m n
unfolding ceil_div
ceil_unique k n m p h l = grind arith

-- The batches are the sampled links in order, none is empty or longer than the batch size, and
-- there are as many as the ceiling of the quotient, the number that the budget is asked for.
pub batches_cover :
    (size : Option ℕ) (sampled : List Link)
    → sampled ≢ []
    → (join (batches size sampled) ≡ sampled)
      × All
          (λ c. (0 < length c) × (length c ≤ batch_size size (length sampled)))
          (batches size sampled)
      × (length (batches size sampled)
          ≡ ceil_div (length sampled) (batch_size size (length sampled)))
unfolding batches
batches_cover size [] ne = absurd (ne refl)
batches_cover size (l ∷ ls) ne =
    let n = batch_size size (length (l ∷ ls)) in
    let p = batch_size_pos size (length (l ∷ ls)) (omega arith) in
    let j = join-chunks (length (l ∷ ls)) n (l ∷ ls) p (omega arith) in
    let f = chunks_facts (length (l ∷ ls)) n (l ∷ ls) p (omega arith) in
    (j.0, j.1, ceil_unique _ n (length (l ∷ ls)) p f.0 f.1)

keep_affordable-SameItems :
    (sampled llm_skip : List Link) (kept : ℕ)
    → let (a, b) = keep_affordable sampled llm_skip kept in SameItems (a ++ b) (sampled ++ llm_skip)
unfolding keep_affordable
keep_affordable-SameItems sampled llm_skip kept w = elim (Bool-cases (kept == length sampled)) [
  | inl all ↦ simp all
  | inr few ↦ simp few (
      omega (
        arith,
        sum_by-append w (take kept (rank sampled)) (llm_skip ++ drop kept (rank sampled)),
        sum_by-append w llm_skip (drop kept (rank sampled)),
        sum_by-append w sampled llm_skip,
        cut-sum_by kept sampled w,
      ))
]

length-keep_affordable :
    (sampled llm_skip : List Link) (kept : ℕ)
    → kept ≤ length sampled
    → length (keep_affordable sampled llm_skip kept).0 ≡ kept
unfolding keep_affordable
length-keep_affordable sampled llm_skip kept h =
    ground (arith, length-take kept (rank sampled), length-rank sampled)

-- No link is lost to the call budget: those it cannot pay for are trusted on their NLP score.
pub take_llm_calls-SameItems :
    {S : Type 0} (meter : CallMeter S) (size : Option ℕ) (sampled llm_skip : List Link)
    (s : Option S)
    → let (sampled', llm_skip') = (take_llm_calls meter size sampled llm_skip s).0 in
      SameItems (sampled' ++ llm_skip') (sampled ++ llm_skip)
unfolding take_llm_calls
take_llm_calls-SameItems meter size sampled llm_skip none w = refl
take_llm_calls-SameItems meter size [] llm_skip (some s) w = refl
take_llm_calls-SameItems meter size (l ∷ ls) llm_skip (some s) w =
    keep_affordable-SameItems (l ∷ ls) llm_skip _ w

batch_size_kept :
    (size : Option ℕ) (n granted : ℕ)
    → let kept = min n (granted * batch_size size n) in
      0 < kept → batch_size size kept ≡ batch_size size n
unfolding batch_size
batch_size_kept none n zero h = absurd (omega arith)
batch_size_kept none n (suc g) h = omega arith
batch_size_kept (some zero) n zero h = absurd (omega arith)
batch_size_kept (some zero) n (suc g) h = omega arith
batch_size_kept (some (suc k)) n granted h = refl

length-batches-le :
    (size : Option ℕ) (n granted : ℕ) (ls : List Link)
    → 0 < n
    → length ls ≡ min n (granted * batch_size size n)
    → length (batches size ls) ≤ granted
unfolding batches chunks
length-batches-le size n granted [] p e = omega arith
length-batches-le size n granted (l ∷ ls) p e =
    let same : batch_size size (length (l ∷ ls)) ≡ batch_size size n =
      rw e (batch_size_kept size n granted (omega arith)) in
    let f =
      chunks_facts (length (l ∷ ls)) (batch_size size n) (l ∷ ls) (batch_size_pos size n p)
        (omega arith) in
    rw same (quotient_le _ granted (batch_size size n) (omega (arith, f)))

-- The batches that remain are no more than the calls that the budget granted.
pub batches-le-granted :
    {S : Type 0} (meter : CallMeter S) (size : Option ℕ) (l : Link) (ls llm_skip : List Link)
    (s : S)
    → let sampled : List Link = l ∷ ls in
      let sampled' = (take_llm_calls meter size sampled llm_skip (some s)).0.0 in
      length (batches size sampled')
      ≤ (meter.grant s (ceil_div (length sampled) (batch_size size (length sampled)))).0
unfolding take_llm_calls
batches-le-granted meter size l ls llm_skip s =
    let n = length (l ∷ ls) in
    let granted = (meter.grant s (ceil_div n (batch_size size n))).0 in
    length-batches-le size n granted _ (omega arith)
      (length-keep_affordable (l ∷ ls) llm_skip (min n (granted * batch_size size n)) (omega arith))
