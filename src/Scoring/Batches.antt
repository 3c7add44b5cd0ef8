-- ===== src/Scoring/Batches.antt =====
-- The LLM calls of one node: `ScoringPipeline._take_llm_calls` and the loop over the batches.
-- The call budget is any meter with the interface of Budget/Account.
use crawl_viz.Base.{
  ℕ, zero, suc, ◌+◌, ◌-◌, ◌*◌, ◌/◌, Option, none, some, List, [], ◌∷◌, ◌++◌, length, take, drop,
  ◌==◌, min, if◌then◌else◌,
}
use crawl_viz.Models.{Link}
use crawl_viz.Budget.Account.{CallMeter}
use crawl_viz.Scoring.Ranked.{rank}

-- `self.llm_batch_size or len(sampled)`: 0 counts as no batch size.
unfoldable pub batch_size : Option ℕ → ℕ → ℕ
batch_size none n = n
batch_size (some zero) n = n
batch_size (some (suc k)) n = suc k

-- `-(-n // size)`
unfoldable pub ceil_div : ℕ → ℕ → ℕ
ceil_div n size = (n + size - 1) / size

-- What is left of the choice when only the first `kept` of the ranked links can be paid for.
unfoldable pub keep_affordable : List Link → List Link → ℕ → List Link × List Link
keep_affordable sampled llm_skip kept =
    let ranked = rank sampled in
    if kept == length sampled
    then (sampled, llm_skip)
    else (take kept ranked, llm_skip ++ drop kept ranked)

module _ {S : Type 0} (meter : CallMeter S) where
  -- With no budget wired in (`call_budget is None`) the stage passes `none` for it.
  unfoldable pub take_llm_calls :
      Option ℕ → List Link → List Link → Option S → (List Link × List Link) × Option S
  take_llm_calls size sampled llm_skip none = ((sampled, llm_skip), none)
  take_llm_calls size [] llm_skip (some s) = (([], llm_skip), some s)
  take_llm_calls size (l ∷ ls) llm_skip (some s) =
      let sampled : List Link = l ∷ ls in
      let n = batch_size size (length sampled) in
      let (granted, s') = meter.grant s (ceil_div (length sampled) n) in
      (keep_affordable sampled llm_skip (min (length sampled) (granted * n)), some s')

-- `sampled[start : start + size] for start in range(0, len(sampled), size)`; a round takes at
-- least one link, so the number of links bounds the rounds.
unfoldable pub chunks : ℕ → ℕ → List Link → List (List Link)
chunks zero size links = []
chunks (suc rounds) size [] = []
chunks (suc rounds) size (l ∷ ls) = take size (l ∷ ls) ∷ chunks rounds size (drop size (l ∷ ls))

unfoldable pub batches : Option ℕ → List Link → List (List Link)
unfolding chunks
batches size sampled = chunks (length sampled) (batch_size size (length sampled)) sampled
