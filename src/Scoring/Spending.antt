-- ===== src/Scoring/Spending.antt =====
-- The LLM calls of a whole crawl against its call budget.
use crawl_viz.Base.{
  ℕ, ◌+◌, ◌≤◌, ◌≡◌, refl, Bool, true, false, Option, none, some, List, [], ◌∷◌, ◌++◌, length,
  length-append, Option-cases, inl, inr, arith,
}
use crawl_viz.Models.{Link}
use crawl_viz.Budget.{new_budget}
use crawl_viz.Budget.Account.{CallMeter, budget_meter}
use crawl_viz.Scoring.Buckets.{Settings, Outside, Buckets, bucket_links}
use crawl_viz.Scoring.Batches.{take_llm_calls, batches, batch_size, ceil_div, chunks}
use crawl_viz.Scoring.Limits.{batches-le-granted}
use crawl_viz.Scoring.Process.{Services, ScoringState, score_links, process_links, process}
use crawl_viz.Scoring.Cascade.{score_sampled_calls}

-- From budget `b` to the budget of the state `s`, with `calls` calls in between.
record Paid {R S W : Type 0} (meter : CallMeter S) (b : S) (calls : ℕ) (s : ScoringState R S W)
    : Type 0 where
  after : S
  budget : s.budget ≡ some after
  paid : calls + meter.spent b ≤ meter.spent after
  within : (n : ℕ) → meter.IsWithin n b → meter.IsWithin n after

module _ {S : Type 0} (meter : CallMeter S) where
  take_llm_calls_paid :
      (size : Option ℕ) (sampled llm_skip : List Link) (b : S)
      → let r = take_llm_calls meter size sampled llm_skip (some b) in
        (after : S) × (r.1 ≡ some after)
        × (length (batches size r.0.0) + meter.spent b ≤ meter.spent after)
        × ((n : ℕ) → meter.IsWithin n b → meter.IsWithin n after)
  unfolding take_llm_calls
  take_llm_calls_paid size [] llm_skip b = (b, refl, unfold batches chunks in omega arith, λ n h. h)
  take_llm_calls_paid size (l ∷ ls) llm_skip b =
      let needed = ceil_div (length (l ∷ ls)) (batch_size size (length (l ∷ ls))) in
      (
        (meter.grant b needed).1,
        refl,
        omega (arith, batches-le-granted meter size l ls llm_skip b, meter.spent_grant b needed),
        λ n h. meter.within_grant n needed b h,
      )

  module _ {R W : Type 0} (svc : Services W) (out : Outside R) (set : Settings) where
    score_links-Paid :
        (scored : List Link) (s : ScoringState R S W) (b : S)
        → s.budget ≡ some b
        → let o = score_links svc meter out set scored s in Paid meter b (length o.calls) o.state
    unfolding score_links
    score_links-Paid scored s b e =
        let c : Buckets = (bucket_links out set s.rng scored).0 in
        let size = set.llm_batch_size in
        let (after, at, enough, keeps) = take_llm_calls_paid size c.sampled c.skip_llm b in
        let kept = (take_llm_calls meter size c.sampled c.skip_llm (some b)).0.0 in
        rw e (record {
          after = after;
          budget = at;
          paid = omega (arith, enough, (score_sampled_calls svc s.world size kept).0);
          within = keeps;
        })

    unspent : (s : ScoringState R S W) (b : S) → s.budget ≡ some b → Paid meter b 0 s
    unspent s b e = record { after = b; budget = e; paid = omega arith; within = λ n h. h }

    process-Paid :
        (ready : Option Bool) (links : List Link) (s : ScoringState R S W) (b : S)
        → s.budget ≡ some b
        → let o = process svc meter out set ready links s in Paid meter b (length o.calls) o.state
    unfolding process process_links
    process-Paid none links s b e = unspent s b e
    process-Paid (some false) links s b e = unspent s b e
    process-Paid (some true) [] s b e = unspent s b e
    process-Paid (some true) (l ∷ ls) s b e =
        elim (Option-cases (svc.nlp_score_links s.world (l ∷ ls)).0) [
          | inl raised ↦ rw (raised, process_links) (unspent _ b e)
          | inr (scored, back) ↦ rw (back, process_links) (score_links-Paid scored _ b e)
        ]

    -- The nodes of a crawl, one after the other: every batch that went out to the LLM.
    pub process_nodes : List (Option Bool × List Link) → ScoringState R S W → List (List Link)
    process_nodes [] s = []
    process_nodes ((ready, links) ∷ rest) s =
        let o = process svc meter out set ready links s in o.calls ++ process_nodes rest o.state

    process_nodes-le :
        (nodes : List (Option Bool × List Link)) (s : ScoringState R S W) (b : S) (n : ℕ)
        → s.budget ≡ some b
        → meter.IsWithin n b
        → length (process_nodes nodes s) + meter.spent b ≤ n
    unfolding process_nodes
    process_nodes-le [] s b n e h = omega (arith, meter.spent_le n b h)
    process_nodes-le ((ready, links) ∷ rest) s b n e h =
        let o = process svc meter out set ready links s in
        let p = process-Paid ready links s b e in
        omega (
          arith,
          p.paid,
          process_nodes-le rest o.state p.after n p.budget (p.within n h),
          length-append o.calls (process_nodes rest o.state),
        )

-- Whatever the pages, their scores, the draws and the services' answers, a crawl with a call budget
-- of `limit` sends at most `limit` batches to the LLM, failed ones included.
pub crawl_calls-le-limit :
    {R W : Type 0} (svc : Services W) (out : Outside R) (set : Settings) (limit : ℕ) (rng : R)
    (w : W) (nodes : List (Option Bool × List Link))
    → length (
        process_nodes budget_meter svc out set nodes
          (record { rng = rng; budget = some (new_budget (some limit)); world = w }))
      ≤ limit
crawl_calls-le-limit svc out set limit rng w nodes = omega (
  arith,
  process_nodes-le budget_meter svc out set nodes
      (record { rng = rng; budget = some (new_budget (some limit)); world = w })
      (new_budget (some limit)) limit refl (unfold new_budget in (refl, omega arith)),
)
