-- ===== src/Scoring/Process.antt =====
-- `ScoringPipeline._process` for one node. The NLP service, the scoring (LLM) service and the
-- semantic space are parameters over a world `W`: each call may change it, and `none` (`false` for
-- the space) is a call that raises. What an exception leaves behind is the state at that point.
use crawl_viz.Base.{ℕ, Bool, true, false, Option, none, some, List, [], ◌∷◌, ◌++◌, if◌then◌else◌}
use crawl_viz.Models.{Link}
use crawl_viz.Budget.Account.{CallMeter}
use crawl_viz.Scoring.Buckets.{Settings, Outside, bucket_links}
use crawl_viz.Scoring.Batches.{take_llm_calls, batches}

pub data ScoringEvent : Type 0 where
  input_snapshot no_links_to_score scoring_started empty_score_results : ScoringEvent
  high_score_links low_score_links : List Link → ScoringEvent
  scoring_completed links_scored : List Link → ScoringEvent
  scoring_failed : ScoringEvent

pub record Services (W : Type 0) : Type 0 where
  pub nlp_score_links : W → List Link → Option (List Link) × W
  pub llm_score_links : W → List Link → Option (List Link) × W
  pub update_space : W → List Link → Bool × W

pub record ScoringState (R S W : Type 0) : Type 0 where
  pub rng : R
  pub budget : Option S
  pub world : W

-- The events, the batches that went out to the LLM, and the state after the node.
pub record Outcome (R S W : Type 0) : Type 0 where
  pub events : List ScoringEvent
  pub calls : List (List Link)
  pub state : ScoringState R S W

module _ {W : Type 0} (svc : Services W) where
  -- The loop over the batches: it ends at the first call that raises.
  unfoldable pub call_batches : W → List (List Link) → List (List Link) × Option (List Link) × W
  call_batches w [] = ([], some [], w)
  call_batches w (b ∷ bs) =
      let (answer, w') = svc.llm_score_links w b in
      let (calls, rest, w'') = call_batches w' bs in
      elim answer [
        | none ↦ (b ∷ [], none, w')
        | some scored ↦
            (b ∷ calls, elim rest [ none ↦ none | some more ↦ some (scored ++ more) ], w'')
      ]

  -- From the scored links on: the space update, then the two closing events.
  pub finish : W → List Link → List ScoringEvent × W
  finish w [] = (scoring_completed [] ∷ links_scored [] ∷ [], w)
  finish w (l ∷ ls) =
      let (updated, w') = svc.update_space w (l ∷ ls) in
      (
        if updated
            then scoring_completed (l ∷ ls) ∷ links_scored (l ∷ ls) ∷ []
            else scoring_failed ∷ [],
        w',
      )

  -- An empty sample is no failure; a call that returned nothing is reported.
  pub report_empty : List Link → List Link → List ScoringEvent
  report_empty [] scored = []
  report_empty (l ∷ ls) [] = empty_score_results ∷ []
  report_empty (l ∷ ls) (m ∷ ms) = []

  unfoldable pub score_sampled : W → Option ℕ → List Link → List ScoringEvent × List (List Link) × W
  unfolding finish report_empty
  score_sampled w size sampled =
      let (calls, answer, w') = call_batches w (batches size sampled) in
      elim answer [
        | none ↦ (scoring_failed ∷ [], calls, w')
        | some scored ↦
            (let (es, w'') = finish w' scored in (report_empty sampled scored ++ es, calls, w''))
      ]

  module _ {R S : Type 0} (meter : CallMeter S) (out : Outside R) (set : Settings) where
    -- From the NLP scores on: the buckets, the call budget, the two reports, the LLM calls.
    unfoldable pub score_links : List Link → ScoringState R S W → Outcome R S W
    score_links scored s =
        let (b, rng) = bucket_links out set s.rng scored in
        let (kept, budget) =
          take_llm_calls meter set.llm_batch_size b.sampled b.skip_llm s.budget in
        let (es, calls, w) = score_sampled s.world set.llm_batch_size kept.0 in
        record {
          events = high_score_links kept.1 ∷ low_score_links b.dropped ∷ es;
          calls = calls;
          state = record { rng = rng; budget = budget; world = w };
        }

    unfoldable pub process_links : List Link → ScoringState R S W → Outcome R S W
    process_links [] s = record {
      events = input_snapshot ∷ no_links_to_score ∷ [];
      calls = [];
      state = s;
    }
    process_links (l ∷ ls) s =
        let (answer, w) = svc.nlp_score_links s.world (l ∷ ls) in
        elim answer [
          | none ↦ record {
            events = input_snapshot ∷ scoring_started ∷ scoring_failed ∷ [];
            calls = [];
            state = record s { world = w };
          }
          | some scored ↦
              (let o = score_links scored (record s { world = w }) in
                record o { events = input_snapshot ∷ scoring_started ∷ o.events })
        ]

    -- `_await_ready`: `none` when the crawl stops first; `false` when the node failed upstream.
    unfoldable pub process : Option Bool → List Link → ScoringState R S W → Outcome R S W
    process none links s = record { events = []; calls = []; state = s }
    process (some false) links s = record { events = []; calls = []; state = s }
    process (some true) links s = process_links links s
