-- ===== src/Budget.antt =====
-- infrastructure/call_budget.py: the cap on LLM calls of one crawl.
-- Calls are counted in ℕ: `ScoringPipeline._take_llm_calls` asks for a ceiling of a length.
pub mod Account
mod Examples
use crawl_viz.Base.{
  ℕ, ◌+◌, ◌-◌, ◌≤◌, Bool, true, false, not, ◌&&◌, Option, none, some, List, [], ◌∷◌, ltb, leb, min,
  if◌then◌else◌,
}

pub record CallBudget : Type 0 where
  pub limit : Option ℕ
  pub used : ℕ
  pub refused : ℕ
  pub warned : Bool

unfoldable pub new_budget : Option ℕ → CallBudget
new_budget limit = record { limit = limit; used = 0; refused = 0; warned = false }

-- The branch of `take` with a limit; `-` on ℕ stops at 0, which is the source's `max(0, …)`.
take_within : ℕ → CallBudget → ℕ → ℕ × CallBudget
take_within limit b calls =
    let granted : ℕ = min calls (limit - b.used) in
    (
      granted,
      record b {
        used = b.used + granted;
        refused = b.refused + (calls - granted);
        warned = if ltb granted calls && not b.warned then true else b.warned;
      },
    )

-- The calls that were granted, and the budget after them.
pub take_calls : CallBudget → ℕ → ℕ × CallBudget
unfolding take_within
take_calls b calls = elim b.limit [
  | none ↦ (calls, record b { used = b.used + calls })
  | some limit ↦ take_within limit b calls
]

pub exhausted : CallBudget → Bool
exhausted b = elim b.limit [ none ↦ false | some limit ↦ leb limit b.used ]

pub record BudgetSnapshot : Type 0 where
  pub limit : Option ℕ
  pub used : ℕ
  pub refused : ℕ
  pub exhausted : Bool

pub budget_snapshot : CallBudget → BudgetSnapshot
budget_snapshot b = record {
  limit = b.limit;
  used = b.used;
  refused = b.refused;
  exhausted = exhausted b;
}

-- A history of `take` calls by the scoring workers: the grants, and the budget at the end.
pub take_each : CallBudget → List ℕ → List ℕ × CallBudget
take_each b [] = ([], b)
take_each b (c ∷ cs) =
    let (granted, b') = take_calls b c in let (rest, b'') = take_each b' cs in (granted ∷ rest, b'')
