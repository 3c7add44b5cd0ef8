-- ===== src/Budget/Examples.antt =====
-- Runs of the call budget, and the theorems at concrete histories.
use crawl_viz.Base.{◌≡◌, refl, false, none, some, [], ◌∷◌}
use crawl_viz.Budget.{CallBudget, new_budget, take_calls, take_each}
use crawl_viz.Budget.Account.{total, take_each-closed_form}

unlimited_run : (take_each (new_budget none) (4 ∷ 9 ∷ [])).1.used ≡ 13
unfolding take_each take_calls new_budget
unlimited_run = refl

limited_run : (take_each (new_budget (some 5)) (2 ∷ 4 ∷ 1 ∷ [])).0 ≡ 2 ∷ 3 ∷ 0 ∷ []
unfolding take_each take_calls new_budget
limited_run = refl

abbrev spent_budget : CallBudget
spent_budget = record { limit = some 5; used = 5; refused = 0; warned = false }

take_each-closed_form_example : total (take_each (new_budget (some 5)) (2 ∷ 4 ∷ 1 ∷ [])).0 ≡ 5
take_each-closed_form_example = (take_each-closed_form 5 (2 ∷ 4 ∷ 1 ∷ [])).0
