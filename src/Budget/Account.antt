-- ===== src/Budget/Account.antt =====
-- The account that a call budget keeps, over any history of requests.
use crawl_viz.Base.{ℕ, ◌+◌, ◌-◌, ◌≤◌, ◌≡◌, true, some, List, [], ◌∷◌, arith, ltb, min, sum_by}
use crawl_viz.Budget.{CallBudget, new_budget, take_calls, exhausted, take_each}

abbrev pub total : List ℕ → ℕ
total = sum_by (λ c. c)

-- What a limited budget has written down after requests for `asked` calls in all.
pub record Accounts (limit asked : ℕ) (b : CallBudget) : Type 0 where
  pub cap : b.limit ≡ some limit
  pub spent : b.used ≡ min limit asked
  pub turned_down : b.refused ≡ asked - limit
  pub warning : b.warned ≡ ltb limit asked

new_budget-Accounts : (limit : ℕ) → Accounts limit 0 (new_budget (some limit))
unfolding new_budget
new_budget-Accounts limit = ground arith

take_calls-Accounts :
    (limit asked calls : ℕ) (b : CallBudget)
    → Accounts limit asked b
    → Accounts limit (asked + calls) (take_calls b calls).1
unfolding take_calls
take_calls-Accounts limit asked calls b v = ground arith

take_calls-granted :
    (limit asked calls : ℕ) (b : CallBudget)
    → Accounts limit asked b
    → (take_calls b calls).0 + b.used ≡ (take_calls b calls).1.used
unfolding take_calls
take_calls-granted limit asked calls b v = ground arith

take_each-Accounts :
    (limit asked : ℕ) (b : CallBudget) (cs : List ℕ)
    → Accounts limit asked b
    → Accounts limit (asked + total cs) (take_each b cs).1
unfolding take_each
take_each-Accounts limit asked b [] v = ground arith
take_each-Accounts limit asked b (c ∷ cs) v = ground (
  arith,
  take_each-Accounts limit (asked + c) (take_calls b c).1 cs
      (take_calls-Accounts limit asked c b v),
)

take_each-granted :
    (limit asked : ℕ) (b : CallBudget) (cs : List ℕ)
    → Accounts limit asked b
    → total (take_each b cs).0 + b.used ≡ (take_each b cs).1.used
unfolding take_each
take_each-granted limit asked b [] v = omega arith
take_each-granted limit asked b (c ∷ cs) v = omega (
  arith,
  take_calls-granted limit asked c b v,
  take_each-granted limit (asked + c) (take_calls b c).1 cs (take_calls-Accounts limit asked c b v),
)

-- Whatever the requests and their order, a limited budget grants in all the smaller of its limit
-- and what was asked, has used just that, has refused the excess over the limit, and has warned
-- exactly if more was asked than the limit.
pub take_each-closed_form :
    (limit : ℕ) (cs : List ℕ)
    → let (granted, b) = take_each (new_budget (some limit)) cs in
      (total granted ≡ min limit (total cs))
      × (b.used ≡ min limit (total cs))
      × (b.refused ≡ total cs - limit)
      × (b.warned ≡ ltb limit (total cs))
take_each-closed_form limit cs =
    let start = new_budget-Accounts limit in
    let final = take_each-Accounts limit 0 (new_budget (some limit)) cs start in
    unfold new_budget in
    ground (arith, final, take_each-granted limit 0 (new_budget (some limit)) cs start)

-- A budget grants nothing once it is exhausted, stays exhausted and counts every call as refused.
pub exhausted-take_calls :
    (b : CallBudget) (calls : ℕ)
    → exhausted b ≡ true
    → ((take_calls b calls).0 ≡ 0)
      × (exhausted (take_calls b calls).1 ≡ true)
      × ((take_calls b calls).1.refused ≡ b.refused + calls)
unfolding exhausted take_calls
exhausted-take_calls b calls h = ground arith

-- The interface that the scoring stage uses: a meter grants no more calls than it is asked for,
-- counts what it granted, and keeps within a cap that it started under.
pub record CallMeter (S : Type 0) : Type 1 where
  pub grant : S → ℕ → ℕ × S
  pub spent : S → ℕ
  pub IsWithin : ℕ → S → Type 0
  pub grant_le : (s : S) (calls : ℕ) → (grant s calls).0 ≤ calls
  pub spent_grant : (s : S) (calls : ℕ) → (grant s calls).0 + spent s ≡ spent (grant s calls).1
  pub within_grant : (n calls : ℕ) (s : S) → IsWithin n s → IsWithin n (grant s calls).1
  pub spent_le : (n : ℕ) (s : S) → IsWithin n s → spent s ≤ n

pub take_calls-le : (b : CallBudget) (calls : ℕ) → (take_calls b calls).0 ≤ calls
unfolding take_calls
take_calls-le b calls = ground arith

pub take_calls-used :
    (b : CallBudget) (calls : ℕ) → (take_calls b calls).0 + b.used ≡ (take_calls b calls).1.used
unfolding take_calls
take_calls-used b calls = ground arith

abbrev pub IsCapped : ℕ → CallBudget → Type 0
IsCapped n b = (b.limit ≡ some n) × (b.used ≤ n)

pub take_calls-IsCapped :
    (n calls : ℕ) (b : CallBudget) → IsCapped n b → IsCapped n (take_calls b calls).1
unfolding take_calls
take_calls-IsCapped n calls b h = ground arith

abbrev pub budget_meter : CallMeter CallBudget
budget_meter = record {
  grant = take_calls;
  spent = λ b. b.used;
  IsWithin = IsCapped;
  grant_le = take_calls-le;
  spent_grant = take_calls-used;
  within_grant = take_calls-IsCapped;
  spent_le = λ n b h. h.1;
}
