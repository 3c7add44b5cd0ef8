-- ===== src/Base/Texts.antt =====
-- Association lists keyed by texts: a Python dict with string keys.
use mathlib.Core.Path.{◌≡◌, refl}
use mathlib.Core.Bool.{Bool, true, false}
use mathlib.Core.List.{List, [], ◌∷◌, ◌++◌}
use Prim.Native.Nat.{ℕ, zero, suc}
use mathlib.Core.Option.{Option, none, some}
use Prim.Native.String.{String}
use native.Mathlib.Omega.{arith}
use text.Mathlib.Text.{◌==◌}
use text.Mathlib.TextEquality.{eq_iff}
use crawl_viz.Base.Tests.{if◌then◌else◌}
use crawl_viz.Base.Lists.{get_elem?}

abbrev pub Dict {ℓ} : Type ℓ → Type ℓ
Dict V = List (String × V)

abbrev pub contains : List String → String → Bool
contains [] u = false
contains (v ∷ vs) u = if v == u then true else contains vs u

module _ {ℓ} {V : Type ℓ} where
  unfoldable pub lookup : String → Dict V → Option V
  lookup key [] = none
  lookup key ((k, x) ∷ rest) = if k == key then some x else lookup key rest

  -- `d[k] = v` keeps the place of a key that is there, and appends a new one.
  unfoldable pub insert : String → V → Dict V → Dict V
  insert key x [] = (key, x) ∷ []
  insert key x ((k, y) ∷ rest) =
      let d = insert key x rest in if k == key then (k, x) ∷ rest else (k, y) ∷ d

  -- `del d[k]` and `d.pop(k, None)`.
  unfoldable pub erase : String → Dict V → Dict V
  erase key [] = []
  erase key ((k, y) ∷ rest) = let d = erase key rest in if k == key then d else (k, y) ∷ d

  pub lookup-erase :
      (key other : String) (d : Dict V)
      → lookup other (erase key d) ≡ (if key == other then none else lookup other d)
  unfolding lookup erase
  lookup-erase key other [] = ground arith
  lookup-erase key other ((k, y) ∷ rest) =
      ground (arith, lookup-erase key other rest, eq_iff key other, eq_iff k key, eq_iff k other)

  pub lookup-insert :
      (key other : String) (x : V) (d : Dict V)
      → lookup other (insert key x d) ≡ (if key == other then some x else lookup other d)
  unfolding lookup insert
  lookup-insert key other x [] = refl
  lookup-insert key other x ((k, y) ∷ rest) =
      ground (arith, lookup-insert key other x rest, eq_iff key other, eq_iff k key, eq_iff k other)

pub contains-append :
    (us vs : List String) (u : String)
    → contains (us ++ vs) u ≡ (if contains us u then true else contains vs u)
contains-append [] vs u = refl
contains-append (w ∷ us) vs u = ground (arith, contains-append us vs u)

pub contains-get_elem? :
    (us : List String) (i : ℕ) {u : String} → get_elem? us i ≡ some u → contains us u ≡ true
contains-get_elem? [] i h = cc
contains-get_elem? (v ∷ us) zero {u} h = ground (arith, eq_iff v u)
contains-get_elem? (v ∷ us) (suc i) h = ground (arith, contains-get_elem? us i h)
