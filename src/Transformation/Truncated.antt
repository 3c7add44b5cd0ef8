-- ===== src/Transformation/Truncated.antt =====
-- What single steps promise: `truncate` bounds the text, `deduplicate` keeps one of each.
use Prim.Native.String.{[] as no_text, ◌∷◌ as ◌∷∷◌, count}
use package.text.Mathlib.TextLemmas.{length-cons}
use crawl_viz.Base.{
  OnSome, OnSome->>=, OnSome-any, ℕ, zero, suc, ◌≤◌, ◌≡◌, refl, ap, sym, subst, ◌∙◌, String, true,
  false, Option, none, some, List, [], ◌∷◌, ◌++◌, map, arith, Bool-cases, inl, inr, if◌then◌else◌,
  str_eq, eq_iff,
}
use crawl_viz.Base.Int.{pos, negsuc}
use crawl_viz.Base.Texts.{contains}
use crawl_viz.Models.{Value, text}
use crawl_viz.Transformation.{
  TextOps, Transform, truncate, MaxLen, by_default, whole_text, no_integer, chars, Skips,
  take_chars, slice_to, joined, apply_step, apply_chain, first_of_each,
}

count-take_chars : (n : ℕ) (s : String) → count (take_chars n s) ≤ n
unfolding take_chars
count-take_chars zero s = omega arith
count-take_chars (suc n) no_text = omega arith
count-take_chars (suc n) (c ∷∷ s) =
    subst (λ m. m ≤ suc n) (sym (length-cons c (take_chars n s)))
      (omega (arith, count-take_chars n s))

abbrev pub IsShort : ℕ → Value → Type 0
IsShort limit v = (s : String) × (v ≡ text s) × (count s ≤ limit)

-- The number of characters that a `max_len` allows, where it is one.
abbrev pub limit_of : MaxLen → Option ℕ
limit_of by_default = some 300
limit_of (chars (pos n)) = some n
limit_of whole_text = none
limit_of no_integer = none
limit_of (chars (negsuc n)) = none

slice_to-le :
    (max_len : MaxLen) (s : String) {n : ℕ}
    → limit_of max_len ≡ some n
    → OnSome (λ t. count t ≤ n) (slice_to max_len s)
unfolding slice_to
slice_to-le by_default s h = ground (arith, h, count-take_chars 300 s)
slice_to-le whole_text s h = cc
slice_to-le no_integer s h = cc
slice_to-le (chars (pos m)) s h = ground (arith, h, count-take_chars m s)
slice_to-le (chars (negsuc m)) s h = cc

module _ (ops : TextOps) (max_regex_input_chars : ℕ) where
  truncate_last :
      (ts : List Transform) (max_len : MaxLen) (v : Value) (skips : Skips) {n : ℕ}
      → limit_of max_len ≡ some n
      → OnSome
          (λ r. IsShort n r.0)
          (apply_chain ops max_regex_input_chars (ts ++ truncate max_len ∷ []) v skips)
  unfolding apply_chain apply_step
  truncate_last [] max_len v skips {n = n} h =
      let input = joined ops max_regex_input_chars " " v in
      OnSome->>= (λ r. IsShort n r.0) _ _ _
        (OnSome->>= (λ t. count t ≤ n) _ (slice_to max_len input) _ (slice_to-le max_len input h)
          (λ t le. (t, refl, le)))
        (λ r short. short)
  truncate_last (t ∷ ts) max_len v skips h =
      let step = apply_step ops max_regex_input_chars t v skips in
      OnSome->>= (λ _. Unit {0}) _ step _ (OnSome-any step)
        (λ one u. truncate_last ts max_len one.0 one.1 h)

  -- A chain that ends in a `truncate` step whose `max_len` is a number from 0 on, or missing, gives a text of at
  -- most that many characters, 300 if it is missing, whatever the value and the steps before.
  pub apply_chain-IsShort :
      (ts : List Transform) (max_len : MaxLen) (v : Value) (skips : Skips) {n : ℕ} {v' : Value}
      {skips' : Skips}
      → limit_of max_len ≡ some n
      → apply_chain ops max_regex_input_chars (ts ++ truncate max_len ∷ []) v skips
        ≡ some (v', skips')
      → IsShort n v'
  apply_chain-IsShort ts max_len v skips {n = n} h e =
      subst (OnSome (λ r. IsShort n r.0)) e (truncate_last ts max_len v skips h)

  -- The text by which `deduplicate` compares.
  abbrev pub key : String → String
  key v = ops.lower (ops.strip v)

  abbrev pub IsDistinct : List String → Type 0
  IsDistinct [] = Unit
  IsDistinct (k ∷ ks) = (contains ks k ≡ false) × IsDistinct ks

  contains-first_of_each :
      (seen vs : List String) (k : String)
      → contains (map key (first_of_each ops max_regex_input_chars seen vs)) k
        ≡ (if contains seen k then false else contains (map key vs) k)
  unfolding first_of_each
  contains-first_of_each seen [] k = ground arith
  contains-first_of_each seen (v ∷ vs) k = elim (Bool-cases (contains seen (key v))) [
    | inl old ↦ rw old (
        contains-first_of_each seen vs k ∙ elim (Bool-cases (str_eq (key v) k)) [
          | inl here ↦
              (let there : contains seen k ≡ true =
                  ap (contains seen) (sym ((eq_iff (key v) k).0 here)) ∙ old in
                rw there refl)
          | inr other ↦ rw other refl
        ])
    | inr new ↦ rw new (elim (Bool-cases (str_eq (key v) k)) [
      | inl here ↦
          (let absent_there : contains seen k ≡ false =
              ap (contains seen) (sym ((eq_iff (key v) k).0 here)) ∙ new in
            rw (here, absent_there) refl)
      | inr other ↦ rw other (contains-first_of_each (key v ∷ seen) vs k ∙ rw other refl)
    ])
  ]

  first_of_each-IsDistinct :
      (seen vs : List String)
      → IsDistinct (map key (first_of_each ops max_regex_input_chars seen vs))
  unfolding first_of_each
  first_of_each-IsDistinct seen [] = tt
  first_of_each-IsDistinct seen (v ∷ vs) = elim (Bool-cases (contains seen (key v))) [
    | inl old ↦ rw old (first_of_each-IsDistinct seen vs)
    | inr new ↦ rw new (
      contains-first_of_each (key v ∷ seen) vs (key v) ∙ ground (arith, eq_iff (key v) (key v)),
      first_of_each-IsDistinct (key v ∷ seen) vs,
    )
  ]

  -- Of a list, `deduplicate` keeps texts that differ by more than case and outer blanks, and of each text
  -- of the list one that does not differ by more.
  pub first_of_each-contains :
      (vs : List String)
      → IsDistinct (map key (first_of_each ops max_regex_input_chars [] vs))
        × ((k : String)
            → contains (map key (first_of_each ops max_regex_input_chars [] vs)) k
              ≡ contains (map key vs) k)
  first_of_each-contains vs = (first_of_each-IsDistinct [] vs, contains-first_of_each [] vs)
