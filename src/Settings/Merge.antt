-- ===== src/Settings/Merge.antt =====
-- What a merge of two dicts holds at each key.
use crawl_viz.Base.{
  String, Option, none, some, List, [], ◌∷◌, ◌≡◌, ◌≢◌, refl, ap, ◌∙◌, Bool-cases, inl, inr, str_eq,
  eq_iff, arith,
}
use crawl_viz.Settings.{
  Value, null, leaf, table, Fields, empty, field, get, put, deep_merge, merge_value,
}
use crawl_viz.Settings.Readings.{IsDict, IsJson, IsDict-get, get-put, read, absent}

-- The entry after a merge, from the two entries before it.
abbrev pub merge_entry : Option Value → Option Value → Option Value
merge_entry old none = old
merge_entry old (some v) = some (merge_value old v)

pub get-deep_merge :
    (k : String) (base over : Fields)
    → IsDict over
    → get k (deep_merge base over) ≡ merge_entry (get k base) (get k over)
unfolding get deep_merge
get-deep_merge k base empty d = refl
get-deep_merge k base (field j v rest) d =
    let rest_merged = get-deep_merge k (put j (merge_value (get j base) v) base) rest d.2 in
    elim (Bool-cases (str_eq j k)) [
      | inl here ↦
          (let same_key = (eq_iff j k).0 here in
            rw here (
              rest_merged
              ∙ ground (
                arith,
                get-put k j (merge_value (get j base) v) base,
                here,
                d.0,
                ap (λ i. get i rest) same_key,
                ap (λ i. get i base) same_key,
              )))
      | inr other ↦ rw other (
          rest_merged
          ∙ ap (λ o. merge_entry o (get k rest))
              (ground (arith, get-put k j (merge_value (get j base) v) base, other)))
    ]

-- Every setting that the first value has stands in the second too.
abbrev pub Covers : Option Value → Option Value → Type 0
Covers old new = (path : List String) → read path old ≢ absent → read path new ≢ absent

abbrev pub CoversDict : Fields → Fields → Type 0
CoversDict f g = Covers (some (table f)) (some (table g))

pub Covers-none : (old : Option Value) → Covers old none → old ≡ none
Covers-none none c = refl
Covers-none (some null) c = absurd (c [] (λ e. cc) refl)
Covers-none (some (leaf s s')) c = absurd (c [] (λ e. cc) refl)
Covers-none (some (table f)) c = absurd (c [] (λ e. cc) refl)

abbrev MergeReads : List String → Type 0
MergeReads path =
    (base over : Fields)
    → IsDict over
    → CoversDict base over
    → read path (some (table (deep_merge base over))) ≡ read path (some (table over))

read-merge_entry :
    (path : List String)
    → MergeReads path
    → (old new : Option Value) → ((v : Value) → new ≡ some v → IsJson v)
    → Covers old new
    → read path (merge_entry old new) ≡ read path new
unfolding merge_value
read-merge_entry path ih old none d c = ap (read path) (Covers-none old c)
read-merge_entry path ih none (some v) d c = refl
read-merge_entry path ih (some null) (some v) d c = refl
read-merge_entry path ih (some (leaf s s')) (some v) d c = refl
read-merge_entry path ih (some (table f)) (some null) d c = refl
read-merge_entry path ih (some (table f)) (some (leaf t t')) d c = refl
read-merge_entry path ih (some (table f)) (some (table g)) d c = ih f g (d (table g) refl) c

-- A merge reads like the dict that was put in, if that one has every setting of the base.
pub read-deep_merge : (path : List String) → MergeReads path
read-deep_merge [] base over d c = refl
read-deep_merge (k ∷ path) base over d c =
    ap (read path) (get-deep_merge k base over d)
    ∙ read-merge_entry path (read-deep_merge path) (get k base) (get k over)
        (λ v. IsDict-get k over d) (λ rest. c (k ∷ rest))
