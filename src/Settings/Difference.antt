-- ===== src/Settings/Difference.antt =====
-- What a stored difference holds, and that merging it back loses nothing.
use crawl_viz.Base.{
  String, Bool, true, false, Option, none, some, List, [], ◌∷◌, ◌≡◌, ◌≢◌, refl, ap, sym, subst, ◌∙◌,
  Bool-cases, inl, inr, if◌then◌else◌, str_eq, eq_iff,
}
use crawl_viz.Settings.{
  Value, null, leaf, table, Fields, empty, field, get, same, deep_merge, merge_value, diff,
  diff_value, changed, or_null, unless_empty, is_empty, add_field, is_whole,
}
use crawl_viz.Settings.Readings.{
  IsDict, IsJson, IsDict-get, read, absent, is_null, SameReads, read-same,
}
use crawl_viz.Settings.Merge.{
  merge_entry, get-deep_merge, Covers, CoversDict, Covers-none, read-deep_merge,
}

-- The entry that is written, from the default's and the new one.
abbrev pub diff_entry : String → Option Value → Option Value → Option Value
diff_entry k old none = none
diff_entry k old (some v) = diff_value k old v

get-add_field :
    (j k : String) (o : Option Value) (out : Fields)
    → get k out ≡ none
    → get j (add_field k o out) ≡ (if str_eq k j then o else get j out)
unfolding get add_field
get-add_field j k none out h = elim (Bool-cases (str_eq k j)) [
  | inl here ↦ rw here (ap (λ i. get i out) (sym ((eq_iff k j).0 here)) ∙ h)
  | inr other ↦ rw other refl
]
get-add_field j k (some v) out h = refl

pub get-diff :
    (k : String) (base new : Fields)
    → IsDict new
    → get k (diff base new) ≡ diff_entry k (get k base) (get k new)
unfolding get diff
get-diff k base empty d = refl
get-diff k base (field j v rest) d =
    let others = get-diff k base rest d.2 in
    let once = get-diff j base rest d.2 ∙ ap (diff_entry j (get j base)) d.0 in
    get-add_field k j (diff_value j (get j base) v) (diff base rest) once
    ∙ elim (Bool-cases (str_eq j k)) [
      | inl here ↦ rw here (ap (λ i. diff_value i (get i base) v) ((eq_iff j k).0 here))
      | inr other ↦ rw other others
    ]

add_field-IsDict :
    (k : String) (o : Option Value) (out : Fields)
    → get k out ≡ none
    → ((v : Value) → o ≡ some v → IsJson v)
    → IsDict out
    → IsDict (add_field k o out)
unfolding add_field
add_field-IsDict k none out h j d = d
add_field-IsDict k (some v) out h j d = (h, j v refl, d)

if-IsJson :
    (b : Bool) (x y : Option Value)
    → ((v : Value) → x ≡ some v → IsJson v)
    → ((v : Value) → y ≡ some v → IsJson v)
    → (v : Value) → (if b then x else y) ≡ some v
    → IsJson v
if-IsJson true x y h k = h
if-IsJson false x y h k = k

changed-IsJson :
    (old : Option Value) (v : Value) → IsJson v → (w : Value) → changed old v ≡ some w → IsJson w
unfolding changed
changed-IsJson old v j =
    if-IsJson (same (or_null old) v) none (some v) (λ w e. cc)
      (λ w e. subst (λ o. elim o [ none ↦ Unit | some u ↦ IsJson u ]) e j)

mutual
  unfolding diff diff_value unless_empty

  diff-IsDict : (base new : Fields) → IsDict new → IsDict (diff base new)
  diff-IsDict base empty d = tt
  diff-IsDict base (field k v rest) d =
      add_field-IsDict k (diff_value k (get k base) v) (diff base rest)
        (get-diff k base rest d.2 ∙ ap (diff_entry k (get k base)) d.0)
        (diff_value-IsJson k (get k base) v d.1) (diff-IsDict base rest d.2)

  diff_value-IsJson :
      (k : String) (old : Option Value) (v : Value)
      → IsJson v
      → (w : Value) → diff_value k old v ≡ some w
      → IsJson w
  diff_value-IsJson k none v j = changed-IsJson none v j
  diff_value-IsJson k (some null) v j = changed-IsJson (some null) v j
  diff_value-IsJson k (some (leaf s s')) v j = changed-IsJson (some (leaf s s')) v j
  diff_value-IsJson k (some (table f)) null j = changed-IsJson (some (table f)) null j
  diff_value-IsJson k (some (table f)) (leaf t t') j = changed-IsJson (some (table f)) (leaf t t') j
  diff_value-IsJson k (some (table f)) (table g) j =
      if-IsJson (is_whole k) (changed (some (table f)) (table g)) (unless_empty (diff f g))
        (changed-IsJson (some (table f)) (table g) j)
        (if-IsJson (is_empty (diff f g)) none (some (table (diff f g))) (λ w e. cc)
          (λ w e. subst (λ o. elim o [ none ↦ Unit | some u ↦ IsJson u ]) e (diff-IsDict f g j)))

-- No null setting of the new dict is missing in the default.
abbrev pub NoNewNull : Option Value → Option Value → Type 0
NoNewNull old new = (path : List String) → read path new ≡ is_null → read path old ≢ absent

abbrev RoundTrip : List String → Type 0
RoundTrip path =
    (base new : Fields)
    → IsDict new
    → CoversDict base new
    → NoNewNull (some (table base)) (some (table new))
    → read path (some (table (deep_merge base (diff base new)))) ≡ read path (some (table new))

-- An entry that the test of equality decides on.
read-changed :
    (path : List String) (old : Option Value) (v : Value)
    → NoNewNull old (some v)
    → read path (some (merge_value old v)) ≡ read path (some v)
    → read path (merge_entry old (changed old v)) ≡ read path (some v)
unfolding changed or_null same
read-changed path none null n w = absurd (n [] refl refl)
read-changed path none (leaf t t') n w = w
read-changed path none (table g) n w = w
read-changed path (some old) v n w = elim (Bool-cases (same old v)) [
  | inl equal ↦ rw equal (read-same old v equal path)
  | inr other ↦ rw other w
]

is_empty-eq : (f : Fields) → is_empty f ≡ true → f ≡ empty
unfolding is_empty
is_empty-eq empty h = refl
is_empty-eq (field k v rest) h = cc

-- A dict whose difference is written only if there is one.
read-unless_empty :
    (path : List String) (f g sub : Fields)
    → read path (some (table (deep_merge f sub))) ≡ read path (some (table g))
    → read path (merge_entry (some (table f)) (unless_empty sub)) ≡ read path (some (table g))
unfolding unless_empty merge_value deep_merge
read-unless_empty path f g sub h = elim (Bool-cases (is_empty sub)) [
  | inl nothing ↦ rw nothing (
      subst (λ d. read path (some (table (deep_merge f d))) ≡ read path (some (table g)))
        (is_empty-eq sub nothing) h)
  | inr written ↦ rw written h
]

read-diff_entry :
    (path : List String)
    → RoundTrip path
    → (k : String) (old new : Option Value) → ((v : Value) → new ≡ some v → IsJson v)
    → Covers old new
    → NoNewNull old new
    → read path (merge_entry old (diff_entry k old new)) ≡ read path new
unfolding diff_value merge_value
read-diff_entry path ih k old none d c n = ap (read path) (Covers-none old c)
read-diff_entry path ih k none (some v) d c n = read-changed path none v n refl
read-diff_entry path ih k (some null) (some v) d c n = read-changed path (some null) v n refl
read-diff_entry path ih k (some (leaf s s')) (some v) d c n =
    read-changed path (some (leaf s s')) v n refl
read-diff_entry path ih k (some (table f)) (some null) d c n =
    read-changed path (some (table f)) null n refl
read-diff_entry path ih k (some (table f)) (some (leaf t t')) d c n =
    read-changed path (some (table f)) (leaf t t') n refl
read-diff_entry path ih k (some (table f)) (some (table g)) d c n = elim (Bool-cases (is_whole k)) [
  | inl whole ↦ rw whole (
      read-changed path (some (table f)) (table g) n
        (read-deep_merge path f g (d (table g) refl) c))
  | inr nested ↦ rw nested (read-unless_empty path f g (diff f g) (ih f g (d (table g) refl) c n))
]

merge_back : (path : List String) → RoundTrip path
merge_back [] base new d c n = refl
merge_back (k ∷ path) base new d c n =
    ap (read path) (
      get-deep_merge k base (diff base new) (diff-IsDict base new d)
      ∙ ap (merge_entry (get k base)) (get-diff k base new d))
    ∙ read-diff_entry path (merge_back path) k (get k base) (get k new) (λ v. IsDict-get k new d)
        (λ rest. c (k ∷ rest)) (λ rest. n (k ∷ rest))

-- Merging the stored difference back into the defaults reads like the config it was taken from, if
-- that config has every setting of the defaults, at any depth, and no null setting that they lack.
pub deep_merge-diff :
    (base new : Fields)
    → IsDict new
    → CoversDict base new
    → NoNewNull (some (table base)) (some (table new))
    → SameReads (deep_merge base (diff base new)) new
deep_merge-diff base new d c n path = merge_back path base new d c n
