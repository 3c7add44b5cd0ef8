-- ===== src/Settings/Readings.antt =====
-- What a reader of the settings sees: the value at each path of keys, up to Python's `==`: whatever the order of a
-- dict, and with 5 like 5.0.
use crawl_viz.Base.{
  String, true, false, Option, none, some, List, [], ◌∷◌, ◌≡◌, refl, ap, sym, subst, ◌∙◌,
  Bool-cases, Option-cases, inl, inr, if◌then◌else◌, str_eq, eq_iff, arith,
}
use crawl_viz.Settings.{
  Value, null, leaf, table, Fields, empty, field, get, put, has, keys_in, same, same_in,
}

pub data Reading : Type 0 where
  absent : Reading
  is_null : Reading
  text : String → Reading
  is_table : Reading

abbrev pub child : String → Option Value → Option Value
child k none = none
child k (some null) = none
child k (some (leaf s s')) = none
child k (some (table f)) = get k f

abbrev pub reading : Option Value → Reading
reading none = absent
reading (some null) = is_null
reading (some (leaf s s')) = text s'
reading (some (table f)) = is_table

abbrev pub read : List String → Option Value → Reading
read [] o = reading o
read (k ∷ ks) o = read ks (child k o)

abbrev pub SameReads : Fields → Fields → Type 0
SameReads f g = (path : List String) → read path (some (table f)) ≡ read path (some (table g))

-- No key stands twice, at any level.
abbrev mutual
  pub IsDict : Fields → Type 0
  IsDict empty = Unit
  IsDict (field k v rest) = (get k rest ≡ none) × IsJson v × IsDict rest

  pub IsJson : Value → Type 0
  IsJson null = Unit
  IsJson (leaf s s') = Unit
  IsJson (table f) = IsDict f

pub IsDict-get : (k : String) (f : Fields) {v : Value} → IsDict f → get k f ≡ some v → IsJson v
unfolding get
IsDict-get k empty d e = cc
IsDict-get k (field j w rest) {v = v} d e = elim (Bool-cases (str_eq j k)) [
  | inl here ↦ subst IsJson (ground (arith, e, here)) d.1
  | inr there ↦ IsDict-get k rest d.2 (ground (arith, e, there))
]

pub get-put :
    (j k : String) (v : Value) (d : Fields)
    → get j (put k v d) ≡ (if str_eq k j then some v else get j d)
unfolding get put
get-put j k v empty = refl
get-put j k v (field i w rest) =
    ground (arith, get-put j k v rest, eq_iff k j, eq_iff i k, eq_iff i j)

keys_in-has : (k : String) (g f : Fields) → keys_in g f ≡ true → has f k ≡ false → get k g ≡ none
unfolding keys_in get
keys_in-has k empty f all h = refl
keys_in-has k (field j v rest) f all h = elim (Bool-cases (str_eq j k)) [
  | inl here ↦ ground (arith, all, h, here, ap (has f) ((eq_iff j k).0 here))
  | inr there ↦ rw there (keys_in-has k rest f (ground (arith, all)) h)
]

has-none : (f : Fields) (k : String) → has f k ≡ false → get k f ≡ none
unfolding has
has-none f k h = ground (arith, h)

pub read-none : (path : List String) → read path none ≡ absent
read-none [] = refl
read-none (k ∷ ks) = read-none ks

-- Values that Python's `==` calls equal read the same everywhere.
mutual
  unfolding same get has

  pub read-same :
      (a b : Value)
      → same a b ≡ true
      → (path : List String) → read path (some a) ≡ read path (some b)
  read-same null null h path = refl
  read-same null (leaf t t') h path = cc
  read-same null (table f) h path = cc
  read-same (leaf s s') null h path = cc
  read-same (leaf s s') (leaf t t') h [] = ap text ((eq_iff s' t').0 h)
  read-same (leaf s s') (leaf t t') h (k ∷ path) = refl
  read-same (leaf s s') (table f) h path = cc
  read-same (table f) null h path = cc
  read-same (table f) (leaf t t') h path = cc
  read-same (table f) (table g) h [] = refl
  read-same (table f) (table g) h (k ∷ path) = elim (Bool-cases (has f k)) [
    | inl there ↦ read-same_in f g (ground (arith, h)) k there path
    | inr missing ↦ rw (has-none f k missing, keys_in-has k g f (ground (arith, h)) missing) refl
  ]

  read-same_in :
      (f g : Fields)
      → same_in f g ≡ true
      → (k : String) → has f k ≡ true
      → (path : List String) → read path (get k f) ≡ read path (get k g)
  read-same_in empty g h k there path = cc
  read-same_in (field j v rest) g h k there path = elim (Option-cases (get j g)) [
    | inl lost ↦ ground (arith, h, lost)
    | inr (w, found) ↦ elim (Bool-cases (str_eq j k)) [
      | inl here ↦ rw here (
          read-same v w (ground (arith, h, found)) path
          ∙ ap (read path) (sym found ∙ ap (λ i. get i g) ((eq_iff j k).0 here)))
      | inr other ↦
          rw other
            (read-same_in rest g (ground (arith, h, found)) k (ground (arith, there, other)) path)
    ]
  ]
