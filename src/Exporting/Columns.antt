-- ===== src/Exporting/Columns.antt =====
-- A row names no column that its table lacks.
use crawl_viz.Base.{
  ◌≡◌, ◌≢◌, ◌⊎◌, inl, inr, refl, ap, ◌∙◌, String, true, Option, none, List, [], ◌∷◌, map,
  Option-cases, Bool-cases, str_eq, eq_iff, arith,
}
use crawl_viz.Base.Texts.{Dict, contains, lookup, insert, lookup-insert}
use crawl_viz.Models.{UrlRules, Item}
use crawl_viz.Exporting.{
  Row, Texts, Pending, ExportingPipeline, columns_of, add_fields, cast, row_of, map_type,
}

abbrev pub column_names : List (String × String) → List String
column_names = map (λ c. c.0)

lookup-names :
    (k : String) (fields : Dict String)
    → lookup k fields ≢ none
    → contains (column_names (map (λ f. (f.0, map_type f.1)) fields)) k ≡ true
unfolding lookup
lookup-names k [] h = absurd (h refl)
lookup-names k ((j, t) ∷ fields) h = elim (Bool-cases (str_eq j k)) [
  | inl here ↦ rw here refl
  | inr other ↦ rw other (lookup-names k fields (λ e. h (rw other e)))
]

first_four :
    (k : String) (a b c d : Option String) (rest : List String)
    → lookup k (("id", a) ∷ ("crawl_id", b) ∷ ("url", c) ∷ ("created_at", d) ∷ []) ≢ none
    → contains ("id" ∷ "crawl_id" ∷ "url" ∷ "created_at" ∷ rest) k ≡ true
unfolding lookup
first_four k a b c d rest h = ground (arith, h)

module _ (texts_of : Texts) where
  lookup-add_fields :
      (k : String) (fields : Dict String) (item : Item) (row : Row)
      → lookup k (add_fields texts_of fields item row) ≢ none
      → (lookup k row ≢ none) ⊎ (lookup k fields ≢ none)
  unfolding add_fields
  lookup-add_fields k fields [] row h = inl h
  lookup-add_fields k fields ((j, v) ∷ item) row h = elim (Option-cases (lookup j fields)) [
    | inl unknown ↦ lookup-add_fields k fields item row (λ e. h (rw unknown e))
    | inr (t, known) ↦
        elim (lookup-add_fields k fields item (insert j (cast texts_of t v) row)
          (λ e. h (rw known e))) [
            | inr field ↦ inr field
            | inl there ↦ elim (Bool-cases (str_eq j k)) [
              | inl here ↦
                  inr
                    (λ e. ground (arith, ap (λ i. lookup i fields) ((eq_iff j k).0 here), known, e))
              | inr other ↦
                  inl (λ e. there (lookup-insert j k (cast texts_of t v) row ∙ rw other e))
            ]
          ]
  ]

  -- Every column that a row fills is a column with which its table was created.
  pub row_of-columns :
      (rules : UrlRules) (now : String) (p : ExportingPipeline) (b : Pending) (k : String)
      → lookup k (row_of texts_of rules now p b) ≢ none
      → contains (column_names (columns_of p.fields)) k ≡ true
  unfolding row_of columns_of
  row_of-columns rules now p b k h = elim (lookup-add_fields k p.fields b.item _ h) [
    | inl key_column ↦ first_four k _ _ _ _ _ key_column
    | inr field ↦ ground (arith, lookup-names k p.fields field)
  ]
