-- ===== src/Transformation/Chains.antt =====
-- What the chains do to a page's items as a whole.
use crawl_viz.Base.{
  >>=-none, OnSome, OnSome->>=, OnSome-any, none->>=, subst, ℕ, ◌≡◌, refl, ap, String, none, some,
  List, [], ◌∷◌, ◌++◌, map, length,
}
use crawl_viz.Base.Texts.{Dict}
use crawl_viz.Models.{Link, Node, absent, Item, fail}
use crawl_viz.Transformation.{
  TextOps, Transform, regex_extract, Skips, transformation_started, transformation_failed,
  apply_step, apply_regex_extract, apply_chain, chain_of, transform_item, transform_items, report,
  process,
}

abbrev pub field_names : Item → List String
field_names = map (λ f. f.0)

-- The fields of each item and its hash.
abbrev pub frame : Item × String → List String × String
frame (item, item_hash) = (field_names item, item_hash)

module _ (ops : TextOps) (max_regex_input_chars : ℕ) (specs : Dict (List Transform)) where
  transform_item-names :
      (item : Item) (skips : Skips)
      → OnSome
          (λ r. field_names r.0 ≡ field_names item)
          (transform_item ops max_regex_input_chars specs item skips)
  unfolding transform_item
  transform_item-names [] skips = refl
  transform_item-names ((field, v) ∷ item) skips =
      let chain =
        apply_chain ops max_regex_input_chars (chain_of ops max_regex_input_chars specs field) v
          skips in
      OnSome->>= (λ _. Unit {0}) _ chain _ (OnSome-any chain)
        (λ one t.
          OnSome->>= (λ r. field_names r.0 ≡ field_names item) _
            (transform_item ops max_regex_input_chars specs item one.1) _
            (transform_item-names item one.1) (λ rest e. ap (λ names. field ∷ names) e))

  transform_items-names :
      (items : List (Item × String)) (skips : Skips)
      → OnSome
          (λ r. map frame r.0 ≡ map frame items)
          (transform_items ops max_regex_input_chars specs items skips)
  unfolding transform_items
  transform_items-names [] skips = refl
  transform_items-names ((item, item_hash) ∷ items) skips =
      OnSome->>= (λ r. field_names r.0 ≡ field_names item) _
        (transform_item ops max_regex_input_chars specs item skips) _
        (transform_item-names item skips)
        (λ one e.
          OnSome->>= (λ r. map frame r.0 ≡ map frame items) _
            (transform_items ops max_regex_input_chars specs items one.1) _
            (transform_items-names items one.1) (λ rest es. cong_cons e es))
    where
      cong_cons :
          {item_hash : String} {names names' : List String} {fs fs' : List (List String × String)}
          → names ≡ names'
          → fs ≡ fs'
          → ((names, item_hash) ∷ fs) ≡ ((names', item_hash) ∷ fs')
      cong_cons e es = cc

  -- If no step raises, each item keeps its hash, its fields and their order, and the items keep theirs.
  pub transform_items-frame :
      (items : List (Item × String)) (skips : Skips) {items' : List (Item × String)}
      {skips' : Skips}
      → transform_items ops max_regex_input_chars specs items skips ≡ some (items', skips')
      → map frame items' ≡ map frame items
  transform_items-frame items skips h =
      subst (OnSome (λ r. map frame r.0 ≡ map frame items)) h (transform_items-names items skips)

module _ (ops : TextOps) (max_regex_input_chars : ℕ) (specs : Dict (List Transform))
    (field : String) (pattern : String) (ts : List Transform)
    (chain : chain_of ops max_regex_input_chars specs field
      ≡ regex_extract (some pattern) ∷ ts) where
  transform_item-missing :
      (before after : Item) (skips : Skips)
      → transform_item ops max_regex_input_chars specs (before ++ (field, absent) ∷ after) skips
        ≡ none
  unfolding transform_item apply_chain apply_step apply_regex_extract
  transform_item-missing [] after skips =
      none->>=
        (apply_chain ops max_regex_input_chars (chain_of ops max_regex_input_chars specs field)
          absent skips)
        _ (ap (λ c. apply_chain ops max_regex_input_chars c absent skips) chain)
  transform_item-missing (f ∷ before) after skips =
      >>=-none
        (apply_chain ops max_regex_input_chars (chain_of ops max_regex_input_chars specs f.0) f.1
          skips)
        _ (λ one. none->>= _ _ (transform_item-missing before after one.1))

  transform_items-missing :
      (before after : Item) (item_hash : String) (items more : List (Item × String)) (skips : Skips)
      → transform_items ops max_regex_input_chars specs
          (items ++ (before ++ (field, absent) ∷ after, item_hash) ∷ more)
          skips
        ≡ none
  unfolding transform_items
  transform_items-missing before after item_hash [] more skips =
      none->>= _ _ (transform_item-missing before after skips)
  transform_items-missing before after item_hash ((item, h) ∷ items) more skips =
      >>=-none (transform_item ops max_regex_input_chars specs item skips) _
        (λ one. none->>= _ _ (transform_items-missing before after item_hash items more one.1))

  -- One missing value in a field whose chain starts with a `regex_extract` fails the whole page: its node
  -- fails and none of its items or links is handed on, whatever the others are.
  pub process-missing :
      (node : Node) (links : List Link) (before after : Item) (item_hash : String)
      (items more : List (Item × String))
      → process ops max_regex_input_chars specs node links
          (items ++ (before ++ (field, absent) ∷ after, item_hash) ∷ more)
        ≡ (
          transformation_started node.id
                (length (items ++ (before ++ (field, absent) ∷ after, item_hash) ∷ more))
              ∷ transformation_failed (fail node)
              ∷ [],
          fail node,
        )
  unfolding process report
  process-missing node links before after item_hash items more =
      ap
        (λ o. (
          transformation_started node.id
                (length (items ++ (before ++ (field, absent) ∷ after, item_hash) ∷ more))
              ∷ (report ops max_regex_input_chars node links o).0,
          (report ops max_regex_input_chars node links o).1,
        ))
        (transform_items-missing before after item_hash items more [])
