-- ===== src/Transformation.antt =====
-- pipelines/transformation_pipeline.py: the transform chains of the extracted fields.
-- The methods of `str` and `re` are the parameter `TextOps`. A step that raises is `none`: a pattern that
-- `re` refuses, `regex_extract` on a missing value, which is no iterable, or a `max_len` that is no integer.
pub mod Chains
pub mod Truncated
mod Examples
use Prim.Native.String.{[] as no_text, ◌∷◌ as ◌∷∷◌, ◌++◌ as ◌+++◌, count}
use crawl_viz.Base.{
  ◌>>=◌, ℕ, zero, suc, ◌+◌, ◌-◌, String, Bool, true, false, Option, none, some, List, [], ◌∷◌, ◌++◌,
  length, leb, map, str_eq, if◌then◌else◌,
}
use crawl_viz.Base.Int.{ℤ, pos, negsuc}
use crawl_viz.Base.Texts.{Dict, contains, lookup}
use crawl_viz.Models.{Link, Node, Value, absent, text, texts, Item, fail}

-- `search` and `findall` get the pattern and the text; their outer `none` is an `re.error`. A `search` without a
-- match, or whose first group takes no part in it, gives the inner `none`.
pub record TextOps : Type 0 where
  pub lower : String → String
  pub strip : String → String
  pub str_of_list : List String → String
  pub search : String → String → Option (Option String)
  pub findall : String → String → Option (List String)

-- `config.get("max_len", 300)`, which nothing validates: a bool counts as the number it is.
pub data MaxLen : Type 0 where
  by_default whole_text no_integer : MaxLen
  chars : ℤ → MaxLen

-- A missing or empty pattern is `none`, and so is a missing `sep`.
pub data Transform : Type 0 where
  regex regex_extract : Option String → Transform
  lowercase strip_text deduplicate unknown_type : Transform
  join : Option String → Transform
  truncate : MaxLen → Transform

-- The skipped steps: the step's name and the length of its input.
abbrev pub Skips : Type 0
Skips = List (String × ℕ)

-- `sep.join(values)`
pub join_texts : String → List String → String
join_texts sep [] = ""
join_texts sep (v ∷ []) = v
join_texts sep (v ∷ w ∷ ws) = v +++ sep +++ join_texts sep (w ∷ ws)

-- `text[:n]`
pub take_chars : ℕ → String → String
take_chars zero s = ""
take_chars (suc n) no_text = ""
take_chars (suc n) (c ∷∷ s) = c ∷∷ take_chars n s

-- `text[:max_len]`: None is the whole text, a negative number counts from its end, and a value that is no
-- integer raises.
pub slice_to : MaxLen → String → Option String
unfolding take_chars
slice_to by_default s = some (take_chars 300 s)
slice_to whole_text s = some s
slice_to no_integer s = none
slice_to (chars (pos n)) s = some (take_chars n s)
slice_to (chars (negsuc n)) s = some (take_chars (count s - suc n) s)

pub or_default {ℓ} : {A : Type ℓ} → A → Option A → A
or_default d none = d
or_default d (some x) = x

pub data TransformationEvent : Type 0 where
  transformation_started : ℕ → ℕ → TransformationEvent
  transformation_step_skipped : Node → String → ℕ → ℕ → TransformationEvent
  transformation_completed : Node → List Link → List (Item × String) → TransformationEvent
  transformation_failed : Node → TransformationEvent

pub skip_events : ℕ → Node → Skips → List TransformationEvent
skip_events limit node [] = []
skip_events limit node ((name, size) ∷ skips) =
    transformation_step_skipped node name size limit ∷ skip_events limit node skips

module _ (ops : TextOps) (max_regex_input_chars : ℕ) where
  -- `str(value)`
  pub str : Value → String
  str absent = "None"
  str (text s) = s
  str (texts ts) = ops.str_of_list ts

  pub found : Option String → Value
  found none = absent
  found (some s) = text s

  -- `_fits_regex_limit` and what follows it: an input over the limit keeps the value and is noted.
  pub within_limit : String → String → Value → Option Value → Skips → Option (Value × Skips)
  within_limit name input value result skips =
      if leb (count input) max_regex_input_chars
      then elim result [ none ↦ none | some v ↦ some (v, skips) ]
      else some (value, skips ++ (name, count input) ∷ [])

  pub apply_regex : String → Value → Skips → Option (Value × Skips)
  unfolding within_limit str found
  apply_regex pattern absent skips = some (absent, skips)
  apply_regex pattern value skips =
      within_limit "regex" (str value) value
        (elim (ops.search pattern (str value)) [ none ↦ none | some m ↦ some (found m) ]) skips

  pub find_all : String → String → Value → Skips → Option (Value × Skips)
  unfolding within_limit
  find_all pattern input value skips =
      within_limit "regex_extract" input value
        (elim (ops.findall pattern input) [ none ↦ none | some ts ↦ some (texts ts) ]) skips

  pub apply_regex_extract : String → Value → Skips → Option (Value × Skips)
  unfolding find_all join_texts
  apply_regex_extract pattern absent skips = none
  apply_regex_extract pattern (text s) skips = find_all pattern s (text s) skips
  apply_regex_extract pattern (texts ts) skips =
      find_all pattern (join_texts " " ts) (texts ts) skips

  pub on_text : (String → String) → Value → Value
  on_text f absent = absent
  on_text f (text s) = text (f s)
  on_text f (texts ts) = texts ts

  -- The texts of which no earlier one is the same up to case and outer blanks.
  pub first_of_each : List String → List String → List String
  first_of_each seen [] = []
  first_of_each seen (v ∷ vs) =
      let key = ops.lower (ops.strip v) in
      let kept = first_of_each (key ∷ seen) vs in
      let rest = first_of_each seen vs in if contains seen key then rest else v ∷ kept

  pub apply_deduplicate : Value → Value
  unfolding first_of_each
  apply_deduplicate absent = absent
  apply_deduplicate (text s) = text s
  apply_deduplicate (texts ts) = texts (first_of_each [] ts)

  pub joined : String → Value → String
  unfolding str join_texts
  joined sep absent = str absent
  joined sep (text s) = s
  joined sep (texts ts) = join_texts sep ts

  pub apply_step : Transform → Value → Skips → Option (Value × Skips)
  unfolding apply_regex apply_regex_extract on_text apply_deduplicate joined slice_to or_default
  apply_step (regex none) v skips = some (v, skips)
  apply_step (regex (some pattern)) v skips = apply_regex pattern v skips
  apply_step (regex_extract none) v skips = some (v, skips)
  apply_step (regex_extract (some pattern)) v skips = apply_regex_extract pattern v skips
  apply_step lowercase v skips = some (on_text ops.lower v, skips)
  apply_step strip_text v skips = some (on_text ops.strip v, skips)
  apply_step deduplicate v skips = some (apply_deduplicate v, skips)
  apply_step (join sep) v skips = some (text (joined (or_default " " sep) v), skips)
  apply_step (truncate max_len) v skips = do
    cut ← slice_to max_len (joined " " v)
    some (text cut, skips)
  apply_step unknown_type v skips = some (v, skips)

  pub apply_chain : List Transform → Value → Skips → Option (Value × Skips)
  unfolding apply_step
  apply_chain [] v skips = some (v, skips)
  apply_chain (t ∷ ts) v skips = do (v', skips') ← apply_step t v skips; apply_chain ts v' skips'

  -- `field_specs.get(field, {}).get("transform", [])`
  pub chain_of : Dict (List Transform) → String → List Transform
  unfolding or_default
  chain_of specs field = or_default [] (lookup field specs)

  pub transform_item : Dict (List Transform) → Item → Skips → Option (Item × Skips)
  unfolding apply_chain chain_of
  transform_item specs [] skips = some ([], skips)
  transform_item specs ((field, v) ∷ item) skips = do
    (v', skips') ← apply_chain (chain_of specs field) v skips
    (item', skips'') ← transform_item specs item skips'
    some ((field, v') ∷ item', skips'')

  pub transform_items :
      Dict (List Transform) → List (Item × String) → Skips → Option (List (Item × String) × Skips)
  unfolding transform_item
  transform_items specs [] skips = some ([], skips)
  transform_items specs ((item, item_hash) ∷ items) skips = do
    (item', skips') ← transform_item specs item skips
    (items', skips'') ← transform_items specs items skips'
    some ((item', item_hash) ∷ items', skips'')

  -- The events of a page, and its node.
  pub report :
      Node → List Link → Option (List (Item × String) × Skips) → List TransformationEvent × Node
  unfolding skip_events
  report node links none = (transformation_failed (fail node) ∷ [], fail node)
  report node links (some (items, skips)) = (
    skip_events max_regex_input_chars node skips ++ transformation_completed node links items ∷ [],
    node,
  )

  -- `_process` of the transformation stage.
  pub process :
      Dict (List Transform)
      → Node
      → List Link
      → List (Item × String)
      → List TransformationEvent × Node
  unfolding transform_items report
  process specs node links items =
      let (events, node') = report node links (transform_items specs items []) in
      (transformation_started node.id (length items) ∷ events, node')
