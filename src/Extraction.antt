-- ===== src/Extraction.antt =====
-- models/item_extractor.py and pipelines/processing_pipeline.py: what is read off a fetched page.
-- lxml is the parameter `Selectors`: what a selector finds in a page or in one of its containers, each match
-- as `_to_text` gives it, or `none` if lxml raises at the page or at the selector. The link extractor is a parameter too. `none` is an exception, with its
-- type where an event names it.
pub mod Reported
mod Examples
use crawl_viz.Base.{
  ◌>>=◌, ℕ, ◌+◌, String, Bool, true, false, Option, none, some, List, [], ◌∷◌, ◌++◌, length, str_eq,
  if◌then◌else◌,
}
use crawl_viz.Base.Texts.{Dict, insert}
use crawl_viz.Models.{Link, Node, Value, absent, text, texts, Item, fail}

pub record Selectors (Context : Type 0) : Type 0 where
  pub page : String → Context
  pub apply_selector : Context → String → Option (List String)
  pub containers : Context → String → Option (List Context)

pub data FieldType : Type 0 where
  scalar list_type unknown_type : FieldType

-- A selector that is missing or empty is `none`.
pub record FieldSpec : Type 0 where
  pub selector : Option String
  pub field_type : FieldType

pub data Mode : Type 0 where
  document container unknown_mode : Mode

pub record ExtractionBlueprint : Type 0 where
  pub mode : Mode
  pub container_selector : Option String
  pub fields : Dict FieldSpec

-- `None if field_type == "scalar" else []`
pub no_value : FieldType → Value
no_value scalar = absent
no_value list_type = texts []
no_value unknown_type = texts []

-- `FieldNormalizer.normalize`
pub normalize : List String → FieldType → Option Value
unfolding no_value
normalize [] t = some (no_value t)
normalize (v ∷ vs) scalar = some (text v)
normalize (v ∷ vs) list_type = some (texts (v ∷ vs))
normalize (v ∷ vs) unknown_type = none

module _ {Context : Type 0} (selectors : Selectors Context) where
  pub extract_field : Context → FieldSpec → Option Value
  unfolding normalize no_value
  extract_field c spec = elim spec.selector [
    | none ↦ some (no_value spec.field_type)
    | some selector ↦ (do
      values ← selectors.apply_selector c selector
      normalize values spec.field_type)
  ]

  -- The fields have distinct names: each stands behind those before it.
  pub extract_item : Context → Dict FieldSpec → Option Item
  unfolding extract_field
  extract_item c [] = some []
  extract_item c ((name, spec) ∷ fields) = do
    value ← extract_field c spec
    rest ← extract_item c fields
    some ((name, value) ∷ rest)

  pub extract_each : List Context → Dict FieldSpec → Option (List Item)
  unfolding extract_item
  extract_each [] fields = some []
  extract_each (c ∷ cs) fields = do
    item ← extract_item c fields
    rest ← extract_each cs fields
    some (item ∷ rest)

  pub items_of : Context → Mode → Option String → Dict FieldSpec → Option (List Item)
  unfolding extract_each
  items_of page document selector fields = extract_each (page ∷ []) fields
  items_of page container none fields = none
  items_of page container (some selector) fields = do
    found ← selectors.containers page selector
    extract_each found fields
  items_of page unknown_mode selector fields = none

  pub extract_items : String → ExtractionBlueprint → Option (List Item)
  unfolding items_of
  extract_items html bp = items_of (selectors.page html) bp.mode bp.container_selector bp.fields

pub data ProcessingEvent : Type 0 where
  extraction_started : ℕ → ProcessingEvent
  link_extraction_completed : ℕ → ℕ → ProcessingEvent
  item_extraction_completed : ℕ → ℕ → ProcessingEvent
  content_extracted : Node → List Link → List Item → ProcessingEvent
  processing_extraction_failed : Node → ProcessingEvent

module _ {Context : Type 0} (selectors : Selectors Context)
    (extract_links : String → Node → Option (List Link)) (bp : ExtractionBlueprint) where
  pub with_items : Node → List Link → Option (List Item) → List ProcessingEvent × Node
  with_items node links none = (processing_extraction_failed (fail node) ∷ [], fail node)
  with_items node links (some items) = (
    item_extraction_completed node.id (length items) ∷ content_extracted node links items ∷ [],
    node,
  )

  pub with_links : Node → String → Option (List Link) → List ProcessingEvent × Node
  unfolding with_items extract_items
  with_links node content none = (processing_extraction_failed (fail node) ∷ [], fail node)
  with_links node content (some links) =
      let (events, node') = with_items node links (extract_items selectors content bp) in
      (link_extraction_completed node.id (length links) ∷ events, node')

  -- `_process` of the extraction stage.
  pub process : Node → String → List ProcessingEvent × Node
  unfolding with_links
  process node content =
      let (events, node') = with_links node content (extract_links content node) in
      (extraction_started node.id ∷ events, node')
