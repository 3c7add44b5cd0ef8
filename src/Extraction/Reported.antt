-- ===== src/Extraction/Reported.antt =====
-- How the turn of the extraction stage ends.
use crawl_viz.Base.{
  OnSome, OnSome->>=, OnSome-any, ◌≡◌, ◌⊎◌, inl, inr, refl, ap, String, Bool, true, false, Option,
  none, some, List, [], ◌∷◌, ◌++◌, map, length, All,
}
use crawl_viz.Base.Texts.{Dict}
use crawl_viz.Models.{Link, Node, Item, fail}
use crawl_viz.Extraction.{
  Selectors, FieldSpec, ExtractionBlueprint, Mode, document, container, unknown_mode, extract_field,
  extract_item, extract_each, items_of, extract_items, ProcessingEvent, extraction_started,
  link_extraction_completed, item_extraction_completed, content_extracted,
  processing_extraction_failed, with_items, with_links, process,
}

abbrev pub names {ℓ} : {V : Type ℓ} → Dict V → List String
names = map (λ f. f.0)

abbrev pub HasFields : Dict FieldSpec → Item → Type 0
HasFields fields item = names item ≡ names fields

module _ {Context : Type 0} (selectors : Selectors Context) where
  extract_item-HasFields :
      (c : Context) (fields : Dict FieldSpec)
      → OnSome (HasFields fields) (extract_item selectors c fields)
  unfolding extract_item
  extract_item-HasFields c [] = refl
  extract_item-HasFields c ((name, spec) ∷ fields) =
      let one = extract_field selectors c spec in
      OnSome->>= (λ _. Unit {0}) _ one _ (OnSome-any one)
        (λ v t.
          OnSome->>= (HasFields fields) _ (extract_item selectors c fields) _
            (extract_item-HasFields c fields) (λ rest e. ap (λ ns. name ∷ ns) e))

  All-have :
      (cs : List Context) (fields : Dict FieldSpec)
      → OnSome (All (HasFields fields)) (extract_each selectors cs fields)
  unfolding extract_each
  All-have [] fields = tt
  All-have (c ∷ cs) fields =
      OnSome->>= (HasFields fields) _ (extract_item selectors c fields) _
        (extract_item-HasFields c fields)
        (λ item e.
          OnSome->>= (All (HasFields fields)) _ (extract_each selectors cs fields) _
            (All-have cs fields) (λ rest h. (e, h)))

  items_of-HasFields :
      (page : Context) (mode : Mode) (selector : Option String) (fields : Dict FieldSpec)
      → OnSome (All (HasFields fields)) (items_of selectors page mode selector fields)
  unfolding items_of
  items_of-HasFields page document selector fields = All-have (page ∷ []) fields
  items_of-HasFields page container none fields = tt
  items_of-HasFields page container (some selector) fields =
      OnSome->>= (λ _. Unit {0}) _ (selectors.containers page selector) _
        (OnSome-any (selectors.containers page selector)) (λ cs t. All-have cs fields)
  items_of-HasFields page unknown_mode selector fields = tt

abbrev is_content : ProcessingEvent → Bool
is_content (content_extracted _ _ _) = true
is_content _ = false

-- The turn of a page: it is handed on with its links and items, each item with the blueprint's fields, or
-- its node fails and nothing of it is handed on.
abbrev pub IsReported : Node → Dict FieldSpec → List ProcessingEvent × Node → Type 0
IsReported node fields (events, node') =
    ((links : List Link) × (items : List Item) × (events
        ≡ extraction_started node.id
          ∷ link_extraction_completed node.id (length links)
          ∷ item_extraction_completed node.id (length items)
          ∷ content_extracted node links items
          ∷ [])
      × (node' ≡ node)
      × All (HasFields fields) items)
    ⊎ ((before : List ProcessingEvent) × (events
          ≡ before ++ processing_extraction_failed (fail node) ∷ [])
        × (node' ≡ fail node)
        × All (λ e. is_content e ≡ false) before)

module _ {Context : Type 0} (selectors : Selectors Context)
    (extract_links : String → Node → Option (List Link)) (bp : ExtractionBlueprint) where
  with_items-IsReported :
      (node : Node) (links : List Link) (found : Option (List Item))
      → OnSome (All (HasFields bp.fields)) found
      → let (events, node') = with_items selectors extract_links bp node links found in
        IsReported node bp.fields (
          extraction_started node.id ∷ link_extraction_completed node.id (length links) ∷ events,
          node',
        )
  unfolding with_items
  with_items-IsReported node links none h = inr (
    extraction_started node.id ∷ link_extraction_completed node.id (length links) ∷ [],
    refl,
    refl,
    (refl, (refl, tt)),
  )
  with_items-IsReported node links (some items) h = inl (links, items, refl, refl, h)

  with_links-IsReported :
      (node : Node) (content : String) (found : Option (List Link))
      → let (events, node') = with_links selectors extract_links bp node content found in
        IsReported node bp.fields (extraction_started node.id ∷ events, node')
  unfolding with_links extract_items
  with_links-IsReported node content none =
      inr (extraction_started node.id ∷ [], refl, refl, (refl, tt))
  with_links-IsReported node content (some links) =
      with_items-IsReported node links (extract_items selectors content bp) (
        items_of-HasFields selectors (selectors.page content) bp.mode bp.container_selector
          bp.fields)

  -- Whatever the page, the selectors and the blueprint are, and whatever lxml raises, the turn of a page is
  -- reported in one of these two ways.
  pub process-IsReported :
      (node : Node) (content : String)
      → IsReported node bp.fields (process selectors extract_links bp node content)
  unfolding process
  process-IsReported node content = with_links-IsReported node content (extract_links content node)
