-- ===== src/Extraction/Examples.antt =====
-- A page that has no author, read by two fields.
use crawl_viz.Base.{◌≡◌, refl, String, some, [], ◌∷◌, if◌then◌else◌, str_eq}
use crawl_viz.Models.{UrlRules, Node, seed_node, absent, text}
use crawl_viz.Extraction.{
  Selectors, FieldSpec, scalar, ExtractionBlueprint, container, extract_items, items_of,
  extract_each, extract_item, extract_field, normalize, no_value, process,
}
use crawl_viz.Extraction.Reported.{IsReported, process-IsReported}

-- The page's text is the only match of any selector but one.
abbrev selectors : Selectors String
selectors = record {
  page = λ html. html;
  apply_selector = λ html selector. some (if str_eq selector "//author" then [] else html ∷ []);
  containers = λ html selector. some (html ∷ html ∷ []);
}

abbrev field_of : String → FieldSpec
field_of selector = record { selector = some selector; field_type = scalar }

abbrev blueprint : ExtractionBlueprint
blueprint = record {
  mode = container;
  container_selector = some "//article";
  fields = ("title", field_of "//h1") ∷ ("author", field_of "//author") ∷ [];
}

two_items :
    extract_items selectors "page" blueprint
    ≡ some (
        (("title", text "page") ∷ ("author", absent) ∷ [])
        ∷ (("title", text "page") ∷ ("author", absent) ∷ [])
        ∷ [])
unfolding extract_items items_of extract_each extract_item extract_field normalize no_value
two_items = refl

abbrev rules : UrlRules
rules = record { build_url = λ base path. path; normalize_url = λ u. u }

page : Node
unfolding seed_node
page =
    seed_node rules 0 "/a" (record { name = "site"; base_url = "https://h"; link_selector = "//a" })

process-IsReported_example :
    IsReported page blueprint.fields
      (process selectors (λ html node. some []) blueprint page "page")
process-IsReported_example =
    process-IsReported selectors (λ html node. some []) blueprint page "page"
