-- ===== src/Transformation/Examples.antt =====
-- Two items of a page, one of them without an author, and the chains of two fields.
use crawl_viz.Base.{◌≡◌, refl, String, some, List, [], ◌∷◌, map}
use crawl_viz.Base.Int.{pos}
use crawl_viz.Base.Texts.{Dict, contains, lookup}
use crawl_viz.Models.{UrlRules, Node, seed_node, absent, text, texts, Item, fail}
use crawl_viz.Transformation.{
  TextOps, Transform, by_default, chars, slice_to, regex_extract, lowercase, truncate, deduplicate,
  transformation_started, transformation_failed, transform_items, transform_item, apply_chain,
  apply_step, on_text, chain_of, or_default, joined, str, join_texts, take_chars, apply_deduplicate,
  first_of_each, process,
}
use crawl_viz.Transformation.Chains.{process-missing}
use crawl_viz.Transformation.Truncated.{
  IsShort, apply_chain-IsShort, IsDistinct, key, first_of_each-contains,
}

-- Texts without capitals or blanks; a pattern finds itself.
abbrev ops : TextOps
ops = record {
  lower = λ s. s;
  strip = λ s. s;
  str_of_list = λ ts. "[]";
  search = λ pattern s. some (some pattern);
  findall = λ pattern s. some (pattern ∷ []);
}

abbrev specs : Dict (List Transform)
specs =
    ("author", regex_extract (some "by") ∷ [])
    ∷ ("title", lowercase ∷ truncate (chars (pos 3)) ∷ [])
    ∷ []

cut_title :
    transform_items ops 100 specs (((("title", text "antlers") ∷ []), "h1") ∷ []) []
    ≡ some ((((("title", text "ant") ∷ []), "h1") ∷ []), [])
unfolding transform_items transform_item apply_chain apply_step chain_of or_default lookup on_text
    joined take_chars slice_to
cut_title = refl

missing_title :
    transform_items ops 100 specs (((("title", absent) ∷ []), "h1") ∷ []) []
    ≡ some ((((("title", text "Non") ∷ []), "h1") ∷ []), [])
unfolding transform_items transform_item apply_chain apply_step chain_of or_default lookup on_text
    joined take_chars slice_to str
missing_title = refl

one_of_each : first_of_each ops 100 [] ("a" ∷ "b" ∷ "a" ∷ []) ≡ "a" ∷ "b" ∷ []
unfolding first_of_each
one_of_each = refl

abbrev rules : UrlRules
rules = record { build_url = λ base path. path; normalize_url = λ u. u }

page : Node
unfolding seed_node
page =
    seed_node rules 0 "/a" (record { name = "site"; base_url = "https://h"; link_selector = "//a" })

abbrev whole : Item × String
whole = ((("title", text "antlers") ∷ []), "h1")

abbrev anonymous : Item × String
anonymous = ((("title", text "bees") ∷ ("author", absent) ∷ []), "h2")

process-missing_example :
    process ops 100 specs page [] (whole ∷ anonymous ∷ [])
    ≡ (transformation_started page.id 2 ∷ transformation_failed (fail page) ∷ [], fail page)
unfolding chain_of or_default lookup
process-missing_example =
    process-missing ops 100 specs "author" "by" [] refl page [] (("title", text "bees") ∷ []) []
      "h2" (whole ∷ []) []

long_text :
    apply_chain ops 100 (deduplicate ∷ truncate by_default ∷ []) (texts ("a" ∷ "a" ∷ [])) []
    ≡ some (text "a", [])
unfolding apply_chain apply_step apply_deduplicate first_of_each or_default joined join_texts
    take_chars slice_to
long_text = refl

apply_chain-IsShort_example : IsShort 300 (text "a")
apply_chain-IsShort_example =
    apply_chain-IsShort ops 100 (deduplicate ∷ []) by_default (texts ("a" ∷ "a" ∷ [])) [] refl
      long_text

first_of_each-contains_example :
    IsDistinct ops 100 (map (key ops 100) (first_of_each ops 100 [] ("a" ∷ "b" ∷ "a" ∷ [])))
    × ((k : String)
        → contains (map (key ops 100) (first_of_each ops 100 [] ("a" ∷ "b" ∷ "a" ∷ []))) k
          ≡ contains (map (key ops 100) ("a" ∷ "b" ∷ "a" ∷ [])) k)
first_of_each-contains_example = first_of_each-contains ops 100 ("a" ∷ "b" ∷ "a" ∷ [])
