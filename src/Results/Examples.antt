-- ===== src/Results/Examples.antt =====
-- A response that scores one link at 500 and forgets the other.
use crawl_viz.Base.{◌+◌, ◌≡◌, String, true, none, some, List, [], ◌∷◌, All, arith}
use crawl_viz.Base.Int.{pos}
use crawl_viz.Base.Texts.{lookup}
use crawl_viz.Models.{Link}
use crawl_viz.Results.{
  Field, number, text, array, other_field, Entry, object, IntResult, value, invalid, overflow,
  Conversions, no_outcomes, map_results,
}
use crawl_viz.Results.Scores.{IsFinite, IsScored, IsInRange, total, map_results-IsScored}

abbrev to_int : Field → IntResult
to_int (number n) = value n
to_int (text t) = invalid
to_int (array ts) = invalid
to_int (other_field t) = overflow

abbrev python : Conversions
python = record { to_int = to_int; lower = λ s. s; strip = λ s. s }

abbrev link : String → Link
link u = record {
  url = u;
  anchor = u;
  context = "";
  score = none;
  nlp_score = 0;
  relevance_type = none;
  expansions = [];
}

abbrev links : List Link
links = link "/a" ∷ link "/b" ∷ []

abbrev entry : String × Entry
entry = ("/a", object (("score", number (pos 500)) ∷ []))

entry-IsFinite : IsFinite python entry.1
unfolding lookup
entry-IsFinite (number n) found h = cc
entry-IsFinite (text t) found h = cc
entry-IsFinite (array ts) found h = cc
entry-IsFinite (other_field t) found h = cc

links-IsInRange : All (IsInRange python) links
links-IsInRange = (omega arith, (omega arith, tt))

map_results-IsScored_example :
    let (finished, ls, o) = map_results python (some (entry ∷ [])) links no_outcomes in
    (finished ≡ true) × All (IsScored python) ls × (total python o ≡ total python no_outcomes + 2)
map_results-IsScored_example =
    map_results-IsScored python entry [] links no_outcomes (entry-IsFinite, tt) links-IsInRange
