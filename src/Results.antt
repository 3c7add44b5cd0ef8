-- ===== src/Results.antt =====
-- services/results_mapper.py and services/llm_contracts.py: what the LLM's answer does to links.
-- Of Python's own conversions, `int`, `str.lower` and `str.strip` are
-- fields of `Conversions`; `int` of an infinite float raises OverflowError, which the validator does
-- not catch. A response is `none` when it is not an object.
pub mod Scores
mod Examples
use crawl_viz.Base.{
  ℕ, zero, suc, ◌+◌, String, Bool, true, false, Option, none, some, List, [], ◌∷◌, ◌++◌, min,
  if◌then◌else◌, str_eq,
}
use crawl_viz.Base.Int.{ℤ, pos, negsuc}
use crawl_viz.Base.Texts.{Dict, lookup}
use crawl_viz.Models.{Link, RelevanceType, direct, partial, irrelevant, ambiguous}

-- A list's elements, an entry's fields and a response's entries, as far as the parsers tell them
-- apart; the rest of a value of another type is in its text.
pub data Element : Type 0 where
  string other_element : String → Element

pub data Field : Type 0 where
  text : String → Field
  array : List Element → Field
  number : ℤ → Field
  other_field : String → Field

pub data Entry : Type 0 where
  null : Entry
  object : Dict Field → Entry
  other_entry : String → Entry

pub data IntResult : Type 0 where
  value : ℤ → IntResult
  invalid overflow : IntResult

pub record Conversions : Type 0 where
  pub to_int : Field → IntResult
  pub lower : String → String
  pub strip : String → String

pub record ScoredLink : Type 0 where
  pub score : ℕ
  pub relevance_type : RelevanceType
  pub expansions : List String

pub record Outcomes : Type 0 where
  pub scored : ℕ
  pub missing : ℕ
  pub malformed_entry : ℕ
  pub malformed_response : ℕ

unfoldable pub no_outcomes : Outcomes
no_outcomes = record { scored = 0; missing = 0; malformed_entry = 0; malformed_response = 0 }

-- `max(0, min(100, n))`
pub clamp : ℤ → ℕ
clamp (pos n) = min 100 n
clamp (negsuc n) = 0

pub relevance_named : String → RelevanceType
relevance_named name =
    if str_eq name "direct"
    then direct
    else if str_eq name "partial"
    then partial
    else if str_eq name "irrelevant"
    then irrelevant
    else ambiguous

module _ (py : Conversions) where
  -- `none`: the OverflowError leaves the parser.
  pub score_of : Option Field → Option ℕ
  unfolding clamp
  score_of none = some 0
  score_of (some raw) = elim (py.to_int raw) [
    | value n ↦ some (clamp n)
    | invalid ↦ some 0
    | overflow ↦ none
  ]

  pub relevance_type_of : Option Field → RelevanceType
  unfolding relevance_named
  relevance_type_of (some (text raw)) = relevance_named (py.lower raw)
  relevance_type_of (some _) = ambiguous
  relevance_type_of none = ambiguous

  pub texts_of : List Element → List String
  texts_of [] = []
  texts_of (string s ∷ rest) =
      let ts = texts_of rest in if str_eq (py.strip s) "" then ts else py.strip s ∷ ts
  texts_of (_ ∷ rest) = texts_of rest

  pub expansions_of : Option Field → List String
  unfolding texts_of
  expansions_of (some (array raw)) = texts_of raw
  expansions_of (some _) = []
  expansions_of none = []

  pub data Parsed : Type 0 where
    parsed : ScoredLink → Parsed
    malformed raised : Parsed

  pub parse_fields : Dict Field → Parsed
  unfolding score_of relevance_type_of expansions_of lookup
  parse_fields fields = elim (score_of (lookup "score" fields)) [
    | none ↦ raised
    | some score ↦ parsed (record {
      score = score;
      relevance_type = relevance_type_of (lookup "relevance_type" fields);
      expansions = expansions_of (lookup "expansions" fields);
    })
  ]

  pub parse_scored_link : Entry → Parsed
  unfolding parse_fields
  parse_scored_link (object fields) = parse_fields fields
  parse_scored_link _ = malformed

  -- `link.score or 0`
  abbrev pub score_or_zero : Option ℕ → ℕ
  score_or_zero none = 0
  score_or_zero (some n) = n

  pub with_defaults : RelevanceType → Link → Link
  with_defaults relevance_type l = record l {
    score = some (score_or_zero l.score);
    relevance_type = some relevance_type;
    expansions = [];
  }

  -- `_apply`; `false`: the exception leaves it.
  pub apply_parsed : Parsed → Link → Outcomes → Bool × Link × Outcomes
  unfolding with_defaults
  apply_parsed (parsed s) l o = (
    true,
    record l {
      score = some s.score;
      relevance_type = some s.relevance_type;
      expansions = s.expansions;
    },
    record o { scored = suc o.scored },
  )
  apply_parsed malformed l o =
      (true, with_defaults ambiguous l, record o { malformed_entry = suc o.malformed_entry })
  apply_parsed raised l o = (false, l, o)

  -- The body of the loop of `map_results`; JSON's null is a missing entry.
  pub map_entry : Option Entry → Link → Outcomes → Bool × Link × Outcomes
  unfolding with_defaults apply_parsed parse_scored_link
  map_entry none l o = (true, with_defaults irrelevant l, record o { missing = suc o.missing })
  map_entry (some null) l o =
      (true, with_defaults irrelevant l, record o { missing = suc o.missing })
  map_entry (some entry) l o = apply_parsed (parse_scored_link entry) l o

  pub map_links : Dict Entry → List Link → Outcomes → Bool × List Link × Outcomes
  unfolding map_entry lookup
  map_links results [] o = (true, [], o)
  map_links results (l ∷ ls) o =
      let (finished, l', o') = map_entry (lookup l.url results) l o in
      let (all_finished, ls', o'') = map_links results ls o' in
      if finished then (all_finished, l' ∷ ls', o'') else (false, l' ∷ ls, o')

  pub map_results : Option (Dict Entry) → List Link → Outcomes → Bool × List Link × Outcomes
  unfolding map_links
  map_results none links o =
      (true, links, record o { malformed_response = suc o.malformed_response })
  map_results (some []) links o =
      (true, links, record o { malformed_response = suc o.malformed_response })
  map_results (some (e ∷ es)) links o = map_links (e ∷ es) links o
