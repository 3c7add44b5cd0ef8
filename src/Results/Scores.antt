-- ===== src/Results/Scores.antt =====
-- Every link ends up scored from 0 to 100, and every link is accounted for.
use crawl_viz.Base.{
  ℕ, suc, ◌+◌, ◌≤◌, ◌≡◌, ◌≢◌, ◌⊎◌, refl, String, true, Option, none, some, List, [], ◌∷◌, arith,
  All, length, Bool-cases, Option-cases, inl, inr, subst, str_eq,
}
use crawl_viz.Base.Int.{ℤ, pos, negsuc}
use crawl_viz.Base.Texts.{Dict, lookup}
use crawl_viz.Models.{Link, RelevanceType, ambiguous, irrelevant}
use crawl_viz.Results.{
  Field, Entry, null, object, other_entry, IntResult, value, invalid, overflow, Conversions,
  Outcomes, clamp, score_of, Parsed, parsed, malformed, raised, parse_fields, parse_scored_link,
  with_defaults, score_or_zero, apply_parsed, map_entry, map_links, map_results,
}

clamp-le : (n : ℤ) → clamp n ≤ 100
unfolding clamp
clamp-le (pos n) = omega arith
clamp-le (negsuc n) = omega arith

int-cases : (r : IntResult) → ((n : ℤ) × (r ≡ value n)) ⊎ ((r ≡ invalid) ⊎ (r ≡ overflow))
int-cases (value n) = inl (n, refl)
int-cases invalid = inr (inl refl)
int-cases overflow = inr (inr refl)

module _ (py : Conversions) where
  -- A score, a relevance type, and a score that was there before lies within the range too.
  abbrev pub IsScored : Link → Type 0
  IsScored l = (n : ℕ) × (l.score ≡ some n) × (n ≤ 100) × (l.relevance_type ≢ none)

  abbrev pub IsInRange : Link → Type 0
  IsInRange l = score_or_zero py l.score ≤ 100

  abbrev pub total : Outcomes → ℕ
  total o = o.scored + o.missing + o.malformed_entry

  abbrev ParsedOk : Parsed py → Type 0
  ParsedOk (parsed s) = s.score ≤ 100
  ParsedOk malformed = Unit {0}
  ParsedOk raised = Unit {0}

  score_of-le : (raw : Option Field) {n : ℕ} → score_of py raw ≡ some n → n ≤ 100
  unfolding score_of
  score_of-le none = λ h. ground arith
  score_of-le (some raw) = elim (int-cases (py.to_int raw)) [
    | inl (m, e) ↦ rw (e, score_of) (λ h. ground (arith, h, clamp-le m))
    | inr (inl e) ↦ rw (e, score_of) (λ h. ground (arith, h))
    | inr (inr e) ↦ rw (e, score_of) (λ h. ground (arith, h))
  ]

  parse-ParsedOk : (entry : Entry) → ParsedOk (parse_scored_link py entry)
  unfolding parse_scored_link parse_fields
  parse-ParsedOk null = tt
  parse-ParsedOk (other_entry t) = tt
  parse-ParsedOk (object fields) = elim (Option-cases (score_of py (lookup "score" fields))) [
    | inl over ↦ rw (over, parse_fields) tt
    | inr (n, fits) ↦ rw (fits, parse_fields) (score_of-le (lookup "score" fields) fits)
  ]

  defaults-IsScored : (r : RelevanceType) (l : Link) → IsInRange l → IsScored (with_defaults py r l)
  unfolding with_defaults
  defaults-IsScored r l h = (score_or_zero py l.score, refl, h, λ e. cc)

  apply-IsScored :
      (p : Parsed py) (l : Link) (o : Outcomes)
      → ParsedOk p
      → IsInRange l
      → (apply_parsed py p l o).0 ≡ true
      → IsScored (apply_parsed py p l o).1 × (total (apply_parsed py p l o).2 ≡ suc (total o))
  unfolding apply_parsed
  apply-IsScored (parsed s) l o k h f = ((s.score, refl, k, λ e. cc), omega arith)
  apply-IsScored malformed l o k h f = (defaults-IsScored ambiguous l h, omega arith)
  apply-IsScored raised l o k h f = cc

  map_entry-IsScored :
      (e : Option Entry) (l : Link) (o : Outcomes)
      → IsInRange l
      → (map_entry py e l o).0 ≡ true
      → IsScored (map_entry py e l o).1 × (total (map_entry py e l o).2 ≡ suc (total o))
  unfolding map_entry
  map_entry-IsScored none l o h f = (defaults-IsScored irrelevant l h, omega arith)
  map_entry-IsScored (some null) l o h f = (defaults-IsScored irrelevant l h, omega arith)
  map_entry-IsScored (some (object fields)) l o h f =
      apply-IsScored (parse_scored_link py (object fields)) l o (parse-ParsedOk (object fields)) h f
  map_entry-IsScored (some (other_entry t)) l o h f =
      apply-IsScored (parse_scored_link py (other_entry t)) l o (parse-ParsedOk (other_entry t)) h f

  -- If no exception leaves the mapping of a response, every link has a score of at most 100 and a
  -- relevance type, and counts once as scored, missing or malformed.
  pub map_links-IsScored :
      (results : Dict Entry) (ls : List Link) (o : Outcomes)
      → All IsInRange ls
      → (map_links py results ls o).0 ≡ true
      → All IsScored (map_links py results ls o).1
        × (total (map_links py results ls o).2 ≡ total o + length ls)
  unfolding map_links
  map_links-IsScored results [] o h = λ f. (tt, omega arith)
  map_links-IsScored results (l ∷ ls) o h =
      let rest = map_links-IsScored results ls (map_entry py (lookup l.url results) l o).2 h.1 in
      let here = map_entry-IsScored (lookup l.url results) l o h.0 in
      elim (Bool-cases (map_entry py (lookup l.url results) l o).0) [
        | inl on ↦ rw on (λ f. (((here on).0, (rest f).0), omega (arith, (here on).1, (rest f).1)))
        | inr off ↦ rw off (λ f. cc)
      ]

  -- The score of an entry is not infinite.
  abbrev pub IsFinite : Entry → Type 0
  IsFinite null = Unit {0}
  IsFinite (other_entry t) = Unit {0}
  IsFinite (object fields) =
      (raw : Field) → lookup "score" fields ≡ some raw → py.to_int raw ≢ overflow

  score_of-finite :
      (raw : Option Field)
      → ((f : Field) → raw ≡ some f → py.to_int f ≢ overflow)
      → score_of py raw ≢ none
  unfolding score_of
  score_of-finite none finite = λ h. cc
  score_of-finite (some raw) finite = elim (int-cases (py.to_int raw)) [
    | inl (m, e) ↦ rw (e, score_of) (λ h. cc)
    | inr (inl e) ↦ rw (e, score_of) (λ h. cc)
    | inr (inr e) ↦ absurd (finite raw refl e)
  ]

  apply-finishes :
      (fields : Dict Field) (l : Link) (o : Outcomes)
      → IsFinite (object fields)
      → (apply_parsed py (parse_fields py fields) l o).0 ≡ true
  unfolding parse_fields apply_parsed
  apply-finishes fields l o finite = elim (Option-cases (score_of py (lookup "score" fields))) [
    | inl over ↦ absurd (score_of-finite (lookup "score" fields) finite over)
    | inr (n, fits) ↦ rw (fits, parse_fields, apply_parsed) refl
  ]

  map_entry-finishes :
      (e : Option Entry) (l : Link) (o : Outcomes)
      → ((entry : Entry) → e ≡ some entry → IsFinite entry)
      → (map_entry py e l o).0 ≡ true
  unfolding map_entry parse_scored_link apply_parsed
  map_entry-finishes none l o finite = refl
  map_entry-finishes (some null) l o finite = refl
  map_entry-finishes (some (object fields)) l o finite =
      apply-finishes fields l o (finite (object fields) refl)
  map_entry-finishes (some (other_entry t)) l o finite = refl

  All-lookup :
      (results : Dict Entry) (key : String) (entry : Entry)
      → All (λ e. IsFinite e.1) results
      → lookup key results ≡ some entry
      → IsFinite entry
  unfolding lookup
  All-lookup [] key entry h found = cc
  All-lookup ((k, e) ∷ rest) key entry h found = elim (Bool-cases (str_eq k key)) [
    | inl here ↦ subst IsFinite (ground (arith, found, here)) h.0
    | inr other ↦ All-lookup rest key entry h.1 (ground (arith, found, other))
  ]

  map_links-finishes :
      (results : Dict Entry) (ls : List Link) (o : Outcomes)
      → All (λ e. IsFinite e.1) results
      → (map_links py results ls o).0 ≡ true
  unfolding map_links
  map_links-finishes results [] o h = refl
  map_links-finishes results (l ∷ ls) o h =
      rw (map_entry-finishes (lookup l.url results) l o (λ e. All-lookup results l.url e h))
        (map_links-finishes results ls _ h)

  -- If no score in it is infinite, and no link had a score of more than 100 before, a response with entries is
  -- mapped to its end: every link has a score of at most 100 and a relevance type, and counts once as
  -- scored, missing or malformed.
  pub map_results-IsScored :
      (e : String × Entry) (es : Dict Entry) (ls : List Link) (o : Outcomes)
      → All (λ entry. IsFinite entry.1) (e ∷ es)
      → All IsInRange ls
      → let (finished, ls', o') = map_results py (some (e ∷ es)) ls o in
        (finished ≡ true) × All IsScored ls' × (total o' ≡ total o + length ls)
  unfolding map_results
  map_results-IsScored e es ls o finite h =
      let done = map_links-finishes (e ∷ es) ls o finite in
      let r = map_links-IsScored (e ∷ es) ls o h done in (done, r.0, r.1)
