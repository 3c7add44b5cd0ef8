-- ===== src/Robots.antt =====
-- pipelines/robots.py: the robots.txt check and its cache per origin.
-- `P` is a parsed robots.txt (urllib.robotparser), `origin_of` the scheme and host of a URL. `allowed` awaits the
-- fetch of a robots.txt, and other checks run meanwhile: it is two steps here, up to the fetch and from its end on.
-- A fetch gives a text, or fails (`none`).
pub mod Cache
mod Examples
use crawl_viz.Base.{
  ℕ, ◌+◌, String, Bool, true, false, ◌&&◌, Option, none, some, List, [], ◌∷◌, ◌++◌, length,
  get_elem?, leb, ltb, if◌then◌else◌,
}
use crawl_viz.Base.Texts.{Dict, lookup, insert}
use crawl_viz.Pool.{delete_at}

pub record RobotsRules (P : Type 0) : Type 0 where
  pub origin_of : String → String
  pub parse : String → P
  pub can_fetch : P → String → Bool
  pub ttl : ℕ

pub record RobotsPolicy (P : Type 0) : Type 0 where
  pub parsers : Dict P
  pub loaded_at : Dict ℕ

-- The policy and its checks: the URLs whose robots.txt is being fetched, the origins of all checks and of all
-- fetches, the last first, and the verdicts.
pub record Checks (P : Type 0) : Type 0 where
  pub policy : RobotsPolicy P
  pub pending : List String
  pub asked : List String
  pub fetched : List String
  pub verdicts : List (String × Bool)

-- A check starts at some time, or the i-th fetch that is under way ends at some time.
pub data CheckStep : Type 0 where
  started : String → ℕ → CheckStep
  ended : ℕ → Option String → ℕ → CheckStep

module _ {P : Type 0} (rules : RobotsRules P) where
  abbrev pub new_checks : Checks P
  new_checks = record {
    policy = record { parsers = []; loaded_at = [] };
    pending = [];
    asked = [];
    fetched = [];
    verdicts = [];
  }

  -- `_load`: an empty text for a response without one, and for a fetch that fails.
  pub load : Option String → P
  load none = rules.parse ""
  load (some response) = rules.parse response

  -- Whether a loaded entry is out of date; a time limit of 0 keeps it for the whole crawl.
  pub expired : Option ℕ → ℕ → Bool
  expired none now = false
  expired (some at) now = ltb 0 rules.ttl && leb (at + rules.ttl) now

  -- The parser that a check uses without a fetch.
  pub cached : String → ℕ → RobotsPolicy P → Option P
  unfolding expired
  cached origin now s = elim (lookup origin s.parsers) [
    | none ↦ none
    | some parser ↦ if expired (lookup origin s.loaded_at) now then none else some parser
  ]

  pub store : String → P → ℕ → RobotsPolicy P → RobotsPolicy P
  store origin parser loaded s = record {
    parsers = insert origin parser s.parsers;
    loaded_at = insert origin loaded s.loaded_at;
  }

  -- `allowed` up to its verdict, or up to its fetch.
  pub start_check : String → ℕ → Checks P → Checks P
  unfolding cached
  start_check url now s =
      let origin = rules.origin_of url in
      elim (cached origin now s.policy) [
        | some parser ↦ record s {
          asked = origin ∷ s.asked;
          verdicts = s.verdicts ++ (url, rules.can_fetch parser url) ∷ [];
        }
        | none ↦ record s {
          asked = origin ∷ s.asked;
          fetched = origin ∷ s.fetched;
          pending = url ∷ s.pending;
        }
      ]

  -- `allowed` from the end of its fetch on.
  pub end_check : ℕ → Option String → ℕ → Checks P → Checks P
  unfolding store load
  end_check i response loaded s = elim (get_elem? s.pending i) [
    | none ↦ s
    | some url ↦
        (let parser = load response in
          record s {
            policy = store (rules.origin_of url) parser loaded s.policy;
            pending = delete_at i s.pending;
            verdicts = s.verdicts ++ (url, rules.can_fetch parser url) ∷ [];
          })
  ]

  -- A check starts only while one of the workers is free.
  pub check_step : ℕ → CheckStep → Checks P → Checks P
  unfolding start_check end_check
  check_step workers (started url now) s =
      if leb workers (length s.pending) then s else start_check url now s
  check_step workers (ended i response loaded) s = end_check i response loaded s

  pub check_run : ℕ → List CheckStep → Checks P → Checks P
  unfolding check_step
  check_run workers [] s = s
  check_run workers (t ∷ ts) s = check_run workers ts (check_step workers t s)
