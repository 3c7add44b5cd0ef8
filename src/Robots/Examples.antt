-- ===== src/Robots/Examples.antt =====
-- Two workers that check two pages of one origin at the same time.
use crawl_viz.Base.{◌≤◌, ◌≡◌, refl, String, true, false, none, some, List, [], ◌∷◌}
use crawl_viz.Base.Texts.{contains, lookup, insert}
use crawl_viz.Pool.{delete_at}
use crawl_viz.Robots.{
  RobotsRules, CheckStep, started, ended, new_checks, check_run, check_step, start_check, end_check,
  cached, expired, store, load,
}
use crawl_viz.Robots.Cache.{fetches, check_run-fetches}

-- A robots.txt is its text, and there is one site.
abbrev rules : RobotsRules String
rules = record { origin_of = λ u. "https://a"; parse = λ t. t; can_fetch = λ p u. true; ttl = 0 }

abbrev steps : List CheckStep
steps =
    started "https://a/x" 5
    ∷ started "https://a/y" 6
    ∷ ended 0 (some "") 7
    ∷ ended 0 none 8
    ∷ started "https://a/z" 9
    ∷ []

fetched_twice :
    (check_run rules 2 steps (new_checks rules)).fetched ≡ "https://a" ∷ "https://a" ∷ []
unfolding check_run check_step start_check end_check cached expired store load lookup insert
    delete_at
fetched_twice = refl

verdicts :
    (check_run rules 2 steps (new_checks rules)).verdicts
    ≡ ("https://a/y", true) ∷ ("https://a/x", true) ∷ ("https://a/z", true) ∷ []
unfolding check_run check_step start_check end_check cached expired store load lookup insert
    delete_at
verdicts = refl

check_run-fetches_example :
    let s = check_run rules 2 steps (new_checks rules) in
    (fetches rules "https://a" s ≤ 2)
    × (contains s.asked "https://a" ≡ true → 1 ≤ fetches rules "https://a" s)
    × (contains s.asked "https://a" ≡ false → fetches rules "https://a" s ≡ 0)
check_run-fetches_example = check_run-fetches rules 2 steps "https://a" refl
