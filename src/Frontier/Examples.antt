-- ===== src/Frontier/Examples.antt =====
-- Three nodes and a shutdown.
use crawl_viz.Base.{◌≡◌, refl, List, [], ◌∷◌}
use crawl_viz.Base.Int.{pos, ◌-ℤ◌}
use crawl_viz.Models.{UrlRules, Domain, Node, seed_node, decrease_priority}
use crawl_viz.Pool.{work, shutdown}
use crawl_viz.Frontier.{
  FrontierStep, added, taken, frontier_run, new_frontier, put, get, key_of, heappop, before,
  key_ltb,
}
use crawl_viz.Frontier.Ordered.{waiting, waiting_run, frontier_run-waiting}

abbrev rules : UrlRules
rules = record { build_url = λ base path. path; normalize_url = λ u. u }

abbrev site : Domain
site = record { name = "site"; base_url = "https://h"; link_selector = "//a" }

abbrev first : Node
first = seed_node rules 1 "/a" site

abbrev second : Node
second = seed_node rules 2 "/b" site

abbrev demoted : Node
demoted = decrease_priority (pos 1_000) (seed_node rules 0 "/c" site)

abbrev steps : List FrontierStep
steps =
    added (work demoted)
    ∷ added (work first)
    ∷ added (work second)
    ∷ taken
    ∷ added shutdown
    ∷ taken
    ∷ taken
    ∷ taken
    ∷ taken
    ∷ []

in_order :
    (frontier_run steps new_frontier).0 ≡ work first ∷ shutdown ∷ work second ∷ work demoted ∷ []
unfolding frontier_run put get key_of heappop before key_ltb ◌-ℤ◌ seed_node decrease_priority
in_order = refl

frontier_run-waiting_example :
    let (items, q) = frontier_run steps new_frontier in
    (items, waiting q) ≡ waiting_run steps (waiting new_frontier)
frontier_run-waiting_example = frontier_run-waiting steps new_frontier tt
