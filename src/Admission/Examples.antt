-- ===== src/Admission/Examples.antt =====
-- A small crawl through the storage stage, and the theorems at it.
use crawl_viz.Base.{
  All, suc, get_elem?, ◌++◌, ◌<◌, ◌≤◌, String, ◌≡◌, ◌≢◌, refl, true, false, none, some, List, [],
  ◌∷◌, map, length, arith,
}
use crawl_viz.Base.Int.{pos}
use crawl_viz.Base.Texts.{contains}
use crawl_viz.Models.{UrlRules, Link, Domain, Node, seed_node}
use crawl_viz.Models.Storage.{new_storage}
use crawl_viz.Admission.{
  Candidate, StorageStage, StageInput, priority_calculated, transformation_completed, page_fetched,
  new_stage, process, run, inject_seeds, inject_domains, on_priority_calculated,
  on_transformation_completed, too_deep, on_page_fetched, admit_links, admit_one,
}
use crawl_viz.Admission.Growth.{Grown, NodeView, urls}
use crawl_viz.Admission.Graph.{views, view}
use crawl_viz.Admission.Crawl.{crawl, boots, crawl-Inv, crawl-Grown, crawl-url_ne, crawl-parent}
use crawl_viz.Admission.Handlers.{announced, target, on_priority_calculated_complete}
use crawl_viz.Admission.Stores.{on_transformation_completed-stores}

-- Every path is absolute here.
abbrev rules : UrlRules
rules = record { build_url = λ base path. path; normalize_url = λ u. u }

abbrev site : Domain
site = record { name = "site"; base_url = "https://h"; link_selector = "//a" }

abbrev link : String → Link
link u = record {
  url = u;
  anchor = u;
  context = "";
  score = some 80;
  nlp_score = 4;
  relevance_type = none;
  expansions = [];
}

abbrev candidate : String → Candidate
candidate u = record { link = link u; score = 80; priority = pos 500_000 }

abbrev pages : List (String × String)
pages = ("/a", "https://h") ∷ []

abbrev events : List StageInput
events =
    page_fetched 0 "<p>"
    ∷ transformation_completed 0 (link "/b" ∷ []) []
    ∷ priority_calculated 0 (candidate "/b" ∷ candidate "/a" ∷ candidate "/b" ∷ candidate "/c" ∷ [])
    ∷ priority_calculated 1 (candidate "/d" ∷ [])
    ∷ []

site-boots : boots rules (site ∷ []) pages ≡ true
unfolding boots inject_seeds inject_domains new_storage
site-boots = refl

crawl-Grown_example :
    Grown (some 1) (views rules (crawl rules (site ∷ []) pages (some 1) events).storage)
crawl-Grown_example = crawl-Grown rules (site ∷ []) pages (some 1) events site-boots

abbrev page_view : NodeView
page_view = record { id = 0; url = "/a"; depth = 0; parent = none }

abbrev child_view : NodeView
child_view = record { id = 2; url = "/c"; depth = 1; parent = some 0 }

abbrev graph : List NodeView
graph = views rules (crawl rules (site ∷ []) pages (some 1) events).storage

-- "/b" and "/c" are admitted once each, "/a" is the seed, and "/d" is too deep.
crawled :
    graph ≡ page_view ∷ record { id = 1; url = "/b"; depth = 1; parent = some 0 } ∷ child_view ∷ []
unfolding crawl inject_seeds inject_domains new_storage run process new_stage on_page_fetched
    on_transformation_completed on_priority_calculated admit_links admit_one
crawled = refl

page_at : get_elem? graph 0 ≡ some page_view
page_at = rw crawled

child_at : get_elem? graph 2 ≡ some child_view
child_at = rw crawled

crawl-url_ne_example : page_view.url ≢ child_view.url
crawl-url_ne_example =
    crawl-url_ne rules (site ∷ []) pages (some 1) events 0 2 {v = page_view} {w = child_view}
      site-boots (omega arith) page_at child_at (λ e. cc)

crawl-parent_example :
    (child_view.id ≡ 2)
    × (child_view.parent ≢ none
        → (p : NodeView) × (get_elem? graph p.id ≡ some p)
          × (p.id < 2)
          × (child_view.parent ≡ some p.id)
          × (child_view.depth ≡ suc p.depth)
          × (child_view.depth ≤ 1))
crawl-parent_example =
    crawl-parent rules (site ∷ []) pages (some 1) events 2 {v = child_view} site-boots child_at

abbrev start : StorageStage
start = crawl rules (site ∷ []) pages (some 1) []

abbrev home : Node
home = record (seed_node rules 0 "/a" site) { id = 0 }

abbrev deep_page : Node
deep_page = record home { depth = 1 }

home_stored : get_elem? (views rules start.storage) 0 ≡ some (view rules home)
unfolding crawl inject_seeds inject_domains new_storage run new_stage
home_stored = refl

on_priority_calculated_complete_example :
    let (finished, es, q) = on_priority_calculated rules home (candidate "/b" ∷ []) start in
    (fresh : List Node) × (finished ≡ true)
    × (q.storage.nodes ≡ start.storage.nodes ++ fresh)
    × (announced es ≡ map (λ n. n.id) fresh)
    × (length fresh ≤ 1)
    × All
        (λ c. contains (urls (views rules q.storage)) (target rules home c) ≡ true)
        (candidate "/b" ∷ [])
on_priority_calculated_complete_example =
    on_priority_calculated_complete rules home (candidate "/b" ∷ []) start
      (crawl-Inv rules (site ∷ []) pages (some 1) [] site-boots) home_stored shallow
  where
    shallow : too_deep start.max_depth home.depth ≡ false
    shallow = unfold crawl new_stage run too_deep seed_node in refl

on_transformation_completed-stores_example :
    contains
      (on_transformation_completed rules home
        (link "/b" ∷ [])
        (([], "h1") ∷ [])
        start).2.storage.found_links
      "/b"
    ≡ true
on_transformation_completed-stores_example =
    (on_transformation_completed-stores rules home (link "/b" ∷ []) (([], "h1") ∷ []) start
      (unfold crawl new_stage run inject_seeds inject_domains new_storage in omega arith)).3.0
