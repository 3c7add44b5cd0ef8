-- ===== src/Filtering/Examples.antt =====
-- A page with two links and one item, stored and filtered again.
use crawl_viz.Base.{◌<◌, ◌≡◌, refl, String, false, Option, none, some, List, [], ◌∷◌, length, arith}
use crawl_viz.Models.{UrlRules, Link, Domain, Item, Node, seed_node, new_link}
use crawl_viz.Models.Storage.{Storage, new_storage, add_node, item_seen}
use crawl_viz.Admission.{StorageStage, on_transformation_completed}
use crawl_viz.Filtering.{Accepted, filter_links, filter_items, item_hash_of, keep_item}
use crawl_viz.Filtering.Dedup.{raw, filter_links-on_transformation_completed}

abbrev rules : UrlRules
rules = record { build_url = λ base path. path; normalize_url = λ u. u }

abbrev unhashable : Item → Option String
unhashable item = none

abbrev site : Domain
site = record { name = "site"; base_url = "https://h"; link_selector = "//a" }

abbrev page : Node
page = seed_node rules 0 "/a" site

abbrev store : Storage
store = add_node rules page new_storage

abbrev links : List Link
links = new_link rules "/b" "b" "" ∷ new_link rules "/a" "a" "" ∷ []

abbrev items : List (Item × String)
items = ([], "h0") ∷ []

abbrev all_new : Accepted (Item × String)
all_new = record { accepted = items; rejected_count = 0 }

items_pass : filter_items rules unhashable store (raw rules unhashable items) ≡ some all_new
unfolding filter_items item_hash_of keep_item add_node new_storage item_seen
items_pass = refl

abbrev stage : StorageStage
stage = record { storage = store; admitted_urls = []; seeded_admitted = false; max_depth = none }

page-stored : page.id < length stage.storage.nodes
unfolding add_node new_storage seed_node
page-stored = omega arith

filter_links-on_transformation_completed_example :
    let (_, _, q) = on_transformation_completed rules page links items stage in
    (filter_links rules unhashable q.storage "https://h" links
      ≡ record { accepted = []; rejected_count = 2 })
    × (filter_items rules unhashable q.storage (raw rules unhashable items)
        ≡ some (record { accepted = []; rejected_count = 1 }))
unfolding seed_node
filter_links-on_transformation_completed_example =
    filter_links-on_transformation_completed rules unhashable page links items stage page-stored
      (refl, (refl, tt))
