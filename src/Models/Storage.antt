-- ===== src/Models/Storage.antt =====
-- models/storage.py: the in-memory store of one crawl's graph.
-- A lookup that Python ends by KeyError or IndexError is `none`; sets are lists without repeats.
use crawl_viz.Base.{
  ℕ, suc, String, Bool, true, false, Option, none, some, List, [], ◌∷◌, ◌++◌, if◌then◌else◌,
  get_elem?, set,
}
use crawl_viz.Base.Texts.{Dict, contains, lookup, insert}
use crawl_viz.Models.{UrlRules, Link, Domain, Item, Node, get_full_url, add_node_item}

pub record Storage : Type 0 where
  pub nodes : List Node
  pub current_id : ℕ
  pub link_to_id : Dict ℕ
  pub found_links : List String
  pub domains : Dict Domain
  pub items : Dict ℕ

unfoldable pub new_storage : Storage
new_storage = record {
  nodes = [];
  current_id = 0;
  link_to_id = [];
  found_links = [];
  domains = [];
  items = [];
}

-- `set.add`
unfoldable pub add_text : String → List String → List String
add_text u us = if contains us u then us else u ∷ us

unfoldable pub get_node : ℕ → Storage → Option Node
get_node node_id s = get_elem? s.nodes node_id

-- A method of the node object that `nodes[node_id]` holds.
unfoldable pub update_node : ℕ → (Node → Node) → Storage → Storage
update_node node_id f s = elim (get_elem? s.nodes node_id) [
  | none ↦ s
  | some n ↦ record s { nodes = set s.nodes node_id (f n) }
]

unfoldable pub add_domain : Domain → Storage → Storage
unfolding insert
add_domain domain s = record s { domains = insert domain.base_url domain s.domains }

unfoldable pub get_domain : String → Storage → Option Domain
unfolding lookup
get_domain base_url s = lookup base_url s.domains

unfoldable pub next_id : Storage → ℕ × Storage
next_id s = (s.current_id, record s { current_id = suc s.current_id })

unfoldable pub node_id_from_link : String → Storage → Option ℕ
node_id_from_link link s = lookup link s.link_to_id

unfoldable pub item_seen : String → Storage → Bool
unfolding lookup
item_seen item_hash s = elim (lookup item_hash s.items) [ none ↦ false | some _ ↦ true ]

-- The dict entry is written before the node is looked up, so it stays when the lookup fails.
unfoldable pub add_item : Item → String → ℕ → Storage → Bool × Storage
unfolding insert update_node add_node_item
add_item item item_hash parent_id s =
    let s' : Storage = record s { items = insert item_hash parent_id s.items } in
    elim (get_elem? s.nodes parent_id) [
      | none ↦ (false, s')
      | some _ ↦ (true, update_node parent_id (add_node_item item item_hash) s')
    ]

module _ (rules : UrlRules) where
  unfoldable pub add_node : Node → Storage → Storage
  unfolding add_text insert get_full_url
  add_node n s = record s {
    nodes = s.nodes ++ n ∷ [];
    found_links = add_text (get_full_url rules n) s.found_links;
    link_to_id = insert n.link.url n.id s.link_to_id;
  }

  unfoldable pub add_urls : List Link → String → List String → List String
  unfolding add_text
  add_urls [] base_url found = found
  add_urls (l ∷ ls) base_url found =
      add_urls ls base_url (add_text (rules.build_url base_url l.url) found)

  unfoldable pub add_links : List Link → String → Storage → Storage
  unfolding add_urls
  add_links links base_url s = record s { found_links = add_urls links base_url s.found_links }

  unfoldable pub link_seen : String → String → Storage → Bool
  link_seen link base_url s =
      contains s.found_links (rules.normalize_url (rules.build_url base_url link))
