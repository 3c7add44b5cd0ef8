-- ===== src/Filtering.antt =====
-- pipelines/filtering_pipeline.py: links and items that the crawl has seen are dropped.
-- `hash_item` of utils is a parameter: `none` when the item cannot be hashed (json.dumps raises).
pub mod Dedup
mod Examples
use crawl_viz.Base.{
  ℕ, suc, String, Bool, true, false, Option, none, some, List, [], ◌∷◌, length, if◌then◌else◌,
}
use crawl_viz.Models.{UrlRules, Link, Item, Node, fail}
use crawl_viz.Models.Storage.{Storage, link_seen, item_seen, update_node}

pub record Accepted (A : Type 0) : Type 0 where
  pub accepted : List A
  pub rejected_count : ℕ

-- An item alone, or with the hash that the extractor computed.
pub data RawItem : Type 0 where
  plain : Item → RawItem
  hashed : Item → String → RawItem

pub data FilteringEvent : Type 0 where
  worker_cycle_started : ℕ → FilteringEvent
  input_snapshot : ℕ → ℕ → FilteringEvent
  content_filtered : ℕ → Accepted Link → Accepted (Item × String) → FilteringEvent
  pipeline_error : ℕ → FilteringEvent

abbrev pub accept : {A : Type 0} → A → Accepted A → Accepted A
accept a r = record r { accepted = a ∷ r.accepted }

abbrev pub reject : {A : Type 0} → Accepted A → Accepted A
reject r = record r { rejected_count = suc r.rejected_count }

module _ (rules : UrlRules) (hash_item : Item → Option String) where
  pub filter_links : Storage → String → List Link → Accepted Link
  unfolding link_seen
  filter_links s base_url [] = record { accepted = []; rejected_count = 0 }
  filter_links s base_url (l ∷ ls) =
      let rest = filter_links s base_url ls in
      if link_seen rules l.url base_url s then reject rest else accept l rest

  pub item_hash_of : RawItem → Option (Item × String)
  item_hash_of (plain item) = elim (hash_item item) [ none ↦ none | some h ↦ some (item, h) ]
  item_hash_of (hashed item h) = some (item, h)

  pub keep_item : Storage → Item × String → Accepted (Item × String) → Accepted (Item × String)
  unfolding item_seen
  keep_item s (item, h) rest = if item_seen h s then reject rest else accept (item, h) rest

  -- `none`: the exception of the first item that cannot be hashed.
  pub filter_items : Storage → List RawItem → Option (Accepted (Item × String))
  unfolding item_hash_of keep_item
  filter_items s [] = some (record { accepted = []; rejected_count = 0 })
  filter_items s (r ∷ rs) =
      let rest = filter_items s rs in
      elim (item_hash_of r) [
        | none ↦ none
        | some e ↦ elim rest [ none ↦ none | some a ↦ some (keep_item s e a) ]
      ]

  -- What follows the two snapshots: the result, or the failure of the node.
  pub conclude :
      Node
      → Accepted Link
      → Option (Accepted (Item × String))
      → Storage
      → List FilteringEvent × Storage
  unfolding update_node
  conclude n links_result none s = (pipeline_error n.id ∷ [], update_node n.id fail s)
  conclude n links_result (some items_result) s =
      (content_filtered n.id links_result items_result ∷ [], s)

  unfoldable pub process :
      Node → List Link → List RawItem → ℕ → Storage → List FilteringEvent × Storage
  unfolding filter_links filter_items conclude
  process n links items worker_id s =
      let (es, s') = conclude n (filter_links s n.domain.base_url links) (filter_items s items) s in
      (worker_cycle_started worker_id ∷ input_snapshot (length links) (length items) ∷ es, s')
