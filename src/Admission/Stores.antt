-- ===== src/Admission/Stores.antt =====
-- What a completed transformation leaves in the storage.
use crawl_viz.Base.{
  ℕ, suc, ◌+◌, ◌<◌, String, ◌≡◌, ◌≢◌, refl, ap, sym, subst, ◌∙◌, inl, inr, true, none, some, List,
  [], ◌∷◌, length, get_elem?, set, All, Option-cases, arith, eq_iff, get_elem?-set_self,
  get_elem?-some, length-append, length-set,
}
use crawl_viz.Base.Texts.{contains}
use crawl_viz.Models.{UrlRules, Link, Node, Item, set_links, update_state}
use crawl_viz.Models.Storage.{Storage, add_item, add_links, item_seen, update_node}
use crawl_viz.Models.Seen.{item_seen-add_item, add_urls-All}
use crawl_viz.Admission.{
  link_stored, node_updated, StorageStage, store_items, on_transformation_completed,
}

add_item_stored :
    (item : Item) (item_hash : String) (i : ℕ) (s : Storage)
    → i < length s.nodes
    → ((add_item item item_hash i s).0 ≡ true)
      × (length (add_item item item_hash i s).1.nodes ≡ length s.nodes)
unfolding add_item
add_item_stored item item_hash i s h =
    let (n, e) = get_elem?-some s.nodes i h in
    rw (e, add_item) (refl, rw (e, update_node) (length-set s.nodes i _))

ready_links :
    (ls : List Link) (m : Node)
    → ((update_state (set_links ls m)).links ≡ ls) × ((update_state (set_links ls m)).ready ≢ none)
unfolding update_state set_links
ready_links ls m = elim (Option-cases m.ready) [
  | inl e ↦ simp e (refl, λ h. cc)
  | inr (b, e) ↦ simp e (refl, λ h. cc)
]

module _ (rules : UrlRules) where
  store_items-kept :
      (items : List (Item × String)) (i : ℕ) (s : Storage) (k : String)
      → item_seen k s ≡ true
      → item_seen k (store_items rules items i s).2 ≡ true
  unfolding store_items
  store_items-kept [] i s k h = h
  store_items-kept ((item, item_hash) ∷ rest) i s k h =
      let s' : Storage = (add_item item item_hash i s).1 in
      ground (arith, item_seen-add_item item item_hash k i s, store_items-kept rest i s' k)

  -- At a stored node the loop runs to its end, each item is seen afterwards, and each is announced.
  store_items-All :
      (items : List (Item × String)) (i : ℕ) (s : Storage)
      → i < length s.nodes
      → let (finished, es, s') = store_items rules items i s in
        (finished ≡ true)
        × (length es ≡ length items)
        × (length s'.nodes ≡ length s.nodes)
        × All (λ e. item_seen e.1 s' ≡ true) items
  unfolding store_items
  store_items-All [] i s h = (refl, refl, refl, tt)
  store_items-All ((item, item_hash) ∷ rest) i s h =
      let s' : Storage = (add_item item item_hash i s).1 in
      let (stored, same) = add_item_stored item item_hash i s h in
      let (done, told, size, all) = store_items-All rest i s' (omega (arith, same)) in
      simp stored (
        done,
        ap suc told,
        size ∙ same,
        (
          store_items-kept rest i s' item_hash (
              ground (
                arith,
                item_seen-add_item item item_hash item_hash i s,
                eq_iff item_hash item_hash,
              )),
          subst (λ t. All (λ e. item_seen e.1 t ≡ true) rest) (simp stored) all,
        ),
      )

  -- At a stored node the handler finishes; each item and each link of the event is known to the
  -- storage from then on, and the node holds the links and is ready, unless it had failed.
  pub on_transformation_completed-stores :
      (n : Node) (links : List Link) (items : List (Item × String)) (p : StorageStage)
      → n.id < length p.storage.nodes
      → let (finished, es, q) = on_transformation_completed rules n links items p in
        (finished ≡ true)
        × (length es ≡ length items + 2)
        × All (λ e. item_seen e.1 q.storage ≡ true) items
        × All
            (λ l. contains q.storage.found_links (rules.build_url n.domain.base_url l.url) ≡ true)
            links
        × ((m : Node) × (get_elem? q.storage.nodes n.id ≡ some m)
            × (m.links ≡ links)
            × (m.ready ≢ none))
  unfolding on_transformation_completed item_seen
  on_transformation_completed-stores n links items p h =
      let (done, told, size, all) = store_items-All items n.id p.storage h in
      let stored : Storage = (store_items rules items n.id p.storage).2 in
      let (m, at) = get_elem?-some stored.nodes n.id (omega (arith, size)) in
      let linked : Storage = add_links rules links n.domain.base_url stored in
      let m' : Node = update_state (set_links links m) in
      let last : Storage = record linked { nodes = set stored.nodes n.id m' } in
      let e : update_node n.id (λ k. update_state (set_links links k)) linked ≡ last =
        rw (at, update_node) in
      simp done (
        refl,
        omega (
          arith,
          told,
          length-append (store_items rules items n.id p.storage).1
              (link_stored n.id (length links) ∷ node_updated n.id links items ∷ []),
        ),
        subst (λ t. All (λ i. item_seen i.1 t ≡ true) items) (sym e) all,
        subst
            (λ t.
              All (λ l. contains t.found_links (rules.build_url n.domain.base_url l.url) ≡ true)
                links)
            (sym e) (add_urls-All rules links n.domain.base_url stored.found_links),
        (
          m',
          subst (λ t. get_elem? t.nodes n.id ≡ some m') (sym e)
              (get_elem?-set_self stored.nodes n.id m' (omega (arith, size))),
          (ready_links links m).0,
          (ready_links links m).1,
        ),
      )
