-- ===== src/Filtering/Dedup.antt =====
-- What passes the filter is new, and what was stored does not pass again.
use crawl_viz.Base.{
  ℕ, suc, ◌+◌, ◌<◌, ◌≡◌, refl, subst, String, Bool, true, false, not, Option, none, some, List, [],
  ◌∷◌, length, map, keep, arith, Bool-cases, Option-cases, inl, inr, All,
}
use crawl_viz.Base.Texts.{contains}
use crawl_viz.Models.{UrlRules, Link, Item, Node}
use crawl_viz.Models.Storage.{Storage, link_seen, item_seen}
use crawl_viz.Admission.{StorageStage, on_transformation_completed}
use crawl_viz.Admission.Stores.{on_transformation_completed-stores}
use crawl_viz.Filtering.{
  Accepted, RawItem, hashed, filter_links, item_hash_of, keep_item, filter_items,
}

module _ (rules : UrlRules) (hash_item : Item → Option String) where
  abbrev pub is_new : Storage → String → Link → Bool
  is_new s base_url l = not (link_seen rules l.url base_url s)

  -- The links that the crawl has not seen pass, all of them and in order, and the others are counted.
  pub filter_links-keep :
      (s : Storage) (base_url : String) (ls : List Link)
      → let r = filter_links rules hash_item s base_url ls in
        (r.accepted ≡ keep (is_new s base_url) ls)
        × (r.rejected_count + length r.accepted ≡ length ls)
  unfolding filter_links
  filter_links-keep s base_url [] = (refl, omega arith)
  filter_links-keep s base_url (l ∷ ls) =
      let r = filter_links-keep s base_url ls in ground (arith, r)

  abbrev pub IsFiltered : Storage → ℕ → Option (Accepted (Item × String)) → Type 0
  IsFiltered s n none = Unit {0}
  IsFiltered s n (some r) =
      All (λ e. item_seen e.1 s ≡ false) r.accepted × (r.rejected_count + length r.accepted ≡ n)

  keep_item-IsFiltered :
      (s : Storage) (n : ℕ) (e : Item × String) (r : Accepted (Item × String))
      → IsFiltered s n (some r)
      → IsFiltered s (suc n) (some (keep_item rules hash_item s e r))
  unfolding keep_item
  keep_item-IsFiltered s n e r h = elim (Bool-cases (item_seen e.1 s)) [
    | inl old ↦ rw (old, keep_item) (h.0, omega (arith, h.1))
    | inr new ↦ rw (new, keep_item) ((new, h.0), omega (arith, h.1))
  ]

  filter_items-IsFiltered :
      (s : Storage) (rs : List RawItem)
      → IsFiltered s (length rs) (filter_items rules hash_item s rs)
  unfolding filter_items
  filter_items-IsFiltered s [] = (tt, omega arith)
  filter_items-IsFiltered s (i ∷ rs) = elim (Option-cases (item_hash_of rules hash_item i)) [
    | inl bad ↦ rw (bad, filter_items) tt
    | inr (e, good) ↦ elim (Option-cases (filter_items rules hash_item s rs)) [
      | inl worse ↦ rw (good, worse, filter_items) tt
      | inr (r, rest) ↦
          rw (good, rest, filter_items)
            (keep_item-IsFiltered s (length rs) e r
              (subst (IsFiltered s (length rs)) rest (filter_items-IsFiltered s rs)))
    ]
  ]

  -- If every item can be hashed, each is accepted or counted, and what is accepted is new.
  pub filter_items_new :
      (s : Storage) (rs : List RawItem) {r : Accepted (Item × String)}
      → filter_items rules hash_item s rs ≡ some r
      → All (λ e. item_seen e.1 s ≡ false) r.accepted
        × (r.rejected_count + length r.accepted ≡ length rs)
  filter_items_new s rs h = subst (IsFiltered s (length rs)) h (filter_items-IsFiltered s rs)

  filter_links_seen :
      (s : Storage) (base_url : String) (ls : List Link)
      → All (λ l. link_seen rules l.url base_url s ≡ true) ls
      → filter_links rules hash_item s base_url ls
        ≡ record { accepted = []; rejected_count = length ls }
  unfolding filter_links
  filter_links_seen s base_url [] h = refl
  filter_links_seen s base_url (l ∷ ls) h = ground (arith, h.0, filter_links_seen s base_url ls h.1)

  abbrev pub raw : List (Item × String) → List RawItem
  raw = map (λ e. hashed e.0 e.1)

  filter_items_seen :
      (s : Storage) (es : List (Item × String))
      → All (λ e. item_seen e.1 s ≡ true) es
      → filter_items rules hash_item s (raw es)
        ≡ some (record { accepted = []; rejected_count = length es })
  unfolding filter_items item_hash_of keep_item
  filter_items_seen s [] h = refl
  filter_items_seen s (e ∷ es) h = ground (arith, h.0, filter_items_seen s es h.1)

  seen-All :
      (s : Storage) (base_url : String) (ls : List Link)
      → All
          (λ l.
            rules.normalize_url (rules.build_url base_url l.url) ≡ rules.build_url base_url l.url)
          ls
      → All (λ l. contains s.found_links (rules.build_url base_url l.url) ≡ true) ls
      → All (λ l. link_seen rules l.url base_url s ≡ true) ls
  unfolding link_seen
  seen-All s base_url [] c h = tt
  seen-All s base_url (l ∷ ls) c h = (rw c.0 h.0, seen-All s base_url ls c.1 h.1)

  -- Once the transformed links and items of a stored node are in the storage, the filter rejects
  -- every one of them, if the links' absolute URLs are in normal form.
  pub filter_links-on_transformation_completed :
      (n : Node) (links : List Link) (items : List (Item × String)) (p : StorageStage)
      → n.id < length p.storage.nodes
      → All
          (λ l.
            rules.normalize_url (rules.build_url n.domain.base_url l.url)
            ≡ rules.build_url n.domain.base_url l.url)
          links
      → let (_, _, q) = on_transformation_completed rules n links items p in
        (filter_links rules hash_item q.storage n.domain.base_url links
          ≡ record { accepted = []; rejected_count = length links })
        × (filter_items rules hash_item q.storage (raw items)
            ≡ some (record { accepted = []; rejected_count = length items }))
  filter_links-on_transformation_completed n links items p h c =
      let (_, _, q) = on_transformation_completed rules n links items p in
      let (_, _, known, found, _) = on_transformation_completed-stores rules n links items p h in
      (
        filter_links_seen q.storage n.domain.base_url links
            (seen-All q.storage n.domain.base_url links c found),
        filter_items_seen q.storage items known,
      )
