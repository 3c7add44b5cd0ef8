-- ===== src/Models/Seen.antt =====
-- What `Storage` remembers to have seen: URLs and item hashes.
use crawl_viz.Base.{
  ℕ, String, ◌≡◌, subst, inl, inr, true, List, [], ◌∷◌, get_elem?, All, Bool-cases, Option-cases,
  if◌then◌else◌, arith, str_eq, eq_iff,
}
use crawl_viz.Base.Texts.{contains, lookup, lookup-insert}
use crawl_viz.Models.{UrlRules, Link, Item}
use crawl_viz.Models.Storage.{Storage, add_item, add_urls, add_text, item_seen, update_node}

pub contains-add_text :
    (u v : String) (us : List String)
    → contains (add_text u us) v ≡ (if str_eq u v then true else contains us v)
unfolding add_text
contains-add_text u v us = elim (Bool-cases (contains us u)) [
  | inl old ↦ rw old (elim (Bool-cases (str_eq u v)) [
    | inl same ↦ rw same (subst (λ w. contains us w ≡ true) ((eq_iff u v).0 same) old)
    | inr other ↦ rw other
  ])
  | inr new ↦ rw new
]

pub item_seen-add_item :
    (item : Item) (h k : String) (i : ℕ) (s : Storage)
    → item_seen k (add_item item h i s).1 ≡ (if str_eq h k then true else item_seen k s)
unfolding item_seen add_item lookup
item_seen-add_item item h k i s = elim (Option-cases (get_elem? s.nodes i)) [
  | inl e ↦ rw (e, add_item) (ground (arith, lookup-insert h k i s.items))
  | inr (n, e) ↦
      rw (e, add_item) (rw (e, update_node) (ground (arith, lookup-insert h k i s.items)))
]

module _ (rules : UrlRules) where
  contains-add_urls :
      (ls : List Link) (base : String) (us : List String) (u : String)
      → contains us u ≡ true
      → contains (add_urls rules ls base us) u ≡ true
  unfolding add_urls
  contains-add_urls [] base us u h = h
  contains-add_urls (l ∷ ls) base us u h =
      let v : String = rules.build_url base l.url in
      contains-add_urls ls base (add_text v us) u (ground (arith, contains-add_text v u us))

  pub add_urls-All :
      (ls : List Link) (base : String) (us : List String)
      → All (λ l. contains (add_urls rules ls base us) (rules.build_url base l.url) ≡ true) ls
  unfolding add_urls
  add_urls-All [] base us = tt
  add_urls-All (l ∷ ls) base us =
      let v : String = rules.build_url base l.url in
      (
        contains-add_urls ls base (add_text v us) v
            (ground (arith, contains-add_text v v us, eq_iff v v)),
        add_urls-All ls base (add_text v us),
      )
