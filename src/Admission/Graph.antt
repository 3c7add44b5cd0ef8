-- ===== src/Admission/Graph.antt =====
-- The storage stage implements the growth of Admission/Growth.
use mathlib.Core.List.{map-append}
use crawl_viz.Base.{
  ℕ, suc, String, ◌≡◌, refl, sym, ◌∙◌, inl, inr, true, false, Option, none, some, List, [], ◌∷◌,
  ◌++◌, map, length, get_elem?, length-map, length-append, Bool-cases, if◌then◌else◌, arith, str_eq,
  get_elem?-append_left, get_elem?-lt,
}
use crawl_viz.Base.Texts.{contains}
use crawl_viz.Models.{UrlRules, Node, child_node, get_full_url}
use crawl_viz.Models.Storage.{Storage, add_text, add_node}
use crawl_viz.Models.Seen.{contains-add_text}
use crawl_viz.Admission.{
  Candidate, StorageStage, add_all, seed_admitted, too_deep, store_child, admit_one, admit_links,
}
use crawl_viz.Admission.Growth.{NodeView, urls, IsShallow, Grown, grow}

module _ (rules : UrlRules) where
  abbrev pub view : Node → NodeView
  view n = record { id = n.id; url = get_full_url rules n; depth = n.depth; parent = n.parent }

  abbrev pub views : Storage → List NodeView
  views s = map view s.nodes

  pub record Inv (p : StorageStage) : Type 0 where
    pub grown : Grown p.max_depth (views p.storage)
    pub count : p.storage.current_id ≡ length p.storage.nodes
    pub covers :
        p.seeded_admitted ≡ true
        → (u : String) → contains p.admitted_urls u ≡ contains (urls (views p.storage)) u
    pub unseeded : p.seeded_admitted ≡ false → p.admitted_urls ≡ []

  contains-add_all :
      (ns : List Node) (us : List String) (v : String)
      → contains (add_all rules ns us) v
        ≡ (if contains (urls (map view ns)) v then true else contains us v)
  unfolding add_all
  contains-add_all [] us v = refl
  contains-add_all (n ∷ ns) us v = ground (
    arith,
    contains-add_all ns (add_text (get_full_url rules n) us) v,
    contains-add_text (get_full_url rules n) v us,
  )

  pub seed_admitted-Inv :
      (p : StorageStage)
      → Inv p
      → Inv (seed_admitted rules p) × ((seed_admitted rules p).seeded_admitted ≡ true)
  unfolding seed_admitted
  seed_admitted-Inv p v = elim (Bool-cases p.seeded_admitted) [
    | inl old ↦ simp old (v, refl)
    | inr new ↦ simp new (
      record {
        grown = v.grown;
        count = v.count;
        covers = λ _ u.
            ground (arith, contains-add_all p.storage.nodes p.admitted_urls u, v.unseeded new);
        unseeded = λ h. cc;
      },
      refl,
    )
  ]

  -- A stored parent, in the list of views.
  abbrev pub StoredAt : Node → Storage → Type 0
  StoredAt n s = get_elem? (views s) n.id ≡ some (view n)

  too_deep-IsShallow :
      (limit : Option ℕ) (depth : ℕ) → too_deep limit depth ≡ false → IsShallow limit (suc depth)
  unfolding too_deep
  too_deep-IsShallow none depth h = tt
  too_deep-IsShallow (some limit) depth h = ground arith

  views-snoc : (s : Storage) (n : Node) → views (add_node rules n s) ≡ views s ++ view n ∷ []
  unfolding add_node
  views-snoc s n = map-append view s.nodes (n ∷ [])

  contains-snoc :
      (ns : List Node) (n : Node) (u : String)
      → contains (urls (map view (ns ++ n ∷ []))) u ≡ (
          if contains (urls (map view ns)) u
          then true
          else if str_eq (get_full_url rules n) u
          then true
          else false)
  contains-snoc [] n u = refl
  contains-snoc (m ∷ ns) n u = ground (arith, contains-snoc ns n u)

  get_elem?-append_map :
      (parent : Node) (s : Storage) (n : Node)
      → StoredAt parent s
      → get_elem? (map view (s.nodes ++ n ∷ [])) parent.id ≡ some (view parent)
  get_elem?-append_map parent s n at =
      rw
        (
          map-append view s.nodes (n ∷ []),
          get_elem?-append_left (views s) (view n ∷ []) parent.id
              (get_elem?-lt (views s) parent.id at),
        )
        at

  store_child-Inv :
      (parent : Node) (c : Candidate) (p : StorageStage)
      → Inv p
      → p.seeded_admitted ≡ true
      → StoredAt parent p.storage
      → too_deep p.max_depth parent.depth ≡ false
      → contains p.admitted_urls (rules.build_url parent.domain.base_url c.link.url) ≡ false
      → Inv (store_child rules (rules.build_url parent.domain.base_url c.link.url) parent c p).1
  unfolding store_child
  store_child-Inv parent c p v seeded at ok new = simp new (record {
    grown =
        grow (view child) v.grown
          (record {
            id = v.count ∙ sym (length-map view p.storage.nodes);
            fresh = sym (v.covers seeded url) ∙ new;
            above = view parent;
            above_at = at;
            parent = refl;
            depth = refl;
            shallow = too_deep-IsShallow p.max_depth parent.depth ok;
          })
          (map-append view p.storage.nodes (child ∷ []));
    count = omega (arith, v.count, length-append p.storage.nodes (child ∷ []));
    covers = λ _ u. ground (arith, contains-snoc p.storage.nodes child u, v.covers seeded u);
    unseeded = λ h. cc;
  })
    where
      url : String
      url = rules.build_url parent.domain.base_url c.link.url

      child : Node
      child = child_node p.storage.current_id c.link (some c.score) c.priority parent

  admit_one-Inv :
      (parent : Node) (c : Candidate) (p : StorageStage)
      → Inv p
      → p.seeded_admitted ≡ true
      → StoredAt parent p.storage
      → too_deep p.max_depth parent.depth ≡ false
      → let q = (admit_one rules parent c p).1 in
        Inv q × (q.seeded_admitted ≡ true) × StoredAt parent q.storage × (q.max_depth ≡ p.max_depth)
  unfolding admit_one
  admit_one-Inv parent c p v seeded at ok =
      let url : String = rules.build_url parent.domain.base_url c.link.url in
      elim (Bool-cases (contains p.admitted_urls url)) [
        | inl old ↦ simp old (v, seeded, at, refl)
        | inr new ↦ simp new (
          simp new at (store_child-Inv parent c p v seeded at ok new),
          seeded,
          get_elem?-append_map parent p.storage _ at,
          refl,
        )
      ]

  pub admit_links-Inv :
      (parent : Node) (cs : List Candidate) (p : StorageStage)
      → Inv p
      → p.seeded_admitted ≡ true
      → StoredAt parent p.storage
      → too_deep p.max_depth parent.depth ≡ false
      → Inv (admit_links rules parent cs p).1
        × ((admit_links rules parent cs p).1.seeded_admitted ≡ true)
  unfolding admit_links
  admit_links-Inv parent [] p v seeded at ok = (v, seeded)
  admit_links-Inv parent (c ∷ cs) p v seeded at ok =
      let (v', seeded', at', same) = admit_one-Inv parent c p v seeded at ok in
      admit_links-Inv parent cs (admit_one rules parent c p).1 v' seeded' at' (rw same ok)

  pub seed-storage :
      (p : StorageStage)
      → ((seed_admitted rules p).storage ≡ p.storage)
        × ((seed_admitted rules p).max_depth ≡ p.max_depth)
  unfolding seed_admitted
  seed-storage p = ground arith
