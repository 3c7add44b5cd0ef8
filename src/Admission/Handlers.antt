-- ===== src/Admission/Handlers.antt =====
-- What one event does to the storage stage: which nodes it adds and announces, what it stores.
use mathlib.Core.List.{map-append}
use crawl_viz.Base.{
  ℕ, suc, ◌≤◌, String, ◌≡◌, refl, ap, sym, subst, ◌∙◌, inl, inr, true, false, List, [], ◌∷◌, ◌++◌,
  append-nil, append_assoc, map, length, All, All-imp, length-append, Bool-cases, arith, eq_iff,
}
use crawl_viz.Base.Texts.{contains}
use crawl_viz.Models.{UrlRules, Node}
use crawl_viz.Admission.{
  Candidate, StageEvent, node_added, StorageStage, seed_admitted, too_deep, admit_one, admit_links,
  on_priority_calculated,
}
use crawl_viz.Admission.Growth.{urls}
use crawl_viz.Admission.Graph.{
  views, Inv, StoredAt, seed_admitted-Inv, seed-storage, admit_links-Inv,
}

-- The ids that a run of events announces to the other stages by `NodeAddedEvent`.
abbrev pub announced : List StageEvent → List ℕ
announced [] = []
announced (node_added i ∷ es) = i ∷ announced es
announced (_ ∷ es) = announced es

abbrev pub ids : List Node → List ℕ
ids = map (λ n. n.id)

announced-append : (es fs : List StageEvent) → announced (es ++ fs) ≡ announced es ++ announced fs
announced-append [] fs = refl
announced-append (node_added i ∷ es) fs = rw (announced-append es fs)
announced-append (_ ∷ es) fs = announced-append es fs

module _ (rules : UrlRules) where
  abbrev pub target : Node → Candidate → String
  target parent c = rules.build_url parent.domain.base_url c.link.url

  -- From `p` to `q`, with the events `es`: nodes are only appended, at most one for each
  -- candidate, each is announced once and in order, and what was admitted stays admitted.
  pub record Extends (p q : StorageStage) (es : List StageEvent) (count : ℕ) : Type 0 where
    pub fresh : List Node
    pub nodes : q.storage.nodes ≡ p.storage.nodes ++ fresh
    pub told : announced es ≡ ids fresh
    pub few : length fresh ≤ count
    pub kept : (u : String) → contains p.admitted_urls u ≡ true → contains q.admitted_urls u ≡ true

  admit_one-Extends :
      (parent : Node) (c : Candidate) (p : StorageStage)
      → let (es, q) = admit_one rules parent c p in
        Extends p q es 1 × (contains q.admitted_urls (target parent c) ≡ true)
  unfolding admit_one
  admit_one-Extends parent c p = elim (Bool-cases (contains p.admitted_urls (target parent c))) [
    | inl old ↦ simp old (
      record {
        fresh = [];
        nodes = sym (append-nil _);
        told = refl;
        few = omega arith;
        kept = λ u h. h;
      },
      refl,
    )
    | inr new ↦ simp new (
      record {
        fresh = _ ∷ [];
        nodes = refl;
        told = refl;
        few = omega arith;
        kept = λ u h. ground arith;
      },
      ground (arith, eq_iff (target parent c) (target parent c)),
    )
  ]

  Extends-trans :
      {p q r : StorageStage} {es fs : List StageEvent} {n : ℕ}
      → Extends p q es 1
      → Extends q r fs n
      → Extends p r (es ++ fs) (suc n)
  Extends-trans {p} {es} {fs} a b = record {
    fresh = a.fresh ++ b.fresh;
    nodes = rw (b.nodes, a.nodes) (append_assoc p.storage.nodes a.fresh b.fresh);
    told =
        announced-append es fs ∙ rw (a.told, b.told) (sym (map-append (λ n. n.id) a.fresh b.fresh));
    few = omega (arith, a.few, b.few, length-append a.fresh b.fresh);
    kept = λ u h. b.kept u (a.kept u h);
  }

  admit_links-Extends :
      (parent : Node) (cs : List Candidate) (p : StorageStage)
      → let (es, q) = admit_links rules parent cs p in
        Extends p q es (length cs) × All (λ c. contains q.admitted_urls (target parent c) ≡ true) cs
  unfolding admit_links
  admit_links-Extends parent [] p = (
    record {
      fresh = [];
      nodes = sym (append-nil _);
      told = refl;
      few = omega arith;
      kept = λ u h. h;
    },
    tt,
  )
  admit_links-Extends parent (c ∷ cs) p =
      let (first, there) = admit_one-Extends parent c p in
      let (more, all) = admit_links-Extends parent cs (admit_one rules parent c p).1 in
      (Extends-trans first more, (more.kept (target parent c) there, all))

  -- A page's candidates, at a stored parent within the depth limit: afterwards each candidate's
  -- URL belongs to a stored node, the nodes that were there stand first and unchanged, and the
  -- new ones, no more than there are candidates, are announced once each and in order.
  pub on_priority_calculated_complete :
      (parent : Node) (links : List Candidate) (p : StorageStage)
      → Inv rules p
      → StoredAt rules parent p.storage
      → too_deep p.max_depth parent.depth ≡ false
      → let (finished, es, q) = on_priority_calculated rules parent links p in
        (fresh : List Node) × (finished ≡ true)
        × (q.storage.nodes ≡ p.storage.nodes ++ fresh)
        × (announced es ≡ ids fresh)
        × (length fresh ≤ length links)
        × All (λ c. contains (urls (views rules q.storage)) (target parent c) ≡ true) links
  unfolding on_priority_calculated
  on_priority_calculated_complete parent links p v at ok =
      let (v', seeded) = seed_admitted-Inv rules p v in
      let q : StorageStage = seed_admitted rules p in
      let at' = subst (λ s. StoredAt rules parent s) (sym (seed-storage rules p).0) at in
      let ok' = subst (λ d. too_deep d parent.depth ≡ false) (sym (seed-storage rules p).1) ok in
      let (last, done) = admit_links-Inv rules parent links q v' seeded at' ok' in
      let (ext, all) = admit_links-Extends parent links q in
      simp ok (
        ext.fresh,
        refl,
        ext.nodes ∙ ap (λ s. s.nodes ++ ext.fresh) (seed-storage rules p).0,
        ext.told,
        ext.few,
        All-imp
            (λ c.
              contains (admit_links rules parent links q).1.admitted_urls (target parent c) ≡ true)
            _ links (λ c h. sym (last.covers done (target parent c)) ∙ h) all,
      )

  -- A page at the depth limit adds no node and emits nothing.
  pub on_priority_calculated-too_deep :
      (parent : Node) (links : List Candidate) (p : StorageStage)
      → too_deep p.max_depth parent.depth ≡ true
      → let (finished, es, q) = on_priority_calculated rules parent links p in
        (finished ≡ true) × (es ≡ []) × (q.storage ≡ p.storage)
  unfolding on_priority_calculated
  on_priority_calculated-too_deep parent links p deep =
      simp deep (refl, refl, (seed-storage rules p).0)
