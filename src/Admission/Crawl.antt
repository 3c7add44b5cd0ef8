-- ===== src/Admission/Crawl.antt =====
-- From the blueprint to the end of the crawl: the seeds, then any sequence of stage events.
use crawl_viz.Base.{
  ℕ, suc, ◌+◌, ◌<◌, String, ◌≡◌, ◌≢◌, refl, subst, sym, Bool, true, Option, none, some, List, [],
  ◌∷◌, ◌++◌, length, get_elem?, length-append, length-map, Option-cases, arith, inl, inr,
}
use mathlib.Core.List.{map-append}
use crawl_viz.Models.{UrlRules, Node, Domain, seed_node}
use crawl_viz.Models.Storage.{Storage, new_storage, add_domain, get_domain, add_node}
use crawl_viz.Admission.{StorageStage, StageInput, new_stage, run, inject_domains, inject_seeds}
use crawl_viz.Admission.Growth.{
  NodeView, IsSeeds, IsShallow, Grown, seeds, Grown-id, Grown-url_ne, Grown-parent,
}
use crawl_viz.Admission.Graph.{view, views, Inv}
use crawl_viz.Admission.Preserve.{run-Inv, max_depth-run}

IsSeeds-snoc :
    (k : ℕ) (vs : List NodeView) (v : NodeView)
    → IsSeeds k vs
    → v.id ≡ k + length vs
    → v.depth ≡ 0
    → v.parent ≡ none
    → IsSeeds k (vs ++ v ∷ [])
IsSeeds-snoc k [] v h i d p = (omega arith, d, p, tt)
IsSeeds-snoc k (w ∷ vs) v h i d p = (h.0, h.1, h.2, IsSeeds-snoc (suc k) vs v h.3 (omega arith) d p)

module _ (rules : UrlRules) where
  -- Only seeds so far, and a node for each id that was handed out.
  abbrev IsStart : Storage → Type 0
  IsStart s = IsSeeds 0 (views rules s) × (s.current_id ≡ length s.nodes)

  add_seed :
      (url : String) (d : Domain) (s : Storage)
      → IsStart s
      → IsStart (
          add_node rules
            (seed_node rules s.current_id url d)
            (record s { current_id = suc s.current_id }))
  unfolding add_node seed_node
  add_seed url d s h =
      let n : Node = seed_node rules s.current_id url d in
      (
        subst (λ vs. IsSeeds 0 vs) (sym (map-append (view rules) s.nodes (n ∷ [])))
            (IsSeeds-snoc 0 (views rules s) (view rules n) h.0
              (omega (arith, h.1, length-map (view rules) s.nodes)) refl refl),
        omega (arith, h.1, length-append s.nodes (n ∷ [])),
      )

  inject_seeds-IsStart :
      (pages : List (String × String)) (s : Storage)
      → IsStart s
      → (inject_seeds rules pages s).0 ≡ true
      → IsStart (inject_seeds rules pages s).2
  unfolding inject_seeds
  inject_seeds-IsStart [] s h f = h
  inject_seeds-IsStart ((url, domain) ∷ rest) s h f = elim (Option-cases (get_domain domain s)) [
    | inl missing ↦ cc (missing)
    | inr (d, found) ↦
        rw (found, inject_seeds)
          (inject_seeds-IsStart rest _ (add_seed url d s h) (rw (found, inject_seeds) at f))
  ]

  inject_domains-IsStart :
      (ds : List Domain) (s : Storage) → IsStart s → IsStart (inject_domains rules ds s)
  unfolding inject_domains add_domain
  inject_domains-IsStart [] s h = h
  inject_domains-IsStart (d ∷ ds) s h = inject_domains-IsStart ds (add_domain d s) h

  start-Inv : (limit : Option ℕ) (s : Storage) → IsStart s → Inv rules (new_stage s limit)
  unfolding new_stage
  start-Inv limit s h = record {
    grown = seeds h.0;
    count = h.1;
    covers = λ e. cc;
    unseeded = λ e. refl;
  }

  -- The stage after the blueprint's domains and seeds, and any sequence of events.
  unfoldable pub crawl :
      List Domain → List (String × String) → Option ℕ → List StageInput → StorageStage
  crawl domains pages limit es =
      run rules
        (new_stage (inject_seeds rules pages (inject_domains rules domains new_storage)).2 limit) es

  unfoldable pub boots : List Domain → List (String × String) → Bool
  boots domains pages = (inject_seeds rules pages (inject_domains rules domains new_storage)).0

  pub crawl-Inv :
      (domains : List Domain) (pages : List (String × String)) (limit : Option ℕ)
      (es : List StageInput)
      → boots domains pages ≡ true
      → Inv rules (crawl domains pages limit es)
  unfolding crawl boots
  crawl-Inv domains pages limit es h = run-Inv rules es _ (
      start-Inv limit _ (
        inject_seeds-IsStart pages _
          (inject_domains-IsStart domains new_storage (unfold new_storage in (tt, refl))) h))

  -- Whatever the blueprint's domains and seeds, if each seed's domain is known, and whatever stage
  -- events follow, the stored nodes are a graph grown from the seeds: a child gets the next id and a
  -- URL that no stored node has, one level below a stored parent and within the depth limit.
  pub crawl-Grown :
      (domains : List Domain) (pages : List (String × String)) (limit : Option ℕ)
      (es : List StageInput)
      → boots domains pages ≡ true
      → Grown limit (views rules (crawl domains pages limit es).storage)
  crawl-Grown domains pages limit es h =
      subst (λ l. Grown l (views rules (crawl domains pages limit es).storage))
        (same domains pages limit es) (crawl-Inv domains pages limit es h).grown
    where
      same :
          (domains : List Domain) (pages : List (String × String)) (limit : Option ℕ)
          (es : List StageInput)
          → (crawl domains pages limit es).max_depth ≡ limit
      same domains pages limit es = unfold crawl new_stage in max_depth-run rules es _

  -- In such a crawl no two nodes share a URL, unless the later one is a seed too.
  pub crawl-url_ne :
      (domains : List Domain) (pages : List (String × String)) (limit : Option ℕ)
      (es : List StageInput) (i j : ℕ) {v w : NodeView}
      → boots domains pages ≡ true
      → i < j
      → get_elem? (views rules (crawl domains pages limit es).storage) i ≡ some v
      → get_elem? (views rules (crawl domains pages limit es).storage) j ≡ some w
      → w.parent ≢ none
      → v.url ≢ w.url
  crawl-url_ne domains pages limit es i j h l e f c =
      Grown-url_ne i j (crawl-Grown domains pages limit es h) l e f c

  -- In such a crawl every node's id is its position, and a node with a parent stands behind it,
  -- one level below it and within the depth limit.
  pub crawl-parent :
      (domains : List Domain) (pages : List (String × String)) (limit : Option ℕ)
      (es : List StageInput) (i : ℕ) {v : NodeView}
      → boots domains pages ≡ true
      → get_elem? (views rules (crawl domains pages limit es).storage) i ≡ some v
      → (v.id ≡ i)
        × (v.parent ≢ none
            → (p : NodeView) × (get_elem? (views rules (crawl domains pages limit es).storage) p.id
                ≡ some p)
              × (p.id < i)
              × (v.parent ≡ some p.id)
              × (v.depth ≡ suc p.depth)
              × IsShallow limit v.depth)
  crawl-parent domains pages limit es i h e =
      let g = crawl-Grown domains pages limit es h in (Grown-id i g e, λ c. Grown-parent i g e c)
