-- ===== src/Admission/Preserve.antt =====
-- Every handler of the storage stage keeps the graph invariant of Admission/Graph.
use crawl_viz.Base.{
  ℕ, String, ◌≡◌, refl, ap, sym, subst, ◌∙◌, inl, inr, false, some, List, [], ◌∷◌, length,
  get_elem?, length-map, length-set, get_elem?-map, map-set_same, Bool-cases, Option-cases, arith,
}
use crawl_viz.Base.Texts.{insert, contains}
use crawl_viz.Models.{
  UrlRules, Link, Node, Item, get_full_url, set_content, set_links, update_state, add_node_item,
}
use crawl_viz.Models.Storage.{Storage, add_item, add_links, update_node}
use crawl_viz.Admission.{
  Candidate, StageInput, priority_calculated, transformation_completed, page_fetched, StorageStage,
  seed_admitted, too_deep, admit_one, admit_links, on_priority_calculated, store_items,
  on_transformation_completed, on_page_fetched, handle_node, process, run, node_of,
}
use crawl_viz.Admission.Growth.{urls, Grown-id}
use crawl_viz.Admission.Graph.{
  view, views, Inv, StoredAt, seed_admitted-Inv, seed-storage, admit_links-Inv,
}

module _ (rules : UrlRules) where
  -- A write to a stored node that keeps its identity keeps the graph.
  update_node-views :
      (i : ℕ) (f : Node → Node) (s : Storage)
      → ((n : Node) → view rules (f n) ≡ view rules n)
      → (views rules (update_node i f s) ≡ views rules s)
        × ((update_node i f s).current_id ≡ s.current_id)
        × (length (update_node i f s).nodes ≡ length s.nodes)
  unfolding update_node
  update_node-views i f s same = elim (Option-cases (get_elem? s.nodes i)) [
    | inl e ↦ rw (e, update_node) (refl, refl, refl)
    | inr (n, e) ↦
        rw (e, update_node)
          (map-set_same (view rules) s.nodes i n (f n) e (same n), refl, length-set s.nodes i (f n))
  ]

  -- What the other two handlers do to the storage leaves the invariant alone.
  storage-Inv :
      (p : StorageStage) (s : Storage)
      → Inv rules p
      → (views rules s ≡ views rules p.storage)
      → (s.current_id ≡ p.storage.current_id)
      → Inv rules (record p { storage = s })
  storage-Inv p s v same id = record {
    grown = rw same v.grown;
    count =
        id
        ∙ v.count
        ∙ sym (length-map (view rules) p.storage.nodes)
        ∙ ap length (sym same)
        ∙ length-map (view rules) s.nodes;
    covers = λ h u. v.covers h u ∙ ap (λ vs. contains (urls vs) u) (sym same);
    unseeded = v.unseeded;
  }

  add_item-views :
      (item : Item) (item_hash : String) (i : ℕ) (s : Storage)
      → (views rules (add_item item item_hash i s).1 ≡ views rules s)
        × ((add_item item item_hash i s).1.current_id ≡ s.current_id)
  unfolding add_item get_full_url
  add_item-views item item_hash i s = elim (Option-cases (get_elem? s.nodes i)) [
    | inl e ↦ rw (e, add_item) (refl, refl)
    | inr (n, e) ↦
        (let s' : Storage = record s { items = insert item_hash i s.items } in
          let w = update_node-views i (add_node_item item item_hash) s' (λ m. refl) in
          rw (e, add_item) (w.0, w.1))
  ]

  store_items-views :
      (items : List (Item × String)) (i : ℕ) (s : Storage)
      → (views rules (store_items rules items i s).2 ≡ views rules s)
        × ((store_items rules items i s).2.current_id ≡ s.current_id)
  unfolding store_items
  store_items-views [] i s = (refl, refl)
  store_items-views ((item, item_hash) ∷ rest) i s =
      let s' : Storage = (add_item item item_hash i s).1 in
      let one = add_item-views item item_hash i s in
      let more = store_items-views rest i s' in
      elim (Bool-cases (add_item item item_hash i s).0) [
        | inl stored ↦ simp stored (more.0 ∙ one.0, more.1 ∙ one.1)
        | inr refused ↦ simp refused one
      ]

  ready-view :
      (ls : List Link) (m : Node) → view rules (update_state (set_links ls m)) ≡ view rules m
  unfolding update_state set_links get_full_url
  ready-view ls m = elim (Option-cases m.ready) [ inl e ↦ simp e | inr (b, e) ↦ simp e ]

  on_transformation_completed-Inv :
      (n : Node) (links : List Link) (items : List (Item × String)) (p : StorageStage)
      → Inv rules p
      → Inv rules (on_transformation_completed rules n links items p).2
  unfolding on_transformation_completed
  on_transformation_completed-Inv n links items p v =
      let stored = store_items rules items n.id p.storage in
      let kept = store_items-views items n.id p.storage in
      let written =
        update_node-views n.id (λ m. update_state (set_links links m))
          (add_links rules links n.domain.base_url stored.2) (ready-view links) in
      elim (Bool-cases stored.0) [
        | inl finished ↦ simp finished (storage-Inv p _ v (written.0 ∙ kept.0) (written.1 ∙ kept.1))
        | inr stopped ↦ simp stopped (storage-Inv p stored.2 v kept.0 kept.1)
      ]

  on_priority_calculated-Inv :
      (parent : Node) (links : List Candidate) (p : StorageStage)
      → Inv rules p
      → StoredAt rules parent p.storage
      → Inv rules (on_priority_calculated rules parent links p).2
  unfolding on_priority_calculated
  on_priority_calculated-Inv parent links p v at =
      let (v', seeded) = seed_admitted-Inv rules p v in
      let q : StorageStage = seed_admitted rules p in
      elim (Bool-cases (too_deep p.max_depth parent.depth)) [
        | inl deep ↦ simp deep v'
        | inr ok ↦ simp ok (
            (admit_links-Inv rules parent links q v' seeded
              (subst (λ s. StoredAt rules parent s) (sym (seed-storage rules p).0) at)
              (subst (λ d. too_deep d parent.depth ≡ false) (sym (seed-storage rules p).1) ok)).0)
      ]

  content-view : (content : String) (m : Node) → view rules (set_content content m) ≡ view rules m
  unfolding set_content get_full_url
  content-view content m = refl

  handle_node-Inv :
      (e : StageInput) (n : Node) (p : StorageStage)
      → Inv rules p
      → StoredAt rules n p.storage
      → Inv rules (handle_node rules e n p).2
  unfolding handle_node on_page_fetched
  handle_node-Inv (priority_calculated i links) n p v at = on_priority_calculated-Inv n links p v at
  handle_node-Inv (transformation_completed i links items) n p v at =
      on_transformation_completed-Inv n links items p v
  handle_node-Inv (page_fetched i content) n p v at =
      let w =
        update_node-views n.id (set_content content) p.storage (λ m. content-view content m) in
      storage-Inv p _ v w.0 w.1

  -- Each event keeps the stored nodes a graph grown from the seeds, the id counter at their number,
  -- and the set of admitted URLs equal to the nodes' URLs.
  pub process-Inv :
      (e : StageInput) (p : StorageStage) → Inv rules p → Inv rules (process rules e p).1
  unfolding process
  process-Inv e p v = elim (Option-cases (get_elem? p.storage.nodes (node_of rules e))) [
    | inl missing ↦ rw (missing, process) v
    | inr (n, found) ↦
        (let at = get_elem?-map (view rules) p.storage.nodes (node_of rules e) found in
          let id = Grown-id (node_of rules e) v.grown at in
          rw (found, process)
            (handle_node-Inv e n p v
              (subst (λ i. get_elem? (views rules p.storage) i ≡ some (view rules n)) (sym id) at)))
  ]

  pub run-Inv : (es : List StageInput) (p : StorageStage) → Inv rules p → Inv rules (run rules p es)
  unfolding run
  run-Inv [] p v = v
  run-Inv (e ∷ es) p v = run-Inv es (process rules e p).1 (process-Inv e p v)

  -- No event changes the depth limit.
  max_depth-admit_links :
      (parent : Node) (cs : List Candidate) (p : StorageStage)
      → (admit_links rules parent cs p).1.max_depth ≡ p.max_depth
  unfolding admit_links admit_one
  max_depth-admit_links parent [] p = refl
  max_depth-admit_links parent (c ∷ cs) p =
      ground (arith, max_depth-admit_links parent cs (admit_one rules parent c p).1)

  max_depth-handle_node :
      (e : StageInput) (n : Node) (p : StorageStage)
      → (handle_node rules e n p).2.max_depth ≡ p.max_depth
  unfolding handle_node on_page_fetched on_priority_calculated on_transformation_completed
  max_depth-handle_node (priority_calculated i links) n p =
      ground (arith, max_depth-admit_links n links (seed_admitted rules p))
  max_depth-handle_node (transformation_completed i links items) n p =
      elim (Bool-cases (store_items rules items n.id p.storage).0) [
        | inl finished ↦ simp finished
        | inr stopped ↦ simp stopped
      ]
  max_depth-handle_node (page_fetched i content) n p = refl

  max_depth-process :
      (e : StageInput) (p : StorageStage) → (process rules e p).1.max_depth ≡ p.max_depth
  unfolding process
  max_depth-process e p = elim (Option-cases (get_elem? p.storage.nodes (node_of rules e))) [
    | inl missing ↦ rw (missing, process)
    | inr (n, found) ↦ rw (found, process) (max_depth-handle_node e n p)
  ]

  pub max_depth-run :
      (es : List StageInput) (p : StorageStage) → (run rules p es).max_depth ≡ p.max_depth
  unfolding run
  max_depth-run [] p = refl
  max_depth-run (e ∷ es) p = max_depth-run es (process rules e p).1 ∙ max_depth-process e p
