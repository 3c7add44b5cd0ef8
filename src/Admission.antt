-- ===== src/Admission.antt =====
-- pipelines/storage_pipeline.py and core/boot_strapper.py: how nodes enter the crawl graph.
-- An event names its node by id, the position of the shared object in `Storage.nodes`; a reference
-- to no stored node, which no stage emits, is skipped. A handler returns whether it ran to its
-- end (`false`: an exception left it), the events that it emitted, and the stage after it.
pub mod Growth
pub mod Graph
pub mod Preserve
pub mod Crawl
pub mod Stores
pub mod Handlers
mod Examples
use crawl_viz.Base.{
  ℕ, zero, suc, ◌+◌, String, Bool, true, false, Option, none, some, List, [], ◌∷◌, ◌++◌, map,
  if◌then◌else◌, ltb, length,
}
use crawl_viz.Base.Int.{ℤ}
use crawl_viz.Base.Texts.{contains, Dict}
use crawl_viz.Models.{
  UrlRules, Link, Domain, Item, Node, seed_node, child_node, get_full_url, set_content, set_links,
  update_state,
}
use crawl_viz.Models.Storage.{
  Storage, get_node, update_node, add_domain, get_domain, next_id, add_node, add_text, add_item,
  add_links, new_storage,
}

-- One entry of `PriorityCalculatedEvent.links`.
pub record Candidate : Type 0 where
  pub link : Link
  pub score : ℕ
  pub priority : ℤ

pub data StageInput : Type 0 where
  priority_calculated : ℕ → List Candidate → StageInput
  transformation_completed : ℕ → List Link → List (Item × String) → StageInput
  page_fetched : ℕ → String → StageInput

pub data StageEvent : Type 0 where
  node_created : ℕ → ℕ → String → ℕ → ℤ → StageEvent
  storage_node_added : ℕ → StageEvent
  node_added : ℕ → StageEvent
  item_stored : ℕ → String → StageEvent
  link_stored : ℕ → ℕ → StageEvent
  node_updated : ℕ → List Link → List (Item × String) → StageEvent
  content_set : ℕ → String → StageEvent
  operation_failed : StageEvent

pub record StorageStage : Type 0 where
  pub storage : Storage
  pub admitted_urls : List String
  pub seeded_admitted : Bool
  pub max_depth : Option ℕ

pub new_stage : Storage → Option ℕ → StorageStage
new_stage storage max_depth = record {
  storage = storage;
  admitted_urls = [];
  seeded_admitted = false;
  max_depth = max_depth;
}

-- `self.max_depth is not None and parent.get_depth() + 1 > self.max_depth`
pub too_deep : Option ℕ → ℕ → Bool
too_deep none depth = false
too_deep (some limit) depth = ltb limit (depth + 1)

module _ (rules : UrlRules) where
  -- `_admitted_urls.update(n.get_full_url() for n in nodes)`
  pub add_all : List Node → List String → List String
  unfolding add_text get_full_url
  add_all [] us = us
  add_all (n ∷ ns) us = add_all ns (add_text (get_full_url rules n) us)

  pub seed_admitted : StorageStage → StorageStage
  unfolding add_all
  seed_admitted p = if p.seeded_admitted then p else record p {
    admitted_urls = add_all p.storage.nodes p.admitted_urls;
    seeded_admitted = true;
  }

  -- The body of the loop for a URL that is not admitted yet: a fresh id, the node, its storing.
  pub store_child : String → Node → Candidate → StorageStage → List StageEvent × StorageStage
  unfolding next_id child_node add_node add_text get_full_url
  store_child url parent c p =
      let (node_id, s) = next_id p.storage in
      let node : Node = child_node node_id c.link (some c.score) c.priority parent in
      (
        node_created node_id parent.id (get_full_url rules node) c.score c.priority
            ∷ storage_node_added node_id
            ∷ node_added node_id
            ∷ [],
        record p { storage = add_node rules node s; admitted_urls = add_text url p.admitted_urls },
      )

  pub admit_one : Node → Candidate → StorageStage → List StageEvent × StorageStage
  unfolding store_child
  admit_one parent c p =
      let url : String = rules.build_url parent.domain.base_url c.link.url in
      if contains p.admitted_urls url then ([], p) else store_child url parent c p

  pub admit_links : Node → List Candidate → StorageStage → List StageEvent × StorageStage
  admit_links parent [] p = ([], p)
  admit_links parent (c ∷ cs) p =
      let (es, p') = admit_one parent c p in
      let (fs, p'') = admit_links parent cs p' in (es ++ fs, p'')

  pub on_priority_calculated :
      Node → List Candidate → StorageStage → Bool × List StageEvent × StorageStage
  unfolding seed_admitted too_deep
  on_priority_calculated parent links p =
      let p' : StorageStage = seed_admitted p in
      let (es, p'') = admit_links parent links p' in
      if too_deep p.max_depth parent.depth then (true, [], p') else (true, es, p'')

  -- The loop over the items stops at the first that `Storage.add_item` refuses.
  pub store_items : List (Item × String) → ℕ → Storage → Bool × List StageEvent × Storage
  unfolding add_item
  store_items [] node_id s = (true, [], s)
  store_items ((item, item_hash) ∷ rest) node_id s =
      let (stored, s') = add_item item item_hash node_id s in
      let (finished, es, s'') = store_items rest node_id s' in
      if stored then (finished, item_stored node_id item_hash ∷ es, s'') else (false, [], s')

  pub on_transformation_completed :
      Node → List Link → List (Item × String) → StorageStage → Bool × List StageEvent × StorageStage
  unfolding store_items add_links update_node set_links update_state
  on_transformation_completed node links items p =
      let (finished, es, s) = store_items items node.id p.storage in
      let linked : Storage = add_links rules links node.domain.base_url s in
      if finished
      then (
        true,
        es ++ (link_stored node.id (length links) ∷ node_updated node.id links items ∷ []),
        record p { storage = update_node node.id (λ n. update_state (set_links links n)) linked },
      )
      else (false, es, record p { storage = s })

  pub on_page_fetched : Node → String → StorageStage → Bool × List StageEvent × StorageStage
  unfolding update_node set_content
  on_page_fetched node content p = (
    true,
    content_set node.id content ∷ [],
    record p { storage = update_node node.id (set_content content) p.storage },
  )

  pub handle_node : StageInput → Node → StorageStage → Bool × List StageEvent × StorageStage
  handle_node (priority_calculated i links) n p = on_priority_calculated n links p
  handle_node (transformation_completed i links items) n p =
      on_transformation_completed n links items p
  handle_node (page_fetched i content) n p = on_page_fetched n content p

  abbrev pub node_of : StageInput → ℕ
  node_of (priority_calculated i links) = i
  node_of (transformation_completed i links items) = i
  node_of (page_fetched i content) = i

  -- `_process`: an exception of the handler becomes one more event.
  pub process : StageInput → StorageStage → List StageEvent × StorageStage
  unfolding handle_node get_node
  process e p = elim (get_node (node_of e) p.storage) [
    | none ↦ ([], p)
    | some n ↦
        (let (finished, es, p') = handle_node e n p in
          (if finished then es else es ++ operation_failed ∷ [], p'))
  ]

  pub run : StorageStage → List StageInput → StorageStage
  run p [] = p
  run p (e ∷ es) = run (process e p).1 es

  -- `BootStrapper.inject_domains` over the blueprint's (name, base_url, link_selector) entries.
  pub inject_domains : List Domain → Storage → Storage
  unfolding add_domain
  inject_domains [] s = s
  inject_domains (d ∷ ds) s = inject_domains ds (add_domain d s)

  -- `BootStrapper.inject_seeds` over (url, domain) pairs: the nodes that were announced, the
  -- storage, and whether every seed's domain was known (a KeyError ends the crawl otherwise).
  pub inject_seeds : List (String × String) → Storage → Bool × List StageEvent × Storage
  unfolding next_id get_domain seed_node add_node
  inject_seeds [] s = (true, [], s)
  inject_seeds ((url, domain) ∷ rest) s =
      let (node_id, s') = next_id s in
      elim (get_domain domain s') [
        | none ↦ (false, [], s')
        | some d ↦
            (let (finished, es, s'') =
                inject_seeds rest (add_node rules (seed_node rules node_id url d) s') in
              (finished, node_added node_id ∷ es, s''))
      ]
