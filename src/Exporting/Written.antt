-- ===== src/Exporting/Written.antt =====
-- What the worker has written when it ends.
use crawl_viz.Base.{
  ◌==◌, leb, ◌≡◌, refl, ap, sym, subst, ◌∙◌, String, Bool, true, false, not, ◌&&◌, Option, none,
  some, List, [], ◌∷◌, ◌++◌, keep, map, length, All, All-append, All-imp, Bool-cases, inl, inr,
  arith, str_eq, eq_iff,
}
use crawl_viz.Base.Texts.{contains, lookup}
use crawl_viz.Models.{UrlRules, Node, Item}
use crawl_viz.Exporting.{
  Row, Texts, Connection, Pending, ExportingPipeline, ExportState, columns_of, row_of, insert_rows,
  write_buffer, flush, ensure_table, buffered, flush_if_full, export_items, get_table_name, worker,
}

-- A row with its table.
abbrev pub Stored : Type 0
Stored = String × Row

-- Two cells of a key column; NULL is like no other.
abbrev pub same_cell : Option (Option String) → Option (Option String) → Bool
same_cell none b = false
same_cell (some none) b = false
same_cell (some (some s)) none = false
same_cell (some (some s)) (some none) = false
same_cell (some (some s)) (some (some t)) = str_eq s t

-- The primary key is (crawl_id, id).
abbrev pub same_key : Stored → Stored → Bool
same_key (t, r) (t', r') =
    str_eq t t'
    && same_cell (lookup "crawl_id" r) (lookup "crawl_id" r')
    && same_cell (lookup "id" r) (lookup "id" r')

-- INSERT OR REPLACE: a row with the same key goes, and the new one stands last.
abbrev pub upsert : List Stored → Stored → List Stored
upsert rows new = keep (λ r. not (same_key new r)) rows ++ new ∷ []

abbrev pub upserts : List Stored → List Stored → List Stored
upserts rows [] = rows
upserts rows (r ∷ rs) = upserts (upsert rows r) rs

upserts-append : (rows rs ss : List Stored) → upserts rows (rs ++ ss) ≡ upserts (upserts rows rs) ss
upserts-append rows [] ss = refl
upserts-append rows (r ∷ rs) ss = upserts-append (upsert rows r) rs ss

length-zero : {A : Type 0} (xs : List A) → (length xs == 0) ≡ true → xs ≡ []
length-zero [] h = refl
length-zero (x ∷ xs) h = ground (arith, h)

-- No statement of this pipeline raises, and a database is seen as its rows, in the order in which they were written,
-- and by which tables it has: an insert needs its table.
pub record Works {Db : Type 0} (texts_of : Texts) (connection : Connection Db) (rules : UrlRules)
    (now : String) (p : ExportingPipeline) (rows : Db → List Stored)
    (HasTable : String → Db → Type 0) : Type 0 where
  pub begins :
      (d : Db)
      → (d' : Db) × (connection.begin d ≡ some d')
        × (rows d' ≡ rows d)
        × ((t : String) → HasTable t d → HasTable t d')
  pub commits :
      (d : Db)
      → (d' : Db) × (connection.commit d ≡ some d')
        × (rows d' ≡ rows d)
        × ((t : String) → HasTable t d → HasTable t d')
  pub creates :
      (table : String) (d : Db)
      → (d' : Db) × (connection.create_table table (columns_of p.fields) d ≡ some d')
        × (rows d' ≡ rows d)
        × ((t : String) → HasTable t d → HasTable t d')
        × HasTable table d'
  pub inserts :
      (b : Pending) (d : Db)
      → HasTable b.table d
      → (d' : Db) × (connection.insert_or_replace b.table (row_of texts_of rules now p b) d
          ≡ some d')
        × (rows d' ≡ upsert (rows d) (b.table, row_of texts_of rules now p b))
        × ((t : String) → HasTable t d → HasTable t d')

module _ (texts_of : Texts) {Db : Type 0} (connection : Connection Db) (rules : UrlRules)
    (now : String) (p : ExportingPipeline) where
  abbrev pub rows_of : List Pending → List Stored
  rows_of = map (λ b. (b.table, row_of texts_of rules now p b))

  -- The rows of the pages that the worker takes, those before the first SHUTDOWN.
  abbrev pub exported : List (Option (Node × List (Item × String))) → List Stored
  exported [] = []
  exported (none ∷ queue) = []
  exported (some (node, items) ∷ queue) =
      rows_of (buffered texts_of connection rules now p (get_table_name texts_of p node) node items)
      ++ exported queue

  rows_of-append : (cs bs : List Pending) → rows_of (cs ++ bs) ≡ rows_of cs ++ rows_of bs
  rows_of-append [] bs = refl
  rows_of-append (a ∷ cs) bs =
      ap (λ rs. (a.table, row_of texts_of rules now p a) ∷ rs) (rows_of-append cs bs)

  module _ (rows : Db → List Stored) (HasTable : String → Db → Type 0)
      (works : Works texts_of connection rules now p rows HasTable) where
    abbrev HasTables : Db → List Pending → Type 0
    HasTables d = All (λ b. HasTable b.table d)

    abbrev Keeps : Db → Db → Type 0
    Keeps d d' = (t : String) → HasTable t d → HasTable t d'

    -- The tables that the pipeline takes for created are there, and so are those of its buffer.
    abbrev pub IsPrepared : ExportState × Db → Type 0
    IsPrepared (st, d) =
        All (λ t. HasTable t d) st.initialized_tables × All (λ b. HasTable b.table d) st.buffer

    HasTables-kept : (d d' : Db) (bs : List Pending) → Keeps d d' → HasTables d bs → HasTables d' bs
    HasTables-kept d d' bs k =
        All-imp (λ b. HasTable b.table d) (λ b. HasTable b.table d') bs (λ b. k b.table)

    IsPrepared-kept :
        (st : ExportState) (d d' : Db) → Keeps d d' → IsPrepared (st, d) → IsPrepared (st, d')
    IsPrepared-kept st d d' k (tables, buffer) = (
      All-imp (λ t. HasTable t d) (λ t. HasTable t d') st.initialized_tables k tables,
      HasTables-kept d d' st.buffer k buffer,
    )

    HasTable-contains :
        (d : Db) (ts : List String) (t : String)
        → All (λ u. HasTable u d) ts
        → contains ts t ≡ true
        → HasTable t d
    HasTable-contains d [] t h c = cc
    HasTable-contains d (u ∷ ts) t h c = elim (Bool-cases (str_eq u t)) [
      | inl same ↦ subst (λ v. HasTable v d) ((eq_iff u t).0 same) h.0
      | inr other ↦ HasTable-contains d ts t h.1 (ground (arith, c, other))
    ]

    HasTables-buffered :
        (d : Db) (table : String) (node : Node) (items : List (Item × String))
        → HasTable table d
        → HasTables d (buffered texts_of connection rules now p table node items)
    unfolding buffered
    HasTables-buffered d table node [] h = tt
    HasTables-buffered d table node ((item, item_hash) ∷ items) h =
        (h, HasTables-buffered d table node items h)

    insert_rows-rows :
        (bs : List Pending) (d : Db)
        → HasTables d bs
        → (d' : Db) × (insert_rows texts_of connection rules now p bs d ≡ some d')
          × (rows d' ≡ upserts (rows d) (rows_of bs))
          × Keeps d d'
    unfolding insert_rows
    insert_rows-rows [] d h = (d, refl, refl, λ t k. k)
    insert_rows-rows (b ∷ bs) d h =
        let (d1, one, row, kept) = works.inserts b d h.0 in
        let (d2, more, rest, kept') = insert_rows-rows bs d1 (HasTables-kept d d1 bs kept h.1) in
        (d2, rw one more, rest ∙ ap (λ rs. upserts rs (rows_of bs)) row, λ t k. kept' t (kept t k))

    write_buffer-rows :
        (bs : List Pending) (d : Db)
        → HasTables d bs
        → (d' : Db) × (write_buffer texts_of connection rules now p bs d ≡ some d')
          × (rows d' ≡ upserts (rows d) (rows_of bs))
          × Keeps d d'
    unfolding write_buffer
    write_buffer-rows bs d h =
        let (d1, begun, same, kept1) = works.begins d in
        let (d2, written, more, kept2) = insert_rows-rows bs d1 (HasTables-kept d d1 bs kept1 h) in
        let (d3, committed, unchanged, kept3) = works.commits d2 in
        (
          d3,
          rw (begun, written) committed,
          unchanged ∙ more ∙ ap (λ rs. upserts rs (rows_of bs)) same,
          λ t k. kept3 t (kept2 t (kept1 t k)),
        )

    flush-rows :
        (st : ExportState) (d : Db)
        → IsPrepared (st, d)
        → let (written, st', d') = flush texts_of connection rules now p st d in
          (rows d' ≡ upserts (rows d) (rows_of st.buffer))
          × (st'.buffer ≡ [])
          × IsPrepared (st', d')
    unfolding flush
    flush-rows st d h = elim (Bool-cases (length st.buffer == 0)) [
      | inl nothing ↦
          (let none_left = length-zero st.buffer nothing in
            rw nothing (ap (λ bs. upserts (rows d) (rows_of bs)) (sym none_left), none_left, h))
      | inr some_rows ↦
          (let (d', written, more, kept) = write_buffer-rows st.buffer d h.1 in
            rw (some_rows, written) (more, refl, ((IsPrepared-kept st d d' kept h).0, tt)))
    ]

    -- What is written and what is still buffered.
    abbrev held : ExportState × Db → List Stored
    held (st, d) = upserts (rows d) (rows_of st.buffer)

    flush_if_full-held :
        (st : ExportState) (d : Db)
        → IsPrepared (st, d)
        → (held (flush_if_full texts_of connection rules now p st d) ≡ held (st, d))
          × IsPrepared (flush_if_full texts_of connection rules now p st d)
    unfolding flush_if_full
    flush_if_full-held st d h = elim (Bool-cases (leb p.batch_size (length st.buffer))) [
      | inr room ↦ rw room (refl, h)
      | inl full ↦
          (let (written, nothing_left, ready) = flush-rows st d h in
            let (done, st', d') = flush texts_of connection rules now p st d in
            rw full (ap (λ bs. upserts (rows d') (rows_of bs)) nothing_left ∙ written, ready))
    ]

    ensure_table-held :
        (table : String) (st : ExportState) (d : Db)
        → IsPrepared (st, d)
        → (st' : ExportState) × (d' : Db) × (ensure_table texts_of connection rules now p table st d
            ≡ some (st', d'))
          × (st'.buffer ≡ st.buffer)
          × (rows d' ≡ rows d)
          × HasTable table d'
          × IsPrepared (st', d')
    unfolding ensure_table
    ensure_table-held table st d h = elim (Bool-cases (contains st.initialized_tables table)) [
      | inl known ↦ (
        st,
        d,
        rw known refl,
        refl,
        refl,
        HasTable-contains d st.initialized_tables table h.0 known,
        h,
      )
      | inr new ↦
          (let (d', created, same, kept, there) = works.creates table d in
            let (tables, buffer) = IsPrepared-kept st d d' kept h in
            (
              record st { initialized_tables = table ∷ st.initialized_tables },
              d',
              rw (new, created) refl,
              refl,
              same,
              there,
              ((there, tables), buffer),
            ))
    ]

    export_items-held :
        (node : Node) (items : List (Item × String)) (st : ExportState) (d : Db)
        → IsPrepared (st, d)
        → let new =
            buffered texts_of connection rules now p (get_table_name texts_of p node) node items in
          (held (export_items texts_of connection rules now p node items st d)
            ≡ upserts (held (st, d)) (rows_of new))
          × IsPrepared (export_items texts_of connection rules now p node items st d)
    unfolding export_items
    export_items-held node items st d h =
        let table = get_table_name texts_of p node in
        let new = buffered texts_of connection rules now p table node items in
        let (st1, d1, ensured, same, kept, there, (tables, buffer)) =
          ensure_table-held table st d h in
        let st2 : ExportState = record st1 { buffer = st1.buffer ++ new } in
        let (rest, ready) = flush_if_full-held st2 d1 (
          tables,
          All-append (λ b. HasTable b.table d1) st1.buffer new buffer
              (HasTables-buffered d1 table node items there),
        ) in
        rw (export_items, ensured)
          (
            rest
                ∙ ap (λ rs. upserts rs (rows_of (st1.buffer ++ new))) kept
                ∙ ap (λ bs. upserts (rows d) (rows_of (bs ++ new))) same
                ∙ ap (upserts (rows d)) (rows_of-append st.buffer new)
                ∙ upserts-append (rows d) (rows_of st.buffer) (rows_of new),
            ready,
          )

    -- While no statement raises, the tables hold when the worker ends what they held before, with what was buffered
    -- and each row of each page that it took put in, once and in order, where a row replaces the one of the same
    -- table, crawl and item; and the buffer is empty.
    pub worker-rows :
        (queue : List (Option (Node × List (Item × String)))) (st : ExportState) (d : Db)
        → IsPrepared (st, d)
        → let (st', d') = worker texts_of connection rules now p queue st d in
          (rows d' ≡ upserts (rows d) (rows_of st.buffer ++ exported queue)) × (st'.buffer ≡ [])
    unfolding worker
    worker-rows [] st d h =
        let (written, nothing_left, ready) = flush-rows st d h in
        (written ∙ sym (upserts-append (rows d) (rows_of st.buffer) []), nothing_left)
    worker-rows (none ∷ queue) st d h =
        let (written, nothing_left, ready) = flush-rows st d h in
        (written ∙ sym (upserts-append (rows d) (rows_of st.buffer) []), nothing_left)
    worker-rows (some (node, items) ∷ queue) st d h =
        let (st', d') = export_items texts_of connection rules now p node items st d in
        let new =
          rows_of (
            buffered texts_of connection rules now p (get_table_name texts_of p node) node items) in
        let (done, ready) = export_items-held node items st d h in
        let (written, nothing_left) = worker-rows queue st' d' ready in
        (
          written
              ∙ upserts-append (rows d') (rows_of st'.buffer) (exported queue)
              ∙ ap (λ rs. upserts rs (exported queue)) done
              ∙ sym (upserts-append (held (st, d)) new (exported queue))
              ∙ sym (upserts-append (rows d) (rows_of st.buffer) (new ++ exported queue)),
          nothing_left,
        )
