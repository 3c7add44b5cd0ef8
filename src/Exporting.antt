-- ===== src/Exporting.antt =====
-- pipelines/exporting_pipeline.py: the items of a page as rows of a database.
-- sqlite3 is the parameter `Connection`; `none` is a statement that raises. `json.dumps`, `float` and `int` are in
-- `cast`, `json.loads` and `str.replace` in `Texts`. The migration of an old table belongs to
-- `create_table`; `rollback` gets the database as it was when the flush began. The commits of `worker` and
-- `_finalize` that follow the one of a flush have nothing to do, and are left out.
pub mod Columns
pub mod Written
mod Examples
use Prim.Native.String.{◌++◌ as ◌+++◌}
use crawl_viz.Base.{
  ◌>>=◌, ℕ, ◌+◌, String, Bool, true, false, Option, none, some, List, [], ◌∷◌, ◌++◌, length, leb,
  ◌==◌, map, str_eq, if◌then◌else◌,
}
use crawl_viz.Base.Texts.{Dict, contains, lookup, insert}
use crawl_viz.Models.{UrlRules, Node, Value, absent, text, texts, Item, get_full_url}

-- A column's value, `none` for NULL, and the columns of a row in order.
abbrev pub Row : Type 0
Row = Dict (Option String)

pub record Connection (Db : Type 0) : Type 0 where
  pub begin : Db → Option Db
  pub commit : Db → Option Db
  pub rollback : Db → Db
  pub create_table : String → List (String × String) → Db → Option Db
  pub insert_or_replace : String → Row → Db → Option Db

pub record Texts : Type 0 where
  -- `.replace("https://", "").replace(".", "_")`
  pub slug : String → String
  -- A field's value as the type says, `none` where the conversion raises.
  pub cast : String → Value → Option String
  -- `json.loads` of a text, `none` where it raises.
  pub loads : String → Option Value

-- One buffered row: its table, its node, the normalized item and the item's hash.
pub record Pending : Type 0 where
  pub table : String
  pub node : Node
  pub item : Item
  pub item_hash : String

pub record ExportingPipeline : Type 0 where
  pub crawl_id : String
  pub blueprint_id : String
  pub batch_size : ℕ
  pub fields : Dict String

-- `_initialized_tables` and `_buffer`.
pub record ExportState : Type 0 where
  pub initialized_tables : List String
  pub buffer : List Pending

-- `spec.get("export_type", "text")` is the field's entry. `_map_type`.
pub map_type : String → String
map_type t = if str_eq t "real" then "REAL" else if str_eq t "int" then "INTEGER" else "TEXT"

abbrev pub key_columns : List (String × String)
key_columns = ("id", "TEXT") ∷ ("crawl_id", "TEXT") ∷ ("url", "TEXT") ∷ ("created_at", "TEXT") ∷ []

pub columns_of : Dict String → List (String × String)
unfolding map_type
columns_of fields = key_columns ++ map (λ f. (f.0, map_type f.1)) fields

module _ (texts_of : Texts) where
  pub get_table_name : ExportingPipeline → Node → String
  get_table_name p node = texts_of.slug node.domain.base_url +++ "_" +++ p.blueprint_id

  -- A text in a json field is parsed if it can be.
  pub normalize_value : String → Value → Value
  normalize_value t (text s) =
      if str_eq t "json" then elim (texts_of.loads s) [ none ↦ text s | some v ↦ v ] else text s
  normalize_value t v = v

  pub normalize_item : Dict String → Item → Item
  unfolding normalize_value
  normalize_item fields [] = []
  normalize_item fields ((k, v) ∷ item) =
      let rest = normalize_item fields item in
      elim (lookup k fields) [ none ↦ rest | some t ↦ (k, normalize_value t v) ∷ rest ]

  pub cast : String → Value → Option String
  cast t absent = none
  cast t (text s) = texts_of.cast t (text s)
  cast t (texts ts) = texts_of.cast t (texts ts)

  pub add_fields : Dict String → Item → Row → Row
  unfolding cast
  add_fields fields [] row = row
  add_fields fields ((k, v) ∷ item) row =
      add_fields fields item
        (elim (lookup k fields) [ none ↦ row | some t ↦ insert k (cast t v) row ])

  -- The row of `_insert_row`; `now` is the time's text.
  pub row_of : UrlRules → String → ExportingPipeline → Pending → Row
  unfolding add_fields
  row_of rules now p b = add_fields p.fields b.item (
      ("id", some b.item_hash)
      ∷ ("crawl_id", some p.crawl_id)
      ∷ ("url", some (get_full_url rules b.node))
      ∷ ("created_at", some now)
      ∷ [])

  module _ {Db : Type 0} (connection : Connection Db) (rules : UrlRules) (now : String)
      (p : ExportingPipeline) where
    pub insert_rows : List Pending → Db → Option Db
    unfolding row_of
    insert_rows [] db = some db
    insert_rows (b ∷ bs) db = do
      db' ← connection.insert_or_replace b.table (row_of rules now p b) db
      insert_rows bs db'

    -- The body of the `try` of a flush.
    pub write_buffer : List Pending → Db → Option Db
    unfolding insert_rows
    write_buffer bs db = do
      db' ← connection.begin db
      db'' ← insert_rows bs db'
      connection.commit db''

    -- `_flush` and `_flush_with_events`: whether the batch was written, the pipeline and the database.
    pub flush : ExportState → Db → Bool × ExportState × Db
    unfolding write_buffer
    flush st db =
        if length st.buffer == 0 then (false, st, db) else elim (write_buffer st.buffer db) [
          | none ↦ (false, record st { buffer = [] }, connection.rollback db)
          | some db' ↦ (true, record st { buffer = [] }, db')
        ]

    pub ensure_table : String → ExportState → Db → Option (ExportState × Db)
    unfolding columns_of
    ensure_table table st db = if contains st.initialized_tables table then some (st, db) else (do
      db' ← connection.create_table table (columns_of p.fields) db
      some (record st { initialized_tables = table ∷ st.initialized_tables }, db'))

    pub buffered : String → Node → List (Item × String) → List Pending
    unfolding normalize_item
    buffered table node [] = []
    buffered table node ((item, item_hash) ∷ items) =
        record {
          table = table;
          node = node;
          item = normalize_item p.fields item;
          item_hash = item_hash;
        }
        ∷ buffered table node items

    pub flush_if_full : ExportState → Db → ExportState × Db
    unfolding flush
    flush_if_full st db =
        let (written, st', db') = flush st db in
        if leb p.batch_size (length st.buffer) then (st', db') else (st, db)

    -- The turn of an event; an exception is logged, and the event's items are dropped.
    pub export_items : Node → List (Item × String) → ExportState → Db → ExportState × Db
    unfolding get_table_name ensure_table buffered flush_if_full
    export_items node items st db = elim (ensure_table (get_table_name p node) st db) [
      | none ↦ (st, db)
      | some (st', db') ↦
          flush_if_full
            (record st' { buffer = st'.buffer ++ buffered (get_table_name p node) node items }) db'
    ]

    -- The worker: `none` in the queue is SHUTDOWN. However it ends, the rest of the buffer is flushed.
    pub worker : List (Option (Node × List (Item × String))) → ExportState → Db → ExportState × Db
    unfolding export_items flush
    worker [] st db = let (written, st', db') = flush st db in (st', db')
    worker (none ∷ queue) st db = let (written, st', db') = flush st db in (st', db')
    worker (some (node, items) ∷ queue) st db =
        let (st', db') = export_items node items st db in worker queue st' db'
