-- ===== src/Exporting/Examples.antt =====
-- A page exported three times to a database of tables with keys.
use crawl_viz.Base.{
  true, if◌then◌else◌, arith, eq_iff, ◌≡◌, refl, String, Option, none, some, List, [], ◌∷◌, ◌++◌,
  length,
}
use crawl_viz.Base.Texts.{contains, lookup, insert}
use crawl_viz.Models.{get_full_url, UrlRules, Node, seed_node, text, Item}
use crawl_viz.Exporting.{
  Texts, Connection, ExportingPipeline, ExportState, worker, export_items, flush, flush_if_full,
  ensure_table, buffered, normalize_item, normalize_value, get_table_name, write_buffer,
  insert_rows, row_of, add_fields, cast,
}
use crawl_viz.Exporting.Written.{Stored, upsert, upserts, Works, rows_of, exported, worker-rows}

abbrev plain : Texts
plain = record { slug = λ s. s; cast = λ t v. some t; loads = λ s. none }

-- A database is its tables and their rows; an insert without its table raises.
abbrev Tables : Type 0
Tables = List String × List Stored

abbrev database : Connection Tables
database = record {
  begin = λ d. some d;
  commit = λ d. some d;
  rollback = λ d. d;
  create_table = λ table columns d. some (table ∷ d.0, d.1);
  insert_or_replace =
      λ table row d. if contains d.0 table then some (d.0, upsert d.1 (table, row)) else none;
}

abbrev HasTable : String → Tables → Type 0
HasTable t d = contains d.0 t ≡ true

abbrev rules : UrlRules
rules = record { build_url = λ base path. path; normalize_url = λ u. u }

page : Node
unfolding seed_node
page = seed_node rules 0 "/a" (record { name = "site"; base_url = "site"; link_selector = "//a" })

abbrev pipeline : ExportingPipeline
pipeline = record {
  crawl_id = "c1";
  blueprint_id = "b1";
  batch_size = 2;
  fields = ("title", "text") ∷ ("price", "real") ∷ [];
}

database-Works : Works plain database rules "now" pipeline (λ d. d.1) HasTable
database-Works = record {
  begins = λ d. (d, refl, refl, λ t h. h);
  commits = λ d. (d, refl, refl, λ t h. h);
  creates = λ table d. (
    (table ∷ d.0, d.1),
    refl,
    refl,
    (λ t h. ground (arith, h)),
    ground (arith, eq_iff table table),
  );
  inserts = λ b d h.
      ((d.0, upsert d.1 (b.table, row_of plain rules "now" pipeline b)), rw h refl, refl, λ t k. k);
}

abbrev new_state : ExportState
new_state = record { initialized_tables = []; buffer = [] }

abbrev items : List (Item × String)
items = ((("title", text "ants") ∷ ("other", text "x") ∷ []), "h1") ∷ []

abbrev queue : List (Option (Node × List (Item × String)))
queue =
    some (page, items) ∷ some (page, items) ∷ some (page, items) ∷ none ∷ some (page, items) ∷ []

one_row : length (worker plain database rules "now" pipeline queue new_state ([], [])).1.1 ≡ 1
unfolding worker export_items flush flush_if_full ensure_table buffered normalize_item
    normalize_value get_table_name write_buffer insert_rows lookup page row_of add_fields cast
    insert get_full_url
one_row = refl

worker-rows_example :
    let (st', d') = worker plain database rules "now" pipeline queue new_state ([], []) in
    (d'.1
      ≡ upserts [] (
          rows_of plain database rules "now" pipeline []
          ++ exported plain database rules "now" pipeline queue))
    × (st'.buffer ≡ [])
worker-rows_example =
    worker-rows plain database rules "now" pipeline (λ d. d.1) HasTable database-Works queue
      new_state ([], []) (tt, tt)
