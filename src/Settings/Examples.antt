-- ===== src/Settings/Examples.antt =====
-- Runs of the settings store, and the theorems at concrete settings.
use crawl_viz.Base.{
  String, Bool, true, false, Option, none, some, List, [], ◌∷◌, ◌≡◌, ◌≢◌, refl, if◌then◌else◌,
  str_eq,
}
use crawl_viz.Settings.{
  Value, null, leaf, table, Fields, empty, field, get, deep_merge, diff, File, read_stored,
  reset_settings, load_runtime_config, is_whole, same, keys_in, add_field, unless_empty, is_empty,
  changed, or_null,
}
use crawl_viz.Settings.Readings.{read, is_null, SameReads, read-none}
use crawl_viz.Settings.Merge.{Covers, CoversDict}
use crawl_viz.Settings.Difference.{NoNewNull, deep_merge-diff}
use crawl_viz.Settings.Stored.{reset_settings-get}

abbrev with_depth : String → Fields
with_depth t = field "depth" (leaf t t) empty

-- A model with one field, a text.
abbrev check_depth : Option Value → Option Fields
check_depth none = none
check_depth (some null) = none
check_depth (some (leaf t t')) = some (with_depth t')
check_depth (some (table f)) = none

abbrev check : Fields → Option Fields
check y = check_depth (get "depth" y)

entry-Covers :
    (b : Bool) (s t : String)
    → Covers (if b then some (leaf s s) else none) (if b then some (leaf t t) else none)
entry-Covers true s t [] h e = cc
entry-Covers true s t (k ∷ rest) h e = h (read-none rest)
entry-Covers false s t rest h e = h (read-none rest)

depth-CoversDict : (s t : String) → CoversDict (with_depth s) (with_depth t)
unfolding get
depth-CoversDict s t [] h e = cc
depth-CoversDict s t (k ∷ ks) h e = entry-Covers (str_eq "depth" k) s t ks h e

reads_no_null :
    (b : Bool) (ks : List String) (t : String)
    → read ks (if b then some (leaf t t) else none) ≢ is_null
reads_no_null true [] t e = cc
reads_no_null true (k ∷ ks) t e = cc (e, read-none ks)
reads_no_null false ks t e = cc (e, read-none ks)

depth-NoNewNull :
    (s t : String) → NoNewNull (some (table (with_depth s))) (some (table (with_depth t)))
unfolding get
depth-NoNewNull s t [] e = cc
depth-NoNewNull s t (k ∷ ks) e = absurd (reads_no_null (str_eq "depth" k) ks t e)

abbrev stored_file : File
stored_file = some (table (with_depth "5"))

deep_merge-diff_example :
    SameReads
      (deep_merge (with_depth "3") (diff (with_depth "3") (with_depth "5")))
      (with_depth "5")
unfolding get
deep_merge-diff_example =
    deep_merge-diff (with_depth "3") (with_depth "5") (refl, tt, tt) (depth-CoversDict "3" "5")
      (depth-NoNewNull "3" "5")

reset_settings-get_example :
    let (result, file') = reset_settings (with_depth "3") check (some "depth") stored_file in
    (m : Fields) × (result ≡ check m)
    × (load_runtime_config (with_depth "3") check file' none ≡ check m)
    × ((k : String)
        → get k m ≡ (
            if str_eq "depth" k
            then get k (with_depth "3")
            else get k (deep_merge (with_depth "3") (read_stored stored_file))))
unfolding get read_stored
reset_settings-get_example =
    reset_settings-get (with_depth "3") check "depth" stored_file (refl, tt, tt)

-- Dicts are equal in any order; the dict of a key that is stored whole is written whole.
same_order :
    same
      (table (field "a" null (field "b" null empty)))
      (table (field "b" null (field "a" null empty)))
    ≡ true
unfolding same get keys_in
same_order = refl

whole_keys :
    (is_whole "balanced_weights" ≡ true)
    × (is_whole "endpoints" ≡ true)
    × (is_whole "crawl" ≡ false)
unfolding is_whole
whole_keys = (refl, refl, refl)

abbrev crawl_limits : Fields
crawl_limits =
    field "crawl" (table (field "depth" (leaf "3" "3") (field "nodes" (leaf "100" "100") empty)))
      empty

nested_diff :
    diff crawl_limits
      (field "crawl" (table (field "depth" (leaf "3" "3") (field "nodes" null empty))) empty)
    ≡ field "crawl" (table (field "nodes" null empty)) empty
unfolding diff add_field get is_whole unless_empty is_empty changed same or_null
nested_diff = refl

-- A float with an integer default is not stored when it is the default.
same_number : diff (field "wait" (leaf "5" "5") empty) (field "wait" (leaf "5.0" "5") empty) ≡ empty
unfolding diff add_field get changed same or_null
same_number = refl
