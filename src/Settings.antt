-- ===== src/Settings.antt =====
-- config/settings_store.py: the settings that a user changes, stored as a difference from the defaults.
-- A setting is a value of the JSON file: `null`, a dict, or a scalar or list `leaf written value`. `written` is its
-- JSON text; `value` is a text that two of them share exactly if Python's `==` holds between them, as it does
-- between 5 and 5.0, or 1 and true (a number by its value, in a list too). What
-- pydantic does to a complete config is the parameter `validate`, which gives its `model_dump`. The
-- settings file is its content, `none` when it is missing or no JSON object.
pub mod Readings
pub mod Merge
pub mod Difference
pub mod Stored
mod Examples
use Prim.Native.String.{slice, len}
use crawl_viz.Base.{
  ◌-◌, String, Bool, true, false, not, ◌&&◌, ◌||◌, Option, none, some, if◌then◌else◌, str_eq,
}

mutual
  pub data Value : Type 0 where
    null : Value
    leaf : String → String → Value
    table : Fields → Value

  pub data Fields : Type 0 where
    empty : Fields
    field : String → Value → Fields → Fields

-- `d.get(key)`, where a key that is missing is told from one that is null.
pub get : String → Fields → Option Value
get key empty = none
get key (field k v rest) = let found = get key rest in if str_eq k key then some v else found

-- `d[key] = v`
pub put : String → Value → Fields → Fields
put key v empty = field key v empty
put key v (field k w rest) =
    let d = put key v rest in if str_eq k key then field k v rest else field k w d

-- `d.pop(key, None)`
pub pop : String → Fields → Fields
pop key empty = empty
pop key (field k v rest) = let d = pop key rest in if str_eq k key then d else field k v d

pub is_empty : Fields → Bool
is_empty empty = true
is_empty (field k v rest) = false

unfoldable pub has : Fields → String → Bool
unfolding get
has d key = elim (get key d) [ none ↦ false | some v ↦ true ]

pub keys_in : Fields → Fields → Bool
unfolding has
keys_in empty f = true
keys_in (field k v rest) f = has f k && keys_in rest f

-- Python's `==` on values: two dicts are equal when they have the same keys with equal values.
mutual
  pub same : Value → Value → Bool
  same null null = true
  same null (leaf t t') = false
  same null (table f) = false
  same (leaf s s') null = false
  same (leaf s s') (leaf t t') = str_eq s' t'
  same (leaf s s') (table f) = false
  same (table f) null = false
  same (table f) (leaf t t') = false
  same (table f) (table g) = same_in f g && keys_in g f

  pub same_in : Fields → Fields → Bool
  same_in empty g = true
  same_in (field k v rest) g =
      let others = same_in rest g in elim (get k g) [ none ↦ false | some w ↦ same v w && others ]

mutual
  -- `over` is put into `base` entry by entry; two dicts at the same key are merged.
  pub deep_merge : Fields → Fields → Fields
  deep_merge base empty = base
  deep_merge base (field k v rest) = deep_merge (put k (merge_value (get k base) v) base) rest

  pub merge_value : Option Value → Value → Value
  merge_value none v = v
  merge_value (some null) v = v
  merge_value (some (leaf s s')) v = v
  merge_value (some (table f)) null = null
  merge_value (some (table f)) (leaf t t') = leaf t t'
  merge_value (some (table f)) (table g) = table (deep_merge f g)

pub ends_with : String → String → Bool
ends_with s t = str_eq (slice s (len s - len t) (len s)) t

-- The keys whose dict is stored whole.
pub is_whole : String → Bool
unfolding ends_with
is_whole key =
    str_eq key "extra_headers"
    || ends_with key "_weights"
    || str_eq key "strategy_contexts"
    || str_eq key "endpoints"

-- `base.get(key)`
pub or_null : Option Value → Value
or_null none = null
or_null (some v) = v

-- `elif base.get(key) != value: out[key] = value`
pub changed : Option Value → Value → Option Value
changed old v = if same (or_null old) v then none else some v

-- `if sub: out[key] = sub`
pub unless_empty : Fields → Option Value
unless_empty sub = if is_empty sub then none else some (table sub)

pub add_field : String → Option Value → Fields → Fields
add_field key none out = out
add_field key (some v) out = field key v out

mutual
  -- The entries of `new` have distinct keys: each that is written stands behind those before it.
  pub diff : Fields → Fields → Fields
  diff base empty = empty
  diff base (field k v rest) = add_field k (diff_value k (get k base) v) (diff base rest)

  pub diff_value : String → Option Value → Value → Option Value
  diff_value k none v = changed none v
  diff_value k (some null) v = changed (some null) v
  diff_value k (some (leaf s s')) v = changed (some (leaf s s')) v
  diff_value k (some (table f)) null = changed (some (table f)) null
  diff_value k (some (table f)) (leaf t t') = changed (some (table f)) (leaf t t')
  diff_value k (some (table f)) (table g) =
      let sub = diff f g in
      if is_whole k then changed (some (table f)) (table g) else unless_empty sub

-- The content of the settings file.
abbrev pub File : Type 0
File = Option Value

-- The raw stored overrides: none of them when the file is missing or holds no object.
pub read_stored : File → Fields
read_stored none = empty
read_stored (some null) = empty
read_stored (some (leaf s s')) = empty
read_stored (some (table f)) = f

module _ (defaults : Fields) (validate : Fields → Option Fields) where
  -- `none` is a ValidationError.
  pub load_runtime_config : File → Option Fields → Option Fields
  unfolding deep_merge read_stored is_empty
  load_runtime_config file none = validate (deep_merge defaults (read_stored file))
  load_runtime_config file (some overrides) =
      let merged = deep_merge defaults (read_stored file) in
      validate (if is_empty overrides then merged else deep_merge merged overrides)

  -- The end of a save: the difference is written only if the config is valid.
  pub persist : Option Fields → File → Option Fields × File
  unfolding diff
  persist none file = (none, file)
  persist (some cfg) file = (some cfg, some (table (diff defaults cfg)))

  pub save_settings : Fields → File → Option Fields × File
  unfolding deep_merge read_stored persist
  save_settings patch file =
      persist (validate (deep_merge (deep_merge defaults (read_stored file)) patch)) file

  pub replace_settings : Fields → File → Option Fields × File
  unfolding deep_merge persist
  replace_settings full file = persist (validate (deep_merge defaults full)) file

  -- `stored.pop(section, None)`, or nothing is left of it.
  pub without_section : Option String → Fields → Fields
  unfolding pop
  without_section none stored = empty
  without_section (some section) stored = pop section stored

  pub reset_settings : Option String → File → Option Fields × File
  unfolding read_stored load_runtime_config without_section
  reset_settings section file =
      let written : File = some (table (without_section section (read_stored file))) in
      (load_runtime_config written none, written)
