-- ===== src/Settings/Stored.antt =====
-- What is saved is what the next run loads; a reset gives a section its defaults back.
use crawl_viz.Base.{
  String, Option, none, some, ◌≡◌, refl, ap, sym, ◌∙◌, Bool-cases, inl, inr, if◌then◌else◌, str_eq,
  eq_iff, arith,
}
use crawl_viz.Settings.{
  table, Fields, empty, field, get, pop, deep_merge, diff, File, read_stored, load_runtime_config,
  persist, replace_settings, reset_settings, without_section,
}
use crawl_viz.Settings.Readings.{IsDict, SameReads}
use crawl_viz.Settings.Merge.{merge_entry, get-deep_merge, CoversDict}
use crawl_viz.Settings.Difference.{NoNewNull, deep_merge-diff}

-- The defaults with some dicts merged into them, one after the other.
pub data IsMerged (defaults : Fields) : Fields → Type 0 where
  as_is : IsMerged defaults defaults
  merged :
      {y : Fields} (over : Fields) → IsMerged defaults y → IsMerged defaults (deep_merge y over)

-- What `model_dump` gives for a valid config that overrides the defaults: a dict with each of the
-- defaults' settings, and with no null setting that they lack.
abbrev pub IsDump : Fields → (Fields → Option Fields) → Type 0
IsDump defaults validate =
    (y cfg : Fields)
    → IsMerged defaults y
    → validate y ≡ some cfg
    → IsDict cfg × CoversDict defaults cfg × NoNewNull (some (table defaults)) (some (table cfg))

-- How a change of the settings ends: an error leaves the file as it was; for a config that is returned, the
-- next run validates a dict that reads like it.
abbrev pub IsSaved : Fields → (Fields → Option Fields) → File → Option Fields × File → Type 0
IsSaved defaults validate file (none, file') = file' ≡ file
IsSaved defaults validate file (some cfg, file') =
    (y : Fields) × (load_runtime_config defaults validate file' none ≡ validate y) × SameReads y cfg

module _ (defaults : Fields) (validate : Fields → Option Fields)
    (dump : IsDump defaults validate) where
  persist-IsSaved :
      {y : Fields} (file : File) (result : Option Fields)
      → IsMerged defaults y
      → validate y ≡ result
      → IsSaved defaults validate file (persist defaults validate result file)
  unfolding persist load_runtime_config read_stored
  persist-IsSaved file none m h = refl
  persist-IsSaved file (some cfg) m h =
      let (d, c, n) = dump _ cfg m h in
      (deep_merge defaults (diff defaults cfg), refl, deep_merge-diff defaults cfg d c n)

  -- The same for a replacement of all the settings.
  pub replace_settings-IsSaved :
      (full : Fields) (file : File)
      → IsSaved defaults validate file (replace_settings defaults validate full file)
  unfolding replace_settings
  replace_settings-IsSaved full file = persist-IsSaved file _ (merged full as_is) refl

get-pop :
    (section k : String) (d : Fields)
    → get k (pop section d) ≡ (if str_eq section k then none else get k d)
unfolding get pop
get-pop section k empty = ground arith
get-pop section k (field j v rest) =
    ground (arith, get-pop section k rest, eq_iff section k, eq_iff j section, eq_iff j k)

IsDict-pop : (section : String) (d : Fields) → IsDict d → IsDict (pop section d)
unfolding pop
IsDict-pop section empty h = tt
IsDict-pop section (field j v rest) h = elim (Bool-cases (str_eq j section)) [
  | inl out ↦ rw out (IsDict-pop section rest h.2)
  | inr kept ↦
      rw kept (ground (arith, get-pop section j rest, h.0), h.1, IsDict-pop section rest h.2)
]

module _ (defaults : Fields) (validate : Fields → Option Fields) where
  -- The reset of one section of a settings file whose keys are distinct returns, and leaves to the next run, the
  -- result of validating a dict in which that section is the default's, and every other one is as in the dict
  -- that was validated before.
  pub reset_settings-get :
      (section : String) (file : File)
      → IsDict (read_stored file)
      → let (result, file') = reset_settings defaults validate (some section) file in
        (m : Fields) × (result ≡ validate m)
        × (load_runtime_config defaults validate file' none ≡ validate m)
        × ((k : String)
            → get k m ≡ (
                if str_eq section k
                then get k defaults
                else get k (deep_merge defaults (read_stored file))))
  unfolding reset_settings load_runtime_config without_section read_stored
  reset_settings-get section file d =
      let left : Fields = pop section (read_stored file) in
      (
        deep_merge defaults left,
        refl,
        refl,
        λ k.
            get-deep_merge k defaults left (IsDict-pop section (read_stored file) d)
            ∙ ap (merge_entry (get k defaults)) (get-pop section k (read_stored file))
            ∙ elim (Bool-cases (str_eq section k)) [
              | inl here ↦ rw here refl
              | inr other ↦ rw other (sym (get-deep_merge k defaults (read_stored file) d))
            ],
      )
