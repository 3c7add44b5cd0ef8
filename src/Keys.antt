-- ===== src/Keys.antt =====
-- infrastructure/key_manager.py: the rotation of one provider's API keys.
-- The dicts `registry`, `indexes` and `timestamps` have the same providers, so a provider's entries
-- are one record here; a provider that has none of its own starts as `new_provider`. An outer
-- `none` of `rotate` and `next_key` is an IndexError or a KeyError. Reading and writing keys.json is
-- left out: `reload` gets the keys that it holds.
pub mod Rotation
pub mod History
mod Examples
use crawl_viz.Base.{
  ℕ, zero, suc, ◌+◌, ◌-◌, ◌%◌, String, Bool, true, false, Option, none, some, List, [], ◌∷◌, ◌++◌,
  length, get_elem?, leb, ltb, ◌==◌, if◌then◌else◌, str_eq,
}
use crawl_viz.Base.Texts.{Dict, contains, lookup, insert, erase}

pub record Provider : Type 0 where
  pub keys : List String
  pub index : ℕ
  pub timestamps : Dict ℕ

unfoldable pub new_provider : Provider
new_provider = record { keys = []; index = 0; timestamps = [] }

-- The loop of `next_key`: at most `rounds` keys from the rotation's place on, the first one that is
-- due (`now - timestamp >= cooldown`) is taken.
pub rotate : ℕ → ℕ → ℕ → Provider → Option (Option String × Provider)
unfolding lookup insert
rotate zero cooldown now p = some (none, p)
rotate (suc rounds) cooldown now p = elim (get_elem? p.keys p.index) [
  | none ↦ none
  | some key ↦ elim (lookup key p.timestamps) [
    | none ↦ none
    | some used ↦
        (let p' : Provider = record p { index = (p.index + 1) % length p.keys } in
          let rest = rotate rounds cooldown now p' in
          if leb (used + cooldown) now
          then some (some key, record p' { timestamps = insert key now p.timestamps })
          else rest)
  ]
]

-- `return keys[start_idx]`
pub fall_back : Provider → Option String × Provider → Option (Option String × Provider)
fall_back p (some key, p') = some (some key, p')
fall_back p (none, p') = elim (get_elem? p.keys p.index) [
  | none ↦ none
  | some key ↦ some (some key, p')
]

pub next_key : ℕ → ℕ → Provider → Option (Option String × Provider)
unfolding rotate fall_back
next_key cooldown now p =
    let turn = rotate (length p.keys) cooldown now p in
    if length p.keys == 0
    then some (none, p)
    else elim turn [ none ↦ none | some r ↦ fall_back p r ]

-- `list.remove`
pub remove_first : String → List String → List String
remove_first key [] = []
remove_first key (k ∷ ks) = let rest = remove_first key ks in if str_eq k key then ks else k ∷ rest

pub mark_invalid : String → Provider → Bool × Provider
unfolding remove_first
mark_invalid key p =
    let keys = remove_first key p.keys in
    if contains p.keys key
    then (if leb (length p.keys) 1
        then (false, p)
        else (true, record p { keys = keys; index = p.index % length keys }))
    else (false, p)

-- The part of `add_key` after the test that the stripped key is not empty.
pub add_key : String → Provider → Provider
unfolding insert
add_key key p =
    if contains p.keys key
    then p
    else record p { keys = p.keys ++ key ∷ []; timestamps = insert key 0 p.timestamps }

-- `stamps.get(k, 0)`
pub stamp_or_zero : String → Dict ℕ → ℕ
unfolding lookup
stamp_or_zero key stamps = elim (lookup key stamps) [ none ↦ 0 | some t ↦ t ]

pub restamp : List String → Dict ℕ → Dict ℕ
unfolding insert stamp_or_zero
restamp [] stamps = []
restamp (k ∷ ks) stamps = insert k (stamp_or_zero k stamps) (restamp ks stamps)

-- The part of `reload` for a provider that keys.json lists.
unfoldable pub reload : List String → Provider → Provider
unfolding restamp
reload keys p = record {
  keys = keys;
  index = if length keys == 0 then 0 else p.index % length keys;
  timestamps = restamp keys p.timestamps;
}

-- `next((k for k in keys if self.fingerprint(k) == key_id), None)`
pub find_by_id : (String → String) → String → List String → Option String
find_by_id fingerprint key_id [] = none
find_by_id fingerprint key_id (k ∷ ks) =
    let rest = find_by_id fingerprint key_id ks in
    if str_eq (fingerprint k) key_id then some k else rest

-- Whether a key was removed, and the provider after it: `none` when its last key went.
pub remove_key : (String → String) → String → Provider → Bool × Option Provider
unfolding find_by_id remove_first erase
remove_key fingerprint key_id p = elim (find_by_id fingerprint key_id p.keys) [
  | none ↦ (false, some p)
  | some key ↦
      (let keys = remove_first key p.keys in
        (
          true,
          if length keys == 0
              then none
              else some (record {
                keys = keys;
                index = p.index % length keys;
                timestamps = erase key p.timestamps;
              }),
        ))
]

-- `KeyManager.__init__`: no key has been used.
unfoldable pub load_provider : List String → Provider
unfolding restamp
load_provider keys = record { keys = keys; index = 0; timestamps = restamp keys [] }

-- What a crawl does to a provider's keys; `remove_key` is called on a manager of its own, and reaches the crawl as a
-- reload.
pub data KeyStep : Type 0 where
  asked : ℕ → KeyStep
  rejected added : String → KeyStep
  reloaded : List String → KeyStep

-- `none`: an exception.
pub key_step : ℕ → KeyStep → Provider → Option Provider
unfolding next_key mark_invalid add_key reload
key_step cooldown (asked now) p = elim (next_key cooldown now p) [
  | none ↦ none
  | some (key, p') ↦ some p'
]
key_step cooldown (rejected key) p = some (mark_invalid key p).1
key_step cooldown (added key) p = some (add_key key p)
key_step cooldown (reloaded keys) p = some (reload keys p)

pub key_run : ℕ → List KeyStep → Provider → Option Provider
unfolding key_step
key_run cooldown [] p = some p
key_run cooldown (t ∷ ts) p = elim (key_step cooldown t p) [
  | none ↦ none
  | some p' ↦ key_run cooldown ts p'
]
