-- ===== src/Keys/History.antt =====
-- Whatever a crawl does to a provider's keys, the next request for one raises nothing.
use crawl_viz.Base.{
  ℕ, ◌<◌, ◌≡◌, ◌⊎◌, refl, max, String, true, Option, none, some, List, [], ◌∷◌, length, arith, inl,
  inr,
}
use crawl_viz.Base.Texts.{contains}
use crawl_viz.Keys.{
  Provider, next_key, mark_invalid, add_key, reload, load_provider, KeyStep, asked, rejected, added,
  reloaded, key_step, key_run,
}
use crawl_viz.Keys.Rotation.{
  IsStamped, IsReady, place_lt, lookup-insert_self, IsStamped-restamp, next_key-IsReady,
  mark_invalid-IsReady, add_key-IsReady,
}

-- A provider that may be without keys; its rotation starts at 0 then.
abbrev pub IsSound : Provider → Type 0
IsSound p = (p.index < max 1 (length p.keys)) × IsStamped p.timestamps p.keys

IsSound-IsReady : (p : Provider) → IsReady p → IsSound p
IsSound-IsReady p v = (omega (arith, v.place), v.stamped)

Sound-cases : (p : Provider) → IsSound p → ((p.keys ≡ []) × (p.index ≡ 0)) ⊎ IsReady p
Sound-cases p v = cases p.keys refl
  where
    cases : (ks : List String) → p.keys ≡ ks → ((p.keys ≡ []) × (p.index ≡ 0)) ⊎ IsReady p
    cases [] e = inl (e, ground (arith, v.0, e))
    cases (k ∷ ks) e = inr (record { place = ground (arith, v.0, e); stamped = v.1 })

-- What a request for a key gives: none of no keys, one of the keys otherwise.
abbrev pub IsGiven : List String → Option String → Type 0
IsGiven keys none = keys ≡ []
IsGiven keys (some key) = contains keys key ≡ true

next_key-IsGiven :
    (cooldown now : ℕ) (p : Provider)
    → IsSound p
    → (key : Option String) × (p' : Provider) × (next_key cooldown now p ≡ some (key, p'))
      × IsGiven p.keys key
      × (p'.keys ≡ p.keys)
      × IsSound p'
unfolding next_key
next_key-IsGiven cooldown now p v = elim (Sound-cases p v) [
  | inl (no_keys, start) ↦ (none, p, rw (no_keys, next_key) refl, no_keys, refl, v)
  | inr ready ↦
      (let (key, p', given, mine, same, ready') = next_key-IsReady cooldown now p ready in
        (some key, p', given, mine, same, IsSound-IsReady p' ready'))
]

mark_invalid-IsSound : (key : String) (p : Provider) → IsSound p → IsSound (mark_invalid key p).1
unfolding mark_invalid
mark_invalid-IsSound key p v = elim (Sound-cases p v) [
  | inl (no_keys, start) ↦ rw (no_keys, mark_invalid) (omega (arith, start), tt)
  | inr ready ↦ IsSound-IsReady (mark_invalid key p).1 (mark_invalid-IsReady key p ready).0
]

add_key-IsSound : (key : String) (p : Provider) → IsSound p → IsSound (add_key key p)
unfolding add_key
add_key-IsSound key p v = elim (Sound-cases p v) [
  | inl (no_keys, start) ↦
      rw (no_keys, add_key) (omega (arith, start), (lookup-insert_self key 0 p.timestamps, tt))
  | inr ready ↦ IsSound-IsReady (add_key key p) (add_key-IsReady key p ready).0
]

reload-IsSound : (keys : List String) (p : Provider) → IsSound (reload keys p)
unfolding reload
reload-IsSound keys p =
    (ground (arith, place_lt p.index (length keys)), IsStamped-restamp keys p.timestamps)

key_step-IsSound :
    (cooldown : ℕ) (t : KeyStep) (p : Provider)
    → IsSound p
    → (p' : Provider) × (key_step cooldown t p ≡ some p') × IsSound p'
unfolding key_step
key_step-IsSound cooldown (asked now) p v =
    let (key, p', given, mine, same, v') = next_key-IsGiven cooldown now p v in
    (p', rw (given, key_step) refl, v')
key_step-IsSound cooldown (rejected key) p v = (_, refl, mark_invalid-IsSound key p v)
key_step-IsSound cooldown (added key) p v = (_, refl, add_key-IsSound key p v)
key_step-IsSound cooldown (reloaded keys) p v = (_, refl, reload-IsSound keys p)

key_run-IsSound :
    (cooldown : ℕ) (ts : List KeyStep) (p : Provider)
    → IsSound p
    → (p' : Provider) × (key_run cooldown ts p ≡ some p') × IsSound p'
unfolding key_run
key_run-IsSound cooldown [] p v = (p, refl, v)
key_run-IsSound cooldown (t ∷ ts) p v =
    let (p1, stepped, v1) = key_step-IsSound cooldown t p v in
    let (p2, run, v2) = key_run-IsSound cooldown ts p1 v1 in (p2, rw (stepped, key_run) run, v2)

load_provider-IsSound : (keys : List String) → IsSound (load_provider keys)
unfolding load_provider
load_provider-IsSound keys = (omega arith, IsStamped-restamp keys [])

-- Whatever keys a provider starts with, and whatever keys are asked for, rejected, added and reloaded in between,
-- nothing raises: the next request gets one of the keys that the provider has then, or none if it has none, and the
-- keys stay.
pub key_run-next_key :
    (cooldown : ℕ) (keys : List String) (ts : List KeyStep) (now : ℕ)
    → (p : Provider) × (key_run cooldown ts (load_provider keys) ≡ some p)
      × ((key : Option String) × (p' : Provider) × (next_key cooldown now p ≡ some (key, p'))
          × IsGiven p.keys key
          × (p'.keys ≡ p.keys))
key_run-next_key cooldown keys ts now =
    let (p, run, v) =
      key_run-IsSound cooldown ts (load_provider keys) (load_provider-IsSound keys) in
    let (key, p', given, mine, same, v') = next_key-IsGiven cooldown now p v in
    (p, run, (key, p', given, mine, same))
