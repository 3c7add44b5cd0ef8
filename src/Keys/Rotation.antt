-- ===== src/Keys/Rotation.antt =====
-- A provider with keys always has one to give, and its rotation stays in range.
use crawl_viz.Base.{
  ℕ, zero, suc, ◌+◌, ◌%◌, ◌<◌, ◌≡◌, ◌≢◌, refl, subst, String, true, false, Option, none, some, List,
  [], ◌∷◌, length, get_elem?-some, leb, ◌==◌, if◌then◌else◌, str_eq, eq_iff, arith, All, All-imp,
  All-append, All-get_elem?, length-append, Bool-cases, Option-cases, inl, inr,
}
use crawl_viz.Base.Texts.{
  Dict, contains, contains-append, contains-get_elem?, lookup, insert, lookup-insert, erase,
  lookup-erase,
}
use crawl_viz.Keys.{
  Provider, rotate, fall_back, next_key, remove_first, mark_invalid, add_key, restamp, reload,
  find_by_id, remove_key,
}

abbrev pub IsStamped : Dict ℕ → List String → Type 0
IsStamped stamps = All (λ k. lookup k stamps ≢ none)

-- The provider has a key, the rotation's place is one, and every key has a timestamp.
pub record IsReady (p : Provider) : Type 0 where
  pub place : p.index < length p.keys
  pub stamped : IsStamped p.timestamps p.keys

pub place_lt : (a n : ℕ) → 0 < n → a % n < n
place_lt a n h = grind arith

pub IsStamped-insert :
    (key : String) (t : ℕ) (stamps : Dict ℕ) (ks : List String)
    → IsStamped stamps ks
    → IsStamped (insert key t stamps) ks
IsStamped-insert key t stamps ks h =
    All-imp (λ k. lookup k stamps ≢ none) (λ k. lookup k (insert key t stamps) ≢ none) ks
      (λ k a e. ground (arith, lookup-insert key k t stamps, a, e)) h

-- What a round of the rotation may come to, seen from the keys that it started with.
abbrev IsTurn : List String → Option (Option String × Provider) → Type 0
IsTurn ks none = ⊥
IsTurn ks (some (none, p)) = (p.keys ≡ ks) × IsReady p
IsTurn ks (some (some key, p)) = (contains ks key ≡ true) × (p.keys ≡ ks) × IsReady p

abbrev turned : Provider → Provider
turned p = record p { index = (p.index + 1) % length p.keys }

turned-IsReady : (p : Provider) → IsReady p → IsReady (turned p)
turned-IsReady p v = record {
  place = place_lt (p.index + 1) (length p.keys) (omega (arith, v.place));
  stamped = v.stamped;
}

-- One round: the key is due, or the others have their turn.
turn :
    (rounds cooldown now : ℕ) (p : Provider) (key : String) (used : ℕ)
    → contains p.keys key ≡ true
    → IsReady p
    → IsTurn p.keys (rotate rounds cooldown now (turned p))
    → IsTurn p.keys (
        if leb (used + cooldown) now
        then some (some key, record (turned p) { timestamps = insert key now p.timestamps })
        else rotate rounds cooldown now (turned p))
turn rounds cooldown now p key used c v rest = elim (Bool-cases (leb (used + cooldown) now)) [
  | inl due ↦ rw due (
    c,
    refl,
    record {
      place = (turned-IsReady p v).place;
      stamped = IsStamped-insert key now p.timestamps p.keys v.stamped;
    },
  )
  | inr cooling ↦ rw cooling rest
]

rotate-IsTurn :
    (rounds cooldown now : ℕ) (p : Provider)
    → IsReady p
    → IsTurn p.keys (rotate rounds cooldown now p)
unfolding rotate
rotate-IsTurn zero cooldown now p v = (refl, v)
rotate-IsTurn (suc rounds) cooldown now p v =
    let (key, at) = get_elem?-some p.keys p.index v.place in
    elim (Option-cases (lookup key p.timestamps)) [
      | inl bare ↦
          absurd
            (All-get_elem? (λ k. lookup k p.timestamps ≢ none) p.keys p.index v.stamped at bare)
      | inr (used, stamp) ↦
          rw (at, stamp, rotate)
            (turn rounds cooldown now p key used (contains-get_elem? p.keys p.index at) v
              (rotate-IsTurn rounds cooldown now (turned p) (turned-IsReady p v)))
    ]

fall_back-IsReady :
    (p : Provider) (r : Option String × Provider)
    → IsReady p
    → IsTurn p.keys (some r)
    → (key : String) × (p' : Provider) × (fall_back p r ≡ some (some key, p'))
      × (contains p.keys key ≡ true)
      × (p'.keys ≡ p.keys)
      × IsReady p'
unfolding fall_back
fall_back-IsReady p (some key, p') v t = (key, p', refl, t.0, t.1, t.2)
fall_back-IsReady p (none, p') v t =
    let (key, at) = get_elem?-some p.keys p.index v.place in
    (key, p', rw (at, fall_back) refl, contains-get_elem? p.keys p.index at, t.0, t.1)

-- While a provider has a key, `next_key` raises nothing and returns one of its keys; the keys stay
-- the same and the provider stays ready for the next call.
pub next_key-IsReady :
    (cooldown now : ℕ) (p : Provider)
    → IsReady p
    → (key : String) × (p' : Provider) × (next_key cooldown now p ≡ some (some key, p'))
      × (contains p.keys key ≡ true)
      × (p'.keys ≡ p.keys)
      × IsReady p'
unfolding next_key
next_key-IsReady cooldown now p v =
    let here : (length p.keys == 0) ≡ false = ground (arith, v.place) in
    let turns = rotate-IsTurn (length p.keys) cooldown now p v in
    elim (Option-cases (rotate (length p.keys) cooldown now p)) [
      | inl bad ↦ elim (subst (IsTurn p.keys) bad turns) [ ]
      | inr (r, found) ↦
          rw (here, found, next_key) (fall_back-IsReady p r v (subst (IsTurn p.keys) found turns))
    ]

length-remove_first :
    (key : String) (ks : List String)
    → contains ks key ≡ true
    → suc (length (remove_first key ks)) ≡ length ks
unfolding remove_first
length-remove_first key [] h = cc
length-remove_first key (k ∷ ks) h = elim (Bool-cases (str_eq k key)) [
  | inl same ↦ rw same (omega arith)
  | inr other ↦ rw other (omega (arith, length-remove_first key ks (ground (arith, h, other))))
]

IsStamped-remove_first :
    (key : String) (stamps : Dict ℕ) (ks : List String)
    → IsStamped stamps ks
    → IsStamped stamps (remove_first key ks)
unfolding remove_first
IsStamped-remove_first key stamps [] h = tt
IsStamped-remove_first key stamps (k ∷ ks) h = elim (Bool-cases (str_eq k key)) [
  | inl same ↦ rw same h.1
  | inr other ↦ rw other (h.0, IsStamped-remove_first key stamps ks h.1)
]

-- A rejected key leaves the rotation, one occurrence of it, unless it is the last one; then, or if
-- the key is unknown, nothing changes. Either way the provider keeps a key and stays ready.
pub mark_invalid-IsReady :
    (key : String) (p : Provider)
    → IsReady p
    → let (dropped, p') = mark_invalid key p in
      IsReady p'
      × (dropped ≡ true → suc (length p'.keys) ≡ length p.keys)
      × (dropped ≡ false → p' ≡ p)
unfolding mark_invalid
mark_invalid-IsReady key p v = elim (Bool-cases (contains p.keys key)) [
  | inl there ↦ elim (Bool-cases (leb (length p.keys) 1)) [
    | inl last ↦ rw (there, last, mark_invalid) (v, (λ h. cc), λ h. refl)
    | inr more ↦
        (let fewer = length-remove_first key p.keys there in
          rw (there, more, mark_invalid)
            (
              record {
                place =
                    place_lt p.index (length (remove_first key p.keys))
                      (ground (arith, fewer, more));
                stamped = IsStamped-remove_first key p.timestamps p.keys v.stamped;
              },
              (λ h. fewer),
              λ h. cc,
            ))
  ]
  | inr unknown ↦ rw (unknown, mark_invalid) (v, (λ h. cc), λ h. refl)
]

pub lookup-insert_self :
    (key : String) (t : ℕ) (stamps : Dict ℕ) → lookup key (insert key t stamps) ≢ none
lookup-insert_self key t stamps e =
    ground (arith, lookup-insert key key t stamps, eq_iff key key, e)

-- A key that is added to a ready provider is one of its keys then, and the provider stays ready.
pub add_key-IsReady :
    (key : String) (p : Provider)
    → IsReady p
    → IsReady (add_key key p) × (contains (add_key key p).keys key ≡ true)
unfolding add_key
add_key-IsReady key p v = elim (Bool-cases (contains p.keys key)) [
  | inl old ↦ rw (old, add_key) (v, old)
  | inr new ↦
      rw (new, add_key)
        (
          record {
            place = omega (arith, v.place, length-append p.keys (key ∷ []));
            stamped =
                All-append (λ k. lookup k (insert key 0 p.timestamps) ≢ none) p.keys (key ∷ [])
                  (IsStamped-insert key 0 p.timestamps p.keys v.stamped)
                  (lookup-insert_self key 0 p.timestamps, tt);
          },
          ground (arith, contains-append p.keys (key ∷ []) key, eq_iff key key),
        )
]

pub IsStamped-restamp : (ks : List String) (stamps : Dict ℕ) → IsStamped (restamp ks stamps) ks
unfolding restamp
IsStamped-restamp [] stamps = tt
IsStamped-restamp (k ∷ ks) stamps = (
  lookup-insert_self k _ (restamp ks stamps),
  IsStamped-insert k _ (restamp ks stamps) ks (IsStamped-restamp ks stamps),
)

-- A provider for which the file lists a key is ready after a reload, whatever it was before.
pub reload-IsReady : (ks : List String) (p : Provider) → 0 < length ks → IsReady (reload ks p)
unfolding reload
reload-IsReady ks p h = record {
  place = ground (arith, h, place_lt p.index (length ks) h);
  stamped = IsStamped-restamp ks p.timestamps;
}

IsStamped-erase :
    (key : String) (stamps : Dict ℕ) (ks : List String)
    → contains ks key ≡ false
    → IsStamped stamps ks
    → IsStamped (erase key stamps) ks
IsStamped-erase key stamps [] c h = tt
IsStamped-erase key stamps (k ∷ ks) c h = (
  (λ e. ground (arith, lookup-erase key k stamps, eq_iff key k, eq_iff k key, c, h.0, e)),
  IsStamped-erase key stamps ks (ground (arith, c)) h.1,
)

-- A ready provider that lists no key twice is ready after the removal of a key, if the removal leaves it one.
pub remove_key-IsReady :
    (fingerprint : String → String) (key_id : String) (p : Provider) {p' : Provider}
    → IsReady p
    → ((key : String) → contains (remove_first key p.keys) key ≡ false)
    → (remove_key fingerprint key_id p).1 ≡ some p'
    → IsReady p'
unfolding remove_key
remove_key-IsReady fingerprint key_id p v distinct =
    elim (Option-cases (find_by_id fingerprint key_id p.keys)) [
      | inl unknown ↦ rw (unknown, remove_key) (λ e. subst (IsReady) (ground (arith, e)) v)
      | inr (key, found) ↦
          (let ks = remove_first key p.keys in
            elim (Bool-cases (length ks == 0)) [
              | inl last ↦ rw (found, last, remove_key) (λ e. cc)
              | inr left ↦
                  rw (found, left, remove_key)
                    (λ e. subst IsReady (ground (arith, e)) (record {
                      place = place_lt p.index (length ks) (ground (arith, left));
                      stamped =
                          IsStamped-erase key p.timestamps ks (distinct key)
                            (IsStamped-remove_first key p.timestamps p.keys v.stamped);
                    }))
            ])
    ]
