-- ===== src/Frontier/Ordered.antt =====
-- The frontier queue, seen from outside, is a list in order of urgency.
use crawl_viz.Base.{
  ℕ, suc, ◌<◌, ◌≡◌, refl, sym, ap, ◌∙◌, Bool, true, false, none, some, List, [], ◌∷◌, map, All,
  All-imp, arith, Bool-cases, inl, inr, ◌⊎◌, if◌then◌else◌,
}
use crawl_viz.Base.Int.{ℤ, pos, negsuc, ◌-ℤ◌, ltb_ℤ}
use crawl_viz.Models.{Node}
use crawl_viz.Pool.{QueueItem, work, shutdown}
use crawl_viz.Frontier.{
  Entry, FrontierQueue, key_of, key_ltb, before, heappop, put, get, FrontierStep, added, taken,
  frontier_run,
}

-- What waits, the next item to come out first: a shutdown goes before every node, a node before those of
-- lower priority, and otherwise who comes first is served first.
pub more_urgent : QueueItem Node → QueueItem Node → Bool
more_urgent shutdown shutdown = false
more_urgent shutdown (work n) = true
more_urgent (work n) shutdown = false
more_urgent (work n) (work m) = ltb_ℤ m.priority n.priority

pub enter : QueueItem Node → List (QueueItem Node) → List (QueueItem Node)
unfolding more_urgent
enter x [] = x ∷ []
enter x (y ∷ ys) = let rest = enter x ys in if more_urgent x y then x ∷ y ∷ ys else y ∷ rest

pub waiting_run :
    List FrontierStep → List (QueueItem Node) → List (QueueItem Node) × List (QueueItem Node)
unfolding enter
waiting_run [] xs = ([], xs)
waiting_run (added item ∷ steps) xs = waiting_run steps (enter item xs)
waiting_run (taken ∷ steps) [] = waiting_run steps []
waiting_run (taken ∷ steps) (x ∷ xs) = let (items, left) = waiting_run steps xs in (x ∷ items, left)

pub insert_entry : Entry → List Entry → List Entry
insert_entry e [] = e ∷ []
insert_entry e (f ∷ fs) =
    let rest = insert_entry e fs in if before e f then e ∷ f ∷ fs else f ∷ rest

pub sorted : List Entry → List Entry
unfolding insert_entry
sorted [] = []
sorted (e ∷ es) = insert_entry e (sorted es)

-- The entries sorted, as items.
abbrev pub waiting : FrontierQueue → List (QueueItem Node)
waiting q = map (λ e. e.item) (sorted q.heap)

sorted-heappop :
    (e : Entry) (es : List Entry) → sorted (e ∷ es) ≡ (heappop e es).0 ∷ sorted (heappop e es).1
unfolding sorted heappop
sorted-heappop e [] = refl
sorted-heappop e (f ∷ fs) = elim (Bool-cases (before e (heappop f fs).0)) [
  | inl least ↦ rw (sorted-heappop f fs, least) (ap (λ xs. e ∷ xs) (sym (sorted-heappop f fs)))
  | inr later ↦ rw (sorted-heappop f fs, later) refl
]

module _ (P : Entry → Type 0) where
  All-heappop :
      (e : Entry) (es : List Entry) → All P (e ∷ es) → All P ((heappop e es).0 ∷ (heappop e es).1)
  unfolding heappop
  All-heappop e [] h = h
  All-heappop e (f ∷ fs) h =
      let r = All-heappop f fs h.1 in
      elim (Bool-cases (before e (heappop f fs).0)) [
        | inl least ↦ rw least h
        | inr later ↦ rw later (r.0, (h.0, r.1))
      ]

  All-insert_entry : (e : Entry) (es : List Entry) → P e → All P es → All P (insert_entry e es)
  unfolding insert_entry
  All-insert_entry e [] p h = (p, tt)
  All-insert_entry e (f ∷ fs) p h = elim (Bool-cases (before e f)) [
    | inl first ↦ rw first (p, h)
    | inr later ↦ rw later (h.0, All-insert_entry e fs p h.1)
  ]

  All-sorted : (es : List Entry) → All P es → All P (sorted es)
  unfolding sorted
  All-sorted [] h = tt
  All-sorted (e ∷ es) h = All-insert_entry e (sorted es) h.0 (All-sorted es h.1)

-- The key is the item's, and the entry is older than the next one.
pub IsOlder : ℕ → Entry → Type 0
IsOlder n e = (e.key ≡ key_of e.item) × (e.seq < n)

ltb_ℤ-negated : (a b : ℤ) → ltb_ℤ (pos 0 -ℤ a) (pos 0 -ℤ b) ≡ ltb_ℤ b a
unfolding ◌-ℤ◌
ltb_ℤ-negated (pos a) (pos b) = ground arith
ltb_ℤ-negated (pos a) (negsuc b) = ground arith
ltb_ℤ-negated (negsuc a) (pos b) = ground arith
ltb_ℤ-negated (negsuc a) (negsuc b) = ground arith

key_ltb-key_of : (x y : QueueItem Node) → key_ltb (key_of x) (key_of y) ≡ more_urgent x y
unfolding key_ltb key_of more_urgent
key_ltb-key_of shutdown shutdown = refl
key_ltb-key_of shutdown (work m) = refl
key_ltb-key_of (work n) shutdown = refl
key_ltb-key_of (work n) (work m) = ltb_ℤ-negated n.priority m.priority

before-IsOlder :
    (e f : Entry) → e.key ≡ key_of e.item → IsOlder e.seq f → before e f ≡ more_urgent e.item f.item
unfolding before IsOlder
before-IsOlder e f k h = rw (k, h.0, key_ltb-key_of e.item f.item) (ground (arith, h.1))

map-insert_entry :
    (e : Entry) (es : List Entry)
    → e.key ≡ key_of e.item
    → All (IsOlder e.seq) es
    → map (λ f. f.item) (insert_entry e es) ≡ enter e.item (map (λ f. f.item) es)
unfolding insert_entry enter
map-insert_entry e [] k h = refl
map-insert_entry e (f ∷ fs) k h =
    rw (before-IsOlder e f k h.0) (elim (Bool-cases (more_urgent e.item f.item)) [
      | inl first ↦ rw first refl
      | inr later ↦ rw later (ap (λ xs. f.item ∷ xs) (map-insert_entry e fs k h.1))
    ])

IsOlder-suc : (n : ℕ) (es : List Entry) → All (IsOlder n) es → All (IsOlder (suc n)) es
unfolding IsOlder
IsOlder-suc n es h = All-imp (IsOlder n) (IsOlder (suc n)) es (λ e o. (o.0, omega (arith, o.1))) h

waiting-put :
    (item : QueueItem Node) (q : FrontierQueue)
    → All (IsOlder q.next_seq) q.heap
    → (waiting (put item q) ≡ enter item (waiting q))
      × All (IsOlder (put item q).next_seq) (put item q).heap
unfolding put sorted IsOlder
waiting-put item q h =
    let e : Entry = record { key = key_of item; seq = q.next_seq; item = item } in
    (
      map-insert_entry e (sorted q.heap) refl (All-sorted (IsOlder q.next_seq) q.heap h),
      ((refl, omega arith), IsOlder-suc q.next_seq q.heap h),
    )

-- The queue is empty, or the first of the list comes out and the others stay.
get_cases :
    (n : ℕ) (es : List Entry)
    → All (IsOlder n) es
    → let q : FrontierQueue = record { heap = es; next_seq = n } in
      ((get q ≡ none) × (waiting q ≡ []))
      ⊎ ((item : QueueItem Node) × (q' : FrontierQueue) × (get q ≡ some (item, q'))
          × (waiting q ≡ item ∷ waiting q')
          × All (IsOlder q'.next_seq) q'.heap)
unfolding get sorted
get_cases n [] h = inl (refl, refl)
get_cases n (e ∷ es) h =
    let (least, rest) = heappop e es in
    inr (
      least.item,
      record { heap = rest; next_seq = n },
      refl,
      ap (map (λ f. f.item)) (sorted-heappop e es),
      (All-heappop (IsOlder n) e es h).1,
    )

-- Whatever is put and taken, the items come out of the frontier as out of a list in which each item entered
-- before the less urgent ones and after the others: shutdowns first, then nodes by priority, and
-- the first come first among equals; what is left in it is what is left in the list, in order.
pub frontier_run-waiting :
    (steps : List FrontierStep) (q : FrontierQueue)
    → All (IsOlder q.next_seq) q.heap
    → let (items, q') = frontier_run steps q in (items, waiting q') ≡ waiting_run steps (waiting q)
unfolding frontier_run waiting_run get
frontier_run-waiting [] q h = refl
frontier_run-waiting (added item ∷ steps) q h =
    let (entered, older) = waiting-put item q h in
    frontier_run-waiting steps (put item q) older ∙ ap (waiting_run steps) entered
frontier_run-waiting (taken ∷ steps) q h = elim (get_cases q.next_seq q.heap h) [
  | inl (nothing, empty) ↦
      rw (nothing, frontier_run) (frontier_run-waiting steps q h ∙ rw (empty, waiting_run) refl)
  | inr (item, q', got, out, older) ↦
      rw (got, out, frontier_run, waiting_run)
        (ap (λ r. (item ∷ r.0, r.1)) (frontier_run-waiting steps q' older))
]
