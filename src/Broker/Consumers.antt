-- ===== src/Broker/Consumers.antt =====
-- Who gets an event, and who is told to stop.
use crawl_viz.Base.{
  ℕ, suc, ◌≡◌, refl, sym, ap, ◌∙◌, subst, String, Bool, true, false, List, [], ◌∷◌, ◌++◌,
  append_assoc, append-nil, replicate, ◌==◌, ◌||◌, if◌then◌else◌, str_eq, eq_iff, arith, Bool-cases,
  inl, inr, sum_by, sum_by-append,
}
use crawl_viz.Base.Texts.{insert, lookup-insert}
use crawl_viz.Broker.{
  Registry, consumers_of, subscribe, seen_before, add_consumers, collect, all_consumers,
}

abbrev pub times : String → List String → ℕ
times k [] = 0
times k (t ∷ ts) = if str_eq t k then suc (times k ts) else times k ts

consumers_of-insert :
    (t k : String) (ps : List ℕ) (r : Registry)
    → consumers_of k (insert t ps r) ≡ (if str_eq t k then ps else consumers_of k r)
unfolding consumers_of
consumers_of-insert t k ps r = ground (arith, lookup-insert t k ps r)

-- A subscription adds the pipeline to the end of the subscribers of each class that it names, as
-- often as it names it, and changes nothing else.
pub consumers_of-subscribe :
    (pipeline : ℕ) (ts : List String) (r : Registry) (k : String)
    → consumers_of k (subscribe pipeline ts r) ≡ consumers_of k r ++ replicate (times k ts) pipeline
unfolding subscribe
consumers_of-subscribe p [] r k = sym (append-nil (consumers_of k r))
consumers_of-subscribe p (t ∷ ts) r k =
    let rest = consumers_of-subscribe p ts (insert t (consumers_of t r ++ p ∷ []) r) k in
    let here = consumers_of-insert t k (consumers_of t r ++ p ∷ []) r in
    elim (Bool-cases (str_eq t k)) [
      | inl same ↦ rw same (
          rest
          ∙ ap (λ ps. ps ++ replicate (times k ts) p)
              (here
                ∙ subst
                    (λ u.
                      (if str_eq t k then consumers_of t r ++ p ∷ [] else consumers_of k r)
                      ≡ consumers_of u r ++ p ∷ [])
                    ((eq_iff t k).0 same) (rw same))
          ∙ append_assoc (consumers_of k r) (p ∷ []) (replicate (times k ts) p))
      | inr other ↦ rw other (rest ∙ ap (λ ps. ps ++ replicate (times k ts) p) (here ∙ rw other))
    ]

abbrev pub is : ℕ → ℕ → ℕ
is p q = if q == p then 1 else 0

abbrev pub flag : Bool → ℕ
flag b = if b then 1 else 0

-- Whether `p` subscribes to some class.
abbrev pub is_subscribed : Registry → ℕ → Bool
is_subscribed [] p = false
is_subscribed ((t, ps) ∷ r) p = seen_before ps p || is_subscribed r p

seen_before-snoc :
    (cs : List ℕ) (q p : ℕ) → seen_before (cs ++ q ∷ []) p ≡ (seen_before cs p || (q == p))
seen_before-snoc [] q p = ground arith
seen_before-snoc (c ∷ cs) q p = ground (arith, seen_before-snoc cs q p)

-- A new pipeline at the end is found once.
snoc-count :
    (cs : List ℕ) (q p : ℕ)
    → seen_before cs q ≡ false
    → sum_by (is p) cs ≡ flag (seen_before cs p)
    → sum_by (is p) (cs ++ q ∷ []) ≡ flag (seen_before (cs ++ q ∷ []) p)
snoc-count cs q p new h =
    ground (arith, seen_before-snoc cs q p, sum_by-append (is p) cs (q ∷ []), new, h)

old-same :
    (cs : List ℕ) (q p : ℕ) (b : Bool)
    → seen_before cs q ≡ true
    → (seen_before cs p || b) ≡ (seen_before cs p || (if q == p then true else b))
old-same cs q p b old = ground (arith, old)

add_consumers-count :
    (cs ps : List ℕ) (p : ℕ)
    → sum_by (is p) cs ≡ flag (seen_before cs p)
    → (sum_by (is p) (add_consumers cs ps) ≡ flag (seen_before cs p || seen_before ps p))
      × (seen_before (add_consumers cs ps) p ≡ (seen_before cs p || seen_before ps p))
unfolding add_consumers
add_consumers-count cs [] p h = ground (arith, h)
add_consumers-count cs (q ∷ ps) p h = elim (Bool-cases (seen_before cs q)) [
  | inl old ↦ rw old (
      let e = old-same cs q p (seen_before ps p) old in
      let r = add_consumers-count cs ps p h in (r.0 ∙ ap flag e, r.1 ∙ e))
  | inr new ↦ rw new (
      let e = seen_before-snoc cs q p in
      let r = add_consumers-count (cs ++ q ∷ []) ps p (snoc-count cs q p new h) in
      (ground (arith, e, r), ground (arith, e, r)))
]

collect-count :
    (cs : List ℕ) (r : Registry) (p : ℕ)
    → sum_by (is p) cs ≡ flag (seen_before cs p)
    → sum_by (is p) (collect cs r) ≡ flag (seen_before cs p || is_subscribed r p)
unfolding collect
collect-count cs [] p h = ground (arith, h)
collect-count cs ((t, ps) ∷ r) p h =
    let a = add_consumers-count cs ps p h in
    ground (arith, a, collect-count (add_consumers cs ps) r p (a.0 ∙ ap flag (sym a.1)))

-- The broadcast of the shutdown reaches each pipeline that subscribes to some class once, and no
-- other.
pub all_consumers_once :
    (r : Registry) (p : ℕ) → sum_by (is p) (all_consumers r) ≡ flag (is_subscribed r p)
unfolding all_consumers
all_consumers_once r p = collect-count [] r p refl
