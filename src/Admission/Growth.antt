-- ===== src/Admission/Growth.antt =====
-- What the storage stage promises of the crawl graph, with no word of its representation: a list of
-- nodes that starts with the seeds and grows by one admitted child at a time.
use mathlib.Core.Bool.{false≢true}
use crawl_viz.Base.{
  ℕ, zero, suc, subst, get_elem?-append_left, ◌+◌, ◌≤◌, ◌<◌, String, ◌≡◌, ◌≢◌, ap, sym, ◌∙◌, ◌⊎◌,
  inl, inr, false, Option, none, some, List, [], ◌∷◌, ◌++◌, map, length, get_elem?, get_elem?-snoc,
  get_elem?-lt, arith,
}
use crawl_viz.Base.Texts.{contains, contains-get_elem?}

pub record NodeView : Type 0 where
  pub id : ℕ
  pub url : String
  pub depth : ℕ
  pub parent : Option ℕ

abbrev pub urls : List NodeView → List String
urls = map (λ v. v.url)

-- Seeds are numbered from `k`, stand at depth 0 and have no parent.
abbrev pub IsSeeds : ℕ → List NodeView → Type 0
IsSeeds k [] = Unit
IsSeeds k (v ∷ vs) = (v.id ≡ k) × (v.depth ≡ 0) × (v.parent ≡ none) × IsSeeds (suc k) vs

abbrev pub IsShallow : Option ℕ → ℕ → Type 0
IsShallow none depth = Unit
IsShallow (some limit) depth = depth ≤ limit

-- `v` may join `vs`: the next id, a URL that no node has, one below a node that is there.
pub record Admits (limit : Option ℕ) (vs : List NodeView) (v : NodeView) : Type 0 where
  pub id : v.id ≡ length vs
  pub fresh : contains (urls vs) v.url ≡ false
  pub above : NodeView
  pub above_at : get_elem? vs above.id ≡ some above
  pub parent : v.parent ≡ some above.id
  pub depth : v.depth ≡ suc above.depth
  pub shallow : IsShallow limit v.depth

pub data Grown (limit : Option ℕ) : List NodeView → Type 0 where
  seeds : {vs : List NodeView} → IsSeeds 0 vs → Grown limit vs
  grow :
      {vs ws : List NodeView} (v : NodeView)
      → Grown limit vs
      → Admits limit vs v
      → ws ≡ vs ++ v ∷ []
      → Grown limit ws

IsSeeds-at :
    (k : ℕ) (vs : List NodeView) (i : ℕ) {v : NodeView}
    → IsSeeds k vs
    → get_elem? vs i ≡ some v
    → (v.id ≡ k + i) × (v.parent ≡ none)
IsSeeds-at k [] i h e = cc
IsSeeds-at k (w ∷ vs) zero h e = ground arith
IsSeeds-at k (w ∷ vs) (suc i) h e = let r = IsSeeds-at (suc k) vs i h.3 e in (omega arith, r.1)

urls-at :
    (vs : List NodeView) (i : ℕ) {v : NodeView}
    → get_elem? vs i ≡ some v
    → get_elem? (urls vs) i ≡ some v.url
urls-at [] i h = cc
urls-at (w ∷ vs) zero h = ground arith
urls-at (w ∷ vs) (suc i) h = urls-at vs i h

snoc_at :
    (vs ws : List NodeView) (w : NodeView) (i : ℕ) {v : NodeView}
    → ws ≡ vs ++ w ∷ []
    → get_elem? ws i ≡ some v
    → (get_elem? vs i ≡ some v) ⊎ ((i ≡ length vs) × (w ≡ v))
snoc_at vs ws w i {v} q e = get_elem?-snoc vs w i (subst (λ l. get_elem? l i ≡ some v) q e)

module _ {limit : Option ℕ} where
  -- Every node stands at the position of its id.
  pub Grown-id :
      {ws : List NodeView} (i : ℕ) {v : NodeView}
      → Grown limit ws
      → get_elem? ws i ≡ some v
      → v.id ≡ i
  Grown-id {ws} i (seeds h) e = let r = IsSeeds-at 0 ws i h e in omega arith
  Grown-id {ws} i {v} (grow {vs} w g a q) e = elim (snoc_at vs ws w i q e) [
    | inl h ↦ Grown-id i g h
    | inr (n, s) ↦ ground (arith, a.id)
  ]

  -- The URL of a child differs from that of every node before it.
  pub Grown-url_ne :
      {ws : List NodeView} (i j : ℕ) {v w : NodeView}
      → Grown limit ws
      → i < j
      → get_elem? ws i ≡ some v
      → get_elem? ws j ≡ some w
      → w.parent ≢ none
      → v.url ≢ w.url
  Grown-url_ne {ws} i j (seeds h) l e f c = absurd (c (IsSeeds-at 0 ws j h f).1)
  Grown-url_ne {ws} i j {v} {w} (grow {vs} x g a q) l e f c = elim (snoc_at vs ws x j q f) [
    | inl h ↦ elim (snoc_at vs ws x i q e) [
      | inl k ↦ Grown-url_ne i j g l k h c
      | inr (n, s) ↦ absurd (omega (arith, get_elem?-lt vs j h))
    ]
    | inr (n, s) ↦ elim (snoc_at vs ws x i q e) [
      | inl k ↦ (λ same. false≢true (
          sym a.fresh
          ∙ ap (λ y. contains (urls vs) y) (ap (λ y. y.url) s ∙ sym same)
          ∙ contains-get_elem? (urls vs) i (urls-at vs i k)))
      | inr (m, t) ↦ absurd (omega arith)
    ]
  ]

  -- A child's parent stands before it, one level up, and the child is within the depth limit.
  pub Grown-parent :
      {ws : List NodeView} (i : ℕ) {v : NodeView}
      → Grown limit ws
      → get_elem? ws i ≡ some v
      → v.parent ≢ none
      → (p : NodeView) × (get_elem? ws p.id ≡ some p)
        × (p.id < i)
        × (v.parent ≡ some p.id)
        × (v.depth ≡ suc p.depth)
        × IsShallow limit v.depth
  Grown-parent {ws} i (seeds h) e c = absurd (c (IsSeeds-at 0 ws i h e).1)
  Grown-parent {ws} i {v} (grow {vs} x g a q) e c = elim (snoc_at vs ws x i q e) [
    | inl k ↦
        (let (p, at, below, par, dep, ok) = Grown-parent i g k c in
          (p, later p at, below, par, dep, ok))
    | inr (n, s) ↦ (
      a.above,
      later a.above a.above_at,
      omega (arith, get_elem?-lt vs a.above.id a.above_at),
      subst (λ y. y.parent ≡ some a.above.id) s a.parent,
      subst (λ y. y.depth ≡ suc a.above.depth) s a.depth,
      subst (λ y. IsShallow limit y.depth) s a.shallow,
    )
  ]
    where
      later : (p : NodeView) → get_elem? vs p.id ≡ some p → get_elem? ws p.id ≡ some p
      later p at = rw (q, get_elem?-append_left vs (x ∷ []) p.id (get_elem?-lt vs p.id at)) at
