-- ===== src/Scoring/Ranked.antt =====
-- `sorted(links, key=lambda link: link._nlp_score, reverse=True)`: highest score first, and links
-- of one score stay in their order.
use crawl_viz.Base.{
  ℕ, ◌≤◌, ◌≡◌, refl, List, [], ◌∷◌, leb, if◌then◌else◌, All, All-imp, arith, take, drop, zero, suc,
  Bool-cases, inl, inr, keep, SameItems, ◌==◌,
}
use crawl_viz.Models.{Link}

place : Link → List Link → List Link
place l [] = l ∷ []
place l (m ∷ ms) =
    let rest = place l ms in if leb m.nlp_score l.nlp_score then l ∷ m ∷ ms else m ∷ rest

unfoldable pub rank : List Link → List Link
unfolding place
rank [] = []
rank (l ∷ ls) = place l (rank ls)

place-sum_by : (l : Link) (ms : List Link) → SameItems (place l ms) (l ∷ ms)
unfolding place
place-sum_by l [] w = omega arith
place-sum_by l (m ∷ ms) w = ground (arith, place-sum_by l ms w)

-- Ranking keeps the links.
pub rank-SameItems : (ls : List Link) → SameItems (rank ls) ls
unfolding rank
rank-SameItems [] w = omega arith
rank-SameItems (l ∷ ls) w = omega (arith, place-sum_by l (rank ls) w, rank-SameItems ls w)

-- No link below `l` in the list scores higher.
abbrev pub Leads : Link → List Link → Type 0
Leads l = All (λ m. m.nlp_score ≤ l.nlp_score)

abbrev pub IsRanked : List Link → Type 0
IsRanked [] = Unit {0}
IsRanked (l ∷ ls) = Leads l ls × IsRanked ls

place-Leads :
    (k l : Link) (ms : List Link) → l.nlp_score ≤ k.nlp_score → Leads k ms → Leads k (place l ms)
unfolding place
place-Leads k l [] h v = (h, tt)
place-Leads k l (m ∷ ms) h v = elim (Bool-cases (leb m.nlp_score l.nlp_score)) [
  | inl first ↦ simp first (h, v)
  | inr later ↦ simp later (v.0, place-Leads k l ms h v.1)
]

Leads-mono : (k l : Link) (ms : List Link) → k.nlp_score ≤ l.nlp_score → Leads k ms → Leads l ms
Leads-mono k l ms h v =
    All-imp (λ m. m.nlp_score ≤ k.nlp_score) (λ m. m.nlp_score ≤ l.nlp_score) ms
      (λ m b. omega arith) v

place-IsRanked : (l : Link) (ms : List Link) → IsRanked ms → IsRanked (place l ms)
unfolding place
place-IsRanked l [] v = (tt, tt)
place-IsRanked l (m ∷ ms) v = elim (Bool-cases (leb m.nlp_score l.nlp_score)) [
  | inl first ↦ simp first ((ground arith, Leads-mono m l ms (ground arith) v.0), v)
  | inr later ↦ simp later (place-Leads m l ms (ground arith) v.0, place-IsRanked l ms v.1)
]

pub rank-IsRanked : (ls : List Link) → IsRanked (rank ls)
unfolding rank
rank-IsRanked [] = tt
rank-IsRanked (l ∷ ls) = place-IsRanked l (rank ls) (rank-IsRanked ls)

place-keep :
    (s : ℕ) (l : Link) (ms : List Link)
    → keep (λ m. m.nlp_score == s) (place l ms) ≡ keep (λ m. m.nlp_score == s) (l ∷ ms)
unfolding place
place-keep s l [] = refl
place-keep s l (m ∷ ms) = ground (arith, place-keep s l ms)

-- Links of one score stay in their order.
pub rank-keep :
    (s : ℕ) (ls : List Link)
    → keep (λ m. m.nlp_score == s) (rank ls) ≡ keep (λ m. m.nlp_score == s) ls
unfolding rank
rank-keep s [] = refl
rank-keep s (l ∷ ls) = ground (arith, place-keep s l (rank ls), rank-keep s ls)

All-take : (P : Link → Type 0) (n : ℕ) (ls : List Link) → All P ls → All P (take n ls)
All-take P zero ls h = tt
All-take P (suc n) [] h = tt
All-take P (suc n) (l ∷ ls) h = (h.0, All-take P n ls h.1)

All-drop : (P : Link → Type 0) (n : ℕ) (ls : List Link) → All P ls → All P (drop n ls)
All-drop P zero ls h = h
All-drop P (suc n) [] h = tt
All-drop P (suc n) (l ∷ ls) h = All-drop P n ls h.1

-- A cut of a ranked list: each link of the first part scores at least as much as each of the rest.
pub take-Leads-drop :
    (n : ℕ) (ls : List Link) → IsRanked ls → All (λ l. Leads l (drop n ls)) (take n ls)
take-Leads-drop zero ls v = tt
take-Leads-drop (suc n) [] v = tt
take-Leads-drop (suc n) (l ∷ ls) v =
    (All-drop (λ m. m.nlp_score ≤ l.nlp_score) n ls v.0, take-Leads-drop n ls v.1)
