-- ===== src/Snapshot/Bounded.antt =====
-- A bounded history: the last entries that were appended, never more than its length.
use crawl_viz.Base.{
  ℕ, zero, suc, ◌+◌, ◌-◌, ◌≤◌, ◌≡◌, refl, ap, sym, ◌∙◌, List, [], ◌∷◌, ◌++◌, append_assoc,
  append-nil, length, length-append, length-drop, drop, arith,
}
use crawl_viz.Snapshot.{append_bounded}

module _ {ℓ} {A : Type ℓ} where
  -- `append` of each entry, one after the other.
  pub append_all : ℕ → List A → List A → List A
  append_all maxlen [] xs = xs
  append_all maxlen (y ∷ ys) xs = append_all maxlen ys (append_bounded maxlen y xs)

  -- The last `n` entries.
  abbrev pub last_of : ℕ → List A → List A
  last_of n xs = drop (length xs - n) xs

  pub length-append_bounded_le :
      (maxlen : ℕ) (x : A) (xs : List A) → length (append_bounded maxlen x xs) ≤ maxlen
  unfolding append_bounded
  length-append_bounded_le maxlen x xs =
      omega (arith, length-drop (length (xs ++ x ∷ []) - maxlen) (xs ++ x ∷ []))

  drop-append_left : (n : ℕ) (xs ys : List A) → n ≤ length xs → drop n (xs ++ ys) ≡ drop n xs ++ ys
  drop-append_left zero xs ys h = refl
  drop-append_left (suc n) [] ys h = absurd (omega arith)
  drop-append_left (suc n) (x ∷ xs) ys h = drop-append_left n xs ys (omega arith)

  drop_nil : (n : ℕ) → drop {A = A} n [] ≡ []
  drop_nil zero = refl
  drop_nil (suc n) = refl

  drop-drop : (m n : ℕ) (xs : List A) → drop m (drop n xs) ≡ drop (n + m) xs
  drop-drop m zero xs = ap (λ k. drop k xs) (omega arith)
  drop-drop m (suc n) [] = drop_nil m ∙ sym (drop_nil (suc n + m))
  drop-drop m (suc n) (x ∷ xs) = drop-drop m n xs ∙ ap (λ k. drop k (x ∷ xs)) (suc_plus n m)
    where
      suc_plus : (n m : ℕ) → suc (n + m) ≡ suc n + m
      suc_plus n m = omega arith

  last_of-append : (n : ℕ) (xs ys : List A) → last_of n (last_of n xs ++ ys) ≡ last_of n (xs ++ ys)
  last_of-append n xs ys =
      let cut : ℕ = length xs - n in
      let total : cut + (length (drop cut xs) + length ys - n) ≡ length (xs ++ ys) - n =
        omega (arith, length-drop cut xs, length-append xs ys) in
      ap (λ k. drop k (drop cut xs ++ ys)) (ap (λ k. k - n) (length-append (drop cut xs) ys))
      ∙ ap (drop (length (drop cut xs) + length ys - n))
          (sym (drop-append_left cut xs ys (omega arith)))
      ∙ drop-drop (length (drop cut xs) + length ys - n) cut (xs ++ ys)
      ∙ ap (λ k. drop k (xs ++ ys)) total

  -- A history that starts within its length holds the last entries of what was there and appended.
  pub append_all-eq :
      (maxlen : ℕ) (ys xs : List A)
      → length xs ≤ maxlen
      → append_all maxlen ys xs ≡ last_of maxlen (xs ++ ys)
  unfolding append_all append_bounded
  append_all-eq maxlen [] xs h =
      let none_cut : 0 ≡ length xs - maxlen = omega (arith, h) in
      ap (λ k. drop k xs) none_cut ∙ ap (last_of maxlen) (sym (append-nil xs))
  append_all-eq maxlen (y ∷ ys) xs h =
      append_all-eq maxlen ys (append_bounded maxlen y xs) (length-append_bounded_le maxlen y xs)
      ∙ last_of-append maxlen (xs ++ y ∷ []) ys
      ∙ ap (last_of maxlen) (append_assoc xs (y ∷ []) ys)
