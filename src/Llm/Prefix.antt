-- ===== src/Llm/Prefix.antt =====
-- Shortening the URLs of a batch and restoring them.
use crawl_viz.Base.{
  ℕ, ◌≡◌, ◌↔◌, ◌⊎◌, inl, inr, refl, ap, sym, ◌∙◌, true, false, some, List, [], ◌∷◌, ◌++◌, length,
  length-append, leb, ◌==◌, drop, get_elem?, All, All-imp, All-get_elem?, arith, Bool-cases,
}
use crawl_viz.Llm.{
  Url, slash, shared, commonprefix, up_to, to_slash, common_url_prefix, starts_with, remove_prefix,
  has_scheme, restore_url,
}

starts_with_trans :
    (p q r : Url) → starts_with p q ≡ true → starts_with q r ≡ true → starts_with p r ≡ true
unfolding starts_with
starts_with_trans [] q r h k = refl
starts_with_trans (a ∷ p) [] r h k = cc
starts_with_trans (a ∷ p) (b ∷ q) [] h k = cc
starts_with_trans (a ∷ p) (b ∷ q) (c ∷ r) h k =
    ground (arith, starts_with_trans p q r (ground (arith, h)) (ground (arith, k)))

starts_with_refl : (u : Url) → starts_with u u ≡ true
unfolding starts_with
starts_with_refl [] = refl
starts_with_refl (a ∷ u) = ground (arith, starts_with_refl u)

shared-left : (u v : Url) → starts_with (shared u v) u ≡ true
unfolding shared starts_with
shared-left [] v = refl
shared-left (a ∷ u) [] = refl
shared-left (a ∷ u) (b ∷ v) = elim (Bool-cases (a == b)) [
  | inl same ↦ rw same (ground (arith, shared-left u v))
  | inr differ ↦ rw differ refl
]

shared-right : (u v : Url) → starts_with (shared u v) v ≡ true
unfolding shared starts_with
shared-right [] v = refl
shared-right (a ∷ u) [] = refl
shared-right (a ∷ u) (b ∷ v) = elim (Bool-cases (a == b)) [
  | inl same ↦ rw same (ground (arith, same, shared-right u v))
  | inr differ ↦ rw differ refl
]

starts_with-up_to :
    (a : ℕ) (p u : Url) → starts_with p u ≡ true → starts_with (up_to a p) (a ∷ u) ≡ true
unfolding up_to starts_with
starts_with-up_to a [] u h = elim (Bool-cases (a == slash)) [
  | inl here ↦ rw here (ground arith)
  | inr other ↦ rw other refl
]
starts_with-up_to a (b ∷ p) u h = ground (arith, h)

starts_with-to_slash : (u : Url) → starts_with (to_slash u) u ≡ true
unfolding to_slash starts_with
starts_with-to_slash [] = refl
starts_with-to_slash (a ∷ u) = starts_with-up_to a (to_slash u) u (starts_with-to_slash u)

abbrev Leads : Url → List Url → Type 0
Leads p = All (λ u. starts_with p u ≡ true)

commonprefix-Leads : (us : List Url) → Leads (commonprefix us) us
unfolding commonprefix
commonprefix-Leads [] = tt
commonprefix-Leads (u ∷ []) = (starts_with_refl u, tt)
commonprefix-Leads (u ∷ v ∷ us) = (
  shared-left u (commonprefix (v ∷ us)),
  All-imp (λ w. starts_with (commonprefix (v ∷ us)) w ≡ true)
      (λ w. starts_with (shared u (commonprefix (v ∷ us))) w ≡ true) (v ∷ us)
      (λ w. starts_with_trans _ _ w (shared-right u (commonprefix (v ∷ us))))
      (commonprefix-Leads (v ∷ us)),
)

none_Leads : (us : List Url) → Leads [] us
unfolding starts_with
none_Leads [] = tt
none_Leads (u ∷ us) = (refl, none_Leads us)

-- The prefix that is stated once leads each URL of the batch.
pub common_url_prefix-Leads : (us : List Url) → Leads (common_url_prefix us) us
unfolding common_url_prefix
common_url_prefix-Leads us = elim (Bool-cases (leb 2 (length us))) [
  | inl many ↦ rw many (
      All-imp (λ w. starts_with (commonprefix us) w ≡ true)
        (λ w. starts_with (to_slash (commonprefix us)) w ≡ true) us
        (λ w. starts_with_trans _ _ w (starts_with-to_slash (commonprefix us)))
        (commonprefix-Leads us))
  | inr few ↦ rw few (none_Leads us)
]

append-drop : (p u : Url) → starts_with p u ≡ true → p ++ drop (length p) u ≡ u
unfolding starts_with
append-drop [] u h = refl
append-drop (a ∷ p) [] h = cc
append-drop (a ∷ p) (b ∷ u) h = ground (arith, h, append-drop p u (ground (arith, h)))

shorter : (p u : Url) → p ++ u ≡ u → p ≡ []
shorter [] u h = refl
shorter (a ∷ p) u h = absurd (omega (arith, length-append (a ∷ p) u, ap length h))

restores :
    (p u : Url)
    → starts_with p u ≡ true
    → (restore_url p (remove_prefix p u) ≡ u)
      ↔ ((has_scheme (remove_prefix p u) ≡ false) ⊎ (p ≡ []))
unfolding restore_url remove_prefix
restores p u h =
    let whole = append-drop p u h in
    elim (Bool-cases (has_scheme (drop (length p) u))) [
      | inl full ↦
          rw (h, full)
            (
              (λ e. inr (shorter p (drop (length p) u) (whole ∙ sym e))),
              λ o. elim o [
                | inl absurd_case ↦ cc
                | inr nothing ↦ ap (λ q. q ++ drop (length p) u) (sym nothing) ∙ whole
              ],
            )
      | inr rest ↦ rw (h, rest) ((λ e. inl refl), λ o. whole)
    ]

-- A URL of a batch that is shortened and restored is the same again exactly if what is left of it does not
-- start with http:// or https://, or nothing was cut off.
pub restore_url-remove_prefix :
    (us : List Url) (i : ℕ) {u : Url}
    → get_elem? us i ≡ some u
    → (restore_url (common_url_prefix us) (remove_prefix (common_url_prefix us) u) ≡ u) ↔ (
        (has_scheme (remove_prefix (common_url_prefix us) u) ≡ false) ⊎ (common_url_prefix us ≡ []))
unfolding restore_url remove_prefix
restore_url-remove_prefix us i {u} found = restores (common_url_prefix us) u (
    All-get_elem? (λ w. starts_with (common_url_prefix us) w ≡ true) us i
      (common_url_prefix-Leads us) found)
