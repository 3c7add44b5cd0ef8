-- ===== src/Telemetry/Pending.antt =====
-- What the bridge holds back for nodes to come stays bounded, and so does what the snapshot keeps.
use crawl_viz.Base.{
  ℕ, suc, ◌≤◌, String, List, [], ◌∷◌, length, leb, str_eq, Bool-cases, inl, inr, arith,
}
use crawl_viz.Base.Texts.{Dict, insert, erase}
use crawl_viz.Models.{Link}
use crawl_viz.Admission.{Candidate}
use crawl_viz.Telemetry.{PendingDetail, max_pending_detail}
use crawl_viz.Telemetry.Nodes.{make_room, stash, pending_of}

module _ {ℓ} {V : Type ℓ} where
  pub length-insert_le :
      (key : String) (x : V) (d : Dict V) → length (insert key x d) ≤ suc (length d)
  unfolding insert
  length-insert_le key x [] = omega arith
  length-insert_le key x ((k, y) ∷ rest) = elim (Bool-cases (str_eq k key)) [
    | inl here ↦ rw here (omega arith)
    | inr other ↦ rw other (omega (arith, length-insert_le key x rest))
  ]

  pub length-erase_le : (key : String) (d : Dict V) → length (erase key d) ≤ length d
  unfolding erase
  length-erase_le key [] = omega arith
  length-erase_le key ((k, y) ∷ rest) = elim (Bool-cases (str_eq k key)) [
    | inl here ↦ rw here (omega (arith, length-erase_le key rest))
    | inr other ↦ rw other (omega (arith, length-erase_le key rest))
  ]

length-make_room :
    (d : Dict PendingDetail)
    → length d ≤ max_pending_detail
    → suc (length (make_room d)) ≤ max_pending_detail
unfolding make_room
length-make_room [] h = omega arith
length-make_room ((k, p) ∷ rest) h =
    elim (Bool-cases (leb max_pending_detail (suc (length rest)))) [
      | inl full ↦ rw full h
      | inr free ↦ rw free (ground (arith, free))
    ]

module _ (str : ℕ → String) (unquote : String → String) (nlp_vector : Link → Dict ℕ) where
  pub length-stash_le :
      (cs : List Candidate) (d : Dict PendingDetail)
      → length d ≤ max_pending_detail
      → length (stash str unquote nlp_vector cs d) ≤ max_pending_detail
  unfolding stash
  length-stash_le [] d h = h
  length-stash_le (c ∷ cs) d h = length-stash_le cs _ (
      omega (
        arith,
        length-insert_le (unquote c.link.url) (pending_of str unquote nlp_vector c) (make_room d),
        length-make_room d h,
      ))
