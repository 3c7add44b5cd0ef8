-- ===== src/Buffer/Conservation.antt =====
-- No vector that the buffer took in is lost, doubled or reordered.
use crawl_viz.Base.{
  ℕ, ◌+◌, ◌-◌, ◌≤◌, ◌≡◌, refl, sym, ap, ◌∙◌, Bool, true, false, ◌||◌, List, [], ◌∷◌, ◌++◌,
  append-nil, append_assoc, length, length-append, length-take, take, leb, ◌==◌, if◌then◌else◌,
  arith, Bool-cases, inl, inr,
}
use crawl_viz.Buffer.{
  SpaceState, UpdaterState, UpdaterStep, added, added_batch, polled, new_updater, add, drain,
  is_ready_for_flush, add_vector, add_vectors, flush, maybe_flush, updater_step, updater_run,
}

module _ {A : Type 0} where
  add_vectors-entries :
      (items : List A) (space : SpaceState A)
      → (add_vectors items space).entries ≡ space.entries ++ items
  unfolding add_vectors add_vector
  add_vectors-entries [] space = sym (append-nil space.entries)
  add_vectors-entries (i ∷ is) space =
      add_vectors-entries is (add_vector i space) ∙ append_assoc space.entries (i ∷ []) is

  flush-added : (s : UpdaterState A) → (flush s).buffer.total_added ≡ s.buffer.total_added + 0
  unfolding flush drain
  flush-added s = ground arith

  -- What is in the space and what waits for it.
  abbrev pub held : UpdaterState A → List A
  held s = s.space.entries ++ s.buffer.buffer

  -- The counters of the buffer agree with what it holds, and it holds no more than it may.
  pub record Inv (s : UpdaterState A) : Type 0 where
    pub fits : length s.buffer.buffer ≤ s.buffer.max_size
    pub counts : s.buffer.total_added ≡ s.buffer.total_flushed + length s.buffer.buffer

  empty_list : (xs : List A) → length xs ≡ 0 → xs ≡ []
  empty_list [] h = refl
  empty_list (x ∷ xs) h = absurd (omega (arith, h))

  flush-held :
      (s : UpdaterState A)
      → ((flush s).space.entries ≡ held s)
        × ((flush s).buffer.buffer ≡ [])
        × (Inv s → Inv (flush s))
  unfolding flush drain
  flush-held s = elim (Bool-cases (length s.buffer.buffer == 0)) [
    | inl none_there ↦
        rw (none_there, flush)
          (
            sym (append-nil s.space.entries)
                ∙ ap (λ b. s.space.entries ++ b)
                    (sym (empty_list s.buffer.buffer (ground (arith, none_there)))),
            refl,
            λ v. record { fits = omega arith; counts = omega (arith, v.counts) },
          )
    | inr some_there ↦
        rw (some_there, flush)
          (
            add_vectors-entries s.buffer.buffer s.space,
            refl,
            λ v. record { fits = omega arith; counts = omega (arith, v.counts) },
          )
  ]

  add-held :
      (item : A) (s : UpdaterState A)
      → let (taken, b) = add item s.buffer in
        (s.space.entries ++ b.buffer ≡ held s ++ taken)
        × (Inv s → Inv (record s { buffer = b }))
        × (b.total_added ≡ s.buffer.total_added + length taken)
  unfolding add
  add-held item s = elim (Bool-cases (leb s.buffer.max_size (length s.buffer.buffer))) [
    | inl full ↦ rw (full, add) (sym (append-nil (held s)), (λ v. v), omega arith)
    | inr room ↦
        rw (room, add)
          (
            sym (append_assoc s.space.entries s.buffer.buffer (item ∷ [])),
            (λ v. record {
              fits = ground (arith, room, length-append s.buffer.buffer (item ∷ []));
              counts = omega (arith, v.counts, length-append s.buffer.buffer (item ∷ []));
            }),
            omega arith,
          )
  ]

  maybe_flush-held :
      (s : UpdaterState A)
      → (held (maybe_flush s) ≡ held s ++ [])
        × (Inv s → Inv (maybe_flush s))
        × ((maybe_flush s).buffer.total_added ≡ s.buffer.total_added + 0)
  unfolding maybe_flush
  maybe_flush-held s = choice (length s.buffer.buffer == 0)
    where
      choice :
          (b : Bool)
          → let s' = if b then s else flush s in
            (held s' ≡ held s ++ [])
            × (Inv s → Inv s')
            × (s'.buffer.total_added ≡ s.buffer.total_added + 0)
      choice true = (sym (append-nil (held s)), (λ v. v), omega arith)
      choice false =
          let f = flush-held s in
          (
            ap (λ b. (flush s).space.entries ++ b) f.1
                ∙ append-nil (flush s).space.entries
                ∙ f.0
                ∙ sym (append-nil (held s)),
            f.2,
            flush-added s,
          )

  step-held :
      (threshold : ℕ) (t : UpdaterStep A) (s : UpdaterState A)
      → let (taken, s') = updater_step threshold t s in
        (held s' ≡ held s ++ taken)
        × (Inv s → Inv s')
        × (s'.buffer.total_added ≡ s.buffer.total_added + length taken)
  unfolding updater_step
  step-held threshold (added item) s = add-held item s
  step-held threshold (added_batch items) s =
      let taken = take (s.buffer.max_size - length s.buffer.buffer) items in
      (
        sym (append_assoc s.space.entries s.buffer.buffer taken),
        (λ v. record {
          fits = omega (
            arith,
            v.fits,
            length-append s.buffer.buffer taken,
            length-take (s.buffer.max_size - length s.buffer.buffer) items,
          );
          counts = omega (arith, v.counts, length-append s.buffer.buffer taken);
        }),
        refl,
      )
  step-held threshold (polled due) s =
      elim (Bool-cases (due || is_ready_for_flush threshold s.buffer)) [
        | inl go ↦ rw go (maybe_flush-held s)
        | inr wait ↦ rw wait (sym (append-nil (held s)), (λ v. v), omega arith)
      ]

  pub new-Inv : (max_size : ℕ) (space : SpaceState A) → Inv (new_updater max_size space)
  unfolding new_updater
  new-Inv max_size space = record { fits = omega arith; counts = omega arith }

  run-held :
      (threshold : ℕ) (ts : List (UpdaterStep A)) (s : UpdaterState A)
      → Inv s
      → let (taken, s') = updater_run threshold ts s in
        (s'.space.entries ≡ held s ++ taken)
        × (s'.buffer.buffer ≡ [])
        × Inv s'
        × (s'.buffer.total_added ≡ s.buffer.total_added + length taken)
  unfolding updater_run
  run-held threshold [] s v =
      let f = flush-held s in (f.0 ∙ sym (append-nil (held s)), f.1, f.2 v, flush-added s)
  run-held threshold (t ∷ ts) s v =
      let (taken, s') = updater_step threshold t s in
      let h = step-held threshold t s in
      let r = run-held threshold ts s' (h.1 v) in
      let more = (updater_run threshold ts s').0 in
      (
        r.0 ∙ ap (λ l. l ++ more) h.0 ∙ append_assoc (held s) taken more,
        r.1,
        r.2,
        omega (arith, r.3, h.2, length-append taken more),
      )

  -- When the updater has stopped, the space holds what it held before and, in order and once each,
  -- every vector that the buffer took in; the buffer is empty, and its two counters are the number
  -- of those vectors.
  pub updater_run-entries :
      (threshold max_size : ℕ) (space : SpaceState A) (ts : List (UpdaterStep A))
      → let (taken, s) = updater_run threshold ts (new_updater max_size space) in
        (s.space.entries ≡ space.entries ++ taken)
        × (s.buffer.buffer ≡ [])
        × (s.buffer.total_added ≡ length taken)
        × (s.buffer.total_flushed ≡ length taken)
  updater_run-entries threshold max_size space ts =
      let r = run-held threshold ts (new_updater max_size space) (new-Inv max_size space) in
      let taken = (updater_run threshold ts (new_updater max_size space)).0 in
      unfold new_updater in
      (
        r.0 ∙ ap (λ l. l ++ taken) (append-nil space.entries),
        r.1,
        omega (arith, r.3),
        omega (arith, r.3, r.2.counts, ap length r.1),
      )

  -- The buffer never holds more than its maximum, and its counters agree with what it holds, whatever
  -- is added and flushed.
  pub updater_step-Inv :
      (threshold : ℕ) (t : UpdaterStep A) (s : UpdaterState A)
      → Inv s
      → Inv (updater_step threshold t s).1
  updater_step-Inv threshold t s v = (step-held threshold t s).1 v
