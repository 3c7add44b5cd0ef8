-- ===== src/Pool/Drain.antt =====
-- Once a pool is stopped, its workers end, whatever the order in which they take the items.
use crawl_viz.Base.{
  ℕ, zero, suc, ◌≤◌, ◌<◌, ◌≡◌, refl, true, List, [], ◌∷◌, ltb, get_elem?, length, sum_by, arith,
  Bool-cases, Option-cases, inl, inr, ◌∙◌, ◌⊎◌, get_elem?-some, get_elem?-lt,
}
use crawl_viz.Pool.{
  QueueItem, work, shutdown, PoolState, PoolStep, new_pool, shut_down, stop_pool, start_pool,
  take_item, pool_run,
}
use crawl_viz.Pool.Shutdown.{
  Inv, is_shutdown, length-delete_at, take_item-Inv, stop_pool-Inv, pool_run-Inv, start_pool-Inv,
}

module _ {A : Type 0} where
  -- A schedule names a live worker and a queued item whenever there are both.
  abbrev pub IsSchedule : (PoolState A → ℕ × ℕ) → Type 0
  IsSchedule choose =
      (s : PoolState A)
      → 0 < length s.workers
      → 0 < length s.queue
      → ((choose s).0 < length s.workers) × ((choose s).1 < length s.queue)

  pub work_off : (PoolState A → ℕ × ℕ) → ℕ → PoolState A → PoolState A
  unfolding take_item
  work_off choose zero s = s
  work_off choose (suc rounds) s = work_off choose rounds (take_item (choose s).0 (choose s).1 s)

  item-cases : (x : QueueItem A) → ((a : A) × (x ≡ work a)) ⊎ (x ≡ shutdown)
  item-cases (work a) = inl (a, refl)
  item-cases shutdown = inr refl

  take_item-shrinks :
      (i j : ℕ) (s : PoolState A)
      → i < length s.workers
      → j < length s.queue
      → suc (length (take_item i j s).queue) ≡ length s.queue
  unfolding take_item
  take_item-shrinks i j s h k =
      let (w, alive) = get_elem?-some s.workers i h in
      let (x, next) = get_elem?-some s.queue j k in
      elim (item-cases x) [
        | inl (a, e) ↦ rw (alive, next, e, take_item) (length-delete_at j s.queue next)
        | inr e ↦ rw (alive, next, e, take_item) (length-delete_at j s.queue next)
      ]

  closed-take_item : (i j : ℕ) (s : PoolState A) → (take_item i j s).closed ≡ s.closed
  unfolding take_item
  closed-take_item i j s = ground arith

  sentinels_le : (q : List (QueueItem A)) → sum_by is_shutdown q ≤ length q
  sentinels_le [] = omega arith
  sentinels_le (work a ∷ q) = omega (arith, sentinels_le q)
  sentinels_le (shutdown ∷ q) = omega (arith, sentinels_le q)

  no_workers :
      (i j : ℕ) (s : PoolState A) → length s.workers ≡ 0 → length (take_item i j s).workers ≡ 0
  unfolding take_item
  no_workers i j s h = elim (Option-cases (get_elem? s.workers i)) [
    | inl none_there ↦ rw (none_there, take_item) h
    | inr (w, alive) ↦ absurd (omega (arith, get_elem?-lt s.workers i alive, h))
  ]

  still_none :
      (choose : PoolState A → ℕ × ℕ) (rounds : ℕ) (s : PoolState A)
      → length s.workers ≡ 0
      → length (work_off choose rounds s).workers ≡ 0
  unfolding work_off
  still_none choose zero s h = h
  still_none choose (suc rounds) s h =
      still_none choose rounds _ (no_workers (choose s).0 (choose s).1 s h)

  work_off-ends :
      (choose : PoolState A → ℕ × ℕ) (rounds : ℕ) (s : PoolState A)
      → IsSchedule choose
      → Inv s
      → s.closed ≡ true
      → length s.queue ≤ rounds
      → length (work_off choose rounds s).workers ≡ 0
  unfolding work_off
  work_off-ends choose zero s c v e h = omega (arith, v.shut e, sentinels_le s.queue)
  work_off-ends choose (suc rounds) s c v e h = elim (Bool-cases (ltb 0 (length s.workers))) [
    | inl alive ↦
        (let some_queued : 0 < length s.queue = ground (arith, v.shut e, sentinels_le s.queue) in
          let (i, j) = c s (ground arith) some_queued in
          work_off-ends choose rounds _ c (take_item-Inv (choose s).0 (choose s).1 s v)
            (closed-take_item (choose s).0 (choose s).1 s ∙ e)
            (omega (arith, take_item-shrinks (choose s).0 (choose s).1 s i j)))
    | inr ended ↦ still_none choose (suc rounds) s (ground arith)
  ]

  -- After `stop`, however its workers and items are scheduled, a started pool that gets no more
  -- items has ended every worker once it has taken as many items as were queued.
  pub work_off-stop :
      (choose : PoolState A → ℕ × ℕ) (n : ℕ) (ts : List (PoolStep A))
      → IsSchedule choose
      → let s = stop_pool (pool_run ts (start_pool (new_pool n))) in
        length (work_off choose (length s.queue) s).workers ≡ 0
  work_off-stop choose n ts c =
      let s = pool_run ts (start_pool (new_pool n)) in
      work_off-ends choose (length (stop_pool s).queue) (stop_pool s) c
        (stop_pool-Inv s (pool_run-Inv ts _ (start_pool-Inv n)))
        (unfold stop_pool shut_down in refl) (omega arith)
