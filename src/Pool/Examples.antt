-- ===== src/Pool/Examples.antt =====
-- A pool of two workers that is shrunk, fed and stopped.
use crawl_viz.Base.{ℕ, ◌+◌, ◌≤◌, ◌≡◌, true, false, List, [], ◌∷◌, length}
use crawl_viz.Pool.{
  PoolState, PoolStep, put, resize, take, new_pool, start_pool, stop_pool, pool_run,
}
use crawl_viz.Pool.Shutdown.{sentinels, pool_run-sentinels}
use crawl_viz.Pool.Drain.{IsSchedule, work_off, work_off-stop}

abbrev steps : List (PoolStep ℕ)
steps = put 7 ∷ resize 1 ∷ take 0 0 ∷ resize 3 ∷ put 8 ∷ []

pool_run-sentinels_example :
    let s = pool_run steps (start_pool (new_pool 2)) in
    (s.closed ≡ false → length s.workers ≡ s.max_concurrency + sentinels s)
    × (s.closed ≡ true → length s.workers ≤ sentinels s)
pool_run-sentinels_example = pool_run-sentinels 2 steps

abbrev in_order : PoolState ℕ → ℕ × ℕ
in_order s = (0, 0)

in_order-IsSchedule : IsSchedule in_order
in_order-IsSchedule s workers queued = (workers, queued)

work_off-stop_example :
    let s = stop_pool (pool_run steps (start_pool (new_pool 2))) in
    length (work_off in_order (length s.queue) s).workers ≡ 0
work_off-stop_example = work_off-stop in_order 2 steps in_order-IsSchedule
