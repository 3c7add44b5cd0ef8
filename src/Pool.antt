-- ===== src/Pool.antt =====
-- pipelines/base_pipeline.py: the queue and the workers that every stage has; RequestsPipeline
-- repeats `start`, `resize` and `stop` word for word.
-- `start` is called once. A put that waits because the queue is full counts as queued. A worker is its id, and takes part
-- from its start until it takes a SHUTDOWN; `_worker_loop` catches what its item raises, so an
-- item never ends a worker. `take` says which worker gets which queued item, so that the steps hold
-- for the plain queue and for the priority queue.
pub mod Shutdown
pub mod Drain
mod Examples
use crawl_viz.Base.{
  ℕ, zero, suc, ◌+◌, ◌-◌, Bool, true, false, ◌||◌, not, Option, none, some, List, [], ◌∷◌, ◌++◌,
  ltb, ◌==◌, replicate, get_elem?, if◌then◌else◌,
}

pub data QueueItem (A : Type 0) : Type 0 where
  work : A → QueueItem A
  shutdown : QueueItem A

pub record PoolState (A : Type 0) : Type 0 where
  pub max_concurrency : ℕ
  pub queue : List (QueueItem A)
  pub workers : List ℕ
  pub next_id : ℕ
  pub started : Bool
  pub closed : Bool
  pub handled : List A

pub data PoolStep (A : Type 0) : Type 0 where
  put : A → PoolStep A
  start stop : PoolStep A
  resize : ℕ → PoolStep A
  take : ℕ → ℕ → PoolStep A

unfoldable pub delete_at : {A : Type 0} → ℕ → List A → List A
delete_at i [] = []
delete_at zero (x ∷ xs) = xs
delete_at (suc i) (x ∷ xs) = x ∷ delete_at i xs

module _ {A : Type 0} where
  pub new_pool : ℕ → PoolState A
  new_pool max_concurrency = record {
    max_concurrency = max_concurrency;
    queue = [];
    workers = [];
    next_id = 0;
    started = false;
    closed = false;
    handled = [];
  }

  -- `_pool_spawn`
  pub spawn : ℕ → PoolState A → PoolState A
  spawn zero s = s
  spawn (suc count) s =
      spawn count (record s { workers = s.workers ++ s.next_id ∷ []; next_id = suc s.next_id })

  pub shut_down : ℕ → PoolState A → PoolState A
  shut_down count s = record s { queue = s.queue ++ replicate count shutdown }

  -- `false`: `workers must be at least 1`.
  pub resize_pool : ℕ → PoolState A → Bool × PoolState A
  unfolding spawn shut_down
  resize_pool workers s =
      let s' : PoolState A = record s { max_concurrency = workers } in
      let grown = spawn (workers - s.max_concurrency) s' in
      let shrunk = shut_down (s.max_concurrency - workers) s' in
      if ltb workers 1
      then (false, s)
      else if s.closed || not s.started
      then (true, s')
      else if ltb s.max_concurrency workers
      then (true, grown)
      else (true, shrunk)

  pub stop_pool : PoolState A → PoolState A
  unfolding shut_down
  stop_pool s = shut_down s.max_concurrency (record s { closed = true })

  pub start_pool : PoolState A → PoolState A
  unfolding spawn
  start_pool s =
      spawn s.max_concurrency
        (record s { closed = false; next_id = 0; workers = []; started = true })

  -- One round of `_worker_loop`: worker `i` of those alive gets item `j` of those queued.
  pub take_item : ℕ → ℕ → PoolState A → PoolState A
  unfolding delete_at
  take_item i j s = elim (get_elem? s.workers i) [
    | none ↦ s
    | some _ ↦ elim (get_elem? s.queue j) [
      | none ↦ s
      | some (work a) ↦ record s { queue = delete_at j s.queue; handled = s.handled ++ a ∷ [] }
      | some shutdown ↦ record s { queue = delete_at j s.queue; workers = delete_at i s.workers }
    ]
  ]

  pub pool_step : PoolStep A → PoolState A → PoolState A
  unfolding resize_pool stop_pool start_pool take_item
  pool_step (put a) s = record s { queue = s.queue ++ work a ∷ [] }
  pool_step start s = if s.started then s else start_pool s
  pool_step stop s = stop_pool s
  pool_step (resize workers) s = (resize_pool workers s).1
  pool_step (take i j) s = take_item i j s

  pub pool_run : List (PoolStep A) → PoolState A → PoolState A
  unfolding pool_step
  pool_run [] s = s
  pool_run (t ∷ ts) s = pool_run ts (pool_step t s)
