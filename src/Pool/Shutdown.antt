-- ===== src/Pool/Shutdown.antt =====
-- No worker is left waiting: the sentinels in the queue match the workers that must end.
use mathlib.Core.Bool.{true≢false}
use crawl_viz.Base.{
  ℕ, zero, suc, ◌+◌, ◌-◌, ◌≤◌, ◌≡◌, refl, true, false, some, List, [], ◌∷◌, ◌++◌, ltb, replicate,
  get_elem?, length, sum_by, sum_by-append, length-append, arith, Bool-cases, Option-cases, inl,
  inr, ap, sym, ◌∙◌, subst,
}
use crawl_viz.Pool.{
  QueueItem, work, shutdown, PoolState, PoolStep, put, start, stop, resize, take, new_pool,
  delete_at, spawn, shut_down, resize_pool, stop_pool, start_pool, take_item, pool_step, pool_run,
}

abbrev pub is_shutdown : {A : Type 0} → QueueItem A → ℕ
is_shutdown (work a) = 0
is_shutdown shutdown = 1

pub length-delete_at :
    {A : Type 0} (i : ℕ) (xs : List A) {x : A}
    → get_elem? xs i ≡ some x
    → suc (length (delete_at i xs)) ≡ length xs
unfolding delete_at
length-delete_at i [] h = cc
length-delete_at zero (y ∷ xs) h = omega arith
length-delete_at (suc i) (y ∷ xs) h = omega (arith, length-delete_at i xs h)

sentinels-replicate :
    (A : Type 0) (n : ℕ) → sum_by is_shutdown (replicate {A = QueueItem A} n shutdown) ≡ n
sentinels-replicate A zero = refl
sentinels-replicate A (suc n) = omega (arith, sentinels-replicate A n)

module _ {A : Type 0} where
  abbrev pub sentinels : PoolState A → ℕ
  sentinels s = sum_by is_shutdown s.queue

  sentinels-delete_at :
      (j : ℕ) (q : List (QueueItem A)) {x : QueueItem A}
      → get_elem? q j ≡ some x
      → is_shutdown x + sum_by is_shutdown (delete_at j q) ≡ sum_by is_shutdown q
  unfolding delete_at
  sentinels-delete_at j [] h = cc
  sentinels-delete_at zero (y ∷ q) h = ground arith
  sentinels-delete_at (suc j) (y ∷ q) h = omega (arith, sentinels-delete_at j q h)

  -- What `spawn` leaves alone, and the workers that it adds.
  record Spawned (count : ℕ) (s s' : PoolState A) : Type 0 where
    more : length s'.workers ≡ length s.workers + count
    queue : s'.queue ≡ s.queue
    size : s'.max_concurrency ≡ s.max_concurrency
    started : s'.started ≡ s.started
    closed : s'.closed ≡ s.closed

  spawn-Spawned : (count : ℕ) (s : PoolState A) → Spawned count s (spawn count s)
  unfolding spawn
  spawn-Spawned zero s = record {
    more = omega arith;
    queue = refl;
    size = refl;
    started = refl;
    closed = refl;
  }
  spawn-Spawned (suc count) s =
      let next : PoolState A = record s {
        workers = s.workers ++ s.next_id ∷ [];
        next_id = suc s.next_id;
      } in
      let r = spawn-Spawned count next in
      record {
        more = omega (arith, r.more, length-append s.workers (s.next_id ∷ []));
        queue = r.queue;
        size = r.size;
        started = r.started;
        closed = r.closed;
      }

  -- A running pool has as many workers as it should have and as there are sentinels for the others;
  -- in a closed pool there is a sentinel for every worker.
  pub record Inv (s : PoolState A) : Type 0 where
    pub runs : s.started ≡ true
    pub running : s.closed ≡ false → length s.workers ≡ s.max_concurrency + sentinels s
    pub shut : s.closed ≡ true → length s.workers ≤ sentinels s

  sentinels-shut_down : (n : ℕ) (s : PoolState A) → sentinels (shut_down n s) ≡ sentinels s + n
  unfolding shut_down
  sentinels-shut_down n s =
      omega
        (arith, sum_by-append is_shutdown s.queue (replicate n shutdown), sentinels-replicate A n)

  put-Inv : (a : A) (s : PoolState A) → Inv s → Inv (pool_step (put a) s)
  unfolding pool_step
  put-Inv a s v =
      let e = sum_by-append is_shutdown s.queue (work a ∷ []) in
      record {
        runs = v.runs;
        running = λ h. omega (arith, e, v.running h);
        shut = λ h. omega (arith, e, v.shut h);
      }

  pub stop_pool-Inv : (s : PoolState A) → Inv s → Inv (stop_pool s)
  unfolding stop_pool shut_down
  stop_pool-Inv s v =
      let e = sentinels-shut_down s.max_concurrency s in
      record {
        runs = v.runs;
        running = λ h. cc;
        shut = λ _. elim (Bool-cases s.closed) [
          | inl done ↦ omega (arith, e, v.shut done)
          | inr going ↦ omega (arith, e, v.running going)
        ];
      }

  spawn-Inv :
      (count : ℕ) (s : PoolState A)
      → s.started ≡ true
      → s.closed ≡ false
      → length s.workers + count ≡ s.max_concurrency + sentinels s
      → Inv (spawn count s)
  spawn-Inv count s on going h =
      let r = spawn-Spawned count s in
      let e = ap (sum_by is_shutdown) r.queue in
      record {
        runs = r.started ∙ on;
        running = λ _. omega (arith, r.more, r.size, e, h);
        shut = λ c. absurd (true≢false (sym c ∙ (r.closed ∙ going)));
      }

  resize_pool-Inv : (n : ℕ) (s : PoolState A) → Inv s → Inv (resize_pool n s).1
  unfolding resize_pool shut_down
  resize_pool-Inv n s v = elim (Bool-cases (ltb n 1)) [
    | inl bad ↦ rw (bad, resize_pool) v
    | inr fine ↦ elim (Bool-cases s.closed) [
      | inl done ↦
          rw (fine, done, resize_pool)
            (record { runs = v.runs; running = λ h. cc; shut = λ h. v.shut done })
      | inr going ↦ elim (Bool-cases (ltb s.max_concurrency n)) [
        | inl more ↦
            rw (fine, going, v.runs, more, resize_pool)
              (spawn-Inv (n - s.max_concurrency) _ refl refl (ground (arith, v.running going)))
        | inr less ↦
            (let e =
                sentinels-shut_down (s.max_concurrency - n) (record s { max_concurrency = n }) in
              rw (fine, going, v.runs, less, resize_pool)
                (record {
                  runs = refl;
                  running = λ h. ground (arith, e, v.running going);
                  shut = λ h. cc;
                }))
      ]
    ]
  ]

  pub take_item-Inv : (i j : ℕ) (s : PoolState A) → Inv s → Inv (take_item i j s)
  unfolding take_item
  take_item-Inv i j s v = elim (Option-cases (get_elem? s.workers i)) [
    | inl none_there ↦ rw (none_there, take_item) v
    | inr (w, alive) ↦ elim (Option-cases (get_elem? s.queue j)) [
      | inl empty ↦ rw (alive, empty, take_item) v
      | inr (work a, next) ↦
          rw (alive, next, take_item)
            (record {
              runs = v.runs;
              running = λ h. omega (arith, sentinels-delete_at j s.queue next, v.running h);
              shut = λ h. omega (arith, sentinels-delete_at j s.queue next, v.shut h);
            })
      | inr (shutdown, next) ↦
          rw (alive, next, take_item)
            (record {
              runs = v.runs;
              running = λ h. omega (
                arith,
                sentinels-delete_at j s.queue next,
                length-delete_at i s.workers alive,
                v.running h,
              );
              shut = λ h. omega (
                arith,
                sentinels-delete_at j s.queue next,
                length-delete_at i s.workers alive,
                v.shut h,
              );
            })
    ]
  ]

  start_again : (s : PoolState A) → s.started ≡ true → pool_step start s ≡ s
  unfolding pool_step
  start_again s h = ground (arith, h)

  pool_step-Inv : (t : PoolStep A) (s : PoolState A) → Inv s → Inv (pool_step t s)
  unfolding pool_step
  pool_step-Inv (put a) s v = put-Inv a s v
  pool_step-Inv start s v = subst Inv (sym (start_again s v.runs)) v
  pool_step-Inv stop s v = stop_pool-Inv s v
  pool_step-Inv (resize n) s v = resize_pool-Inv n s v
  pool_step-Inv (take i j) s v = take_item-Inv i j s v

  pub pool_run-Inv : (ts : List (PoolStep A)) (s : PoolState A) → Inv s → Inv (pool_run ts s)
  unfolding pool_run
  pool_run-Inv [] s v = v
  pool_run-Inv (t ∷ ts) s v = pool_run-Inv ts (pool_step t s) (pool_step-Inv t s v)

  pub start_pool-Inv : (n : ℕ) → Inv (start_pool (new_pool n))
  unfolding start_pool new_pool
  start_pool-Inv n = spawn-Inv n _ refl refl (omega arith)

  -- From the start of a pool on, whatever is put, taken, resized and stopped in any order: while it
  -- is open, the live workers are those asked for and one per queued SHUTDOWN; once it is closed,
  -- there is a SHUTDOWN in the queue for every live worker, so that none waits for ever.
  pub pool_run-sentinels :
      (n : ℕ) (ts : List (PoolStep A))
      → let s = pool_run ts (start_pool (new_pool n)) in
        (s.closed ≡ false → length s.workers ≡ s.max_concurrency + sentinels s)
        × (s.closed ≡ true → length s.workers ≤ sentinels s)
  pool_run-sentinels n ts = let v = pool_run-Inv ts _ (start_pool-Inv n) in (v.running, v.shut)
