-- ===== src/Pool/Setup/Worker.antt =====
-- How `thpool_init` of src/thread_pool/thread_pool.c ends if a worker cannot be started.
use net_math.Base.{
  ℕ, suc, ◌+◌, ◌-◌, ◌<◌, ◌≡◌, refl, ap, ◌∙◌, Bool, true, false, inl, inr, Bool-cases, ◌&&◌, Option,
  none, [], ◌==◌, if◌then◌else◌, arith,
}
use net_math.Pool.Fifo.{IsQueue}
use net_math.Pool.Setup.{
  Resources, Run, done, fault, Thpool, PoolAnswers, then_run, returns, thpool_destroy,
  create_workers, when_ready, assigned, empty_queue, thpool_init,
}
use net_math.Pool.Setup.Parts.{
  reads, started, with_workers, after_round, made_in_round, create_worker-failed,
  create_workers-started,
}
use net_math.Pool.Setup.Stop.{thpool_destroy-IsQueue, thpool_destroy-missing}
use net_math.Pool.Setup.Start.{prepared, with_pool, thpool_init-prepared}

pub empty_queue-IsQueue : IsQueue empty_queue []
empty_queue-IsQueue = record { chain = refl; tail = refl; count = refl }

-- What remains: the mutex and the condition variable that nothing destroys, and the threads.
abbrev pub left_over : (k : ℕ) → (created : Bool) → Resources → Resources
left_over k created r = record r {
  mutexes = r.mutexes + 1;
  conds = r.conds + 1;
  threads = if created then r.threads + k + 1 else r.threads + k;
}

module _ (a : PoolAnswers) (n k : ℕ) (r : Resources) where
  -- The structure and the resources before the round that fails.
  abbrev pool_k : Thpool
  pool_k = record (assigned n) { made = k }

  abbrev resources_k : Resources
  resources_k = with_workers k (with_pool r)

  abbrev destroys : Run (Option Thpool)
  destroys =
      then_run
        (thpool_destroy a.last_loads (made_in_round (a.worker k) pool_k)
          (after_round (a.worker k) resources_k))
        (λ memory. returns none)

  thpool_init-destroys :
      k < n
      → (a.pool_ok && (a.workers_ok && prepared a)) ≡ true
      → ((i : ℕ) → i < k → started (a.worker i) ≡ true)
      → started (a.worker k) ≡ false
      → thpool_init a n r ≡ then_run destroys (when_ready a n)
  unfolding create_workers
  thpool_init-destroys lt h all stops =
      thpool_init-prepared a n r (omega (arith, lt)) h
      ∙ ap (λ (run : Run (Option Thpool)). then_run run (when_ready a n))
          (create_workers-started a k n (suc (n - suc k)) k (assigned n) (with_pool r)
              (omega (arith, lt)) (omega arith) all
            ∙ create_worker-failed a (a.worker k) pool_k _ resources_k stops)

  destroys-missing :
      k < n
      → ((a.worker k).malloc_ok && (suc k == n)) ≡ false
      → reads 0 a.last_loads ≡ true
      → destroys ≡ fault
  destroys-missing lt h zeros = rw (
      thpool_destroy-missing (made_in_round (a.worker k) pool_k) empty_queue []
        (after_round (a.worker k) resources_k) a.last_loads refl empty_queue-IsQueue (ground arith)
        zeros)

  destroys-last :
      ((a.worker k).malloc_ok && (suc k == n)) ≡ true
      → reads 0 a.last_loads ≡ true
      → destroys ≡ done none (left_over k (a.worker k).create_ok r)
  destroys-last h zeros =
      let (memory, runs, cells) =
        thpool_destroy-IsQueue (made_in_round (a.worker k) pool_k) empty_queue []
          (after_round (a.worker k) resources_k) a.last_loads refl empty_queue-IsQueue
          (ground arith) zeros in
      rw runs (ground arith)

-- With answers that are successes up to the threads, and worker `k` the first that is not started,
-- `thpool_init` is undefined, since `thpool_destroy` follows the entries of the workers after it,
-- which are NULL. Only if `k` is the last worker and its block was allocated, NULL is returned,
-- with all blocks freed, and one mutex, one condition variable and the threads left.
pub thpool_init-stopped :
    (a : PoolAnswers) (thread_count k : ℕ) (r : Resources)
    → k < thread_count
    → (a.pool_ok && (a.workers_ok && prepared a)) ≡ true
    → ((i : ℕ) → i < k → started (a.worker i) ≡ true)
    → started (a.worker k) ≡ false
    → reads 0 a.last_loads ≡ true
    → thpool_init a thread_count r ≡ (
        if (a.worker k).malloc_ok && (suc k == thread_count)
        then done none (left_over k (a.worker k).create_ok r)
        else fault)
thpool_init-stopped a n k r lt h all stops zeros =
    thpool_init-destroys a n k r lt h all stops
    ∙ elim (Bool-cases ((a.worker k).malloc_ok && (suc k == n))) [
      | inl last ↦ rw (destroys-last a n k r last zeros, last) refl
      | inr early ↦ rw (destroys-missing a n k r lt early zeros, early) refl
    ]
