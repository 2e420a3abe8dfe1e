-- ===== src/Pool/Setup/Cycle.antt =====
-- A pool of src/thread_pool/thread_pool.c from `thpool_init` to `thpool_destroy`.
use net_math.Base.{ℕ, ◌+◌, ◌≡◌, ◌≢◌, refl, ◌∙◌, some, [], arith}
use net_math.Pool.{Memory}
use net_math.Pool.Setup.{
  Resources, done, PoolAnswers, Thpool, thpool_init, thpool_destroy, empty_queue,
}
use net_math.Pool.Setup.Stop.{thpool_destroy-IsQueue}
use net_math.Pool.Setup.Start.{IsGranted, ready, thpool_init-ready}
use net_math.Pool.Setup.Worker.{empty_queue-IsQueue}

-- A pool that `thpool_init` returns with every answer a success, and that is destroyed before a
-- job was queued, gives back every block and all but one mutex and one condition variable.
pub thpool_destroy-thpool_init :
    (a : PoolAnswers) (thread_count : ℕ) (r : Resources)
    → thread_count ≢ 0
    → IsGranted a thread_count
    → (pool : Thpool) × (made : Resources) × (memory : Memory) × (thpool_init a thread_count r
        ≡ done (some pool) made)
      × (thpool_destroy a.last_loads pool made
          ≡ done memory (record r {
            mutexes = r.mutexes + 1;
            conds = r.conds + 1;
            threads = r.threads + thread_count;
          }))
thpool_destroy-thpool_init a n r nonzero h =
    let (memory, runs, cells) =
      thpool_destroy-IsQueue (ready n) empty_queue [] _ a.last_loads refl empty_queue-IsQueue refl
        h.all_gone in
    (ready n, _, memory, thpool_init-ready a n r nonzero h, runs ∙ ground arith)
