-- ===== src/Pool/Waiting.antt =====
-- A thread in `thpool_wait` of src/thread_pool/thread_pool.c beside the workers.
pub mod Laws
pub mod Tests
use net_math.Base.{ℕ, Bool, Option, none, some, List, [], ◌∷◌, ◌==◌, if◌then◌else◌}
use net_math.Pool.{Task}
use net_math.Pool.Workers.{Shared, Pool, initial, Step}

-- Where the thread stands: the access that it makes next. Nobody else locks `wait_mutex`.
pub data WaitPlace : Type 0 where
  wait_lock load_working load_count sleeping wait_unlock returned : WaitPlace

abbrev pub count_found : List Task → WaitPlace
count_found [] = WaitPlace.wait_unlock
count_found (task ∷ tasks) = WaitPlace.sleeping

-- The two loads of the test are two accesses. It may come back from `cnd_wait` at any time.
unfoldable pub wait_turn : WaitPlace → Shared → WaitPlace
wait_turn WaitPlace.wait_lock s = WaitPlace.load_working
wait_turn WaitPlace.load_working s =
    if 0 == s.workers_working then WaitPlace.load_count else WaitPlace.sleeping
wait_turn WaitPlace.load_count s = count_found s.queue
wait_turn WaitPlace.sleeping s = WaitPlace.load_working
wait_turn WaitPlace.wait_unlock s = WaitPlace.returned
wait_turn WaitPlace.returned s = WaitPlace.returned

-- `seen` are the tasks submitted up to the last load of `job_count`.
pub record Waiting : Type 0 where
  pub pool : Pool
  pub place : WaitPlace
  pub seen : List Task

abbrev pub seen_at : WaitPlace → Shared → (seen : List Task) → List Task
seen_at WaitPlace.load_count s seen = s.submitted
seen_at p s seen = seen

pub data WaitStep : Waiting → Waiting → Type 0 where
  others :
      (a b : Pool) (place : WaitPlace) (seen : List Task)
      → Step a b
      → WaitStep
          (record { pool = a; place = place; seen = seen })
          (record { pool = b; place = place; seen = seen })
  waits :
      (pool : Pool) (place : WaitPlace) (seen : List Task)
      → WaitStep
          (record { pool = pool; place = place; seen = seen })
          (record {
            pool = pool;
            place = wait_turn place pool.shared;
            seen = seen_at place pool.shared seen;
          })

pub data WaitReachable (thread_count : ℕ) : Waiting → Type 0 where
  begins :
      WaitReachable thread_count
        (record { pool = initial thread_count; place = WaitPlace.wait_lock; seen = [] })
  goes_on :
      (a b : Waiting) → WaitReachable thread_count a → WaitStep a b → WaitReachable thread_count b
