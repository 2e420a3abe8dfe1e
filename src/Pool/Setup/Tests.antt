-- ===== src/Pool/Setup/Tests.antt =====
-- A pool of two threads is made and destroyed.
use net_math.Base.{ℕ, ◌≡◌, refl, true, false, none, some, [], ◌∷◌, ◌==◌, if◌then◌else◌, arith}
use net_math.Pool.{Memory}
use net_math.Pool.Tests.{two_jobs, two_entries, two_jobs-IsQueue}
use net_math.Pool.Fifo.{holds}
use net_math.Pool.Setup.{
  Resources, done, fault, Thpool, WorkerAnswers, PoolAnswers, thpool_init, thpool_destroy,
}
use net_math.Pool.Setup.Start.{IsGranted, ready, thpool_init-unprepared, thpool_init-ready}
use net_math.Pool.Setup.Outcome.{thpool_init-init_outcome}
use net_math.Pool.Setup.Stop.{thpool_destroy-IsQueue}

abbrev pub nothing : Resources
nothing = record { blocks = 0; mutexes = 0; conds = 0; threads = 0 }

abbrev all_ok : WorkerAnswers
all_ok = record { malloc_ok = true; create_ok = true; detach_ok = true }

abbrev not_detached : WorkerAnswers
not_detached = record { malloc_ok = true; create_ok = true; detach_ok = false }

abbrev pub granted : PoolAnswers
granted = record {
  pool_ok = true;
  workers_ok = true;
  queue_ok = true;
  run_mutex_ok = true;
  run_cond_ok = true;
  access_mutex_ok = true;
  wait_mutex_ok = true;
  wait_cond_ok = true;
  worker = λ i. all_ok;
  loads = 1 ∷ 2 ∷ [];
  last_loads = 2 ∷ 1 ∷ 0 ∷ [];
}

pub granted-IsGranted : IsGranted granted 2
granted-IsGranted = record {
  all_prepared = refl;
  all_started = λ i lt. refl;
  all_alive = refl;
  all_gone = refl;
}

unprepared : thpool_init (record granted { wait_cond_ok = false }) 2 nothing ≡ fault
unprepared =
    thpool_init-unprepared (record granted { wait_cond_ok = false }) 2 nothing (ground arith) refl
      refl

two_started :
    thpool_init granted 2 nothing
    ≡ done (some (ready 2)) (record { blocks = 5; mutexes = 3; conds = 2; threads = 2 })
two_started = thpool_init-ready granted 2 nothing (ground arith) granted-IsGranted

abbrev second_fails : PoolAnswers
second_fails = record granted { worker = λ i. if i == 1 then not_detached else all_ok }

thpool_init-init_outcome_example :
    thpool_init second_fails 2 nothing
    ≡ done none (record { blocks = 0; mutexes = 1; conds = 1; threads = 2 })
thpool_init-init_outcome_example = thpool_init-init_outcome second_fails 2 nothing refl refl

-- A pool that is destroyed with two jobs in its queue.
abbrev busy : Thpool
busy = record { thread_count = 2; made = 2; work_queue = some two_jobs }

thpool_destroy-IsQueue_example :
    (memory : Memory) × (thpool_destroy
        (2 ∷ 0 ∷ [])
        busy
        (record { blocks = 5; mutexes = 3; conds = 2; threads = 2 })
      ≡ done memory (record { blocks = 0; mutexes = 1; conds = 1; threads = 2 }))
    × ((a : ℕ) → memory a ≡ (if holds two_entries a then none else two_jobs.memory a))
thpool_destroy-IsQueue_example =
    thpool_destroy-IsQueue busy two_jobs two_entries
      (record { blocks = 5; mutexes = 3; conds = 2; threads = 2 }) (2 ∷ 0 ∷ []) refl
      two_jobs-IsQueue refl refl
