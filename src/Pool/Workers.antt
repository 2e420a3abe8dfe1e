-- ===== src/Pool/Workers.antt =====
-- The worker threads of src/thread_pool/thread_pool.c: each access to shared state is one step.
pub mod Counts
pub mod Invariant
pub mod Quiet
pub mod Progress
pub mod Stays
pub mod Ends
pub mod Tests
use net_math.Base.{
  ℕ, zero, suc, ◌+◌, ◌%◌, ◌≡◌, Bool, true, false, Option, none, some, List, [], ◌∷◌, ◌++◌, ◌==◌,
  ◌||◌, not, if◌then◌else◌, replicate, length,
}
use net_math.Pool.{Task}

-- Where a worker stands in `thread_pool`: the access that it makes next.
pub data Place : Type 0 where
  starting loop_test lock_run count_test active_test waiting lock_again : Place
  unlock_run active_again last_count add_working dequeue : Place
  run_function : Task → Place
  sub_working final_count sub_alive gone : Place

-- The atomic counters have 8 bits. `locked` is `run_mutex`, and `queue` the work queue. What was
-- submitted, taken from the queue and finished so far is kept beside it.
pub record Shared : Type 0 where
  pub workers_alive : ℕ
  pub workers_working : ℕ
  pub thpool_active : ℕ
  pub locked : Bool
  pub queue : List Task
  pub wait_signals : ℕ
  pub submitted : List Task
  pub taken : List Task
  pub finished : List Task

abbrev pub up8 : ℕ → ℕ
up8 n = (n + 1) % 256

abbrev pub down8 : ℕ → ℕ
down8 n = (n + 255) % 256

-- `cnd_signal(&thpool->wait_cond)` if the queue is empty.
abbrev pub signal_if_empty : List Task → Shared → Shared
signal_if_empty [] s = record s { wait_signals = s.wait_signals + 1 }
signal_if_empty (task ∷ tasks) s = s

-- `thpool_dequeue_job`, and the test of its result.
abbrev pub dequeue_place : List Task → Place
dequeue_place [] = Place.sub_working
dequeue_place (task ∷ tasks) = Place.run_function task

abbrev pub dequeue_shared : List Task → Shared → Shared
dequeue_shared [] s = s
dequeue_shared (task ∷ tasks) s = record s { queue = tasks; taken = s.taken ++ task ∷ [] }

abbrev pub count_place : List Task → Place
count_place [] = Place.active_test
count_place (task ∷ tasks) = Place.unlock_run

-- One access of a worker; `none` where it must wait for the mutex, or is gone. A thread may come
-- back from `cnd_wait` at any time, signalled or not.
unfoldable pub turn : Place → Shared → Option (Place × Shared)
turn Place.starting s = some (Place.loop_test, record s { workers_alive = up8 s.workers_alive })
turn Place.loop_test s = some (if s.thpool_active == 1 then Place.lock_run else Place.sub_alive, s)
turn Place.lock_run s =
    if s.locked then none else some (Place.count_test, record s { locked = true })
turn Place.count_test s = some (count_place s.queue, s)
turn Place.active_test s =
    if s.thpool_active == 1
    then some (Place.waiting, record s { locked = false })
    else some (Place.unlock_run, s)
turn Place.waiting s = some (Place.lock_again, s)
turn Place.lock_again s =
    if s.locked then none else some (Place.count_test, record s { locked = true })
turn Place.unlock_run s = some (Place.active_again, record s { locked = false })
turn Place.active_again s =
    some (if s.thpool_active == 0 then Place.last_count else Place.add_working, s)
turn Place.last_count s = some (Place.sub_alive, signal_if_empty s.queue s)
turn Place.add_working s =
    some (Place.dequeue, record s { workers_working = up8 s.workers_working })
turn Place.dequeue s = some (dequeue_place s.queue, dequeue_shared s.queue s)
turn (Place.run_function task) s =
    some (Place.sub_working, record s { finished = s.finished ++ task ∷ [] })
turn Place.sub_working s =
    some (Place.final_count, record s { workers_working = down8 s.workers_working })
turn Place.final_count s = some (Place.loop_test, signal_if_empty s.queue s)
turn Place.sub_alive s = some (Place.gone, record s { workers_alive = down8 s.workers_alive })
turn Place.gone s = none

-- A state of the pool: the shared fields and the place of each worker.
pub record Pool : Type 0 where
  pub shared : Shared
  pub places : List Place

-- `thpool_init` after its last `thrd_create`, before any worker has run.
abbrev pub initial : (thread_count : ℕ) → Pool
initial thread_count = record {
  shared = record {
    workers_alive = 0;
    workers_working = 0;
    thpool_active = 1;
    locked = false;
    queue = [];
    wait_signals = 0;
    submitted = [];
    taken = [];
    finished = [];
  };
  places = replicate thread_count Place.starting;
}

-- A step of a worker, a successful `thpool_enqueue_job`, or the first access of `thpool_destroy`,
-- which is called once.
pub data Step : Pool → Pool → Type 0 where
  works :
      (s s' : Shared) (before : List Place) (p p' : Place) (after : List Place)
      → turn p s ≡ some (p', s')
      → Step
          (record { shared = s; places = before ++ p ∷ after })
          (record { shared = s'; places = before ++ p' ∷ after })
  submits :
      (s : Shared) (places : List Place) (task : Task)
      → Step
          (record { shared = s; places = places })
          (record {
            shared = record s {
              queue = s.queue ++ task ∷ [];
              submitted = s.submitted ++ task ∷ [];
            };
            places = places;
          })
  stops :
      (s : Shared) (places : List Place)
      → s.thpool_active ≡ 1
      → Step
          (record { shared = s; places = places })
          (record { shared = record s { thpool_active = down8 s.thpool_active }; places = places })

pub data Reachable (thread_count : ℕ) : Pool → Type 0 where
  begins : Reachable thread_count (initial thread_count)
  goes_on : (a b : Pool) → Reachable thread_count a → Step a b → Reachable thread_count b
