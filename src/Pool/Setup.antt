-- ===== src/Pool/Setup.antt =====
-- `thpool_init` and `thpool_destroy` of src/thread_pool/thread_pool.c: what they allocate, start
-- and give back.
pub mod Parts
pub mod Stop
pub mod Start
pub mod Worker
pub mod Cycle
pub mod Outcome
pub mod Tests
use net_math.Base.{
  ℕ, zero, suc, ◌+◌, ◌-◌, Bool, true, false, not, Option, none, some, List, [], ◌∷◌, ◌==◌, ◌||◌,
  ltb, if◌then◌else◌,
}
use net_math.Pool.{Memory, WorkQueue, free_jobs}

-- What exists: blocks of memory apart from those of the jobs, mutexes and condition variables that
-- are initialised, and threads that were created.
pub record Resources : Type 0 where
  pub blocks : ℕ
  pub mutexes : ℕ
  pub conds : ℕ
  pub threads : ℕ

-- A result, a loop that still waits for other threads, or undefined behaviour.
pub data Run (A : Type 0) : Type 0 where
  done : A → Resources → Run A
  waits : Run A
  fault : Run A

abbrev pub Action : Type 0 → Type 0
Action A = Resources → Run A

abbrev pub returns : {A : Type 0} → A → Action A
returns a r = done a r

abbrev pub undefined : {A : Type 0} → Action A
undefined r = fault

-- A loop that does not end.
abbrev pub never : {A : Type 0} → Action A
never r = waits

abbrev pub then_run : {A B : Type 0} → Run A → (A → Action B) → Run B
then_run (done a r) f = f a r
then_run waits f = waits
then_run fault f = fault

infixl 5 ◌>>=◌ ◌>>◌
abbrev pub ◌>>◌ : {B : Type 0} → Action (Unit {0}) → Action B → Action B
◌>>◌ act next r = then_run (act r) (λ u. next)

abbrev pub ◌>>=◌ : {A B : Type 0} → Action A → (A → Action B) → Action B
◌>>=◌ act next r = then_run (act r) next

-- The calls, each with the answer that the system gives.
abbrev pub calloc : (ok : Bool) → Action Bool
calloc ok r = done ok (record r { blocks = if ok then r.blocks + 1 else r.blocks })

abbrev pub free : Action (Unit {0})
free r = done tt (record r { blocks = r.blocks - 1 })

abbrev pub mtx_init : (ok : Bool) → Action Bool
mtx_init ok r = done ok (record r { mutexes = if ok then r.mutexes + 1 else r.mutexes })

abbrev pub mtx_destroy : Action (Unit {0})
mtx_destroy r = done tt (record r { mutexes = r.mutexes - 1 })

abbrev pub cnd_init : (ok : Bool) → Action Bool
cnd_init ok r = done ok (record r { conds = if ok then r.conds + 1 else r.conds })

abbrev pub cnd_destroy : Action (Unit {0})
cnd_destroy r = done tt (record r { conds = r.conds - 1 })

abbrev pub thrd_create : (ok : Bool) → Action Bool
thrd_create ok r = done ok (record r { threads = if ok then r.threads + 1 else r.threads })

-- The structure. `made` counts the entries of `workers` that are set, the first ones; the others
-- are NULL. `work_queue` is `none` while the pointer is NULL.
pub record Thpool : Type 0 where
  pub thread_count : ℕ
  pub made : ℕ
  pub work_queue : Option WorkQueue

pub record WorkerAnswers : Type 0 where
  pub malloc_ok : Bool
  pub create_ok : Bool
  pub detach_ok : Bool

-- What the system answers. `loads` are the values of `workers_alive` that the loop at the end of
-- `thpool_init` reads, `last_loads` those that `thpool_destroy` reads.
pub record PoolAnswers : Type 0 where
  pub pool_ok : Bool
  pub workers_ok : Bool
  pub queue_ok : Bool
  pub run_mutex_ok : Bool
  pub run_cond_ok : Bool
  pub access_mutex_ok : Bool
  pub wait_mutex_ok : Bool
  pub wait_cond_ok : Bool
  pub worker : ℕ → WorkerAnswers
  pub loads : List ℕ
  pub last_loads : List ℕ

-- A loop that sleeps until `workers_alive` is `target`.
unfoldable pub await : (target : ℕ) → (loads : List ℕ) → Action (Unit {0})
await target [] r = waits
await target (alive ∷ loads) r = if alive == target then done tt r else await target loads r

-- `thpool_wait`, whose test loads `workers_working` and then `job_count`; between two tests it
-- sleeps on `wait_cond`.
unfoldable pub thpool_wait : (loads : List (ℕ × ℕ)) → Action (Unit {0})
thpool_wait [] r = waits
thpool_wait ((working, count) ∷ loads) r =
    if not (0 == working) || not (0 == count) then thpool_wait loads r else done tt r

-- The `for` loop over the workers from `i` on, with `left` rounds to go.
unfoldable pub free_workers : (left i made : ℕ) → Action (Unit {0})
free_workers zero i made r = done tt r
free_workers (suc left) i made r =
    if ltb i made then (free >> free_workers left (suc i) made) r else fault

abbrev pub all_freed : Option Memory → Action Memory
all_freed none = undefined
all_freed (some memory) = returns memory

-- `thpool_destroy` from the walk over the jobs on.
abbrev pub free_pool : Thpool → Option WorkQueue → Action Memory
free_pool pool none = undefined
free_pool pool (some queue) = do
  memory ← all_freed (free_jobs (suc queue.job_count) queue.job_head queue.memory)
  free_workers pool.thread_count 0 pool.made
  mtx_destroy
  cnd_destroy
  mtx_destroy
  free
  free
  free
  returns memory

-- The result is what is left of the memory of the jobs. Before the loop it also counts
-- `thpool_active` down, which only the workers read.
unfoldable pub thpool_destroy : (loads : List ℕ) → Thpool → Action Memory
unfolding free_workers await
thpool_destroy loads pool = do await 0 loads; free_pool pool pool.work_queue

-- A test of `thpool_init`: if the call failed, destroy the pool and return NULL.
abbrev pub or_destroy :
    PoolAnswers → Thpool → (ok : Bool) → Action (Option Thpool) → Action (Option Thpool)
or_destroy a pool true rest = rest
or_destroy a pool false rest = do memory ← thpool_destroy a.last_loads pool; returns none

-- One round of the loop that creates the threads, for the worker `pool.made`.
unfoldable pub create_worker :
    PoolAnswers → WorkerAnswers → Thpool → (rest : Action (Option Thpool)) → Action (Option Thpool)
create_worker a answers pool rest = do
  let more = record pool { made = suc pool.made }
  worker ← calloc answers.malloc_ok
  or_destroy a pool worker do
    created ← thrd_create answers.create_ok
    or_destroy a more created (or_destroy a more answers.detach_ok rest)

-- The loop, with `left` rounds to go.
unfoldable pub create_workers : PoolAnswers → (left : ℕ) → Thpool → Action (Option Thpool)
unfolding create_worker
create_workers a zero pool = returns (some pool)
create_workers a (suc left) pool =
    create_worker a (a.worker pool.made) pool
      (create_workers a left (record pool { made = suc pool.made }))

abbrev pub empty_queue : WorkQueue
empty_queue = record {
  job_head = 0;
  job_tail = 0;
  job_count = 0;
  memory = λ p. none;
  run_signals = 0;
}

-- The structure after `calloc`, and after its fields are set.
abbrev pub zeroed : Thpool
zeroed = record { thread_count = 0; made = 0; work_queue = none }

abbrev pub assigned : (thread_count : ℕ) → Thpool
assigned thread_count = record {
  thread_count = thread_count;
  made = 0;
  work_queue = some empty_queue;
}

abbrev pub when_ready : PoolAnswers → (thread_count : ℕ) → Option Thpool → Action (Option Thpool)
when_ready a thread_count none = returns none
when_ready a thread_count (some pool) = do await thread_count a.loads; returns (some pool)

-- The mutexes and condition variables, then the threads.
unfoldable pub init_rest : PoolAnswers → (thread_count : ℕ) → Action (Option Thpool)
unfolding create_workers
init_rest a thread_count = do
  run_mutex ← mtx_init a.run_mutex_ok
  or_destroy a zeroed run_mutex do
    run_cond ← cnd_init a.run_cond_ok
    or_destroy a zeroed run_cond do
      access ← mtx_init a.access_mutex_ok
      or_destroy a zeroed access do
        wait_mutex ← mtx_init a.wait_mutex_ok
        or_destroy a zeroed wait_mutex do
          wait_cond ← cnd_init a.wait_cond_ok
          or_destroy a zeroed wait_cond do
            created ← create_workers a thread_count (assigned thread_count)
            when_ready a thread_count created

-- `none` is a return of NULL.
unfoldable pub thpool_init : PoolAnswers → (thread_count : ℕ) → Action (Option Thpool)
unfolding init_rest
thpool_init a thread_count = if thread_count == 0 then returns none else do
  pool ← calloc a.pool_ok
  if not pool then returns none else do
    workers ← calloc a.workers_ok
    if not workers
        then (do free; returns none)
        else do queue ← calloc a.queue_ok; or_destroy a zeroed queue (init_rest a thread_count)
