-- ===== src/Pool.antt =====
-- The work queue of src/thread_pool/thread_pool.c: a linked list of jobs under one mutex. Each
-- operation holds the mutex from its first to its last access, so it is one function.
pub mod Chain
pub mod Fifo
pub mod Trace
pub mod Workers
pub mod Linked
pub mod Waiting
pub mod Lifetime
pub mod Signals
pub mod Setup
pub mod Tests
use net_math.Base.{
  ℕ, zero, suc, ◌+◌, ◌-◌, ◌%◌, ◌^◌, Bool, Option, none, some, List, [], ◌∷◌, ◌==◌, ltb,
  if◌then◌else◌, ◌>>=◌,
}

-- A pointer is an address, and 0 is NULL.
pub record Job : Type 0 where
  pub next_job : ℕ
  pub job_function : ℕ
  pub job_arg : ℕ

-- The jobs that are allocated, by their addresses.
abbrev pub Memory : Type 0
Memory = ℕ → Option Job

abbrev pub load : Memory → ℕ → Option Job
load memory p = if p == 0 then none else memory p

abbrev pub store : Memory → ℕ → Option Job → Memory
store memory p job q = if q == p then job else memory q

pub data ThpoolStatus : Type 0 where
  thp_success thp_failure : ThpoolStatus

-- The queue with the memory of its jobs; `run_signals` counts the signals of `run_cond`.
pub record WorkQueue : Type 0 where
  pub job_head : ℕ
  pub job_tail : ℕ
  pub job_count : ℕ
  pub memory : Memory
  pub run_signals : ℕ

-- What a job asks for: the function and its argument.
pub record Task : Type 0 where
  pub function : ℕ
  pub arg : ℕ

-- `atomic_fetch_add` on a counter of 64 bits.
abbrev pub count_up : ℕ → ℕ
count_up n = (n + 1) % 2 ^ 64

-- `malloc` is that of the C library. `none` is the use of a NULL or dangling pointer.
unfoldable pub thpool_enqueue_job :
    (malloc : Memory → ℕ) → Task → WorkQueue → Option (ThpoolStatus × WorkQueue)
thpool_enqueue_job malloc task q =
    let job = malloc q.memory in
    if job == 0
    then some (ThpoolStatus.thp_failure, q)
    else let memory =
        store q.memory job
          (some (record { next_job = 0; job_function = task.function; job_arg = task.arg })) in
      if q.job_count == 0
      then some (
        ThpoolStatus.thp_success,
        record q {
          job_head = job;
          job_tail = job;
          job_count = count_up q.job_count;
          memory = memory;
          run_signals = q.run_signals + 1;
        },
      )
      else (do
        last ← load memory q.job_tail
        some (
          ThpoolStatus.thp_success,
          record q {
            job_tail = job;
            job_count = count_up q.job_count;
            memory = store memory q.job_tail (some (record last { next_job = job }));
            run_signals = q.run_signals + 1;
          },
        ))

unfoldable pub thpool_dequeue_job : WorkQueue → Option (ℕ × WorkQueue)
thpool_dequeue_job q =
    if q.job_count == 1
    then some (
      q.job_head,
      record q {
        job_head = 0;
        job_tail = 0;
        job_count = q.job_count - 1;
        run_signals = q.run_signals + 1;
      },
    )
    else if ltb 1 q.job_count
    then (do
      work ← load q.memory q.job_head
      some (
        q.job_head,
        record q {
          job_head = work.next_job;
          job_count = q.job_count - 1;
          run_signals = q.run_signals + 1;
        },
      ))
    else some (q.job_head, record q { run_signals = q.run_signals + 1 })

-- The worker's use of it: the task that is run, if there is a job, which is freed afterwards.
unfoldable pub run_job : WorkQueue → Option (Option Task × WorkQueue)
unfolding thpool_dequeue_job
run_job q = do
  (job, after) ← thpool_dequeue_job q
  if job == 0 then some (none, after) else do
    work ← load after.memory job
    some (
      some (record { function = work.job_function; arg = work.job_arg }),
      record after { memory = store after.memory job none },
    )

-- The loop of `thpool_destroy` over the jobs that were never taken, for at most `fuel` rounds.
unfoldable pub free_jobs : (fuel : ℕ) (job : ℕ) → Memory → Option Memory
free_jobs zero job memory = none
free_jobs (suc fuel) job memory =
    if job == 0
    then some memory
    else do work ← load memory job; free_jobs fuel work.next_job (store memory job none)
