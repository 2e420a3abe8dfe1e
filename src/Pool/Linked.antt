-- ===== src/Pool/Linked.antt =====
-- The workers of src/thread_pool/thread_pool.c on the linked list of jobs: what Pool.Workers does
-- on a list of tasks, with the pointers that the threads hold.
pub mod Fits
pub mod Turns
pub mod Sound
pub mod Added
pub mod Refines
pub mod Owned
pub mod Tests
use net_math.Base.{
  ℕ, ◌+◌, ◌-◌, ◌<◌, ◌^◌, ◌≡◌, Option, none, some, List, [], ◌∷◌, ◌++◌, ◌==◌, if◌then◌else◌, map,
  replicate,
}
use net_math.Pool.{
  Job, Memory, load, store, ThpoolStatus, WorkQueue, Task, thpool_enqueue_job, thpool_dequeue_job,
}
use net_math.Pool.Setup.{empty_queue}
use net_math.Pool.Workers.{Place, Shared, turn, down8, dequeue_shared, Pool, initial}

-- Where a worker stands. Before it runs a job it holds the pointer to it.
pub data Spot : Type 0 where
  at : Place → Spot
  holding : (job : ℕ) → Spot

-- The list of tasks and the records of tasks in `shared` only accompany the run: no test below
-- reads them.
pub record Linked : Type 0 where
  pub shared : Shared
  pub work_queue : WorkQueue

pub data Turn : Type 0 where
  moves : Spot → Linked → Turn
  blocked fault : Turn

abbrev pub in_place : Linked → Option (Place × Shared) → Turn
in_place l none = Turn.blocked
in_place l (some (p, s)) = Turn.moves (Spot.at p) (record l { shared = s })

abbrev pub signal_if_zero : Linked → Linked
signal_if_zero l =
    if 0 == l.work_queue.job_count
    then record l { shared = record l.shared { wait_signals = l.shared.wait_signals + 1 } }
    else l

abbrev pub with_job : Linked → Option (ℕ × WorkQueue) → Turn
with_job l none = Turn.fault
with_job l (some (job, queue)) =
    Turn.moves (if job == 0 then Spot.at Place.sub_working else Spot.holding job)
      (record { shared = dequeue_shared l.shared.queue l.shared; work_queue = queue })

-- `job->job_function(job->job_arg)`, then `free(job)`.
abbrev pub run_held : Linked → (job : ℕ) → Option Job → Turn
run_held l job none = Turn.fault
run_held l job (some work) = Turn.moves (Spot.at Place.sub_working) (record {
  shared = record l.shared {
    finished =
        l.shared.finished ++ record { function = work.job_function; arg = work.job_arg } ∷ [];
  };
  work_queue = record l.work_queue { memory = store l.work_queue.memory job none };
})

-- One access of a worker. Where the queue is not read it is that of Pool.Workers.
unfoldable pub linked_turn : Spot → Linked → Turn
unfolding turn
linked_turn (Spot.holding job) l = run_held l job (load l.work_queue.memory job)
linked_turn (Spot.at Place.dequeue) l = with_job l (thpool_dequeue_job l.work_queue)
linked_turn (Spot.at Place.count_test) l =
    Turn.moves
      (Spot.at (if 0 == l.work_queue.job_count then Place.active_test else Place.unlock_run)) l
linked_turn (Spot.at Place.last_count) l = Turn.moves (Spot.at Place.sub_alive) (signal_if_zero l)
linked_turn (Spot.at Place.final_count) l = Turn.moves (Spot.at Place.loop_test) (signal_if_zero l)
linked_turn (Spot.at p) l = in_place l (turn p l.shared)

pub record LinkedPool : Type 0 where
  pub linked : Linked
  pub spots : List Spot

abbrev pub linked_initial : (thread_count : ℕ) → LinkedPool
linked_initial n = record {
  linked = record { shared = (initial n).shared; work_queue = empty_queue };
  spots = replicate n (Spot.at Place.starting);
}

-- A step of a worker, a `thpool_enqueue_job` that succeeds while fewer than 2^64 - 1 jobs are
-- queued, or the first access of `thpool_destroy`.
pub data LinkedStep (malloc : Memory → ℕ) : LinkedPool → LinkedPool → Type 0 where
  works :
      (l l' : Linked) (before : List Spot) (x x' : Spot) (after : List Spot)
      → linked_turn x l ≡ Turn.moves x' l'
      → LinkedStep malloc
          (record { linked = l; spots = before ++ x ∷ after })
          (record { linked = l'; spots = before ++ x' ∷ after })
  submits :
      (l : Linked) (spots : List Spot) (task : Task) (queue : WorkQueue)
      → l.work_queue.job_count < 2 ^ 64 - 1
      → thpool_enqueue_job malloc task l.work_queue ≡ some (ThpoolStatus.thp_success, queue)
      → LinkedStep malloc
          (record { linked = l; spots = spots })
          (record {
            linked = record {
              shared = record l.shared {
                queue = l.shared.queue ++ task ∷ [];
                submitted = l.shared.submitted ++ task ∷ [];
              };
              work_queue = queue;
            };
            spots = spots;
          })
  stops :
      (l : Linked) (spots : List Spot)
      → l.shared.thpool_active ≡ 1
      → LinkedStep malloc
          (record { linked = l; spots = spots })
          (record {
            linked = record l {
              shared = record l.shared { thpool_active = down8 l.shared.thpool_active };
            };
            spots = spots;
          })

pub data LinkedReachable (malloc : Memory → ℕ) (thread_count : ℕ) : LinkedPool → Type 0 where
  begins : LinkedReachable malloc thread_count (linked_initial thread_count)
  goes_on :
      (a b : LinkedPool)
      → LinkedReachable malloc thread_count a
      → LinkedStep malloc a b
      → LinkedReachable malloc thread_count b
