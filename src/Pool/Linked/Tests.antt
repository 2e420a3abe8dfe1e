-- ===== src/Pool/Linked/Tests.antt =====
-- A worker takes a job from the linked list, and a pool is stopped with a job in it.
use net_math.Base.{ℕ, ◌+◌, zero, suc, ◌≡◌, ◌≢◌, refl, false, none, some, List, [], ◌∷◌, ◌++◌, arith}
use net_math.Pool.{Memory, store, WorkQueue, thpool_enqueue_job, thpool_dequeue_job, free_jobs}
use net_math.Pool.Chain.{Entry}
use net_math.Pool.Fifo.{IsQueue, holds}
use net_math.Pool.Workers.Counts.{one, count}
use net_math.Pool.Linked.Fits.{holds_job}
use net_math.Pool.Linked.Owned.{LinkedReachable-one_owner, destroyed-no_leak}
use net_math.Pool.Tests.{four_blocks, four_blocks-IsMalloc, task_a}
use net_math.Pool.Workers.{Place, turn, Reachable}
use net_math.Pool.Linked.{Spot, Linked, Turn, linked_turn, LinkedPool, LinkedStep, LinkedReachable}
use net_math.Pool.Linked.Sound.{as_pool}
use net_math.Pool.Linked.Refines.{LinkedReachable-refines}

abbrev alone : Spot → Linked → LinkedPool
alone x l = record { linked = l; spots = x ∷ [] }

abbrev turns : ℕ → Turn → Turn
turns zero t = t
turns (suc n) (Turn.moves x l) = turns n (linked_turn x l)
turns (suc n) Turn.blocked = Turn.blocked
turns (suc n) Turn.fault = Turn.fault

abbrev IsReached : Turn → Type 0
IsReached (Turn.moves x l) = LinkedReachable four_blocks 1 (alone x l)
IsReached t = Unit {0}

step-IsReached :
    (x : Spot) (l : Linked) (t : Turn)
    → LinkedReachable four_blocks 1 (alone x l)
    → linked_turn x l ≡ t
    → IsReached t
step-IsReached x l (Turn.moves x' l') r e =
    LinkedReachable.goes_on _ _ r (LinkedStep.works l l' [] x x' [] e)
step-IsReached x l t r e = tt

turns-IsReached : (n : ℕ) (t : Turn) → IsReached t → IsReached (turns n t)
turns-IsReached zero t h = h
turns-IsReached (suc n) (Turn.moves x l) h =
    turns-IsReached n (linked_turn x l) (step-IsReached x l (linked_turn x l) h refl)
turns-IsReached (suc n) Turn.blocked h = tt
turns-IsReached (suc n) Turn.fault h = tt

abbrev one_job : Memory
one_job = store (λ p. none) 8 (some (record { next_job = 0; job_function = 1; job_arg = 5 }))

abbrev submitted_queue : WorkQueue
submitted_queue = record {
  job_head = 8;
  job_tail = 8;
  job_count = 1;
  memory = one_job;
  run_signals = 1;
}

abbrev submitted : Linked
submitted = record {
  shared = record {
    workers_alive = 0;
    workers_working = 0;
    thpool_active = 1;
    locked = false;
    queue = task_a ∷ [];
    wait_signals = 0;
    submitted = task_a ∷ [];
    taken = [];
    finished = [];
  };
  work_queue = submitted_queue;
}

submitted-IsReached : LinkedReachable four_blocks 1 (alone (Spot.at Place.starting) submitted)
unfolding thpool_enqueue_job
submitted-IsReached =
    LinkedReachable.goes_on _ _ LinkedReachable.begins
      (LinkedStep.submits _ _ task_a submitted_queue (omega arith) refl)

-- The worker holds the pointer to the job, which is out of the list.
abbrev taken : Linked
taken = record {
  shared = record {
    workers_alive = 1;
    workers_working = 1;
    thpool_active = 1;
    locked = false;
    queue = [];
    wait_signals = 0;
    submitted = task_a ∷ [];
    taken = task_a ∷ [];
    finished = [];
  };
  work_queue = record {
    job_head = 0;
    job_tail = 0;
    job_count = 0;
    memory = one_job;
    run_signals = 2;
  };
}

taken-IsReached : LinkedReachable four_blocks 1 (alone (Spot.holding 8) taken)
unfolding linked_turn turn thpool_dequeue_job
taken-IsReached =
    turns-IsReached 8 (Turn.moves (Spot.at Place.starting) submitted) submitted-IsReached

LinkedReachable-refines_example :
    ((before : List Spot) (x : Spot) (after : List Spot)
      → Spot.holding 8 ∷ [] ≡ before ++ x ∷ after
      → linked_turn x taken ≢ Turn.fault)
    × Reachable 1 (as_pool (alone (Spot.holding 8) taken))
LinkedReachable-refines_example =
    LinkedReachable-refines four_blocks 1 (alone (Spot.holding 8) taken) four_blocks-IsMalloc
      taken-IsReached

LinkedReachable-one_owner_example :
    (es : List Entry) × IsQueue taken.work_queue es
    × ((a : ℕ)
        → one_job a ≢ none
        → one (holds es a) + count (holds_job a) (Spot.holding 8 ∷ []) ≡ 1)
LinkedReachable-one_owner_example =
    LinkedReachable-one_owner four_blocks 1 (alone (Spot.holding 8) taken) four_blocks-IsMalloc
      taken-IsReached

-- The pool is stopped before its worker comes to the job.
abbrev stopped : Linked
stopped = record submitted { shared = record submitted.shared { thpool_active = 0 } }

stopped-IsReached : LinkedReachable four_blocks 1 (alone (Spot.at Place.gone) stopped)
unfolding linked_turn turn
stopped-IsReached = turns-IsReached 3 (Turn.moves (Spot.at Place.starting) stopped) (
    LinkedReachable.goes_on _ _ submitted-IsReached
      (LinkedStep.stops submitted (Spot.at Place.starting ∷ []) refl))

destroyed-no_leak_example :
    (after : Memory) × (free_jobs 2 8 one_job ≡ some after) × ((a : ℕ) → after a ≡ none)
destroyed-no_leak_example =
    destroyed-no_leak four_blocks 1 (alone (Spot.at Place.gone) stopped) four_blocks-IsMalloc
      (omega arith) stopped-IsReached refl refl
