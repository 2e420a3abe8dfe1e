-- ===== src/Pool/Linked/Fits.antt =====
-- When the linked list, the list of tasks and the pointers that workers hold agree.
use net_math.Base.{
  ℕ, ◌+◌, ◌<◌, ◌≤◌, ◌≡◌, ◌≢◌, Bool, true, false, Option, none, some, List, ◌==◌, arith,
}
use net_math.Pool.{Job, Memory, Task}
use net_math.Pool.Chain.{Entry, IsAway}
use net_math.Pool.Fifo.{IsQueue}
use net_math.Pool.Trace.{tasks_of}
use net_math.Pool.Workers.{Place, Shared, turn}
use net_math.Pool.Workers.Counts.{one}
use net_math.Pool.Linked.{Spot, Linked, Turn}

-- The place of a worker, by the job that it holds.
abbrev pub held_place : Option Job → Place
held_place none = Place.gone
held_place (some work) =
    Place.run_function (record { function = work.job_function; arg = work.job_arg })

abbrev pub place_of : Memory → Spot → Place
place_of memory (Spot.at p) = p
place_of memory (Spot.holding job) = held_place (memory job)

abbrev pub holds_job : ℕ → Spot → Bool
holds_job a (Spot.at p) = false
holds_job a (Spot.holding job) = a == job

-- A job that was taken: its block is allocated and out of the list.
abbrev pub IsHeld : ℕ → Memory → List Entry → Type 0
IsHeld a memory es = (a ≢ 0) × IsAway a es × (work : Job) × (memory a ≡ some work)

-- The linked list, the list of tasks and the pointers that workers hold agree, and a block that is
-- in neither is not allocated; `others` counts those that hold a pointer, apart from the worker at
-- `x`.
pub record Fits (others : ℕ → ℕ) (x : Spot) (l : Linked) (es : List Entry) : Type 0 where
  pub queue : IsQueue l.work_queue es
  pub tasks : l.shared.queue ≡ tasks_of es
  pub distinct : (a : ℕ) → others a + one (holds_job a x) ≤ 1
  pub held : (a : ℕ) → 0 < others a + one (holds_job a x) → IsHeld a l.work_queue.memory es
  pub owned :
      (a : ℕ) → IsAway a es → others a + one (holds_job a x) ≡ 0 → l.work_queue.memory a ≡ none

abbrev pub AfterTurn : (ℕ → ℕ) → Spot → Linked → Turn → Type 0
AfterTurn others x l Turn.blocked = Unit {0}
AfterTurn others x l Turn.fault = ⊥
AfterTurn others x l (Turn.moves x' l') =
    ((es : List Entry) × Fits others x' l' es)
    × (turn (place_of l.work_queue.memory x) l.shared
        ≡ some (place_of l'.work_queue.memory x', l'.shared))
    × ((a : ℕ) → 0 < others a → l'.work_queue.memory a ≡ l.work_queue.memory a)

abbrev pub KeepsQueue : List Task → Option (Place × Shared) → Type 0
KeepsQueue tasks none = Unit {0}
KeepsQueue tasks (some (p, s)) = s.queue ≡ tasks

-- The places at which the queue is read.
abbrev pub reads_queue : Place → Bool
reads_queue Place.dequeue = true
reads_queue Place.count_test = true
reads_queue Place.last_count = true
reads_queue Place.final_count = true
reads_queue p = false

pub turn-KeepsQueue :
    (p : Place) (s : Shared) → reads_queue p ≡ false → KeepsQueue s.queue (turn p s)
unfolding turn
turn-KeepsQueue p s h = ground arith
