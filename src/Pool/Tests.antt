-- ===== src/Pool/Tests.antt =====
-- Concrete runs of the work queue.
use net_math.Base.{
  ℕ, zero, suc, ◌+◌, ◌≡◌, ◌≢◌, refl, none, some, List, [], ◌∷◌, ◌==◌, if◌then◌else◌, arith,
}
use net_math.Pool.{Memory, WorkQueue, Task}
use net_math.Pool.Chain.{Entry, IsChain}
use net_math.Pool.Fifo.{IsQueue, entry}
use net_math.Pool.Trace.{IsMalloc, Request, Reply, serve_all, IsFifo, serve_all-IsFifo}

-- An allocator with four blocks.
abbrev next_free : Memory → (first left : ℕ) → ℕ
next_free memory first zero = 0
next_free memory first (suc left) = elim (memory first) [
  | none ↦ first
  | some _ ↦ next_free memory (first + 8) left
]

next_free-fresh :
    (memory : Memory) (first left : ℕ)
    → next_free memory first left ≢ 0
    → memory (next_free memory first left) ≡ none
next_free-fresh memory first zero h = absurd (h refl)
next_free-fresh memory first (suc left) h = ground (arith, next_free-fresh memory (first + 8) left)

abbrev pub four_blocks : Memory → ℕ
four_blocks memory = next_free memory 8 4

pub four_blocks-IsMalloc : IsMalloc four_blocks
four_blocks-IsMalloc = record { fresh = λ memory h. next_free-fresh memory 8 4 h }

abbrev pub task_a : Task
task_a = record { function = 1; arg = 5 }

abbrev task_b : Task
task_b = record { function = 1; arg = 6 }

abbrev empty_queue : WorkQueue
empty_queue = record {
  job_head = 0;
  job_tail = 0;
  job_count = 0;
  memory = λ p. none;
  run_signals = 0;
}

empty_queue-IsQueue : IsQueue empty_queue []
empty_queue-IsQueue = record { chain = refl; tail = refl; count = refl }

abbrev pub two_jobs : WorkQueue
two_jobs = record {
  job_head = 8;
  job_tail = 16;
  job_count = 2;
  memory = λ p.
      if p == 8
      then some (record { next_job = 16; job_function = 1; job_arg = 5 })
      else if p == 16
      then some (record { next_job = 0; job_function = 1; job_arg = 6 })
      else none;
  run_signals = 2;
}

abbrev pub two_entries : List Entry
two_entries = entry 8 task_a ∷ entry 16 task_b ∷ []

two_jobs-IsChain : IsChain two_jobs.memory 8 two_entries
two_jobs-IsChain =
    (refl, ground arith, (ground arith, tt), 16, refl, (refl, ground arith, tt, 0, refl, refl))

pub two_jobs-IsQueue : IsQueue two_jobs two_entries
two_jobs-IsQueue = record { chain = two_jobs-IsChain; tail = refl; count = refl }

abbrev requests : List Request
requests =
    Request.enqueue task_a
    ∷ Request.enqueue task_b
    ∷ Request.take_one
    ∷ Request.enqueue task_a
    ∷ Request.take_one
    ∷ Request.take_one
    ∷ Request.take_one
    ∷ []

serve_all-IsFifo_example :
    (replies : List Reply) × (after : WorkQueue) × (serve_all four_blocks requests empty_queue
      ≡ some (replies, after))
    × IsFifo [] requests replies
serve_all-IsFifo_example =
    serve_all-IsFifo four_blocks four_blocks-IsMalloc requests empty_queue [] empty_queue-IsQueue
      (omega arith)
