-- ===== src/Pool/Trace.antt =====
-- Clients and workers share the queue of src/thread_pool/thread_pool.c: any order of their calls.
use net_math.Base.{
  ℕ, ◌+◌, ◌<◌, ◌^◌, ◌≡◌, ◌≢◌, refl, Option, none, some, List, [], ◌∷◌, ◌++◌, length, ◌>>=◌, arith,
  ℕ_discrete,
}
use net_math.Pool.{Memory, ThpoolStatus, WorkQueue, Task, thpool_enqueue_job, run_job}
use net_math.Pool.Chain.{Entry}
use net_math.Pool.Fifo.{
  IsQueue, entry, length-append, thpool_enqueue_job-IsQueue, thpool_enqueue_job_refused,
  run_job-IsQueue, run_job_empty,
}

-- `malloc` answers NULL or an address that is not allocated.
pub record IsMalloc (malloc : Memory → ℕ) : Type 0 where
  pub fresh : (memory : Memory) → malloc memory ≢ 0 → memory (malloc memory) ≡ none

pub data Request : Type 0 where
  enqueue : Task → Request
  take_one : Request

pub data Reply : Type 0 where
  queued refused idle : Reply
  ran : Task → Reply

status_reply : ThpoolStatus → Reply
status_reply ThpoolStatus.thp_success = Reply.queued
status_reply ThpoolStatus.thp_failure = Reply.refused

job_reply : Option Task → Reply
job_reply none = Reply.idle
job_reply (some task) = Reply.ran task

pub serve : (malloc : Memory → ℕ) → Request → WorkQueue → Option (Reply × WorkQueue)
unfolding status_reply job_reply
serve malloc (Request.enqueue task) q = do
  (status, after) ← thpool_enqueue_job malloc task q
  some (status_reply status, after)
serve malloc Request.take_one q = do (job, after) ← run_job q; some (job_reply job, after)

pub serve_all : (malloc : Memory → ℕ) → List Request → WorkQueue → Option (List Reply × WorkQueue)
unfolding serve
serve_all malloc [] q = some ([], q)
serve_all malloc (request ∷ requests) q = do
  (reply, next) ← serve malloc request q
  (replies, after) ← serve_all malloc requests next
  some (reply ∷ replies, after)

-- The replies of a first-in, first-out queue that holds the tasks and may refuse a new one.
pub data IsFifo : List Task → List Request → List Reply → Type 0 where
  at_end : (tasks : List Task) → IsFifo tasks [] []
  puts :
      (tasks : List Task) (task : Task) (requests : List Request) (replies : List Reply)
      → IsFifo (tasks ++ task ∷ []) requests replies
      → IsFifo tasks (Request.enqueue task ∷ requests) (Reply.queued ∷ replies)
  refuses :
      (tasks : List Task) (task : Task) (requests : List Request) (replies : List Reply)
      → IsFifo tasks requests replies
      → IsFifo tasks (Request.enqueue task ∷ requests) (Reply.refused ∷ replies)
  takes :
      (task : Task) (tasks : List Task) (requests : List Request) (replies : List Reply)
      → IsFifo tasks requests replies
      → IsFifo (task ∷ tasks) (Request.take_one ∷ requests) (Reply.ran task ∷ replies)
  idles :
      (requests : List Request) (replies : List Reply)
      → IsFifo [] requests replies
      → IsFifo [] (Request.take_one ∷ requests) (Reply.idle ∷ replies)

abbrev pub tasks_of : List Entry → List Task
tasks_of [] = []
tasks_of (e ∷ es) = e.task ∷ tasks_of es

pub tasks_of-append :
    (es : List Entry) (l : Entry) → tasks_of (es ++ l ∷ []) ≡ tasks_of es ++ l.task ∷ []
tasks_of-append [] l = refl
tasks_of-append (e ∷ es) l = rw (tasks_of-append es l)

IsQueue-signal :
    (q : WorkQueue) (es : List Entry) (n : ℕ)
    → IsQueue q es
    → IsQueue (record q { run_signals = n }) es
IsQueue-signal q es n h = record { chain = h.chain; tail = h.tail; count = h.count }

module _ (malloc : Memory → ℕ) (law : IsMalloc malloc) where
  -- Any sequence of `thpool_enqueue_job` and of takings by workers, from any queue and with too few
  -- requests to reach 2^64 jobs, runs without undefined behaviour, and its replies are those of a
  -- first-in, first-out queue: each taken task is the oldest, and a worker finds none only if the
  -- queue is empty. `malloc` is any function that answers NULL or an address not allocated.
  pub serve_all-IsFifo :
      (requests : List Request) (q : WorkQueue) (es : List Entry)
      → IsQueue q es
      → length es + length requests < 2 ^ 64
      → (replies : List Reply) × (after : WorkQueue) × (serve_all malloc requests q
          ≡ some (replies, after))
        × IsFifo (tasks_of es) requests replies
  unfolding serve_all serve
  serve_all-IsFifo [] q es h room = ([], q, refl, IsFifo.at_end (tasks_of es))
  serve_all-IsFifo (Request.enqueue task ∷ requests) q es h room =
      elim (ℕ_discrete (malloc q.memory) 0) [
        | yes null ↦
            let (replies, after, runs, fifo) = serve_all-IsFifo requests q es h (omega arith) in
            (
              Reply.refused ∷ replies,
              after,
              rw (thpool_enqueue_job_refused malloc task q null, runs),
              IsFifo.refuses _ task requests replies fifo,
            )
        | no found ↦
            let l = entry (malloc q.memory) task in
            let (next, adds, h') =
              thpool_enqueue_job-IsQueue malloc task q es h (omega arith) found
                (law.fresh q.memory found) in
            let (replies, after, runs, fifo) =
              serve_all-IsFifo requests next (es ++ l ∷ []) h'
                (rw (length-append es l) (omega arith)) in
            (
              Reply.queued ∷ replies,
              after,
              rw (adds, runs),
              IsFifo.puts _ task requests replies (rw (tasks_of-append es l) at fifo),
            )
      ]
  serve_all-IsFifo (Request.take_one ∷ requests) q [] h room =
      let (replies, after, runs, fifo) =
        serve_all-IsFifo requests (record q { run_signals = q.run_signals + 1 }) []
          (IsQueue-signal q [] (q.run_signals + 1) h) (omega arith) in
      (
        Reply.idle ∷ replies,
        after,
        rw (run_job_empty q h, runs),
        IsFifo.idles requests replies fifo,
      )
  serve_all-IsFifo (Request.take_one ∷ requests) q (e ∷ es) h room =
      let (next, taken, h', _) = run_job-IsQueue q e es h in
      let (replies, after, runs, fifo) = serve_all-IsFifo requests next es h' (omega arith) in
      (
        Reply.ran e.task ∷ replies,
        after,
        rw (taken, runs),
        IsFifo.takes e.task (tasks_of es) requests replies fifo,
      )
