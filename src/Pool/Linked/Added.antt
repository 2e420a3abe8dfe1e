-- ===== src/Pool/Linked/Added.antt =====
-- What a successful `thpool_enqueue_job` leaves for the workers that hold jobs.
use net_math.Base.{
  ℕ, ◌-◌, ◌<◌, ◌^◌, ◌≡◌, ◌≢◌, ap, sym, ◌∙◌, Option, none, some, List, [], ◌∷◌, ◌++◌, arith,
}
use net_math.Pool.{Job, Memory, ThpoolStatus, WorkQueue, Task, thpool_enqueue_job}
use net_math.Pool.Chain.{Entry, IsAway}
use net_math.Pool.Fifo.{IsQueue, entry, thpool_enqueue_job-Adds, thpool_enqueue_job_refused}
use net_math.Pool.Trace.{IsMalloc}
use net_math.Pool.Linked.Fits.{IsHeld}

pub held_ne_fresh :
    (m : Memory) (a job : ℕ) (es : List Entry) → IsHeld a m es → m job ≡ none → a ≡ job → ⊥
held_ne_fresh m a job es (nonnull, away, work, here) fresh same =
    some_ne_none (sym here ∙ ap m same ∙ fresh)
  where
    some_ne_none : {w : Job} → ◌≡◌ {A = Option Job} (some w) none → ⊥
    some_ne_none e = cc

abbrev queue_or : WorkQueue → Option (ThpoolStatus × WorkQueue) → WorkQueue
queue_or q none = q
queue_or q (some (status, q')) = q'

-- What a successful enqueue leaves.
unfoldable pub Added : (q : WorkQueue) (es : List Entry) (l : Entry) (after : WorkQueue) → Type 0
Added q es l after =
    IsQueue after (es ++ l ∷ [])
    × ((a : ℕ) → IsAway a es → a ≢ l.address → after.memory a ≡ q.memory a)

same_queue :
    (q : WorkQueue) (es : List Entry) (l : Entry) (a b : WorkQueue)
    → a ≡ b
    → Added q es l a
    → Added q es l b
same_queue q es l a b e h = rw e at h

pub enqueue-Added :
    (malloc : Memory → ℕ) (task : Task) (q queue : WorkQueue) (es : List Entry)
    → IsMalloc malloc
    → IsQueue q es
    → q.job_count < 2 ^ 64 - 1
    → thpool_enqueue_job malloc task q ≡ some (ThpoolStatus.thp_success, queue)
    → (q.memory (malloc q.memory) ≡ none) × Added q es (entry (malloc q.memory) task) queue
unfolding Added
enqueue-Added malloc task q queue es law h room e =
    let found : malloc q.memory ≢ 0 =
      λ z. refused_ne_success (sym (thpool_enqueue_job_refused malloc task q z) ∙ e) in
    let fresh = law.fresh q.memory found in
    let (after, adds, queued, cells) =
      thpool_enqueue_job-Adds malloc task q es h (omega (arith, room, h.count)) found fresh in
    (
      fresh,
      same_queue q es (entry (malloc q.memory) task) after queue
          (ap (queue_or queue) (sym adds ∙ e)) (queued, cells),
    )
  where
    refused_ne_success :
        {q q' : WorkQueue}
        → ◌≡◌ {A = Option (ThpoolStatus × WorkQueue)}
            (some (ThpoolStatus.thp_failure, q))
            (some (ThpoolStatus.thp_success, q'))
        → ⊥
    refused_ne_success e = cc
