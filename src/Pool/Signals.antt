-- ===== src/Pool/Signals.antt =====
-- The condition variables of src/thread_pool/thread_pool.c: a thread that is in `cnd_wait` comes
-- back only when it is woken.
pub mod Refines
pub mod Stuck
pub mod Tests
use net_math.Base.{
  ℕ, suc, ◌+◌, ◌≡◌, Bool, true, false, some, List, [], ◌∷◌, ◌++◌, ◌==◌, if◌then◌else◌,
}
use net_math.Pool.{Task}
use net_math.Pool.Workers.{Place, Shared, Pool, turn, initial}
use net_math.Pool.Workers.Counts.{count}
use net_math.Pool.Waiting.{WaitPlace}
use net_math.Pool.Lifetime.{Stage, owner_turn, Lifetime}

abbrev pub is_waiting : Place → Bool
is_waiting Place.waiting = true
is_waiting p = false

abbrev pub is_asleep : Stage → Bool
is_asleep (Stage.in_wait WaitPlace.sleeping) = true
is_asleep stage = false

-- `cnd_signal(&thpool->run_cond)`: it wakes one of the workers that wait, if there are any.
pub data Wakes : List Place → List Place → Type 0 where
  nobody : (ps : List Place) → count is_waiting ps ≡ 0 → Wakes ps ps
  some_worker :
      (before after : List Place)
      → Wakes (before ++ Place.waiting ∷ after) (before ++ Place.lock_again ∷ after)

abbrev pub wake : Place → Place
wake Place.waiting = Place.lock_again
wake p = p

-- `cnd_broadcast(&thpool->run_cond)`.
unfoldable pub wake_all : List Place → List Place
wake_all [] = []
wake_all (p ∷ ps) = wake p ∷ wake_all ps

-- `cnd_signal(&thpool->wait_cond)`, of which the number before and after is given.
abbrev pub woken : (before after : ℕ) → Stage → Stage
woken before after (Stage.in_wait WaitPlace.sleeping) =
    if before == after
    then Stage.in_wait WaitPlace.sleeping
    else Stage.in_wait WaitPlace.load_working
woken before after stage = stage

-- `thpool_dequeue_job` ends with a signal of `run_cond`.
abbrev pub due_after : Place → ℕ → ℕ
due_after Place.dequeue due = suc due
due_after p due = due

-- `due` are the signals of `run_cond` for changes of the queue that are made already.
pub record Signals : Type 0 where
  pub life : Lifetime
  pub due : ℕ

abbrev pub at : Shared → List Place → Stage → (due : ℕ) → Signals
at s places stage due = record {
  life = record { pool = record { shared = s; places = places }; stage = stage };
  due = due;
}

pub data SignalStep (thread_count : ℕ) : Signals → Signals → Type 0 where
  works :
      (s s' : Shared) (before : List Place) (p p' : Place) (after : List Place) (stage : Stage)
      (due : ℕ)
      → is_waiting p ≡ false
      → turn p s ≡ some (p', s')
      → SignalStep thread_count (at s (before ++ p ∷ after) stage due) (
          at s'
            (before ++ p' ∷ after)
            (woken s.wait_signals s'.wait_signals stage)
            (due_after p due))
  accepts :
      (s : Shared) (places : List Place) (task : Task) (due : ℕ)
      → SignalStep thread_count (at s places Stage.accepting due) (
          at
            (record s { queue = s.queue ++ task ∷ []; submitted = s.submitted ++ task ∷ [] })
            places
            Stage.accepting
            (suc due))
  signals :
      (s : Shared) (places places' : List Place) (stage : Stage) (due : ℕ)
      → Wakes places places'
      → SignalStep thread_count (at s places stage (suc due)) (at s places' stage due)
  owns :
      (s : Shared) (places : List Place) (stage : Stage) (due : ℕ)
      → is_asleep stage ≡ false
      → SignalStep thread_count
          (at s places stage due)
          (at (owner_turn thread_count stage s).1 places (owner_turn thread_count stage s).0 due)
  broadcasts :
      (s : Shared) (places : List Place) (due : ℕ)
      → SignalStep thread_count
          (at s places Stage.alive_loop due)
          (at s (wake_all places) Stage.alive_loop due)

pub data SignalReachable (thread_count : ℕ) : Signals → Type 0 where
  begins :
      SignalReachable thread_count
        (at (initial thread_count).shared (initial thread_count).places Stage.init_loop 0)
  goes_on :
      (a b : Signals)
      → SignalReachable thread_count a
      → SignalStep thread_count a b
      → SignalReachable thread_count b
