-- ===== src/Pool/Lifetime.antt =====
-- The thread of src/server/server_backend.c that makes the pool of src/thread_pool/thread_pool.c,
-- hands it tasks, waits for them and frees it, beside the workers.
pub mod Laws
pub mod Ends
pub mod Tests
use net_math.Base.{ℕ, ◌≡◌, Option, none, some, List, [], ◌∷◌, ◌++◌, ◌==◌, if◌then◌else◌}
use net_math.Pool.{Task}
use net_math.Pool.Workers.{Place, Shared, Pool, turn, initial, down8}
use net_math.Pool.Waiting.{WaitPlace, wait_turn}

-- Where the thread stands in `start_server`: the last loop of `thpool_init`, the accept loop,
-- `thpool_wait`, the first access and the loop of `thpool_destroy`, and the frees after it.
pub data Stage : Type 0 where
  init_loop accepting : Stage
  in_wait : WaitPlace → Stage
  destroy_begin alive_loop freed : Stage

-- The next access of the thread, which from `accepting` is the call of `thpool_wait`.
unfoldable pub owner_turn : (thread_count : ℕ) → Stage → Shared → Stage × Shared
unfolding wait_turn
owner_turn n Stage.init_loop s =
    (if s.workers_alive == n then Stage.accepting else Stage.init_loop, s)
owner_turn n Stage.accepting s = (Stage.in_wait WaitPlace.wait_lock, s)
owner_turn n (Stage.in_wait WaitPlace.returned) s = (Stage.destroy_begin, s)
owner_turn n (Stage.in_wait place) s = (Stage.in_wait (wait_turn place s), s)
owner_turn n Stage.destroy_begin s =
    (Stage.alive_loop, record s { thpool_active = down8 s.thpool_active })
owner_turn n Stage.alive_loop s =
    (if 0 == s.workers_alive then Stage.freed else Stage.alive_loop, s)
owner_turn n Stage.freed s = (Stage.freed, s)

pub record Lifetime : Type 0 where
  pub pool : Pool
  pub stage : Stage

-- `accepts` is a `thpool_enqueue_job` of the accept loop that succeeds.
pub data LifeStep (thread_count : ℕ) : Lifetime → Lifetime → Type 0 where
  works :
      (s s' : Shared) (before : List Place) (p p' : Place) (after : List Place) (stage : Stage)
      → turn p s ≡ some (p', s')
      → LifeStep thread_count
          (record { pool = record { shared = s; places = before ++ p ∷ after }; stage = stage })
          (record { pool = record { shared = s'; places = before ++ p' ∷ after }; stage = stage })
  accepts :
      (s : Shared) (places : List Place) (task : Task)
      → LifeStep thread_count
          (record { pool = record { shared = s; places = places }; stage = Stage.accepting })
          (record {
            pool = record {
              shared = record s {
                queue = s.queue ++ task ∷ [];
                submitted = s.submitted ++ task ∷ [];
              };
              places = places;
            };
            stage = Stage.accepting;
          })
  owns :
      (s : Shared) (places : List Place) (stage : Stage)
      → LifeStep thread_count
          (record { pool = record { shared = s; places = places }; stage = stage })
          (record {
            pool = record { shared = (owner_turn thread_count stage s).1; places = places };
            stage = (owner_turn thread_count stage s).0;
          })

-- The thread has created the workers, of which none has run yet.
pub data LifeReachable (thread_count : ℕ) : Lifetime → Type 0 where
  begins :
      LifeReachable thread_count (record { pool = initial thread_count; stage = Stage.init_loop })
  goes_on :
      (a b : Lifetime)
      → LifeReachable thread_count a
      → LifeStep thread_count a b
      → LifeReachable thread_count b
