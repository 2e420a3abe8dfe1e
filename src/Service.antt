-- ===== src/Service.antt =====
-- The server as a whole: the accept loop of src/server/server_backend.c hands connections to the
-- pool of src/thread_pool/thread_pool.c, whose workers run `serve_client` on them.
pub mod Balance
pub mod Effect
pub mod Laws
pub mod Served
pub mod Tests
use net_math.Base.{ℕ, ◌+◌, ◌≡◌, Option, none, some, List, [], ◌∷◌, ◌++◌, ◌>>=◌, length}
use net_math.Io.{World, Outcome, done, null, fault}
use net_math.Header.{Host}
use net_math.Session.{serve_client}
use net_math.Pool.{Task}
use net_math.Pool.Workers.{Place, Shared, Pool, turn, initial}
use net_math.Pool.Lifetime.{Stage, owner_turn, Lifetime}

-- What the connections and their sessions have of the process, in blocks and in sockets, and for
-- each session that ended the number of its connection and what was sent on it.
pub record Process : Type 0 where
  pub live : ℕ
  pub open_sockets : ℕ
  pub replies : List (ℕ × List ℕ)

-- What `serve_client` sees of it, next to its peer.
abbrev pub at_peer : World → Process → World
at_peer peer c = record peer { live = c.live; output = []; open_sockets = c.open_sockets }

abbrev pub process_of : (arg : ℕ) → Process → Outcome (Unit {0}) → Option Process
process_of arg c (done u w) = some (record {
  live = w.live;
  open_sockets = w.open_sockets;
  replies = c.replies ++ (arg, w.output) ∷ [];
})
process_of arg c (null w) = some (record {
  live = w.live;
  open_sockets = w.open_sockets;
  replies = c.replies ++ (arg, w.output) ∷ [];
})
process_of arg c fault = none

-- What `start_server` hands to the pool for a connection; `pointer` is the address of
-- `serve_client`, and the descriptor stands for the number of the connection.
abbrev pub session : (pointer number : ℕ) → Task
session pointer number = record { function = pointer; arg = number }

-- `accept` of a connection and `malloc` of the block for its descriptor. Where one of the two
-- fails, the connection is closed and all is as before.
abbrev pub one_more : Process → Option Process
one_more c = some (record c { live = c.live + 1; open_sockets = c.open_sockets + 1 })

-- `lost` counts the connections for which `thpool_enqueue_job` failed. `process` is `none` once
-- a session did not go on.
pub record Service : Type 0 where
  pub life : Lifetime
  pub process : Option Process
  pub lost : ℕ

abbrev pub in_state : Shared → List Place → Stage → Option Process → (lost : ℕ) → Service
in_state s places stage c lost = record {
  life = record { pool = record { shared = s; places = places }; stage = stage };
  process = c;
  lost = lost;
}

-- The connections are numbered in the order in which they were accepted; `peers` are the clients.
module _ (host : Host) (peers : (arg : ℕ) → World) where
  -- What the access of a worker does beyond the pool: `job_function(job_arg)`.
  abbrev pub job_effect : Place → Process → Option Process
  job_effect (Place.run_function task) c =
      process_of task.arg c (serve_client host (at_peer (peers task.arg) c))
  job_effect p c = some c

  module _ (thread_count pointer : ℕ) where
    -- A worker makes its next access; the accept loop hands a connection to the pool, or fails to;
    -- the thread of `start_server` makes its next access.
    pub data ServiceStep : Service → Service → Type 0 where
      works :
          (s s' : Shared) (before : List Place) (p p' : Place) (after : List Place) (stage : Stage)
          (c : Option Process) (lost : ℕ)
          → turn p s ≡ some (p', s')
          → ServiceStep
              (in_state s (before ++ p ∷ after) stage c lost)
              (in_state s' (before ++ p' ∷ after) stage (c >>= job_effect p) lost)
      accepts :
          (s : Shared) (places : List Place) (c : Option Process) (lost : ℕ)
          → ServiceStep (in_state s places Stage.accepting c lost) (
              in_state
                (record s {
                  queue = s.queue ++ session pointer (length s.submitted + lost) ∷ [];
                  submitted = s.submitted ++ session pointer (length s.submitted + lost) ∷ [];
                })
                places
                Stage.accepting
                (c >>= one_more)
                lost)
      loses :
          (s : Shared) (places : List Place) (c : Option Process) (lost : ℕ)
          → ServiceStep
              (in_state s places Stage.accepting c lost)
              (in_state s places Stage.accepting (c >>= one_more) (lost + 1))
      owns :
          (s : Shared) (places : List Place) (stage : Stage) (c : Option Process) (lost : ℕ)
          → ServiceStep (in_state s places stage c lost) (
              in_state
                (owner_turn thread_count stage s).1
                places
                (owner_turn thread_count stage s).0
                c
                lost)

    pub data ServiceReachable (live open_sockets : ℕ) : Service → Type 0 where
      begins : ServiceReachable live open_sockets (
          in_state
            (initial thread_count).shared
            (initial thread_count).places
            Stage.init_loop
            (some (record { live = live; open_sockets = open_sockets; replies = [] }))
            0)
      goes_on :
          (a b : Service)
          → ServiceReachable live open_sockets a
          → ServiceStep a b
          → ServiceReachable live open_sockets b
