-- ===== src/Listen.antt =====
-- `server_listen`, `start_server` and `signal_handler` of src/server/server_backend.c.
pub mod Laws
pub mod Stop
pub mod Kept
pub mod Ends
pub mod Tests
use net_math.Base.{
  ℕ, ◌+◌, Bool, true, false, not, ◌&&◌, Option, none, some, List, [], ◌∷◌, ◌++◌, ◌==◌,
  if◌then◌else◌,
}
use net_math.Pool.{WorkQueue}
use net_math.Pool.Setup.{
  Action, returns, never, ◌>>=◌, ◌>>◌, PoolAnswers, Thpool, thpool_init, thpool_wait,
  thpool_destroy,
}

-- One record of `getaddrinfo`: the descriptor that `socket` makes of it, and whether `socket`,
-- `setsockopt` and `bind` succeed.
pub record AddrRecord : Type 0 where
  pub fd : ℕ
  pub socket_ok : Bool
  pub setsockopt_ok : Bool
  pub bind_ok : Bool

-- One round of the accept loop: whether SIGINT came since the last test of the flag, what `accept`
-- returns, and whether `malloc` and `thpool_enqueue_job` succeed.
pub record Round : Type 0 where
  pub signalled : Bool
  pub accepted : Option ℕ
  pub malloc_ok : Bool
  pub enqueue_ok : Bool

-- What the system answers. `pool` is for `thpool_init` and `thpool_destroy`, `wait_loads` is what
-- `thpool_wait` loads, and `last_queue` the work queue as clients and workers leave it.
pub record Answers : Type 0 where
  pub records : (port : ℕ) → Option (List AddrRecord)
  pub listen_ok : Bool
  pub pool : PoolAnswers
  pub sigaction_ok : Bool
  pub rounds : List Round
  pub wait_loads : List (ℕ × ℕ)
  pub last_queue : WorkQueue

-- `sockets` and `clients` are the open descriptors that are made by `socket` and by `accept`;
-- `queued` are those handed to the thread pool, and `blocks` counts the allocated `int` blocks.
pub record Server : Type 0 where
  pub sockets : List ℕ
  pub clients : List ℕ
  pub queued : List ℕ
  pub blocks : ℕ
  pub server_run : Bool

abbrev pub close_fd : ℕ → List ℕ → List ℕ
close_fd fd [] = []
close_fd fd (x ∷ xs) = if x == fd then xs else x ∷ close_fd fd xs

-- How the walk over the records ends: at a bound socket, with an early return, or at NULL.
pub data Walk : Type 0 where
  bound : ℕ → Walk
  aborted exhausted : Walk

unfoldable pub walk_records : List AddrRecord → (sockets : List ℕ) → Walk × List ℕ
walk_records [] sockets = (Walk.exhausted, sockets)
walk_records (r ∷ rs) sockets =
    if not r.socket_ok
    then walk_records rs sockets
    else if not r.setsockopt_ok
    then (Walk.aborted, close_fd r.fd (r.fd ∷ sockets))
    else if r.bind_ok
    then (Walk.bound r.fd, r.fd ∷ sockets)
    else walk_records rs (close_fd r.fd (r.fd ∷ sockets))

abbrev pub after_walk : (listen_ok : Bool) → Walk × List ℕ → Option ℕ × List ℕ
after_walk listen_ok (Walk.bound fd, sockets) =
    if not listen_ok then (none, sockets) else (some fd, sockets)
after_walk listen_ok (Walk.aborted, sockets) = (none, sockets)
after_walk listen_ok (Walk.exhausted, sockets) = (none, sockets)

-- The descriptor, or `none` for -1, and the sockets that are open then.
unfoldable pub server_listen :
    Option (List AddrRecord) → (listen_ok : Bool) → (sockets : List ℕ) → Option ℕ × List ℕ
unfolding walk_records
server_listen none listen_ok sockets = (none, sockets)
server_listen (some records) listen_ok sockets = after_walk listen_ok (walk_records records sockets)

-- The body of the loop after its test.
unfoldable pub accept_one : Round → Server → Server
accept_one r s = elim r.accepted [
  | none ↦ s
  | some client_fd ↦
      let s = record s { clients = client_fd ∷ s.clients } in
      if not r.malloc_ok
      then record s { clients = close_fd client_fd s.clients }
      else if r.enqueue_ok
      then record s { blocks = s.blocks + 1; queued = s.queued ++ client_fd ∷ [] }
      else record s { blocks = s.blocks + 1 }
]

abbrev pub signal_handler : Server → Server
signal_handler s = record s { server_run = false }

-- SIGINT, if it came since the last test of the flag.
abbrev pub at_test : Round → Server → Server
at_test r s = if r.signalled then signal_handler s else s

-- The loop; `none` while it still runs. The test reads the flag and sets it.
unfoldable pub serve_rounds : List Round → Server → Option Server
serve_rounds [] s = none
serve_rounds (r ∷ rs) s =
    let seen = at_test r s in
    let tested = record seen { server_run = true } in
    let rest = serve_rounds rs (accept_one r tested) in
    if seen.server_run then rest else some tested

-- `start_server` from `accept` on, with the pool that it made.
abbrev pub after_loop : Answers → (fd : ℕ) → Thpool → Option Server → Action Server
after_loop a fd pool none = never
after_loop a fd pool (some s) = do
  thpool_wait a.wait_loads
  memory ← thpool_destroy a.pool.last_loads (record pool { work_queue = some a.last_queue })
  returns (record s { sockets = close_fd fd s.sockets })

abbrev pub with_pool : Answers → (fd : ℕ) → Server → Option Thpool → Action Server
with_pool a fd s none = returns (record s { sockets = close_fd fd s.sockets })
with_pool a fd s (some pool) =
    if not a.sigaction_ok
    then (do
      memory ← thpool_destroy a.pool.last_loads pool
      returns (record s { sockets = close_fd fd s.sockets }))
    else after_loop a fd pool (serve_rounds a.rounds (record s { server_run = true }))

-- `start_server` from the result of `server_listen` on.
abbrev pub with_socket : (thread_count : ℕ) → Answers → Server → Option ℕ × List ℕ → Action Server
with_socket thread_count a s (none, sockets) = returns (record s { sockets = sockets })
with_socket thread_count a s (some fd, sockets) = do
  pool ← thpool_init a.pool thread_count
  with_pool a fd (record s { sockets = sockets }) pool

unfoldable pub start_server : (thread_count port_num : ℕ) → Answers → Server → Action Server
unfolding server_listen serve_rounds
start_server thread_count port_num a s =
    with_socket thread_count a s (server_listen (a.records port_num) a.listen_ok s.sockets)
