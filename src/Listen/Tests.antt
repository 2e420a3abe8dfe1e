-- ===== src/Listen/Tests.antt =====
-- Concrete runs of the server.
use net_math.Base.{◌≡◌, refl, true, false, none, some, List, [], ◌∷◌, ◌++◌, arith}
use net_math.Listen.{
  AddrRecord, Round, Answers, Server, walk_records, serve_rounds, accept_one, server_listen,
  start_server,
}
use net_math.Listen.Laws.{server_listen-chosen}
use net_math.Listen.Kept.{IsKept}
use net_math.Listen.Ends.{left_listening, start_server-IsKept}
use net_math.Listen.Stop.{start_server-stops}
use net_math.Pool.{free_jobs}
use net_math.Pool.Setup.{
  done, empty_queue, thpool_init, init_rest, create_workers, create_worker, await, thpool_wait,
  thpool_destroy, free_workers,
}
use net_math.Pool.Setup.Worker.{empty_queue-IsQueue}
use net_math.Pool.Setup.Tests.{granted, granted-IsGranted, nothing}

-- `bind` fails on the first record.
abbrev pub two_records : List AddrRecord
two_records =
    record { fd = 3; socket_ok = true; setsockopt_ok = true; bind_ok = false }
    ∷ record { fd = 4; socket_ok = true; setsockopt_ok = true; bind_ok = true }
    ∷ []

-- Two clients, a failed `accept`, a client without memory for its block, and one that cannot be
-- enqueued.
abbrev pub five_rounds : List Round
five_rounds =
    record { signalled = false; accepted = some 5; malloc_ok = true; enqueue_ok = true }
    ∷ record { signalled = false; accepted = none; malloc_ok = true; enqueue_ok = true }
    ∷ record { signalled = false; accepted = some 6; malloc_ok = false; enqueue_ok = true }
    ∷ record { signalled = false; accepted = some 7; malloc_ok = true; enqueue_ok = true }
    ∷ record { signalled = false; accepted = some 9; malloc_ok = true; enqueue_ok = false }
    ∷ []

abbrev pub signal_round : Round
signal_round = record { signalled = true; accepted = some 8; malloc_ok = true; enqueue_ok = true }

abbrev pub answers : Answers
answers = record {
  records = λ port. some two_records;
  listen_ok = true;
  pool = granted;
  sigaction_ok = true;
  rounds = five_rounds ++ signal_round ∷ [];
  wait_loads = (1, 0) ∷ (0, 0) ∷ [];
  last_queue = empty_queue;
}

abbrev pub idle_server : Server
idle_server = record { sockets = []; clients = []; queued = []; blocks = 0; server_run = false }

-- `listen` fails on the second record.
server_listen-chosen_example : server_listen (some two_records) false [] ≡ (none, 4 ∷ [])
server_listen-chosen_example = server_listen-chosen two_records false []

start_server-stops_example :
    (after : Server) × (start_server 2 31337 answers idle_server nothing
      ≡ done after (record { blocks = 0; mutexes = 1; conds = 1; threads = 2 }))
    × (after.queued ≡ 5 ∷ 7 ∷ [])
    × (after.clients ≡ 9 ∷ 7 ∷ 5 ∷ [])
    × (after.blocks ≡ 3)
    × (after.sockets ≡ [])
start_server-stops_example =
    start_server-stops 2 31337 answers idle_server nothing two_records 4 five_rounds signal_round []
      (ground arith) granted-IsGranted refl refl refl refl refl
      (refl, (refl, (refl, (refl, (refl, tt))))) refl refl empty_queue-IsQueue

-- The last client has a block, and was not handed over.
abbrev last_server : Server
last_server = record {
  sockets = [];
  clients = 9 ∷ 7 ∷ 5 ∷ [];
  queued = 5 ∷ 7 ∷ [];
  blocks = 3;
  server_run = true;
}

start_server-IsKept_example :
    ([] ≡ left_listening (some two_records) true []) × IsKept idle_server last_server
unfolding start_server server_listen walk_records serve_rounds accept_one thpool_init init_rest
    create_workers create_worker await thpool_wait thpool_destroy free_workers free_jobs
start_server-IsKept_example =
    start_server-IsKept 2 31337 answers idle_server last_server nothing
      (record { blocks = 0; mutexes = 1; conds = 1; threads = 2 }) refl
