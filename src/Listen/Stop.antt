-- ===== src/Listen/Stop.antt =====
-- How `start_server` of src/server/server_backend.c ends.
use net_math.Base.{
  ℕ, ◌+◌, ◌≡◌, ◌≢◌, refl, ap, ◌∙◌, Bool, true, false, not, ◌&&◌, Option, some, List, [], ◌∷◌, ◌++◌,
  ◌==◌, ◌||◌, if◌then◌else◌, length, arith,
}
use net_math.Pool.Fifo.{IsQueue}
use net_math.Pool.Setup.{
  Resources, Run, done, Action, Thpool, empty_queue, then_run, thpool_init, thpool_wait,
  thpool_destroy,
}
use net_math.Pool.Setup.Start.{IsGranted, ready, thpool_init-ready}
use net_math.Pool.Setup.Start
use net_math.Pool.Setup.Parts.{with_workers}
use net_math.Pool.Setup.Stop.{thpool_destroy-IsQueue}
use net_math.Pool.Setup.Worker.{empty_queue-IsQueue}
use net_math.Listen.{
  AddrRecord, Round, Answers, Server, close_fd, serve_rounds, after_loop, with_pool, with_socket,
  start_server,
}
use net_math.Listen.Laws.{
  chosen, listened, close_fd-head, IsQuiet, delivered, opened, serve_rounds-stops,
}

-- Whether one test of `thpool_wait` finds no worker at work and no job.
abbrev pub quiet_at : List (ℕ × ℕ) → Bool
quiet_at [] = false
quiet_at ((working, count) ∷ loads) = (0 == working && 0 == count) || quiet_at loads

thpool_wait-quiet :
    (loads : List (ℕ × ℕ)) (r : Resources) → quiet_at loads ≡ true → thpool_wait loads r ≡ done tt r
unfolding thpool_wait
thpool_wait-quiet [] r h = absurd (ground arith)
thpool_wait-quiet ((working, count) ∷ loads) r h = ground (arith, thpool_wait-quiet loads r)

past_test :
    {A : Type 0} (ok : Bool) (x y : Action A) (r : Resources)
    → ok ≡ true
    → (if not ok then x else y) r ≡ y r
past_test true x y r h = refl
past_test false x y r h = absurd (ground arith)

failed_test :
    {A : Type 0} (ok : Bool) (x y : Action A) (r : Resources)
    → ok ≡ false
    → (if not ok then x else y) r ≡ x r
failed_test true x y r h = absurd (ground arith)
failed_test false x y r h = refl

-- What a pool that was made and destroyed leaves.
abbrev pub after_pool : ℕ → Resources → Resources
after_pool n r = record r { mutexes = r.mutexes + 1; conds = r.conds + 1; threads = r.threads + n }

module _ (n port : ℕ) (a : Answers) (s : Server) (r : Resources) where
  made : Resources
  made = with_workers n (net_math.Pool.Setup.Start.with_pool r)

  -- The server with its socket and its pool.
  start_server-ready :
      (records : List AddrRecord) (fd : ℕ)
      → n ≢ 0
      → IsGranted a.pool n
      → a.records port ≡ some records
      → chosen records ≡ some fd
      → a.listen_ok ≡ true
      → start_server n port a s r
        ≡ with_pool a fd (record s { sockets = fd ∷ s.sockets }) (some (ready n)) made
  unfolding start_server made
  start_server-ready records fd nonzero granted found pick listening =
      ap (λ (socket : Option ℕ × List ℕ). with_socket n a s socket r)
        (listened (a.records port) records fd a.listen_ok s.sockets found pick listening)
      ∙ ap
          (λ (run : Run (Option Thpool)).
            then_run run (with_pool a fd (record s { sockets = fd ∷ s.sockets })))
          (thpool_init-ready a.pool n r nonzero granted)

  -- If the address list has a usable record and `listen`, `thpool_init` and `sigaction` succeed,
  -- `start_server` returns in the round in which it first sees SIGINT, once `thpool_wait` reads
  -- both counters as 0 and all workers are gone. By then it has handed to the thread pool, in
  -- order, exactly the clients accepted before for which both `malloc` and the enqueue succeeded.
  -- All clients for which `malloc` succeeded it has left open, each with one block, also those that
  -- could not be enqueued. Its socket is closed, and of the pool one mutex and one condition
  -- variable are left.
  pub start_server-stops :
      (records : List AddrRecord) (fd : ℕ) (served : List Round) (stop : Round) (rest : List Round)
      → n ≢ 0
      → IsGranted a.pool n
      → a.records port ≡ some records
      → chosen records ≡ some fd
      → a.listen_ok ≡ true
      → a.sigaction_ok ≡ true
      → a.rounds ≡ served ++ stop ∷ rest
      → IsQuiet served
      → stop.signalled ≡ true
      → quiet_at a.wait_loads ≡ true
      → IsQueue a.last_queue []
      → (after : Server) × (start_server n port a s r ≡ done after (after_pool n r))
        × (after.queued ≡ s.queued ++ delivered served)
        × (after.clients ≡ opened served ++ s.clients)
        × (after.blocks ≡ s.blocks + length (opened served))
        × (after.sockets ≡ s.sockets)
  unfolding made
  start_server-stops records fd served stop rest nonzero granted found pick listening signals e
        quiet h waited empty =
      let pool = record (ready n) { work_queue = some a.last_queue } in
      let running = record s { sockets = fd ∷ s.sockets; server_run = true } in
      let (last, ends, queue, clients, blocks, sockets) =
        serve_rounds-stops served stop rest running quiet h refl in
      let (memory, frees, cells) =
        thpool_destroy-IsQueue pool a.last_queue [] made a.pool.last_loads refl empty refl
          granted.all_gone in
      (
        record last { sockets = close_fd fd last.sockets },
        start_server-ready records fd nonzero granted found pick listening
            ∙ past_test a.sigaction_ok _ _ made signals
            ∙ ap
                (λ (rounds : List Round).
                  after_loop a fd (ready n) (serve_rounds rounds running) made)
                e
            ∙ ap (λ (o : Option Server). after_loop a fd (ready n) o made) ends
            ∙ rw (thpool_wait-quiet a.wait_loads made waited, frees) (ground arith),
        queue,
        clients,
        blocks,
        ap (close_fd fd) sockets ∙ close_fd-head fd s.sockets,
      )

  -- If `sigaction` fails after the socket and the pool were made, the server is as before and of
  -- the pool one mutex and one condition variable are left.
  pub start_server-no_handler :
      (records : List AddrRecord) (fd : ℕ)
      → n ≢ 0
      → IsGranted a.pool n
      → a.records port ≡ some records
      → chosen records ≡ some fd
      → a.listen_ok ≡ true
      → a.sigaction_ok ≡ false
      → start_server n port a s r ≡ done s (after_pool n r)
  unfolding made
  start_server-no_handler records fd nonzero granted found pick listening signals =
      let (memory, frees, cells) =
        thpool_destroy-IsQueue (ready n) empty_queue [] made a.pool.last_loads refl
          empty_queue-IsQueue refl granted.all_gone in
      start_server-ready records fd nonzero granted found pick listening
      ∙ failed_test a.sigaction_ok _ _ made signals
      ∙ rw frees (ground (arith, close_fd-head fd s.sockets))
