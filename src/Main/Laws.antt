-- ===== src/Main/Laws.antt =====
-- A run of `main` of src/server/server.c from the command line to the end.
use net_math.Base.{
  ℕ, ◌+◌, ◌≡◌, ap, ◌∙◌, Bool, true, Option, some, List, [], ◌∷◌, ◌++◌, pos, arith, length,
}
use net_math.Args.{Args, Strtol, Opt, free_args, parse_args}
use net_math.Args.Laws.{parse_args-IsUsable, parse_args-some}
use net_math.Pool.Fifo.{IsQueue}
use net_math.Pool.Setup.{Resources, Run, done, then_run}
use net_math.Pool.Setup.Start.{IsGranted}
use net_math.Listen.{AddrRecord, Round, Answers, Server}
use net_math.Listen.Laws.{chosen, IsQuiet, delivered, opened}
use net_math.Listen.Stop.{quiet_at, after_pool, start_server-stops}
use net_math.Main.{with_args, main}

module _ (strtol : List ℕ → Strtol) (a : Answers) (s : Server) (r : Resources) where
  -- If the command line is accepted with `args`, the port of `args` has a usable address, every
  -- answer up to the accept loop is a success and the loops that wait end, then `main` returns 0
  -- after the round in which it first sees SIGINT. By then the clients of the rounds before for
  -- which `malloc` and the enqueue succeeded have been handed to the thread pool in order; the
  -- accept loop has left them open, each with a block, and so those that could not be enqueued.
  -- Its socket is closed,
  -- the blocks of the arguments and of the pool are freed, and of a pool of `args.threads` threads
  -- one mutex and one condition variable are left.
  pub main-serves :
      (malloc_ok : Bool) (argc : ℕ) (opts : List Opt) (optind : ℕ) (args : Args)
      (records : List AddrRecord) (fd : ℕ) (served : List Round) (stop : Round) (rest : List Round)
      → (parse_args strtol malloc_ok argc opts optind r.blocks).0 ≡ some args
      → IsGranted a.pool args.threads
      → a.records args.port ≡ some records
      → chosen records ≡ some fd
      → a.listen_ok ≡ true
      → a.sigaction_ok ≡ true
      → a.rounds ≡ served ++ stop ∷ rest
      → IsQuiet served
      → stop.signalled ≡ true
      → quiet_at a.wait_loads ≡ true
      → IsQueue a.last_queue []
      → (after : Server) × (main strtol malloc_ok argc opts optind a s r
          ≡ done (pos 0, after) (after_pool args.threads r))
        × (after.queued ≡ s.queued ++ delivered served)
        × (after.clients ≡ opened served ++ s.clients)
        × (after.blocks ≡ s.blocks + length (opened served))
        × (after.sockets ≡ s.sockets)
  unfolding main
  main-serves malloc_ok argc opts optind args records fd served stop rest parsed granted found pick
        listening signals e quiet h waited empty =
      let usable = parse_args-IsUsable strtol malloc_ok argc opts optind r.blocks parsed in
      let (after, ends, queue, clients, blocks, sockets) =
        start_server-stops args.threads args.port a s (record r { blocks = r.blocks + 1 }) records
          fd served stop rest (omega (arith, usable.some_threads)) granted found pick listening
          signals e quiet h waited empty in
      (
        after,
        ap (λ (o : Option Args × ℕ). with_args o a s r)
              (parse_args-some strtol malloc_ok argc opts optind r.blocks parsed)
            ∙ ap
                (λ (run : Run Server).
                  then_run run
                    (λ after r'. done (pos 0, after) (record r' { blocks = free_args r'.blocks })))
                ends
            ∙ ground arith,
        queue,
        clients,
        blocks,
        sockets,
      )
