-- ===== src/Main/Tests.antt =====
-- A run of the whole program.
use net_math.Base.{ℕ, Option, ◌≡◌, refl, ap, true, [], ◌∷◌, pos}
use net_math.Args.{Args}
use net_math.Args.Tests.{decimal, line, line_taken}
use net_math.Pool.Setup.{done, PoolAnswers}
use net_math.Pool.Setup.Start.{IsGranted}
use net_math.Pool.Setup.Worker.{empty_queue-IsQueue}
use net_math.Pool.Setup.Tests.{granted, nothing}
use net_math.Listen.{Server}
use net_math.Listen.Tests.{two_records, five_rounds, signal_round, answers, idle_server}
use net_math.Main.{main}
use net_math.Main.Laws.{main-serves}

abbrev eight_threads : PoolAnswers
eight_threads = record granted { loads = 5 ∷ 8 ∷ [] }

eight_threads-IsGranted : IsGranted eight_threads 8
eight_threads-IsGranted = record {
  all_prepared = refl;
  all_started = λ i lt. refl;
  all_alive = refl;
  all_gone = refl;
}

main-serves_example :
    (after : Server) × (main decimal true 5 line 5
        (record answers { pool = eight_threads })
        idle_server
        nothing
      ≡ done (pos 0, after) (record { blocks = 0; mutexes = 1; conds = 1; threads = 8 }))
    × (after.queued ≡ 5 ∷ 7 ∷ [])
    × (after.clients ≡ 9 ∷ 7 ∷ 5 ∷ [])
    × (after.blocks ≡ 3)
    × (after.sockets ≡ [])
main-serves_example =
    main-serves decimal (record answers { pool = eight_threads }) idle_server nothing true 5 line 5
      (record { port = 4000; threads = 8 }) two_records 4 five_rounds signal_round []
      (ap (λ (x : Option Args × ℕ). x.0) line_taken) eight_threads-IsGranted refl refl refl refl
      refl (refl, (refl, (refl, (refl, (refl, tt))))) refl refl empty_queue-IsQueue
