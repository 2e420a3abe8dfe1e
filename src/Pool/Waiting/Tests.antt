-- ===== src/Pool/Waiting/Tests.antt =====
-- `thpool_wait` returns while a worker still runs a task, which the worker ends later.
use net_math.Base.{
  ℕ, zero, suc, ◌≤◌, ◌≡◌, refl, arith, false, Option, none, some, List, [], ◌∷◌, ◌>>=◌,
}
use net_math.Pool.{Task}
use net_math.Pool.Workers.{Place, Shared, turn, Step}
use net_math.Pool.Workers.Tests.{solo, turns, task_a}
use net_math.Pool.Workers.Counts.{occurs}
use net_math.Pool.Waiting.Laws.{waited-finished}
use net_math.Pool.Waiting.{WaitPlace, wait_turn, Waiting, WaitStep, WaitReachable}

abbrev beside : WaitPlace → List Task → Place × Shared → Waiting
beside place seen x = record { pool = solo x; place = place; seen = seen }

abbrev AllReached : WaitPlace → List Task → Option (Place × Shared) → Type 0
AllReached place seen none = Unit {0}
AllReached place seen (some x) = WaitReachable 1 (beside place seen x)

module _ (place : WaitPlace) (seen : List Task) where
  turn-AllReached :
      (x : Place × Shared) (o : Option (Place × Shared))
      → WaitReachable 1 (beside place seen x)
      → turn x.0 x.1 ≡ o
      → AllReached place seen o
  turn-AllReached x none r e = tt
  turn-AllReached x (some y) r e =
      WaitReachable.goes_on _ _ r
        (WaitStep.others _ _ place seen (Step.works x.1 y.1 [] x.0 y.0 [] e))

  turns-AllReached :
      (n : ℕ) (x : Place × Shared)
      → WaitReachable 1 (beside place seen x)
      → AllReached place seen (turns n x)
  turns-AllReached zero x r = r
  turns-AllReached (suc n) x r =
      after n (turns-AllReached n) (turn x.0 x.1) (turn-AllReached x (turn x.0 x.1) r refl)
    where
      after :
          (n : ℕ)
          → ((y : Place × Shared)
              → WaitReachable 1 (beside place seen y)
              → AllReached place seen (turns n y))
          → (o : Option (Place × Shared)) → AllReached place seen o
          → AllReached place seen (o >>= turns n)
      after n rest none h = tt
      after n rest (some y) h = rest y h

abbrev state :
    (alive working active : ℕ) (queue : List Task) (signals : ℕ) (taken finished : List Task)
    → Shared
state alive working active queue signals taken finished = record {
  workers_alive = alive;
  workers_working = working;
  thpool_active = active;
  locked = false;
  queue = queue;
  wait_signals = signals;
  submitted = task_a ∷ [];
  taken = taken;
  finished = finished;
}

-- The thread has read `workers_working` as 0, and the worker is about to count itself.
abbrev between : Waiting
between = beside WaitPlace.load_count [] (Place.add_working, state 1 0 1 (task_a ∷ []) 0 [] [])

between-IsReached : WaitReachable 1 between
unfolding turn wait_turn
between-IsReached =
    WaitReachable.goes_on _ _
      (WaitReachable.goes_on _ _
        (turns-AllReached WaitPlace.wait_lock [] 6
          (Place.starting, state 0 0 1 (task_a ∷ []) 0 [] [])
          (WaitReachable.goes_on _ _ WaitReachable.begins
            (WaitStep.others _ _ WaitPlace.wait_lock [] (Step.submits _ _ task_a))))
        (WaitStep.waits _ WaitPlace.wait_lock []))
      (WaitStep.waits _ WaitPlace.load_working [])

-- It returns while the worker runs the task.
abbrev early : Waiting
early =
    beside WaitPlace.returned (task_a ∷ [])
      (Place.run_function task_a, state 1 1 1 [] 0 (task_a ∷ []) [])

early_return : WaitReachable 1 early
unfolding turn wait_turn
early_return =
    WaitReachable.goes_on _ _
      (WaitReachable.goes_on _ _
        (turns-AllReached WaitPlace.load_count [] 2
          (Place.add_working, state 1 0 1 (task_a ∷ []) 0 [] []) between-IsReached)
        (WaitStep.waits _ WaitPlace.load_count []))
      (WaitStep.waits _ WaitPlace.wait_unlock (task_a ∷ []))

-- The pool is stopped while the task runs, and the worker ends it and leaves.
abbrev ended : Waiting
ended =
    beside WaitPlace.returned (task_a ∷ [])
      (Place.gone, state 0 0 0 [] 1 (task_a ∷ []) (task_a ∷ []))

ended-IsReached : WaitReachable 1 ended
unfolding turn
ended-IsReached =
    turns-AllReached WaitPlace.returned (task_a ∷ []) 5
      (Place.run_function task_a, state 1 1 0 [] 0 (task_a ∷ []) [])
      (WaitReachable.goes_on _ _ early_return
        (WaitStep.others _ _ WaitPlace.returned (task_a ∷ []) (Step.stops _ _ refl)))

waited-finished_example : occurs task_a (task_a ∷ []) ≤ occurs task_a (task_a ∷ [])
waited-finished_example =
    waited-finished 1 ended (omega arith) ended-IsReached refl refl refl task_a
