-- ===== src/Pool/Lifetime/Tests.antt =====
-- A pool with one worker, from `thpool_init` to the end of `thpool_destroy`. `thpool_wait` returns
-- while the worker runs the task, which is finished before the pool is freed.
use net_math.Base.{
  ◌≤◌, ◌≡◌, ◌⊎◌, refl, false, Option, none, some, List, [], ◌∷◌, ◌++◌, ◌>>=◌, replicate, arith,
}
use net_math.Pool.{Task}
use net_math.Pool.Workers.{Place, Shared, turn, initial}
use net_math.Pool.Workers.Counts.{occurs}
use net_math.Pool.Workers.Tests.{solo, task_a}
use net_math.Pool.Waiting.{wait_turn}
use net_math.Pool.Lifetime.{Stage, owner_turn, Lifetime, LifeStep, LifeReachable}
use net_math.Pool.Workers.Ends.{CanMove}
use net_math.Pool.Lifetime.Laws.{freed-finished}
use net_math.Pool.Lifetime.Ends.{LifeRun, destroy-ends}

-- Who makes the next access.
data Move : Type 0 where
  worker owner : Move
  accept : Task → Move

record Solo : Type 0 where
  place : Place
  shared : Shared
  stage : Stage

abbrev life : Solo → Lifetime
life x = record { pool = solo (x.place, x.shared); stage = x.stage }

abbrev accepted : Task → Place → Shared → Stage → Option Solo
accepted task p s Stage.accepting = some (record {
  place = p;
  shared = record s { queue = s.queue ++ task ∷ []; submitted = s.submitted ++ task ∷ [] };
  stage = Stage.accepting;
})
accepted task p s stage = none

abbrev with_turn : Stage → Option (Place × Shared) → Option Solo
with_turn stage none = none
with_turn stage (some (p, s)) = some (record { place = p; shared = s; stage = stage })

unfoldable play : Move → Solo → Option Solo
unfolding turn owner_turn
play Move.worker x = with_turn x.stage (turn x.place x.shared)
play Move.owner x =
    let next = owner_turn 1 x.stage x.shared in
    some (record { place = x.place; shared = next.1; stage = next.0 })
play (Move.accept task) x = accepted task x.place x.shared x.stage

abbrev plays : List Move → Solo → Option Solo
plays [] x = some x
plays (m ∷ ms) x = do next ← play m x; plays ms next

abbrev IsReached : Option Solo → Type 0
IsReached none = Unit {0}
IsReached (some x) = LifeReachable 1 (life x)

turn-IsReached :
    (x : Solo) (o : Option (Place × Shared))
    → turn x.place x.shared ≡ o
    → LifeReachable 1 (life x)
    → IsReached (with_turn x.stage o)
turn-IsReached x none e r = tt
turn-IsReached x (some (p, s)) e r =
    LifeReachable.goes_on _ _ r (LifeStep.works x.shared s [] x.place p [] x.stage e)

accepted-IsReached :
    (task : Task) (p : Place) (s : Shared) (stage : Stage)
    → LifeReachable 1 (record { pool = solo (p, s); stage = stage })
    → IsReached (accepted task p s stage)
accepted-IsReached task p s Stage.accepting r =
    LifeReachable.goes_on _ _ r (LifeStep.accepts s (p ∷ []) task)
accepted-IsReached task p s stage r = ground arith

play-IsReached : (m : Move) (x : Solo) → LifeReachable 1 (life x) → IsReached (play m x)
unfolding play
play-IsReached Move.worker x r = turn-IsReached x (turn x.place x.shared) refl r
play-IsReached Move.owner x r =
    LifeReachable.goes_on _ _ r (LifeStep.owns x.shared (x.place ∷ []) x.stage)
play-IsReached (Move.accept task) x r = accepted-IsReached task x.place x.shared x.stage r

plays-IsReached : (ms : List Move) (x : Solo) → LifeReachable 1 (life x) → IsReached (plays ms x)
plays-IsReached [] x r = r
plays-IsReached (m ∷ ms) x r =
    rest (play m x) (play-IsReached m x r) (λ y h. plays-IsReached ms y h)
  where
    rest :
        (o : Option Solo)
        → IsReached o
        → ((y : Solo) → LifeReachable 1 (life y) → IsReached (plays ms y))
        → IsReached (o >>= plays ms)
    rest none h later = tt
    rest (some y) h later = later y h

abbrev start : Solo
start = record { place = Place.starting; shared = (initial 1).shared; stage = Stage.init_loop }

abbrev first_moves : List Move
first_moves =
    Move.owner
      ∷ Move.worker
      ∷ Move.owner
      ∷ Move.accept task_a
      ∷ Move.owner
      ∷ replicate 5 Move.worker
    ++ replicate 2 Move.owner
    ++ replicate 2 Move.worker
    ++ replicate 4 Move.owner

abbrev schedule : List Move
schedule = first_moves ++ replicate 5 Move.worker ++ Move.owner ∷ []

abbrev end : Solo
end = record {
  place = Place.gone;
  shared = record {
    workers_alive = 0;
    workers_working = 0;
    thpool_active = 0;
    locked = false;
    queue = [];
    wait_signals = 1;
    submitted = task_a ∷ [];
    taken = task_a ∷ [];
    finished = task_a ∷ [];
  };
  stage = Stage.freed;
}

runs_to_freed : plays schedule start ≡ some end
unfolding play turn owner_turn wait_turn
runs_to_freed = refl

end-IsReached : LifeReachable 1 (life end)
end-IsReached = rw runs_to_freed at (plays-IsReached schedule start LifeReachable.begins)

freed-finished_example :
    ((life end).pool.places ≡ Place.gone ∷ [])
    × ((t : Task) → occurs t end.shared.finished ≡ occurs t end.shared.submitted)
freed-finished_example = freed-finished 1 (life end) (omega arith) end-IsReached refl

-- The owner is in the loop of `thpool_destroy` while the worker runs the task.
abbrev closing : Solo
closing = record {
  place = Place.run_function task_a;
  shared = record {
    workers_alive = 1;
    workers_working = 1;
    thpool_active = 0;
    locked = false;
    queue = [];
    wait_signals = 0;
    submitted = task_a ∷ [];
    taken = task_a ∷ [];
    finished = [];
  };
  stage = Stage.alive_loop;
}

runs_to_closing : plays first_moves start ≡ some closing
unfolding play turn owner_turn wait_turn
runs_to_closing = refl

closing-IsReached : LifeReachable 1 (life closing)
closing-IsReached = rw runs_to_closing at (plays-IsReached first_moves start LifeReachable.begins)

abbrev task_run : Solo
task_run = record closing {
  place = Place.sub_working;
  shared = record (closing.shared) { finished = task_a ∷ [] };
}

-- The worker ends its task, and the owner tests the counter once more.
one_access : LifeRun 1 (life closing) 1 (life task_run)
unfolding turn owner_turn
one_access = LifeRun.owns 1 task_run.shared (Place.sub_working ∷ []) Stage.alive_loop (
    LifeRun.works 0 closing.shared task_run.shared [] closing.place Place.sub_working []
      Stage.alive_loop LifeRun.nothing refl)

destroy-ends_example :
    (1 ≤ 8)
    × (CanMove (life task_run).pool
        ⊎ ((owner_turn 1 Stage.alive_loop task_run.shared).0 ≡ Stage.freed))
destroy-ends_example =
    destroy-ends 1 (life closing) (life task_run) 1 (omega arith) closing-IsReached refl one_access
