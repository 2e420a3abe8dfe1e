-- ===== src/Pool/Workers/Tests.antt =====
-- A pool with one worker: it takes one task, finishes it, is stopped and leaves.
use net_math.Base.{
  ℕ, zero, suc, ◌*◌, ◌≤◌, ◌⊎◌, replicate, ◌≡◌, refl, false, Option, none, some, List, [], ◌∷◌,
  ◌>>=◌, arith,
}
use net_math.Pool.{Task}
use net_math.Pool.Workers.{Place, Shared, turn, Pool, Step, Reachable}
use net_math.Pool.Workers.Counts.{count}
use net_math.Pool.Workers.Stays.{is_leaving, Reachable-stays}
use net_math.Pool.Workers.Invariant.{IsConsistent, Reachable-IsConsistent}
use net_math.Pool.Workers.Ends.{Run, CanMove, stopped-gone}

abbrev pub solo : Place × Shared → Pool
solo (p, s) = record { shared = s; places = p ∷ [] }

abbrev pub turns : ℕ → Place × Shared → Option (Place × Shared)
turns zero x = some x
turns (suc n) (p, s) = do next ← turn p s; turns n next

abbrev IsReached : Option (Place × Shared) → Type 0
IsReached none = Unit {0}
IsReached (some x) = Reachable 1 (solo x)

turns-IsReached : (n : ℕ) (x : Place × Shared) → Reachable 1 (solo x) → IsReached (turns n x)
turns-IsReached zero x h = h
turns-IsReached (suc n) (p, s) h =
    go (turn p s)
      (λ y e. turns-IsReached n y (Reachable.goes_on _ _ h (Step.works s y.1 [] p y.0 [] e))) refl
  where
    go :
        (next : Option (Place × Shared))
        → ((y : Place × Shared) → turn p s ≡ some y → IsReached (turns n y))
        → turn p s ≡ next
        → IsReached (next >>= turns n)
    go none rest e = tt
    go (some y) rest e = rest y e

abbrev pub task_a : Task
task_a = record { function = 1; arg = 5 }

abbrev fields :
    (alive working active : ℕ) (queue : List Task) (signals : ℕ) (taken : List Task) → Shared
fields alive working active queue signals taken = record {
  workers_alive = alive;
  workers_working = working;
  thpool_active = active;
  locked = false;
  queue = queue;
  wait_signals = signals;
  submitted = task_a ∷ [];
  taken = taken;
  finished = taken;
}

submitted-IsReached : Reachable 1 (solo (Place.starting, fields 0 0 1 (task_a ∷ []) 0 []))
submitted-IsReached = Reachable.goes_on _ _ Reachable.begins (Step.submits _ _ task_a)

abbrev worked : Place × Shared
worked = (Place.final_count, fields 1 0 1 [] 0 (task_a ∷ []))

worked-IsReached : Reachable 1 (solo worked)
unfolding turn
worked-IsReached = turns-IsReached 10 _ submitted-IsReached

abbrev left : Place × Shared
left = (Place.gone, fields 0 0 0 [] 1 (task_a ∷ []))

left-IsReached : Reachable 1 (solo left)
unfolding turn
left-IsReached =
    turns-IsReached 3 (Place.final_count, fields 1 0 0 [] 0 (task_a ∷ []))
      (Reachable.goes_on _ _ worked-IsReached (Step.stops _ _ refl))

Reachable-IsConsistent_example : IsConsistent (solo worked)
Reachable-IsConsistent_example =
    Reachable-IsConsistent 1 (solo worked) (omega arith) worked-IsReached

Reachable-stays_example : count is_leaving (solo worked).places ≡ 0
Reachable-stays_example = Reachable-stays 1 (solo worked) worked-IsReached refl

abbrev stopped : Place × Shared
stopped = (Place.final_count, fields 1 0 0 [] 0 (task_a ∷ []))

stopped-IsReached : Reachable 1 (solo stopped)
stopped-IsReached = Reachable.goes_on _ _ worked-IsReached (Step.stops _ _ refl)

three_more : Run (solo stopped) 3 (solo left)
unfolding turn
three_more =
    Run.works 2 _ _ [] Place.sub_alive _ []
      (Run.works 1 _ _ [] Place.loop_test _ []
        (Run.works 0 _ _ [] Place.final_count _ [] Run.nothing refl) refl)
      refl

stopped-gone_example :
    (3 ≤ 8 * 1) × (((solo left).places ≡ replicate 1 Place.gone) ⊎ CanMove (solo left))
stopped-gone_example =
    stopped-gone 1 (solo stopped) (solo left) 3 (omega arith) stopped-IsReached refl three_more
