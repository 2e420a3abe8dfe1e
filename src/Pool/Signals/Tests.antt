-- ===== src/Pool/Signals/Tests.antt =====
-- A signal that no worker waits for yet: the task stays in the queue, the worker in `cnd_wait` and
-- the owner of the pool in `thpool_wait`, and no signal is due.
use net_math.Base.{ℕ, ◌≡◌, refl, true, false, [], ◌∷◌}
use net_math.Pool.Workers.{Place, Shared, initial}
use net_math.Pool.Workers.Tests.{task_a}
use net_math.Pool.Waiting.{WaitPlace}
use net_math.Pool.Lifetime.{Stage, owner_turn}
use net_math.Pool.Signals.{is_asleep, Signals, at, SignalStep, SignalReachable}
use net_math.Pool.Signals.Stuck.{IsStuck}

abbrev solo_at : Place → Shared → Stage → ℕ → Signals
solo_at p s stage due = at s (p ∷ []) stage due

module _ (stage : Stage) (due : ℕ) (p : Place) (s : Shared) where
  owner :
      is_asleep stage ≡ false
      → SignalReachable 1 (solo_at p s stage due)
      → SignalReachable 1 (solo_at p (owner_turn 1 stage s).1 (owner_turn 1 stage s).0 due)
  owner e r = SignalReachable.goes_on _ _ r (SignalStep.owns s (p ∷ []) stage due e)

abbrev alive : Shared
alive = record (initial 1).shared { workers_alive = 1 }

abbrev alive_locked : Shared
alive_locked = record alive { locked = true }

abbrev queued_locked : Shared
queued_locked = record alive_locked { queue = task_a ∷ []; submitted = task_a ∷ [] }

abbrev queued : Shared
queued = record queued_locked { locked = false }

abbrev stranded : Signals
stranded = solo_at Place.waiting queued (Stage.in_wait WaitPlace.sleeping) 0

-- The second case holds there, with the task in the queue.
stranded-IsStuck : IsStuck 1 stranded
stranded-IsStuck = record {
  owner = refl;
  workers = refl;
  none_due = refl;
  unlocked = refl;
  idle = refl;
  finished = λ t. refl;
}
