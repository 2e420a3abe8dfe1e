-- ===== src/Pool/Signals/Refines.antt =====
-- The states with exact wake-ups are among those in which a thread may wake at any time.
use mathlib.Core.List.{append_assoc}
use net_math.Base.{ℕ, ◌≡◌, refl, Bool, true, false, List, [], ◌∷◌, ◌++◌, ◌==◌, if◌then◌else◌}
use net_math.Pool.Workers.{Place, Shared, turn}
use net_math.Pool.Waiting.{WaitPlace, wait_turn}
use net_math.Pool.Lifetime.{Stage, owner_turn, LifeStep, LifeReachable}
use net_math.Pool.Signals.{Wakes, wake, wake_all, woken, Signals, SignalStep, SignalReachable}

module _ (n : ℕ) (s : Shared) (stage : Stage) where
  abbrev Lives : List Place → Type 0
  Lives places =
      LifeReachable n (record { pool = record { shared = s; places = places }; stage = stage })

  Wakes-Lives : (places places' : List Place) → Wakes places places' → Lives places → Lives places'
  unfolding turn
  Wakes-Lives _ _ (Wakes.nobody ps e) r = r
  Wakes-Lives _ _ (Wakes.some_worker before after) r =
      LifeReachable.goes_on _ _ r
        (LifeStep.works s s before Place.waiting Place.lock_again after stage refl)

  wake-Lives :
      (before : List Place) (p : Place) (after : List Place)
      → Lives (before ++ p ∷ after)
      → Lives (before ++ wake p ∷ after)
  wake-Lives before Place.waiting after r = Wakes-Lives _ _ (Wakes.some_worker before after) r
  wake-Lives before p after r = r

  wake_all-Lives : (before ps : List Place) → Lives (before ++ ps) → Lives (before ++ wake_all ps)
  unfolding wake_all
  wake_all-Lives before [] r = r
  wake_all-Lives before (p ∷ ps) r =
      let shift : (l : List Place) → (before ++ wake p ∷ []) ++ l ≡ before ++ wake p ∷ l =
        append_assoc before (wake p ∷ []) in
      let here : Lives ((before ++ wake p ∷ []) ++ ps) = rw (shift ps) (wake-Lives before p ps r) in
      rw (shift (wake_all ps)) at (wake_all-Lives (before ++ wake p ∷ []) ps here)

woken-Lives :
    (n : ℕ) (s : Shared) (places : List Place) (stage : Stage) (k k' : ℕ)
    → Lives n s stage places
    → Lives n s (woken k k' stage) places
unfolding owner_turn wait_turn
woken-Lives n s places (Stage.in_wait WaitPlace.sleeping) k k' r = wakes (k == k')
  where
    wakes :
        (same : Bool)
        → Lives n s
            (if same
              then Stage.in_wait WaitPlace.sleeping
              else Stage.in_wait WaitPlace.load_working)
            places
    wakes true = r
    wakes false =
        LifeReachable.goes_on _ _ r (LifeStep.owns s places (Stage.in_wait WaitPlace.sleeping))
woken-Lives n s places stage k k' r = r

SignalStep-Lives :
    (n : ℕ) (a b : Signals) → SignalStep n a b → LifeReachable n a.life → LifeReachable n b.life
SignalStep-Lives n _ _ (SignalStep.works s s' before p p' after stage due e move) r =
    woken-Lives n s' (before ++ p' ∷ after) stage s.wait_signals s'.wait_signals
      (LifeReachable.goes_on _ _ r (LifeStep.works s s' before p p' after stage move))
SignalStep-Lives n _ _ (SignalStep.accepts s places task due) r =
    LifeReachable.goes_on _ _ r (LifeStep.accepts s places task)
SignalStep-Lives n _ _ (SignalStep.signals s places places' stage due wakes) r =
    Wakes-Lives n s stage places places' wakes r
SignalStep-Lives n _ _ (SignalStep.owns s places stage due e) r =
    LifeReachable.goes_on _ _ r (LifeStep.owns s places stage)
SignalStep-Lives n _ _ (SignalStep.broadcasts s places due) r =
    wake_all-Lives n s Stage.alive_loop [] places r

-- Every state that the workers and the thread that owns the pool reach, when a thread comes back
-- from `cnd_wait` only if it is woken, is one that they reach when it may come back at any time, so
-- that what is shown of those states holds of the program with its signals.
pub SignalReachable-refines :
    (thread_count : ℕ) (x : Signals)
    → SignalReachable thread_count x
    → LifeReachable thread_count x.life
SignalReachable-refines n _ SignalReachable.begins = LifeReachable.begins
SignalReachable-refines n _ (SignalReachable.goes_on a b r step) =
    SignalStep-Lives n a b step (SignalReachable-refines n a r)
