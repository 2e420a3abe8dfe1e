-- ===== src/Service/Balance.antt =====
-- Where the tasks of src/thread_pool/thread_pool.c are, measured by any weight of a task.
use net_math.Base.{
  ℕ, zero, suc, ◌+◌, ◌≡◌, refl, ap, Option, none, some, List, [], ◌∷◌, ◌++◌, replicate, arith,
}
use net_math.Pool.{Task}
use net_math.Pool.Workers.{
  Place, Shared, turn, signal_if_empty, dequeue_place, dequeue_shared, count_place,
}

-- The tasks that are finished after an access.
abbrev pub with_run : Place → List Task → List Task
with_run (Place.run_function task) tasks = tasks ++ task ∷ []
with_run p tasks = tasks

module _ (f : Task → ℕ) where
  abbrev pub total : List Task → ℕ
  total [] = 0
  total (t ∷ ts) = f t + total ts

  pub total-append : (ts us : List Task) → total (ts ++ us) ≡ total ts + total us
  total-append [] us = omega arith
  total-append (t ∷ ts) us = omega (arith, total-append ts us)

  -- The task that a worker is about to run.
  abbrev pub in_hand : Place → ℕ
  in_hand (Place.run_function task) = f task
  in_hand p = 0

  abbrev pub held : List Place → ℕ
  held [] = 0
  held (p ∷ ps) = in_hand p + held ps

  pub held-append :
      (before : List Place) (p : Place) (after : List Place)
      → held (before ++ p ∷ after) ≡ held before + held after + in_hand p
  held-append [] p after = omega arith
  held-append (q ∷ before) p after = omega (arith, held-append before p after)

  pub held-replicate : (p : Place) (n : ℕ) → in_hand p ≡ 0 → held (replicate n p) ≡ 0
  held-replicate p zero e = refl
  held-replicate p (suc n) e = omega (arith, e, held-replicate p n e)

  pub total-with_run : (p : Place) (ts : List Task) → total (with_run p ts) ≡ total ts + in_hand p
  total-with_run (Place.run_function task) ts = omega (arith, total-append ts (task ∷ []))
  total-with_run p ts = ground arith

  -- A worker takes its task from the queue, and the task that it runs becomes finished.
  abbrev pub Balanced : Place → Shared → Place → Shared → Type 0
  Balanced p s p' s' =
      (total s'.queue + in_hand p' ≡ total s.queue)
      × (s'.finished ≡ with_run p s.finished)
      × (s'.submitted ≡ s.submitted)

  unfoldable pub BalancedAfter : Place → Shared → Option (Place × Shared) → Type 0
  BalancedAfter p s none = Unit {0}
  BalancedAfter p s (some (p', s')) = Balanced p s p' s'

  signal-Balanced :
      (tasks : List Task) (s : Shared)
      → ((signal_if_empty tasks s).queue ≡ s.queue)
        × ((signal_if_empty tasks s).finished ≡ s.finished)
        × ((signal_if_empty tasks s).submitted ≡ s.submitted)
  signal-Balanced [] s = (refl, refl, refl)
  signal-Balanced (task ∷ tasks) s = (refl, refl, refl)

  dequeue-Balanced :
      (tasks : List Task) (s : Shared)
      → tasks ≡ s.queue
      → Balanced Place.dequeue s (dequeue_place tasks) (dequeue_shared tasks s)
  dequeue-Balanced [] s e = (omega arith, refl, refl)
  dequeue-Balanced (task ∷ tasks) s e = (omega (arith, ap total e), refl, refl)

  count-Balanced :
      (tasks : List Task) (s : Shared) → Balanced Place.count_test s (count_place tasks) s
  count-Balanced [] s = (omega arith, refl, refl)
  count-Balanced (task ∷ tasks) s = (omega arith, refl, refl)

  pub turn-BalancedAfter : (p : Place) (s : Shared) → BalancedAfter p s (turn p s)
  unfolding turn BalancedAfter
  turn-BalancedAfter Place.last_count s =
      let (queue, finished, submitted) = signal-Balanced s.queue s in
      (omega (arith, ap total queue), finished, submitted)
  turn-BalancedAfter Place.final_count s =
      let (queue, finished, submitted) = signal-Balanced s.queue s in
      (omega (arith, ap total queue), finished, submitted)
  turn-BalancedAfter Place.dequeue s = dequeue-Balanced s.queue s refl
  turn-BalancedAfter Place.count_test s = count-Balanced s.queue s
  turn-BalancedAfter p s = ground arith
