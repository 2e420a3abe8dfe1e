-- ===== src/Pool/Signals/Stuck.antt =====
-- The states of src/thread_pool/thread_pool.c in which all threads wait for each other.
use net_math.Base.{ℕ, ◌≡◌, ◌⊎◌, true, false, replicate}
use net_math.Pool.{Task}
use net_math.Pool.Workers.{Place}
use net_math.Pool.Workers.Counts.{occurs}
use net_math.Pool.Signals.{is_asleep, Signals, SignalStep}

-- All workers wait for a job, the thread that owns the pool waits for them, and nobody is to wake
-- one of them.
pub record IsStuck (n : ℕ) (a : Signals) : Type 0 where
  pub owner : is_asleep a.life.stage ≡ true
  pub workers : a.life.pool.places ≡ replicate n Place.waiting
  pub none_due : a.due ≡ 0
  pub unlocked : a.life.pool.shared.locked ≡ false
  pub idle : a.life.pool.shared.workers_working ≡ 0
  pub finished :
      (t : Task) → occurs t a.life.pool.shared.finished ≡ occurs t a.life.pool.shared.taken

Settled : (n : ℕ) → Signals → Type 0
Settled n a =
    ((b : Signals) × SignalStep n a b) ⊎ (IsStuck n a × ((b : Signals) → ¬ SignalStep n a b))
