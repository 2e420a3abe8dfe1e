-- ===== src/Pool/Workers/Stays.antt =====
-- When a worker of src/thread_pool/thread_pool.c leaves its loop.
use net_math.Base.{
  ℕ, ◌≤◌, ◌≡◌, refl, sym, ◌∙◌, Bool, true, false, Option, none, some, List, [], ◌∷◌, arith,
}
use net_math.Pool.{Task}
use net_math.Pool.Workers.{
  Place, Shared, turn, signal_if_empty, dequeue_place, dequeue_shared, count_place, Pool, Step,
  Reachable,
}
use net_math.Pool.Workers.Counts.{one, count, count-append}
use net_math.Pool.Workers.Invariant.{count-replicate}

abbrev pub is_leaving : Place → Bool
is_leaving Place.last_count = true
is_leaving Place.sub_alive = true
is_leaving Place.gone = true
is_leaving p = false

unfoldable pub StaysAfter : Place → Shared → Option (Place × Shared) → Type 0
StaysAfter p s none = Unit {0}
StaysAfter p s (some (p', s')) =
    (s'.thpool_active ≡ s.thpool_active)
    × (s.thpool_active ≡ 1 → one (is_leaving p') ≤ one (is_leaving p))

after_signal :
    (tasks : List Task) (s : Shared) → (signal_if_empty tasks s).thpool_active ≡ s.thpool_active
after_signal [] s = refl
after_signal (task ∷ tasks) s = refl

after_dequeue :
    (tasks : List Task) (s : Shared)
    → ((dequeue_shared tasks s).thpool_active ≡ s.thpool_active)
      × (is_leaving (dequeue_place tasks) ≡ false)
after_dequeue [] s = (refl, refl)
after_dequeue (task ∷ tasks) s = (refl, refl)

after_count : (tasks : List Task) → is_leaving (count_place tasks) ≡ false
after_count [] = refl
after_count (task ∷ tasks) = refl

pub turn-StaysAfter : (p : Place) (s : Shared) → StaysAfter p s (turn p s)
unfolding turn StaysAfter
turn-StaysAfter Place.last_count s = (after_signal s.queue s, λ h. omega arith)
turn-StaysAfter Place.final_count s = (after_signal s.queue s, λ h. omega arith)
turn-StaysAfter Place.dequeue s =
    let (same, stays) = after_dequeue s.queue s in (same, λ h. ground (arith, stays))
turn-StaysAfter Place.count_test s = (refl, λ h. ground (arith, after_count s.queue))
turn-StaysAfter p s = ground arith

IsServing : Pool → Type 0
IsServing pool = pool.shared.thpool_active ≡ 1 → count is_leaving pool.places ≡ 0

Step-IsServing : (a b : Pool) → Step a b → IsServing a → IsServing b
unfolding IsServing StaysAfter
Step-IsServing _ _ (Step.works s s' before p p' after e) h active =
    let law : StaysAfter p s (some (p', s')) = rw e at (turn-StaysAfter p s) in
    let was : s.thpool_active ≡ 1 = sym law.0 ∙ active in
    omega (
      arith,
      law.1 was,
      h was,
      count-append is_leaving before p after,
      count-append is_leaving before p' after,
    )
Step-IsServing _ _ (Step.submits s places task) h active = h active
Step-IsServing _ _ (Step.stops s places e) h active = absurd (ground (arith, e, active))

-- In every state that a pool of any size reaches, in which it was not stopped, no worker has left
-- its loop or is on its way out.
pub Reachable-stays :
    (thread_count : ℕ) (pool : Pool)
    → Reachable thread_count pool
    → pool.shared.thpool_active ≡ 1
    → count is_leaving pool.places ≡ 0
unfolding IsServing
Reachable-stays n _ Reachable.begins active = count-replicate is_leaving Place.starting n refl
Reachable-stays n _ (Reachable.goes_on a b r step) active =
    Step-IsServing a b step (Reachable-stays n a r) active
