-- ===== src/Pool/Workers/Progress.antt =====
-- The workers of src/thread_pool/thread_pool.c and `run_mutex`.
use net_math.Base.{
  ℕ, ◌<◌, ◌≤◌, ◌≡◌, refl, ap, Bool, true, false, inl, inr, Bool-cases, Option-cases, Option, none,
  some, List, [], ◌∷◌, ◌++◌, arith,
}
use net_math.Pool.Workers.{Place, Shared, turn, Pool, Reachable}
use net_math.Pool.Workers.Counts.{is_locking, count}
use net_math.Pool.Workers.Invariant.{Reachable-IsConsistent}

-- Neither gone nor in `cnd_wait`.
abbrev pub is_awake : Place → Bool
is_awake Place.waiting = false
is_awake Place.gone = false
is_awake p = true

-- A worker of the kind that is counted.
Found : (Place → Bool) → List Place → Type 0
Found f places =
    (before : List Place) × (p : Place) × (after : List Place) × (places ≡ before ++ p ∷ after)
    × (f p ≡ true)

count-Found : (f : Place → Bool) (places : List Place) → 0 < count f places → Found f places
unfolding Found
count-Found f [] h = absurd (omega arith)
count-Found f (p ∷ places) h = elim (Bool-cases (f p)) [
  | inl yes_p ↦ ([], p, places, refl, yes_p)
  | inr no_p ↦
      let (before, q, after, e, yes_q) = count-Found f places (ground arith) in
      (p ∷ before, q, after, ap (λ (l : List Place). p ∷ l) e, yes_q)
]

abbrev is_some : Option (Place × Shared) → Bool
is_some none = false
is_some (some x) = true

-- The worker that holds the mutex, and any worker while it is free.
turn-locking : (p : Place) (s : Shared) → is_locking p ≡ true → is_some (turn p s) ≡ true
unfolding turn
turn-locking Place.count_test s h = refl
turn-locking Place.active_test s h = ground arith
turn-locking Place.unlock_run s h = refl
turn-locking p s h = absurd (ground arith)

turn-unlocked :
    (p : Place) (s : Shared) → s.locked ≡ false → is_awake p ≡ true → is_some (turn p s) ≡ true
unfolding turn
turn-unlocked Place.gone s unlocked h = absurd (ground arith)
turn-unlocked Place.waiting s unlocked h = absurd (ground arith)
turn-unlocked p s unlocked h = ground arith

locking-awake : (p : Place) → is_locking p ≡ true → is_awake p ≡ true
locking-awake p h = ground arith

abbrev Moves : Pool → Type 0
Moves pool =
    (before : List Place) × (p : Place) × (after : List Place) × (p' : Place) × (s' : Shared)
    × (pool.places ≡ before ++ p ∷ after)
    × (turn p pool.shared ≡ some (p', s'))
    × (is_awake p ≡ true)

found_move :
    (pool : Pool) (f : Place → Bool)
    → 0 < count f pool.places
    → ((p : Place) → f p ≡ true → is_some (turn p pool.shared) ≡ true)
    → ((p : Place) → f p ≡ true → is_awake p ≡ true)
    → Moves pool
unfolding Found
found_move pool f h can wakes =
    let (before, p, after, e, yes_p) = count-Found f pool.places h in
    elim (Option-cases (turn p pool.shared)) [
      | inl stuck ↦ absurd (ground (arith, can p yes_p, stuck))
      | inr (x, moves) ↦ (before, p, after, x.0, x.1, e, moves, wakes p yes_p)
    ]

-- In every state that a pool of at most 255 threads reaches, and in which some worker is neither
-- gone nor in `cnd_wait`, one of these workers can make its next access: they never deadlock on
-- `run_mutex`.
pub Reachable-moves :
    (thread_count : ℕ) (pool : Pool)
    → thread_count ≤ 255
    → Reachable thread_count pool
    → 0 < count is_awake pool.places
    → (before : List Place) × (p : Place) × (after : List Place) × (p' : Place) × (s' : Shared)
      × (pool.places ≡ before ++ p ∷ after)
      × (turn p pool.shared ≡ some (p', s'))
      × (is_awake p ≡ true)
Reachable-moves n pool h r some_left = elim (Bool-cases pool.shared.locked) [
  | inl held ↦
      found_move pool is_locking (ground (arith, (Reachable-IsConsistent n pool h r).lock))
        (λ p. turn-locking p pool.shared) locking-awake
  | inr unlocked ↦
      found_move pool is_awake some_left (λ p. turn-unlocked p pool.shared unlocked)
        (λ p awake. awake)
]
