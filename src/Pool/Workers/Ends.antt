-- ===== src/Pool/Workers/Ends.antt =====
-- The workers of src/thread_pool/thread_pool.c after the first access of `thpool_destroy`.
use net_math.Base.{
  ℕ, zero, suc, ◌+◌, ◌*◌, ◌<◌, ◌≤◌, ◌≡◌, refl, ap, ◌∙◌, Option, none, some, List, [], ◌∷◌, ◌++◌,
  length, replicate, ◌⊎◌, inl, inr, arith,
}
use net_math.Pool.{Task}
use net_math.Pool.Workers.{Place, Shared, turn, Pool, Step, Reachable, dequeue_place, count_place}
use net_math.Pool.Workers.Invariant.{Reachable-length}
use net_math.Pool.Workers.Counts.{count}
use net_math.Pool.Workers.Progress.{is_awake, Reachable-moves}
use net_math.Pool.Workers.Stays.{StaysAfter, turn-StaysAfter}

-- How many accesses a worker has left once the pool is stopped.
abbrev left : Place → ℕ
left Place.gone = 0
left Place.sub_alive = 1
left Place.last_count = 2
left Place.loop_test = 2
left Place.starting = 3
left Place.active_again = 3
left Place.final_count = 3
left Place.unlock_run = 4
left Place.sub_working = 4
left Place.active_test = 5
left (Place.run_function task) = 5
left Place.count_test = 6
left Place.dequeue = 6
left Place.lock_run = 7
left Place.lock_again = 7
left Place.add_working = 7
left Place.waiting = 8

LessLeft : Place → Option (Place × Shared) → Type 0
LessLeft p none = Unit {0}
LessLeft p (some (p', s')) = left p' < left p

count-LessLeft : (tasks : List Task) → left (count_place tasks) < 6
count-LessLeft [] = omega arith
count-LessLeft (task ∷ tasks) = omega arith

dequeue-LessLeft : (tasks : List Task) → left (dequeue_place tasks) < 6
dequeue-LessLeft [] = omega arith
dequeue-LessLeft (task ∷ tasks) = omega arith

turn-LessLeft : (p : Place) (s : Shared) → s.thpool_active ≡ 0 → LessLeft p (turn p s)
unfolding turn LessLeft
turn-LessLeft Place.count_test s h = count-LessLeft s.queue
turn-LessLeft Place.dequeue s h = dequeue-LessLeft s.queue
turn-LessLeft p s h = ground arith

abbrev all_left : List Place → ℕ
all_left [] = 0
all_left (p ∷ ps) = left p + all_left ps

all_left-append :
    (before : List Place) (p : Place) (after : List Place)
    → all_left (before ++ p ∷ after) ≡ all_left before + all_left after + left p
all_left-append [] p after = omega arith
all_left-append (q ∷ before) p after = omega (arith, all_left-append before p after)

left-bound : (p : Place) → left p ≤ 8
left-bound p = ground arith

all_left-bound : (ps : List Place) → all_left ps ≤ 8 * length ps
all_left-bound [] = omega arith
all_left-bound (p ∷ ps) = ground (arith, left-bound p, all_left-bound ps)

-- The steps that follow a state, with the number of accesses that workers make in them.
pub data Run (a : Pool) : ℕ → Pool → Type 0 where
  nothing : Run a 0 a
  works :
      (n : ℕ) (s s' : Shared) (before : List Place) (p p' : Place) (after : List Place)
      → Run a n (record { shared = s; places = before ++ p ∷ after })
      → turn p s ≡ some (p', s')
      → Run a (suc n) (record { shared = s'; places = before ++ p' ∷ after })
  submits :
      (n : ℕ) (s : Shared) (places : List Place) (task : Task)
      → Run a n (record { shared = s; places = places })
      → Run a n (record {
        shared = record s { queue = s.queue ++ task ∷ []; submitted = s.submitted ++ task ∷ [] };
        places = places;
      })

record IsStopping (n : ℕ) (a : Pool) (k : ℕ) (b : Pool) : Type 0 where
  reached : Reachable n b
  stopped : b.shared.thpool_active ≡ 0
  less : k + all_left b.places ≤ all_left a.places

Run-IsStopping :
    (n : ℕ) (a : Pool) (k : ℕ) (b : Pool)
    → Reachable n a
    → a.shared.thpool_active ≡ 0
    → Run a k b
    → IsStopping n a k b
unfolding LessLeft StaysAfter
Run-IsStopping n a _ _ r e Run.nothing = record { reached = r; stopped = e; less = omega arith }
Run-IsStopping n a _ _ r e (Run.works k s s' before p p' after run move) =
    let was = Run-IsStopping n a k _ r e run in
    let less : LessLeft p (some (p', s')) = rw move at (turn-LessLeft p s was.stopped) in
    let stays : StaysAfter p s (some (p', s')) = rw move at (turn-StaysAfter p s) in
    record {
      reached = Reachable.goes_on _ _ was.reached (Step.works s s' before p p' after move);
      stopped = stays.0 ∙ was.stopped;
      less =
          omega (
            arith,
            was.less,
            less,
            all_left-append before p after,
            all_left-append before p' after,
          );
    }
Run-IsStopping n a _ _ r e (Run.submits k s places task run) =
    let was = Run-IsStopping n a k _ r e run in
    record {
      reached = Reachable.goes_on _ _ was.reached (Step.submits s places task);
      stopped = was.stopped;
      less = was.less;
    }

-- Some worker can make its next access.
abbrev pub CanMove : Pool → Type 0
CanMove pool =
    (before : List Place) × (p : Place) × (after : List Place) × (p' : Place) × (s' : Shared)
    × (pool.places ≡ before ++ p ∷ after)
    × (turn p pool.shared ≡ some (p', s'))

abbrev HasWaiting : List Place → Type 0
HasWaiting ps =
    (before : List Place) × (after : List Place) × (ps ≡ before ++ Place.waiting ∷ after)

asleep :
    (ps : List Place)
    → count is_awake ps ≡ 0
    → (ps ≡ replicate (length ps) Place.gone) ⊎ HasWaiting ps
asleep [] h = inl refl
asleep (Place.waiting ∷ ps) h = inr ([], ps, refl)
asleep (Place.gone ∷ ps) h = elim (asleep ps (omega arith)) [
  | inl gone ↦ inl (ap (λ (l : List Place). Place.gone ∷ l) gone)
  | inr (before, after, e) ↦
      inr (Place.gone ∷ before, after, ap (λ (l : List Place). Place.gone ∷ l) e)
]
asleep (p ∷ ps) h = absurd (omega arith)

waiting-CanMove : (pool : Pool) → HasWaiting pool.places → CanMove pool
unfolding turn
waiting-CanMove pool (before, after, e) =
    (before, Place.waiting, after, Place.lock_again, pool.shared, e, refl)

zero-cases : (n : ℕ) → (n ≡ 0) ⊎ (0 < n)
zero-cases zero = inl refl
zero-cases (suc n) = inr (omega arith)

gone_or_CanMove :
    (n : ℕ) (pool : Pool)
    → n ≤ 255
    → Reachable n pool
    → (pool.places ≡ replicate n Place.gone) ⊎ CanMove pool
gone_or_CanMove n pool h r = elim (zero-cases (count is_awake pool.places)) [
  | inl none_awake ↦ elim (asleep pool.places none_awake) [
    | inl gone ↦ inl (gone ∙ ap (λ (k : ℕ). replicate k Place.gone) (Reachable-length n pool r))
    | inr some_waiting ↦ inr (waiting-CanMove pool some_waiting)
  ]
  | inr some_awake ↦
      let (before, p, after, p', s', e, move, awake) = Reachable-moves n pool h r some_awake in
      inr (before, p, after, p', s', e, move)
]

-- Once a pool of at most 255 threads is stopped, its workers make at most 8 more accesses for each
-- thread, in any order and whatever clients submit. In every state on the way either all of them
-- have left `thread_pool`, or one can make its next access, or comes back from `cnd_wait`.
pub stopped-gone :
    (thread_count : ℕ) (a b : Pool) (accesses : ℕ)
    → thread_count ≤ 255
    → Reachable thread_count a
    → a.shared.thpool_active ≡ 0
    → Run a accesses b
    → (accesses ≤ 8 * thread_count) × ((b.places ≡ replicate thread_count Place.gone) ⊎ CanMove b)
stopped-gone n a b k h r stopped run =
    let end = Run-IsStopping n a k b r stopped run in
    (
      omega (arith, end.less, all_left-bound a.places, Reachable-length n a r),
      gone_or_CanMove n b h end.reached,
    )
