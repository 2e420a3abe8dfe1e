-- ===== src/Pool/Waiting/Laws.antt =====
-- What `thpool_wait` and then `thpool_destroy` of src/thread_pool/thread_pool.c promise.
use net_math.Base.{
  ℕ, ◌≤◌, ◌≡◌, refl, ap, sym, ◌∙◌, Bool, true, false, Option, none, some, List, [], ◌∷◌, ◌++◌,
  arith,
}
use mathlib.Core.List.{append_assoc}
use net_math.Pool.{Task}
use net_math.Pool.Workers.{
  Place, Shared, turn, Pool, Step, Reachable, dequeue_shared, signal_if_empty,
}
use net_math.Pool.Workers.Counts.{count, occurs, occurs-append}
use net_math.Pool.Workers.Invariant.{Reachable-IsConsistent}
use net_math.Pool.Workers.Quiet.{is_starting, destroyed-all_gone}
use net_math.Pool.Waiting.{
  WaitPlace, wait_turn, count_found, Waiting, seen_at, WaitStep, WaitReachable,
}

-- The tasks that were taken are only added to.
abbrev Extends : List Task → List Task → Type 0
Extends old new = (more : List Task) × (new ≡ old ++ more)

append_nil : (l : List Task) → l ≡ l ++ []
append_nil [] = refl
append_nil (x ∷ xs) = ap (λ (t : List Task). x ∷ t) (append_nil xs)

abbrev Took : Shared → Option (Place × Shared) → Type 0
Took s none = Unit {0}
Took s (some (p', s')) = Extends s.taken s'.taken

abbrev Kept : Shared → Option (Place × Shared) → Type 0
Kept s none = Unit {0}
Kept s (some (p', s')) = s'.taken ≡ s.taken

abbrev takes : Place → Bool
takes Place.dequeue = true
takes p = false

signal-taken : (tasks : List Task) (s : Shared) → (signal_if_empty tasks s).taken ≡ s.taken
signal-taken [] s = refl
signal-taken (task ∷ tasks) s = refl

turn-Kept : (p : Place) (s : Shared) → takes p ≡ false → Kept s (turn p s)
unfolding turn
turn-Kept Place.last_count s h = signal-taken s.queue s
turn-Kept Place.final_count s h = signal-taken s.queue s
turn-Kept p s h = ground arith

dequeue-Extends : (tasks : List Task) (s : Shared) → Extends s.taken (dequeue_shared tasks s).taken
dequeue-Extends [] s = ([], append_nil s.taken)
dequeue-Extends (task ∷ tasks) s = (task ∷ [], refl)

Kept-Took : (s : Shared) (r : Option (Place × Shared)) → Kept s r → Took s r
Kept-Took s none h = tt
Kept-Took s (some (p', s')) h = ([], h ∙ append_nil s.taken)

turn-Took : (p : Place) (s : Shared) → Took s (turn p s)
unfolding turn
turn-Took Place.dequeue s = dequeue-Extends s.queue s
turn-Took p s = Kept-Took s (turn p s) (turn-Kept p s refl)

Step-Extends : (a b : Pool) → Step a b → Extends a.shared.taken b.shared.taken
Step-Extends _ _ (Step.works s s' before p p' after e) =
    let took : Took s (some (p', s')) = rw e at (turn-Took p s) in took
Step-Extends _ _ (Step.submits s places task) = ([], append_nil s.taken)
Step-Extends _ _ (Step.stops s places e) = ([], append_nil s.taken)

Extends-trans : (x y z : List Task) → Extends x y → Extends y z → Extends x z
Extends-trans x y z (more, e) (rest, e') =
    (more ++ rest, e' ∙ ap (λ (l : List Task). l ++ rest) e ∙ append_assoc x more rest)

-- The test of the loop was passed.
abbrev pub is_settled : WaitPlace → Bool
is_settled WaitPlace.wait_unlock = true
is_settled WaitPlace.returned = true
is_settled p = false

record IsWaited (n : ℕ) (w : Waiting) : Type 0 where
  reached : Reachable n w.pool
  taken : is_settled w.place ≡ true → Extends w.seen w.pool.shared.taken

count_found-Extends :
    (queue : List Task) (s : Shared)
    → s.submitted ≡ s.taken ++ queue
    → is_settled (count_found queue) ≡ true
    → Extends s.submitted s.taken
count_found-Extends [] s jobs h = ([], append_nil s.taken ∙ sym jobs ∙ append_nil s.submitted)
count_found-Extends (task ∷ tasks) s jobs h = absurd (ground arith)

wait_turn-Extends :
    (place : WaitPlace) (seen : List Task) (s : Shared)
    → s.submitted ≡ s.taken ++ s.queue
    → (is_settled place ≡ true → Extends seen s.taken)
    → is_settled (wait_turn place s) ≡ true
    → Extends (seen_at place s seen) s.taken
unfolding wait_turn
wait_turn-Extends WaitPlace.load_count seen s jobs taken h = count_found-Extends s.queue s jobs h
wait_turn-Extends WaitPlace.wait_unlock seen s jobs taken h = taken refl
wait_turn-Extends WaitPlace.returned seen s jobs taken h = taken refl
wait_turn-Extends place seen s jobs taken h = absurd (ground arith)

WaitReachable-IsWaited : (n : ℕ) (w : Waiting) → n ≤ 255 → WaitReachable n w → IsWaited n w
WaitReachable-IsWaited n _ h WaitReachable.begins = record {
  reached = Reachable.begins;
  taken = λ e. absurd (ground arith);
}
WaitReachable-IsWaited n _ h (WaitReachable.goes_on a b r step) =
    waited step (WaitReachable-IsWaited n a h r)
  where
    waited : {a b : Waiting} → WaitStep a b → IsWaited n a → IsWaited n b
    waited (WaitStep.others x y place seen step) w = record {
      reached = Reachable.goes_on x y w.reached step;
      taken = λ e. Extends-trans _ _ _ (w.taken e) (Step-Extends x y step);
    }
    waited (WaitStep.waits pool place seen) w = record {
      reached = w.reached;
      taken =
          wait_turn-Extends place seen pool.shared (Reachable-IsConsistent n pool h w.reached).jobs
            w.taken;
    }

-- Beside a pool of at most 255 threads, a thread has passed the test of `thpool_wait`, whose two
-- loads are apart, and later, after every worker has started, `workers_alive` is 0. Then each task
-- that was submitted before the last load of the test was run to its end as often as submitted,
-- also a task that a worker was still running when `thpool_wait` returned.
pub waited-finished :
    (thread_count : ℕ) (w : Waiting)
    → thread_count ≤ 255
    → WaitReachable thread_count w
    → is_settled w.place ≡ true
    → count is_starting w.pool.places ≡ 0
    → w.pool.shared.workers_alive ≡ 0
    → (t : Task) → occurs t w.seen ≤ occurs t w.pool.shared.finished
waited-finished n w h r settled started none_alive t =
    let waited = WaitReachable-IsWaited n w h r in
    let (more, e) = waited.taken settled in
    let (gone, finished) = destroyed-all_gone n w.pool h waited.reached started none_alive in
    omega (arith, finished t, ap (occurs t) e, occurs-append t w.seen more)
