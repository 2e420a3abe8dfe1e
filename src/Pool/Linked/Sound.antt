-- ===== src/Pool/Linked/Sound.antt =====
-- What every state of the workers on the linked list satisfies.
use net_math.Base.{ℕ, ◌+◌, ◌<◌, ◌≤◌, ◌≡◌, refl, ap, none, List, [], ◌∷◌, ◌++◌, arith}
use net_math.Pool.{Memory}
use net_math.Pool.Chain.{Entry, IsAway}
use net_math.Pool.Fifo.{IsQueue}
use net_math.Pool.Trace.{tasks_of}
use net_math.Pool.Workers.{Place, Shared, Pool, Reachable}
use net_math.Pool.Workers.Counts.{one, count, count-append}
use net_math.Pool.Linked.{Spot, Linked, LinkedPool}
use net_math.Pool.Linked.Fits.{place_of, holds_job, IsHeld, Fits}

abbrev pub places_of : Memory → List Spot → List Place
places_of memory [] = []
places_of memory (x ∷ xs) = place_of memory x ∷ places_of memory xs

-- The state of Pool.Workers that a state stands for: a worker that holds a job runs its task.
abbrev pub as_pool : LinkedPool → Pool
as_pool lp = record {
  shared = lp.linked.shared;
  places = places_of lp.linked.work_queue.memory lp.spots;
}

pub places_of-append :
    (memory : Memory) (before : List Spot) (x : Spot) (after : List Spot)
    → places_of memory (before ++ x ∷ after)
      ≡ places_of memory before ++ place_of memory x ∷ places_of memory after
places_of-append memory [] x after = refl
places_of-append memory (y ∷ before) x after =
    ap (λ (l : List Place). place_of memory y ∷ l) (places_of-append memory before x after)

-- Only the blocks of the jobs that are held matter.
pub place_of-same :
    (m m' : Memory) (x : Spot)
    → ((a : ℕ) → 0 < one (holds_job a x) → m' a ≡ m a)
    → place_of m' x ≡ place_of m x
place_of-same m m' (Spot.at p) h = refl
place_of-same m m' (Spot.holding job) h = rw (h job (ground arith)) refl

pub places_of-same :
    (m m' : Memory) (xs : List Spot)
    → ((a : ℕ) → 0 < count (holds_job a) xs → m' a ≡ m a)
    → places_of m' xs ≡ places_of m xs
places_of-same m m' [] h = refl
places_of-same m m' (x ∷ xs) h = λ i.
    place_of-same m m' x (λ a lt. h a (omega (arith, lt))) i
    ∷ places_of-same m m' xs (λ a lt. h a (omega (arith, lt))) i

pub record IsSound (lp : LinkedPool) (es : List Entry) : Type 0 where
  pub queue : IsQueue lp.linked.work_queue es
  pub tasks : lp.linked.shared.queue ≡ tasks_of es
  pub distinct : (a : ℕ) → count (holds_job a) lp.spots ≤ 1
  pub held : (a : ℕ) → 0 < count (holds_job a) lp.spots → IsHeld a lp.linked.work_queue.memory es
  pub owned :
      (a : ℕ)
      → IsAway a es
      → count (holds_job a) lp.spots ≡ 0
      → lp.linked.work_queue.memory a ≡ none

-- The other workers' pointers, and one worker.
module _ (l : Linked) (before : List Spot) (x : Spot) (after : List Spot) (es : List Entry) where
  abbrev pub others : ℕ → ℕ
  others a = count (holds_job a) before + count (holds_job a) after

  pub IsSound-Fits :
      IsSound (record { linked = l; spots = before ++ x ∷ after }) es → Fits others x l es
  IsSound-Fits h = record {
    queue = h.queue;
    tasks = h.tasks;
    distinct = λ a. omega (arith, h.distinct a, count-append (holds_job a) before x after);
    held = λ a lt. h.held a (omega (arith, lt, count-append (holds_job a) before x after));
    owned =
        λ a away e. h.owned a away (omega (arith, e, count-append (holds_job a) before x after));
  }

  pub Fits-IsSound :
      Fits others x l es → IsSound (record { linked = l; spots = before ++ x ∷ after }) es
  Fits-IsSound h = record {
    queue = h.queue;
    tasks = h.tasks;
    distinct = λ a. omega (arith, h.distinct a, count-append (holds_job a) before x after);
    held = λ a lt. h.held a (omega (arith, lt, count-append (holds_job a) before x after));
    owned =
        λ a away e. h.owned a away (omega (arith, e, count-append (holds_job a) before x after));
  }

-- What an invariant gives of a state: it stands for a reachable state of Pool.Workers.
unfoldable pub IsRefined : ℕ → LinkedPool → Type 0
IsRefined n lp = ((es : List Entry) × IsSound lp es) × Reachable n (as_pool lp)

pub with_places :
    (n : ℕ) (s : Shared) {ps qs : List Place}
    → ps ≡ qs
    → Reachable n (record { shared = s; places = ps })
    → Reachable n (record { shared = s; places = qs })
with_places n s e r = rw e at r
