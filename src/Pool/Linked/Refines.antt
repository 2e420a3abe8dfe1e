-- ===== src/Pool/Linked/Refines.antt =====
-- The workers on the linked list do what Pool.Workers says.
use net_math.Base.{
  ℕ, zero, suc, ◌-◌, ◌<◌, ◌^◌, ◌≡◌, ◌≢◌, refl, ap, sym, ◌∙◌, some, List, [], ◌∷◌, ◌++◌, replicate,
  arith,
}
use net_math.Pool.{Memory, ThpoolStatus, WorkQueue, Task, thpool_enqueue_job}
use net_math.Pool.Chain.{Entry, IsAway-append, IsAway-append_parts}
use net_math.Pool.Fifo.{entry}
use net_math.Pool.Trace.{IsMalloc, tasks_of-append}
use net_math.Pool.Setup.{empty_queue}
use net_math.Pool.Workers.{Place, down8, initial, Step, Reachable}
use net_math.Pool.Workers.Counts.{count}
use net_math.Pool.Workers.Invariant.{count-replicate}
use net_math.Pool.Linked.{
  Spot, Linked, Turn, linked_turn, LinkedPool, linked_initial, LinkedStep, LinkedReachable,
}
use net_math.Pool.Linked.Fits.{place_of, holds_job, AfterTurn}
use net_math.Pool.Linked.Turns.{linked_turn-AfterTurn}
use net_math.Pool.Linked.Sound.{
  places_of, as_pool, places_of-append, places_of-same, IsSound, others, IsSound-Fits, Fits-IsSound,
  IsRefined, with_places,
}
use net_math.Pool.Linked.Added.{held_ne_fresh, Added, enqueue-Added}

works-IsRefined :
    (n : ℕ) (l l' : Linked) (before : List Spot) (x x' : Spot) (after : List Spot)
    → linked_turn x l ≡ Turn.moves x' l'
    → IsRefined n (record { linked = l; spots = before ++ x ∷ after })
    → IsRefined n (record { linked = l'; spots = before ++ x' ∷ after })
unfolding IsRefined
works-IsRefined n l l' before x x' after e ((es, sound), r) =
    let m = l.work_queue.memory in
    let m' = l'.work_queue.memory in
    let law : AfterTurn (others l before x after es) x l (Turn.moves x' l') = rw e at (
      linked_turn-AfterTurn (others l before x after es) x l es
        (IsSound-Fits l before x after es sound)) in
    let ((es', fits), turns, cells) = law in
    let same_before : places_of m' before ≡ places_of m before =
      places_of-same m m' before (λ a lt. cells a (omega (arith, lt))) in
    let same_after : places_of m' after ≡ places_of m after =
      places_of-same m m' after (λ a lt. cells a (omega (arith, lt))) in
    (
      (es', Fits-IsSound l' before x' after es' fits),
      with_places n l'.shared
          (sym (
            places_of-append m' before x' after ∙ λ i.
            same_before i ++ place_of m' x' ∷ same_after i))
          (Reachable.goes_on _ _ (with_places n l.shared (places_of-append m before x after) r)
            (Step.works l.shared l'.shared (places_of m before) _ _ (places_of m after) turns)),
    )

submits-IsRefined :
    (malloc : Memory → ℕ) (n : ℕ) (l : Linked) (spots : List Spot) (task : Task) (queue : WorkQueue)
    → IsMalloc malloc
    → l.work_queue.job_count < 2 ^ 64 - 1
    → thpool_enqueue_job malloc task l.work_queue ≡ some (ThpoolStatus.thp_success, queue)
    → IsRefined n (record { linked = l; spots = spots })
    → IsRefined n (record {
      linked = record {
        shared = record l.shared {
          queue = l.shared.queue ++ task ∷ [];
          submitted = l.shared.submitted ++ task ∷ [];
        };
        work_queue = queue;
      };
      spots = spots;
    })
unfolding IsRefined Added
submits-IsRefined malloc n l spots task queue law room e ((es, sound), r) =
    let m = l.work_queue.memory in
    let (fresh, (queued, cells)) =
      enqueue-Added malloc task l.work_queue queue es law sound.queue room e in
    let other : (a : ℕ) → 0 < count (holds_job a) spots → a ≢ malloc m =
      λ a lt same. held_ne_fresh m a (malloc m) es (sound.held a lt) fresh same in
    let kept : (a : ℕ) → 0 < count (holds_job a) spots → queue.memory a ≡ m a =
      λ a lt. cells a (sound.held a lt).1 (other a lt) in
    (
      (
        es ++ entry (malloc m) task ∷ [],
        record {
          queue = queued;
          tasks =
              ap (λ (q : List Task). q ++ task ∷ []) sound.tasks
              ∙ sym (tasks_of-append es (entry (malloc m) task));
          distinct = sound.distinct;
          held = λ a lt.
              let (nonnull, away, work, here) = sound.held a lt in
              (nonnull, IsAway-append a es _ away (other a lt), work, kept a lt ∙ here);
          owned = λ a away e.
              let (old, apart) = IsAway-append_parts a es (entry (malloc m) task) away in
              cells a old apart ∙ sound.owned a old e;
        },
      ),
      with_places n _ (sym (places_of-same m queue.memory spots kept))
          (Reachable.goes_on _ _ r (Step.submits l.shared (places_of m spots) task)),
    )

stops-IsRefined :
    (n : ℕ) (l : Linked) (spots : List Spot)
    → l.shared.thpool_active ≡ 1
    → IsRefined n (record { linked = l; spots = spots })
    → IsRefined n (record {
      linked = record l {
        shared = record l.shared { thpool_active = down8 l.shared.thpool_active };
      };
      spots = spots;
    })
unfolding IsRefined
stops-IsRefined n l spots active ((es, sound), r) = (
  (
    es,
    record {
      queue = sound.queue;
      tasks = sound.tasks;
      distinct = sound.distinct;
      held = sound.held;
      owned = sound.owned;
    },
  ),
  Reachable.goes_on _ _ r (Step.stops l.shared (places_of l.work_queue.memory spots) active),
)

places_of-replicate :
    (m : Memory) (p : Place) (n : ℕ) → places_of m (replicate n (Spot.at p)) ≡ replicate n p
places_of-replicate m p zero = refl
places_of-replicate m p (suc n) = ap (λ (l : List Place). p ∷ l) (places_of-replicate m p n)

initial-IsRefined : (n : ℕ) → IsRefined n (linked_initial n)
unfolding IsRefined
initial-IsRefined n = (
  (
    [],
    record {
      queue = record { chain = refl; tail = refl; count = refl };
      tasks = refl;
      distinct = λ a. omega (arith, nobody a);
      held = λ a lt. absurd (omega (arith, lt, nobody a));
      owned = λ a away e. refl;
    },
  ),
  with_places n (initial n).shared (sym (places_of-replicate empty_queue.memory Place.starting n))
      Reachable.begins,
)
  where
    nobody : (a : ℕ) → count (holds_job a) (replicate n (Spot.at Place.starting)) ≡ 0
    nobody a = count-replicate (holds_job a) (Spot.at Place.starting) n refl

pub LinkedReachable-IsRefined :
    (malloc : Memory → ℕ) (n : ℕ) (lp : LinkedPool)
    → IsMalloc malloc
    → LinkedReachable malloc n lp
    → IsRefined n lp
LinkedReachable-IsRefined malloc n _ law LinkedReachable.begins = initial-IsRefined n
LinkedReachable-IsRefined malloc n _ law (LinkedReachable.goes_on a b r step) =
    refined step (LinkedReachable-IsRefined malloc n a law r)
  where
    refined : {a b : LinkedPool} → LinkedStep malloc a b → IsRefined n a → IsRefined n b
    refined (LinkedStep.works l l' before x x' after e) h =
        works-IsRefined n l l' before x x' after e h
    refined (LinkedStep.submits l spots task queue room e) h =
        submits-IsRefined malloc n l spots task queue law room e h
    refined (LinkedStep.stops l spots active) h = stops-IsRefined n l spots active h

respelled :
    (l : Linked) (es : List Entry) (xs ys : List Spot)
    → xs ≡ ys
    → IsSound (record { linked = l; spots = xs }) es
    → IsSound (record { linked = l; spots = ys }) es
respelled l es xs ys e h = rw e at h

no_fault : (f : ℕ → ℕ) (x : Spot) (l : Linked) (t : Turn) → t ≡ Turn.fault → AfterTurn f x l t → ⊥
no_fault f x l t e h = rw e at h

-- In every state that the pool reaches on the linked list, with any `malloc` that answers NULL or
-- an address not allocated, no worker is about to follow a NULL or dangling pointer, and the state
-- stands for one that the pool reaches on the list of tasks, so that what is shown of those
-- states holds of the program with its pointers.
pub LinkedReachable-refines :
    (malloc : Memory → ℕ) (thread_count : ℕ) (lp : LinkedPool)
    → IsMalloc malloc
    → LinkedReachable malloc thread_count lp
    → ((before : List Spot) (x : Spot) (after : List Spot)
        → lp.spots ≡ before ++ x ∷ after
        → linked_turn x lp.linked ≢ Turn.fault)
      × Reachable thread_count (as_pool lp)
unfolding IsRefined
LinkedReachable-refines malloc n lp law r =
    let ((es, sound), reached) = LinkedReachable-IsRefined malloc n lp law r in
    (
      λ before x after e faults.
          let here : IsSound (record { linked = lp.linked; spots = before ++ x ∷ after }) es =
            respelled lp.linked es lp.spots (before ++ x ∷ after) e sound in
          no_fault (others lp.linked before x after es) x lp.linked _ faults (
            linked_turn-AfterTurn (others lp.linked before x after es) x lp.linked es
              (IsSound-Fits lp.linked before x after es here)),
      reached,
    )
