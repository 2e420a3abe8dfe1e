-- ===== src/Pool/Linked/Turns.antt =====
-- One access of a worker on the linked list is one access on the list of tasks.
use net_math.Base.{
  ℕ, ◌+◌, ◌<◌, ◌≤◌, ◌≡◌, ◌≢◌, refl, ap, sym, ◌∙◌, true, false, Option, none, some, List, [], ◌∷◌,
  ◌==◌, if◌then◌else◌, arith, ℕ_discrete,
}
use net_math.Pool.{Job, Memory, load, Task, thpool_dequeue_job}
use net_math.Pool.Chain.{Entry, node, IsChain-store, store-same, store-other, load_nonnull}
use net_math.Pool.Fifo.{thpool_dequeue_job-cons, thpool_dequeue_job-nil}
use net_math.Pool.Trace.{tasks_of}
use net_math.Pool.Workers.{Place, Shared, turn, dequeue_shared, signal_if_empty, count_place}
use net_math.Pool.Workers.Counts.{one}
use net_math.Pool.Linked.{
  Spot, Linked, Turn, in_place, signal_if_zero, with_job, run_held, linked_turn,
}
use net_math.Pool.Linked.Fits.{held_place, Fits, AfterTurn, KeepsQueue, turn-KeepsQueue}

same_address : (a : ℕ) → one (a == a) ≡ 1
same_address a = ground arith

-- A pointer that another worker holds is another pointer.
another : (a job n : ℕ) → 0 < n → n + one (a == job) ≤ 1 → a ≢ job
another a job n lt le = λ e. ground (arith, e)

module _ (others : ℕ → ℕ) (l : Linked) (es : List Entry) where
  in_place-AfterTurn :
      (p : Place) (r : Option (Place × Shared))
      → Fits others (Spot.at p) l es
      → turn p l.shared ≡ r
      → KeepsQueue l.shared.queue r
      → AfterTurn others (Spot.at p) l (in_place l r)
  in_place-AfterTurn p none h e keeps = tt
  in_place-AfterTurn p (some (p', s')) h e keeps = (
    (
      es,
      record {
        queue = h.queue;
        tasks = keeps ∙ h.tasks;
        distinct = h.distinct;
        held = h.held;
        owned = h.owned;
      },
    ),
    e,
    λ a lt. refl,
  )

  -- The job that the worker holds is run and freed.
  run_held-AfterTurn :
      (job : ℕ)
      → Fits others (Spot.holding job) l es
      → AfterTurn others (Spot.holding job) l (run_held l job (load l.work_queue.memory job))
  unfolding turn
  run_held-AfterTurn job h =
      let (nonnull, away, work, here) = h.held job (ground (arith, same_address job)) in
      rw (load_nonnull l.work_queue.memory job work nonnull here, here)
        (
          (
            es,
            record {
              queue = record {
                chain =
                    IsChain-store l.work_queue.memory l.work_queue.job_head job none es away
                      h.queue.chain;
                tail = h.queue.tail;
                count = h.queue.count;
              };
              tasks = h.tasks;
              distinct = λ a. ground (arith, h.distinct a);
              held = λ a lt.
                  let apart = another a job (others a) (omega (arith, lt)) (h.distinct a) in
                  let (nonnull_a, away_a, work_a, here_a) = h.held a (omega (arith, lt)) in
                  (
                    nonnull_a,
                    away_a,
                    work_a,
                    store-other l.work_queue.memory job none a apart ∙ here_a,
                  );
              owned = λ a away_a e. elim (ℕ_discrete a job) [
                | yes same ↦ rw same (store-same l.work_queue.memory job none)
                | no apart ↦
                    store-other l.work_queue.memory job none a apart
                    ∙ h.owned a away_a (ground arith)
              ];
            },
          ),
          refl,
          λ a lt.
              store-other l.work_queue.memory job none a
                (another a job (others a) lt (h.distinct a)),
        )

ne_test : (a : ℕ) → a ≢ 0 → (a == 0) ≡ false
ne_test a h = ground arith

module _ (others : ℕ → ℕ) (l : Linked) where
  -- No job was found.
  with_job_nil :
      Fits others (Spot.at Place.dequeue) l []
      → AfterTurn others (Spot.at Place.dequeue) l (with_job l (thpool_dequeue_job l.work_queue))
  unfolding turn
  with_job_nil h =
      rw (thpool_dequeue_job-nil l.work_queue h.queue, h.tasks)
        (
          (
            [],
            record {
              queue = record { chain = h.queue.chain; tail = h.queue.tail; count = h.queue.count };
              tasks = refl;
              distinct = h.distinct;
              held = h.held;
              owned = h.owned;
            },
          ),
          refl,
          λ a lt. refl,
        )

  -- Nobody holds a job of the list.
  unheld :
      (x : Entry) (rest : List Entry)
      → Fits others (Spot.at Place.dequeue) l (x ∷ rest)
      → others x.address ≡ 0
  unheld x rest h = elim (ℕ_discrete (others x.address) 0) [
    | yes none_held ↦ none_held
    | no some_held ↦ absurd ((h.held x.address (omega arith)).1.0 refl)
  ]

  -- The first job goes over to the worker.
  with_job_cons :
      (x : Entry) (rest : List Entry)
      → Fits others (Spot.at Place.dequeue) l (x ∷ rest)
      → AfterTurn others (Spot.at Place.dequeue) l (with_job l (thpool_dequeue_job l.work_queue))
  unfolding turn
  with_job_cons x rest h =
      let (at_head, nonnull, apart, next, here, chain) = h.queue.chain in
      let (after, takes, queue, memory) = thpool_dequeue_job-cons l.work_queue x rest h.queue in
      let cell : after.memory x.address ≡ some (node x next) =
        ap (λ (m : Memory). m x.address) memory ∙ here in
      let nonzero : x.address ≢ 0 = λ e. nonnull (at_head ∙ e) in
      rw (takes, h.tasks, ne_test x.address nonzero)
        (
          (
            rest,
            record {
              queue = queue;
              tasks = refl;
              distinct = λ a. elim (ℕ_discrete a x.address) [
                | yes e ↦ ground (arith, ap others e, unheld x rest h)
                | no apart_a ↦ ground (arith, h.distinct a)
              ];
              held = λ a lt. elim (ℕ_discrete a x.address) [
                | yes e ↦ rw e (nonzero, apart, node x next, cell)
                | no apart_a ↦
                    let (nonnull_a, away_a, work_a, here_a) = h.held a (ground arith) in
                    (nonnull_a, away_a.1, work_a, ap (λ (m : Memory). m a) memory ∙ here_a)
              ];
              owned = λ a away_a e.
                  let apart_a : a ≢ x.address = λ same. ground (arith, same, e) in
                  ap (λ (m : Memory). m a) memory ∙ h.owned a (apart_a, away_a) (ground arith);
            },
          ),
          ap
              (λ (c : Option Job).
                some (held_place c, dequeue_shared (tasks_of (x ∷ rest)) l.shared))
              (sym cell),
          λ a lt. ap (λ (m : Memory). m a) memory,
        )

  moved :
      (p p' : Place) (es : List Entry)
      → Fits others (Spot.at p) l es
      → Fits others (Spot.at p') l es
  moved p p' es h = record {
    queue = h.queue;
    tasks = h.tasks;
    distinct = h.distinct;
    held = h.held;
    owned = h.owned;
  }

  signal-AfterTurn :
      (p p' : Place) (es : List Entry)
      → Fits others (Spot.at p) l es
      → turn p l.shared ≡ some (p', signal_if_empty l.shared.queue l.shared)
      → AfterTurn others (Spot.at p) l (Turn.moves (Spot.at p') (signal_if_zero l))
  signal-AfterTurn p p' [] h e =
      let test : (0 == l.work_queue.job_count) ≡ true = ground (arith, h.queue.count) in
      rw test (
        (
          [],
          record {
            queue = h.queue;
            tasks = h.tasks;
            distinct = h.distinct;
            held = h.held;
            owned = h.owned;
          },
        ),
        e ∙ ap (λ (q : List Task). some (p', signal_if_empty q l.shared)) h.tasks,
        λ a lt. refl,
      )
  signal-AfterTurn p p' (x ∷ rest) h e =
      let test : (0 == l.work_queue.job_count) ≡ false = ground (arith, h.queue.count) in
      rw test (
        (x ∷ rest, moved p p' (x ∷ rest) h),
        e ∙ ap (λ (q : List Task). some (p', signal_if_empty q l.shared)) h.tasks,
        λ a lt. refl,
      )

  count-AfterTurn :
      (es : List Entry)
      → Fits others (Spot.at Place.count_test) l es
      → AfterTurn others (Spot.at Place.count_test) l (
          Turn.moves
            (Spot.at (if 0 == l.work_queue.job_count then Place.active_test else Place.unlock_run))
            l)
  unfolding turn
  count-AfterTurn [] h =
      let test : (0 == l.work_queue.job_count) ≡ true = ground (arith, h.queue.count) in
      rw test (
        ([], moved Place.count_test Place.active_test [] h),
        ap (λ (q : List Task). some (count_place q, l.shared)) h.tasks,
        λ a lt. refl,
      )
  count-AfterTurn (x ∷ rest) h =
      let test : (0 == l.work_queue.job_count) ≡ false = ground (arith, h.queue.count) in
      rw test (
        (x ∷ rest, moved Place.count_test Place.unlock_run (x ∷ rest) h),
        ap (λ (q : List Task). some (count_place q, l.shared)) h.tasks,
        λ a lt. refl,
      )

-- Whatever the worker does next, it never follows a NULL or dangling pointer, and what it does is
-- its next access on the list of tasks.
pub linked_turn-AfterTurn :
    (others : ℕ → ℕ) (x : Spot) (l : Linked) (es : List Entry)
    → Fits others x l es
    → AfterTurn others x l (linked_turn x l)
unfolding linked_turn turn
linked_turn-AfterTurn others (Spot.holding job) l es h = run_held-AfterTurn others l es job h
linked_turn-AfterTurn others (Spot.at Place.dequeue) l [] h = with_job_nil others l h
linked_turn-AfterTurn others (Spot.at Place.dequeue) l (x ∷ rest) h =
    with_job_cons others l x rest h
linked_turn-AfterTurn others (Spot.at Place.count_test) l es h = count-AfterTurn others l es h
linked_turn-AfterTurn others (Spot.at Place.last_count) l es h =
    signal-AfterTurn others l Place.last_count Place.sub_alive es h refl
linked_turn-AfterTurn others (Spot.at Place.final_count) l es h =
    signal-AfterTurn others l Place.final_count Place.loop_test es h refl
linked_turn-AfterTurn others (Spot.at p) l es h =
    in_place-AfterTurn others l es p (turn p l.shared) h refl (turn-KeepsQueue p l.shared refl)
