-- ===== src/Pool/Linked/Owned.antt =====
-- Every job block of src/thread_pool/thread_pool.c has one owner, and none is left in the end.
use net_math.Base.{
  ℕ, suc, ◌+◌, ◌<◌, ◌≤◌, ◌≡◌, ◌≢◌, refl, ap, sym, ◌∙◌, false, Option, none, some, List, [], ◌∷◌,
  replicate, Bool-cases, inl, inr, arith, ℕ_discrete,
}
use net_math.Pool.{Job, Memory, free_jobs}
use net_math.Pool.Chain.{Entry, IsAway}
use net_math.Pool.Fifo.{IsQueue, holds, free_jobs-IsChain}
use net_math.Pool.Trace.{IsMalloc}
use net_math.Pool.Workers.{Place}
use net_math.Pool.Workers.Counts.{one, count, is_alive}
use net_math.Pool.Workers.Invariant.{count-replicate}
use net_math.Pool.Workers.Quiet.{is_starting, destroyed-all_gone}
use net_math.Pool.Linked.{Spot, LinkedPool, LinkedReachable}
use net_math.Pool.Linked.Fits.{place_of, held_place, holds_job}
use net_math.Pool.Linked.Sound.{places_of, as_pool, IsSound, IsRefined}
use net_math.Pool.Linked.Refines.{LinkedReachable-IsRefined}

holds-IsAway : (es : List Entry) (a : ℕ) → holds es a ≡ false → IsAway a es
holds-IsAway [] a h = tt
holds-IsAway (e ∷ es) a h = (ground arith, holds-IsAway es a (ground arith))

IsAway-holds : (es : List Entry) (a : ℕ) → IsAway a es → holds es a ≡ false
IsAway-holds [] a h = refl
IsAway-holds (e ∷ es) a h = ground (arith, h.0, IsAway-holds es a h.1)

-- An allocated block is in the list, or a worker holds it.
IsSound-one_owner :
    (lp : LinkedPool) (es : List Entry)
    → IsSound lp es
    → (a : ℕ) → lp.linked.work_queue.memory a ≢ none
    → one (holds es a) + count (holds_job a) lp.spots ≡ 1
IsSound-one_owner lp es sound a allocated = elim (ℕ_discrete (count (holds_job a) lp.spots) 0) [
  | yes unheld ↦ elim (Bool-cases (holds es a)) [
    | inl listed ↦ rw listed (omega (arith, unheld))
    | inr missing ↦ absurd (allocated (sound.owned a (holds-IsAway es a missing) unheld))
  ]
  | no held ↦
      let positive : 0 < count (holds_job a) lp.spots = omega arith in
      rw (IsAway-holds es a (sound.held a positive).1) (omega (arith, positive, sound.distinct a))
]

-- In every state that the pool reaches on the linked list, with any `malloc` that answers NULL or
-- an address not allocated, the queue is a linked list of jobs, and each job block that is
-- allocated is either in that list, and no worker holds it, or is held by exactly one worker.
pub LinkedReachable-one_owner :
    (malloc : Memory → ℕ) (thread_count : ℕ) (lp : LinkedPool)
    → IsMalloc malloc
    → LinkedReachable malloc thread_count lp
    → (es : List Entry) × IsQueue lp.linked.work_queue es
      × ((a : ℕ)
          → lp.linked.work_queue.memory a ≢ none
          → one (holds es a) + count (holds_job a) lp.spots ≡ 1)
unfolding IsRefined
LinkedReachable-one_owner malloc n lp law r =
    let ((es, sound), reached) = LinkedReachable-IsRefined malloc n lp law r in
    (es, sound.queue, IsSound-one_owner lp es sound)

-- A worker that holds a job is alive.
holders-le-alive :
    (m : Memory) (a : ℕ) (work : Job) (xs : List Spot)
    → m a ≡ some work
    → count (holds_job a) xs ≤ count is_alive (places_of m xs)
holders-le-alive m a work [] e = omega arith
holders-le-alive m a work (Spot.at p ∷ xs) e = omega (arith, holders-le-alive m a work xs e)
holders-le-alive m a work (Spot.holding job ∷ xs) e = elim (ℕ_discrete a job) [
  | yes same ↦
      let alive : one (is_alive (place_of m (Spot.holding job))) ≡ 1 =
        ap (λ (c : Option Job). one (is_alive (held_place c))) (ap m (sym same) ∙ e) in
      let held : one (holds_job a (Spot.holding job)) ≡ 1 = ground (arith, same) in
      omega (arith, alive, held, holders-le-alive m a work xs e)
  | no other ↦
      let unheld : one (holds_job a (Spot.holding job)) ≡ 0 = ground (arith, other) in
      omega (arith, unheld, holders-le-alive m a work xs e)
]

gone-unheld :
    (lp : LinkedPool) (es : List Entry) (n : ℕ)
    → IsSound lp es
    → places_of lp.linked.work_queue.memory lp.spots ≡ replicate n Place.gone
    → (a : ℕ) → count (holds_job a) lp.spots ≡ 0
gone-unheld lp es n sound gone a = elim (ℕ_discrete (count (holds_job a) lp.spots) 0) [
  | yes unheld ↦ unheld
  | no held ↦
      let (nonnull, away, work, here) = sound.held a (omega (arith, held)) in
      let dead : count is_alive (places_of lp.linked.work_queue.memory lp.spots) ≡ 0 =
        ap (count is_alive) gone ∙ count-replicate is_alive Place.gone n refl in
      absurd (
        omega
          (arith, held, dead, holders-le-alive lp.linked.work_queue.memory a work lp.spots here))
]

-- When each worker of a pool of at most 255 threads has started and `workers_alive` is 0, the loop
-- of `thpool_destroy` over the jobs that were never taken ends, and no job block is left allocated:
-- with any `malloc` that answers NULL or an address not allocated, and in every state that the pool
-- reaches on the linked list.
pub destroyed-no_leak :
    (malloc : Memory → ℕ) (thread_count : ℕ) (lp : LinkedPool)
    → IsMalloc malloc
    → thread_count ≤ 255
    → LinkedReachable malloc thread_count lp
    → count is_starting (as_pool lp).places ≡ 0
    → lp.linked.shared.workers_alive ≡ 0
    → (after : Memory) × (free_jobs
          (suc lp.linked.work_queue.job_count)
          lp.linked.work_queue.job_head
          lp.linked.work_queue.memory
        ≡ some after)
      × ((a : ℕ) → after a ≡ none)
unfolding IsRefined
destroyed-no_leak malloc n lp law few r started none_alive =
    let ((es, sound), reached) = LinkedReachable-IsRefined malloc n lp law r in
    let q = lp.linked.work_queue in
    let (gone, finished) = destroyed-all_gone n (as_pool lp) few reached started none_alive in
    let (after, runs, cells) = free_jobs-IsChain es q.job_head q.memory sound.queue.chain in
    (
      after,
      ap (λ (k : ℕ). free_jobs (suc k) q.job_head q.memory) sound.queue.count ∙ runs,
      λ a. cells a ∙ elim (Bool-cases (holds es a)) [
        | inl listed ↦ rw listed refl
        | inr missing ↦
            rw missing
              (sound.owned a (holds-IsAway es a missing) (gone-unheld lp es n sound gone a))
      ],
    )
