-- ===== src/Pool/Setup/Outcome.antt =====
-- Every way in which `thpool_init` of src/thread_pool/thread_pool.c ends.
use net_math.Base.{
  ℕ, zero, suc, ◌+◌, ◌≤◌, ◌<◌, ◌≡◌, ◌≢◌, refl, ap, ◌∙◌, true, false, not, ◌||◌, inl, inr,
  Bool-cases, ◌&&◌, Option, none, some, ◌==◌, if◌then◌else◌, arith,
}
use net_math.Pool.Setup.{Resources, Run, done, fault, Thpool, PoolAnswers, thpool_init}
use net_math.Pool.Setup.Parts.{reads, started, with_workers}
use net_math.Pool.Setup.Start.{
  prepared, with_pool, ready, thpool_init-unprepared, thpool_init-ready,
}
use net_math.Pool.Setup.Worker.{left_over, thpool_init-stopped}

-- The first of `left` workers from `i` on that is not started.
abbrev pub first_stopped : PoolAnswers → (left i : ℕ) → Option ℕ
first_stopped a zero i = none
first_stopped a (suc left) i = if started (a.worker i) then first_stopped a left (suc i) else some i

-- From the loop that starts the workers on, given the first that is not started: NULL only if that
-- is the last one and its block was allocated.
abbrev pub workers_outcome : PoolAnswers → (n : ℕ) → Resources → Option ℕ → Run (Option Thpool)
workers_outcome a n r none = done (some (ready n)) (with_workers n (with_pool r))
workers_outcome a n r (some k) =
    if (a.worker k).malloc_ok && (suc k == n)
    then done none (left_over k (a.worker k).create_ok r)
    else fault

-- The end: NULL without a thread to start or one of the first two blocks, and undefined if another
-- call fails before the threads, since `thpool_destroy` then follows the NULL of the queue.
abbrev pub init_outcome : PoolAnswers → (thread_count : ℕ) → Resources → Run (Option Thpool)
init_outcome a n r =
    if n == 0 || not (a.pool_ok && a.workers_ok)
    then done none r
    else if not (prepared a)
    then fault
    else workers_outcome a n r (first_stopped a n 0)

AllStarted : PoolAnswers → (i end : ℕ) → Type 0
AllStarted a i end = (j : ℕ) → i ≤ j → j < end → started (a.worker j) ≡ true

Searched : PoolAnswers → (left i : ℕ) → Option ℕ → Type 0
Searched a left i none = AllStarted a i (i + left)
Searched a left i (some k) = (k < i + left) × (started (a.worker k) ≡ false) × AllStarted a i k

one_more-AllStarted :
    (a : PoolAnswers) (i end : ℕ)
    → started (a.worker i) ≡ true
    → AllStarted a (suc i) end
    → AllStarted a i end
unfolding AllStarted
one_more-AllStarted a i end h all j le lt = elim (Bool-cases (j == i)) [
  | inl same ↦ let e : j ≡ i = ground (arith, same) in ap (λ (k : ℕ). started (a.worker k)) e ∙ h
  | inr other ↦ all j (ground (arith, other, le)) lt
]

one_more-Searched :
    (a : PoolAnswers) (left i : ℕ) (o : Option ℕ)
    → started (a.worker i) ≡ true
    → Searched a left (suc i) o
    → Searched a (suc left) i o
unfolding Searched AllStarted
one_more-Searched a left i none h all =
    one_more-AllStarted a i (i + suc left) h (λ j le lt. all j le (omega (arith, lt)))
one_more-Searched a left i (some k) h s = (omega (arith, s.0), s.1, one_more-AllStarted a i k h s.2)

first_stopped-Searched : (a : PoolAnswers) (left i : ℕ) → Searched a left i (first_stopped a left i)
unfolding Searched AllStarted
first_stopped-Searched a zero i = λ j le lt. absurd (omega arith)
first_stopped-Searched a (suc left) i = elim (Bool-cases (started (a.worker i))) [
  | inl h ↦ rw h (
      one_more-Searched a left i (first_stopped a left (suc i)) h
        (first_stopped-Searched a left (suc i)))
  | inr stops ↦ rw stops (omega arith, stops, λ j le lt. absurd (omega arith))
]

no_thread :
    (a : PoolAnswers) (n : ℕ) (r : Resources) → (n == 0) ≡ true → thpool_init a n r ≡ done none r
unfolding thpool_init
no_thread a n r h = rw h refl

with_threads :
    (a : PoolAnswers) (n : ℕ) (r : Resources) (o : Option ℕ)
    → n ≢ 0
    → (a.pool_ok && (a.workers_ok && prepared a)) ≡ true
    → reads n a.loads ≡ true
    → reads 0 a.last_loads ≡ true
    → Searched a n 0 o
    → thpool_init a n r ≡ workers_outcome a n r o
unfolding Searched AllStarted
with_threads a n r none nonzero h alive gone all = thpool_init-ready a n r nonzero (record {
  all_prepared = h;
  all_started = λ i lt. all i (omega arith) (omega (arith, lt));
  all_alive = alive;
  all_gone = gone;
})
with_threads a n r (some k) nonzero h alive gone s =
    thpool_init-stopped a n k r (omega (arith, s.0)) h (λ i lt. s.2 i (omega arith) lt) s.1 gone

-- If the loops that wait for the workers end, `thpool_init` ends in one of four ways, for any
-- number of threads and any answers of the system. It returns NULL and leaves nothing behind for
-- the number 0 or if one of its first two allocations fails. It is undefined if another call fails
-- before the threads, and if a worker is not started, unless that is the last one and its block
-- was allocated: then NULL is returned, with all blocks freed, and one mutex, one condition
-- variable and the threads left. Otherwise it returns a pool with that many workers. It has then
-- allocated one block for each and three more, initialised three mutexes and two condition
-- variables, and created the threads.
pub thpool_init-init_outcome :
    (a : PoolAnswers) (thread_count : ℕ) (r : Resources)
    → reads thread_count a.loads ≡ true
    → reads 0 a.last_loads ≡ true
    → thpool_init a thread_count r ≡ init_outcome a thread_count r
thpool_init-init_outcome a n r alive gone = elim (Bool-cases (n == 0)) [
  | inl none_wanted ↦ no_thread a n r none_wanted ∙ ground (arith, none_wanted)
  | inr wanted ↦
      let nonzero : n ≢ 0 = λ e. ground (arith, wanted, e) in
      elim (Bool-cases (a.pool_ok && (a.workers_ok && prepared a))) [
        | inr failed ↦
            thpool_init-unprepared a n r nonzero gone failed ∙ ground (arith, failed, wanted)
        | inl h ↦
            with_threads a n r (first_stopped a n 0) nonzero h alive gone
              (first_stopped-Searched a n 0)
            ∙ ground (arith, h, wanted)
      ]
]
