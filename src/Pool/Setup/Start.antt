-- ===== src/Pool/Setup/Start.antt =====
-- How `thpool_init` of src/thread_pool/thread_pool.c ends.
use net_math.Base.{
  ℕ, ◌+◌, ◌<◌, ◌≡◌, ◌≢◌, refl, ap, ◌∙◌, Bool, true, false, not, ◌&&◌, Option, none, some, List,
  ◌==◌, if◌then◌else◌, arith,
}
use net_math.Pool.Setup.{
  Resources, Run, done, fault, Action, Thpool, PoolAnswers, thpool_destroy, or_destroy,
  create_workers, then_run, zeroed, assigned, init_rest, thpool_init, when_ready,
}
use net_math.Pool.Setup.Parts.{reads, await-reads, started, with_workers, create_workers-started}

-- Before the queue is assigned `thpool_destroy` follows a NULL pointer.
thpool_destroy-zeroed :
    (loads : List ℕ) (r : Resources) → reads 0 loads ≡ true → thpool_destroy loads zeroed r ≡ fault
unfolding thpool_destroy
thpool_destroy-zeroed loads r h = rw (await-reads 0 loads r h)

or_destroy-zeroed :
    (a : PoolAnswers) (ok : Bool) (rest : Action (Option Thpool)) (r : Resources)
    → reads 0 a.last_loads ≡ true
    → (ok ≡ true → rest r ≡ fault)
    → or_destroy a zeroed ok rest r ≡ fault
or_destroy-zeroed a true rest r h next = next refl
or_destroy-zeroed a false rest r h next = rw (thpool_destroy-zeroed a.last_loads r h)

-- Whether every answer before the threads are created is a success.
abbrev pub prepared : PoolAnswers → Bool
prepared a =
    a.queue_ok
    && (a.run_mutex_ok
        && (a.run_cond_ok && (a.access_mutex_ok && (a.wait_mutex_ok && a.wait_cond_ok))))

-- The same at the first of these calls that fails.
init_rest-unprepared :
    (a : PoolAnswers) (n : ℕ) (r : Resources)
    → reads 0 a.last_loads ≡ true
    → a.queue_ok ≡ true
    → prepared a ≡ false
    → init_rest a n r ≡ fault
unfolding init_rest
init_rest-unprepared a n r h queue failed = or_destroy-zeroed a a.run_mutex_ok _ _ h λ e1.
    or_destroy-zeroed a a.run_cond_ok _ _ h λ e2. or_destroy-zeroed a a.access_mutex_ok _ _ h λ e3.
      or_destroy-zeroed a a.wait_mutex_ok _ _ h
        λ e4. or_destroy-zeroed a a.wait_cond_ok _ _ h (λ e5. absurd (ground arith))

after_queue :
    (a : PoolAnswers) (n : ℕ) (r : Resources)
    → reads 0 a.last_loads ≡ true
    → prepared a ≡ false
    → or_destroy a zeroed a.queue_ok (init_rest a n) r ≡ fault
after_queue a n r h failed =
    or_destroy-zeroed a a.queue_ok (init_rest a n) r h (λ e. init_rest-unprepared a n r h e failed)

nonzero_test : (n : ℕ) → n ≢ 0 → (n == 0) ≡ false
nonzero_test n h = ground arith

by_test :
    {A : Type 0} (ok : Bool) (x y : Action A) (r : Resources) (t : Run A)
    → (ok ≡ false → x r ≡ t)
    → (ok ≡ true → y r ≡ t)
    → (if not ok then x else y) r ≡ t
by_test true x y r t on_false on_true = on_true refl
by_test false x y r t on_false on_true = on_false refl

-- With an argument that is not 0 and an answer that is a failure before the threads are created,
-- `thpool_init` returns NULL and leaves nothing behind if one of its first two allocations fails.
-- Any other such failure is undefined, since `thpool_destroy` follows the pointer to the queue,
-- which is still NULL.
pub thpool_init-unprepared :
    (a : PoolAnswers) (thread_count : ℕ) (r : Resources)
    → thread_count ≢ 0
    → reads 0 a.last_loads ≡ true
    → (a.pool_ok && (a.workers_ok && prepared a)) ≡ false
    → thpool_init a thread_count r ≡ (if a.pool_ok && a.workers_ok then fault else done none r)
unfolding thpool_init
thpool_init-unprepared a n r nonzero loads failed = rw (nonzero_test n nonzero) (
    by_test a.pool_ok _ _ _ _ (λ e. ground (arith, e))
      λ e.
        by_test a.workers_ok _ _ _ _ (λ e'. ground (arith, e, e'))
          λ e'. after_queue a n _ loads (ground (arith, e, e')) ∙ ground (arith, e, e'))

-- Three blocks, the mutexes and the condition variables.
abbrev pub with_pool : Resources → Resources
with_pool r = record r { blocks = r.blocks + 3; mutexes = r.mutexes + 3; conds = r.conds + 2 }

pub thpool_init-prepared :
    (a : PoolAnswers) (n : ℕ) (r : Resources)
    → n ≢ 0
    → (a.pool_ok && (a.workers_ok && prepared a)) ≡ true
    → thpool_init a n r ≡ then_run (create_workers a n (assigned n) (with_pool r)) (when_ready a n)
unfolding thpool_init init_rest
thpool_init-prepared a n r nonzero h = ground (arith, nonzero_test n nonzero, h)

abbrev pub ready : ℕ → Thpool
ready n = record (assigned n) { made = n }

-- Every answer is a success, and the loops that wait for the workers end.
pub record IsGranted (a : PoolAnswers) (thread_count : ℕ) : Type 0 where
  pub all_prepared : (a.pool_ok && (a.workers_ok && prepared a)) ≡ true
  pub all_started : (i : ℕ) → i < thread_count → started (a.worker i) ≡ true
  pub all_alive : reads thread_count a.loads ≡ true
  pub all_gone : reads 0 a.last_loads ≡ true

-- With an argument that is not 0 and no answer that is a failure, and if the loops that wait for
-- the workers read `workers_alive` as the number that ends them, `thpool_init` returns a pool with that
-- many workers. It has allocated one block for each and three more, initialised three mutexes and
-- two condition variables, and created the threads.
pub thpool_init-ready :
    (a : PoolAnswers) (thread_count : ℕ) (r : Resources)
    → thread_count ≢ 0
    → IsGranted a thread_count
    → thpool_init a thread_count r
      ≡ done (some (ready thread_count)) (with_workers thread_count (with_pool r))
unfolding create_workers
thpool_init-ready a n r nonzero h =
    thpool_init-prepared a n r nonzero h.all_prepared
    ∙ ap (λ (run : Run (Option Thpool)). then_run run (when_ready a n))
        (create_workers-started a n n 0 n (assigned n) (with_pool r) (omega arith) (omega arith)
          h.all_started)
    ∙ rw (await-reads n a.loads (with_workers n (with_pool r)) h.all_alive)
