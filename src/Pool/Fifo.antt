-- ===== src/Pool/Fifo.antt =====
-- The linked list of src/thread_pool/thread_pool.c is a queue.
use net_math.Base.{
  ℕ, suc, ◌+◌, ◌-◌, ◌<◌, ◌^◌, ◌≡◌, ◌≢◌, sym, ◌∙◌, Bool, false, none, some, List, [], ◌∷◌, ◌++◌,
  length, ◌==◌, ◌||◌, if◌then◌else◌, arith, refl,
}
use net_math.Pool.{
  Memory, store, ThpoolStatus, WorkQueue, Task, thpool_enqueue_job, thpool_dequeue_job, run_job,
  free_jobs,
}
use net_math.Pool.Chain.{
  Entry, IsAway, node, IsChain, last_address, store-same, store-other, last_address-IsAway,
  IsChain-store, IsAway-free, IsChain-link,
}

pub record IsQueue (q : WorkQueue) (es : List Entry) : Type 0 where
  pub chain : IsChain q.memory q.job_head es
  pub tail : q.job_tail ≡ last_address es
  pub count : q.job_count ≡ length es

abbrev pub entry : (address : ℕ) → Task → Entry
entry address task = record { address = address; task = task }

pub length-append : (es : List Entry) (l : Entry) → length (es ++ l ∷ []) ≡ length es + 1
length-append [] l = refl
length-append (e ∷ es) l = ground (arith, length-append es l)

last_address-append : (es : List Entry) (l : Entry) → last_address (es ++ l ∷ []) ≡ l.address
last_address-append [] l = refl
last_address-append (e ∷ []) l = refl
last_address-append (e ∷ e' ∷ es) l = last_address-append (e' ∷ es) l

-- The job is added, and only its block and the last one change.
pub thpool_enqueue_job-Adds :
    (malloc : Memory → ℕ) (task : Task) (q : WorkQueue) (es : List Entry)
    → IsQueue q es
    → length es < 2 ^ 64 - 1
    → malloc q.memory ≢ 0
    → q.memory (malloc q.memory) ≡ none
    → (after : WorkQueue) × (thpool_enqueue_job malloc task q
        ≡ some (ThpoolStatus.thp_success, after))
      × IsQueue after (es ++ entry (malloc q.memory) task ∷ [])
      × ((a : ℕ) → IsAway a es → a ≢ malloc q.memory → after.memory a ≡ q.memory a)
unfolding thpool_enqueue_job
thpool_enqueue_job-Adds malloc task q [] h room nonnull free = (
  record q {
    job_head = malloc q.memory;
    job_tail = malloc q.memory;
    job_count = 1;
    memory = store q.memory (malloc q.memory) (some (node (entry (malloc q.memory) task) 0));
    run_signals = q.run_signals + 1;
  },
  ground (arith, h.count),
  record {
    chain = (refl, nonnull, tt, 0, store-same q.memory (malloc q.memory) _, refl);
    tail = refl;
    count = refl;
  },
  λ a away apart. store-other q.memory (malloc q.memory) _ a apart,
)
thpool_enqueue_job-Adds malloc task q (e ∷ es) h room nonnull free =
    let l = entry (malloc q.memory) task in
    let new = store q.memory l.address (some (node l 0)) in
    let away : IsAway l.address (e ∷ es) =
      IsAway-free q.memory q.job_head l.address (e ∷ es) h.chain free in
    let (last, loaded, linked) =
      IsChain-link new q.job_head e es l
        (IsChain-store q.memory q.job_head l.address _ (e ∷ es) away h.chain)
        (store-same q.memory l.address _) nonnull away in
    (
      record q {
        job_tail = l.address;
        job_count = q.job_count + 1;
        memory = store new (last_address (e ∷ es)) (some (record last { next_job = l.address }));
        run_signals = q.run_signals + 1;
      },
      rw (h.tail) (ground (arith, h.count, loaded)),
      record {
        chain = linked;
        tail = sym (last_address-append (e ∷ es) l);
        count = ground (arith, h.count, length-append (e ∷ es) l);
      },
      λ a away' apart.
          store-other new (last_address (e ∷ es)) _ a (last_address-IsAway a e es away')
          ∙ store-other q.memory l.address _ a apart,
    )

-- On a queue that holds fewer than 2^64 - 1 jobs, with an address from `malloc` that is neither
-- NULL nor allocated, `thpool_enqueue_job` succeeds and leaves the linked list of the same jobs
-- with the new one at its end.
pub thpool_enqueue_job-IsQueue :
    (malloc : Memory → ℕ) (task : Task) (q : WorkQueue) (es : List Entry)
    → IsQueue q es
    → length es < 2 ^ 64 - 1
    → malloc q.memory ≢ 0
    → q.memory (malloc q.memory) ≡ none
    → (after : WorkQueue) × (thpool_enqueue_job malloc task q
        ≡ some (ThpoolStatus.thp_success, after))
      × IsQueue after (es ++ entry (malloc q.memory) task ∷ [])
thpool_enqueue_job-IsQueue malloc task q es h room nonnull free =
    let (after, adds, queue, cells) =
      thpool_enqueue_job-Adds malloc task q es h room nonnull free in
    (after, adds, queue)

-- Without memory nothing changes.
pub thpool_enqueue_job_refused :
    (malloc : Memory → ℕ) (task : Task) (q : WorkQueue)
    → malloc q.memory ≡ 0
    → thpool_enqueue_job malloc task q ≡ some (ThpoolStatus.thp_failure, q)
unfolding thpool_enqueue_job
thpool_enqueue_job_refused malloc task q null = ground (arith, null)

-- Taking the first job leaves the memory alone.
pub thpool_dequeue_job-cons :
    (q : WorkQueue) (e : Entry) (es : List Entry)
    → IsQueue q (e ∷ es)
    → (after : WorkQueue) × (thpool_dequeue_job q ≡ some (e.address, after))
      × IsQueue after es
      × (after.memory ≡ q.memory)
unfolding thpool_dequeue_job
thpool_dequeue_job-cons q e [] h =
    let (at, nonnull, apart, next, here, rest) = h.chain in
    (
      record q { job_head = 0; job_tail = 0; job_count = 0; run_signals = q.run_signals + 1 },
      rw at (ground (arith, h.count)),
      record { chain = refl; tail = refl; count = refl },
      refl,
    )
thpool_dequeue_job-cons q e (e' ∷ es) h =
    let (at, nonnull, apart, next, here, rest) = h.chain in
    (
      record q { job_head = next; job_count = suc (length es); run_signals = q.run_signals + 1 },
      rw at (ground (arith, h.count, here, at, nonnull)),
      record { chain = rest; tail = h.tail; count = refl },
      refl,
    )

pub thpool_dequeue_job-nil :
    (q : WorkQueue)
    → IsQueue q []
    → thpool_dequeue_job q ≡ some (0, record q { run_signals = q.run_signals + 1 })
unfolding thpool_dequeue_job
thpool_dequeue_job-nil q h = ground (arith, h.count, h.chain)

-- On a queue that is not empty a worker takes the oldest task, and the list of the other jobs is
-- left; the block of the job is freed.
pub run_job-IsQueue :
    (q : WorkQueue) (e : Entry) (es : List Entry)
    → IsQueue q (e ∷ es)
    → (after : WorkQueue) × (run_job q ≡ some (some e.task, after))
      × IsQueue after es
      × (after.memory e.address ≡ none)
unfolding run_job thpool_dequeue_job
run_job-IsQueue q e [] h =
    let (at, nonnull, apart, next, here, rest) = h.chain in
    (
      record q {
        job_head = 0;
        job_tail = 0;
        job_count = 0;
        memory = store q.memory e.address none;
        run_signals = q.run_signals + 1;
      },
      rw at (ground (arith, h.count, here, at, nonnull)),
      record { chain = refl; tail = refl; count = refl },
      store-same q.memory e.address none,
    )
run_job-IsQueue q e (e' ∷ es) h =
    let (at, nonnull, apart, next, here, rest) = h.chain in
    (
      record q {
        job_head = next;
        job_count = suc (length es);
        memory = store q.memory e.address none;
        run_signals = q.run_signals + 1;
      },
      rw at (ground (arith, h.count, here, at, nonnull)),
      record {
        chain = IsChain-store q.memory next e.address none (e' ∷ es) apart rest;
        tail = h.tail;
        count = refl;
      },
      store-same q.memory e.address none,
    )

pub run_job_empty :
    (q : WorkQueue)
    → IsQueue q []
    → run_job q ≡ some (none, record q { run_signals = q.run_signals + 1 })
unfolding run_job thpool_dequeue_job
run_job_empty q h = ground (arith, h.count, h.chain)

-- Whether an entry stands at the address.
abbrev pub holds : List Entry → ℕ → Bool
holds [] a = false
holds (e ∷ es) a = e.address == a || holds es a

-- From the head of a linked list of jobs the loop of `thpool_destroy` ends after one round for
-- each job and the test of NULL. It frees exactly their blocks and leaves all other memory alone.
pub free_jobs-IsChain :
    (es : List Entry) (p : ℕ) (memory : Memory)
    → IsChain memory p es
    → (after : Memory) × (free_jobs (suc (length es)) p memory ≡ some after)
      × ((a : ℕ) → after a ≡ (if holds es a then none else memory a))
unfolding free_jobs
free_jobs-IsChain [] p memory h = (memory, ground (arith, h), λ a. refl)
free_jobs-IsChain (e ∷ es) p memory (at, nonnull, apart, next, here, rest) =
    let (after, runs, cells) =
      free_jobs-IsChain es next (store memory e.address none)
        (IsChain-store memory next e.address none es apart rest) in
    (after, rw at (ground (arith, here, at, nonnull, runs)), λ a. ground (arith, cells a))
