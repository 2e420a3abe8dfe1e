-- ===== src/Pool/Setup/Stop.antt =====
-- What `thpool_destroy` of src/thread_pool/thread_pool.c gives back.
use net_math.Base.{
  ℕ, ◌+◌, ◌-◌, ◌<◌, ◌≡◌, refl, ap, ◌∙◌, true, Option, none, some, List, if◌then◌else◌, arith,
}
use net_math.Pool.{Memory, WorkQueue}
use net_math.Pool.Chain.{Entry}
use net_math.Pool.Fifo.{IsQueue, holds, free_jobs-IsChain}
use net_math.Pool.Setup.{Resources, done, fault, Thpool, free_pool, thpool_destroy}
use net_math.Pool.Setup.Parts.{reads, await-reads, free_workers-made, free_workers-missing}

-- The resources after a complete `thpool_destroy` with `n` workers.
abbrev pub without_pool : ℕ → Resources → Resources
without_pool n r = record r {
  blocks = r.blocks - (n + 3);
  mutexes = r.mutexes - 2;
  conds = r.conds - 1;
}

module _ (pool : Thpool) (q : WorkQueue) (es : List Entry) (r : Resources) where
  free_pool-made :
      IsQueue q es
      → pool.made ≡ pool.thread_count
      → (memory : Memory) × (free_pool pool (some q) r
          ≡ done memory (without_pool pool.thread_count r))
        × ((a : ℕ) → memory a ≡ (if holds es a then none else q.memory a))
  free_pool-made h full =
      let (memory, runs, cells) = free_jobs-IsChain es q.job_head q.memory h.chain in
      (
        memory,
        rw (h.count, runs, free_workers-made pool.thread_count 0 pool.made r (omega (arith, full)))
            (λ i.
              done memory (record r { blocks = less i; mutexes = fewer i; conds = r.conds - 1 })),
        cells,
      )
    where
      less : r.blocks - pool.thread_count - 1 - 1 - 1 ≡ r.blocks - (pool.thread_count + 3)
      less = omega arith

      fewer : r.mutexes - 1 - 1 ≡ r.mutexes - 2
      fewer = omega arith

  free_pool-missing :
      IsQueue q es → pool.made < pool.thread_count → free_pool pool (some q) r ≡ fault
  free_pool-missing h few =
      let (memory, runs, cells) = free_jobs-IsChain es q.job_head q.memory h.chain in
      rw
        (
          h.count,
          runs,
          free_workers-missing pool.thread_count 0 pool.made r (omega arith) (omega (arith, few)),
        )
        refl

  -- On a pool whose worker entries are all set and whose queue is a linked list of jobs, and once
  -- the loop reads `workers_alive` as 0, `thpool_destroy` frees the blocks of the workers, its own
  -- three and exactly those of the jobs, and destroys two mutexes and one condition variable.
  pub thpool_destroy-IsQueue :
      (loads : List ℕ)
      → pool.work_queue ≡ some q
      → IsQueue q es
      → pool.made ≡ pool.thread_count
      → reads 0 loads ≡ true
      → (memory : Memory) × (thpool_destroy loads pool r
          ≡ done memory (without_pool pool.thread_count r))
        × ((a : ℕ) → memory a ≡ (if holds es a then none else q.memory a))
  unfolding thpool_destroy
  thpool_destroy-IsQueue loads e h full zeros =
      let (memory, frees, cells) = free_pool-made h full in
      (
        memory,
        rw (await-reads 0 loads r zeros)
            (ap (λ (queue : Option WorkQueue). free_pool pool queue r) e ∙ frees),
        cells,
      )

  -- A worker entry that is NULL is followed.
  pub thpool_destroy-missing :
      (loads : List ℕ)
      → pool.work_queue ≡ some q
      → IsQueue q es
      → pool.made < pool.thread_count
      → reads 0 loads ≡ true
      → thpool_destroy loads pool r ≡ fault
  unfolding thpool_destroy
  thpool_destroy-missing loads e h few zeros =
      rw (await-reads 0 loads r zeros)
        (ap (λ (queue : Option WorkQueue). free_pool pool queue r) e ∙ free_pool-missing h few)
