-- ===== src/Pool/Setup/Parts.antt =====
-- The loops of `thpool_init` and `thpool_destroy` of src/thread_pool/thread_pool.c.
use net_math.Base.{
  ℕ, zero, suc, ◌+◌, ◌-◌, ◌≤◌, ◌<◌, ◌≡◌, refl, ◌∙◌, Bool, true, false, ◌&&◌, ◌||◌, Option, none,
  List, [], ◌∷◌, ◌==◌, if◌then◌else◌, arith,
}
use net_math.Pool.Setup.{
  Resources, done, fault, Action, Thpool, WorkerAnswers, PoolAnswers, await, free_workers,
  thpool_destroy, create_worker, create_workers, then_run, returns,
}

-- Whether one of the loads of a loop is the number that ends it.
abbrev pub reads : ℕ → List ℕ → Bool
reads n [] = false
reads n (x ∷ xs) = x == n || reads n xs

pub await-reads :
    (n : ℕ) (loads : List ℕ) (r : Resources) → reads n loads ≡ true → await n loads r ≡ done tt r
unfolding await
await-reads n [] r h = ground arith
await-reads n (x ∷ xs) r h = ground (arith, await-reads n xs r)

-- The workers below `made` are freed, one block each.
pub free_workers-made :
    (left i made : ℕ) (r : Resources)
    → i + left ≤ made
    → free_workers left i made r ≡ done tt (record r { blocks = r.blocks - left })
unfolding free_workers
free_workers-made zero i made r h = ground arith
free_workers-made (suc left) i made r h =
    ground (arith, free_workers-made left (suc i) made (record r { blocks = r.blocks - 1 }))

pub free_workers-missing :
    (left i made : ℕ) (r : Resources)
    → i ≤ made
    → made < i + left
    → free_workers left i made r ≡ fault
unfolding free_workers
free_workers-missing zero i made r le h = absurd (omega arith)
free_workers-missing (suc left) i made r le h =
    ground (arith, free_workers-missing left (suc i) made (record r { blocks = r.blocks - 1 }))

abbrev pub started : WorkerAnswers → Bool
started answers = answers.malloc_ok && (answers.create_ok && answers.detach_ok)

abbrev pub with_workers : ℕ → Resources → Resources
with_workers n r = record r { blocks = r.blocks + n; threads = r.threads + n }

-- What one round leaves, and the structure that it destroys if it fails.
abbrev pub after_round : WorkerAnswers → Resources → Resources
after_round w r = record r {
  blocks = if w.malloc_ok then r.blocks + 1 else r.blocks;
  threads = if w.malloc_ok && w.create_ok then r.threads + 1 else r.threads;
}

abbrev pub made_in_round : WorkerAnswers → Thpool → Thpool
made_in_round w pool = record pool { made = if w.malloc_ok then suc pool.made else pool.made }

module _ (a : PoolAnswers) (w : WorkerAnswers) (pool : Thpool) (rest : Action (Option Thpool)) where
  pub create_worker-started :
      (r : Resources) → started w ≡ true → create_worker a w pool rest r ≡ rest (with_workers 1 r)
  unfolding create_worker
  create_worker-started r h = ground (arith, h)

  pub create_worker-failed :
      (r : Resources)
      → started w ≡ false
      → create_worker a w pool rest r
        ≡ then_run
            (thpool_destroy a.last_loads (made_in_round w pool) (after_round w r))
            (λ memory. returns none)
  unfolding create_worker
  create_worker-failed r h = ground (arith, h)

same_state :
    (a : PoolAnswers) (left : ℕ) (pool : Thpool) (r : Resources) {m made blocks threads : ℕ}
    → m ≡ left
    → pool.made ≡ made
    → r.blocks ≡ blocks
    → r.threads ≡ threads
    → create_workers a m pool r
      ≡ create_workers a left
          (record pool { made = made })
          (record r { blocks = blocks; threads = threads })
same_state a left pool r em ep eb et = λ i.
    create_workers a (em i) (record pool { made = ep i })
      (record r { blocks = eb i; threads = et i })

-- The first `k` rounds, if each of them starts its worker, of which `made` are set then.
pub create_workers-started :
    (a : PoolAnswers) (k m left made : ℕ) (pool : Thpool) (r : Resources)
    → m ≡ k + left
    → made ≡ pool.made + k
    → ((i : ℕ) → i < made → started (a.worker i) ≡ true)
    → create_workers a m pool r
      ≡ create_workers a left (record pool { made = made }) (with_workers k r)
unfolding create_workers
create_workers-started a zero m left made pool r e em h =
    same_state a left pool r (omega (arith, e)) (omega (arith, em)) (omega arith) (omega arith)
create_workers-started a (suc k) zero left made pool r e em h = absurd (omega arith)
create_workers-started a (suc k) (suc m) left made pool r e em h =
    let more = record pool { made = suc pool.made } in
    create_worker-started a (a.worker pool.made) pool (create_workers a m more) r
      (h pool.made (omega (arith, em)))
    ∙ create_workers-started a k m left made more (with_workers 1 r) (omega (arith, e))
        (omega (arith, em)) h
    ∙ same_state a left (record more { made = made }) (with_workers k (with_workers 1 r)) refl refl
        (omega arith) (omega arith)
