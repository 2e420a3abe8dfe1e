-- ===== src/Pool/Lifetime/Ends.antt =====
-- The loop of `thpool_destroy` of src/thread_pool/thread_pool.c comes to its end.
use net_math.Base.{
  ℕ, suc, ◌*◌, ◌≤◌, ◌≡◌, refl, ap, ◌∙◌, ◌⊎◌, inl, inr, Bool, true, false, some, List, ◌∷◌, ◌++◌,
  ◌==◌, if◌then◌else◌, arith,
}
use net_math.Pool.Workers.{Place, Shared, turn}
use net_math.Pool.Workers.Counts.{is_alive, count}
use net_math.Pool.Workers.Invariant.{Reachable-IsConsistent, count-replicate}
use net_math.Pool.Workers.Ends.{Run, CanMove, stopped-gone}
use net_math.Pool.Lifetime.{Stage, owner_turn, Lifetime, LifeStep, LifeReachable}
use net_math.Pool.Lifetime.Laws.{is_open, LifeReachable-IsLife}

-- The accesses that follow a state, with the number of those that workers make.
pub data LifeRun (thread_count : ℕ) (a : Lifetime) : ℕ → Lifetime → Type 0 where
  nothing : LifeRun thread_count a 0 a
  works :
      (k : ℕ) (s s' : Shared) (before : List Place) (p p' : Place) (after : List Place)
      (stage : Stage)
      → LifeRun thread_count a k
          (record { pool = record { shared = s; places = before ++ p ∷ after }; stage = stage })
      → turn p s ≡ some (p', s')
      → LifeRun thread_count a
          (suc k)
          (record { pool = record { shared = s'; places = before ++ p' ∷ after }; stage = stage })
  owns :
      (k : ℕ) (s : Shared) (places : List Place) (stage : Stage)
      → LifeRun thread_count a k
          (record { pool = record { shared = s; places = places }; stage = stage })
      → LifeRun thread_count a k (record {
        pool = record { shared = (owner_turn thread_count stage s).1; places = places };
        stage = (owner_turn thread_count stage s).0;
      })

record IsEnding (n : ℕ) (a : Lifetime) (k : ℕ) (b : Lifetime) : Type 0 where
  reached : LifeReachable n b
  late : is_open b.stage ≡ false
  run : Run a.pool k b.pool

-- After the first access of `thpool_destroy` its thread leaves the shared fields as they are.
late-owner :
    (n : ℕ) (stage : Stage) (s : Shared)
    → is_open stage ≡ false
    → (is_open (owner_turn n stage s).0 ≡ false) × ((owner_turn n stage s).1 ≡ s)
unfolding owner_turn
late-owner n Stage.alive_loop s late = (ends (0 == s.workers_alive), refl)
  where
    ends : (b : Bool) → is_open (if b then Stage.freed else Stage.alive_loop) ≡ false
    ends true = refl
    ends false = refl
late-owner n Stage.freed s late = (refl, refl)
late-owner n stage s late = absurd (ground arith)

LifeRun-IsEnding :
    (n : ℕ) (a : Lifetime) (k : ℕ) (b : Lifetime)
    → LifeReachable n a
    → is_open a.stage ≡ false
    → LifeRun n a k b
    → IsEnding n a k b
LifeRun-IsEnding n a _ _ r late LifeRun.nothing = record {
  reached = r;
  late = late;
  run = Run.nothing;
}
LifeRun-IsEnding n a _ _ r late (LifeRun.works k s s' before p p' after stage run move) =
    let was = LifeRun-IsEnding n a k _ r late run in
    record {
      reached =
          LifeReachable.goes_on _ _ was.reached (LifeStep.works s s' before p p' after stage move);
      late = was.late;
      run = Run.works k s s' before p p' after was.run move;
    }
LifeRun-IsEnding n a _ _ r late (LifeRun.owns k s places stage run) =
    let was = LifeRun-IsEnding n a k _ r late run in
    let (still_late, same) = late-owner n stage s was.late in
    record {
      reached = LifeReachable.goes_on _ _ was.reached (LifeStep.owns s places stage);
      late = still_late;
      run = rw same was.run;
    }

-- With no worker alive the loop is left.
none_alive-freed :
    (n : ℕ) (stage : Stage) (s : Shared)
    → is_open stage ≡ false
    → s.workers_alive ≡ 0
    → (owner_turn n stage s).0 ≡ Stage.freed
unfolding owner_turn
none_alive-freed n Stage.alive_loop s late none_alive = rw none_alive
none_alive-freed n Stage.freed s late none_alive = refl
none_alive-freed n stage s late none_alive = absurd (ground arith)

-- From the first access of `thpool_destroy` on, whose thread owns a pool of at most 255 threads,
-- the workers make at most 8 more accesses for each thread, in any order. In every state on the
-- way some worker can make its next access, or comes back from `cnd_wait`, or the next access of
-- the owner ends its loop, and it comes to free the pool.
pub destroy-ends :
    (thread_count : ℕ) (a b : Lifetime) (accesses : ℕ)
    → thread_count ≤ 255
    → LifeReachable thread_count a
    → a.stage ≡ Stage.alive_loop
    → LifeRun thread_count a accesses b
    → (accesses ≤ 8 * thread_count)
      × (CanMove b.pool ⊎ ((owner_turn thread_count b.stage b.pool.shared).0 ≡ Stage.freed))
destroy-ends n a b k h r begun run =
    let late : is_open a.stage ≡ false = ap is_open begun in
    let end = LifeRun-IsEnding n a k b r late run in
    let life = LifeReachable-IsLife n a h r in
    let (few, ends) = stopped-gone n a.pool b.pool k h life.reached (life.closed late) end.run in
    (
      few,
      elim ends [
        | inr moves ↦ inl moves
        | inl gone ↦
            let c =
              Reachable-IsConsistent n b.pool h (LifeReachable-IsLife n b h end.reached).reached in
            let dead : count is_alive b.pool.places ≡ 0 =
              ap (count is_alive) gone ∙ count-replicate is_alive Place.gone n refl in
            inr (none_alive-freed n b.stage b.pool.shared end.late (omega (arith, c.alive, dead)))
      ],
    )
