-- ===== src/Service/Served.antt =====
-- What the connections have of the process, in every state of the server.
use net_math.Base.{
  ℕ, ◌+◌, ◌*◌, ◌≤◌, ◌≡◌, refl, ap, sym, ◌∙◌, Option, some, List, [], ◌∷◌, ◌++◌, ◌>>=◌, map, arith,
  ◌<◌, length, length-append, Bool-cases, inl, inr, true, false,
}
use net_math.Io.{World}
use net_math.Header.{Host, IsLittleEndian}
use net_math.Pool.{Task}
use net_math.Pool.Workers.{Place, Shared, Pool, turn}
use net_math.Pool.Lifetime.{Stage, owner_turn, LifeStep, LifeReachable}
use net_math.Pool.Workers.Counts.{one, same_task, occurs, occurs-append}
use net_math.Pool.Waiting.{WaitPlace}
use net_math.Service.{
  Process, Service, session, one_more, job_effect, in_state, ServiceStep, ServiceReachable,
}
use net_math.Service.Balance.{
  total, total-append, total-with_run, in_hand, held, held-append, held-replicate, Balanced,
  BalancedAfter, turn-BalancedAfter,
}
use net_math.Service.Effect.{IsPeer, each, short, answer, map-with_run, job_effect-law}

pub same_process :
    {a b c d : ℕ} {l m : List (ℕ × List ℕ)}
    → a ≡ b
    → c ≡ d
    → l ≡ m
    → ◌≡◌ {A = Option Process}
        (some (record { live = a; open_sockets = c; replies = l }))
        (some (record { live = b; open_sockets = d; replies = m }))
same_process el es er = λ i. some (record { live = el i; open_sockets = es i; replies = er i })

-- The thread that owns the pool leaves the tasks where they are.
owner_turn-keeps :
    (n : ℕ) (stage : Stage) (s : Shared)
    → ((owner_turn n stage s).1.queue ≡ s.queue)
      × ((owner_turn n stage s).1.finished ≡ s.finished)
      × ((owner_turn n stage s).1.submitted ≡ s.submitted)
unfolding owner_turn
owner_turn-keeps n Stage.destroy_begin s = (refl, refl, refl)
owner_turn-keeps n (Stage.in_wait WaitPlace.returned) s = (refl, refl, refl)
owner_turn-keeps n (Stage.in_wait place) s = (refl, refl, refl)
owner_turn-keeps n stage s = (refl, refl, refl)

session-arg :
    (t : Task) (pointer number : ℕ) → same_task t (session pointer number) ≡ true → t.arg ≡ number
session-arg t pointer number h = ground arith

session-other :
    (t : Task) (pointer number : ℕ) → number < t.arg → same_task t (session pointer number) ≡ false
session-other t pointer number h = ground arith

module _ (host : Host) (peers : (arg : ℕ) → World) (order : IsLittleEndian host)
    (fine : (arg : ℕ) → IsPeer host (peers arg)) where
  abbrev pub pending : (Task → ℕ) → Pool → ℕ
  pending f pool = total f pool.shared.queue + held f pool.places

  module _ (thread_count pointer live sockets : ℕ) where
    -- What the process has while tasks are pending.
    abbrev pub expected : (lost : ℕ) → Pool → Process
    expected lost pool = record {
      live = live + lost + pending each pool + 2 * total (short host peers) pool.shared.finished;
      open_sockets = sockets + lost + pending each pool;
      replies = map (answer host peers) pool.shared.finished;
    }

    pub record IsServed (x : Service) : Type 0 where
      pub reached : LifeReachable thread_count x.life
      pub process : x.process ≡ some (expected x.lost x.life.pool)
      pub balance :
          total (short host peers) x.life.pool.shared.submitted
          ≡ pending (short host peers) x.life.pool
            + total (short host peers) x.life.pool.shared.finished
      pub once : (t : Task) → occurs t x.life.pool.shared.submitted ≤ 1
      pub later :
          (t : Task)
          → length x.life.pool.shared.submitted + x.lost ≤ t.arg
          → occurs t x.life.pool.shared.submitted ≡ 0

    works-IsServed :
        (s s' : Shared) (before : List Place) (p p' : Place) (after : List Place) (stage : Stage)
        (c : Option Process) (lost : ℕ)
        → turn p s ≡ some (p', s')
        → IsServed (in_state s (before ++ p ∷ after) stage c lost)
        → IsServed (in_state s' (before ++ p' ∷ after) stage (c >>= job_effect host peers p) lost)
    unfolding BalancedAfter
    works-IsServed s s' before p p' after stage c lost move h =
        let moved : (f : Task → ℕ) → Balanced f p s p' s' =
          λ f. rw move at (turn-BalancedAfter f p s) in
        let old = λ (f : Task → ℕ). held-append f before p after in
        let new = λ (f : Task → ℕ). held-append f before p' after in
        let ran : total (short host peers) s'.finished
            ≡ total (short host peers) s.finished + in_hand (short host peers) p =
          ap (total (short host peers)) (moved (short host peers)).1
          ∙ total-with_run (short host peers) p s.finished in
        record {
          reached =
              LifeReachable.goes_on _ _ h.reached
                (LifeStep.works s s' before p p' after stage move);
          process =
              ap (λ (o : Option Process). o >>= job_effect host peers p) h.process
              ∙ job_effect-law host peers order fine p _ _ _
              ∙ same_process (omega (arith, ran, (moved each).0, old each, new each))
                  (omega (arith, (moved each).0, old each, new each))
                  (sym (
                    ap (map (answer host peers)) (moved each).1
                    ∙ map-with_run host peers p s.finished));
          balance = omega (
            arith,
            h.balance,
            ap (total (short host peers)) (moved (short host peers)).2,
            ran,
            (moved (short host peers)).0,
            old (short host peers),
            new (short host peers),
          );
          once = λ t. omega (arith, h.once t, ap (occurs t) (moved each).2);
          later = λ t few.
              ap (occurs t) (moved each).2
              ∙ h.later t (omega (arith, few, ap length (moved each).2));
        }

    ServiceStep-IsServed :
        (a b : Service) → ServiceStep host peers thread_count pointer a b → IsServed a → IsServed b
    ServiceStep-IsServed _ _ (ServiceStep.works s s' before p p' after stage c lost move) h =
        works-IsServed s s' before p p' after stage c lost move h
    ServiceStep-IsServed _ _ (ServiceStep.accepts s places c lost) h =
        let number = length s.submitted + lost in
        let task = session pointer number in
        let added = λ (t : Task). occurs-append t s.submitted (task ∷ []) in
        record {
          reached = LifeReachable.goes_on _ _ h.reached (LifeStep.accepts s places task);
          process =
              ap (λ (o : Option Process). o >>= one_more) h.process
              ∙ same_process (omega (arith, total-append each s.queue (task ∷ [])))
                  (omega (arith, total-append each s.queue (task ∷ []))) refl;
          balance = omega (
            arith,
            h.balance,
            total-append (short host peers) s.queue (task ∷ []),
            total-append (short host peers) s.submitted (task ∷ []),
          );
          once = λ t. elim (Bool-cases (same_task t task)) [
            | inl same ↦
                let new : occurs t s.submitted ≡ 0 =
                  h.later t (omega (arith, session-arg t pointer number same)) in
                omega (arith, added t, new, ap one same)
            | inr other ↦ omega (arith, added t, h.once t, ap one other)
          ];
          later = λ t few.
              let beyond : number < t.arg =
                omega (arith, few, length-append s.submitted (task ∷ [])) in
              let other : same_task t task ≡ false = session-other t pointer number beyond in
              omega (arith, added t, ap one other, h.later t (omega (arith, beyond)));
        }
    ServiceStep-IsServed _ _ (ServiceStep.loses s places c lost) h = record {
      reached = h.reached;
      process =
          ap (λ (o : Option Process). o >>= one_more) h.process
          ∙ same_process (omega arith) (omega arith) refl;
      balance = h.balance;
      once = h.once;
      later = λ t few. h.later t (omega (arith, few));
    }
    ServiceStep-IsServed _ _ (ServiceStep.owns s places stage c lost) h =
        let (queue, finished, submitted) = owner_turn-keeps thread_count stage s in
        record {
          reached = LifeReachable.goes_on _ _ h.reached (LifeStep.owns s places stage);
          process =
              h.process
              ∙ same_process
                  (omega (arith, ap (total each) queue, ap (total (short host peers)) finished))
                  (omega (arith, ap (total each) queue))
                  (sym (ap (map (answer host peers)) finished));
          balance = omega (
            arith,
            h.balance,
            ap (total (short host peers)) queue,
            ap (total (short host peers)) finished,
            ap (total (short host peers)) submitted,
          );
          once = λ t. omega (arith, h.once t, ap (occurs t) submitted);
          later = λ t few.
              ap (occurs t) submitted ∙ h.later t (omega (arith, few, ap length submitted));
        }

    pub ServiceReachable-IsServed :
        (x : Service) → ServiceReachable host peers thread_count pointer live sockets x → IsServed x
    ServiceReachable-IsServed _ ServiceReachable.begins =
        let none_held = λ (f : Task → ℕ). held-replicate f Place.starting thread_count refl in
        record {
          reached = LifeReachable.begins;
          process =
              same_process (omega (arith, none_held each)) (omega (arith, none_held each)) refl;
          balance = omega (arith, none_held (short host peers));
          once = λ t. omega arith;
          later = λ t few. refl;
        }
    ServiceReachable-IsServed _ (ServiceReachable.goes_on a b r step) =
        ServiceStep-IsServed a b step (ServiceReachable-IsServed a r)
