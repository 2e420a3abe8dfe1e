-- ===== src/Pool/Lifetime/Laws.antt =====
-- Everything that was handed to the pool is done when the pool is freed.
use net_math.Base.{
  ℕ, ◌+◌, ◌==◌, if◌then◌else◌, ◌≤◌, ◌≡◌, refl, ap, ◌∙◌, Bool, true, false, Option, none, some, List,
  [], ◌∷◌, ◌++◌, length, replicate, arith,
}
use net_math.Pool.{Task}
use net_math.Pool.Workers.{
  Place, Shared, turn, Pool, Step, Reachable, dequeue_shared, dequeue_place, count_place,
  signal_if_empty, down8,
}
use net_math.Pool.Workers.Counts.{is_alive, one, count, count-append, occurs, occurs-append}
use net_math.Pool.Workers.Invariant.{Reachable-IsConsistent, Reachable-length}
use net_math.Pool.Workers.Stays.{StaysAfter, turn-StaysAfter}
use net_math.Pool.Workers.Quiet.{is_starting, destroyed-all_gone}
use net_math.Pool.Waiting.{WaitPlace, wait_turn, count_found}
use net_math.Pool.Waiting.Laws.{is_settled}
use net_math.Pool.Lifetime.{Stage, owner_turn, Lifetime, LifeStep, LifeReachable}

-- Before the first access of `thpool_destroy`.
abbrev pub is_open : Stage → Bool
is_open Stage.alive_loop = false
is_open Stage.freed = false
is_open stage = true

-- After `thpool_init`.
abbrev pub is_ready : Stage → Bool
is_ready Stage.init_loop = false
is_ready stage = true

-- After the test of `thpool_wait` was passed.
abbrev pub is_drained : Stage → Bool
is_drained Stage.init_loop = false
is_drained Stage.accepting = false
is_drained (Stage.in_wait place) = is_settled place
is_drained stage = true

abbrev pub is_freed : Stage → Bool
is_freed Stage.freed = true
is_freed stage = false

pub record IsLife (n : ℕ) (l : Lifetime) : Type 0 where
  pub reached : Reachable n l.pool
  pub active : is_open l.stage ≡ true → l.pool.shared.thpool_active ≡ 1
  pub closed : is_open l.stage ≡ false → l.pool.shared.thpool_active ≡ 0
  pub started : is_ready l.stage ≡ true → count is_starting l.pool.places ≡ 0
  pub drained : is_drained l.stage ≡ true → l.pool.shared.queue ≡ []
  pub gone : is_freed l.stage ≡ true → count is_alive l.pool.places ≡ 0

-- What a worker leaves as it is.
KeepsAfter : Place → Shared → Option (Place × Shared) → Type 0
KeepsAfter p s none = Unit {0}
KeepsAfter p s (some (p', s')) =
    (one (is_starting p') ≤ one (is_starting p))
    × (one (is_alive p') ≤ one (is_alive p) + one (is_starting p))
    × (s.queue ≡ [] → s'.queue ≡ [])

after_signal : (tasks : List Task) (s : Shared) → (signal_if_empty tasks s).queue ≡ s.queue
after_signal [] s = refl
after_signal (task ∷ tasks) s = refl

dequeue-KeepsAfter :
    (tasks : List Task) (s : Shared)
    → tasks ≡ s.queue
    → KeepsAfter Place.dequeue s (some (dequeue_place tasks, dequeue_shared tasks s))
unfolding KeepsAfter
dequeue-KeepsAfter [] s e = (omega arith, omega arith, λ h. h)
dequeue-KeepsAfter (task ∷ tasks) s e =
    (omega arith, omega arith, λ h. absurd (ground (arith, e, h)))

count-KeepsAfter :
    (tasks : List Task) (s : Shared) → KeepsAfter Place.count_test s (some (count_place tasks, s))
unfolding KeepsAfter
count-KeepsAfter [] s = (omega arith, omega arith, λ h. h)
count-KeepsAfter (task ∷ tasks) s = (omega arith, omega arith, λ h. h)

turn-KeepsAfter : (p : Place) (s : Shared) → KeepsAfter p s (turn p s)
unfolding turn KeepsAfter
turn-KeepsAfter Place.last_count s = (omega arith, omega arith, λ h. after_signal s.queue s ∙ h)
turn-KeepsAfter Place.final_count s = (omega arith, omega arith, λ h. after_signal s.queue s ∙ h)
turn-KeepsAfter Place.dequeue s = dequeue-KeepsAfter s.queue s refl
turn-KeepsAfter Place.count_test s = count-KeepsAfter s.queue s
turn-KeepsAfter p s = ground arith

freed-ready : (stage : Stage) → is_freed stage ≡ true → is_ready stage ≡ true
freed-ready stage h = ground arith

works-IsLife :
    (n : ℕ) (s s' : Shared) (before : List Place) (p p' : Place) (after : List Place)
    (stage : Stage)
    → turn p s ≡ some (p', s')
    → IsLife n
        (record { pool = record { shared = s; places = before ++ p ∷ after }; stage = stage })
    → IsLife n
        (record { pool = record { shared = s'; places = before ++ p' ∷ after }; stage = stage })
unfolding KeepsAfter StaysAfter
works-IsLife n s s' before p p' after stage e h =
    let keeps : KeepsAfter p s (some (p', s')) = rw e at (turn-KeepsAfter p s) in
    let stays : StaysAfter p s (some (p', s')) = rw e at (turn-StaysAfter p s) in
    let old = count-append is_starting before p after in
    let new = count-append is_starting before p' after in
    record {
      reached = Reachable.goes_on _ _ h.reached (Step.works s s' before p p' after e);
      active = λ o. stays.0 ∙ h.active o;
      closed = λ o. stays.0 ∙ h.closed o;
      started = λ r. omega (arith, keeps.0, h.started r, old, new);
      drained = λ d. keeps.2 (h.drained d);
      gone = λ f. omega (
        arith,
        keeps.1,
        h.gone f,
        h.started (freed-ready stage f),
        old,
        count-append is_alive before p after,
        count-append is_alive before p' after,
      );
    }

alive-starting : (ps : List Place) → count is_alive ps + count is_starting ps ≤ length ps
alive-starting [] = omega arith
alive-starting (p ∷ ps) = ground (arith, alive-starting ps)

module _ (n : ℕ) (h : n ≤ 255) (pool : Pool) where
  abbrev At : Stage → Type 0
  At stage = IsLife n (record { pool = pool; stage = stage })

  init_loop-IsLife :
      (b : Bool)
      → (pool.shared.workers_alive == n) ≡ b
      → At Stage.init_loop
      → At (if b then Stage.accepting else Stage.init_loop)
  init_loop-IsLife false e l = l
  init_loop-IsLife true e l =
      let all : pool.shared.workers_alive ≡ n = ground (arith, e) in
      record {
        reached = l.reached;
        active = λ o. l.active refl;
        closed = λ o. absurd (ground arith);
        started = λ r. omega (
          arith,
          all,
          (Reachable-IsConsistent n pool h l.reached).alive,
          Reachable-length n pool l.reached,
          alive-starting pool.places,
        );
        drained = λ d. absurd (ground arith);
        gone = λ f. absurd (ground arith);
      }

  alive_loop-IsLife :
      (b : Bool)
      → (0 == pool.shared.workers_alive) ≡ b
      → At Stage.alive_loop
      → At (if b then Stage.freed else Stage.alive_loop)
  alive_loop-IsLife false e l = l
  alive_loop-IsLife true e l =
      let none_alive : pool.shared.workers_alive ≡ 0 = ground (arith, e) in
      record {
        reached = l.reached;
        active = λ o. absurd (ground arith);
        closed = λ o. l.closed refl;
        started = λ r. l.started refl;
        drained = λ d. l.drained refl;
        gone = λ f. omega (arith, none_alive, (Reachable-IsConsistent n pool h l.reached).alive);
      }

  in_wait-IsLife :
      (place place' : WaitPlace)
      → (is_settled place' ≡ true → pool.shared.queue ≡ [])
      → At (Stage.in_wait place)
      → At (Stage.in_wait place')
  in_wait-IsLife place place' drained l = record {
    reached = l.reached;
    active = λ o. l.active refl;
    closed = λ o. absurd (ground arith);
    started = λ r. l.started refl;
    drained = drained;
    gone = λ f. absurd (ground arith);
  }

  -- The test of `thpool_wait` is passed only with an empty queue.
  wait_turn-drained :
      (place : WaitPlace)
      → (is_settled place ≡ true → pool.shared.queue ≡ [])
      → is_settled (wait_turn place pool.shared) ≡ true
      → pool.shared.queue ≡ []
  unfolding wait_turn
  wait_turn-drained WaitPlace.load_count drained d = found pool.shared.queue d
    where
      found : (tasks : List Task) → is_settled (count_found tasks) ≡ true → tasks ≡ []
      found [] d = refl
      found (task ∷ tasks) d = absurd (ground arith)
  wait_turn-drained WaitPlace.wait_unlock drained d = drained refl
  wait_turn-drained WaitPlace.returned drained d = drained refl
  wait_turn-drained place drained d = absurd (ground arith)

owns-IsLife :
    (n : ℕ) (s : Shared) (places : List Place) (stage : Stage)
    → n ≤ 255
    → IsLife n (record { pool = record { shared = s; places = places }; stage = stage })
    → IsLife n (record {
      pool = record { shared = (owner_turn n stage s).1; places = places };
      stage = (owner_turn n stage s).0;
    })
unfolding owner_turn
owns-IsLife n s places Stage.init_loop h l = init_loop-IsLife n h _ _ refl l
owns-IsLife n s places Stage.accepting h l = record {
  reached = l.reached;
  active = λ o. l.active refl;
  closed = λ o. absurd (ground arith);
  started = λ r. l.started refl;
  drained = λ d. absurd (ground arith);
  gone = λ f. absurd (ground arith);
}
owns-IsLife n s places (Stage.in_wait WaitPlace.returned) h l = record {
  reached = l.reached;
  active = λ o. l.active refl;
  closed = λ o. absurd (ground arith);
  started = λ r. l.started refl;
  drained = λ d. l.drained refl;
  gone = λ f. absurd (ground arith);
}
owns-IsLife n s places (Stage.in_wait place) h l =
    in_wait-IsLife n h _ place (wait_turn place s)
      (wait_turn-drained n h (record { shared = s; places = places }) place l.drained) l
owns-IsLife n s places Stage.destroy_begin h l = record {
  reached = Reachable.goes_on _ _ l.reached (Step.stops s places (l.active refl));
  active = λ o. absurd (ground arith);
  closed = λ o. ap down8 (l.active refl);
  started = λ r. l.started refl;
  drained = λ d. l.drained refl;
  gone = λ f. absurd (ground arith);
}
owns-IsLife n s places Stage.alive_loop h l = alive_loop-IsLife n h _ _ refl l
owns-IsLife n s places Stage.freed h l = l

LifeStep-IsLife : (n : ℕ) (a b : Lifetime) → n ≤ 255 → LifeStep n a b → IsLife n a → IsLife n b
LifeStep-IsLife n _ _ h (LifeStep.works s s' before p p' after stage e) l =
    works-IsLife n s s' before p p' after stage e l
LifeStep-IsLife n _ _ h (LifeStep.accepts s places task) l = record {
  reached = Reachable.goes_on _ _ l.reached (Step.submits s places task);
  active = l.active;
  closed = l.closed;
  started = l.started;
  drained = λ d. absurd (ground arith);
  gone = λ f. absurd (ground arith);
}
LifeStep-IsLife n _ _ h (LifeStep.owns s places stage) l = owns-IsLife n s places stage h l

pub LifeReachable-IsLife : (n : ℕ) (l : Lifetime) → n ≤ 255 → LifeReachable n l → IsLife n l
LifeReachable-IsLife n _ h LifeReachable.begins = record {
  reached = Reachable.begins;
  active = λ o. refl;
  closed = λ o. absurd (ground arith);
  started = λ r. absurd (ground arith);
  drained = λ d. absurd (ground arith);
  gone = λ f. absurd (ground arith);
}
LifeReachable-IsLife n _ h (LifeReachable.goes_on a b r step) =
    LifeStep-IsLife n a b h step (LifeReachable-IsLife n a h r)

pub freed-drained :
    (n : ℕ) (l : Lifetime)
    → n ≤ 255
    → LifeReachable n l
    → l.stage ≡ Stage.freed
    → l.pool.shared.queue ≡ []
freed-drained n l h r at_end = (LifeReachable-IsLife n l h r).drained (ap is_drained at_end)

-- The thread that makes a pool of at most 255 threads waits in `thpool_init` until all are alive,
-- submits tasks, and then calls `thpool_wait` and `thpool_destroy`. However its accesses and those
-- of the workers interleave, when it comes to free the pool every worker has left `thread_pool`,
-- and each task was run to its end as often as it was submitted.
pub freed-finished :
    (thread_count : ℕ) (l : Lifetime)
    → thread_count ≤ 255
    → LifeReachable thread_count l
    → l.stage ≡ Stage.freed
    → (l.pool.places ≡ replicate thread_count Place.gone)
      × ((t : Task) → occurs t l.pool.shared.finished ≡ occurs t l.pool.shared.submitted)
freed-finished n l h r at_end =
    let life = LifeReachable-IsLife n l h r in
    let started = life.started (ap is_ready at_end) in
    let c = Reachable-IsConsistent n l.pool h life.reached in
    let (gone, finished) =
      destroyed-all_gone n l.pool h life.reached started
        (c.alive ∙ life.gone (ap is_freed at_end)) in
    let all : l.pool.shared.submitted ≡ l.pool.shared.taken ++ [] =
      c.jobs
      ∙ ap (λ (q : List Task). l.pool.shared.taken ++ q) (life.drained (ap is_drained at_end)) in
    (
      gone,
      λ t. omega (arith, finished t, ap (occurs t) all, occurs-append t l.pool.shared.taken []),
    )
