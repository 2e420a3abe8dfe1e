-- ===== src/Pool/Workers/Counts.antt =====
-- What one access of a worker of src/thread_pool/thread_pool.c does to the counters.
use net_math.Base.{
  ℕ, ◌+◌, ◌<◌, ◌≡◌, refl, ap, sym, ◌∙◌, Bool, true, false, Option, none, some, List, [], ◌∷◌, ◌++◌,
  ◌==◌, ◌&&◌, if◌then◌else◌, arith,
}
use mathlib.Core.List.{append_assoc}
use net_math.Pool.{Task}
use net_math.Pool.Workers.{
  Place, Shared, turn, count_place, signal_if_empty, dequeue_place, dequeue_shared,
}

abbrev pub is_alive : Place → Bool
is_alive Place.starting = false
is_alive Place.gone = false
is_alive p = true

abbrev pub is_working : Place → Bool
is_working Place.dequeue = true
is_working (Place.run_function task) = true
is_working Place.sub_working = true
is_working p = false

abbrev pub is_locking : Place → Bool
is_locking Place.count_test = true
is_locking Place.active_test = true
is_locking Place.unlock_run = true
is_locking p = false

abbrev pub same_task : Task → Task → Bool
same_task t u = t.function == u.function && t.arg == u.arg

abbrev pub is_running : Task → Place → Bool
is_running t (Place.run_function u) = same_task t u
is_running t p = false

abbrev pub one : Bool → ℕ
one b = if b then 1 else 0

-- How often a task stands in a list.
abbrev pub occurs : Task → List Task → ℕ
occurs t [] = 0
occurs t (u ∷ us) = one (same_task t u) + occurs t us

pub occurs-append : (t : Task) (us vs : List Task) → occurs t (us ++ vs) ≡ occurs t us + occurs t vs
occurs-append t [] vs = ground arith
occurs-append t (u ∷ us) vs = ground (arith, occurs-append t us vs)

abbrev pub count : {A : Type 0} → (A → Bool) → List A → ℕ
count f [] = 0
count f (p ∷ ps) = one (f p) + count f ps

pub count-append :
    {A : Type 0} (f : A → Bool) (before : List A) (p : A) (after : List A)
    → count f (before ++ p ∷ after) ≡ count f before + count f after + one (f p)
count-append f [] p after = ground arith
count-append f (q ∷ before) p after = ground (arith, count-append f before p after)

-- The counters agree with the places, of which the others count `a`, `w`, `l` and `r`.
pub record Agrees (a w l : ℕ) (r : Task → ℕ) (p : Place) (s : Shared) : Type 0 where
  pub alive : s.workers_alive ≡ a + one (is_alive p)
  pub working : s.workers_working ≡ w + one (is_working p)
  pub lock : one s.locked ≡ l + one (is_locking p)
  pub jobs : s.submitted ≡ s.taken ++ s.queue
  pub runs : (t : Task) → occurs t s.taken ≡ occurs t s.finished + r t + one (is_running t p)

abbrev pub AgreesAfter : (a w l : ℕ) (r : Task → ℕ) → Option (Place × Shared) → Type 0
AgreesAfter a w l r none = Unit {0}
AgreesAfter a w l r (some (p, s)) = Agrees a w l r p s

module _ (a w l : ℕ) (r : Task → ℕ) (ha : a < 255) (hw : w < 255) where
  same :
      (p q : Place) (s : Shared)
      → is_alive p ≡ is_alive q
      → is_working p ≡ is_working q
      → is_locking p ≡ is_locking q
      → ((t : Task) → is_running t p ≡ is_running t q)
      → Agrees a w l r p s
      → Agrees a w l r q s
  same p q s ea ew el er h = record {
    alive = ground (arith, ea, h.alive);
    working = ground (arith, ew, h.working);
    lock = ground (arith, el, h.lock);
    jobs = h.jobs;
    runs = λ t. ground (arith, er t, h.runs t);
  }

  either_place :
      (b : Bool) (p q : Place) (s : Shared)
      → Agrees a w l r p s
      → Agrees a w l r q s
      → Agrees a w l r (if b then p else q) s
  either_place true p q s hp hq = hp
  either_place false p q s hp hq = hq

  after_lock :
      (b : Bool) (p : Place) (s : Shared)
      → is_alive p ≡ true
      → is_working p ≡ false
      → is_locking p ≡ false
      → ((t : Task) → is_running t p ≡ false)
      → b ≡ s.locked
      → Agrees a w l r p s
      → AgreesAfter a w l r
          (if b then none else some (Place.count_test, record s { locked = true }))
  after_lock true p s ea ew el er e h = tt
  after_lock false p s ea ew el er e h = record {
    alive = ground (arith, ea, h.alive);
    working = ground (arith, ew, h.working);
    lock = ground (arith, el, e, h.lock);
    jobs = h.jobs;
    runs = λ t. ground (arith, er t, h.runs t);
  }

  before_wait :
      (b : Bool) (s : Shared)
      → Agrees a w l r Place.active_test s
      → AgreesAfter a w l r (
          if b
          then some (Place.waiting, record s { locked = false })
          else some (Place.unlock_run, s))
  before_wait true s h = record {
    alive = h.alive;
    working = h.working;
    lock = ground (arith, h.lock);
    jobs = h.jobs;
    runs = h.runs;
  }
  before_wait false s h = same Place.active_test Place.unlock_run s refl refl refl (λ t. refl) h

  after_count :
      (tasks : List Task) (s : Shared)
      → Agrees a w l r Place.count_test s
      → Agrees a w l r (count_place tasks) s
  after_count [] s h = same Place.count_test Place.active_test s refl refl refl (λ t. refl) h
  after_count (task ∷ tasks) s h =
      same Place.count_test Place.unlock_run s refl refl refl (λ t. refl) h

  after_signal :
      (tasks : List Task) (p : Place) (s : Shared)
      → Agrees a w l r p s
      → Agrees a w l r p (signal_if_empty tasks s)
  after_signal [] p s h = record {
    alive = h.alive;
    working = h.working;
    lock = h.lock;
    jobs = h.jobs;
    runs = h.runs;
  }
  after_signal (task ∷ tasks) p s h = h

  after_dequeue :
      (tasks : List Task) (s : Shared)
      → s.queue ≡ tasks
      → Agrees a w l r Place.dequeue s
      → Agrees a w l r (dequeue_place tasks) (dequeue_shared tasks s)
  after_dequeue [] s e h = same Place.dequeue Place.sub_working s refl refl refl (λ t. refl) h
  after_dequeue (task ∷ tasks) s e h = record {
    alive = h.alive;
    working = h.working;
    lock = h.lock;
    jobs =
        h.jobs
        ∙ ap (λ (q : List Task). s.taken ++ q) e
        ∙ sym (append_assoc s.taken (task ∷ []) tasks);
    runs = λ t. ground (arith, occurs-append t s.taken (task ∷ []), h.runs t);
  }

  pub turn-Agrees : (p : Place) (s : Shared) → Agrees a w l r p s → AgreesAfter a w l r (turn p s)
  unfolding turn
  turn-Agrees Place.starting s h = record {
    alive = omega (arith, h.alive);
    working = h.working;
    lock = h.lock;
    jobs = h.jobs;
    runs = h.runs;
  }
  turn-Agrees Place.loop_test s h =
      either_place (s.thpool_active == 1) Place.lock_run Place.sub_alive s
        (same Place.loop_test Place.lock_run s refl refl refl (λ t. refl) h)
        (same Place.loop_test Place.sub_alive s refl refl refl (λ t. refl) h)
  turn-Agrees Place.lock_run s h =
      after_lock s.locked Place.lock_run s refl refl refl (λ t. refl) refl h
  turn-Agrees Place.count_test s h = after_count s.queue s h
  turn-Agrees Place.active_test s h = before_wait (s.thpool_active == 1) s h
  turn-Agrees Place.waiting s h = same Place.waiting Place.lock_again s refl refl refl (λ t. refl) h
  turn-Agrees Place.lock_again s h =
      after_lock s.locked Place.lock_again s refl refl refl (λ t. refl) refl h
  turn-Agrees Place.unlock_run s h = record {
    alive = h.alive;
    working = h.working;
    lock = ground (arith, h.lock);
    jobs = h.jobs;
    runs = h.runs;
  }
  turn-Agrees Place.active_again s h =
      either_place (s.thpool_active == 0) Place.last_count Place.add_working s
        (same Place.active_again Place.last_count s refl refl refl (λ t. refl) h)
        (same Place.active_again Place.add_working s refl refl refl (λ t. refl) h)
  turn-Agrees Place.last_count s h =
      after_signal s.queue Place.sub_alive s
        (same Place.last_count Place.sub_alive s refl refl refl (λ t. refl) h)
  turn-Agrees Place.add_working s h = record {
    alive = h.alive;
    working = omega (arith, h.working);
    lock = h.lock;
    jobs = h.jobs;
    runs = h.runs;
  }
  turn-Agrees Place.dequeue s h = after_dequeue s.queue s refl h
  turn-Agrees (Place.run_function task) s h = record {
    alive = h.alive;
    working = h.working;
    lock = h.lock;
    jobs = h.jobs;
    runs = λ t. ground (arith, occurs-append t s.finished (task ∷ []), h.runs t);
  }
  turn-Agrees Place.sub_working s h = record {
    alive = h.alive;
    working = omega (arith, h.working);
    lock = h.lock;
    jobs = h.jobs;
    runs = h.runs;
  }
  turn-Agrees Place.final_count s h =
      after_signal s.queue Place.loop_test s
        (same Place.final_count Place.loop_test s refl refl refl (λ t. refl) h)
  turn-Agrees Place.sub_alive s h = record {
    alive = omega (arith, h.alive);
    working = h.working;
    lock = h.lock;
    jobs = h.jobs;
    runs = h.runs;
  }
  turn-Agrees Place.gone s h = tt
