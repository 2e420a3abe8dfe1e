-- ===== src/Pool/Workers/Invariant.antt =====
-- Every state that the pool of src/thread_pool/thread_pool.c reaches.
use mathlib.Core.List.{append_assoc}
use net_math.Base.{
  ℕ, zero, suc, ◌+◌, ◌<◌, ◌≤◌, ◌≡◌, refl, ap, sym, ◌∙◌, Bool, false, List, [], ◌∷◌, ◌++◌, length,
  replicate, arith,
}
use net_math.Pool.{Task}
use net_math.Pool.Workers.{Place, Shared, Pool, initial, Step, Reachable}
use net_math.Pool.Workers.Counts.{
  is_alive, is_working, is_locking, is_running, one, occurs, count, count-append, Agrees,
  turn-Agrees,
}

-- The counters count the workers, at most one of which holds `run_mutex`, and every task that was
-- submitted is in the queue, run by a worker or finished.
pub record IsConsistent (pool : Pool) : Type 0 where
  pub alive : pool.shared.workers_alive ≡ count is_alive pool.places
  pub working : pool.shared.workers_working ≡ count is_working pool.places
  pub lock : one pool.shared.locked ≡ count is_locking pool.places
  pub jobs : pool.shared.submitted ≡ pool.shared.taken ++ pool.shared.queue
  pub runs :
      (t : Task)
      → occurs t pool.shared.taken
        ≡ occurs t pool.shared.finished + count (is_running t) pool.places
  pub size : length pool.places ≤ 255

count-length :
    (f : Place → Bool) (before : List Place) (p : Place) (after : List Place)
    → count f before + count f after < length (before ++ p ∷ after)
count-length f [] p [] = omega arith
count-length f [] p (q ∷ after) = ground (arith, count-length f [] q after)
count-length f (q ∷ before) p after = ground (arith, count-length f before p after)

length-replace :
    (before : List Place) (p q : Place) (after : List Place)
    → length (before ++ p ∷ after) ≡ length (before ++ q ∷ after)
length-replace [] p q after = refl
length-replace (r ∷ before) p q after = rw (length-replace before p q after)

pub count-replicate :
    {A : Type 0} (f : A → Bool) (p : A) (n : ℕ) → f p ≡ false → count f (replicate n p) ≡ 0
count-replicate f p zero e = refl
count-replicate f p (suc n) e = ground (arith, e, count-replicate f p n e)

length-replicate : (p : Place) (n : ℕ) → length (replicate n p) ≡ n
length-replicate p zero = refl
length-replicate p (suc n) = rw (length-replicate p n)

initial-IsConsistent : (n : ℕ) → n ≤ 255 → IsConsistent (initial n)
initial-IsConsistent n h = record {
  alive = sym (count-replicate is_alive Place.starting n refl);
  working = sym (count-replicate is_working Place.starting n refl);
  lock = sym (count-replicate is_locking Place.starting n refl);
  jobs = refl;
  runs = λ t. omega (arith, count-replicate (is_running t) Place.starting n refl);
  size = rw (length-replicate Place.starting n) h;
}

-- The places apart from one, and that one.
module _ (s : Shared) (before : List Place) (p : Place) (after : List Place) where
  abbrev others : (Place → Bool) → ℕ
  others f = count f before + count f after

  abbrev AgreesHere : Type 0
  AgreesHere =
      Agrees (others is_alive) (others is_working) (others is_locking) (λ t. others (is_running t))
        p s

  IsConsistent-Agrees :
      IsConsistent (record { shared = s; places = before ++ p ∷ after }) → AgreesHere
  IsConsistent-Agrees h = record {
    alive = h.alive ∙ count-append is_alive before p after;
    working = h.working ∙ count-append is_working before p after;
    lock = h.lock ∙ count-append is_locking before p after;
    jobs = h.jobs;
    runs = λ t. omega (arith, h.runs t, count-append (is_running t) before p after);
  }

  Agrees-IsConsistent :
      length (before ++ p ∷ after) ≤ 255
      → AgreesHere
      → IsConsistent (record { shared = s; places = before ++ p ∷ after })
  Agrees-IsConsistent size h = record {
    alive = h.alive ∙ sym (count-append is_alive before p after);
    working = h.working ∙ sym (count-append is_working before p after);
    lock = h.lock ∙ sym (count-append is_locking before p after);
    jobs = h.jobs;
    runs = λ t. omega (arith, h.runs t, count-append (is_running t) before p after);
    size = size;
  }

pub Step-IsConsistent : (a b : Pool) → Step a b → IsConsistent a → IsConsistent b
Step-IsConsistent _ _ (Step.works s s' before p p' after e) h =
    Agrees-IsConsistent s' before p' after (omega (arith, h.size, length-replace before p p' after))
      (rw e at (
        turn-Agrees (others s before p after is_alive) (others s before p after is_working)
          (others s before p after is_locking) (λ t. others s before p after (is_running t))
          (omega (arith, h.size, count-length is_alive before p after))
          (omega (arith, h.size, count-length is_working before p after)) p s
          (IsConsistent-Agrees s before p after h)))
Step-IsConsistent _ _ (Step.submits s places task) h = record {
  alive = h.alive;
  working = h.working;
  lock = h.lock;
  jobs = ap (λ (l : List Task). l ++ task ∷ []) h.jobs ∙ append_assoc s.taken s.queue (task ∷ []);
  runs = h.runs;
  size = h.size;
}
Step-IsConsistent _ _ (Step.stops s places e) h = record {
  alive = h.alive;
  working = h.working;
  lock = h.lock;
  jobs = h.jobs;
  runs = h.runs;
  size = h.size;
}

-- In every state that a pool of at most 255 threads reaches, by any interleaving of its workers
-- with calls that submit tasks and one that stops the pool: the two counters, which wrap at 256,
-- are the numbers of workers that are alive and at work; `run_mutex` is locked exactly if one
-- worker holds it, and no two hold it; the tasks taken so far and those in the queue are the tasks
-- submitted, in order; and each taken task was run to its end once or is run by one worker.
pub Reachable-IsConsistent :
    (thread_count : ℕ) (pool : Pool)
    → thread_count ≤ 255
    → Reachable thread_count pool
    → IsConsistent pool
Reachable-IsConsistent n _ h Reachable.begins = initial-IsConsistent n h
Reachable-IsConsistent n _ h (Reachable.goes_on a b r step) =
    Step-IsConsistent a b step (Reachable-IsConsistent n a h r)

Step-length : (a b : Pool) → Step a b → length b.places ≡ length a.places
Step-length _ _ (Step.works s s' before p p' after e) = length-replace before p' p after
Step-length _ _ (Step.submits s places task) = refl
Step-length _ _ (Step.stops s places e) = refl

pub Reachable-length :
    (thread_count : ℕ) (pool : Pool)
    → Reachable thread_count pool
    → length pool.places ≡ thread_count
Reachable-length n _ Reachable.begins = length-replicate Place.starting n
Reachable-length n _ (Reachable.goes_on a b r step) = Step-length a b step ∙ Reachable-length n a r
