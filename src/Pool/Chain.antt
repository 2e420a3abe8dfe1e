-- ===== src/Pool/Chain.antt =====
-- The linked list of the jobs of src/thread_pool/thread_pool.c in memory.
use net_math.Base.{ℕ, ◌≡◌, ◌≢◌, sym, ap, ◌∙◌, Option, none, some, List, [], ◌∷◌, ◌++◌, arith, refl}
use net_math.Pool.{Job, Memory, load, store, Task}

-- A job of the queue with the address of its block.
pub record Entry : Type 0 where
  pub address : ℕ
  pub task : Task

abbrev pub IsAway : ℕ → List Entry → Type 0
IsAway a [] = Unit {0}
IsAway a (e ∷ es) = (a ≢ e.address) × IsAway a es

abbrev pub node : Entry → ℕ → Job
node e next = record { next_job = next; job_function = e.task.function; job_arg = e.task.arg }

-- The blocks of the entries, linked from `p` on.
abbrev pub IsChain : Memory → ℕ → List Entry → Type 0
IsChain memory p [] = p ≡ 0
IsChain memory p (e ∷ es) =
    (p ≡ e.address)
    × (p ≢ 0)
    × IsAway e.address es
    × (next : ℕ) × (memory e.address ≡ some (node e next))
    × IsChain memory next es

abbrev pub last_address : List Entry → ℕ
last_address [] = 0
last_address (e ∷ []) = e.address
last_address (e ∷ e' ∷ es) = last_address (e' ∷ es)

pub store-same : (memory : Memory) (a : ℕ) (job : Option Job) → store memory a job a ≡ job
store-same memory a job = ground arith

pub store-other :
    (memory : Memory) (a : ℕ) (job : Option Job) (b : ℕ) → b ≢ a → store memory a job b ≡ memory b
store-other memory a job b apart = ground arith

-- A change elsewhere leaves the list alone.
pub IsChain-store :
    (memory : Memory) (p a : ℕ) (job : Option Job) (es : List Entry)
    → IsAway a es
    → IsChain memory p es
    → IsChain (store memory a job) p es
IsChain-store memory p a job [] away h = h
IsChain-store memory p a job (e ∷ es) (apart, away) (at, nonnull, apart_es, next, here, rest) =
    (at, nonnull, apart_es, next, ground arith, IsChain-store memory next a job es away rest)

-- An address that is not allocated is not that of an entry.
pub IsAway-free :
    (memory : Memory) (p a : ℕ) (es : List Entry)
    → IsChain memory p es
    → memory a ≡ none
    → IsAway a es
IsAway-free memory p a [] h free = tt
IsAway-free memory p a (e ∷ es) (at, nonnull, apart, next, here, rest) free =
    (λ same. ground (arith, ap memory same), IsAway-free memory next a es rest free)

pub IsAway-append :
    (a : ℕ) (es : List Entry) (l : Entry) → IsAway a es → a ≢ l.address → IsAway a (es ++ l ∷ [])
IsAway-append a [] l away apart = (apart, tt)
IsAway-append a (e ∷ es) l (first, away) apart = (first, IsAway-append a es l away apart)

pub IsAway-append_parts :
    (a : ℕ) (es : List Entry) (l : Entry) → IsAway a (es ++ l ∷ []) → IsAway a es × (a ≢ l.address)
IsAway-append_parts a [] l away = (tt, away.0)
IsAway-append_parts a (e ∷ es) l away =
    let (old, apart) = IsAway-append_parts a es l away.1 in ((away.0, old), apart)

pub last_address-IsAway :
    (a : ℕ) (e : Entry) (es : List Entry) → IsAway a (e ∷ es) → a ≢ last_address (e ∷ es)
last_address-IsAway a e [] away = away.0
last_address-IsAway a e (e' ∷ es) away = last_address-IsAway a e' es away.1

pub load_nonnull :
    (memory : Memory) (p : ℕ) (job : Job) → p ≢ 0 → memory p ≡ some job → load memory p ≡ some job
load_nonnull memory p job h e = ground arith

-- The last entry is linked to a new one.
pub IsChain-link :
    (memory : Memory) (p : ℕ) (e : Entry) (es : List Entry) (l : Entry)
    → IsChain memory p (e ∷ es)
    → memory l.address ≡ some (node l 0)
    → l.address ≢ 0
    → IsAway l.address (e ∷ es)
    → (last : Job) × (load memory (last_address (e ∷ es)) ≡ some last)
      × IsChain
          (store memory (last_address (e ∷ es)) (some (record last { next_job = l.address })))
          p
          (e ∷ es ++ l ∷ [])
IsChain-link memory p e [] l (at, nonnull, apart, next, here, rest) new nonnull_l away = (
  node e next,
  load_nonnull memory e.address (node e next) (λ z. nonnull (at ∙ z)) here,
  (
    at,
    nonnull,
    ((λ same. away.0 (sym same)), tt),
    l.address,
    store-same memory e.address _,
    (refl, nonnull_l, tt, 0, store-other memory e.address _ l.address away.0 ∙ new, refl),
  ),
)
IsChain-link memory p e (e' ∷ es) l (at, nonnull, apart, next, here, rest) new nonnull_l away =
    let (last, loaded, linked) = IsChain-link memory next e' es l rest new nonnull_l away.1 in
    (
      last,
      loaded,
      (
        at,
        nonnull,
        IsAway-append e.address (e' ∷ es) l apart (λ same. away.0 (sym same)),
        next,
        store-other memory (last_address (e' ∷ es)) _ e.address (last_address-IsAway _ e' es apart)
            ∙ here,
        linked,
      ),
    )
