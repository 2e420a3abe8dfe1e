-- ===== src/Pool/Workers/Quiet.antt =====
-- When `thpool_destroy` of src/thread_pool/thread_pool.c may go on.
use net_math.Base.{
  ℕ, ◌≤◌, ◌≡◌, refl, ap, sym, ◌∙◌, Bool, true, false, List, [], ◌∷◌, length, replicate, arith,
}
use net_math.Pool.{Task}
use net_math.Pool.Workers.{Place, Pool, Reachable}
use net_math.Pool.Workers.Counts.{is_alive, is_running, occurs, count}
use net_math.Pool.Workers.Invariant.{Reachable-IsConsistent, Reachable-length, count-replicate}

abbrev pub is_starting : Place → Bool
is_starting Place.starting = true
is_starting p = false

all_gone :
    (ps : List Place)
    → count is_starting ps ≡ 0
    → count is_alive ps ≡ 0
    → ps ≡ replicate (length ps) Place.gone
all_gone [] hs ha = refl
all_gone (Place.gone ∷ ps) hs ha =
    ap (λ (l : List Place). Place.gone ∷ l) (all_gone ps (omega arith) (omega arith))
all_gone (p ∷ ps) hs ha = absurd (omega arith)

-- In a state that a pool of at most 255 threads reaches after each of its workers has started,
-- the counter `workers_alive` is 0 only if every worker has left `thread_pool`, so that
-- `thpool_destroy` frees nothing that a worker still uses; each task that was taken from the
-- queue was then run to its end as often as it was taken.
pub destroyed-all_gone :
    (thread_count : ℕ) (pool : Pool)
    → thread_count ≤ 255
    → Reachable thread_count pool
    → count is_starting pool.places ≡ 0
    → pool.shared.workers_alive ≡ 0
    → (pool.places ≡ replicate thread_count Place.gone)
      × ((t : Task) → occurs t pool.shared.finished ≡ occurs t pool.shared.taken)
destroyed-all_gone n pool h r started none_alive =
    let c = Reachable-IsConsistent n pool h r in
    let gone : pool.places ≡ replicate n Place.gone =
      all_gone pool.places started (sym c.alive ∙ none_alive)
      ∙ ap (λ (k : ℕ). replicate k Place.gone) (Reachable-length n pool r) in
    (
      gone,
      λ t.
          let idle : count (is_running t) pool.places ≡ 0 =
            ap (count (is_running t)) gone ∙ count-replicate (is_running t) Place.gone n refl in
          omega (arith, c.runs t, idle),
    )
