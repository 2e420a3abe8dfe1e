-- ===== src/Service/Laws.antt =====
-- What the server has done when it frees the pool.
use net_math.Base.{ℕ, ◌+◌, ◌*◌, ◌≤◌, ◌≡◌, refl, ap, ◌∙◌, some, map, arith}
use net_math.Io.{World}
use net_math.Header.{Host, IsLittleEndian}
use net_math.Pool.{Task}
use net_math.Pool.Workers.{Place}
use net_math.Pool.Lifetime.{Stage}
use net_math.Pool.Workers.Counts.{occurs}
use net_math.Pool.Lifetime.Laws.{freed-finished, freed-drained}
use net_math.Service.{Service, ServiceReachable}
use net_math.Service.Balance.{total, held, held-replicate}
use net_math.Service.Effect.{IsPeer, each, short, answer}
use net_math.Service.Served.{same_process, ServiceReachable-IsServed}

-- On a little-endian host, with memory in every session, if no name is without a zero byte and no
-- reply is written to a peer that hung up: however the accept loop, at most 255 workers and the end of the server
-- interleave, when the pool is freed each connection that was handed to it has had one session.
-- That sent nothing to a header of size 48 with a name length of at most 24, or to less than a
-- header, and any other header, as far as the peer took it, with its size and its total as they
-- came, a name length of 0, and the first 24 bytes of its name cleared. Of the sockets and blocks of the connections only those
-- are left for which `thpool_enqueue_job` failed, and two blocks for each connection that was
-- handed over and on which fewer than 48 bytes came.
pub freed-served :
    (host : Host) (peers : (arg : ℕ) → World) (thread_count pointer live open_sockets : ℕ)
    (x : Service)
    → IsLittleEndian host
    → ((arg : ℕ) → IsPeer host (peers arg))
    → thread_count ≤ 255
    → ServiceReachable host peers thread_count pointer live open_sockets x
    → x.life.stage ≡ Stage.freed
    → (x.process
        ≡ some (record {
          live = live + x.lost + 2 * total (short host peers) x.life.pool.shared.submitted;
          open_sockets = open_sockets + x.lost;
          replies = map (answer host peers) x.life.pool.shared.finished;
        }))
      × ((t : Task) → occurs t x.life.pool.shared.finished ≡ occurs t x.life.pool.shared.submitted)
      × ((t : Task) → occurs t x.life.pool.shared.submitted ≤ 1)
freed-served host peers n pointer live sockets x order fine few r at_end =
    let h = ServiceReachable-IsServed host peers order fine n pointer live sockets x r in
    let (gone, finished) = freed-finished n x.life few h.reached at_end in
    let empty = freed-drained n x.life few h.reached at_end in
    let idle = λ (f : Task → ℕ). ap (held f) gone ∙ held-replicate f Place.gone n refl in
    let idle_queue = λ (f : Task → ℕ). ap (total f) empty in
    (
      h.process
          ∙ same_process
              (omega (
                arith,
                h.balance,
                idle each,
                idle (short host peers),
                idle_queue each,
                idle_queue (short host peers),
              ))
              (omega (arith, idle each, idle_queue each)) refl,
      finished,
      h.once,
    )
