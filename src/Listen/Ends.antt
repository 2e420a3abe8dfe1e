-- ===== src/Listen/Ends.antt =====
-- What `start_server` of src/server/server_backend.c leaves open, whatever the system answers.
use net_math.Base.{
  ℕ, ◌≡◌, refl, ap, ◌∙◌, Bool, true, false, Bool-cases, inl, inr, Option, none, some, List, ◌∷◌,
  if◌then◌else◌, arith,
}
use net_math.Pool.{Memory}
use net_math.Pool.Setup.{
  returns, Resources, Run, done, waits, fault, Action, Thpool, then_run, thpool_init, thpool_wait,
  thpool_destroy,
}
use net_math.Listen.{
  AddrRecord, Answers, Server, close_fd, server_listen, serve_rounds, after_loop, with_pool,
  with_socket, start_server,
}
use net_math.Listen.Laws.{chosen, listen_result, close_fd-head, server_listen-chosen}
use net_math.Listen.Kept.{IsKept, IsKept-trans, RoundsKeep, serve_rounds-RoundsKeep}

-- The sockets with the one that `bind` succeeded on.
abbrev with_bound : Option ℕ → List ℕ → List ℕ
with_bound none sockets = sockets
with_bound (some fd) sockets = fd ∷ sockets

-- The sockets that are open in the end: a failed `listen` leaves the one that was bound.
abbrev pub left_listening : Option (List AddrRecord) → (listen_ok : Bool) → List ℕ → List ℕ
left_listening none listen_ok sockets = sockets
left_listening (some records) listen_ok sockets =
    if listen_ok then sockets else with_bound (chosen records) sockets

abbrev Ended : (sockets : List ℕ) → Server → Run Server → Type 0
Ended sockets s (done after r) = (after.sockets ≡ sockets) × IsKept s after
Ended sockets s waits = Unit {0}
Ended sockets s fault = Unit {0}

then_run-Ended :
    {A : Type 0} (sockets : List ℕ) (s : Server) (run : Run A) (f : A → Action Server)
    → ((x : A) (r : Resources) → Ended sockets s (f x r))
    → Ended sockets s (then_run run f)
then_run-Ended sockets s (done x r) f h = h x r
then_run-Ended sockets s waits f h = tt
then_run-Ended sockets s fault f h = tt

destroyed-Ended :
    (sockets : List ℕ) (s last : Server) (run : Run Memory)
    → last.sockets ≡ sockets
    → IsKept s last
    → Ended sockets s (then_run run (λ memory. returns last))
destroyed-Ended sockets s last run e k =
    then_run-Ended sockets s run (λ memory. returns last) (λ memory r. (e, k))

after_loop-Ended :
    (a : Answers) (fd : ℕ) (pool : Thpool) (s : Server) (sockets : List ℕ) (r : Resources)
    (o : Option Server)
    → s.sockets ≡ fd ∷ sockets
    → RoundsKeep s o
    → Ended sockets s (after_loop a fd pool o r)
after_loop-Ended a fd pool s sockets r none e k = tt
after_loop-Ended a fd pool s sockets r (some after) e k =
    let last = record after { sockets = close_fd fd after.sockets } in
    then_run-Ended sockets s (thpool_wait a.wait_loads r) _ λ u r₁.
      destroyed-Ended sockets s last
        (thpool_destroy a.pool.last_loads (record pool { work_queue = some a.last_queue }) r₁)
        (ap (close_fd fd) (k.0 ∙ e) ∙ close_fd-head fd sockets)
        (record { blocks = k.1.blocks; clients = k.1.clients })

moved :
    (s t : Server) (sockets : List ℕ) (run : Run Server)
    → IsKept s t
    → Ended sockets t run
    → Ended sockets s run
moved s t sockets (done after r) h k = (k.0, IsKept-trans s t after h k.1)
moved s t sockets waits h k = tt
moved s t sockets fault h k = tt

with_pool-Ended :
    (a : Answers) (fd : ℕ) (s : Server) (r : Resources) (o : Option Thpool)
    → Ended s.sockets s (with_pool a fd (record s { sockets = fd ∷ s.sockets }) o r)
with_pool-Ended a fd s r none =
    (close_fd-head fd s.sockets, record { blocks = omega arith; clients = λ x. omega arith })
with_pool-Ended a fd s r (some pool) =
    let closed = close_fd-head fd s.sockets in
    let last = record s { sockets = close_fd fd (fd ∷ s.sockets) } in
    let running = record s { sockets = fd ∷ s.sockets; server_run = true } in
    elim (Bool-cases a.sigaction_ok) [
      | inr failed ↦ rw failed (
          destroyed-Ended s.sockets s last (thpool_destroy a.pool.last_loads pool r) closed
            (record { blocks = omega arith; clients = λ x. omega arith }))
      | inl ok ↦ rw ok (
          moved s running s.sockets (after_loop a fd pool (serve_rounds a.rounds running) r)
            (record { blocks = omega arith; clients = λ x. omega arith })
            (after_loop-Ended a fd pool running s.sockets r (serve_rounds a.rounds running) refl
              (serve_rounds-RoundsKeep a.rounds running)))
    ]

with_socket-Ended :
    (n : ℕ) (a : Answers) (s : Server) (r : Resources) (o : Option ℕ) (ok : Bool)
    → Ended
        (if ok then s.sockets else with_bound o s.sockets)
        s
        (with_socket n a s (listen_result o ok s.sockets) r)
with_socket-Ended n a s r none true =
    (refl, record { blocks = omega arith; clients = λ x. omega arith })
with_socket-Ended n a s r none false =
    (refl, record { blocks = omega arith; clients = λ x. omega arith })
with_socket-Ended n a s r (some fd) false =
    (refl, record { blocks = omega arith; clients = λ x. omega arith })
with_socket-Ended n a s r (some fd) true =
    then_run-Ended s.sockets s (thpool_init a.pool n r)
      (with_pool a fd (record s { sockets = fd ∷ s.sockets }))
      (λ pool r₁. with_pool-Ended a fd s r₁ pool)

listened-Ended :
    (n : ℕ) (a : Answers) (s : Server) (r : Resources) (records : Option (List AddrRecord))
    → Ended
        (left_listening records a.listen_ok s.sockets)
        s
        (with_socket n a s (server_listen records a.listen_ok s.sockets) r)
unfolding server_listen
listened-Ended n a s r none = (refl, record { blocks = omega arith; clients = λ x. omega arith })
listened-Ended n a s r (some records) =
    rw (server_listen-chosen records a.listen_ok s.sockets)
      (with_socket-Ended n a s r (chosen records) a.listen_ok)

-- Whatever the system answers, once `start_server` returns: its socket is closed, unless `bind`
-- succeeded and `listen` failed; then it is left open. It has allocated as many blocks as it
-- left clients open, and has closed no client that it handed to the thread pool.
pub start_server-IsKept :
    (thread_count port_num : ℕ) (a : Answers) (s after : Server) (r r' : Resources)
    → start_server thread_count port_num a s r ≡ done after r'
    → (after.sockets ≡ left_listening (a.records port_num) a.listen_ok s.sockets) × IsKept s after
unfolding start_server
start_server-IsKept n port a s after r r' e = rw e at (listened-Ended n a s r (a.records port))
