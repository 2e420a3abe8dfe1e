-- ===== src/Listen/Kept.antt =====
-- What the accept loop of src/server/server_backend.c does to the clients, whatever the system
-- answers.
use net_math.Base.{
  ℕ, suc, ◌+◌, ◌≤◌, ◌≡◌, refl, ap, ◌∙◌, Bool, true, false, ◌&&◌, Bool-cases, inl, inr, Option, none,
  some, List, [], ◌∷◌, ◌++◌, ◌==◌, if◌then◌else◌, length, length-append, arith,
}
use net_math.Listen.{Round, Server, accept_one, signal_handler, at_test, serve_rounds}
use net_math.Listen.Laws.{IsRound, accept_one-IsRound, deliver, kept}

-- How often a descriptor stands in a list.
abbrev pub count_fd : ℕ → List ℕ → ℕ
count_fd fd [] = 0
count_fd fd (x ∷ xs) = if x == fd then suc (count_fd fd xs) else count_fd fd xs

count_fd-append :
    (fd : ℕ) (xs ys : List ℕ) → count_fd fd (xs ++ ys) ≡ count_fd fd xs + count_fd fd ys
count_fd-append fd [] ys = omega arith
count_fd-append fd (x ∷ xs) ys = ground (arith, count_fd-append fd xs ys)

-- As many blocks were allocated as clients were left open, and no client that was handed over was
-- closed.
pub record IsKept (s after : Server) : Type 0 where
  pub blocks : after.blocks + length s.clients ≡ s.blocks + length after.clients
  pub clients :
      (fd : ℕ)
      → count_fd fd after.queued + count_fd fd s.clients
        ≤ count_fd fd s.queued + count_fd fd after.clients

pub IsKept-trans : (a b c : Server) → IsKept a b → IsKept b c → IsKept a c
IsKept-trans a b c h k = record {
  blocks = omega (arith, h.blocks, k.blocks);
  clients = λ fd. omega (arith, h.clients fd, k.clients fd);
}

count-deliver :
    (fd : ℕ) (o : Option ℕ) (malloc_ok enqueue_ok : Bool)
    → count_fd fd (deliver o (malloc_ok && enqueue_ok)) ≤ count_fd fd (kept o malloc_ok)
count-deliver fd none m e = omega arith
count-deliver fd (some x) true true = omega arith
count-deliver fd (some x) true false = omega arith
count-deliver fd (some x) false e = omega arith

IsRound-IsKept : (r : Round) (s after : Server) → IsRound r s after → IsKept s after
IsRound-IsKept r s after h = record {
  blocks =
      omega (
        arith,
        h.blocks,
        ap length h.clients,
        length-append (kept r.accepted r.malloc_ok) s.clients,
      );
  clients = λ fd. omega (
    arith,
    ap (count_fd fd) h.queue,
    ap (count_fd fd) h.clients,
    count_fd-append fd s.queued (deliver r.accepted (r.malloc_ok && r.enqueue_ok)),
    count_fd-append fd (kept r.accepted r.malloc_ok) s.clients,
    count-deliver fd r.accepted r.malloc_ok r.enqueue_ok,
  );
}

abbrev pub RoundsKeep : Server → Option Server → Type 0
RoundsKeep s none = Unit {0}
RoundsKeep s (some after) = (after.sockets ≡ s.sockets) × IsKept s after

later-RoundsKeep :
    (s t : Server) (o : Option Server)
    → t.sockets ≡ s.sockets
    → IsKept s t
    → RoundsKeep t o
    → RoundsKeep s o
later-RoundsKeep s t none e h k = tt
later-RoundsKeep s t (some after) e h k = (k.0 ∙ e, IsKept-trans s t after h k.1)

-- The test of the loop touches only the flag.
flagged :
    (signalled : Bool) (s : Server)
    → record (if signalled then signal_handler s else s) { server_run = true }
      ≡ record s { server_run = true }
flagged true s = refl
flagged false s = refl

same-IsKept : (s : Server) (flag : Bool) → IsKept s (record s { server_run = flag })
same-IsKept s flag = record { blocks = omega arith; clients = λ fd. omega arith }

pub serve_rounds-RoundsKeep : (rs : List Round) (s : Server) → RoundsKeep s (serve_rounds rs s)
unfolding serve_rounds
serve_rounds-RoundsKeep [] s = tt
serve_rounds-RoundsKeep (r ∷ rs) s =
    let here = record s { server_run = true } in
    let law = accept_one-IsRound r here in
    let next = accept_one r here in
    let kept_here =
      IsKept-trans s here next (same-IsKept s true) (IsRound-IsKept r here next law) in
    elim (Bool-cases (at_test r s).server_run) [
      | inr stops ↦
          rw (stops, flagged r.signalled s)
            (ap (λ (t : Server). t.sockets) (flagged r.signalled s), same-IsKept s true)
      | inl runs ↦
          rw (runs, flagged r.signalled s)
            (later-RoundsKeep s next (serve_rounds rs next) law.listening kept_here
              (serve_rounds-RoundsKeep rs next))
    ]
