-- ===== src/Listen/Laws.antt =====
-- Which socket `server_listen` of src/server/server_backend.c returns, and what its accept loop
-- hands on.
use net_math.Base.{
  ℕ, ◌≡◌, refl, ap, sym, ◌∙◌, Bool, true, false, not, ◌&&◌, ◌||◌, Option, none, some, List, [], ◌∷◌,
  ◌++◌, ◌+◌, if◌then◌else◌, arith, length, length-append,
}
use mathlib.Core.List.{append_assoc}
use net_math.Listen.{
  AddrRecord, Round, Server, close_fd, walk_records, after_walk, server_listen, accept_one,
  serve_rounds,
}

-- The records from the first one on that ends the walk, with a socket or with a return.
abbrev pub passed : AddrRecord → Bool
passed r = not r.socket_ok || (r.setsockopt_ok && not r.bind_ok)

abbrev pub chosen : List AddrRecord → Option ℕ
chosen [] = none
chosen (r ∷ rs) = if passed r then chosen rs else if r.setsockopt_ok then some r.fd else none

abbrev pub listen_result : Option ℕ → (listen_ok : Bool) → (sockets : List ℕ) → Option ℕ × List ℕ
listen_result none listen_ok sockets = (none, sockets)
listen_result (some fd) listen_ok sockets = (if listen_ok then some fd else none, fd ∷ sockets)

pub close_fd-head : (fd : ℕ) (fds : List ℕ) → close_fd fd (fd ∷ fds) ≡ fds
close_fd-head fd fds = ground arith

after_walk-chosen :
    (records : List AddrRecord) (listen_ok : Bool) (sockets : List ℕ)
    → after_walk listen_ok (walk_records records sockets)
      ≡ listen_result (chosen records) listen_ok sockets
unfolding walk_records
after_walk-chosen [] listen_ok sockets = refl
after_walk-chosen (r ∷ rs) listen_ok sockets =
    rw (close_fd-head r.fd sockets) (ground (arith, after_walk-chosen rs listen_ok sockets))

-- For every address list `server_listen` returns the descriptor of the first record that its walk
-- does not pass, if `setsockopt` and `listen` succeed too, and -1 otherwise; a record is passed if
-- `socket` or `bind` fails on it. Every other socket is closed by then, and the socket that is
-- bound stays open, also when `listen` fails and -1 is returned.
pub server_listen-chosen :
    (records : List AddrRecord) (listen_ok : Bool) (sockets : List ℕ)
    → server_listen (some records) listen_ok sockets
      ≡ listen_result (chosen records) listen_ok sockets
unfolding server_listen
server_listen-chosen = after_walk-chosen

-- The clients that a run of rounds hands to the thread pool.
abbrev pub delivered : List Round → List ℕ
delivered [] = []
delivered (r ∷ rs) = elim r.accepted [
  | none ↦ delivered rs
  | some fd ↦ if r.malloc_ok && r.enqueue_ok then fd ∷ delivered rs else delivered rs
]

abbrev pub IsQuiet : List Round → Type 0
IsQuiet [] = Unit {0}
IsQuiet (r ∷ rs) = (r.signalled ≡ false) × IsQuiet rs

abbrev pub deliver : Option ℕ → Bool → List ℕ
deliver none ok = []
deliver (some fd) ok = if ok then fd ∷ [] else []

delivered-cons :
    (r : Round) (rs : List Round)
    → delivered (r ∷ rs) ≡ deliver r.accepted (r.malloc_ok && r.enqueue_ok) ++ delivered rs
delivered-cons r rs = ground arith

-- The client whose socket stays open after a round, with the block of its descriptor.
abbrev pub kept : Option ℕ → (malloc_ok : Bool) → List ℕ
kept none ok = []
kept (some fd) ok = if ok then fd ∷ [] else []

-- The clients that the accept loop leaves open, the last one first: all for whose descriptor there
-- was memory.
abbrev pub opened : List Round → List ℕ
opened [] = []
opened (r ∷ rs) =
    opened rs ++ elim r.accepted [ none ↦ [] | some fd ↦ if r.malloc_ok then fd ∷ [] else [] ]

opened-cons :
    (r : Round) (rs : List Round) → opened (r ∷ rs) ≡ opened rs ++ kept r.accepted r.malloc_ok
opened-cons r rs = ground arith

pub record IsRound (r : Round) (s after : Server) : Type 0 where
  pub queue : after.queued ≡ s.queued ++ deliver r.accepted (r.malloc_ok && r.enqueue_ok)
  pub clients : after.clients ≡ kept r.accepted r.malloc_ok ++ s.clients
  pub blocks : after.blocks ≡ s.blocks + length (kept r.accepted r.malloc_ok)
  pub listening : after.sockets ≡ s.sockets
  pub flag : after.server_run ≡ s.server_run

append_nil : (l : List ℕ) → l ≡ l ++ []
append_nil [] = refl
append_nil (x ∷ xs) = ap (λ (t : List ℕ). x ∷ t) (append_nil xs)

pub accept_one-IsRound : (r : Round) (s : Server) → IsRound r s (accept_one r s)
unfolding accept_one
accept_one-IsRound r s = record {
  queue = ground (arith, append_nil s.queued);
  clients = ground (arith, λ (fd : ℕ). close_fd-head fd s.clients);
  blocks = ground arith;
  listening = ground arith;
  flag = ground arith;
}

pub serve_rounds-stops :
    (served : List Round) (stop : Round) (rest : List Round) (s : Server)
    → IsQuiet served
    → stop.signalled ≡ true
    → s.server_run ≡ true
    → (after : Server) × (serve_rounds (served ++ stop ∷ rest) s ≡ some after)
      × (after.queued ≡ s.queued ++ delivered served)
      × (after.clients ≡ opened served ++ s.clients)
      × (after.blocks ≡ s.blocks + length (opened served))
      × (after.sockets ≡ s.sockets)
unfolding serve_rounds
serve_rounds-stops [] stop rest s quiet h run =
    (record s { server_run = true }, rw (run, h) refl, append_nil s.queued, refl, omega arith, refl)
serve_rounds-stops (r ∷ served) stop rest s (silent, quiet) h run =
    let here = record s { server_run = true } in
    let law = accept_one-IsRound r here in
    let more = kept r.accepted r.malloc_ok in
    let (after, ends, queue, clients, blocks, listening) =
      serve_rounds-stops served stop rest (accept_one r here) quiet h law.flag in
    (
      after,
      simp (run, silent) ends,
      queue
          ∙ ap (λ (l : List ℕ). l ++ delivered served) law.queue
          ∙ append_assoc s.queued _ (delivered served)
          ∙ ap (λ (l : List ℕ). s.queued ++ l) (sym (delivered-cons r served)),
      clients
          ∙ ap (λ (l : List ℕ). opened served ++ l) law.clients
          ∙ sym (append_assoc (opened served) more s.clients)
          ∙ ap (λ (l : List ℕ). l ++ s.clients) (sym (opened-cons r served)),
      omega (
        arith,
        blocks,
        law.blocks,
        ap length (opened-cons r served),
        length-append (opened served) more,
      ),
      listening ∙ law.listening,
    )

pub listened :
    (o : Option (List AddrRecord)) (records : List AddrRecord) (fd : ℕ) (ok : Bool) (fds : List ℕ)
    → o ≡ some records
    → chosen records ≡ some fd
    → ok ≡ true
    → server_listen o ok fds ≡ (some fd, fd ∷ fds)
listened o records fd ok fds found pick h = rw (found, server_listen-chosen records ok fds, pick, h)
