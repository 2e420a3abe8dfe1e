-- ===== src/Service/Effect.antt =====
-- What a session does to the process, for any bytes that its client sends.
use net_math.Base.{
  ℕ, ◌+◌, ◌-◌, ◌*◌, ◌≡◌, refl, ap, Bool, true, false, if◌then◌else◌, some, List, [], ◌∷◌, ◌++◌, map,
  arith, IsBytes,
}
use net_math.Io.{World}
use net_math.Header.{Host, IsLittleEndian}
use net_math.Session.Bytes.{is_short, is_safe, reply, serve_client-bytes}
use net_math.Pool.{Task}
use net_math.Pool.Workers.{Place}
use net_math.Pool.Workers.Counts.{one}
use net_math.Service.{Process, at_peer, job_effect}
use net_math.Service.Balance.{in_hand, with_run}

-- A peer of a session with memory, that the program survives.
pub record IsPeer (host : Host) (peer : World) : Type 0 where
  pub bytes : IsBytes peer.input
  pub memory : peer.allocs ≡ []
  pub safe : is_safe host peer ≡ true

short_live : (b : Bool) (n : ℕ) → (if b then n + 1 else n - 1) ≡ n + 2 * one b - 1
short_live true n = omega arith
short_live false n = omega arith

idle : (n : ℕ) → n ≡ n + 2 * 0 - 0
idle n = omega arith

idle_sockets : (n : ℕ) → n ≡ n - 0
idle_sockets n = omega arith

abbrev pub each : Task → ℕ
each t = 1

module _ (host : Host) (peers : (arg : ℕ) → World) where
  abbrev pub short : Task → ℕ
  short t = one (is_short (peers t.arg).input)

  abbrev pub answer : Task → ℕ × List ℕ
  answer t = (t.arg, reply host (record (peers t.arg) { output = [] }))

  abbrev pub with_answer : Place → List (ℕ × List ℕ) → List (ℕ × List ℕ)
  with_answer (Place.run_function t) l = l ++ answer t ∷ []
  with_answer p l = l

  pub map-with_run :
      (p : Place) (ts : List Task) → map answer (with_run p ts) ≡ with_answer p (map answer ts)
  map-with_run (Place.run_function t) ts = grow ts
    where
      grow : (us : List Task) → map answer (us ++ t ∷ []) ≡ map answer us ++ answer t ∷ []
      grow [] = refl
      grow (u ∷ us) = ap (λ (l : List (ℕ × List ℕ)). answer u ∷ l) (grow us)
  map-with_run p ts = refl

  module _ (order : IsLittleEndian host) (fine : (arg : ℕ) → IsPeer host (peers arg)) where
    -- A session gives back its socket and its block, and keeps two blocks for a short input.
    pub job_effect-law :
        (p : Place) (live sockets : ℕ) (l : List (ℕ × List ℕ))
        → job_effect host peers p (record { live = live; open_sockets = sockets; replies = l })
          ≡ some (record {
            live = live + 2 * in_hand short p - in_hand each p;
            open_sockets = sockets - in_hand each p;
            replies = with_answer p l;
          })
    job_effect-law (Place.run_function t) live sockets l =
        let c : Process = record { live = live; open_sockets = sockets; replies = l } in
        let peer = fine t.arg in
        rw
          (
            serve_client-bytes host (at_peer (peers t.arg) c) order peer.bytes peer.memory,
            peer.safe,
          )
          λ i. some (record {
            live = short_live (is_short (peers t.arg).input) live i;
            open_sockets = sockets - 1;
            replies = l ++ answer t ∷ [];
          })
    job_effect-law p live sockets l = λ i.
        some (record { live = idle live i; open_sockets = idle_sockets sockets i; replies = l })
