-- ===== src/Service/Tests.antt =====
-- Three connections and one worker: a header that is sent back, one byte, and a connection that
-- could not be queued.
use net_math.Base.{
  ℕ, ◌+◌, ◌≡◌, refl, Bool, true, false, none, some, Option, List, [], ◌∷◌, ◌++◌, ◌==◌,
  if◌then◌else◌, replicate, map, arith, ◌>>=◌, ◌≤◌, length,
}
use net_math.Io.{World}
use net_math.Header.Tests.{host, host-IsLittleEndian, connection}
use net_math.Session.Tests.{header_bytes, short_name}
use net_math.Pool.{Task}
use net_math.Pool.Workers.{Place, Shared, turn, initial}
use net_math.Pool.Workers.Counts.{occurs}
use net_math.Pool.Waiting.{wait_turn}
use net_math.Pool.Lifetime.{Stage, owner_turn}
use net_math.Service.{
  Process, Service, session, one_more, job_effect, ServiceStep, ServiceReachable, in_state,
}
use net_math.Service.Effect.{IsPeer, answer}
use net_math.Service.Laws.{freed-served}

abbrev peers : ℕ → World
peers arg = connection (if arg == 0 then header_bytes short_name else 7 ∷ [])

peers-IsPeer : (arg : ℕ) → IsPeer host (peers arg)
peers-IsPeer arg = kind (arg == 0)
  where
    kind : (b : Bool) → IsPeer host (connection (if b then header_bytes short_name else 7 ∷ []))
    kind true = record { bytes = omega arith; memory = refl; safe = refl }
    kind false = record { bytes = omega arith; memory = refl; safe = refl }

-- Who makes the next access, and what it is in the accept loop.
data Move : Type 0 where
  worker owner accept lose : Move

record Solo : Type 0 where
  place : Place
  shared : Shared
  stage : Stage
  process : Option Process
  lost : ℕ

abbrev whole : Solo → Service
whole x = in_state x.shared (x.place ∷ []) x.stage x.process x.lost

abbrev worked : Solo → Option (Place × Shared) → Solo
worked x none = x
worked x (some (p, s)) = record x {
  place = p;
  shared = s;
  process = x.process >>= job_effect host peers x.place;
}

abbrev accepted : Stage → Solo → Solo
accepted Stage.accepting x =
    let task = session 1 (length x.shared.submitted + x.lost) in
    record x {
      shared = record (x.shared) {
        queue = x.shared.queue ++ task ∷ [];
        submitted = x.shared.submitted ++ task ∷ [];
      };
      process = x.process >>= one_more;
    }
accepted stage x = x

abbrev lost_one : Stage → Solo → Solo
lost_one Stage.accepting x = record x { process = x.process >>= one_more; lost = x.lost + 1 }
lost_one stage x = x

unfoldable play : Move → Solo → Solo
unfolding turn owner_turn
play Move.worker x = worked x (turn x.place x.shared)
play Move.owner x =
    let next = owner_turn 1 x.stage x.shared in record x { shared = next.1; stage = next.0 }
play Move.lose x = lost_one x.stage x
play Move.accept x = accepted x.stage x

abbrev plays : List Move → Solo → Solo
plays [] x = x
plays (m ∷ ms) x = plays ms (play m x)

abbrev IsReached : Solo → Type 0
IsReached x = ServiceReachable host peers 1 1 0 0 (whole x)

worked-IsReached :
    (x : Solo) (o : Option (Place × Shared))
    → turn x.place x.shared ≡ o
    → IsReached x
    → IsReached (worked x o)
worked-IsReached x none e r = r
worked-IsReached x (some (p, s)) e r =
    ServiceReachable.goes_on _ _ r
      (ServiceStep.works x.shared s [] x.place p [] x.stage x.process x.lost e)

accepted-IsReached :
    (x : Solo) (stage : Stage)
    → IsReached (record x { stage = stage })
    → IsReached (accepted stage (record x { stage = stage }))
accepted-IsReached x Stage.accepting r =
    ServiceReachable.goes_on _ _ r (ServiceStep.accepts x.shared (x.place ∷ []) x.process x.lost)
accepted-IsReached x stage r = r

lost_one-IsReached :
    (x : Solo) (stage : Stage)
    → IsReached (record x { stage = stage })
    → IsReached (lost_one stage (record x { stage = stage }))
lost_one-IsReached x Stage.accepting r =
    ServiceReachable.goes_on _ _ r (ServiceStep.loses x.shared (x.place ∷ []) x.process x.lost)
lost_one-IsReached x stage r = r

play-IsReached : (m : Move) (x : Solo) → IsReached x → IsReached (play m x)
unfolding play
play-IsReached Move.worker x r = worked-IsReached x (turn x.place x.shared) refl r
play-IsReached Move.owner x r =
    ServiceReachable.goes_on _ _ r
      (ServiceStep.owns x.shared (x.place ∷ []) x.stage x.process x.lost)
play-IsReached Move.lose x r = lost_one-IsReached x x.stage r
play-IsReached Move.accept x r = accepted-IsReached x x.stage r

plays-IsReached : (ms : List Move) (x : Solo) → IsReached x → IsReached (plays ms x)
plays-IsReached [] x r = r
plays-IsReached (m ∷ ms) x r = plays-IsReached ms (play m x) (play-IsReached m x r)

abbrev start : Solo
start = record {
  place = Place.starting;
  shared = (initial 1).shared;
  stage = Stage.init_loop;
  process = some (record { live = 0; open_sockets = 0; replies = [] });
  lost = 0;
}

abbrev schedule : List Move
schedule =
    Move.worker ∷ Move.owner ∷ Move.accept ∷ Move.lose ∷ Move.accept ∷ replicate 22 Move.worker
    ++ replicate 7 Move.owner
    ++ replicate 6 Move.worker
    ++ Move.owner ∷ []

at_end : (plays schedule start).stage ≡ Stage.freed
unfolding play turn owner_turn wait_turn
at_end = refl

freed-served_example :
    ((plays schedule start).process
      ≡ some (record {
        live = 3;
        open_sockets = 1;
        replies = map (answer host peers) (session 1 0 ∷ session 1 2 ∷ []);
      }))
    × ((t : Task)
        → occurs t (session 1 0 ∷ session 1 2 ∷ []) ≡ occurs t (session 1 0 ∷ session 1 2 ∷ []))
    × ((t : Task) → occurs t (session 1 0 ∷ session 1 2 ∷ []) ≤ 1)
unfolding play turn owner_turn wait_turn
freed-served_example =
    freed-served host peers 1 1 0 0 (whole (plays schedule start)) host-IsLittleEndian peers-IsPeer
      (omega arith) (plays-IsReached schedule start ServiceReachable.begins) at_end
