-- ===== src/Session/Laws.antt =====
-- What a client gets for a header, and for less than one.
use net_math.Base.{
  ℕ, ◌+◌, ◌-◌, ◌<◌, ◌≡◌, refl, ap, Bool, true, false, ◌&&◌, ◌||◌, not, take, List, [], ◌++◌,
  if◌then◌else◌, arith, length, ltb, leb, ◌==◌, Bool-cases, inl, inr,
}
use net_math.Io.{World, Peer, Outcome, done, fault, alloc, free, write, close}
use net_math.Header.{NetHeader, Host, IsLittleEndian, serialize_header, free_header}
use net_math.Header.Wire.{IsHeader, read_header-serialize_header}
use net_math.Header.Memory.{read_header-short}
use net_math.Session.{cleared, is_terminated, error_reply, serve_client}

-- The two checks of `serve_client`.
abbrev pub accepts : NetHeader → Bool
accepts header = header.header_size == 48 && leb header.name_len 24

done_live :
    (w : World) {k l : ℕ}
    → k ≡ l
    → ◌≡◌ {A = Outcome (Unit {0})}
        (done tt (record w { live = k }))
        (done tt (record w { live = l }))
done_live w e = ap (λ (k : ℕ). done tt (record w { live = k })) e

abbrev pub is_hung_up : Peer → Bool
is_hung_up Peer.hung_up = true
is_hung_up peer = false

-- What has been sent once `bytes` were written.
abbrev pub after_write : Peer → (output bytes : List ℕ) → List ℕ
after_write (Peer.takes n) output bytes = output ++ take n bytes
after_write peer output bytes = output

-- What has been sent to the peer when the session of a header ends.
abbrev pub sent : Host → NetHeader → World → List ℕ
sent host header w =
    if accepts header
    then w.output
    else after_write w.peer w.output (serialize_header host (cleared header))

-- The name has an end, and no reply is written to a peer that hung up.
abbrev pub is_survived : NetHeader → Peer → Bool
is_survived header peer =
    is_terminated header.file_name && (accepts header || not (is_hung_up peer))

-- From a world with memory and one block more than `w`, that of the header.
error_reply-after_write :
    (host : Host) (header : NetHeader) (peer : Peer) (w : World)
    → error_reply host header (record w { peer = peer; allocs = []; live = w.live + 1 }) ≡ (
        if not (is_hung_up peer)
        then done tt (record w {
          peer = peer;
          allocs = [];
          live = w.live - 1;
          output = after_write peer w.output (serialize_header host (cleared header));
          open_sockets = w.open_sockets - 1;
        })
        else fault)
unfolding error_reply free_header alloc free write close
error_reply-after_write host header (Peer.takes n) w =
    done_live
      (record w {
        peer = Peer.takes n;
        allocs = [];
        output = w.output ++ take n (serialize_header host (cleared header));
        open_sockets = w.open_sockets - 1;
      })
      (omega arith)
error_reply-after_write host header Peer.refuses w =
    done_live (record w { peer = Peer.refuses; allocs = []; open_sockets = w.open_sockets - 1 })
      (omega arith)
error_reply-after_write host header Peer.hung_up w = refl

-- On a little-endian host, with memory: a header of size 48 with a name length of at most 24 gets
-- no answer. Any other header is sent back, as far as the peer takes it, with its size and its
-- total as they came, a name length of 0, and the first 24 bytes of its name cleared. Either way
-- one socket is closed, and every block of the session is freed. The program does not survive a
-- name of 32 bytes without a zero byte, which is printed with `%s`, nor an answer to a peer that
-- hung up.
pub serve_client-header :
    (host : Host) (header : NetHeader) (rest : List ℕ) (w : World)
    → IsLittleEndian host
    → IsHeader header
    → w.input ≡ serialize_header host header ++ rest
    → w.allocs ≡ []
    → serve_client host w ≡ (
        if is_survived header w.peer
        then done tt (record w {
          input = rest;
          live = w.live - 1;
          output = sent host header w;
          open_sockets = w.open_sockets - 1;
        })
        else fault)
unfolding serve_client free_header free close
serve_client-header host header rest w order fits e m =
    let quiet : World = record w { input = rest; allocs = []; open_sockets = w.open_sockets - 1 } in
    let read = read_header-serialize_header host order header rest w fits e m in
    let reply = error_reply-after_write host header w.peer (record w { input = rest }) in
    elim (Bool-cases (is_terminated header.file_name)) [
      | inr endless ↦ rw (read, endless) refl
      | inl ends ↦ elim (Bool-cases (header.header_size == 48)) [
        | inr other ↦
            let miss : (48 == header.header_size) ≡ false = ground arith in
            rw (read, m, ends, miss, other) reply
        | inl same ↦
            let hit : (48 == header.header_size) ≡ true = ground arith in
            elim (Bool-cases (leb header.name_len 24)) [
              | inl few ↦
                  let short : ltb 24 header.name_len ≡ false = ground arith in
                  rw (read, m, ends, hit, short, same, few) (done_live quiet (omega arith))
              | inr long ↦
                  let over : ltb 24 header.name_len ≡ true = ground arith in
                  rw (read, m, ends, hit, over, same, long) reply
            ]
      ]
    ]

-- With memory, a client that sends fewer than 48 bytes is sent nothing and its socket is closed.
-- The block of the descriptor is freed, and two blocks stay allocated.
pub serve_client-short :
    (host : Host) (w : World)
    → w.allocs ≡ []
    → length w.input < 48
    → serve_client host w
      ≡ done tt (record w { input = []; live = w.live + 1; open_sockets = w.open_sockets - 1 })
unfolding serve_client free close
serve_client-short host w m h = rw (read_header-short host w m h) (
    ap (λ (k : ℕ). done tt (record w { input = []; live = k; open_sockets = w.open_sockets - 1 }))
      (omega arith))
