-- ===== src/Session/Tests.antt =====
-- Sessions with the header that src/client/client.py sends, with a name that has no end, and with
-- one byte.
use net_math.Base.{ℕ, ◌≡◌, refl, true, false, List, [], ◌∷◌, ◌++◌, arith, replicate}
use net_math.Io.{World, Peer, done, fault, alloc, free, read_byte, write, close}
use net_math.Header.Tests.{host, host-IsLittleEndian, connection}
use net_math.Swap.{swap_byte_order}
use net_math.Stream.{read_stream, read_loop}
use net_math.Header.{read_header, serialize_header, free_header}
use net_math.Header.Parsed.{header_of}
use net_math.Session.{cleared, serve_client, error_reply}
use net_math.Session.Bytes.{serve_client-bytes, is_safe}

-- Header size 51 and a name length of 20, with the bytes of the name.
abbrev pub header_bytes : (name : List ℕ) → List ℕ
header_bytes name = 0 ∷ 0 ∷ 0 ∷ 51 ∷ 0 ∷ 0 ∷ 0 ∷ 20 ∷ replicate 8 0 ++ name

abbrev pub short_name : List ℕ
short_name = replicate 20 0x61 ++ replicate 12 0

serve_client-bytes_example :
    serve_client host (connection (header_bytes short_name))
    ≡ done tt (record (connection []) {
      live = 0;
      output = serialize_header host (cleared (header_of host (header_bytes short_name)));
      open_sockets = 0;
    })
unfolding serialize_header
serve_client-bytes_example =
    serve_client-bytes host (connection (header_bytes short_name)) host-IsLittleEndian (omega arith)
      refl

-- The header that docs/Tests/NetCalcTests.py sends with a name length of 40, its total of 148 in
-- the reply, where that script expects 48.
abbrev grader_header : (name_len total : ℕ) → List ℕ
grader_header name_len total =
    0 ∷ 0 ∷ 0 ∷ 48 ∷ 0 ∷ 0 ∷ 0 ∷ name_len ∷ replicate 7 0
    ++ total ∷ 0x46 ∷ 0x41 ∷ 0x4b ∷ 0x45 ∷ 0x5f ∷ 0x46 ∷ 0x49 ∷ 0x4c ∷ 0x45 ∷ replicate 23 0

total_echoed :
    serve_client host (connection (grader_header 40 148))
    ≡ done tt (record (connection []) {
      live = 0;
      output = 0 ∷ 0 ∷ 0 ∷ 48 ∷ replicate 11 0 ++ 148 ∷ replicate 32 0;
      open_sockets = 0;
    })
unfolding serialize_header swap_byte_order
total_echoed =
    serve_client-bytes host (connection (grader_header 40 148)) host-IsLittleEndian (omega arith)
      refl

-- Its header with a name length of 9, which is accepted and not answered.
not_answered :
    serve_client host (connection (grader_header 9 148))
    ≡ done tt (record (connection []) { live = 0; open_sockets = 0 })
not_answered =
    serve_client-bytes host (connection (grader_header 9 148)) host-IsLittleEndian (omega arith)
      refl

-- The first twenty bytes of the reply are taken, and the session ends.
cut_reply :
    serve_client host (record (connection (grader_header 40 148)) { peer = Peer.takes 20 })
    ≡ done tt (record (connection []) {
      live = 0;
      output = 0 ∷ 0 ∷ 0 ∷ 48 ∷ replicate 11 0 ++ 148 ∷ replicate 4 0;
      open_sockets = 0;
      peer = Peer.takes 20;
    })
unfolding serialize_header swap_byte_order
cut_reply =
    serve_client-bytes host (record (connection (grader_header 40 148)) { peer = Peer.takes 20 })
      host-IsLittleEndian (omega arith) refl

-- A reply to a peer that hung up ends the server.
ended_by_peer :
    serve_client host (record (connection (grader_header 40 148)) { peer = Peer.hung_up }) ≡ fault
ended_by_peer =
    serve_client-bytes host (record (connection (grader_header 40 148)) { peer = Peer.hung_up })
      host-IsLittleEndian (omega arith) refl

endless_name : is_safe host (connection (header_bytes (replicate 32 0x61))) ≡ false
endless_name = refl

-- Memory for the session, and none for the reply.
abbrev no_reply : World
no_reply = record (connection (header_bytes short_name)) { allocs = replicate 9 true ++ false ∷ [] }

left_open :
    serve_client host no_reply ≡ done tt (record (connection []) { live = 2; open_sockets = 1 })
unfolding serve_client error_reply read_header read_stream read_loop alloc free read_byte write
    close free_header
left_open = refl
