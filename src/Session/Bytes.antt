-- ===== src/Session/Bytes.antt =====
-- What a client gets for any bytes.
use net_math.Base.{
  ℕ, ◌+◌, ◌-◌, ◌≤◌, ◌≡◌, refl, Bool, ◌||◌, List, [], if◌then◌else◌, arith, length, ltb, Bool-cases,
  inl, inr, IsBytes,
}
use net_math.Io.{World, done, fault}
use net_math.Header.{Host, IsLittleEndian}
use net_math.Header.Parsed.{header_of, after_header, header_of-IsHeader, serialize_header-header_of}
use net_math.Session.{serve_client}
use net_math.Session.Laws.{is_survived, sent, serve_client-header, serve_client-short}

abbrev pub is_short : List ℕ → Bool
is_short input = ltb (length input) 48

-- No header, or one that the program survives.
abbrev pub is_safe : Host → World → Bool
is_safe host w = is_short w.input || is_survived (header_of host w.input) w.peer

abbrev pub reply : Host → World → List ℕ
reply host w = if is_short w.input then w.output else sent host (header_of host w.input) w

abbrev pub left_over : List ℕ → List ℕ
left_over input = if is_short input then [] else after_header input

-- On a little-endian host, with memory, for any bytes that a client sends: with fewer than 48, the
-- session sends nothing and leaves two blocks. With a header of size 48 and a name length of at
-- most 24 it sends nothing. With any other it sends, as far as the peer takes it, that header with
-- its size and its total as they came, a name length of 0, and the first 24 of the 32 bytes of its
-- name cleared. Its socket is closed, and its block is freed. The program does not survive a name
-- without a zero byte, nor a reply to a peer that hung up, which raises SIGPIPE.
pub serve_client-bytes :
    (host : Host) (w : World)
    → IsLittleEndian host
    → IsBytes w.input
    → w.allocs ≡ []
    → serve_client host w ≡ (
        if is_safe host w
        then done tt (record w {
          input = left_over w.input;
          live = if is_short w.input then w.live + 1 else w.live - 1;
          output = reply host w;
          open_sockets = w.open_sockets - 1;
        })
        else fault)
serve_client-bytes host w order bytes m = elim (Bool-cases (is_short w.input)) [
  | inl short ↦ rw (serve_client-short host w m (ground (arith, short)), short) refl
  | inr long ↦
      let enough : 48 ≤ length w.input = ground (arith, long) in
      rw
        (
          serve_client-header host (header_of host w.input) (after_header w.input) w order
              (header_of-IsHeader host order w.input bytes enough)
              (serialize_header-header_of host order w.input bytes enough) m,
          long,
        )
        refl
]
