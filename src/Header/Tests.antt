-- ===== src/Header/Tests.antt =====
-- The header theorems at a header of tests, on a little-endian host.
use mathlib.Core.List.{reverse}
use net_math.Base.{
  ℕ, ◌<◌, ◌^◌, ◌≡◌, refl, true, List, [], ◌∷◌, ◌++◌, arith, replicate, le_value, le_bytes,
  le_bytes-le_value,
}
use net_math.Io.{World, Peer, Ending, done}
use net_math.Header.{NetHeader, Host, IsLittleEndian, read_header, serialize_header}
use net_math.Header.Wire.{IsHeader, read_header-serialize_header}
use net_math.Swap.{swap_byte_order}
use net_math.Swap.Bytes.{swap_byte_order-bytes}

abbrev pub host : Host
host = record {
  ntohl = λ w. le_value (reverse (le_bytes 4 w));
  htonl = λ w. le_value (reverse (le_bytes 4 w));
}

reversed-lt : (w : ℕ) → le_value (reverse (le_bytes 4 w)) < 2 ^ 32
reversed-lt w = omega arith

reversed-bytes : (w : ℕ) → le_bytes 4 (le_value (reverse (le_bytes 4 w))) ≡ reverse (le_bytes 4 w)
reversed-bytes w = le_bytes-le_value (reverse (le_bytes 4 w)) (omega arith)

pub host-IsLittleEndian : IsLittleEndian host
host-IsLittleEndian = record {
  ntohl-lt = reversed-lt;
  htonl-lt = reversed-lt;
  ntohl-bytes = reversed-bytes;
  htonl-bytes = reversed-bytes;
}

-- Header size 51, as src/client/client.py sends it.
abbrev pub oversized : NetHeader
oversized = record {
  header_size = 51;
  name_len = 20;
  total_payload_size = 0x0102_0304;
  file_name = replicate 20 0x61 ++ replicate 12 0;
}

pub oversized-IsHeader : IsHeader oversized
oversized-IsHeader = record {
  size_fits = omega arith;
  len_fits = omega arith;
  total_fits = omega arith;
  name_fits = refl;
}

abbrev pub connection : List ℕ → World
connection input = record {
  input = input;
  ending = Ending.closed;
  burst = 4;
  seekable = true;
  allocs = [];
  live = 1;
  output = [];
  peer = Peer.takes 48;
  open_sockets = 1;
}

swapped : swap_byte_order 0x0102_0304_0506_0708 ≡ 0x0807_0605_0403_0201
unfolding swap_byte_order
swapped = refl

swap_byte_order-bytes_example :
    le_bytes 8 (swap_byte_order 0x0102_0304_0506_0708) ≡ 1 ∷ 2 ∷ 3 ∷ 4 ∷ 5 ∷ 6 ∷ 7 ∷ 8 ∷ []
swap_byte_order-bytes_example = swap_byte_order-bytes 0x0102_0304_0506_0708 (omega arith)

read_header-serialize_header_example :
    read_header host (connection (serialize_header host oversized ++ 7 ∷ []))
    ≡ done oversized (record (connection (7 ∷ [])) { live = 2 })
read_header-serialize_header_example =
    read_header-serialize_header host host-IsLittleEndian oversized (7 ∷ [])
      (connection (serialize_header host oversized ++ 7 ∷ [])) oversized-IsHeader refl refl
