-- ===== src/Header.antt =====
-- `read_header` of src/header_parser/header_parser.c and `serialize_header` of
-- src/server/server_backend.c: the header that a client and the server exchange.
pub mod Wire
pub mod Memory
pub mod Parsed
pub mod Scarce
pub mod Tests
use mathlib.Core.List.{reverse}
use net_math.Base.{ℕ, ◌<◌, ◌^◌, ◌≡◌, Bool, not, List, ◌++◌, if◌then◌else◌, le_value, le_bytes}
use net_math.Io.{M, pure, give_up, ◌>>=◌, ◌>>◌, alloc, free}
use net_math.Swap.{swap_byte_order}
use net_math.Stream.{read_stream}

-- `file_name` holds the 32 bytes of the array.
pub record NetHeader : Type 0 where
  pub header_size : ℕ
  pub name_len : ℕ
  pub total_payload_size : ℕ
  pub file_name : List ℕ

-- `ntohl` and `htonl` of the C library.
pub record Host : Type 0 where
  pub ntohl : ℕ → ℕ
  pub htonl : ℕ → ℕ

-- On a little-endian host both reverse the four bytes of a word.
pub record IsLittleEndian (host : Host) : Type 0 where
  pub ntohl-lt : (w : ℕ) → host.ntohl w < 2 ^ 32
  pub htonl-lt : (w : ℕ) → host.htonl w < 2 ^ 32
  pub ntohl-bytes : (w : ℕ) → le_bytes 4 (host.ntohl w) ≡ reverse (le_bytes 4 w)
  pub htonl-bytes : (w : ℕ) → le_bytes 4 (host.htonl w) ≡ reverse (le_bytes 4 w)

-- NET_HEADER_SIZE, NET_FILE_NAME_LEN, NET_TOTAL_PACKET_SIZE, NET_FILE_NAME,
-- NET_MAX_HEADER_SIZE, NET_MAX_FILE_NAME.
abbrev pub net_header_size : ℕ
net_header_size = 4

abbrev pub net_file_name_len : ℕ
net_file_name_len = 4

abbrev pub net_total_packet_size : ℕ
net_total_packet_size = 8

abbrev pub net_file_name : ℕ
net_file_name = 32

abbrev pub net_max_header_size : ℕ
net_max_header_size = 48

abbrev pub net_max_file_name : ℕ
net_max_file_name = 24

-- `free_header` frees one block.
unfoldable pub free_header : NetHeader → M (Unit {0})
free_header header = free 1

unfoldable pub read_header : Host → M NetHeader
read_header host = do
  ok ← alloc
  if not ok then give_up else do
    size ← read_stream 1 net_header_size
    len ← read_stream 1 net_file_name_len
    total ← read_stream 1 net_total_packet_size
    name ← read_stream 1 net_file_name
    pure (record {
      header_size = host.ntohl (le_value size);
      name_len = host.ntohl (le_value len);
      total_payload_size = swap_byte_order (le_value total);
      file_name = name;
    })

-- The 48 bytes that the four `memcpy` put into the buffer.
unfoldable pub serialize_header : Host → NetHeader → List ℕ
serialize_header host header =
    le_bytes 4 (host.htonl header.header_size)
    ++ (le_bytes 4 (host.htonl header.name_len)
        ++ (le_bytes 8 (swap_byte_order header.total_payload_size) ++ header.file_name))
