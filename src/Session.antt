-- ===== src/Session.antt =====
-- `serve_client` and `error_reply` of src/server/server_backend.c: one connection.
pub mod Laws
pub mod Scarce
pub mod Bytes
pub mod Tests
use net_math.Base.{
  ℕ, Bool, false, not, ◌||◌, List, [], ◌∷◌, ◌++◌, if◌then◌else◌, ltb, ◌==◌, drop, replicate,
}
use net_math.Io.{M, pure, undefined, ◌>>=◌, ◌>>◌, or_else, alloc, free, write, close}
use net_math.Header.{
  NetHeader, Host, net_max_header_size, net_max_file_name, read_header, serialize_header,
  free_header,
}

-- The header of the reply: no name length, and a name whose first 24 bytes are cleared.
abbrev pub cleared : NetHeader → NetHeader
cleared header = record header {
  name_len = 0;
  file_name = replicate net_max_file_name 0 ++ drop net_max_file_name header.file_name;
}

-- Without memory for the buffer it returns with the header and the socket as they are.
pub error_reply : Host → NetHeader → M (Unit {0})
error_reply host header = do
  ok ← alloc
  if not ok then pure tt else do
    sent ← write (serialize_header host (cleared header))
    free 1
    free_header header
    close
    free 1

-- Whether `%s` of the name finds its end in the array; past it the read is undefined.
abbrev pub is_terminated : List ℕ → Bool
is_terminated [] = false
is_terminated (b ∷ bs) = b == 0 || is_terminated bs

-- It prints the header, its name included. The block that holds the descriptor is freed on every
-- path but that one of `error_reply`.
pub serve_client : Host → M (Unit {0})
serve_client host =
    or_else (read_header host) (do close; free 1)
      λ header.
        if not (is_terminated header.file_name)
        then undefined
        else if not (net_max_header_size == header.header_size)
        then error_reply host header
        else if ltb net_max_file_name header.name_len
        then error_reply host header
        else (do close; free 1; free_header header)
