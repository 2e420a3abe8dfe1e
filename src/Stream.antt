-- ===== src/Stream.antt =====
-- `read_stream` of src/header_parser/header_parser.c.
pub mod Laws
pub mod Scarce
use net_math.Base.{
  ℕ, zero, suc, ◌+◌, Bool, true, false, not, List, [], ◌∷◌, ◌++◌, if◌then◌else◌, ◌==◌,
}
use net_math.Io.{
  M, pure, give_up, undefined, ◌>>=◌, ◌>>◌, alloc, free, read_byte, ReadByte, got, no_byte,
}

-- The loop, with `left` bytes to read and `have` read. A descriptor that has no byte ends it
-- with the payload freed and the two buffers not. `memcpy` into a `payload_buffer` that is NULL
-- is undefined, and so is a run for 0 bytes, which no caller asks for.
unfoldable pub read_loop : (owned : ℕ) (payload_ok : Bool) (left : ℕ) (have : List ℕ) → M (List ℕ)
read_loop owned payload_ok zero have = undefined
read_loop owned payload_ok (suc left) have = do
  byte ← read_byte
  elim byte [
    | no_byte _ ↦ (do free owned; give_up)
    | got b ↦
        let rest = read_loop owned payload_ok left (have ++ b ∷ []) in
        if not payload_ok then undefined else if left == 0 then pure (have ++ b ∷ []) else rest
  ]

-- `owned` counts the blocks that `free_func(payload)` frees. The result is what is copied into
-- the buffer of the caller.
unfoldable pub read_stream : (owned bytes_to_read : ℕ) → M (List ℕ)
read_stream owned bytes_to_read = do
  read_ok ← alloc
  payload_ok ← alloc
  if not read_ok
      then (do free owned; give_up)
      else do bytes ← read_loop owned payload_ok bytes_to_read []; free 2; pure bytes
