-- ===== src/Io.antt =====
-- What the C code sees of the system: a descriptor to read, a peer to write to, the allocator.
-- The code under test never looks further, so a run of it is a function of such a world.
use net_math.Base.{
  ℕ, ◌+◌, ◌-◌, Bool, true, false, List, [], ◌∷◌, ◌++◌, if◌then◌else◌, min, take, drop,
}

-- How the input ends: `read` returns 0, or -1 with `errno` set.
pub data Ending : Type 0 where
  closed failed : Ending

-- What `write` does: it sends at most so many bytes, returns -1, or raises SIGPIPE, which the
-- program does not handle.
pub data Peer : Type 0 where
  takes : ℕ → Peer
  refuses hung_up : Peer

-- `input`: bytes that are to arrive; `burst`: the most that one `read` returns; `allocs`: what
-- the next allocations find, and memory for all later ones; `live`: blocks allocated and not
-- freed; `output`: bytes sent; `peer`: what `write` finds; `open_sockets`: sockets that are not closed.
pub record World : Type 0 where
  pub input : List ℕ
  pub ending : Ending
  pub burst : ℕ
  pub seekable : Bool
  pub allocs : List Bool
  pub live : ℕ
  pub output : List ℕ
  pub peer : Peer
  pub open_sockets : ℕ

-- A value, the NULL or -1 of a failed call, or `fault`: the program does not go on, since its
-- behaviour is undefined or a signal ends it.
pub data Outcome (A : Type 0) : Type 0 where
  done : A → World → Outcome A
  null : World → Outcome A
  fault : Outcome A

abbrev pub M : Type 0 → Type 0
M A = World → Outcome A

abbrev pub give_up : {A : Type 0} → M A
give_up w = null w

abbrev pub undefined : {A : Type 0} → M A
undefined w = fault

abbrev pub pure : {A : Type 0} → A → M A
pure a w = done a w

abbrev pub and_next : {A B : Type 0} → Outcome A → (A → M B) → Outcome B
and_next (done a w) f = f a w
and_next (null w) f = null w
and_next fault f = fault

-- A caller returns at once where a call of its fails.
abbrev pub ◌>>=◌ : {A B : Type 0} → M A → (A → M B) → M B
◌>>=◌ first rest w = and_next (first w) rest

abbrev pub ◌>>◌ : {B : Type 0} → M (Unit {0}) → M B → M B
◌>>◌ first rest w = and_next (first w) (λ u. rest)

infixl 5 ◌>>=◌ ◌>>◌
-- A caller that goes on where a call of its fails.
abbrev pub and_either : {A B : Type 0} → Outcome A → M B → (A → M B) → Outcome B
and_either (done a w) on_null f = f a w
and_either (null w) on_null f = on_null w
and_either fault on_null f = fault

abbrev pub or_else : {A B : Type 0} → M A → M B → (A → M B) → M B
or_else m on_null f w = and_either (m w) on_null f

-- `calloc` or `malloc` with the test of `verify_alloc`: whether the block was found.
abbrev pub take_block : List Bool → Bool
take_block [] = true
take_block (b ∷ bs) = b

abbrev pub later_blocks : List Bool → List Bool
later_blocks [] = []
later_blocks (b ∷ bs) = bs

unfoldable pub alloc : M Bool
alloc w = done (take_block w.allocs) (record w {
  allocs = later_blocks w.allocs;
  live = if take_block w.allocs then w.live + 1 else w.live;
})

-- `free` of `n` blocks.
unfoldable pub free : ℕ → M (Unit {0})
free n w = done tt (record w { live = w.live - n })

-- `read(fd, buf, n)`: at most `burst` bytes; `[]` is a return of 0 or -1.
unfoldable pub read : ℕ → M (List ℕ)
read n w = done (take (min n w.burst) w.input) (record w { input = drop (min n w.burst) w.input })

-- `read(fd, buf, 1)`.
pub data ReadByte : Type 0 where
  got : ℕ → ReadByte
  no_byte : Ending → ReadByte

abbrev pub first_byte : Ending → List ℕ → ReadByte
first_byte e [] = no_byte e
first_byte e (b ∷ bs) = got b

unfoldable pub read_byte : M ReadByte
read_byte w = done (first_byte w.ending w.input) (record w { input = drop 1 w.input })

-- `lseek(fd, n, SEEK_CUR)`, which fails on a socket and is not checked.
unfoldable pub skip : ℕ → M (Unit {0})
skip n w = done tt (record w { input = if w.seekable then drop n w.input else w.input })

abbrev pub write_to : Peer → List ℕ → M Bool
write_to (Peer.takes n) bytes w = done true (record w { output = w.output ++ take n bytes })
write_to Peer.refuses bytes w = done false w
write_to Peer.hung_up bytes w = fault

-- `write(fd, buf, n)`: whether its result is not -1.
unfoldable pub write : List ℕ → M Bool
write bytes w = write_to w.peer bytes w

unfoldable pub close : M (Unit {0})
close w = done tt (record w { open_sockets = w.open_sockets - 1 })
