-- ===== src/Base/Word.antt =====
-- Machine words: the unsigned types by `%`, and `int64_t` as the integer that a bit pattern
-- stands for. An operation that C leaves undefined returns `none`.
use Prim.Native.Nat.{ℕ, ◌-◌, ◌*◌, ◌/◌, ◌%◌, ◌^◌, ◌<◌}
use mathlib.Core.Path.{◌≡◌}
use mathlib.Core.Bool.{Bool, ◌&&◌, not}
use mathlib.Core.Option.{Option, none, some}
use native.Mathlib.Omega.{arith}
use net_math.Base.Tests.{ltb, if◌then◌else◌}
use net_math.Base.Int.{ℤ, pos, negsuc, ◌+ℤ◌, ◌-ℤ◌, ◌*ℤ◌, ◌/ℤ◌, ◌%ℤ◌, ◌≤ℤ◌, ltb_ℤ, eqb_ℤ}

abbrev pub u32 : ℕ → ℕ
u32 n = n % 2 ^ 32

abbrev pub u64 : ℕ → ℕ
u64 n = n % 2 ^ 64

-- INT64_MAX and INT64_MIN.
abbrev pub int64_max : ℤ
int64_max = pos 0x7fff_ffff_ffff_ffff

abbrev pub int64_min : ℤ
int64_min = negsuc 0x7fff_ffff_ffff_ffff

-- `(int64_t)w` and `(uint64_t)z`.
abbrev pub to_int64 : ℕ → ℤ
to_int64 w = if ltb w (2 ^ 63) then pos w else negsuc (2 ^ 64 - w - 1)

abbrev pub to_uint64 : ℤ → ℕ
to_uint64 (pos n) = n % 2 ^ 64
to_uint64 (negsuc n) = 2 ^ 64 - 1 - n % 2 ^ 64

abbrev pub fits_int64 : ℤ → Bool
fits_int64 z = not (ltb_ℤ int64_max z) && not (ltb_ℤ z int64_min)

-- The result of a signed operation, undefined if it does not fit.
abbrev pub int64 : ℤ → Option ℤ
int64 z = if fits_int64 z then some z else none

abbrev pub add_int64 : ℤ → ℤ → Option ℤ
add_int64 a b = int64 (a +ℤ b)

abbrev pub sub_int64 : ℤ → ℤ → Option ℤ
sub_int64 a b = int64 (a -ℤ b)

abbrev pub mul_int64 : ℤ → ℤ → Option ℤ
mul_int64 a b = int64 (a *ℤ b)

-- A divisor of 0, and INT64_MIN by -1, are undefined for `/` and for `%`.
abbrev pub div_int64 : ℤ → ℤ → Option ℤ
div_int64 a b = if eqb_ℤ b (pos 0) then none else int64 (a /ℤ b)

abbrev pub rem_int64 : ℤ → ℤ → Option ℤ
rem_int64 a b =
    if eqb_ℤ b (pos 0) then none else (if fits_int64 (a /ℤ b) then some (a %ℤ b) else none)

-- Shifts of a `uint64_t`, undefined from 64 places on.
abbrev pub shl64 : ℕ → ℕ → Option ℕ
shl64 w k = if ltb k 64 then some (u64 (w * 2 ^ k)) else none

abbrev pub shr64 : ℕ → ℕ → Option ℕ
shr64 w k = if ltb k 64 then some (w / 2 ^ k) else none

-- A pattern below 2 ^ 64 and its integer determine each other.
pub to_uint64-to_int64 : (w : ℕ) → w < 2 ^ 64 → to_uint64 (to_int64 w) ≡ w
to_uint64-to_int64 w h = ground arith

pub to_int64-to_uint64 : (z : ℤ) → int64_min ≤ℤ z → z ≤ℤ int64_max → to_int64 (to_uint64 z) ≡ z
to_int64-to_uint64 z lo hi = ground arith

pub to_uint64-lt : (z : ℤ) → to_uint64 z < 2 ^ 64
to_uint64-lt z = ground arith
