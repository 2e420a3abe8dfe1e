-- ===== src/Calc/Shift.antt =====
-- The shifts and the bitwise operations of src/calculation/calculation.c, bit by bit.
use net_math.Base.{
  ℕ, ◌+◌, ◌-◌, ◌*◌, ◌/◌, ◌%◌, ◌^◌, ◌<◌, ◌≡◌, refl, some, min, max, bit_and, bit_or, bit_xor, ltb,
  if◌then◌else◌, u64, shl64, shr64, arith,
}
use net_math.Bits.{bit, bit-bit_and, bit-bit_or, bit-bit_xor}
use net_math.Bits.Place.{bit-shr, bit-shl, bit-mod}
use net_math.Calc.{
  Solution, Libc, solve, s_left_callback, s_right_callback, and_callback, or_callback, xor_callback,
}

-- A value that the word `w` has to have, bit by bit.
abbrev pub HasBits : ℕ → (ℕ → ℕ) → Type 0
HasBits w f = (i : ℕ) → bit w i ≡ f i

pub shl-HasBits :
    (k w : ℕ)
    → HasBits
        (u64 (w * 2 ^ k))
        (λ i. if ltb i 64 then (if ltb i k then 0 else bit w (i - k)) else 0)
shl-HasBits k w i = rw (bit-mod 64 i (w * 2 ^ k), bit-shl k i w)

-- The number of places, as the guards of the shifts and rotations leave it.
pub wrapped_places : (r : ℕ) → (if ltb 63 r then r % 64 else r) ≡ r % 64
wrapped_places r = ground arith

capped_places : (r : ℕ) → (if ltb 63 r then 63 else r) ≡ min r 63
capped_places r = ground arith

pub shl64-lt : (w k : ℕ) → k < 64 → shl64 w k ≡ some (u64 (w * 2 ^ k))
shl64-lt w k h = ground arith

pub shr64-lt : (w k : ℕ) → k < 64 → shr64 w k ≡ some (w / 2 ^ k)
shr64-lt w k h = ground arith

module _ (c : Libc) (eq : Solution) where
  pub s_left_word :
      s_left_callback c eq ≡ some (solve c eq (u64 (eq.l_operand * 2 ^ (eq.r_operand % 64))))
  unfolding s_left_callback
  s_left_word =
      rw (wrapped_places eq.r_operand, shl64-lt eq.l_operand (eq.r_operand % 64) (omega arith))

  pub s_right_word :
      s_right_callback c eq ≡ some (solve c eq (eq.l_operand / 2 ^ min eq.r_operand 63))
  unfolding s_right_callback
  s_right_word =
      rw (capped_places eq.r_operand, shr64-lt eq.l_operand (min eq.r_operand 63) (omega arith))

-- The shifts are never undefined. The left shift moves each bit up by the right operand modulo
-- 64, and the right shift moves each bit down by the lesser of the right operand and 63.
pub shift-HasBits :
    (c : Libc) (eq : Solution)
    → (up : ℕ) × (down : ℕ) × (s_left_callback c eq ≡ some (solve c eq up))
      × (s_right_callback c eq ≡ some (solve c eq down))
      × HasBits up (λ i.
        if ltb i 64
        then (if ltb i (eq.r_operand % 64) then 0 else bit eq.l_operand (i - eq.r_operand % 64))
        else 0)
      × HasBits down (λ i. bit eq.l_operand (i + min eq.r_operand 63))
shift-HasBits c eq = (
  u64 (eq.l_operand * 2 ^ (eq.r_operand % 64)),
  eq.l_operand / 2 ^ min eq.r_operand 63,
  s_left_word c eq,
  s_right_word c eq,
  shl-HasBits (eq.r_operand % 64) eq.l_operand,
  λ i. bit-shr (min eq.r_operand 63) i eq.l_operand,
)

-- The bitwise operations always solve the equation, and each bit of their result is the least,
-- the greatest or the sum modulo 2 of the two bits in its place.
pub bitwise-HasBits :
    (c : Libc) (eq : Solution)
    → (a : ℕ) × (o : ℕ) × (x : ℕ) × (and_callback c eq ≡ some (solve c eq a))
      × (or_callback c eq ≡ some (solve c eq o))
      × (xor_callback c eq ≡ some (solve c eq x))
      × HasBits a (λ i. min (bit eq.l_operand i) (bit eq.r_operand i))
      × HasBits o (λ i. max (bit eq.l_operand i) (bit eq.r_operand i))
      × HasBits x (λ i. (bit eq.l_operand i + bit eq.r_operand i) % 2)
unfolding and_callback or_callback xor_callback
bitwise-HasBits c eq = (
  bit_and eq.l_operand eq.r_operand,
  bit_or eq.l_operand eq.r_operand,
  bit_xor eq.l_operand eq.r_operand,
  refl,
  refl,
  refl,
  λ i. bit-bit_and i eq.l_operand eq.r_operand,
  λ i. bit-bit_or i eq.l_operand eq.r_operand,
  λ i. bit-bit_xor i eq.l_operand eq.r_operand,
)
