-- ===== src/Calc/Rotate.antt =====
-- `r_left_callback` and `r_right_callback` of src/calculation/calculation.c.
use net_math.Base.{
  ℕ, ◌+◌, ◌-◌, ◌*◌, ◌/◌, ◌%◌, ◌^◌, ◌<◌, ◌≡◌, some, bit_or, ltb, ◌==◌, not, if◌then◌else◌, u64,
  arith,
}
use native.Mathlib.Nat.{div-le_self}
use net_math.Bits.{bit, bit-bit_or, bit_or-lt}
use net_math.Bits.Place.{bit-shr, bit-high, bit_ext}
use net_math.Calc.{Solution, Libc, solve, r_left_callback, r_right_callback}
use net_math.Calc.Report.{IsOperands}
use net_math.Calc.Shift.{HasBits, shl-HasBits, wrapped_places, shl64-lt, shr64-lt}

-- A rotation by `k` places, as the code computes it from the left operand.
pub rotated_left : ℕ → ℕ → ℕ
rotated_left w k = if not (0 == k) then bit_or (u64 (w * 2 ^ k)) (w / 2 ^ (64 - k)) else w

pub rotated_right : ℕ → ℕ → ℕ
rotated_right w k = if not (0 == k) then bit_or (w / 2 ^ k) (u64 (w * 2 ^ (64 - k))) else w

module _ (c : Libc) (eq : Solution) where
  pub r_left_word :
      r_left_callback c eq ≡ some (solve c eq (rotated_left eq.l_operand (eq.r_operand % 64)))
  unfolding r_left_callback rotated_left
  r_left_word = rw (wrapped_places eq.r_operand) (
      ground (
        arith,
        shl64-lt eq.l_operand (eq.r_operand % 64) (omega arith),
        shr64-lt eq.l_operand (64 - eq.r_operand % 64),
      ))

  pub r_right_word :
      r_right_callback c eq ≡ some (solve c eq (rotated_right eq.l_operand (eq.r_operand % 64)))
  unfolding r_right_callback rotated_right
  r_right_word = rw (wrapped_places eq.r_operand) (
      ground (
        arith,
        shr64-lt eq.l_operand (eq.r_operand % 64) (omega arith),
        shl64-lt eq.l_operand (64 - eq.r_operand % 64),
      ))

module _ (w k : ℕ) (fits : w < 2 ^ 64) (hk : k < 64) where
  pub rotated_left-lt : rotated_left w k < 2 ^ 64
  unfolding rotated_left
  rotated_left-lt =
      ground
        (arith, bit_or-lt 64 (u64 (w * 2 ^ k)) (w / 2 ^ (64 - k)), div-le_self w (2 ^ (64 - k)))

  pub rotated_right-lt : rotated_right w k < 2 ^ 64
  unfolding rotated_right
  rotated_right-lt =
      ground (arith, bit_or-lt 64 (w / 2 ^ k) (u64 (w * 2 ^ (64 - k))), div-le_self w (2 ^ k))

  rotated_left-HasBits :
      HasBits (rotated_left w k) (λ i. if ltb i 64 then bit w ((i + 64 - k) % 64) else 0)
  unfolding rotated_left
  rotated_left-HasBits i = ground (
    arith,
    bit-bit_or i (u64 (w * 2 ^ k)) (w / 2 ^ (64 - k)),
    shl-HasBits k w i,
    bit-shr (64 - k) i w,
    bit-high 64 (i + (64 - k)) w fits,
    bit-high 64 i w fits,
  )

  rotated_right-HasBits :
      HasBits (rotated_right w k) (λ i. if ltb i 64 then bit w ((i + k) % 64) else 0)
  unfolding rotated_right
  rotated_right-HasBits i = ground (
    arith,
    bit-bit_or i (w / 2 ^ k) (u64 (w * 2 ^ (64 - k))),
    shl-HasBits (64 - k) w i,
    bit-shr k i w,
    bit-high 64 (i + k) w fits,
    bit-high 64 i w fits,
  )

rotated_right-left : (w k : ℕ) → w < 2 ^ 64 → k < 64 → rotated_right (rotated_left w k) k ≡ w
rotated_right-left w k fits hk =
    let mid : rotated_left w k < 2 ^ 64 = rotated_left-lt w k fits hk in
    bit_ext 64 (rotated_right (rotated_left w k) k) w (rotated_right-lt (rotated_left w k) k mid hk)
      fits
      λ i. ground (
        arith,
        rotated_right-HasBits (rotated_left w k) k mid hk i,
        rotated_left-HasBits w k fits hk ((i + k) % 64),
        bit-high 64 i w fits,
      )

-- For operands of 64 bits the rotations are never undefined. They move each bit up or down by the
-- right operand modulo 64, around the end of the word, and set no bit above it.
pub rotate-HasBits :
    (c : Libc) (eq : Solution)
    → IsOperands eq
    → (left : ℕ) × (right : ℕ) × (r_left_callback c eq ≡ some (solve c eq left))
      × (r_right_callback c eq ≡ some (solve c eq right))
      × HasBits left
          (λ i. if ltb i 64 then bit eq.l_operand ((i + 64 - eq.r_operand % 64) % 64) else 0)
      × HasBits right (λ i. if ltb i 64 then bit eq.l_operand ((i + eq.r_operand % 64) % 64) else 0)
rotate-HasBits c eq fits =
    let k = eq.r_operand % 64 in
    (
      rotated_left eq.l_operand k,
      rotated_right eq.l_operand k,
      r_left_word c eq,
      r_right_word c eq,
      rotated_left-HasBits eq.l_operand k fits.l_fits (omega arith),
      rotated_right-HasBits eq.l_operand k fits.l_fits (omega arith),
    )

-- For operands of 64 bits, rotating left and then rotating the result right by the same operand
-- gives the left operand back.
pub r_right-r_left :
    (c : Libc) (eq : Solution)
    → IsOperands eq
    → (mid : Solution) × (back : Solution) × (r_left_callback c eq ≡ some mid)
      × (r_right_callback c (record eq { l_operand = mid.solution }) ≡ some back)
      × (back.solution ≡ eq.l_operand)
r_right-r_left c eq fits =
    let w = rotated_left eq.l_operand (eq.r_operand % 64) in
    let turned : Solution = record eq { l_operand = w } in
    (
      solve c eq w,
      solve c turned (rotated_right w (eq.r_operand % 64)),
      r_left_word c eq,
      r_right_word c turned,
      rotated_right-left eq.l_operand (eq.r_operand % 64) fits.l_fits (omega arith),
    )
