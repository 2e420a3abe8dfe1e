-- ===== src/Calc/Mul.antt =====
-- `mul_callback` of src/calculation/calculation.c.
use native.Mathlib.Nat.{div-le_self, le-div_iff_mul-le}
use Prim.Native.String.{String}
use net_math.Base.{
  pos, negsuc, ◌≤ℤ◌, ◌*ℤ◌, zero, suc, ℕ, ◌<◌, ◌≡◌, some, arith, if◌then◌else◌, ℤ, ltb_ℤ, int64_min,
  to_int64, Bool, false, inl, inr, Bool-cases,
}
use net_math.Calc.{mul_callback, Solution, Libc, fail}
use net_math.Calc.Text.{overflow_text, underflow_text}
use net_math.Calc.Range.{IsInt64, mul_over, mul_under}
use net_math.Base.{◌||◌, ◌&&◌, eqb_ℤ, neg_of, neg_part, ◌/ℤ◌, none, ◌/◌, pos_part, ◌≤◌}
use net_math.Calc.{mul_bounds}
use net_math.Calc.Report.{IsOperands, report, report-int64, to_int64-left, to_int64-right}

*ℤ-zero : (l : ℤ) → l *ℤ pos 0 ≡ pos 0
unfolding ◌*ℤ◌
*ℤ-zero (pos a) = ground arith
*ℤ-zero (negsuc a) = ground arith

zero-ne-suc : (b : ℕ) → eqb_ℤ (pos 0) (pos (suc b)) ≡ false
zero-ne-suc b = ground arith

div-pos : (m b : ℕ) → 0 < b → b ≤ m → 0 < m / b
div-pos m b hb h = (le-div_iff_mul-le {x = 1} {y = m} hb).1 (omega arith)

pos_of_nonneg : (z : ℤ) → pos 0 ≤ℤ z → z ≡ pos (pos_part z)
pos_of_nonneg z h = ground arith

mul_bounds-pos :
    (c : Libc) (eq : Solution) (l : ℤ) (n : ℕ)
    → mul_bounds c eq l (pos n) ≡ some (report c eq (l *ℤ pos n))
unfolding mul_bounds
mul_bounds-pos c eq l zero = rw *ℤ-zero
mul_bounds-pos c eq l (suc b) =
    rw (zero-ne-suc b, mul_over l b, mul_under l b) (report-int64 c eq (l *ℤ pos (suc b)))

mul_callback-pos :
    (c : Libc) (eq : Solution) (n : ℕ)
    → to_int64 eq.r_operand ≡ pos n
    → mul_callback c eq ≡ some (report c eq (to_int64 eq.l_operand *ℤ to_int64 eq.r_operand))
unfolding mul_callback
mul_callback-pos c eq n e = ground (arith, mul_bounds-pos c eq (to_int64 eq.l_operand) n)

-- With a right operand that is not negative, multiplication is never undefined. It solves the
-- equation with the exact product if that fits an `int64_t`, and fails with the overflow or the
-- underflow message if it lies above or below.
pub mul_callback-report :
    (c : Libc) (eq : Solution)
    → pos 0 ≤ℤ to_int64 eq.r_operand
    → mul_callback c eq ≡ some (report c eq (to_int64 eq.l_operand *ℤ to_int64 eq.r_operand))
mul_callback-report c eq h =
    mul_callback-pos c eq (pos_part (to_int64 eq.r_operand))
      (pos_of_nonneg (to_int64 eq.r_operand) h)

-- For a negative right operand both guards compare `l` with a quotient of the wrong sign.
abbrev pub wraps : (l r : ℤ) → Bool
wraps l r = (eqb_ℤ (negsuc 0) l && eqb_ℤ int64_min r) || (eqb_ℤ (negsuc 0) r && eqb_ℤ int64_min l)

abbrev pub negative_text : (l r : ℤ) → String
negative_text l r =
    if ltb_ℤ (neg_of (0x7fff_ffff_ffff_ffff / neg_part r)) l || wraps l r
    then overflow_text
    else underflow_text

-- `INT64_MIN / -1`, evaluated by the last guard.
abbrev pub traps : (l r : ℤ) → Bool
traps l r = eqb_ℤ (negsuc 0x7fff_ffff_ffff_fffe) l && eqb_ℤ (negsuc 0) r

mul_bounds-negsuc :
    (c : Libc) (eq : Solution) (l : ℤ) (b : ℕ)
    → IsInt64 l
    → IsInt64 (negsuc b)
    → wraps l (negsuc b) ≡ false
    → mul_bounds c eq l (negsuc b)
      ≡ (if traps l (negsuc b) then none else some (fail c eq (negative_text l (negsuc b))))
unfolding mul_bounds ◌/ℤ◌
mul_bounds-negsuc c eq l zero hl h hx = ground (arith)
mul_bounds-negsuc c eq l (suc b) hl h hx = ground (
  arith,
  div-le_self 0x7fff_ffff_ffff_ffff (suc (suc b)),
  div-le_self 0x8000_0000_0000_0000 (suc (suc b)),
  div-pos 0x8000_0000_0000_0000 (suc (suc b)),
)

-- The two guards before the bounds, and what follows them, at any operands.
mul_guards-negative :
    (c : Libc) (eq : Solution) (l r : ℤ)
    → IsInt64 l
    → IsInt64 r
    → r ≤ℤ negsuc 0
    → (if eqb_ℤ (negsuc 0) l && eqb_ℤ int64_min r
        then some (fail c eq overflow_text)
        else if eqb_ℤ (negsuc 0) r && eqb_ℤ int64_min l
        then some (fail c eq overflow_text)
        else mul_bounds c eq l r)
      ≡ (if traps l r then none else some (fail c eq (negative_text l r)))
mul_guards-negative c eq l (pos n) hl hr h = absurd (omega arith)
mul_guards-negative c eq l (negsuc b) hl hr h = elim (Bool-cases (wraps l (negsuc b))) [
  | inl special ↦ ground arith
  | inr plain ↦ ground (arith, mul_bounds-negsuc c eq l b hl hr plain)
]

-- For operands of 64 bits of which the right one is negative, no product is ever computed: the
-- operation is undefined at INT64_MIN + 1 times -1, and fails everywhere else, with the message
-- that `negative_text` gives.
pub mul_callback-negative :
    (c : Libc) (eq : Solution)
    → IsOperands eq
    → to_int64 eq.r_operand ≤ℤ negsuc 0
    → let l = to_int64 eq.l_operand in
      let r = to_int64 eq.r_operand in
      mul_callback c eq ≡ (if traps l r then none else some (fail c eq (negative_text l r)))
unfolding mul_callback
mul_callback-negative c eq fits h =
    mul_guards-negative c eq (to_int64 eq.l_operand) (to_int64 eq.r_operand) (to_int64-left fits)
      (to_int64-right fits) h
