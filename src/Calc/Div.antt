-- ===== src/Calc/Div.antt =====
-- `div_callback` and `mod_callback` of src/calculation/calculation.c.
use native.Mathlib.Nat.{div-add-mod', div-le_self, div-lt_self}
use net_math.Base.{
  ℕ, zero, suc, ◌+◌, ◌*◌, ◌/◌, ◌%◌, ◌<◌, ◌≤◌, ◌≡◌, Option, some, arith, Bool, true, false, ◌&&◌,
  ◌||◌, Bool-cases, inl, inr, ℤ, pos, negsuc, pos_part, neg_part, ◌+ℤ◌, ◌*ℤ◌, ◌/ℤ◌, ◌%ℤ◌, eqb_ℤ,
  fits_int64, int64_min, to_int64,
}
use net_math.Calc.{Solution, Libc, fail, solve_signed, div_callback, mod_callback}
use net_math.Calc.Text.{zero_text, overflow_text}
use net_math.Calc.Range.{IsInt64}
use net_math.Calc.Report.{IsOperands, to_int64-left}

-- The pairs that the guards of both operations refuse.
abbrev pub refused : (l r : ℤ) → Bool
refused l r = (eqb_ℤ int64_min l && eqb_ℤ (negsuc 0) r) || (eqb_ℤ int64_min r && eqb_ℤ (negsuc 0) l)

-- `q` and `m` are the quotient of `l` by `r`, rounded toward zero, and its remainder.
pub record IsQuotient (l r q m : ℤ) : Type 0 where
  pub split : l ≡ q *ℤ r +ℤ m
  pub small : pos_part m + neg_part m < pos_part r + neg_part r
  pub same_sign : (pos_part m * neg_part l ≡ 0) × (neg_part m * pos_part l ≡ 0)

mod-lt_suc : (a b : ℕ) → a % suc b < suc b
mod-lt_suc a b = omega arith

div_mod_suc : (a b : ℕ) → a / suc b * suc b + a % suc b ≡ a
div_mod_suc a b = div-add-mod' a (suc b)

IsQuotient-div : (l r : ℤ) → eqb_ℤ (pos 0) r ≡ false → IsQuotient l r (l /ℤ r) (l %ℤ r)
unfolding ◌+ℤ◌ ◌*ℤ◌ ◌/ℤ◌ ◌%ℤ◌
IsQuotient-div l (pos zero) h = absurd (ground arith)
IsQuotient-div (pos a) (pos (suc b)) h = record {
  split = ground (arith, div_mod_suc a b);
  small = ground arith;
  same_sign = (ground arith, ground arith);
}
IsQuotient-div (pos a) (negsuc b) h = record {
  split = ground (arith, div_mod_suc a b);
  small = ground arith;
  same_sign = (ground arith, ground arith);
}
IsQuotient-div (negsuc a) (pos (suc b)) h = record {
  split = ground (arith, div_mod_suc (suc a) b);
  small = ground arith;
  same_sign = (ground arith, ground arith);
}
IsQuotient-div (negsuc a) (negsuc b) h = record {
  split = ground (arith, div_mod_suc (suc a) b);
  small = ground arith;
  same_sign = (ground arith, ground arith);
}

div-le : (a b : ℕ) → a / suc b ≤ a
div-le a b = div-le_self a (suc b)

div-lt_half : (a b : ℕ) → 0 < a → 0 < b → a / suc b < a
div-lt_half a b ha hb = div-lt_self ha (omega arith)

-- Off the refused pairs the quotient of two `int64_t` is one.
fits-div :
    (l r : ℤ)
    → IsInt64 l
    → eqb_ℤ (pos 0) r ≡ false
    → refused l r ≡ false
    → fits_int64 (l /ℤ r) ≡ true
unfolding ◌/ℤ◌
fits-div l (pos zero) hl n h = cc
fits-div (pos a) (pos (suc b)) hl n h = ground (arith, div-le a b)
fits-div (pos a) (negsuc b) hl n h = ground (arith, div-le a b)
fits-div (negsuc a) (pos (suc b)) hl n h = ground (arith, div-le (suc a) b)
fits-div (negsuc a) (negsuc zero) hl n h = ground arith
fits-div (negsuc a) (negsuc (suc b)) hl n h = ground (arith, div-lt_half (suc a) (suc b))

module _ (c : Libc) (eq : Solution) (fits : IsOperands eq) where
  -- A divisor of zero.
  pub div_mod-zero :
      to_int64 eq.r_operand ≡ pos 0
      → (div_callback c eq ≡ some (fail c eq zero_text))
        × (mod_callback c eq ≡ some (fail c eq zero_text))
  unfolding div_callback mod_callback
  div_mod-zero e = (rw e, rw e)

  -- The refused pairs.
  pub div_mod-refused :
      refused (to_int64 eq.l_operand) (to_int64 eq.r_operand) ≡ true
      → (div_callback c eq ≡ some (fail c eq overflow_text))
        × (mod_callback c eq ≡ some (fail c eq overflow_text))
  unfolding div_callback mod_callback
  div_mod-refused h = (ground arith, ground arith)

  -- Everything else.
  pub div_mod-IsQuotient :
      eqb_ℤ (pos 0) (to_int64 eq.r_operand) ≡ false
      → refused (to_int64 eq.l_operand) (to_int64 eq.r_operand) ≡ false
      → (q : ℤ) × (m : ℤ) × (div_callback c eq ≡ some (solve_signed c eq q))
        × (mod_callback c eq ≡ some (solve_signed c eq m))
        × IsQuotient (to_int64 eq.l_operand) (to_int64 eq.r_operand) q m
  unfolding div_callback mod_callback
  div_mod-IsQuotient nonzero plain =
      let l = to_int64 eq.l_operand in
      let r = to_int64 eq.r_operand in
      let ok = fits-div l r (to_int64-left fits) nonzero plain in
      (l /ℤ r, l %ℤ r, ground arith, ground arith, IsQuotient-div l r nonzero)

-- What the two operations report for the operands of `eq`, on every branch.
pub data DivOutcome (c : Libc) (eq : Solution) : Option Solution → Option Solution → Type 0 where
  by_zero :
      to_int64 eq.r_operand ≡ pos 0
      → DivOutcome c eq (some (fail c eq zero_text)) (some (fail c eq zero_text))
  refused_pair :
      refused (to_int64 eq.l_operand) (to_int64 eq.r_operand) ≡ true
      → DivOutcome c eq (some (fail c eq overflow_text)) (some (fail c eq overflow_text))
  divided :
      {q m : ℤ}
      → eqb_ℤ (pos 0) (to_int64 eq.r_operand) ≡ false
      → refused (to_int64 eq.l_operand) (to_int64 eq.r_operand) ≡ false
      → IsQuotient (to_int64 eq.l_operand) (to_int64 eq.r_operand) q m
      → DivOutcome c eq (some (solve_signed c eq q)) (some (solve_signed c eq m))

eq_zero : (z : ℤ) → eqb_ℤ (pos 0) z ≡ true → z ≡ pos 0
eq_zero z h = ground arith

-- For operands of 64 bits neither division nor remainder is ever undefined. Both fail with the
-- message for a divisor of zero or for a refused pair, and otherwise solve the equation with the
-- quotient rounded toward zero and the remainder of the sign of the left operand.
pub div_mod-DivOutcome :
    (c : Libc) (eq : Solution)
    → IsOperands eq
    → DivOutcome c eq (div_callback c eq) (mod_callback c eq)
div_mod-DivOutcome c eq fits = elim (Bool-cases (eqb_ℤ (pos 0) (to_int64 eq.r_operand))) [
  | inl zero_divisor ↦
      let e = eq_zero (to_int64 eq.r_operand) zero_divisor in
      let both = div_mod-zero c eq fits e in rw (both.0, both.1) (by_zero e)
  | inr nonzero ↦ elim (Bool-cases (refused (to_int64 eq.l_operand) (to_int64 eq.r_operand))) [
    | inl special ↦
        let both = div_mod-refused c eq fits special in rw (both.0, both.1) (refused_pair special)
    | inr plain ↦
        let (q, m, of_div, of_mod, is) = div_mod-IsQuotient c eq fits nonzero plain in
        rw (of_div, of_mod) (divided nonzero plain is)
  ]
]
