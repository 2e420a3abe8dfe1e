-- ===== src/Calc/Resolve.antt =====
-- `resolve_equation` and `get_equation_struct` of src/calculation/calculation.c.
use Prim.Native.String.{String}
use native.Mathlib.Nat.{div-le_self}
use net_math.Base.{
  ℕ, ◌<◌, ◌^◌, ◌/◌, ◌%◌, ◌≡◌, ◌⊎◌, ◌+ℤ◌, ◌-ℤ◌, ◌*ℤ◌, ◌*◌, inl, inr, some, none, Option, min, leb,
  Bool, true, false, ◌==◌, ltb_ℤ, arith, if◌then◌else◌, ◌&&◌, refl, cond_intro, ℤ, pos, negsuc,
  ◌≤ℤ◌, int64_max, int64_min, to_int64, u64, bit_and, bit_or, bit_xor,
}
use net_math.Bits.{bit_and-lt, bit_or-lt, bit_xor-lt}
use net_math.Calc.{
  Solution, Libc, fail, solve, solve_signed, add_callback, sub_callback, mul_callback, div_callback,
  mod_callback, and_callback, or_callback, xor_callback, unknown_callback, resolve_equation,
}
use net_math.Calc.Report.{IsOperands, report}
use net_math.Calc.AddSub.{add_callback-report, sub_callback-report}
use net_math.Calc.Mul.{mul_callback-report, mul_callback-negative, traps}
use net_math.Calc.Div.{DivOutcome, by_zero, refused_pair, divided, div_mod-DivOutcome}
use net_math.Calc.Operation.{
  IsExact, sum, difference, product, quotient, remainder, IsWord, left_shift, right_shift,
  conjunction, disjunction, exclusive, left_rotation, right_rotation,
}
use net_math.Calc.Shift.{s_left_word, s_right_word}
use net_math.Calc.Rotate.{
  rotated_left, rotated_right, rotated_left-lt, rotated_right-lt, r_left_word, r_right_word,
}

abbrev pub is_arithmetic : ℕ → Bool
is_arithmetic opt = leb 1 opt && leb opt 5

abbrev pub is_bitwise : ℕ → Bool
is_bitwise opt = leb 6 opt && leb opt 12

-- What a result keeps of its equation and what it adds.
pub data Resolved (c : Libc) (eq : Solution) : Solution → Type 0 where
  failed : (text : String) → is_bitwise eq.opt ≡ false → Resolved c eq (fail c eq text)
  signed :
      (z : ℤ)
      → is_arithmetic eq.opt ≡ true
      → IsExact (to_int64 eq.l_operand) (to_int64 eq.r_operand) eq.opt z
      → Resolved c eq (solve_signed c eq z)
  unsigned :
      (w : ℕ)
      → is_bitwise eq.opt ≡ true
      → IsWord eq.l_operand eq.r_operand eq.opt w
      → w < 2 ^ 64
      → Resolved c eq (solve c eq w)

IsWord-is_bitwise : {l r opt w : ℕ} → IsWord l r opt w → is_bitwise opt ≡ true
IsWord-is_bitwise (left_shift e) = ground arith
IsWord-is_bitwise (right_shift e) = ground arith
IsWord-is_bitwise (conjunction e) = ground arith
IsWord-is_bitwise (disjunction e) = ground arith
IsWord-is_bitwise (exclusive e) = ground arith
IsWord-is_bitwise (left_rotation e) = ground arith
IsWord-is_bitwise (right_rotation e) = ground arith

-- `none` is the trap of the multiplication, and nothing else.
pub data Evaluated (c : Libc) (eq : Solution) : Option Solution → Type 0 where
  trapped :
      eq.opt ≡ 3
      → traps (to_int64 eq.l_operand) (to_int64 eq.r_operand) ≡ true
      → Evaluated c eq none
  returned :
      {s : Solution}
      → (eq.opt == 3 && traps (to_int64 eq.l_operand) (to_int64 eq.r_operand)) ≡ false
      → Resolved c eq s
      → Evaluated c eq (some s)

sign_cases : (z : ℤ) → (pos 0 ≤ℤ z) ⊎ (z ≤ℤ negsuc 0)
sign_cases (pos n) = inl (omega arith)
sign_cases (negsuc n) = inr (omega arith)

module _ (c : Libc) (eq : Solution) (fits : IsOperands eq) where
  report-Resolved :
      (z : ℤ)
      → is_arithmetic eq.opt ≡ true
      → IsExact (to_int64 eq.l_operand) (to_int64 eq.r_operand) eq.opt z
      → Resolved c eq (report c eq z)
  report-Resolved z h v =
      cond_intro (Resolved c eq) (ltb_ℤ int64_max z) (λ _. failed _ (ground arith))
        λ _.
          cond_intro (Resolved c eq) (ltb_ℤ z int64_min) (λ _. failed _ (ground arith))
            λ _. signed z h v

  add-Evaluated : eq.opt ≡ 1 → Evaluated c eq (add_callback c eq)
  add-Evaluated e = rw (add_callback-report c eq fits) (
      returned (ground arith)
        (report-Resolved (to_int64 eq.l_operand +ℤ to_int64 eq.r_operand) (ground arith) (sum e)))

  sub-Evaluated : eq.opt ≡ 2 → Evaluated c eq (sub_callback c eq)
  sub-Evaluated e = rw (sub_callback-report c eq fits) (
      returned (ground arith) (
        report-Resolved (to_int64 eq.l_operand -ℤ to_int64 eq.r_operand) (ground arith)
          (difference e)))

  mul-Evaluated : eq.opt ≡ 3 → Evaluated c eq (mul_callback c eq)
  mul-Evaluated e = elim (sign_cases (to_int64 eq.r_operand)) [
    | inl up ↦ rw (mul_callback-report c eq up) (
        returned (ground arith) (
          report-Resolved (to_int64 eq.l_operand *ℤ to_int64 eq.r_operand) (ground arith)
            (product e)))
    | inr down ↦ rw (mul_callback-negative c eq fits down) (
        cond_intro (Evaluated c eq) (traps (to_int64 eq.l_operand) (to_int64 eq.r_operand))
          (λ h. trapped e h) (λ h. returned (ground arith) (failed _ (ground arith))))
  ]

  DivOutcome-Evaluated :
      {a b : Option Solution}
      → DivOutcome c eq a b
      → (eq.opt ≡ 4 → Evaluated c eq a) × (eq.opt ≡ 5 → Evaluated c eq b)
  DivOutcome-Evaluated (by_zero _) = (
    λ e. returned (ground arith) (failed _ (ground arith)),
    λ e. returned (ground arith) (failed _ (ground arith)),
  )
  DivOutcome-Evaluated (refused_pair _) = (
    λ e. returned (ground arith) (failed _ (ground arith)),
    λ e. returned (ground arith) (failed _ (ground arith)),
  )
  DivOutcome-Evaluated (divided {q} {m} _ _ is) = (
    λ e. returned (ground arith) (signed q (ground arith) (quotient e is)),
    λ e. returned (ground arith) (signed m (ground arith) (remainder e is)),
  )

  div-Evaluated : eq.opt ≡ 4 → Evaluated c eq (div_callback c eq)
  div-Evaluated = (DivOutcome-Evaluated (div_mod-DivOutcome c eq fits)).0

  mod-Evaluated : eq.opt ≡ 5 → Evaluated c eq (mod_callback c eq)
  mod-Evaluated = (DivOutcome-Evaluated (div_mod-DivOutcome c eq fits)).1

  bitwise-Evaluated :
      {o : Option Solution} (w : ℕ)
      → IsWord eq.l_operand eq.r_operand eq.opt w
      → o ≡ some (solve c eq w)
      → w < 2 ^ 64
      → Evaluated c eq o
  bitwise-Evaluated w v e lt =
      let h = IsWord-is_bitwise v in rw e (returned (ground arith) (unsigned w h v lt))

  switch :
      {x y : Option Solution} (b : Bool)
      → (b ≡ true → Evaluated c eq x)
      → (b ≡ false → Evaluated c eq y)
      → Evaluated c eq (if b then x else y)
  switch b hit miss = cond_intro (Evaluated c eq) b hit miss

  -- The `switch` is total: every operator byte ends in a result, but for the trap.
  pub resolve_equation-Evaluated : Evaluated c eq (resolve_equation c eq)
  unfolding resolve_equation and_callback or_callback xor_callback unknown_callback
  resolve_equation-Evaluated =
      let l = eq.l_operand in
      let r = eq.r_operand in
      switch (eq.opt == 1) (λ h. add-Evaluated (ground arith))
        λ n1.
          switch (eq.opt == 2) (λ h. sub-Evaluated (ground arith))
            λ n2.
              switch (eq.opt == 3) (λ h. mul-Evaluated (ground arith))
                λ n3.
                  switch (eq.opt == 4) (λ h. div-Evaluated (ground arith))
                    λ n4.
                      switch (eq.opt == 5) (λ h. mod-Evaluated (ground arith))
                        λ n5.
                          switch (eq.opt == 6)
                            (λ h.
                              bitwise-Evaluated (u64 (l * 2 ^ (r % 64))) (left_shift (ground arith))
                                (s_left_word c eq) (omega arith))
                            λ n6.
                              switch (eq.opt == 7)
                                (λ h.
                                  bitwise-Evaluated (l / 2 ^ min r 63) (right_shift (ground arith))
                                    (s_right_word c eq)
                                    (omega (arith, div-le_self l (2 ^ min r 63), fits.l_fits)))
                                λ n7.
                                  switch (eq.opt == 8)
                                    (λ h.
                                      bitwise-Evaluated (bit_and l r) (conjunction (ground arith))
                                        refl (bit_and-lt 64 l r fits.l_fits))
                                    λ n8.
                                      switch (eq.opt == 9)
                                        (λ h.
                                          bitwise-Evaluated (bit_or l r)
                                            (disjunction (ground arith)) refl
                                            (bit_or-lt 64 l r fits.l_fits fits.r_fits))
                                        λ n9.
                                          switch (eq.opt == 10)
                                            (λ h.
                                              bitwise-Evaluated (bit_xor l r)
                                                (exclusive (ground arith)) refl
                                                (bit_xor-lt 64 l r fits.l_fits fits.r_fits))
                                            λ n10.
                                              switch (eq.opt == 11)
                                                (λ h.
                                                  bitwise-Evaluated (rotated_left l (r % 64))
                                                    (left_rotation (ground arith))
                                                    (r_left_word c eq)
                                                    (rotated_left-lt l (r % 64) fits.l_fits
                                                      (omega arith)))
                                                λ n11.
                                                  switch (eq.opt == 12)
                                                    (λ h.
                                                      bitwise-Evaluated (rotated_right l (r % 64))
                                                        (right_rotation (ground arith))
                                                        (r_right_word c eq)
                                                        (rotated_right-lt l (r % 64) fits.l_fits
                                                          (omega arith)))
                                                    λ n12. returned (ground arith) (
                                                      failed (c.unknown_text eq.opt) (ground arith))
