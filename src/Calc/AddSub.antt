-- ===== src/Calc/AddSub.antt =====
-- `add_callback` and `sub_callback` of src/calculation/calculation.c.
use net_math.Base.{◌≡◌, some, ◌+ℤ◌, ◌-ℤ◌, to_int64}
use net_math.Calc.{Solution, Libc, add_callback, sub_callback}
use net_math.Calc.Range.{add_over, add_under, sub_over, sub_under}
use net_math.Calc.Report.{IsOperands, report, report-int64, to_int64-left, to_int64-right}

module _ (c : Libc) (eq : Solution) (fits : IsOperands eq) where
  -- For operands of 64 bits addition is never undefined. It solves the equation with the exact
  -- sum of the two signed operands if that fits an `int64_t`, and fails with the overflow or the
  -- underflow message if it lies above or below.
  pub add_callback-report :
      add_callback c eq ≡ some (report c eq (to_int64 eq.l_operand +ℤ to_int64 eq.r_operand))
  unfolding add_callback
  add_callback-report =
      rw
        (
          add_over (to_int64 eq.l_operand) (to_int64 eq.r_operand) (to_int64-left fits)
              (to_int64-right fits),
          add_under (to_int64 eq.l_operand) (to_int64 eq.r_operand) (to_int64-left fits)
              (to_int64-right fits),
        )
        (report-int64 c eq ((to_int64 eq.l_operand) +ℤ (to_int64 eq.r_operand)))

  -- For operands of 64 bits subtraction is never undefined. It solves the equation with the exact
  -- difference of the two signed operands if that fits an `int64_t`, and fails with the overflow or
  -- the underflow message if it lies above or below.
  pub sub_callback-report :
      sub_callback c eq ≡ some (report c eq (to_int64 eq.l_operand -ℤ to_int64 eq.r_operand))
  unfolding sub_callback
  sub_callback-report =
      rw
        (
          sub_over (to_int64 eq.l_operand) (to_int64 eq.r_operand) (to_int64-left fits)
              (to_int64-right fits),
          sub_under (to_int64 eq.l_operand) (to_int64 eq.r_operand) (to_int64-left fits)
              (to_int64-right fits),
        )
        (report-int64 c eq ((to_int64 eq.l_operand) -ℤ (to_int64 eq.r_operand)))
