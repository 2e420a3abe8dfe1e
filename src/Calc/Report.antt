-- ===== src/Calc/Report.antt =====
-- What the signed operations of src/calculation/calculation.c are to report for an exact result.
use net_math.Base.{
  int64, ◌<◌, ◌^◌, ◌≡◌, some, arith, if◌then◌else◌, ℤ, ltb_ℤ, int64_max, int64_min, to_int64, ◌>>=◌,
}
use net_math.Calc.{Solution, Libc, fail, solve_signed}
use net_math.Calc.Text.{overflow_text, underflow_text}
use net_math.Calc.Range.{IsInt64, to_int64-IsInt64}

pub record IsOperands (eq : Solution) : Type 0 where
  pub l_fits : eq.l_operand < 2 ^ 64
  pub r_fits : eq.r_operand < 2 ^ 64

-- The outcome that the exact result `z` calls for.
abbrev pub report : Libc → Solution → ℤ → Solution
report c eq z =
    if ltb_ℤ int64_max z
    then fail c eq overflow_text
    else if ltb_ℤ z int64_min
    then fail c eq underflow_text
    else solve_signed c eq z

-- Once both tests have failed the sum or difference is defined.
pub report-int64 :
    (c : Libc) (eq : Solution) (z : ℤ)
    → (if ltb_ℤ int64_max z
        then some (fail c eq overflow_text)
        else if ltb_ℤ z int64_min
        then some (fail c eq underflow_text)
        else (int64 z >>= λ y. some (solve_signed c eq y)))
      ≡ some (report c eq z)
report-int64 c eq z = ground arith

pub to_int64-left : {eq : Solution} → IsOperands eq → IsInt64 (to_int64 eq.l_operand)
to_int64-left {eq} fits = to_int64-IsInt64 eq.l_operand fits.l_fits

pub to_int64-right : {eq : Solution} → IsOperands eq → IsInt64 (to_int64 eq.r_operand)
to_int64-right {eq} fits = to_int64-IsInt64 eq.r_operand fits.r_fits
