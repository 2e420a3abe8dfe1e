-- ===== src/Calc.antt =====
-- src/calculation/calculation.c and include/calculation.h: one equation and its evaluation.
pub mod Text
pub mod Range
pub mod Report
pub mod AddSub
pub mod Mul
pub mod Div
pub mod Shift
pub mod Rotate
pub mod Operation
pub mod Resolve
pub mod Build
pub mod Tests
use Prim.Native.String.{String}
use net_math.Base.{
  ℕ, ◌-◌, ◌%◌, Bool, Option, none, some, bit_and, bit_or, bit_xor, ltb, ◌==◌, if◌then◌else◌, not,
  ◌&&◌, ◌>>=◌, and_then, ℤ, pos, negsuc, ltb_ℤ, eqb_ℤ, int64_max, int64_min, to_int64, to_uint64,
  add_int64, sub_int64, mul_int64, div_int64, rem_int64, shl64, shr64,
}
use Text.{overflow_text, underflow_text, zero_text}

pub data EqEvalType : Type 0 where
  eq_val_signed eq_val_unsigned : EqEvalType

pub data EqResult : Type 0 where
  eq_failure eq_solved eq_unsolved : EqResult

-- `error_msg` is `none` where the pointer is NULL.
pub record Solution : Type 0 where
  pub eq_id : ℕ
  pub error_msg : Option String
  pub l_operand : ℕ
  pub r_operand : ℕ
  pub solution : ℕ
  pub sign : EqEvalType
  pub result : EqResult
  pub opt : ℕ

-- What the C library answers: whether `malloc` and `strdup` find memory, and the text that
-- `snprintf` leaves in the buffer of `unknown_callback`.
pub record Libc : Type 0 where
  pub malloc_ok : Bool
  pub strdup_ok : Bool
  pub unknown_text : ℕ → String

abbrev pub max_bits : ℕ
max_bits = 64

module _ (c : Libc) where
  abbrev pub strdup : String → Option String
  strdup text = if c.strdup_ok then some text else none

  -- The three lines of each error branch.
  abbrev pub fail : Solution → String → Solution
  fail eq text = record eq { error_msg = strdup text; result = EqResult.eq_failure }

  -- The three lines at the end of each signed operation.
  abbrev pub solve_signed : Solution → ℤ → Solution
  solve_signed eq z = record eq {
    solution = to_uint64 z;
    sign = EqEvalType.eq_val_signed;
    result = EqResult.eq_solved;
  }

  abbrev pub solve : Solution → ℕ → Solution
  solve eq w = record eq { solution = w; result = EqResult.eq_solved }

  pub add_callback : Solution → Option Solution
  add_callback eq = do
    let l = to_int64 eq.l_operand
    let r = to_int64 eq.r_operand
    over ← and_then (ltb_ℤ (pos 0) r) (do bound ← sub_int64 int64_max r; some (ltb_ℤ bound l))
    if over then some (fail eq overflow_text) else do
      under ← and_then (ltb_ℤ r (pos 0)) (do bound ← sub_int64 int64_min r; some (ltb_ℤ l bound))
      if under
          then some (fail eq underflow_text)
          else do z ← add_int64 l r; some (solve_signed eq z)

  pub sub_callback : Solution → Option Solution
  sub_callback eq = do
    let l = to_int64 eq.l_operand
    let r = to_int64 eq.r_operand
    over ← and_then (ltb_ℤ r (pos 0)) (do bound ← add_int64 int64_max r; some (ltb_ℤ bound l))
    if over then some (fail eq overflow_text) else do
      under ← and_then (ltb_ℤ (pos 0) r) (do bound ← add_int64 int64_min r; some (ltb_ℤ l bound))
      if under
          then some (fail eq underflow_text)
          else do z ← sub_int64 l r; some (solve_signed eq z)

  -- `mul_callback` from its third guard on.
  pub mul_bounds : Solution → ℤ → ℤ → Option Solution
  mul_bounds eq l r = do
    over ← and_then (not (eqb_ℤ (pos 0) r)) (do bound ← div_int64 int64_max r; some (ltb_ℤ bound l))
    if over then some (fail eq overflow_text) else do
      under ←
          and_then (not (eqb_ℤ (pos 0) r)) (do bound ← div_int64 int64_min r; some (ltb_ℤ l bound))
      if under
          then some (fail eq underflow_text)
          else do z ← mul_int64 l r; some (solve_signed eq z)

  pub mul_callback : Solution → Option Solution
  mul_callback eq =
      let l = to_int64 eq.l_operand in
      let r = to_int64 eq.r_operand in
      if eqb_ℤ (negsuc 0) l && eqb_ℤ int64_min r
      then some (fail eq overflow_text)
      else if eqb_ℤ (negsuc 0) r && eqb_ℤ int64_min l
      then some (fail eq overflow_text)
      else mul_bounds eq l r

  pub div_callback : Solution → Option Solution
  div_callback eq =
      let l = to_int64 eq.l_operand in
      let r = to_int64 eq.r_operand in
      if eqb_ℤ (pos 0) r
      then some (fail eq zero_text)
      else if eqb_ℤ int64_min l && eqb_ℤ (negsuc 0) r
      then some (fail eq overflow_text)
      else if eqb_ℤ int64_min r && eqb_ℤ (negsuc 0) l
      then some (fail eq overflow_text)
      else do z ← div_int64 l r; some (solve_signed eq z)

  pub mod_callback : Solution → Option Solution
  mod_callback eq =
      let l = to_int64 eq.l_operand in
      let r = to_int64 eq.r_operand in
      if eqb_ℤ (pos 0) r
      then some (fail eq zero_text)
      else if eqb_ℤ int64_min l && eqb_ℤ (negsuc 0) r
      then some (fail eq overflow_text)
      else if eqb_ℤ int64_min r && eqb_ℤ (negsuc 0) l
      then some (fail eq overflow_text)
      else do z ← rem_int64 l r; some (solve_signed eq z)

  pub s_left_callback : Solution → Option Solution
  s_left_callback eq = do
    let r = if ltb (max_bits - 1) eq.r_operand then eq.r_operand % max_bits else eq.r_operand
    w ← shl64 eq.l_operand r
    some (solve eq w)

  pub s_right_callback : Solution → Option Solution
  s_right_callback eq = do
    let r = if ltb (max_bits - 1) eq.r_operand then max_bits - 1 else eq.r_operand
    w ← shr64 eq.l_operand r
    some (solve eq w)

  pub and_callback : Solution → Option Solution
  and_callback eq = some (solve eq (bit_and eq.l_operand eq.r_operand))

  pub or_callback : Solution → Option Solution
  or_callback eq = some (solve eq (bit_or eq.l_operand eq.r_operand))

  pub xor_callback : Solution → Option Solution
  xor_callback eq = some (solve eq (bit_xor eq.l_operand eq.r_operand))

  pub r_left_callback : Solution → Option Solution
  r_left_callback eq =
      let r = if ltb (max_bits - 1) eq.r_operand then eq.r_operand % max_bits else eq.r_operand in
      if not (0 == r)
      then (do
        high ← shl64 eq.l_operand r
        low ← shr64 eq.l_operand (max_bits - r)
        some (solve eq (bit_or high low)))
      else some (solve eq eq.l_operand)

  pub r_right_callback : Solution → Option Solution
  r_right_callback eq =
      let r = if ltb (max_bits - 1) eq.r_operand then eq.r_operand % max_bits else eq.r_operand in
      if not (0 == r)
      then (do
        low ← shr64 eq.l_operand r
        high ← shl64 eq.l_operand (max_bits - r)
        some (solve eq (bit_or low high)))
      else some (solve eq eq.l_operand)

  pub unknown_callback : Solution → Option Solution
  unknown_callback eq = some (fail eq (c.unknown_text eq.opt))

  -- The `switch` on the operator byte.
  pub resolve_equation : Solution → Option Solution
  resolve_equation eq =
      if eq.opt == 0x01
      then add_callback eq
      else if eq.opt == 0x02
      then sub_callback eq
      else if eq.opt == 0x03
      then mul_callback eq
      else if eq.opt == 0x04
      then div_callback eq
      else if eq.opt == 0x05
      then mod_callback eq
      else if eq.opt == 0x06
      then s_left_callback eq
      else if eq.opt == 0x07
      then s_right_callback eq
      else if eq.opt == 0x08
      then and_callback eq
      else if eq.opt == 0x09
      then or_callback eq
      else if eq.opt == 0x0a
      then xor_callback eq
      else if eq.opt == 0x0b
      then r_left_callback eq
      else if eq.opt == 0x0c
      then r_right_callback eq
      else unknown_callback eq

-- The equation before its evaluation.
abbrev pub unsolved : (equation_id l_operand opt r_operand : ℕ) → Solution
unsolved equation_id l_operand opt r_operand = record {
  eq_id = equation_id;
  error_msg = none;
  l_operand = l_operand;
  r_operand = r_operand;
  solution = 0;
  sign = EqEvalType.eq_val_unsigned;
  result = EqResult.eq_unsolved;
  opt = opt;
}

-- The outer `none` is undefined behaviour, the inner one the NULL that is returned without memory.
pub get_equation_struct :
    Libc → (equation_id l_operand opt r_operand : ℕ) → Option (Option Solution)
get_equation_struct c equation_id l_operand opt r_operand =
    if not c.malloc_ok
    then some none
    else do eq ← resolve_equation c (unsolved equation_id l_operand opt r_operand); some (some eq)
