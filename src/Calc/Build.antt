-- ===== src/Calc/Build.antt =====
-- `get_equation_struct` of src/calculation/calculation.c.
use Prim.Native.String.{String}
use net_math.Base.{
  ℕ, ◌<◌, ◌^◌, ◌≡◌, ◌⊎◌, inl, inr, some, none, Option, Bool, true, false, arith, refl, to_int64,
  Bool-cases,
}
use net_math.Calc.{Solution, Libc, EqResult, EqEvalType, strdup, unsolved, get_equation_struct}
use net_math.Calc.Operation.{IsValue}
use net_math.Calc.Mul.{traps}
use net_math.Calc.Resolve.{
  is_arithmetic, Resolved, failed, signed, unsigned, Evaluated, trapped, returned,
  resolve_equation-Evaluated,
}

-- A value is signed exactly after an arithmetic operation that was solved.
abbrev pub sign_of : Bool → EqEvalType
sign_of true = EqEvalType.eq_val_signed
sign_of false = EqEvalType.eq_val_unsigned

-- Solved with the value of the operation and no message, or failed with a message, if memory for it was found, and
-- no value.
abbrev pub IsSettled : Libc → (l_operand opt r_operand : ℕ) → Solution → Type 0
IsSettled c l_operand opt r_operand s =
    ((s.result ≡ EqResult.eq_solved)
      × (s.error_msg ≡ none)
      × (s.sign ≡ sign_of (is_arithmetic opt))
      × (s.solution < 2 ^ 64)
      × IsValue l_operand opt r_operand s.solution)
    ⊎ ((text : String) × (s.result ≡ EqResult.eq_failure)
        × (s.error_msg ≡ strdup c text)
        × (s.sign ≡ EqEvalType.eq_val_unsigned)
        × (s.solution ≡ 0))

-- `s` is an answer to the call.
pub record IsAnswer (c : Libc) (equation_id l_operand opt r_operand : ℕ) (s : Solution)
    : Type 0 where
  pub same_id : s.eq_id ≡ equation_id
  pub same_operands : (s.l_operand ≡ l_operand) × (s.r_operand ≡ r_operand)
  pub same_opt : s.opt ≡ opt
  pub settled : IsSettled c l_operand opt r_operand s

module _ (c : Libc) (equation_id l_operand opt r_operand : ℕ) (l_fits : l_operand < 2 ^ 64)
    (r_fits : r_operand < 2 ^ 64) where
  Resolved-IsAnswer :
      {s : Solution}
      → Resolved c (unsolved equation_id l_operand opt r_operand) s
      → IsAnswer c equation_id l_operand opt r_operand s
  Resolved-IsAnswer (failed text h) = record {
    same_id = refl;
    same_operands = (refl, refl);
    same_opt = refl;
    settled = inr (text, refl, refl, refl, refl);
  }
  Resolved-IsAnswer (signed z h v) = record {
    same_id = refl;
    same_operands = (refl, refl);
    same_opt = refl;
    settled = inl (refl, refl, rw h, ground arith, inl (z, v, refl));
  }
  Resolved-IsAnswer (unsigned w h v lt) = record {
    same_id = refl;
    same_operands = (refl, refl);
    same_opt = refl;
    settled = inl (refl, refl, ground arith, lt, inr v);
  }

  Evaluated-cases :
      {o : Option Solution}
      → Evaluated c (unsolved equation_id l_operand opt r_operand) o
      → ((o ≡ none) × (opt ≡ 3) × (traps (to_int64 l_operand) (to_int64 r_operand) ≡ true))
        ⊎ ((s : Solution) × (o ≡ some s) × IsAnswer c equation_id l_operand opt r_operand s)
  Evaluated-cases (trapped e h) = inl (refl, e, h)
  Evaluated-cases (returned {s} _ r) = inr (s, refl, Resolved-IsAnswer r)

  -- For operands of 64 bits and any operator byte, a call returns NULL without memory, is undefined
  -- at the trap of the multiplication, or returns an answer: a structure with the identifier, the
  -- operator and the operands of the call, that is solved, or failed with a message, as far as there
  -- is memory for it, and 0. Where it is solved it has no message, the sign of its kind of operation,
  -- and a value of 64 bits, which is that of the operation that its operator byte stands for.
  pub get_equation_struct-IsAnswer :
      ((c.malloc_ok ≡ false)
        × (get_equation_struct c equation_id l_operand opt r_operand ≡ some none))
      ⊎ (((opt ≡ 3)
            × (traps (to_int64 l_operand) (to_int64 r_operand) ≡ true)
            × (get_equation_struct c equation_id l_operand opt r_operand ≡ none))
          ⊎ ((s : Solution) × (get_equation_struct c equation_id l_operand opt r_operand
                ≡ some (some s))
              × IsAnswer c equation_id l_operand opt r_operand s))
  unfolding get_equation_struct
  get_equation_struct-IsAnswer = elim (Bool-cases c.malloc_ok) [
    | inr failed_alloc ↦ inl (failed_alloc, ground arith)
    | inl ok ↦
        inr
          (elim (Evaluated-cases (
            resolve_equation-Evaluated c (unsolved equation_id l_operand opt r_operand)
              (record { l_fits = l_fits; r_fits = r_fits }))) [
                | inl (e, three, trap) ↦ inl (three, trap, ground arith)
                | inr (s, e, is) ↦ inr (s, ground arith, is)
              ])
  ]
