-- ===== src/Calc/Operation.antt =====
-- The operation that each operator byte of src/calculation/calculation.c stands for.
use net_math.Base.{
  ℕ, ◌*◌, ◌/◌, ◌%◌, ◌^◌, ◌≡◌, ◌⊎◌, ◌+ℤ◌, ◌-ℤ◌, ◌*ℤ◌, ℤ, min, u64, to_int64, to_uint64, bit_and,
  bit_or, bit_xor,
}
use net_math.Calc.Div.{IsQuotient}
use net_math.Calc.Rotate.{rotated_left, rotated_right}

-- The exact integer that an arithmetic operation has for two signed operands.
pub data IsExact (l r : ℤ) (opt : ℕ) : ℤ → Type 0 where
  sum : opt ≡ 1 → IsExact l r opt (l +ℤ r)
  difference : opt ≡ 2 → IsExact l r opt (l -ℤ r)
  product : opt ≡ 3 → IsExact l r opt (l *ℤ r)
  quotient : {q m : ℤ} → opt ≡ 4 → IsQuotient l r q m → IsExact l r opt q
  remainder : {q m : ℤ} → opt ≡ 5 → IsQuotient l r q m → IsExact l r opt m

-- The word that an operation on bits has for two words. A shift to the left takes its count modulo
-- 64, and one to the right takes one above 63 as 63.
pub data IsWord (l r opt : ℕ) : ℕ → Type 0 where
  left_shift : opt ≡ 6 → IsWord l r opt (u64 (l * 2 ^ (r % 64)))
  right_shift : opt ≡ 7 → IsWord l r opt (l / 2 ^ min r 63)
  conjunction : opt ≡ 8 → IsWord l r opt (bit_and l r)
  disjunction : opt ≡ 9 → IsWord l r opt (bit_or l r)
  exclusive : opt ≡ 10 → IsWord l r opt (bit_xor l r)
  left_rotation : opt ≡ 11 → IsWord l r opt (rotated_left l (r % 64))
  right_rotation : opt ≡ 12 → IsWord l r opt (rotated_right l (r % 64))

-- A solution of 64 bits is the value of the operation.
abbrev pub IsValue : (l_operand opt r_operand : ℕ) → (solution : ℕ) → Type 0
IsValue l_operand opt r_operand solution =
    ((z : ℤ) × IsExact (to_int64 l_operand) (to_int64 r_operand) opt z × (solution ≡ to_uint64 z))
    ⊎ IsWord l_operand r_operand opt solution
