-- ===== src/Calc/Tests.antt =====
-- tests/gtest_calculation.cpp, and the theorems of `net_math.Calc` at inputs of that kind.
use net_math.Base.{
  ℕ, ◌≡◌, ◌⊎◌, refl, some, none, Option, true, false, arith, ◌+ℤ◌, ◌-ℤ◌, ◌*ℤ◌, to_int64,
  if◌then◌else◌, ltb, min, max, ◌+◌, ◌-◌, ◌%◌,
}
use net_math.Calc.{
  Solution, Libc, EqResult, unsolved, fail, solve, resolve_equation, get_equation_struct,
  add_callback, sub_callback, mul_callback, div_callback, mod_callback, r_left_callback,
  r_right_callback,
}
use net_math.Calc.Report.{report}
use net_math.Calc
use net_math.Calc.AddSub
use net_math.Calc.Mul
use net_math.Calc.Div
use net_math.Calc.Rotate
use net_math.Calc.Shift
use net_math.Calc.Shift.{HasBits}
use net_math.Calc.Build.{IsAnswer, get_equation_struct-IsAnswer}
use net_math.Bits.{bit}

abbrev libc : Libc
libc = record { malloc_ok = true; strdup_ok = true; unknown_text = λ _. "Unknown operand" }

-- INT64_MAX + 10, INT64_MIN - 10, 5 * -1 and -7 / 2, as bit patterns.
abbrev max_plus_ten : Solution
max_plus_ten = unsolved 0 0x7fff_ffff_ffff_ffff 0x01 10

abbrev min_minus_ten : Solution
min_minus_ten = unsolved 0 0x8000_0000_0000_0000 0x02 10

abbrev thousands : Solution
thousands = unsolved 0 1000 0x03 1_000_000_000

abbrev five_times_minus_one : Solution
five_times_minus_one = unsolved 0 5 0x03 0xffff_ffff_ffff_ffff

abbrev minus_seven_by_two : Solution
minus_seven_by_two = unsolved 0 0xffff_ffff_ffff_fff9 0x04 2

abbrev turn_fifty : Solution
turn_fifty = unsolved 0 90000 0x0b 114

-- The value and the result of an evaluation.
abbrev value : ℕ → ℕ → ℕ → Option (ℕ × EqResult)
value l opt r = elim (get_equation_struct libc 0 l opt r) [
  | some (some s) ↦ some (s.solution, s.result)
  | _ ↦ none
]

rotations :
    (value 90000 0x0b 50 ≡ some (9097271247288401925, EqResult.eq_solved))
    × (value 90000 0x0c 114 ≡ some (0x57e40000, EqResult.eq_solved))
    × (value 1 0x06 64 ≡ some (1, EqResult.eq_solved))
    × (value 1 0x07 64 ≡ some (0, EqResult.eq_solved))
unfolding get_equation_struct resolve_equation Calc.r_left_callback Calc.r_right_callback
    Calc.s_left_callback Calc.s_right_callback
rotations = (refl, refl, refl, refl)

add_callback-report_example :
    add_callback libc max_plus_ten
    ≡ some (report libc max_plus_ten (to_int64 0x7fff_ffff_ffff_ffff +ℤ to_int64 10))
add_callback-report_example =
    AddSub.add_callback-report libc max_plus_ten
      (record { l_fits = omega arith; r_fits = omega arith })

sub_callback-report_example :
    sub_callback libc min_minus_ten
    ≡ some (report libc min_minus_ten (to_int64 0x8000_0000_0000_0000 -ℤ to_int64 10))
sub_callback-report_example =
    AddSub.sub_callback-report libc min_minus_ten
      (record { l_fits = omega arith; r_fits = omega arith })

mul_callback-report_example :
    mul_callback libc thousands
    ≡ some (report libc thousands (to_int64 1000 *ℤ to_int64 1_000_000_000))
mul_callback-report_example = Mul.mul_callback-report libc thousands (omega arith)

mul_callback-negative_example :
    mul_callback libc five_times_minus_one
    ≡ some (fail libc five_times_minus_one "Overflow detected for operation\n")
mul_callback-negative_example =
    Mul.mul_callback-negative libc five_times_minus_one
      (record { l_fits = omega arith; r_fits = omega arith }) (omega arith)

div_mod-DivOutcome_example :
    Div.DivOutcome libc minus_seven_by_two
      (div_callback libc minus_seven_by_two)
      (mod_callback libc minus_seven_by_two)
div_mod-DivOutcome_example =
    Div.div_mod-DivOutcome libc minus_seven_by_two
      (record { l_fits = omega arith; r_fits = omega arith })

r_right-r_left_example :
    (mid : Solution) × (back : Solution) × (r_left_callback libc turn_fifty ≡ some mid)
    × (r_right_callback libc (record turn_fifty { l_operand = mid.solution }) ≡ some back)
    × (back.solution ≡ 90000)
r_right-r_left_example =
    Rotate.r_right-r_left libc turn_fifty (record { l_fits = omega arith; r_fits = omega arith })

get_equation_struct-IsAnswer_example :
    ((libc.malloc_ok ≡ false)
      × (get_equation_struct libc 7 5 0x03 0xffff_ffff_ffff_ffff ≡ some none))
    ⊎ (((◌≡◌ {A = ℕ} 3 3)
          × (Mul.traps (to_int64 5) (to_int64 0xffff_ffff_ffff_ffff) ≡ true)
          × (get_equation_struct libc 7 5 0x03 0xffff_ffff_ffff_ffff ≡ none))
        ⊎ ((s : Solution) × (get_equation_struct libc 7 5 0x03 0xffff_ffff_ffff_ffff
              ≡ some (some s))
            × IsAnswer libc 7 5 0x03 0xffff_ffff_ffff_ffff s))
get_equation_struct-IsAnswer_example =
    get_equation_struct-IsAnswer libc 7 5 0x03 0xffff_ffff_ffff_ffff (omega arith) (omega arith)

rotate-HasBits_example :
    (left : ℕ) × (right : ℕ) × (r_left_callback libc turn_fifty ≡ some (solve libc turn_fifty left))
    × (r_right_callback libc turn_fifty ≡ some (solve libc turn_fifty right))
    × HasBits left (λ i. if ltb i 64 then bit 90000 ((i + 64 - 50) % 64) else 0)
    × HasBits right (λ i. if ltb i 64 then bit 90000 ((i + 50) % 64) else 0)
rotate-HasBits_example =
    Rotate.rotate-HasBits libc turn_fifty (record { l_fits = omega arith; r_fits = omega arith })

shift-HasBits_example :
    (up : ℕ) × (down : ℕ) × (Calc.s_left_callback libc turn_fifty ≡ some (solve libc turn_fifty up))
    × (Calc.s_right_callback libc turn_fifty ≡ some (solve libc turn_fifty down))
    × HasBits up (λ i. if ltb i 64 then (if ltb i 50 then 0 else bit 90000 (i - 50)) else 0)
    × HasBits down (λ i. bit 90000 (i + 63))
shift-HasBits_example = Shift.shift-HasBits libc turn_fifty

bitwise-HasBits_example :
    (a : ℕ) × (o : ℕ) × (x : ℕ) × (Calc.and_callback libc turn_fifty
      ≡ some (solve libc turn_fifty a))
    × (Calc.or_callback libc turn_fifty ≡ some (solve libc turn_fifty o))
    × (Calc.xor_callback libc turn_fifty ≡ some (solve libc turn_fifty x))
    × HasBits a (λ i. min (bit 90000 i) (bit 114 i))
    × HasBits o (λ i. max (bit 90000 i) (bit 114 i))
    × HasBits x (λ i. (bit 90000 i + bit 114 i) % 2)
bitwise-HasBits_example = Shift.bitwise-HasBits libc turn_fifty
