-- ===== src/Bits/Step.antt =====
-- The lowest digit of `bit_and`, `bit_or` and `bit_xor`, and what is above it. Each native
-- operation stands for a recursion that counts digits down; here the count goes away.
use Prim.Native.Nat.{differ, digits, bitwise, bit_and-bitwise, bit_or-bitwise, bit_xor-bitwise}
use net_math.Base.{
  ℕ, zero, suc, ◌+◌, ◌*◌, ◌/◌, ◌%◌, ◌<◌, ◌≤◌, ◌≡◌, refl, min, max, bit_and, bit_or, bit_xor, arith,
}

module _ (rest : ℕ → ℕ) (digit : ℕ → ℕ → ℕ) where
  -- A count that is at least the first number gives all its digits. The bound `m` is what the
  -- recursion goes down on, since both sides of the equation are run again at a half.
  settled : (m k x y : ℕ) → x < m → x ≤ k → digits rest digit k x y ≡ bitwise rest digit x y
  settled zero k x y below enough = absurd (omega arith)
  settled (suc m) zero zero y below enough = refl
  settled (suc m) (suc k) zero y below enough = refl
  settled (suc m) zero (suc x) y below enough = absurd (omega arith)
  settled (suc m) (suc k) (suc x) y below enough = rw (
    settled m k (suc x / 2) (y / 2) (omega arith) (omega arith),
    settled m x (suc x / 2) (y / 2) (omega arith) (omega arith),
  )

  lowest_digit :
      (x y : ℕ)
      → bitwise rest digit (suc x) y
        ≡ bitwise rest digit (suc x / 2) (y / 2) * 2 + digit (suc x % 2) (y % 2)
  lowest_digit x y = rw (settled (suc x) x (suc x / 2) (y / 2) (omega arith) (omega arith))

differ_digit : (x y : ℕ) → differ (x % 2) (y % 2) ≡ (x + y) % 2
differ_digit x y = go (x % 2) (y % 2) (omega arith) (omega arith) (omega arith)
  where
    go : (i j : ℕ) → i ≤ 1 → j ≤ 1 → (i + j) % 2 ≡ (x + y) % 2 → differ i j ≡ (x + y) % 2
    go zero j p q e = omega arith
    go (suc zero) zero p q e = omega arith
    go (suc zero) (suc zero) p q e = omega arith
    go (suc zero) (suc (suc j)) p q e = absurd (omega arith)
    go (suc (suc i)) j p q e = absurd (omega arith)

pub bit_xor_step : (x y : ℕ) → bit_xor x y ≡ bit_xor (x / 2) (y / 2) * 2 + (x + y) % 2
bit_xor_step zero y = simp bit_xor-bitwise (omega arith)
bit_xor_step (suc x) y =
    simp (bit_xor-bitwise, ← differ_digit (suc x) y) (lowest_digit (λ u. u) differ x y)

pub bit_and_step : (x y : ℕ) → bit_and x y ≡ bit_and (x / 2) (y / 2) * 2 + min (x % 2) (y % 2)
bit_and_step zero y = simp bit_and-bitwise (omega arith)
bit_and_step (suc x) y = simp bit_and-bitwise (lowest_digit (λ u. 0) min x y)

pub bit_or_step : (x y : ℕ) → bit_or x y ≡ bit_or (x / 2) (y / 2) * 2 + max (x % 2) (y % 2)
bit_or_step zero y = simp bit_or-bitwise (omega arith)
bit_or_step (suc x) y = simp bit_or-bitwise (lowest_digit (λ u. u) max x y)
