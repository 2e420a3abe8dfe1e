-- ===== src/Bits/Place.antt =====
-- Where shifts and wrapping put each bit of a word.
use native.Mathlib.Nat.{
  pow-suc, pow-succ', one-le-pow, div-div-eq-div-mul, mul-one, zero-div, div-one, add-zero,
  mod-eq_of_lt, mod-lt, add-mul-mod_self_right, div-add-mod',
}
use net_math.Base.{
  ℕ, zero, suc, ◌+◌, ◌-◌, ◌*◌, ◌/◌, ◌%◌, ◌^◌, ◌<◌, ◌≤◌, ◌≡◌, ap, sym, ◌∙◌, ltb, if◌then◌else◌,
  arith,
}
use net_math.Bits.{bit, bit-suc, double}

-- No bit stands above the width of a word.
pub bit-high : (n i w : ℕ) → w < 2 ^ n → n ≤ i → bit w i ≡ 0
bit-high zero i w h le = let e : w ≡ 0 = omega arith in rw (e, zero-div)
bit-high (suc n) zero w h le = absurd (omega arith)
bit-high (suc n) (suc i) w h le =
    rw (bit-suc w i) (bit-high n i (w / 2) (omega (arith, pow-suc 2 n)) (omega arith))

mod-pow-suc : (n w : ℕ) → w % 2 ^ suc n ≡ w / 2 % 2 ^ n * 2 + w % 2
mod-pow-suc n w =
    ap (λ (t : ℕ). t % 2 ^ suc n) split ∙ add-mul-mod_self_right _ _ _ ∙ mod-eq_of_lt small
  where
    low : ℕ
    low = w / 2 % 2 ^ n * 2 + w % 2

    split : w ≡ low + w / 2 / 2 ^ n * 2 ^ suc n
    split = omega (arith, double (w / 2 / 2 ^ n) n, div-add-mod' (w / 2) (2 ^ n))

    small : low < 2 ^ suc n
    small = omega (arith, pow-suc 2 n, mod-lt (w / 2) (one-le-pow n 2 (omega arith)))

-- Wrapping to `n` bits keeps the bits below `n` and clears the others.
pub bit-mod : (n i w : ℕ) → bit (w % 2 ^ n) i ≡ (if ltb i n then bit w i else 0)
bit-mod zero i w = let e : w % 1 ≡ 0 = omega arith in rw e (ground (arith, zero-div (2 ^ i)))
bit-mod (suc n) zero w = ground (arith, mod-pow-suc n w)
bit-mod (suc n) (suc i) w =
    ground (arith, bit-suc (w % 2 ^ suc n) i, bit-suc w i, bit-mod n i (w / 2), mod-pow-suc n w)

pub bit-shr : (k i w : ℕ) → bit (w / 2 ^ k) i ≡ bit w (i + k)
bit-shr zero i w = rw (add-zero, div-one)
bit-shr (suc k) i w =
    rw (pow-succ' 2 k, ← div-div-eq-div-mul w 2 (2 ^ k), bit-shr k i (w / 2), ← bit-suc w (i + k))
      (ap (bit w) (omega arith))

pub bit-shl : (k i w : ℕ) → bit (w * 2 ^ k) i ≡ (if ltb i k then 0 else bit w (i - k))
bit-shl zero i w = ground (arith, mul-one w)
bit-shl (suc k) zero w = ground (arith, double w k)
bit-shl (suc k) (suc i) w = ground (arith, bit-suc (w * 2 ^ suc k) i, double w k, bit-shl k i w)

-- Words of `n` bits are equal if their bits are.
pub bit_ext : (n a b : ℕ) → a < 2 ^ n → b < 2 ^ n → ((i : ℕ) → bit a i ≡ bit b i) → a ≡ b
bit_ext zero a b ha hb same = omega arith
bit_ext (suc n) a b ha hb same =
    let halves : a / 2 ≡ b / 2 =
      bit_ext n (a / 2) (b / 2) (omega (arith, pow-suc 2 n)) (omega (arith, pow-suc 2 n))
        (λ i. sym (bit-suc a i) ∙ same (suc i) ∙ bit-suc b i) in
    omega (arith, same 0)
