-- ===== src/Calc/Range.antt =====
-- How each guard of the signed operations reads in terms of the exact result.
use native.Mathlib.Nat.{div-lt_iff_lt-mul, div-le_self}
use net_math.Base.{
  ◌↔◌, ℕ, ◌/◌, ◌*◌, ◌<◌, ◌≤◌, ◌^◌, ◌≡◌, some, ◌>>=◌, and_then, arith, ltb, ℤ, pos, negsuc, ◌+ℤ◌,
  ◌-ℤ◌, ◌≤ℤ◌, ltb_ℤ, int64_max, int64_min, to_int64, add_int64, sub_int64, div_int64, suc, ◌*ℤ◌,
  ◌/ℤ◌,
}

pub record IsInt64 (z : ℤ) : Type 0 where
  pub lower : int64_min ≤ℤ z
  pub upper : z ≤ℤ int64_max

pub to_int64-IsInt64 : (w : ℕ) → w < 2 ^ 64 → IsInt64 (to_int64 w)
to_int64-IsInt64 w h = ground arith

module _ (l r : ℤ) (hl : IsInt64 l) (hr : IsInt64 r) where
  pub add_over :
      and_then (ltb_ℤ (pos 0) r) (sub_int64 int64_max r >>= λ bound. some (ltb_ℤ bound l))
      ≡ some (ltb_ℤ int64_max (l +ℤ r))
  unfolding ◌+ℤ◌ ◌-ℤ◌
  add_over = ground arith

  pub add_under :
      and_then (ltb_ℤ r (pos 0)) (sub_int64 int64_min r >>= λ bound. some (ltb_ℤ l bound))
      ≡ some (ltb_ℤ (l +ℤ r) int64_min)
  unfolding ◌+ℤ◌ ◌-ℤ◌
  add_under = ground arith

  pub sub_over :
      and_then (ltb_ℤ r (pos 0)) (add_int64 int64_max r >>= λ bound. some (ltb_ℤ bound l))
      ≡ some (ltb_ℤ int64_max (l -ℤ r))
  unfolding ◌+ℤ◌ ◌-ℤ◌
  sub_over = ground arith

  pub sub_under :
      and_then (ltb_ℤ (pos 0) r) (add_int64 int64_min r >>= λ bound. some (ltb_ℤ l bound))
      ≡ some (ltb_ℤ (l -ℤ r) int64_min)
  unfolding ◌+ℤ◌ ◌-ℤ◌
  sub_under = ground arith

-- The test by division is the test on the product.
lt-div : (m a b : ℕ) → ltb (m / suc b) a ≡ ltb m (a * suc b)
lt-div m a b =
    let test : (m / suc b < a) ↔ (m < a * suc b) = div-lt_iff_lt-mul {k = suc b} (omega arith) in
    ground arith

div-le : (m b : ℕ) → m / suc b ≤ m
div-le m b = div-le_self m (suc b)

-- A right operand from 1 on: the guards of `mul_callback` are exact.
pub mul_over :
    (l : ℤ) (b : ℕ)
    → (div_int64 int64_max (pos (suc b)) >>= λ bound. some (ltb_ℤ bound l))
      ≡ some (ltb_ℤ int64_max (l *ℤ pos (suc b)))
unfolding ◌*ℤ◌ ◌/ℤ◌
mul_over (pos a) b =
    ground (arith, lt-div 0x7fff_ffff_ffff_ffff a b, div-le 0x7fff_ffff_ffff_ffff b)
mul_over (negsuc a) b = ground (arith, div-le 0x7fff_ffff_ffff_ffff b)

pub mul_under :
    (l : ℤ) (b : ℕ)
    → (div_int64 int64_min (pos (suc b)) >>= λ bound. some (ltb_ℤ l bound))
      ≡ some (ltb_ℤ (l *ℤ pos (suc b)) int64_min)
unfolding ◌*ℤ◌ ◌/ℤ◌
mul_under (pos a) b = ground (arith, div-le 0x8000_0000_0000_0000 b)
mul_under (negsuc a) b =
    ground (arith, lt-div 0x8000_0000_0000_0000 (suc a) b, div-le 0x8000_0000_0000_0000 b)
