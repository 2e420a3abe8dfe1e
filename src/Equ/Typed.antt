-- ===== src/Equ/Typed.antt =====
-- Every file that `parse_stream` returns is one of the format, whatever the bytes are.
use net_math.Base.{
  ℕ, zero, suc, ◌<◌, ◌^◌, ◌≡◌, refl, sym, ap, true, List, [], ◌∷◌, Bool-cases, inl, inr, arith,
  length, take, drop, IsBytes, le_value, ltb, ltb→lt, ◌==◌, ◌||◌, ◌∙◌,
}
use native.Mathlib.Nat.{pow-suc}
use net_math.Io.{World, Outcome, done, null, fault}
use net_math.Header.Parsed.{IsBytes-drop}
use net_math.Equ.{Equations, magic_value, parse_stream}
use net_math.Equ.Format.{IsUnsolved, AllUnsolved, IsFile}
use net_math.Equ.Parsed.{field_at, stride, equation_at, equations_at, file_at}
use net_math.Equ.Bytes.{IsStream, needed, file_outcome, parse_stream-file_outcome}

-- At most `n` bytes make a number of `n` bytes.
take-lt : (n : ℕ) (bs : List ℕ) → IsBytes bs → le_value (take n bs) < 256 ^ n
take-lt zero bs h = omega arith
take-lt (suc n) [] h = omega (arith, pow-suc 256 n, take-lt n [] tt)
take-lt (suc n) (b ∷ bs) h = omega (arith, h.0, take-lt n bs h.1, pow-suc 256 n)

field_at-lt : (offset size : ℕ) (bs : List ℕ) → IsBytes bs → field_at offset size bs < 256 ^ size
field_at-lt offset size bs h = take-lt size (drop offset bs) (IsBytes-drop offset bs h)

equation_at-IsUnsolved : (bs : List ℕ) → IsBytes bs → IsUnsolved (equation_at bs)
equation_at-IsUnsolved bs h = record {
  id_fits = field_at-lt 0 4 bs h;
  flags_fits = field_at-lt 4 1 bs h;
  l_fits = field_at-lt 5 8 bs h;
  opt_fits = field_at-lt 13 1 bs h;
  r_fits = field_at-lt 14 8 bs h;
  not_solved = refl;
}

equations_at-AllUnsolved : (s n : ℕ) (bs : List ℕ) → IsBytes bs → AllUnsolved (equations_at s n bs)
equations_at-AllUnsolved s zero bs h = tt
equations_at-AllUnsolved s (suc n) bs h =
    (equation_at-IsUnsolved bs h, equations_at-AllUnsolved s n (drop s bs) (IsBytes-drop s bs h))

length-equations_at : (s n : ℕ) (bs : List ℕ) → length (equations_at s n bs) ≡ n
length-equations_at s zero bs = refl
length-equations_at s (suc n) bs = ap suc (length-equations_at s n (drop s bs))

file_at-IsFile :
    (s : ℕ) (bs : List ℕ)
    → IsBytes bs
    → (magic_value == field_at 0 4 bs) ≡ true
    → field_at 12 8 bs < 2 ^ 31
    → IsFile (file_at s bs)
file_at-IsFile s bs h right few = record {
  magic = ground (arith, right);
  id_fits = field_at-lt 4 8 bs h;
  counted = sym (length-equations_at s (field_at 12 8 bs) (drop 27 bs));
  few = few;
  flags_fits = field_at-lt 20 1 bs h;
  offset_fits = field_at-lt 21 4 bs h;
  opts_fit = field_at-lt 25 2 bs h;
  unsolved = equations_at-AllUnsolved s (field_at 12 8 bs) (drop 27 bs) (IsBytes-drop 27 bs h);
}

ReturnsFile : Outcome Equations → Type 0
ReturnsFile (done file w) = IsFile file
ReturnsFile (null w) = Unit {0}
ReturnsFile fault = Unit {0}

file_outcome-ReturnsFile : (w : World) → IsBytes w.input → ReturnsFile (file_outcome w)
unfolding ReturnsFile
file_outcome-ReturnsFile w h =
    let bs = w.input in
    elim (Bool-cases (magic_value == field_at 0 4 bs)) [
      | inr wrong ↦ rw wrong tt
      | inl right ↦
          elim (Bool-cases
            (ltb (length bs) 27 || ltb (length bs) (needed (stride w.seekable) bs))) [
              | inl cut ↦ rw (right, cut) tt
              | inr whole ↦ elim (Bool-cases (ltb (field_at 12 8 bs) (2 ^ 31))) [
                | inr many ↦ rw (right, whole, many) tt
                | inl few ↦
                    rw (right, whole, few)
                      (file_at-IsFile (stride w.seekable) bs h right (ltb→lt _ _ few))
              ]
            ]
    ]

-- With memory, a first `read` that is not cut short, and any bytes: a file that `parse_stream`
-- returns has the magic number, as many equations as it says and fewer than 2 ^ 31, none of them
-- evaluated, and each field of it and of its equations fits its C type.
pub parse_stream-IsFile :
    (w w' : World) (file : Equations)
    → IsStream w
    → IsBytes w.input
    → parse_stream w ≡ done file w'
    → IsFile file
unfolding ReturnsFile
parse_stream-IsFile w w' file ok bytes e =
    let outcome : file_outcome w ≡ done file w' = sym (parse_stream-file_outcome w ok) ∙ e in
    rw outcome at (file_outcome-ReturnsFile w bytes)
