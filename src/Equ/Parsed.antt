-- ===== src/Equ/Parsed.antt =====
-- What `parse_stream` makes of any bytes: the fields by their places in the file.
use net_math.Base.{
  ℕ, zero, suc, ◌+◌, ◌-◌, ◌*◌, ◌^◌, ◌<◌, ◌≤◌, ◌≡◌, refl, sym, ap, ◌∙◌, List, [], ◌∷◌, ◌++◌, none,
  Bool, true, false, if◌then◌else◌, arith, length, take, drop, drop-drop, length-drop, le_value,
  ◌==◌,
}
use mathlib.Core.List.{append_assoc, append-nil}
use net_math.Io.{World, done, null, alloc, skip}
use net_math.Stream.Laws.{at_input, read_stream-at, read_stream-short, read_stream-then_short}
use net_math.Equ.{UnsolvedEq, Equations, read_node, read_nodes}

-- The number in the `size` bytes at an offset.
abbrev pub field_at : (offset size : ℕ) → List ℕ → ℕ
field_at offset size bs = le_value (take size (drop offset bs))

-- An equation takes 22 bytes, and 10 of padding.
abbrev pub equation_at : List ℕ → UnsolvedEq
equation_at bs = record {
  eq_id = field_at 0 4 bs;
  flags = field_at 4 1 bs;
  l_operand = field_at 5 8 bs;
  opt = field_at 13 1 bs;
  r_operand = field_at 14 8 bs;
  solution = none;
}

-- From one equation to the next: only a file that can be sought has its padding skipped.
abbrev pub stride : (seekable : Bool) → ℕ
stride true = 32
stride false = 22

abbrev pub equations_at : (stride count : ℕ) → List ℕ → List UnsolvedEq
equations_at stride zero bs = []
equations_at stride (suc count) bs = equation_at bs ∷ equations_at stride count (drop stride bs)

-- The header of the file takes 27 bytes, and the equations are looked for next to it.
abbrev pub file_at : (stride : ℕ) → List ℕ → Equations
file_at stride bs = record {
  magic_id = field_at 0 4 bs;
  file_id = field_at 4 8 bs;
  number_of_eq = field_at 12 8 bs;
  flags = field_at 20 1 bs;
  offset = field_at 21 4 bs;
  num_of_opts = field_at 25 2 bs;
  eqs = equations_at stride (field_at 12 8 bs) (drop 27 bs);
}

skip-stride :
    (seekable : Bool) (bs : List ℕ)
    → (if seekable then drop 10 (drop 22 bs) else drop 22 bs) ≡ drop (stride seekable) bs
skip-stride true bs = drop-drop 22 10 bs
skip-stride false bs = refl

pub stride_lower : (seekable : Bool) → 22 ≤ stride seekable
stride_lower true = omega arith
stride_lower false = omega arith

pub times-suc : (s n : ℕ) → s * suc n ≡ s + s * n
times-suc s n = grind arith

pub read_node-equation_at :
    (count : ℕ) (w : World)
    → w.allocs ≡ []
    → 22 ≤ length w.input
    → read_node count w ≡ done (equation_at w.input) (at_input w (drop (stride w.seekable) w.input))
unfolding read_node skip
read_node-equation_at count w m h =
    let xs = w.input in
    rw
      (
        read_stream-at (count + 2) 0 3 xs w refl m (omega arith),
        read_stream-at (count + 2) 4 0 xs (at_input w (drop 4 xs)) refl m (omega arith),
        read_stream-at (count + 2) 5 7 xs (at_input w (drop 5 xs)) refl m (omega arith),
        read_stream-at (count + 2) 13 0 xs (at_input w (drop 13 xs)) refl m (omega arith),
        read_stream-at (count + 2) 14 7 xs (at_input w (drop 14 xs)) refl m (omega arith),
        skip-stride w.seekable xs,
      )
      refl

pub read_node-short :
    (count : ℕ) (w : World)
    → w.allocs ≡ []
    → length w.input < 22
    → read_node count w ≡ null (record w { input = []; live = w.live + 2 - (count + 2) })
unfolding read_node
read_node-short count w m h = read_stream-then_short (count + 2) 3 18 _ w m h λ eq_id rest₁ h₁.
    read_stream-then_short (count + 2) 0 17 _ (at_input w rest₁) m h₁ λ flags rest₂ h₂.
      read_stream-then_short (count + 2) 7 9 _ (at_input w rest₂) m h₂ λ l rest₃ h₃.
        read_stream-then_short (count + 2) 0 8 _ (at_input w rest₃) m h₃
          λ opt rest₄ h₄. rw (read_stream-short (count + 2) 8 (at_input w rest₄) m h₄)

pub read_nodes-equations_at :
    (left i : ℕ) (have : List UnsolvedEq) (w : World)
    → w.allocs ≡ []
    → 22 + stride w.seekable * left ≤ length w.input + stride w.seekable
    → i + left < 2 ^ 31
    → read_nodes left i have w
      ≡ done
          (have ++ equations_at (stride w.seekable) left w.input)
          (record w { input = drop (stride w.seekable * left) w.input; live = w.live + left })
unfolding read_nodes alloc
read_nodes-equations_at zero i have w m h few =
    let same_live : w.live ≡ w.live + 0 = omega arith in
    let nothing : 0 ≡ stride w.seekable * 0 = omega arith in
    λ j.
      done (sym (append-nil have) j)
        (record w { input = drop (nothing j) w.input; live = same_live j })
read_nodes-equations_at (suc left) i have w m h few =
    let xs = w.input in
    let s = stride w.seekable in
    let w₁ : World = record w { allocs = []; live = w.live + 1 } in
    let w₂ = at_input w₁ (drop s xs) in
    let same_live : w.live + 1 + left ≡ w.live + suc left = omega arith in
    let inside : (i == 2 ^ 31 - 1) ≡ false = ground arith in
    let enough : 22 ≤ length xs = omega (arith, h, times-suc s left) in
    let length_left : 22 + s * left ≤ length (drop s xs) + s =
      omega (arith, h, stride_lower w.seekable, times-suc s left, length-drop s xs) in
    let further : drop (s * left) (drop s xs) ≡ drop (s * suc left) xs =
      drop-drop s (s * left) xs ∙ ap (λ (k : ℕ). drop k xs) (sym (times-suc s left)) in
    rw
      (
        m,
        read_node-equation_at i w₁ refl enough,
        inside,
        read_nodes-equations_at left (i + 1) (have ++ equation_at xs ∷ []) w₂ refl length_left
            (omega arith),
      )
      λ j.
        done (append_assoc have (equation_at xs ∷ []) (equations_at s left (drop s xs)) j)
          (record w { input = further j; allocs = []; live = same_live j })
