-- ===== src/Equ/Cut.antt =====
-- The loop of `parse_stream` on bytes that end early, and on more equations than an `int` counts.
use net_math.Base.{
  ℕ, zero, suc, ◌+◌, ◌-◌, ◌*◌, ◌^◌, ◌<◌, ◌≤◌, ◌≡◌, refl, ap, List, [], ◌∷◌, ◌++◌, dec_lt, true,
  false, arith, length, drop, length-drop, ◌==◌,
}
use net_math.Io.{World, null, fault, alloc}
use net_math.Stream.Laws.{at_input}
use net_math.Equ.{UnsolvedEq, read_nodes}
use net_math.Equ.Parsed.{
  equation_at, stride, stride_lower, times-suc, read_node-equation_at, read_node-short,
}

times-ge : (s n : ℕ) → 0 < s * n → s ≤ s * n
times-ge s zero h = absurd (omega arith)
times-ge s (suc n) h = omega (arith, times-suc s n)

-- What a whole equation leaves is short of the other ones.
still_short : (s l n : ℕ) → 22 ≤ s → 22 ≤ l → l + s < 22 + s * suc n → (l - s) + s < 22 + s * n
still_short s l n low enough h =
    omega (arith, times-suc s n, times-ge s n (omega (arith, h, times-suc s n)))

not_last : (s room i : ℕ) → i + suc room ≡ 2 ^ 31 → 0 < s * room → (i == 2 ^ 31 - 1) ≡ false
not_last s zero i fit h = absurd (omega arith)
not_last s (suc room) i fit h = ground arith

-- `room` rounds are left before the counter overflows.
pub read_nodes-short :
    (left room i : ℕ) (have : List UnsolvedEq) (w : World)
    → w.allocs ≡ []
    → i + room ≡ 2 ^ 31
    → length w.input + stride w.seekable < 22 + stride w.seekable * left
    → length w.input + stride w.seekable < 22 + stride w.seekable * room
    → read_nodes left i have w ≡ null (record w { input = []; live = w.live + 1 - i })
unfolding read_nodes alloc
read_nodes-short zero room i have w m fit h few = absurd (omega (arith, stride_lower w.seekable))
read_nodes-short (suc left) zero i have w m fit h few =
    absurd (omega (arith, stride_lower w.seekable))
read_nodes-short (suc left) (suc room) i have w m fit h few =
    let xs = w.input in
    let s = stride w.seekable in
    let w₁ : World = record w { allocs = []; live = w.live + 1 } in
    let w₂ = at_input w₁ (drop s xs) in
    let lower : 22 ≤ s = stride_lower w.seekable in
    elim (dec_lt (length xs) 22) [
      | yes cut ↦
          rw (m, read_node-short i w₁ refl cut)
            (ap (λ (k : ℕ). null (record w { input = []; allocs = []; live = k })) (omega arith))
      | no enough ↦
          let fewer : length (drop s xs) + s < 22 + s * left =
            omega (arith, length-drop s xs, still_short s (length xs) left lower (omega arith) h) in
          let less_room : length (drop s xs) + s < 22 + s * room =
            omega
              (arith, length-drop s xs, still_short s (length xs) room lower (omega arith) few) in
          let inside : (i == 2 ^ 31 - 1) ≡ false =
            not_last s room i fit (omega (arith, less_room)) in
          rw
            (
              m,
              read_node-equation_at i w₁ refl (omega arith),
              inside,
              read_nodes-short left room (i + 1) (have ++ equation_at xs ∷ []) w₂ refl (omega arith)
                  fewer less_room,
            )
            (ap (λ (k : ℕ). null (record w { input = []; allocs = []; live = k })) (omega arith))
    ]

pub read_nodes-overflow :
    (left room i : ℕ) (have : List UnsolvedEq) (w : World)
    → w.allocs ≡ []
    → i + suc room ≡ 2 ^ 31
    → room < left
    → 22 + stride w.seekable * room ≤ length w.input
    → read_nodes left i have w ≡ fault
unfolding read_nodes alloc
read_nodes-overflow zero room i have w m fit many h = absurd (omega arith)
read_nodes-overflow (suc left) zero i have w m fit many h =
    let w₁ : World = record w { allocs = []; live = w.live + 1 } in
    let last : (i == 2 ^ 31 - 1) ≡ true = ground arith in
    rw (m, read_node-equation_at i w₁ refl (omega arith), last)
read_nodes-overflow (suc left) (suc room) i have w m fit many h =
    let xs = w.input in
    let s = stride w.seekable in
    let w₁ : World = record w { allocs = []; live = w.live + 1 } in
    let w₂ = at_input w₁ (drop s xs) in
    let inside : (i == 2 ^ 31 - 1) ≡ false = ground arith in
    let enough : 22 + s * room ≤ length (drop s xs) =
      omega (arith, h, length-drop s xs, times-suc s room) in
    rw (
      m,
      read_node-equation_at i w₁ refl (omega arith),
      inside,
      read_nodes-overflow left room (i + 1) (have ++ equation_at xs ∷ []) w₂ refl (omega arith)
          (omega arith) enough,
    )
