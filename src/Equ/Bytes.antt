-- ===== src/Equ/Bytes.antt =====
-- `parse_stream` on any bytes.
use net_math.Base.{
  ℕ, ◌+◌, ◌-◌, ◌*◌, ◌^◌, ◌<◌, ◌≤◌, ◌≡◌, refl, List, [], Bool-cases, inl, inr, not, if◌then◌else◌,
  arith, length, drop, drop-drop, length-drop, ltb, ltb→lt, ltb→le, ◌==◌, ◌||◌, ap, sym, ◌∙◌, min,
  true, false,
}
use net_math.Io.{World, Outcome, done, null, fault, pure, and_next, alloc, read}
use net_math.Stream.Laws.{at_input, read_stream-at, read_stream-short, read_stream-then_short}
use net_math.Equ.{Equations, magic_value, read_nodes, parse_stream}
use net_math.Equ.Cut.{read_nodes-short, read_nodes-overflow}
use net_math.Equ.Parsed.{field_at, stride, times-suc, file_at, read_nodes-equations_at}

-- With memory, and a first `read` that is not cut short.
pub record IsStream (w : World) : Type 0 where
  pub memory : w.allocs ≡ []
  pub whole : 4 ≤ w.burst

-- The place after the last field of the last equation that the counter reaches.
abbrev pub needed : (stride : ℕ) → List ℕ → ℕ
needed stride bs = 49 + stride * min (field_at 12 8 bs) (2 ^ 31) - stride

abbrev pub file_outcome : World → Outcome Equations
file_outcome w =
    let count = field_at 12 8 w.input in
    if not (magic_value == field_at 0 4 w.input)
    then null (record w { input = drop 4 w.input })
    else if ltb (length w.input) 27 || ltb (length w.input) (needed (stride w.seekable) w.input)
    then null (record w { input = []; live = w.live + 2 })
    else if ltb count (2 ^ 31)
    then done (file_at (stride w.seekable) w.input) (record w {
      input = drop (27 + stride w.seekable * count) w.input;
      live = w.live + 1 + count;
    })
    else fault

times-min : (s a b : ℕ) → (s * min a b ≤ s * a) × (s * min a b ≤ s * b)
times-min s a b = (grind arith, grind arith)

parse_stream-wrong :
    (w : World)
    → IsStream w
    → (magic_value == field_at 0 4 w.input) ≡ false
    → parse_stream w ≡ null (record w { input = drop 4 w.input })
unfolding parse_stream read
parse_stream-wrong w ok wrong =
    let four : min 4 w.burst ≡ 4 = omega (arith, ok.whole) in rw (four, wrong) refl

module _ (w : World) (ok : IsStream w) (right : (magic_value == field_at 0 4 w.input) ≡ true) where
  abbrev xs : List ℕ
  xs = w.input

  abbrev s : ℕ
  s = stride w.seekable

  abbrev opened : World
  opened = record w { input = drop 4 xs; allocs = []; live = w.live + 1 }

  four : min 4 w.burst ≡ 4
  four = omega (arith, ok.whole)

  parse_stream-no_header :
      length xs < 27 → parse_stream w ≡ null (record w { input = []; live = w.live + 2 })
  unfolding parse_stream alloc read
  parse_stream-no_header h =
      let h₀ : length (drop 4 xs) < 23 = omega (arith, length-drop 4 xs) in
      rw (four, right, ok.memory)
        (read_stream-then_short 1 7 15 _ opened refl h₀ (λ file_id rest₁ h₁.
            read_stream-then_short 1 7 7 _ (at_input opened rest₁) refl h₁ λ number rest₂ h₂.
              read_stream-then_short 1 0 6 _ (at_input opened rest₂) refl h₂ λ flags rest₃ h₃.
                read_stream-then_short 1 3 2 _ (at_input opened rest₃) refl h₃
                  λ offset rest₄ h₄. rw (read_stream-short 1 2 (at_input opened rest₄) refl h₄))
          ∙ ap (λ (k : ℕ). null (record w { input = []; allocs = []; live = k })) (omega arith))

  -- With a whole header, what remains is the loop over the equations.
  parse_stream-header :
      27 ≤ length xs
      → parse_stream w
        ≡ and_next
            (read_nodes (field_at 12 8 xs) 0 [] (at_input opened (drop 27 xs)))
            (λ eqs. pure (record (file_at s xs) { eqs = eqs }))
  unfolding parse_stream alloc read
  parse_stream-header h =
      rw
        (
          four,
          right,
          ok.memory,
          read_stream-at 1 4 7 xs opened refl refl (omega arith),
          read_stream-at 1 12 7 xs (at_input opened (drop 12 xs)) refl refl (omega arith),
          read_stream-at 1 20 0 xs (at_input opened (drop 20 xs)) refl refl (omega arith),
          read_stream-at 1 21 3 xs (at_input opened (drop 21 xs)) refl refl (omega arith),
          read_stream-at 1 25 1 xs (at_input opened (drop 25 xs)) refl refl (omega arith),
        )
        refl

  module _ (long : 27 ≤ length xs) where
    abbrev count : ℕ
    count = field_at 12 8 xs

    abbrev at_nodes : World
    at_nodes = at_input opened (drop 27 xs)

    body : length (drop 27 xs) + 27 ≡ length xs
    body = omega (arith, length-drop 27 xs)

    parse_stream-no_equation :
        length xs < needed s xs → parse_stream w ≡ null (record w { input = []; live = w.live + 2 })
    parse_stream-no_equation h =
        let few = times-min s count (2 ^ 31) in
        let two_left : w.live + 1 + 1 - 0 ≡ w.live + 2 = omega arith in
        rw
          (
            parse_stream-header long,
            read_nodes-short count (2 ^ 31) 0 [] at_nodes refl (omega arith)
                (omega (arith, body, few.0)) (omega (arith, body, few.1)),
          )
          λ i. null (record w { input = []; allocs = sym ok.memory i; live = two_left i })

    parse_stream-all_equations :
        needed s xs ≤ length xs
        → count < 2 ^ 31
        → parse_stream w
          ≡ done
              (file_at s xs)
              (record w { input = drop (27 + s * count) xs; live = w.live + 1 + count })
    parse_stream-all_equations h few =
        let all : s * min count (2 ^ 31) ≡ s * count = ap (λ (k : ℕ). s * k) (omega (arith, few)) in
        rw
          (
            parse_stream-header long,
            read_nodes-equations_at count 0 [] at_nodes refl (omega (arith, body, all))
                (omega arith),
          )
          λ i. done (file_at s xs) (record w {
            input = drop-drop 27 (s * count) xs i;
            allocs = sym ok.memory i;
            live = w.live + 1 + count;
          })

    parse_stream-overflow : needed s xs ≤ length xs → 2 ^ 31 ≤ count → parse_stream w ≡ fault
    parse_stream-overflow h many =
        let full : s * min count (2 ^ 31) ≡ s * (2 ^ 31) =
          ap (λ (k : ℕ). s * k) (omega (arith, many)) in
        rw
          (
            parse_stream-header long,
            read_nodes-overflow count (2 ^ 31 - 1) 0 [] at_nodes refl refl (omega arith)
                (omega (arith, body, full, times-suc s (2 ^ 31 - 1))),
          )
          refl

-- With memory, a first `read` that is not cut short, and any bytes: `parse_stream` returns NULL for
-- a wrong magic number, and has allocated nothing. If the stream ends inside the header, or before
-- the last field of an equation that the loop comes to, it returns NULL and leaves two blocks.
-- Otherwise it returns the fields of the header and the equations from byte 27 on, whatever the
-- offset in the header is, if there are fewer than 2 ^ 31 of them. From one to the next it goes 32
-- bytes on where it can seek, and 22 where it cannot; it leaves to read what follows the last of
-- these, and keeps one block for the file and one for each equation. With more equations its counter overflows, which is undefined.
pub parse_stream-file_outcome : (w : World) → IsStream w → parse_stream w ≡ file_outcome w
parse_stream-file_outcome w ok = elim (Bool-cases (magic_value == field_at 0 4 w.input)) [
  | inr wrong ↦ rw (parse_stream-wrong w ok wrong, wrong) refl
  | inl right ↦ elim (Bool-cases (ltb (length w.input) 27)) [
    | inl cut ↦ rw (parse_stream-no_header w ok right (ltb→lt _ _ cut), right, cut) refl
    | inr whole ↦
        let long : 27 ≤ length w.input = ltb→le _ _ whole in
        elim (Bool-cases (ltb (length w.input) (needed (stride w.seekable) w.input))) [
          | inl cut ↦
              rw (parse_stream-no_equation w ok right long (ltb→lt _ _ cut), right, whole, cut) refl
          | inr all ↦
              let enough : needed (stride w.seekable) w.input ≤ length w.input = ltb→le _ _ all in
              elim (Bool-cases (ltb (field_at 12 8 w.input) (2 ^ 31))) [
                | inl few ↦
                    rw
                      (
                        parse_stream-all_equations w ok right long enough (ltb→lt _ _ few),
                        right,
                        whole,
                        all,
                        few,
                      )
                      refl
                | inr many ↦
                    rw
                      (
                        parse_stream-overflow w ok right long enough (ltb→le _ _ many),
                        right,
                        whole,
                        all,
                        many,
                      )
                      refl
              ]
        ]
  ]
]
