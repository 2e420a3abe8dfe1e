-- ===== src/Equ/Scarce.antt =====
-- `parse_stream` whatever the allocator answers.
use net_math.Base.{
  ℕ, zero, suc, ◌+◌, ◌-◌, ◌≤◌, ◌^◌, ◌≡◌, ◌⊎◌, refl, ap, sym, ◌∙◌, inl, inr, true, none, Bool-cases,
  List, [], ◌∷◌, ◌++◌, arith, take, drop, length, length-append, min, le_value, ◌==◌,
}
use net_math.Io.{
  World, Outcome, done, null, fault, pure, and_next, take_block, alloc, free, read, skip,
}
use net_math.Stream.Scarce.{
  Quiet, Quiet-trans, Leaves, Split, is_scarce, later_blocks-is_scarce, read_stream-Leaves,
  and_next-Leaves, opened, opened-Leaves,
}
use net_math.Equ.Memory.{AllFresh, AllFresh-list_blocks, free_equation-list_blocks}
use net_math.Equ.{
  UnsolvedEq, Equations, free_equation, magic_value, read_node, read_nodes, parse_stream,
}

-- A node without a solution.
abbrev Unsolved : UnsolvedEq → List ℕ → Type 0
Unsolved eq rest = eq.solution ≡ none

AllFresh-append :
    (eqs : List UnsolvedEq) (eq : UnsolvedEq)
    → AllFresh eqs
    → eq.solution ≡ none
    → AllFresh (eqs ++ eq ∷ [])
AllFresh-append [] eq all fresh = (fresh, tt)
AllFresh-append (e ∷ eqs) eq all fresh = (all.0, AllFresh-append eqs eq all.1 fresh)

abbrev Counted : (n : ℕ) → List UnsolvedEq → List ℕ → Type 0
Counted n eqs rest = (length eqs ≡ n) × AllFresh eqs

-- The padding is skipped, and nothing else happens.
node_end-Leaves :
    (F : Type 0) (owned : ℕ) (w : World) (eq : UnsolvedEq)
    → eq.solution ≡ none
    → Leaves F Unsolved owned 0 w (and_next (skip 10 w) (λ u. pure eq))
unfolding skip
node_end-Leaves F owned w eq fresh = ((refl, refl, λ h. h), omega arith, fresh)

read_node-Leaves :
    (F : Type 0) (count : ℕ) (w : World)
    → count + 2 ≤ w.live
    → Leaves F Unsolved (count + 2) 0 w (read_node count w)
unfolding read_node
read_node-Leaves F i w h =
    and_next-Leaves F (Split 4 w.input) Unsolved (i + 2) 0 w _ _
      (read_stream-Leaves F (i + 2) 3 w h)
      λ id w₁ l₁ s₁.
        and_next-Leaves F (Split 1 w₁.input) Unsolved (i + 2) 0 w₁ _ _
          (read_stream-Leaves F (i + 2) 0 w₁ (omega (arith, l₁)))
          λ flags w₂ l₂ s₂.
            and_next-Leaves F (Split 8 w₂.input) Unsolved (i + 2) 0 w₂ _ _
              (read_stream-Leaves F (i + 2) 7 w₂ (omega (arith, l₁, l₂)))
              λ l w₃ l₃ s₃.
                and_next-Leaves F (Split 1 w₃.input) Unsolved (i + 2) 0 w₃ _ _
                  (read_stream-Leaves F (i + 2) 0 w₃ (omega (arith, l₁, l₂, l₃)))
                  λ opt w₄ l₄ s₄.
                    and_next-Leaves F (Split 8 w₄.input) Unsolved (i + 2) 0 w₄ _ _
                      (read_stream-Leaves F (i + 2) 7 w₄ (omega (arith, l₁, l₂, l₃, l₄)))
                      λ r w₅ l₅ s₅. node_end-Leaves F (i + 2) w₅ _ refl

-- The loop is undefined, with memory for all, only if its counter overflows.
read_nodes-Leaves :
    (F : Type 0) (n left i owned : ℕ) (have : List UnsolvedEq) (w : World)
    → (2 ^ 31 ≤ n → F)
    → i + left ≡ n
    → owned ≡ i + 1
    → owned ≤ w.live
    → length have ≡ i
    → AllFresh have
    → Leaves F (Counted n) owned left w (read_nodes left i have w)
unfolding read_nodes alloc free
read_nodes-Leaves F n zero i owned have w over all own h e fresh =
    ((refl, refl, λ s. s), omega arith, (omega (arith, e), fresh))
read_nodes-Leaves F n (suc left) i owned have w over all own h e fresh =
    elim (Bool-cases (take_block w.allocs)) [
      | inr refused ↦
          rw refused ((refl, refl, later_blocks-is_scarce w.allocs), omega arith, omega arith)
      | inl taken ↦ rw taken (
          opened-Leaves F (Counted n) owned (i + 2) left (suc left) w _ (omega arith) (omega arith)
            (and_next-Leaves F Unsolved (Counted n) (i + 2) left (opened w) _ _
              (read_node-Leaves F i (opened w) (omega arith))
              λ eq w₁ l₁ unsolved. elim (Bool-cases (i == 2 ^ 31 - 1)) [
                | inl last ↦ rw last (inr (over (ground arith)))
                | inr inside ↦
                    let more : length (have ++ eq ∷ []) ≡ i + 1 =
                      omega (arith, e, length-append {0} have (eq ∷ [])) in
                    rw inside (
                      read_nodes-Leaves F n left (i + 1) (i + 2) (have ++ eq ∷ []) w₁ over
                        (omega arith) (omega arith) (omega (arith, l₁)) more
                        (AllFresh-append have eq fresh unsolved))
              ]))
    ]

-- The number of equations that the header of the file promises.
abbrev pub promised : World → ℕ
promised w = le_value (take 8 (drop 8 (drop (min 4 w.burst) w.input)))

abbrev pub ParseEnds : World → Outcome Equations → Type 0
ParseEnds w (done file w') =
    Quiet w w'
    × (w'.live ≡ w.live + 1 + length file.eqs)
    × (length file.eqs ≡ file.number_of_eq)
    × (free_equation file w' ≡ done tt (record w' { live = w.live }))
ParseEnds w (null w') = Quiet w w' × (w.live ≤ w'.live) × (w'.live ≤ w.live + 2)
ParseEnds w fault = (is_scarce w.allocs ≡ true) ⊎ (2 ^ 31 ≤ promised w)

-- As `Leaves`, with the file owned, where a block for each equation is kept.
abbrev FileLeaves : (F : Type 0) → World → Outcome Equations → Type 0
FileLeaves F w (done file w') =
    Quiet w w'
    × (w'.live ≡ w.live + length file.eqs)
    × (length file.eqs ≡ file.number_of_eq)
    × AllFresh file.eqs
FileLeaves F w (null w') = Quiet w w' × (w.live ≤ w'.live + 1) × (w'.live + 1 ≤ w.live + 2)
FileLeaves F w fault = (is_scarce w.allocs ≡ true) ⊎ F

later-FileLeaves :
    (F : Type 0) (w w' : World) (o : Outcome Equations)
    → Quiet w w'
    → w'.live ≡ w.live
    → FileLeaves F w' o
    → FileLeaves F w o
later-FileLeaves F w w' (done file w₂) q same k =
    (Quiet-trans w w' w₂ q k.0, omega (arith, k.1, same), k.2, k.3)
later-FileLeaves F w w' (null w₂) q same k =
    (Quiet-trans w w' w₂ q k.0, omega (arith, k.1, same), omega (arith, k.2, same))
later-FileLeaves F w w' fault q same (inl scarce) = inl (q.2 scarce)
later-FileLeaves F w w' fault q same (inr f) = inr f

and_next-FileLeaves :
    {A : Type 0} (F : Type 0) (P : A → List ℕ → Type 0) (w : World) (o : Outcome A)
    (f : A → World → Outcome Equations)
    → Leaves F P 1 0 w o
    → ((a : A) (w' : World) → w'.live ≡ w.live → P a w'.input → FileLeaves F w' (f a w'))
    → FileLeaves F w (and_next o f)
and_next-FileLeaves F P w (done a w') f l next =
    let same : w'.live ≡ w.live = omega (arith, l.1) in
    later-FileLeaves F w w' (f a w') l.0 same (next a w' same l.2)
and_next-FileLeaves F P w (null w') f l next = l
and_next-FileLeaves F P w fault f l next = l

nodes-FileLeaves :
    (F : Type 0) (n : ℕ) (w : World) (o : Outcome (List UnsolvedEq))
    (file : List UnsolvedEq → Equations)
    → ((eqs : List UnsolvedEq) → (file eqs).eqs ≡ eqs)
    → ((eqs : List UnsolvedEq) → (file eqs).number_of_eq ≡ n)
    → Leaves F (Counted n) 1 n w o
    → FileLeaves F w (and_next o (λ eqs. pure (file eqs)))
nodes-FileLeaves F n w (done eqs w') file has number l = (
  l.0,
  omega (arith, l.1, l.2.0, ap length (has eqs)),
  ap length (has eqs) ∙ l.2.0 ∙ sym (number eqs),
  rw (has eqs) l.2.1,
)
nodes-FileLeaves F n w (null w') file has number l = l
nodes-FileLeaves F n w fault file has number l = l

FileLeaves-ParseEnds :
    (w w₁ : World) (o : Outcome Equations)
    → Quiet w w₁
    → w₁.live ≡ w.live + 1
    → FileLeaves (2 ^ 31 ≤ promised w) w₁ o
    → ParseEnds w o
FileLeaves-ParseEnds w w₁ (done file w₂) q more l =
    let blocks = AllFresh-list_blocks file.eqs l.3 in
    (
      Quiet-trans w w₁ w₂ q l.0,
      omega (arith, l.1, more),
      l.2,
      free_equation-list_blocks file w₂
          ∙ ap (λ (k : ℕ). done tt (record w₂ { live = k })) (omega (arith, l.1, more, blocks)),
    )
FileLeaves-ParseEnds w w₁ (null w₂) q more l =
    (Quiet-trans w w₁ w₂ q l.0, omega (arith, l.1, more), omega (arith, l.2, more))
FileLeaves-ParseEnds w w₁ fault q more (inl scarce) = inl (q.2 scarce)
FileLeaves-ParseEnds w w₁ fault q more (inr f) = inr f

promised_lem :
    (w w₁ w₂ : World) (id number rest : List ℕ)
    → w₁.input ≡ drop (min 4 w.burst) w.input
    → Split 8 w₁.input id w₂.input
    → Split 8 w₂.input number rest
    → 2 ^ 31 ≤ le_value number
    → 2 ^ 31 ≤ promised w
promised_lem w w₁ w₂ id number rest e s₁ s₂ h =
    let same : le_value number ≡ promised w =
      ap le_value (s₂.0 ∙ ap (take 8) (s₁.1 ∙ ap (drop 8) e)) in
    omega (arith, h, same)

-- With any answers of the allocator and any bytes, after any first `read`. A file that is returned
-- has as many equations as it says, and a block for itself and for each of them, and `free_equation`
-- gives exactly these back. Where none is returned, at most the two buffers of a cut read are left. The call is undefined only if an
-- allocation fails or the file promises 2 ^ 31 equations or more. The descriptors stay open, and
-- nothing is written.
pub parse_stream-ParseEnds : (w : World) → ParseEnds w (parse_stream w)
unfolding parse_stream alloc read
parse_stream-ParseEnds w =
    let F = 2 ^ 31 ≤ promised w in
    let start : World = record w { input = drop (min 4 w.burst) w.input } in
    elim (Bool-cases (magic_value == le_value (take (min 4 w.burst) w.input))) [
      | inr wrong ↦ rw wrong ((refl, refl, λ h. h), omega arith, omega arith)
      | inl right ↦ elim (Bool-cases (take_block w.allocs)) [
        | inr refused ↦
            rw (right, refused)
              ((refl, refl, later_blocks-is_scarce w.allocs), omega arith, omega arith)
        | inl taken ↦
            rw (right, taken)
              (FileLeaves-ParseEnds w (opened start) _ (refl, refl, later_blocks-is_scarce w.allocs)
                refl
                (and_next-FileLeaves F (Split 8 start.input) (opened start) _ _
                  (read_stream-Leaves F 1 7 (opened start) (omega arith))
                  λ id w₁ l₁ s₁.
                    and_next-FileLeaves F (Split 8 w₁.input) w₁ _ _
                      (read_stream-Leaves F 1 7 w₁ (omega (arith, l₁)))
                      λ number w₂ l₂ s₂.
                        and_next-FileLeaves F (Split 1 w₂.input) w₂ _ _
                          (read_stream-Leaves F 1 0 w₂ (omega (arith, l₁, l₂)))
                          λ flags w₃ l₃ s₃.
                            and_next-FileLeaves F (Split 4 w₃.input) w₃ _ _
                              (read_stream-Leaves F 1 3 w₃ (omega (arith, l₁, l₂, l₃)))
                              λ offset w₄ l₄ s₄.
                                and_next-FileLeaves F (Split 2 w₄.input) w₄ _ _
                                  (read_stream-Leaves F 1 1 w₄ (omega (arith, l₁, l₂, l₃, l₄)))
                                  λ opts w₅ l₅ s₅.
                                    nodes-FileLeaves F (le_value number) w₅ _ _ (λ eqs. refl)
                                      (λ eqs. refl)
                                      (read_nodes-Leaves F (le_value number) (le_value number) 0 1
                                        [] w₅
                                        (promised_lem w (opened start) w₁ id number w₂.input refl s₁
                                          s₂)
                                        (omega arith) (omega arith)
                                        (omega (arith, l₁, l₂, l₃, l₄, l₅)) refl tt)))
      ]
    ]
