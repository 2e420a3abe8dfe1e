-- ===== src/Equ/Memory.antt =====
-- The memory of an equation file: what a failed parse leaves, and what `free_equation` gives back.
use net_math.Base.{
  ℕ, ◌+◌, ◌-◌, ◌<◌, ◌≡◌, refl, ap, none, ◌∙◌, List, [], ◌∷◌, ◌++◌, Bool, Bool-cases, inl, inr,
  if◌then◌else◌, arith, length, ltb, true, false, drop, ◌≤◌, take, min, le_value, ◌==◌,
}
use net_math.Io.{World, done, null, and_next, free}
use net_math.Equ.Parsed.{field_at}
use net_math.Equ.Bytes.{parse_stream-file_outcome}
use net_math.Equ.{
  UnsolvedEq, Equations, magic_value, list_blocks, node_blocks, free_nodes, free_equation,
  parse_stream,
}
use net_math.Equ.Format.{IsFile, IsRegular, AllUnsolved, file_bytes, parse_stream-file_bytes}

-- Whether the bytes that the first `read` returns hold the magic number.
abbrev pub has_magic : World → Bool
has_magic w = magic_value == le_value (take (min 4 w.burst) w.input)

-- With memory, and a first `read` that is not cut short, a stream of fewer than 27 bytes is refused.
-- Two blocks stay allocated if it has the magic number, and none if it has not.
pub parse_stream-short :
    (w : World)
    → w.allocs ≡ []
    → w.burst ≡ 4
    → length w.input < 27
    → (w' : World) × (parse_stream w ≡ null w')
      × (w'.live ≡ (if has_magic w then w.live + 2 else w.live))
parse_stream-short w m b h =
    let whole : 4 ≤ w.burst = omega (arith, b) in
    let four : min 4 w.burst ≡ 4 = omega (arith, b) in
    let cut : ltb (length w.input) 27 ≡ true = ground arith in
    let result = parse_stream-file_outcome w (record { memory = m; whole = whole }) in
    elim (Bool-cases (has_magic w)) [
      | inr wrong ↦
          let wrong' : (magic_value == field_at 0 4 w.input) ≡ false = rw four at wrong in
          (record w { input = drop 4 w.input }, rw (result, wrong'), rw wrong)
      | inl right ↦
          let right' : (magic_value == field_at 0 4 w.input) ≡ true = rw four at right in
          (record w { input = []; live = w.live + 2 }, rw (result, right', cut), rw right)
    ]

free_nodes-list_blocks :
    (eqs : List UnsolvedEq) (w : World)
    → free_nodes eqs w ≡ done tt (record w { live = w.live - list_blocks eqs })
unfolding free_nodes free
free_nodes-list_blocks [] w =
    let same : w.live ≡ w.live - 0 = omega arith in λ i. done tt (record w { live = same i })
free_nodes-list_blocks (eq ∷ eqs) w =
    free_nodes-list_blocks eqs (record w { live = w.live - node_blocks eq })
    ∙ ap (λ (k : ℕ). done tt (record w { live = k })) (omega arith)

-- Every node, every solution and message, and the file itself.
pub free_equation-list_blocks :
    (file : Equations) (w : World)
    → free_equation file w ≡ done tt (record w { live = w.live - (list_blocks file.eqs + 1) })
unfolding free_equation free
free_equation-list_blocks file w =
    rw (free_nodes-list_blocks file.eqs w)
      (ap (λ (k : ℕ). done tt (record w { live = k })) (omega arith))

-- No node has a solution.
abbrev pub AllFresh : List UnsolvedEq → Type 0
AllFresh [] = Unit {0}
AllFresh (eq ∷ eqs) = (eq.solution ≡ none) × AllFresh eqs

pub AllFresh-list_blocks : (eqs : List UnsolvedEq) → AllFresh eqs → list_blocks eqs ≡ length eqs
AllFresh-list_blocks [] all = refl
AllFresh-list_blocks (eq ∷ eqs) all = rw (all.0) (omega (arith, AllFresh-list_blocks eqs all.1))

AllUnsolved-AllFresh : (eqs : List UnsolvedEq) → AllUnsolved eqs → AllFresh eqs
AllUnsolved-AllFresh [] all = tt
AllUnsolved-AllFresh (eq ∷ eqs) all = (all.0.not_solved, AllUnsolved-AllFresh eqs all.1)

-- From a regular file, with memory, parsing a file in the format and freeing it with
-- `free_equation` leaves exactly the blocks that were allocated before.
pub free_equation-parse_stream :
    (file : Equations) (rest : List ℕ) (w : World)
    → IsFile file
    → IsRegular w
    → w.input ≡ file_bytes file ++ rest
    → and_next (parse_stream w) free_equation ≡ done tt (record w { input = rest })
free_equation-parse_stream file rest w is ok e =
    rw (parse_stream-file_bytes file rest w is ok e, free_equation-list_blocks file)
      (ap (λ (k : ℕ). done tt (record w { input = rest; live = k }))
        (omega (arith, AllFresh-list_blocks file.eqs (AllUnsolved-AllFresh file.eqs is.unsolved))))
