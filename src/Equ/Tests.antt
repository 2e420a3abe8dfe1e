-- ===== src/Equ/Tests.antt =====
-- A file of two equations: read, cut short, read without memory for all of it, and read from a
-- socket, which cannot seek.
use net_math.Base.{
  ℕ, ◌<◌, ◌^◌, ◌≡◌, refl, true, false, none, List, [], ◌∷◌, ◌++◌, arith, take, drop, replicate, ◌*◌,
}
use net_math.Io.{
  World, Peer, Ending, Outcome, done, null, fault, alloc, free, read, read_byte, skip,
}
use net_math.Stream.{read_stream, read_loop}
use net_math.Equ.{UnsolvedEq, Equations, parse_stream, read_nodes, read_node}
use net_math.Equ.Format.{
  IsFile, IsRegular, IsUnsolved, file_bytes, gap_bytes, parse_stream-gap_bytes,
}
use net_math.Equ.Bytes.{file_outcome, parse_stream-file_outcome}
use net_math.Equ.Typed.{parse_stream-IsFile}
use net_math.Equ.Scarce.{ParseEnds, parse_stream-ParseEnds}

abbrev equation : ℕ → UnsolvedEq
equation id = record {
  eq_id = id;
  flags = 0;
  l_operand = 7;
  opt = 3;
  r_operand = 5;
  solution = none;
}

abbrev two_equations : Equations
two_equations = record {
  magic_id = 0xdd77_bb55;
  file_id = 0x1234;
  number_of_eq = 2;
  flags = 0;
  offset = 27;
  num_of_opts = 0;
  eqs = equation 1 ∷ equation 2 ∷ [];
}

equation-IsUnsolved : (id : ℕ) → id < 2 ^ 32 → IsUnsolved (equation id)
equation-IsUnsolved id e = record {
  id_fits = omega arith;
  flags_fits = omega arith;
  l_fits = omega arith;
  opt_fits = omega arith;
  r_fits = omega arith;
  not_solved = refl;
}

two_equations-IsFile : IsFile two_equations
two_equations-IsFile = record {
  magic = refl;
  id_fits = omega arith;
  counted = refl;
  few = omega arith;
  flags_fits = omega arith;
  offset_fits = omega arith;
  opts_fit = omega arith;
  unsolved = (equation-IsUnsolved 1 (omega arith), (equation-IsUnsolved 2 (omega arith), tt));
}

abbrev disk : List ℕ → World
disk input = record {
  input = input;
  ending = Ending.closed;
  burst = 4;
  seekable = true;
  allocs = [];
  live = 0;
  output = [];
  peer = Peer.takes 48;
  open_sockets = 0;
}

disk-IsRegular : (input : List ℕ) → IsRegular (disk input)
disk-IsRegular input = record { memory = refl; seeks = refl; whole = omega arith }

parse_stream-gap_bytes_example :
    parse_stream (disk (file_bytes two_equations ++ []))
    ≡ done two_equations (record (disk []) { live = 3 })
parse_stream-gap_bytes_example =
    parse_stream-gap_bytes two_equations [] [] (disk (file_bytes two_equations ++ []))
      two_equations-IsFile (record { placed = refl; next = refl }) (disk-IsRegular _) refl

-- One equation at offset 59, after 32 bytes, which are read in its place.
abbrev far : Equations
far = record two_equations { number_of_eq = 1; offset = 59; eqs = equation 1 ∷ [] }

offset_ignored :
    parse_stream (disk (gap_bytes (replicate 32 0) far))
    ≡ done
        (record far {
          eqs =
              record {
                eq_id = 0;
                flags = 0;
                l_operand = 0;
                opt = 0;
                r_operand = 0;
                solution = none;
              }
              ∷ [];
        })
        (record (disk (drop 59 (gap_bytes (replicate 32 0) far))) { live = 2 })
offset_ignored =
    parse_stream-file_outcome (disk (gap_bytes (replicate 32 0) far))
      (record { memory = refl; whole = omega arith })

-- The second equation of the file, read ten bytes early.
abbrev misread : UnsolvedEq
misread = record {
  eq_id = 0;
  flags = 0;
  l_operand = 2 * 256 ^ 5;
  opt = 0;
  r_operand = 7 * 256;
  solution = none;
}

parse_stream-file_outcome_example :
    parse_stream (record (disk (file_bytes two_equations)) { seekable = false })
    ≡ done
        (record two_equations { eqs = equation 1 ∷ misread ∷ [] })
        (record (disk (0 ∷ 3 ∷ 5 ∷ replicate 17 0)) { live = 3; seekable = false })
parse_stream-file_outcome_example =
    parse_stream-file_outcome (record (disk (file_bytes two_equations)) { seekable = false })
      (record { memory = refl; whole = omega arith })

-- The same file, cut in its second equation.
cut_short :
    file_outcome (disk (take 70 (file_bytes two_equations))) ≡ null (record (disk []) { live = 2 })
cut_short = refl

-- There is no memory for the second node.
abbrev one_node : World
one_node = record (disk (file_bytes two_equations)) { allocs = replicate 22 true ++ false ∷ [] }

parse_stream-ParseEnds_example : ParseEnds one_node (parse_stream one_node)
parse_stream-ParseEnds_example = parse_stream-ParseEnds one_node

-- The file and its first node are freed.
no_second_node : parse_stream one_node ≡ null (disk (drop 59 (file_bytes two_equations)))
unfolding parse_stream read_nodes read_node read_stream read_loop alloc free read read_byte skip
no_second_node = refl

-- Without memory for the payload of the file's number the first byte goes through NULL.
through_null : parse_stream (record one_node { allocs = true ∷ true ∷ false ∷ [] }) ≡ fault
unfolding parse_stream read_nodes read_node read_stream read_loop alloc free read read_byte skip
through_null = refl

parse_stream-IsFile_example : IsFile two_equations
parse_stream-IsFile_example =
    parse_stream-IsFile (disk (file_bytes two_equations ++ [])) (record (disk []) { live = 3 })
      two_equations (record { memory = refl; whole = omega arith }) (ground arith)
      parse_stream-gap_bytes_example

-- On a socket the padding is not skipped: the second equation is read ten bytes early.
abbrev second_id : Outcome Equations → ℕ
second_id (done file w) = elim file.eqs [ e ∷ f ∷ r ↦ f.eq_id | _ ↦ 0 ]
second_id _ = 0

not_skipped :
    second_id (parse_stream (record (disk (file_bytes two_equations)) { seekable = false })) ≡ 0
unfolding parse_stream read_nodes read_node read_stream read_loop alloc free read read_byte skip
not_skipped = refl
