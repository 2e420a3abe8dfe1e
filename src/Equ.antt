-- ===== src/Equ.antt =====
-- `parse_stream` and `free_equation` of src/header_parser/header_parser.c: an equation file.
pub mod Format
pub mod Memory
pub mod Bytes
pub mod Cut
pub mod Typed
pub mod Scarce
pub mod Parsed
pub mod Tests
use net_math.Base.{
  ℕ, zero, suc, ◌+◌, ◌-◌, ◌^◌, Bool, not, Option, none, some, List, [], ◌∷◌, ◌++◌, ◌==◌,
  if◌then◌else◌, le_value, length,
}
use net_math.Io.{M, pure, give_up, undefined, ◌>>=◌, ◌>>◌, alloc, free, read, skip}
use net_math.Stream.{read_stream}
use net_math.Calc.{Solution}

-- One node of the list; `solution` is NULL until the equation is evaluated.
pub record UnsolvedEq : Type 0 where
  pub eq_id : ℕ
  pub flags : ℕ
  pub l_operand : ℕ
  pub opt : ℕ
  pub r_operand : ℕ
  pub solution : Option Solution

-- The nodes from `eqs` to `tail`, in their order.
pub record Equations : Type 0 where
  pub magic_id : ℕ
  pub file_id : ℕ
  pub number_of_eq : ℕ
  pub flags : ℕ
  pub offset : ℕ
  pub num_of_opts : ℕ
  pub eqs : List UnsolvedEq

abbrev pub magic_value : ℕ
magic_value = 0xdd77bb55

-- HEAD_MAGIC, HEAD_FILEID, HEAD_NUM_OF_EQU, HEAD_FLAGS, HEAD_EQU_OFFSET,
-- HEAD_NUM_OF_OPT_HEADERS, UNSO_EQU_ID, UNSO_FLAGS, L_OPERAND, OPERATOR, R_OPERAND, UNSO_PADDING.
abbrev pub head_magic : ℕ
head_magic = 4

abbrev pub head_fileid : ℕ
head_fileid = 8

abbrev pub head_num_of_equ : ℕ
head_num_of_equ = 8

abbrev pub head_flags : ℕ
head_flags = 1

abbrev pub head_equ_offset : ℕ
head_equ_offset = 4

abbrev pub head_num_of_opt_headers : ℕ
head_num_of_opt_headers = 2

abbrev pub unso_equ_id : ℕ
unso_equ_id = 4

abbrev pub unso_flags : ℕ
unso_flags = 1

abbrev pub l_operand_bytes : ℕ
l_operand_bytes = 8

abbrev pub operator_bytes : ℕ
operator_bytes = 1

abbrev pub r_operand_bytes : ℕ
r_operand_bytes = 8

abbrev pub unso_padding : ℕ
unso_padding = 10

-- The blocks of a node: itself, and a solution with its message.
abbrev pub node_blocks : UnsolvedEq → ℕ
node_blocks eq = elim eq.solution [ none ↦ 1 | some s ↦ elim s.error_msg [ none ↦ 2 | some _ ↦ 3 ] ]

abbrev pub list_blocks : List UnsolvedEq → ℕ
list_blocks [] = 0
list_blocks (eq ∷ eqs) = node_blocks eq + list_blocks eqs

-- The walk over the nodes, and the last `free`.
free_nodes : List UnsolvedEq → M (Unit {0})
free_nodes [] = pure tt
free_nodes (eq ∷ eqs) = do free (node_blocks eq); free_nodes eqs

pub free_equation : Equations → M (Unit {0})
unfolding free_nodes
free_equation file = do free_nodes file.eqs; free 1

-- One round of the loop. While it runs, `free_equation` would free the file, the `count` nodes
-- before this one and this one.
pub read_node : (count : ℕ) → M UnsolvedEq
read_node count = do
  let owned = count + 2
  eq_id ← read_stream owned unso_equ_id
  flags ← read_stream owned unso_flags
  l_operand ← read_stream owned l_operand_bytes
  opt ← read_stream owned operator_bytes
  r_operand ← read_stream owned r_operand_bytes
  skip unso_padding
  pure (record {
    eq_id = le_value eq_id;
    flags = le_value flags;
    l_operand = le_value l_operand;
    opt = le_value opt;
    r_operand = le_value r_operand;
    solution = none;
  })

-- The loop from round `i` with `left` rounds to go. The counter is an `int`, so `i++` past
-- INT_MAX is undefined.
pub read_nodes : (left i : ℕ) (eqs : List UnsolvedEq) → M (List UnsolvedEq)
read_nodes zero i eqs = pure eqs
read_nodes (suc left) i eqs = do
  ok ← alloc
  if not ok then (do free (i + 1); give_up) else do
    un_eq ← read_node i
    if i == 2 ^ 31 - 1 then undefined else read_nodes left (i + 1) (eqs ++ un_eq ∷ [])

pub parse_stream : M Equations
unfolding read_nodes
parse_stream = do
  magic ← read head_magic
  if not (magic_value == le_value magic) then give_up else do
    ok ← alloc
    if not ok then give_up else do
      file_id ← read_stream 1 head_fileid
      number_of_eq ← read_stream 1 head_num_of_equ
      flags ← read_stream 1 head_flags
      offset ← read_stream 1 head_equ_offset
      num_of_opts ← read_stream 1 head_num_of_opt_headers
      eqs ← read_nodes (le_value number_of_eq) 0 []
      pure (record {
        magic_id = le_value magic;
        file_id = le_value file_id;
        number_of_eq = le_value number_of_eq;
        flags = le_value flags;
        offset = le_value offset;
        num_of_opts = le_value num_of_opts;
        eqs = eqs;
      })
