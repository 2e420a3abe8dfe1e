-- ===== src/Args.antt =====
-- src/server/arg_parser.c: the command line of the server.
pub mod Laws
pub mod Tests
use net_math.Base.{
  ℕ, ◌+◌, ◌-◌, ◌%◌, ◌^◌, Bool, true, false, not, ◌||◌, Option, none, some, List, [], ◌∷◌, ◌==◌,
  ◌>>=◌, if◌then◌else◌, length, ℤ, pos, negsuc, ltb_ℤ,
}

-- DEFAULT_PORT, DEFAULT_THREADS, MAX_THREADS, MIN_THREADS, MIN_PORT and MAX_PORT.
abbrev pub default_port : ℕ
default_port = 31337

abbrev pub default_threads : ℕ
default_threads = 4

abbrev pub max_threads : ℕ
max_threads = 255

abbrev pub min_threads : ℕ
min_threads = 1

abbrev pub min_port : ℕ
min_port = 1024

abbrev pub max_port : ℕ
max_port = 0xffff

pub record Args : Type 0 where
  pub port : ℕ
  pub threads : ℕ

-- What `strtol(text, &end, 10)` leaves: its value, how many characters `end` is behind the start,
-- and whether `errno` is set.
pub record Strtol : Type 0 where
  pub value : ℤ
  pub consumed : ℕ
  pub errno_set : Bool

-- What one call of `getopt` returns, with `optarg` or `optopt`.
pub data Opt : Type 0 where
  opt_p : (optarg : List ℕ) → Opt
  opt_n : (optarg : List ℕ) → Opt
  opt_h : Opt
  opt_unknown : (optopt : ℕ) → Opt

-- The casts to `uint32_t` and `uint8_t`.
abbrev pub to_unsigned : ℕ → ℤ → ℕ
to_unsigned m (pos n) = n % m
to_unsigned m (negsuc n) = 0

-- `free_args`, and the test after the loop over the options.
abbrev pub free_args : (blocks : ℕ) → ℕ
free_args blocks = blocks - 1

abbrev pub after_opts : (at_end : Bool) → Option Args × ℕ → Option Args × ℕ
after_opts at_end (none, blocks) = (none, blocks)
after_opts at_end (some args, blocks) =
    if not at_end then (none, free_args blocks) else (some args, blocks)

module _ (strtol : List ℕ → Strtol) where
  -- `none` is the return of 0.
  pub str_to_long : List ℕ → Option ℤ
  str_to_long str_num =
      let r = strtol str_num in
      if r.errno_set
      then none
      else if r.consumed == 0
      then none
      else if not (r.consumed == length str_num)
      then none
      else some r.value

  pub get_port : List ℕ → ℕ
  get_port port = elim (str_to_long port) [
    | none ↦ 0
    | some converted_port ↦
        if ltb_ℤ (pos max_port) converted_port || ltb_ℤ converted_port (pos min_port)
        then 0
        else to_unsigned (2 ^ 32) converted_port
  ]

  pub get_threads : List ℕ → ℕ
  get_threads thread = elim (str_to_long thread) [
    | none ↦ 0
    | some converted_port ↦
        if ltb_ℤ (pos max_threads) converted_port || ltb_ℤ converted_port (pos min_threads)
        then 0
        else to_unsigned (2 ^ 8) converted_port
  ]

  -- The loop over the options.
  pub parse_opts : List Opt → Args → (blocks : ℕ) → Option Args × ℕ
  parse_opts [] args blocks = (some args, blocks)
  parse_opts (opt_p optarg ∷ opts) args blocks =
      let port = get_port optarg in
      let rest = parse_opts opts (record args { port = port }) blocks in
      if 0 == port then (none, free_args blocks) else rest
  parse_opts (opt_n optarg ∷ opts) args blocks =
      let threads = get_threads optarg in
      let rest = parse_opts opts (record args { threads = threads }) blocks in
      if 0 == threads then (none, free_args blocks) else rest
  parse_opts (opt_h ∷ opts) args blocks = (none, free_args blocks)
  parse_opts (opt_unknown optopt ∷ opts) args blocks = (none, free_args blocks)

  -- `opts` is what the calls of `getopt` return before -1, `optind` where they stop. `none` is
  -- NULL, and `blocks` counts the blocks that are allocated.
  pub parse_args :
      (malloc_ok : Bool) (argc : ℕ) (opts : List Opt) (optind : ℕ) (blocks : ℕ) → Option Args × ℕ
  parse_args malloc_ok argc opts optind blocks =
      if not malloc_ok
      then (none, blocks)
      else (let args : Args = record { port = default_port; threads = default_threads } in
          if 1 == argc
          then (some args, blocks + 1)
          else after_opts (optind == argc) (parse_opts opts args (blocks + 1)))
