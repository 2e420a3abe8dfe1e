-- ===== src/Args/Laws.antt =====
-- Which command lines are taken, and with what values.
use net_math.Base.{
  ℕ, ◌+◌, ◌≤◌, ◌≡◌, refl, ap, sym, ◌∙◌, Bool, true, false, not, ◌&&◌, Option, none, some, List, [],
  ◌∷◌, ◌==◌, ◌>>=◌, leb, if◌then◌else◌, pos, arith, Option-cases, inl, inr,
}
use net_math.Args.{
  Args, Strtol, Opt, opt_p, opt_n, opt_h, opt_unknown, str_to_long, get_port, get_threads,
  parse_opts, parse_args, free_args, after_opts,
}

pub record IsUsable (args : Args) : Type 0 where
  pub user_port : (1024 ≤ args.port) × (args.port ≤ 65535)
  pub some_threads : (1 ≤ args.threads) × (args.threads ≤ 255)

none≢some : {args : Args} → ◌≡◌ {A = Option Args} none (some args) → ⊥
none≢some e = cc

-- The arguments with their block.
abbrev pub with_block : Option Args → (blocks : ℕ) → Option Args × ℕ
with_block none blocks = (none, blocks)
with_block (some args) blocks = (some args, blocks + 1)

first : (o : Option Args) (blocks : ℕ) → (with_block o blocks).0 ≡ o
first none blocks = refl
first (some args) blocks = refl

freed : (blocks : ℕ) → ◌≡◌ {A = Option Args × ℕ} (none, free_args (blocks + 1)) (none, blocks)
freed blocks = ap (λ (k : ℕ). (none, k)) (omega arith)

module _ (strtol : List ℕ → Strtol) where
  -- The number that a text stands for, if it lies between `low` and `high`.
  abbrev pub number_in : (low high : ℕ) → List ℕ → Option ℕ
  number_in low high text = elim (str_to_long strtol text) [
    | some (pos n) ↦ if leb low n && leb n high then some n else none
    | _ ↦ none
  ]

  -- The values that the options set one after the other, later ones over earlier ones.
  abbrev pub chosen : List Opt → Args → Option Args
  chosen [] args = some args
  chosen (opt_p text ∷ opts) args = do
    port ← number_in 1024 65535 text
    chosen opts (record args { port = port })
  chosen (opt_n text ∷ opts) args = do
    threads ← number_in 1 255 text
    chosen opts (record args { threads = threads })
  chosen (opt_h ∷ opts) args = none
  chosen (opt_unknown c ∷ opts) args = none

  get_port-none : (text : List ℕ) → number_in 1024 65535 text ≡ none → get_port strtol text ≡ 0
  unfolding get_port
  get_port-none text e = ground arith

  get_port-some :
      (text : List ℕ) (n : ℕ)
      → number_in 1024 65535 text ≡ some n
      → (get_port strtol text ≡ n) × (1024 ≤ n) × (n ≤ 65535) × ((0 == n) ≡ false)
  unfolding get_port
  get_port-some text n e = (ground arith, ground arith, ground arith, ground arith)

  get_threads-none : (text : List ℕ) → number_in 1 255 text ≡ none → get_threads strtol text ≡ 0
  unfolding get_threads
  get_threads-none text e = ground arith

  get_threads-some :
      (text : List ℕ) (n : ℕ)
      → number_in 1 255 text ≡ some n
      → (get_threads strtol text ≡ n) × (1 ≤ n) × (n ≤ 255) × ((0 == n) ≡ false)
  unfolding get_threads
  get_threads-some text n e = (ground arith, ground arith, ground arith, ground arith)

  parse_opts-chosen :
      (opts : List Opt) (args : Args) (blocks : ℕ)
      → parse_opts strtol opts args (blocks + 1) ≡ with_block (chosen opts args) blocks
  unfolding parse_opts
  parse_opts-chosen [] args blocks = refl
  parse_opts-chosen (opt_p text ∷ opts) args blocks =
      elim (Option-cases (number_in 1024 65535 text)) [
        | inl bad ↦ rw (get_port-none text bad, bad) (freed blocks)
        | inr (n, e) ↦
            let p = get_port-some text n e in
            rw (p.0, p.3, e) (parse_opts-chosen opts (record args { port = n }) blocks)
      ]
  parse_opts-chosen (opt_n text ∷ opts) args blocks = elim (Option-cases (number_in 1 255 text)) [
    | inl bad ↦ rw (get_threads-none text bad, bad) (freed blocks)
    | inr (n, e) ↦
        let p = get_threads-some text n e in
        rw (p.0, p.3, e) (parse_opts-chosen opts (record args { threads = n }) blocks)
  ]
  parse_opts-chosen (opt_h ∷ opts) args blocks = freed blocks
  parse_opts-chosen (opt_unknown c ∷ opts) args blocks = freed blocks

  after_opts-chosen :
      (o : Option Args) (at_end : Bool) (blocks : ℕ)
      → after_opts at_end (with_block o blocks) ≡ with_block (if at_end then o else none) blocks
  after_opts-chosen none true blocks = refl
  after_opts-chosen none false blocks = refl
  after_opts-chosen (some args) true blocks = refl
  after_opts-chosen (some args) false blocks = freed blocks

  -- What is taken of a command line.
  abbrev pub taken : (malloc_ok : Bool) (argc : ℕ) (opts : List Opt) (optind : ℕ) → Option Args
  taken malloc_ok argc opts optind =
      if not malloc_ok
      then none
      else if argc == 1
      then some (record { port = 31337; threads = 4 })
      else if argc == optind
      then chosen opts (record { port = 31337; threads = 4 })
      else none

  -- With memory, a lone program name gives the default port and thread count. Any other line is
  -- taken exactly if `getopt` stops at its end, each of its options is `-p` or `-n`, and each has a
  -- number in its range; of the options of a kind the last one counts. The block of the arguments
  -- stays allocated if the line is taken, and no block does otherwise.
  pub parse_args-chosen :
      (malloc_ok : Bool) (argc : ℕ) (opts : List Opt) (optind blocks : ℕ)
      → parse_args strtol malloc_ok argc opts optind blocks
        ≡ with_block (taken malloc_ok argc opts optind) blocks
  unfolding parse_args
  parse_args-chosen malloc_ok argc opts optind blocks =
      let start : Args = record { port = 31337; threads = 4 } in
      rw
        (
          parse_opts-chosen opts start blocks,
          after_opts-chosen (chosen opts start) (optind == argc) blocks,
        )
        (ground arith)

  pub taken-parse_args :
      (malloc_ok : Bool) (argc : ℕ) (opts : List Opt) (optind blocks : ℕ)
      → (parse_args strtol malloc_ok argc opts optind blocks).0 ≡ taken malloc_ok argc opts optind
  taken-parse_args malloc_ok argc opts optind blocks =
      ap (λ (x : Option Args × ℕ). x.0) (parse_args-chosen malloc_ok argc opts optind blocks)
      ∙ first (taken malloc_ok argc opts optind) blocks

  pub parse_args-some :
      (malloc_ok : Bool) (argc : ℕ) (opts : List Opt) (optind blocks : ℕ) {args : Args}
      → (parse_args strtol malloc_ok argc opts optind blocks).0 ≡ some args
      → parse_args strtol malloc_ok argc opts optind blocks ≡ (some args, blocks + 1)
  parse_args-some malloc_ok argc opts optind blocks e =
      parse_args-chosen malloc_ok argc opts optind blocks
      ∙ ap (λ (o : Option Args). with_block o blocks)
          (sym (taken-parse_args malloc_ok argc opts optind blocks) ∙ e)

  chosen-in_range :
      (opts : List Opt) (args result : Args)
      → IsUsable args
      → chosen opts args ≡ some result
      → IsUsable result
  chosen-in_range [] args result h e = ground arith
  chosen-in_range (opt_p text ∷ opts) args result h e =
      elim (Option-cases (number_in 1024 65535 text)) [
        | inl bad ↦ absurd (none≢some (rw bad at e))
        | inr (n, found) ↦
            let p = get_port-some text n found in
            chosen-in_range opts (record args { port = n }) result
              (record { user_port = (p.1, p.2); some_threads = h.some_threads }) (rw found at e)
      ]
  chosen-in_range (opt_n text ∷ opts) args result h e = elim (Option-cases (number_in 1 255 text)) [
    | inl bad ↦ absurd (none≢some (rw bad at e))
    | inr (n, found) ↦
        let p = get_threads-some text n found in
        chosen-in_range opts (record args { threads = n }) result
          (record { user_port = h.user_port; some_threads = (p.1, p.2) }) (rw found at e)
  ]
  chosen-in_range (opt_h ∷ opts) args result h e = cc
  chosen-in_range (opt_unknown c ∷ opts) args result h e = cc

  -- Arguments that are accepted have a port from 1024 to 65535 and from 1 to 255 threads.
  pub parse_args-IsUsable :
      (malloc_ok : Bool) (argc : ℕ) (opts : List Opt) (optind blocks : ℕ) {args : Args}
      → (parse_args strtol malloc_ok argc opts optind blocks).0 ≡ some args
      → IsUsable args
  parse_args-IsUsable malloc_ok argc opts optind blocks {args} e =
      let start : Args = record { port = 31337; threads = 4 } in
      let as_chosen = sym (taken-parse_args malloc_ok argc opts optind blocks) ∙ e in
      ground (arith, chosen-in_range opts start args (omega arith))
