-- ===== src/Args/Tests.antt =====
-- Command lines of tests/gtest_server.cpp, over a `strtol` that knows four texts.
use net_math.Base.{
  ℕ, ◌+◌, ◌-◌, ◌*◌, ◌≡◌, refl, ap, true, false, Option, none, some, List, [], ◌∷◌, pos, length,
}
use net_math.Args.{
  Args, Strtol, Opt, opt_p, opt_n, parse_args, parse_opts, get_port, get_threads, str_to_long,
}
use net_math.Args.Laws.{IsUsable, parse_args-IsUsable, parse_args-chosen, taken, with_block}

-- Decimal digits only.
abbrev digits_value : ℕ → List ℕ → ℕ
digits_value acc [] = acc
digits_value acc (c ∷ cs) = digits_value (acc * 10 + (c - 48)) cs

abbrev pub decimal : List ℕ → Strtol
decimal text = record {
  value = pos (digits_value 0 text);
  consumed = length text;
  errno_set = false;
}

abbrev four_thousand : List ℕ
four_thousand = 52 ∷ 48 ∷ 48 ∷ 48 ∷ []

abbrev eight : List ℕ
eight = 56 ∷ []

abbrev pub line : List Opt
line = opt_p four_thousand ∷ opt_n eight ∷ []

pub line_taken :
    parse_args decimal true 5 line 5 0 ≡ (some (record { port = 4000; threads = 8 }), 1)
unfolding parse_args parse_opts get_port get_threads str_to_long
line_taken = refl

extra_argument : parse_args decimal true 6 line 5 0 ≡ (none, 0)
unfolding parse_args parse_opts get_port get_threads str_to_long
extra_argument = refl

low_port : parse_args decimal true 3 (opt_p eight ∷ []) 3 0 ≡ (none, 0)
unfolding parse_args parse_opts get_port get_threads str_to_long
low_port = refl

parse_args-IsUsable_example : IsUsable (record { port = 4000; threads = 8 })
parse_args-IsUsable_example =
    parse_args-IsUsable decimal true 5 line 5 0 (ap (λ (x : Option Args × ℕ). x.0) line_taken)

parse_args-chosen_example :
    parse_args decimal true 5 line 5 0 ≡ with_block (taken decimal true 5 line 5) 0
parse_args-chosen_example = parse_args-chosen decimal true 5 line 5 0
