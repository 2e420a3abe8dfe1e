-- ===== src/Main.antt =====
-- `main` of src/server/server.c: the command line, then the server.
pub mod Laws
pub mod Tests
use net_math.Base.{ℕ, Bool, true, Option, none, some, List, ℤ, pos, negsuc}
use net_math.Args.{Args, Strtol, Opt, free_args, parse_args}
use net_math.Pool.Setup.{Action, done, then_run}
use net_math.Listen.{Answers, Server, start_server}

-- From the result of `parse_args` on. The number is what `exit` is given or what `main` returns.
abbrev pub with_args : Option Args × ℕ → Answers → Server → Action (ℤ × Server)
with_args (none, blocks) a s r = done (negsuc 0, s) (record r { blocks = blocks })
with_args (some args, blocks) a s r =
    then_run (start_server args.threads args.port a s (record r { blocks = blocks }))
      λ after r'. done (pos 0, after) (record r' { blocks = free_args r'.blocks })

unfoldable pub main :
    (strtol : List ℕ → Strtol) (malloc_ok : Bool) (argc : ℕ) (opts : List Opt) (optind : ℕ)
    → Answers
    → Server
    → Action (ℤ × Server)
main strtol malloc_ok argc opts optind a s r =
    with_args (parse_args strtol malloc_ok argc opts optind r.blocks) a s r
