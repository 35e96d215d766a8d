-- ===== src/Migrate.antt =====
-- tools/migrate.c from the options that `getopt_long` finds on, and what stands behind them.
use kerrighed_tools.Base.{ℕ, List, [], ◌∷◌, ℤ, pos, int_of_long, if◌then◌else◌}
use kerrighed_tools.Text.{atol}
use kerrighed_tools.Kernel.{World, M, ◌>>=◌, return, truthy}
use kerrighed_tools.Proc.{migrate}

pub data Opt : Type 0 where
  help_opt version_opt other_opt : Opt

-- An exit with a code, or the globals `pid` and `nodeid`.
pub data Parsed : Type 0 where
  exits : ℤ → Parsed
  parsed : ℤ → ℤ → Parsed

-- The arguments behind the options.
unfoldable pub operands : List (List ℕ) → Parsed
operands (pid ∷ nodeid ∷ []) = parsed (int_of_long (atol pid)) (int_of_long (atol nodeid))
operands _ = exits (pos 1)

-- The first option ends the tool.
unfoldable pub parse_args : List Opt → List (List ℕ) → Parsed
unfolding operands
parse_args [] args = operands args
parse_args (help_opt ∷ os) args = exits (pos 0)
parse_args (version_opt ∷ os) args = exits (pos 0)
parse_args (other_opt ∷ os) args = exits (pos 1)

module _ (w : World) where
  unfoldable pub main : List Opt → List (List ℕ) → M ℤ
  unfolding parse_args
  main opts args = elim (parse_args opts args) [
    | exits code ↦ return code
    | parsed pid nodeid ↦ do r ← migrate w pid nodeid; return (if truthy r then pos 1 else pos 0)
  ]
