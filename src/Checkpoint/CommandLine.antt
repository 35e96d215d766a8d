-- ===== src/Checkpoint/CommandLine.antt =====
-- tools/checkpoint.c: the options that `getopt_long` finds.
pub mod Said
use kerrighed_tools.Base.{
  ℕ, ◌≡◌, refl, Bool, true, false, not, ◌&&◌, ◌||◌, if◌then◌else◌, List, [], ◌∷◌, Option, none,
  some, ℤ, pos, int_of_long,
}
use kerrighed_tools.Base.Bits.{word_or}
use kerrighed_tools.Text.{atol}
use kerrighed_tools.Kernel.{World, M, return}
use kerrighed_tools.Checkpoint
use kerrighed_tools.Checkpoint.{
  AppAction, all, checkpoint, freeze, unfreeze, Options, ExitStatus, exit_success, exit_failure,
}

-- The options, with the text of an argument where there is one.
pub data Opt : Type 0 where
  help_opt version_opt other_opt quiet_opt appid_opt only_opt nocall_opt freeze_opt ignore_opt : Opt
  description_opt : List ℕ → Opt
  unfreeze_opt kill_opt : Option (List ℕ) → Opt

abbrev pub start : Options
start = record { from_appid = false; no_callbacks = false; sig = pos 0; flags = 0; action = all }

abbrev pub ckpt_w_unsupported_file : ℕ
ckpt_w_unsupported_file = 2

-- An exit, or the globals.
pub data Parsed : Type 0 where
  exits : ExitStatus → Parsed
  parsed : Options → Parsed

-- The signal of an argument, or the one given.
abbrev pub signal_of : Option (List ℕ) → ℤ → ℤ
signal_of none default = default
signal_of (some optarg) default = int_of_long (atol optarg)

unfoldable pub parse_args : List Opt → Options → Parsed
parse_args [] o = parsed o
parse_args (help_opt ∷ os) o = exits exit_success
parse_args (version_opt ∷ os) o = exits exit_success
parse_args (quiet_opt ∷ os) o = parse_args os o
parse_args (appid_opt ∷ os) o = parse_args os (record o { from_appid = true })
parse_args (description_opt optarg ∷ os) o = parse_args os o
parse_args (only_opt ∷ os) o = parse_args os (record o { action = checkpoint })
parse_args (nocall_opt ∷ os) o = parse_args os (record o { no_callbacks = true })
parse_args (freeze_opt ∷ os) o = parse_args os (record o { action = freeze })
parse_args (unfreeze_opt optarg ∷ os) o =
    parse_args os (record o { action = unfreeze; sig = signal_of optarg o.sig })
parse_args (kill_opt optarg ∷ os) o = parse_args os (record o { sig = signal_of optarg (pos 15) })
parse_args (ignore_opt ∷ os) o =
    parse_args os (record o { flags = word_or 32 o.flags ckpt_w_unsupported_file })
parse_args (other_opt ∷ os) o = exits exit_failure

module _ (w : World) where
  -- The test of the arguments behind the options.
  unfoldable pub with_operands : Options → List (List ℕ) → M ExitStatus
  with_operands o (pid ∷ []) = Checkpoint.main w o (atol pid)
  with_operands o _ = return exit_failure

  -- The whole tool, with what stands behind the options; `check_environment` and what follows are
  -- `Checkpoint.main`.
  unfoldable pub run : List Opt → List (List ℕ) → M ExitStatus
  unfolding parse_args with_operands
  run opts operands = elim (parse_args opts start) [
    | exits status ↦ return status
    | parsed o ↦ with_operands o operands
  ]
