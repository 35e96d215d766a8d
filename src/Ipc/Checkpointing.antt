-- ===== src/Ipc/Checkpointing.antt =====
-- tools/ipccheckpoint.c from the options that `getopt_long` finds on, and what stands behind them.
use kerrighed_tools.Base.{ℕ, List, [], ◌∷◌, ℤ, pos, minus_one, eqb_ℤ, int_of_long, if◌then◌else◌}
use kerrighed_tools.Text.{atol}
use kerrighed_tools.Kernel.{World, M, ◌>>=◌, return, sys, truthy, create_file, close, unlink}
use kerrighed_tools.Checkpoint.{ExitStatus, exit_success, exit_failure}
use kerrighed_tools.Ipc.{
  IpcType, undef, msg, sem, shm, is_undef, ipc_msgq_checkpoint, ipc_sem_checkpoint,
  ipc_shm_checkpoint,
}

-- The options, each with the text of its argument.
pub data Opt : Type 0 where
  help_opt version_opt other_opt : Opt
  queue_opt semaphore_opt memory_opt : List ℕ → Opt

-- The globals.
pub record Settings : Type 0 where
  pub ipc_type : IpcType
  pub ipcid : ℤ

abbrev pub start : Settings
start = record { ipc_type = undef; ipcid = pos 0 }

-- An exit, or the globals.
pub data Parsed : Type 0 where
  exits : ExitStatus → Parsed
  parsed : Settings → Parsed

abbrev pub atoi : List ℕ → ℤ
atoi optarg = int_of_long (atol optarg)

unfoldable pub parse_args : List Opt → Settings → Parsed
parse_args [] s = parsed s
parse_args (help_opt ∷ os) s = exits exit_success
parse_args (version_opt ∷ os) s = exits exit_success
parse_args (other_opt ∷ os) s = exits exit_failure
parse_args (queue_opt optarg ∷ os) s =
    parse_args os (record { ipc_type = msg; ipcid = atoi optarg })
parse_args (semaphore_opt optarg ∷ os) s =
    parse_args os (record { ipc_type = sem; ipcid = atoi optarg })
parse_args (memory_opt optarg ∷ os) s =
    parse_args os (record { ipc_type = shm; ipcid = atoi optarg })

module _ (w : World) where
  -- The switch; `main` has left before it for `undef`.
  unfoldable pub checkpoint : IpcType → ℤ → ℤ → M ℤ
  unfolding ipc_msgq_checkpoint ipc_sem_checkpoint ipc_shm_checkpoint
  checkpoint undef ipcid fd = return minus_one
  checkpoint msg ipcid fd = ipc_msgq_checkpoint w ipcid fd
  checkpoint sem ipcid fd = ipc_sem_checkpoint w ipcid fd
  checkpoint shm ipcid fd = ipc_shm_checkpoint w ipcid fd

  -- From the switch on, with the opened file.
  unfoldable pub checkpoint_to : Settings → List ℕ → ℤ → M ExitStatus
  unfolding checkpoint
  checkpoint_to s path fd = do
    r ← checkpoint s.ipc_type s.ipcid fd
    closed ← sys w (close fd)
    if truthy r
        then (do removed ← sys w (unlink path); return exit_failure)
        else return exit_success

  -- From the file on.
  unfoldable pub create_and_checkpoint : Settings → List ℕ → M ExitStatus
  unfolding checkpoint_to
  create_and_checkpoint s path = do
    fd ← sys w (create_file path)
    if eqb_ℤ fd.ret minus_one then return exit_failure else checkpoint_to s path fd.ret

  -- The test of the arguments behind the options.
  unfoldable pub with_operands : Settings → List (List ℕ) → M ExitStatus
  unfolding create_and_checkpoint
  with_operands s (path ∷ []) =
      if is_undef s.ipc_type then return exit_failure else create_and_checkpoint s path
  with_operands s _ = return exit_failure

  unfoldable pub main : List Opt → List (List ℕ) → M ExitStatus
  unfolding with_operands
  main opts operands = elim (parse_args opts start) [
    | exits status ↦ return status
    | parsed s ↦ with_operands s operands
  ]
