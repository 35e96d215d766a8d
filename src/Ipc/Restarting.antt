-- ===== src/Ipc/Restarting.antt =====
-- tools/ipcrestart.c from the options that `getopt_long` finds on, and what stands behind them.
use kerrighed_tools.Base.{ℕ, List, [], ◌∷◌, ℤ, minus_one, eqb_ℤ, if◌then◌else◌}
use kerrighed_tools.Kernel.{World, M, ◌>>=◌, return, sys, truthy, open_file, close}
use kerrighed_tools.Checkpoint.{ExitStatus, exit_success, exit_failure}
use kerrighed_tools.Ipc.{
  IpcType, undef, msg, sem, shm, is_undef, ipc_msgq_restart, ipc_sem_restart, ipc_shm_restart,
}

-- The options.
pub data Opt : Type 0 where
  help_opt version_opt other_opt queue_opt semaphore_opt memory_opt : Opt

-- An exit, or the global `ipc_type`.
pub data Parsed : Type 0 where
  exits : ExitStatus → Parsed
  parsed : IpcType → Parsed

unfoldable pub parse_args : List Opt → IpcType → Parsed
parse_args [] ipc_type = parsed ipc_type
parse_args (help_opt ∷ os) ipc_type = exits exit_success
parse_args (version_opt ∷ os) ipc_type = exits exit_success
parse_args (other_opt ∷ os) ipc_type = exits exit_failure
parse_args (queue_opt ∷ os) ipc_type = parse_args os msg
parse_args (semaphore_opt ∷ os) ipc_type = parse_args os sem
parse_args (memory_opt ∷ os) ipc_type = parse_args os shm

module _ (w : World) where
  -- The switch; `main` has left before it for `undef`.
  unfoldable pub restart : IpcType → ℤ → M ℤ
  unfolding ipc_msgq_restart ipc_sem_restart ipc_shm_restart
  restart undef fd = return minus_one
  restart msg fd = ipc_msgq_restart w fd
  restart sem fd = ipc_sem_restart w fd
  restart shm fd = ipc_shm_restart w fd

  -- From the switch on, with the opened file.
  unfoldable pub restart_from : IpcType → ℤ → M ExitStatus
  unfolding restart
  restart_from ipc_type fd = do
    r ← restart ipc_type fd
    closed ← sys w (close fd)
    return (if truthy r then exit_failure else exit_success)

  -- The test of the arguments behind the options, and the file.
  unfoldable pub with_operands : IpcType → List (List ℕ) → M ExitStatus
  unfolding restart_from
  with_operands ipc_type (path ∷ []) = if is_undef ipc_type then return exit_failure else do
    fd ← sys w (open_file path)
    if eqb_ℤ fd.ret minus_one then return exit_failure else restart_from ipc_type fd.ret
  with_operands ipc_type _ = return exit_failure

  unfoldable pub main : List Opt → List (List ℕ) → M ExitStatus
  unfolding with_operands
  main opts operands = elim (parse_args opts undef) [
    | exits status ↦ return status
    | parsed ipc_type ↦ with_operands ipc_type operands
  ]
