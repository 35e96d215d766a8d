-- ===== src/Krgboot.antt =====
-- tools-host/krgboot.c from the options that `getopt` finds on, with the helper and its arguments
-- behind them. What the tool prints is left out.
pub mod Creation
use kerrighed_tools.Base.{
  ℕ, Bool, true, false, List, [], ◌∷◌, ℤ, pos, ltb_ℤ, eqb_ℤ, minus_one, ◌==◌, if◌then◌else◌,
}
use kerrighed_tools.Base.Bits.{word_or}
use kerrighed_tools.Kernel.{World, M, ◌>>=◌, return, sys, truthy, execvp, clone}
use kerrighed_tools.Hotplug.Services.{check_hotplug, check_container, set_cluster_creator}
use kerrighed_tools.Checkpoint.{ExitStatus, exit_success, exit_failure}

pub data Opt : Type 0 where
  help_opt version_opt other_opt uts_opt ipc_opt mount_opt pid_opt net_opt user_opt : Opt

-- The flags of clone.
abbrev pub clone_newuts : ℕ
clone_newuts = 67108864

abbrev pub clone_newipc : ℕ
clone_newipc = 134217728

abbrev pub clone_newns : ℕ
clone_newns = 131072

abbrev pub clone_newpid : ℕ
clone_newpid = 536870912

abbrev pub clone_newnet : ℕ
clone_newnet = 1073741824

abbrev pub clone_newuser : ℕ
clone_newuser = 268435456

abbrev pub sigchld : ℕ
sigchld = 17

-- An exit, or the global `ns_clone_flags`.
pub data Config : Type 0 where
  exits : ExitStatus → Config
  flags : ℕ → Config

unfoldable pub get_config : List Opt → ℕ → Config
get_config [] ns_clone_flags = flags ns_clone_flags
get_config (help_opt ∷ os) ns_clone_flags = exits exit_success
get_config (version_opt ∷ os) ns_clone_flags = exits exit_success
get_config (uts_opt ∷ os) ns_clone_flags = get_config os (word_or 32 ns_clone_flags clone_newuts)
get_config (ipc_opt ∷ os) ns_clone_flags = get_config os (word_or 32 ns_clone_flags clone_newipc)
get_config (mount_opt ∷ os) ns_clone_flags = get_config os (word_or 32 ns_clone_flags clone_newns)
get_config (pid_opt ∷ os) ns_clone_flags = get_config os (word_or 32 ns_clone_flags clone_newpid)
get_config (net_opt ∷ os) ns_clone_flags = get_config os (word_or 32 ns_clone_flags clone_newnet)
get_config (user_opt ∷ os) ns_clone_flags = get_config os (word_or 32 ns_clone_flags clone_newuser)
get_config (other_opt ∷ os) ns_clone_flags = exits exit_failure

-- How the process ends: it exits, or is the helper from now on.
pub data End : Type 0 where
  exit : ExitStatus → End
  became : List (List ℕ) → End

module _ (w : World) where
  -- `execvp` returns only when it fails.
  unfoldable pub do_exec_helper : List (List ℕ) → M End
  do_exec_helper argv = do
    ret ← sys w (execvp argv)
    return (if eqb_ℤ ret.ret minus_one then exit exit_failure else became argv)

  -- The new process runs `do_exec_helper`.
  unfoldable pub do_clone_helper : ℕ → List (List ℕ) → M End
  do_clone_helper ns_clone_flags argv = do
    ret ← sys w (clone (word_or 32 ns_clone_flags sigchld) argv)
    return (exit (if ltb_ℤ ret.ret (pos 0) then exit_failure else exit_success))

  unfoldable pub run_helper : ℕ → List (List ℕ) → M End
  run_helper ns_clone_flags argv =
      if ns_clone_flags == 0 then do_exec_helper argv else do_clone_helper ns_clone_flags argv

  -- From the request to create the cluster on.
  unfoldable pub create : ℕ → List (List ℕ) → M End
  create ns_clone_flags argv = do
    ret ← set_cluster_creator w true
    if truthy ret then return (exit exit_failure) else run_helper ns_clone_flags argv

  -- The two checks.
  unfoldable pub check_and_create : ℕ → List (List ℕ) → M End
  check_and_create ns_clone_flags argv = do
    inside ← check_hotplug w
    if truthy inside
        then (do
          running ← check_container w
          if truthy running then create ns_clone_flags argv else return (exit exit_failure))
        else return (exit exit_failure)

  -- The test of the arguments behind the options.
  unfoldable pub with_helper : ℕ → List (List ℕ) → M End
  with_helper ns_clone_flags [] = return (exit exit_failure)
  with_helper ns_clone_flags (helper ∷ args) = check_and_create ns_clone_flags (helper ∷ args)

  unfoldable pub main : List Opt → List (List ℕ) → M End
  main opts argv = elim (get_config opts 0) [
    | exits status ↦ return (exit status)
    | flags ns_clone_flags ↦ with_helper ns_clone_flags argv
  ]
