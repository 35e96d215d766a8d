-- ===== src/Krginit.antt =====
-- tools/krginit.c from the options that `getopt` finds on, with the program and its arguments
-- behind them. What the tool prints is left out.
pub mod Reaping
use kerrighed_tools.Base.{
  ℕ, zero, suc, Bool, true, false, ◌&&◌, List, [], ◌∷◌, ℤ, pos, minus_one, eqb_ℤ, if◌then◌else◌,
}
use kerrighed_tools.Kernel.{
  World, M, ◌>>=◌, return, sys, Answer, number_of, wait, sleep, setsid, execv,
}
use kerrighed_tools.Hotplug.Services.{node_ready}
use kerrighed_tools.Checkpoint.{ExitStatus, exit_success, exit_failure}

pub data Opt : Type 0 where
  help_opt version_opt other_opt session_opt : Opt

-- An exit, or the global `create_session`.
pub data Config : Type 0 where
  exits : ExitStatus → Config
  session : Bool → Config

unfoldable pub get_config : List Opt → Bool → Config
get_config [] create_session = session create_session
get_config (session_opt ∷ os) create_session = get_config os true
get_config (version_opt ∷ os) create_session = exits exit_success
get_config (help_opt ∷ os) create_session = exits exit_success
get_config (other_opt ∷ os) create_session = exits exit_failure

-- The state of the process: it has exited, is another program, or still reaps.
pub data End : Type 0 where
  exit : ExitStatus → End
  became : List (List ℕ) → End
  reaps : End

-- `wait` has found no child; a failed call tells its errno, and ECHILD is 10.
abbrev pub no_child : Answer → Bool
no_child r = eqb_ℤ r.ret minus_one && eqb_ℤ (number_of r.out) (pos 10)

module _ (w : World) where
  -- So many rounds of the loop without end.
  unfoldable pub reap : ℕ → M End
  reap zero = return reaps
  reap (suc rounds) = do
    ret ← sys w wait
    if no_child ret then (do slept ← sys w sleep; reap rounds) else reap rounds

  -- After the node was told ready: `execv` returns only when it fails.
  unfoldable pub run : ℕ → List (List ℕ) → M End
  run rounds [] = reap rounds
  run rounds (program ∷ args) = do
    ret ← sys w (execv (program ∷ args))
    return (if eqb_ℤ ret.ret minus_one then exit exit_failure else became (program ∷ args))

  -- The result of `krg_node_ready` is not looked at.
  unfoldable pub tell_ready : ℕ → List (List ℕ) → M End
  tell_ready rounds program = do ready ← node_ready w true; run rounds program

  unfoldable pub with_session : ℕ → Bool → List (List ℕ) → M End
  with_session rounds create_session program =
      if create_session
      then (do
        ret ← sys w setsid
        if eqb_ℤ ret.ret minus_one then return (exit exit_failure) else tell_ready rounds program)
      else tell_ready rounds program

  unfoldable pub main : ℕ → List Opt → List (List ℕ) → M End
  main rounds opts program = elim (get_config opts false) [
    | exits status ↦ return (exit status)
    | session create_session ↦ with_session rounds create_session program
  ]
