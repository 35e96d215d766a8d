-- ===== src/Restart/Main.antt =====
-- tools/restart.c from the options that `getopt_long` finds on. `relay_signal` runs while the tool
-- waits, and only sends a signal on.
use kerrighed_tools.Base.{
  ℕ, zero, suc, Bool, true, false, List, [], ◌∷◌, ℤ, pos, negsuc, ltb_ℤ, eqb_ℤ, int_of_long, not,
  if◌then◌else◌,
}
use kerrighed_tools.Text.{atol}
use kerrighed_tools.Kernel.{
  World, M, ◌>>=◌, return, sys, truthy, number_of, wait, sigaction, kill, stat_chkpt_dir,
}
use kerrighed_tools.Proc.{application_restart, application_unfreeze_from_appid}
use kerrighed_tools.Callbacks.Requests.{cr_execute_restart_callbacks}
use kerrighed_tools.Hotplug.Services.{check_hotplug}
use kerrighed_tools.Restart.{Options, parse_file_substitution, replace_stdin_stdout_stderr}

-- The options, `-s` with the text of its argument.
pub data Opt : Type 0 where
  help version foreground tty pids quiet debug no_unfreeze other_opt : Opt
  substitute_file : List ℕ → Opt

-- How the tool ends, if it does not wait on.
pub data Exit : Type 0 where
  exit_success exit_failure waits_on : Exit

-- What the loop over the options ends with.
pub data Parsed : Type 0 where
  exits : Exit → Parsed
  parsed : Options → Parsed

abbrev pub start : Options
start = record {
  foreground = false;
  stdin_out_err = false;
  no_unfreeze = false;
  flags = 0;
  substitution = record { files = []; allocated = false };
  array_size = 0;
}

module _ (w : World) where
  unfoldable pub parse_opts : List Opt → Options → M Parsed
  parse_opts [] o = return (parsed o)
  parse_opts (help ∷ os) o = return (exits exit_success)
  parse_opts (version ∷ os) o = return (exits exit_success)
  parse_opts (foreground ∷ os) o =
      parse_opts os (record o { foreground = true; stdin_out_err = true })
  parse_opts (tty ∷ os) o = parse_opts os (record o { stdin_out_err = true })
  parse_opts (pids ∷ os) o = parse_opts os (record o { flags = 1 })
  parse_opts (quiet ∷ os) o = parse_opts os o
  parse_opts (debug ∷ os) o = parse_opts os o
  parse_opts (no_unfreeze ∷ os) o = parse_opts os (record o { no_unfreeze = true })
  parse_opts (other_opt ∷ os) o = return (exits exit_failure)
  parse_opts (substitute_file optarg ∷ os) o = do
    r ← parse_file_substitution w optarg o
    if truthy r.0 then return (exits exit_failure) else parse_opts os r.1

  -- The loop that waits for the application, on fuel.
  unfoldable pub wait_loop : ℕ → M Exit
  wait_loop zero = return waits_on
  wait_loop (suc fuel) = do
    child ← sys w wait
    if eqb_ℤ child.ret (negsuc 3)
        then wait_loop fuel
        else return (
            if ltb_ℤ child.ret (pos 1)
            then exit_failure
            else if truthy (number_of child.out)
            then exit_failure
            else exit_success)

  -- It ends with EXIT_SUCCESS when `wait_application_exits` returns and `main` goes on to its end.
  unfoldable pub wait_application_exits : ℕ → M Exit
  unfolding wait_loop
  wait_application_exits fuel = do
    int ← sys w (sigaction 2)
    term ← sys w (sigaction 15)
    wait_loop fuel

  -- The handler of the two signals.
  unfoldable pub relay_signal : ℤ → ℕ → M (Unit {0})
  relay_signal root_pid signum =
      if truthy root_pid then (do sent ← sys w (kill root_pid signum); return tt) else return tt

  unfoldable pub check_environment : M Bool
  check_environment = do
    running ← check_hotplug w
    if truthy running
        then return false
        else do found ← sys w stat_chkpt_dir; return (not (truthy found.ret))

  -- `main` from the callbacks on.
  unfoldable pub unfreeze_and_wait : ℕ → ℤ → Options → M Exit
  unfolding wait_application_exits
  unfreeze_and_wait fuel appid o = do
    r ← if o.no_unfreeze then return (pos 0) else application_unfreeze_from_appid w appid (pos 0)
    if truthy r
        then return exit_failure
        else if o.foreground
        then wait_application_exits fuel
        else return exit_success

  -- `main` from `check_environment` on.
  unfoldable pub restart : ℕ → ℤ → ℤ → Options → M Exit
  unfolding check_environment unfreeze_and_wait
  restart fuel appid chkpt_sn o = do
    usable ← check_environment
    if not usable then return exit_failure else do
      root_pid ← application_restart w appid chkpt_sn o.flags o.substitution
      if ltb_ℤ root_pid (pos 0) then return exit_failure else do
        r ← cr_execute_restart_callbacks w appid
        if truthy r then return exit_failure else unfreeze_and_wait fuel appid o

  -- After the loop over the options; `args` are the arguments behind them.
  unfoldable pub restart_args : ℕ → List (List ℕ) → Options → M Exit
  unfolding restart
  restart_args fuel (appid ∷ chkpt_sn ∷ []) o = do
    r ←
        if o.stdin_out_err
        then replace_stdin_stdout_stderr w (atol appid) (int_of_long (atol chkpt_sn)) o
        else return (pos 0, o)
    if truthy r.0
        then return exit_failure
        else restart fuel (atol appid) (int_of_long (atol chkpt_sn)) r.1
  restart_args fuel _ o = return exit_failure

  unfoldable pub main : ℕ → List Opt → List (List ℕ) → M Exit
  unfolding parse_opts restart_args
  main fuel opts args = do
    p ← parse_opts opts start
    elim p [ exits code ↦ return code | parsed o ↦ restart_args fuel args o ]
