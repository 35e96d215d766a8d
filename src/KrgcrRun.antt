-- ===== src/KrgcrRun.antt =====
-- tools/krgcr-run.c from the options that `getopt` finds on, with the program and its arguments
-- behind them. What the tool prints is left out. `relay_signal` runs while the parent waits.
pub mod Forking
pub mod Capability
use kerrighed_tools.Base.{
  ℕ, Bool, true, false, not, List, [], ◌∷◌, take, ℤ, pos, minus_one, eqb_ℤ, ltb_ℤ, ltb,
  if◌then◌else◌,
}
use kerrighed_tools.Base.Bits.{shl, word_or}
use kerrighed_tools.Kernel.{
  World, M, ◌>>=◌, return, sys, truthy, number_of, Caps, kill, sigaction, wait, vfork, setsid, pipe,
  read_pipe, close_read_end, close_write_end, fopen_path, print_sid, execvp,
}
use kerrighed_tools.Capabilities.{capget, capset}
use kerrighed_tools.Krgcapset.Main.{caps_of}
use kerrighed_tools.Checkpoint.{ExitStatus, exit_success, exit_failure}

-- The options, the file with the text of its argument.
pub data Opt : Type 0 where
  help_opt version_opt other_opt background_opt quiet_opt sync_opt nocap_opt : Opt
  file_opt : List ℕ → Opt

-- The globals but `quiet`, which only keeps the tool from printing.
pub record Settings : Type 0 where
  pub background : Bool
  pub sync_w_pipe : Bool
  pub setcap : Bool
  pub filepath : List ℕ

abbrev pub start : Settings
start = record { background = false; sync_w_pipe = false; setcap = true; filepath = [] }

-- An exit, or the globals.
pub data Parsed : Type 0 where
  exits : ExitStatus → Parsed
  parsed : Settings → Parsed

-- MAX_FILEPATH is 256, with the NUL.
unfoldable pub parse_args : List Opt → Settings → Parsed
parse_args [] s = parsed (if s.background then s else record s { sync_w_pipe = false })
parse_args (version_opt ∷ os) s = exits exit_success
parse_args (background_opt ∷ os) s = parse_args os (record s { background = true })
parse_args (file_opt optarg ∷ os) s = parse_args os (record s { filepath = take 255 optarg })
parse_args (help_opt ∷ os) s = exits exit_success
parse_args (quiet_opt ∷ os) s = parse_args os s
parse_args (sync_opt ∷ os) s = parse_args os (record s { sync_w_pipe = true })
parse_args (nocap_opt ∷ os) s = parse_args os (record s { setcap = false })
parse_args (other_opt ∷ os) s = exits exit_failure

-- How a process ends that runs `main`: it exits, or is another program from now on.
pub data End : Type 0 where
  exit : ExitStatus → End
  became : List (List ℕ) → End

abbrev pub cap_checkpointable : ℕ
cap_checkpointable = 4

-- Whether a string is not empty.
abbrev pub is_path : List ℕ → Bool
is_path [] = false
is_path (c ∷ s) = true

-- The word of the capabilities with the bit.
unfoldable pub checkpointable : Caps → Caps
checkpointable c = record c {
  inheritable_effective = word_or 32 c.inheritable_effective (shl cap_checkpointable);
}

module _ (w : World) where
  -- Whether it returns; it exits with a failure otherwise.
  unfoldable pub give_checkpointable_capability : M Bool
  give_checkpointable_capability = do
    r ← capget w
    if truthy r.ret then return false else do
      set ← capset w (checkpointable (caps_of r.out))
      return (if truthy set then false else true)

  unfoldable pub relay_signal : ℤ → ℕ → M ℤ
  relay_signal pid signum = do r ← sys w (kill pid signum); return r.ret

  -- The parent, in the foreground, whatever `sigaction` says. `wait` gives the status of the child; when it
  -- fails, the status is what the variable happens to hold.
  unfoldable pub wait_for_child : M End
  wait_for_child = do
    int ← sys w (sigaction 2)
    term ← sys w (sigaction 15)
    r ← sys w wait
    return (exit (if truthy (number_of r.out) then exit_failure else exit_success))

  -- The parent, after the `vfork`.
  unfoldable pub parent : Settings → M End
  parent s =
      if not s.background
      then wait_for_child
      else if s.sync_w_pipe
      then (do
        mine ← sys w close_write_end
        r ← sys w read_pipe
        closed ← sys w close_read_end
        return (exit exit_success))
      else return (exit exit_success)

  -- The child, from its session on: `execvp` returns only when it fails.
  unfoldable pub execute : List (List ℕ) → M End
  execute program = do
    r ← sys w (execvp program)
    return (if eqb_ℤ r.ret minus_one then exit exit_failure else became program)

  unfoldable pub write_session : ℤ → List ℕ → List (List ℕ) → M End
  write_session sid filepath program =
      if is_path filepath
      then (do
        f ← sys w (fopen_path filepath)
        if truthy f.ret
            then (do written ← sys w (print_sid sid); execute program)
            else return (exit exit_failure))
      else execute program

  unfoldable pub enter_session : Settings → List (List ℕ) → M End
  enter_session s program = do
    sid ← sys w setsid
    if ltb_ℤ sid.ret (pos 0)
        then return (exit exit_failure)
        else write_session sid.ret s.filepath program

  unfoldable pub child : Settings → List (List ℕ) → M End
  child s program =
      if s.sync_w_pipe
      then (do closed ← sys w close_read_end; enter_session s program)
      else enter_session s program

  -- Both processes that `vfork` returns in go on from here, each with its own answer.
  unfoldable pub fork : Settings → List (List ℕ) → M End
  fork s program = do
    pid ← sys w vfork
    if eqb_ℤ pid.ret minus_one
        then return (exit exit_failure)
        else if eqb_ℤ pid.ret (pos 0)
        then child s program
        else parent s

  unfoldable pub open_pipe : Settings → List (List ℕ) → M End
  open_pipe s program =
      if s.sync_w_pipe
      then (do
        r ← sys w pipe
        if eqb_ℤ r.ret minus_one then return (exit exit_failure) else fork s program)
      else fork s program

  -- From the options on.
  unfoldable pub launch : Settings → List (List ℕ) → M End
  launch s program =
      if s.setcap
      then (do
        given ← give_checkpointable_capability
        if given then open_pipe s program else return (exit exit_failure))
      else open_pipe s program

  unfoldable pub main : ℕ → List Opt → List (List ℕ) → M End
  main argc opts program =
      if ltb argc 2 then return (exit exit_failure) else (elim (parse_args opts start) [
        | exits status ↦ return (exit status)
        | parsed s ↦ launch s program
      ])
