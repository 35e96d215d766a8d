-- ===== src/Checkpoint.antt =====
-- tools/checkpoint.c: the tool that freezes, checkpoints and unfreezes an application. What it
-- prints is left out, and with it the quiet flag and the text of the description.
pub mod CommandLine
pub mod Cleaning
pub mod Thawing
use Prim.Native.String.{String}
use kerrighed_tools.Base.{
  ℕ, Bool, true, false, not, ◌&&◌, List, [], ◌∷◌, ℤ, pos, negsuc, minus_one, ltb_ℤ, int_of_long,
  if◌then◌else◌,
}
use kerrighed_tools.Kernel.{
  World, M, ◌>>=◌, ◌>>◌, return, sys, truthy, interrupted_by_signal, CheckpointInfo, ChkptFile,
  chkpt_dir, app_dir, version_dir, description_txt, dir_entry, Out, entries, fopen, opendir,
  closedir, remove_file, stat_chkpt_dir, sigaction,
}
use kerrighed_tools.Proc.{
  application_freeze_from_appid, application_freeze_from_pid, application_unfreeze_from_appid,
  application_unfreeze_from_pid, application_checkpoint_from_appid, application_checkpoint_from_pid,
}
use kerrighed_tools.Callbacks.Requests.{cr_execute_chkpt_callbacks, cr_execute_continue_callbacks}
use kerrighed_tools.Hotplug.Services.{check_hotplug}

-- `app_action_t`
pub data AppAction : Type 0 where
  all checkpoint freeze unfreeze : AppAction

-- The globals that `parse_args` sets.
pub record Options : Type 0 where
  pub from_appid : Bool
  pub no_callbacks : Bool
  pub sig : ℤ
  pub flags : ℕ
  pub action : AppAction

abbrev pub is_all : AppAction → Bool
is_all all = true
is_all _ = false

-- What `readdir` gives after `opendir`.
abbrev pub entries_of : Out → List (String × Bool)
entries_of (entries es) = es
entries_of _ = []

-- Whether `main` ends with EXIT_SUCCESS.
pub data ExitStatus : Type 0 where
  exit_success exit_failure : ExitStatus

module _ (w : World) where
  -- The file is opened and written; the caller ignores the result.
  unfoldable pub write_description : CheckpointInfo → M ℤ
  write_description info = do
    fd ← sys w (fopen (description_txt info.app_id info.chkpt_sn))
    return (if truthy fd.ret then pos 0 else minus_one)

  -- The loop over the entries: regular files are removed, whatever `remove` returns.
  unfoldable pub remove_entries : CheckpointInfo → List (String × Bool) → M (Unit {0})
  remove_entries info [] = return tt
  remove_entries info ((d_name, is_reg) ∷ es) =
      let rest = remove_entries info es in
      if is_reg
      then (do r ← sys w (remove_file (dir_entry info.app_id info.chkpt_sn d_name)); rest)
      else rest

  -- The end of `clean_checkpoint_dir`, after the refresh of the two directories above.
  unfoldable pub clean_version_dir : CheckpointInfo → M (Unit {0})
  clean_version_dir info = do
    dir ← sys w (opendir (version_dir info.app_id info.chkpt_sn))
    if truthy dir.ret
        then (do
          cleaned ← remove_entries info (entries_of dir.out)
          closed ← sys w (closedir (version_dir info.app_id info.chkpt_sn))
          r ← sys w (remove_file (version_dir info.app_id info.chkpt_sn))
          last ← sys w (remove_file (app_dir info.app_id))
          return tt)
        else return tt

  -- `opendir` and `closedir`, to refresh the cache; whether it could be opened.
  unfoldable pub refresh : ChkptFile → M Bool
  refresh path = do
    dir ← sys w (opendir path)
    if truthy dir.ret then (do closed ← sys w (closedir path); return true) else return false

  unfoldable pub clean_checkpoint_dir : CheckpointInfo → M (Unit {0})
  clean_checkpoint_dir info =
      if truthy info.chkpt_sn
      then (do
        top ← refresh chkpt_dir
        if top
            then (do
              mine ← refresh (app_dir info.app_id)
              if mine then clean_version_dir info else return tt)
            else return tt)
      else return tt

  module _ (o : Options) where
    unfoldable pub checkpoint_app : ℤ → ℕ → M ℤ
    checkpoint_app pid flags = do
      stop ← interrupted_by_signal w
      if stop then return minus_one else do
        info ←
            if o.from_appid
            then application_checkpoint_from_appid w pid flags
            else application_checkpoint_from_pid w (int_of_long pid) flags
        if truthy info.result
            then (do cleaned ← clean_checkpoint_dir info; return info.result)
            else do described ← write_description info; return info.result

    -- From the point where no signal has come.
    unfoldable pub freeze_now : ℤ → M ℤ
    freeze_now pid =
        if o.from_appid
        then application_freeze_from_appid w pid
        else application_freeze_from_pid w (int_of_long pid)

    unfoldable pub unfreeze_now : ℤ → ℤ → M ℤ
    unfreeze_now pid signal =
        if o.from_appid
        then application_unfreeze_from_appid w pid signal
        else application_unfreeze_from_pid w (int_of_long pid) signal

    unfoldable pub freeze_app : ℤ → M ℤ
    freeze_app pid = do
      stop ← interrupted_by_signal w
      if stop then return minus_one else do
        r ← if o.no_callbacks then return (pos 0) else cr_execute_chkpt_callbacks w pid o.from_appid
        if truthy r then return r else freeze_now pid

    unfoldable pub unfreeze_app : ℤ → ℤ → M ℤ
    unfreeze_app pid signal = do
      stop ← interrupted_by_signal w
      if stop && not (is_all o.action) then return minus_one else do
        r ←
            if o.no_callbacks
            then return (pos 0)
            else cr_execute_continue_callbacks w pid o.from_appid
        if truthy r then return r else unfreeze_now pid signal

    unfoldable pub freeze_checkpoint_unfreeze : ℤ → ℕ → ℤ → M ℤ
    freeze_checkpoint_unfreeze pid flags signal = do
      frozen ← freeze_app pid
      if truthy frozen then return frozen else do
        r ← checkpoint_app pid flags
        if truthy r
            then (do thawed ← unfreeze_app pid (pos 0); return r)
            else unfreeze_app pid signal

    -- The switch of `main`.
    unfoldable pub act : AppAction → ℤ → M ℤ
    act checkpoint pid = checkpoint_app pid o.flags
    act freeze pid = freeze_app pid
    act unfreeze pid = unfreeze_app pid o.sig
    act all pid = freeze_checkpoint_unfreeze pid o.flags o.sig

    -- SIGINT and SIGTERM; a failure is only reported.
    handle_and_act : ℤ → M ExitStatus
    handle_and_act pid = do
      a ← sys w (sigaction 2)
      b ← sys w (sigaction 15)
      r ← act o.action pid
      return (if truthy r then exit_failure else exit_success)

    -- From the parsed arguments on.
    unfoldable pub main : ℤ → M ExitStatus
    unfolding handle_and_act
    main pid = do
      started ← check_hotplug w
      if truthy started then return exit_failure else do
        dir ← sys w stat_chkpt_dir
        if truthy dir.ret
            then return exit_failure
            else if ltb_ℤ pid (pos 2)
            then return exit_failure
            else handle_and_act pid
