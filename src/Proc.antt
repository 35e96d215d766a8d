-- ===== src/Proc.antt =====
-- libs/libkerrighed/libproc.c: the requests about processes, applications and nodes.
use kerrighed_tools.Base.{
  ℕ, Bool, true, false, not, List, [], ◌∷◌, length, eqb_ℤ, ◌+◌, ◌%◌, ℤ, pos, minus_one, pos_part,
  ◌==◌, if◌then◌else◌,
}
use kerrighed_tools.Kernel.{
  World, M, Log, ◌>>=◌, ◌>>◌, return, sys, call_kerrighed_services, number_of, truthy,
  CheckpointInfo, SubstFile, fcntl_getfl, sys, Out, checkpointed, Answer,
}
use kerrighed_tools.Kernel

-- `APP_FROM_PID` of libs/include/checkpoint.h.
abbrev pub app_from_pid : ℕ
app_from_pid = 1

-- `flags | APP_FROM_PID`: the lowest bit set.
abbrev pub or_from_pid : ℕ → ℕ
or_from_pid flags = if flags % 2 == 0 then flags + 1 else flags

-- `struct cr_subst_files_array`: the files in use, and whether `files` is not NULL.
pub record SubstFilesArray : Type 0 where
  pub files : List SubstFile
  pub allocated : Bool

-- sizeof(kerrighed_node_t) * 2 + sizeof(unsigned long) * 2
abbrev pub subst_str_len : ℕ
subst_str_len = 20

-- The `app_id` and `chkpt_sn` of a struct whose version was 0.
abbrev pub written : ℤ → Out → ℤ × ℤ
written app_id (checkpointed app_id' chkpt_sn) = (app_id', chkpt_sn)
written app_id _ = (app_id, pos 0)

module _ (w : World) where
  unfoldable pub get_node_id : M ℤ
  get_node_id = do
    res ← call_kerrighed_services w Kernel.get_node_id
    return (if truthy res.ret then minus_one else number_of res.out)

  unfoldable pub get_nr_nodes : M ℤ
  get_nr_nodes = do
    res ← call_kerrighed_services w Kernel.get_nodes_count
    return (if truthy res.ret then minus_one else number_of res.out)

  unfoldable pub migrate : ℤ → ℤ → M ℤ
  migrate pid destination_node = do
    res ← call_kerrighed_services w (Kernel.process_migration pid destination_node)
    return res.ret

  -- `pid` is that of the calling process.
  unfoldable pub migrate_self : ℤ → ℤ → M ℤ
  migrate_self pid destination_node = do
    res ← call_kerrighed_services w (Kernel.process_migration pid destination_node)
    return res.ret

  unfoldable pub thread_migrate : ℤ → ℤ → M ℤ
  thread_migrate thread_id destination_node = do
    res ← call_kerrighed_services w (Kernel.thread_migration thread_id destination_node)
    return res.ret

  unfoldable pub application_freeze_from_appid : ℤ → M ℤ
  application_freeze_from_appid app_id = do
    r ← call_kerrighed_services w (Kernel.app_freeze app_id 0 (pos 0))
    return r.ret

  unfoldable pub application_freeze_from_pid : ℤ → M ℤ
  application_freeze_from_pid pid = do
    r ← call_kerrighed_services w (Kernel.app_freeze pid app_from_pid (pos 0))
    return r.ret

  unfoldable pub application_unfreeze_from_appid : ℤ → ℤ → M ℤ
  application_unfreeze_from_appid app_id signal = do
    r ← call_kerrighed_services w (Kernel.app_unfreeze app_id 0 signal)
    return r.ret

  unfoldable pub application_unfreeze_from_pid : ℤ → ℤ → M ℤ
  application_unfreeze_from_pid pid signal = do
    r ← call_kerrighed_services w (Kernel.app_unfreeze pid app_from_pid signal)
    return r.ret

  -- `ckpt_info` as it is returned: the service may have written the identifier and the version.
  checkpoint_info_of : ℤ → ℕ → Answer → CheckpointInfo
  checkpoint_info_of app_id flags a =
      let (app_id', chkpt_sn) = written app_id a.out in
      record {
        app_id = app_id';
        flags = flags;
        chkpt_sn = chkpt_sn;
        result = a.ret;
        signal = pos 0;
      }

  unfoldable pub application_checkpoint_from_appid : ℤ → ℕ → M CheckpointInfo
  unfolding checkpoint_info_of
  application_checkpoint_from_appid app_id flags = do
    a ← call_kerrighed_services w (Kernel.app_chkpt app_id flags (pos 0) (pos 0))
    return (checkpoint_info_of app_id flags a)

  unfoldable pub application_checkpoint_from_pid : ℤ → ℕ → M CheckpointInfo
  unfolding checkpoint_info_of
  application_checkpoint_from_pid pid flags = do
    a ← call_kerrighed_services w (Kernel.app_chkpt pid (or_from_pid flags) (pos 0) (pos 0))
    return (checkpoint_info_of pid (or_from_pid flags) a)

  unfoldable pub application_set_userdata : ℕ → M ℤ
  application_set_userdata user_data = do
    r ← call_kerrighed_services w (Kernel.app_set_userdata user_data)
    return r.ret

  -- The result, and what `*data` is left with.
  unfoldable pub application_get_userdata_from_appid : ℤ → ℕ → M (ℤ × ℕ)
  application_get_userdata_from_appid app_id user_data = do
    res ← call_kerrighed_services w (Kernel.app_get_userdata app_id 0)
    return (res.ret, if truthy res.ret then user_data else pos_part (number_of res.out))

  unfoldable pub application_get_userdata_from_pid : ℤ → ℕ → M (ℤ × ℕ)
  application_get_userdata_from_pid pid user_data = do
    res ← call_kerrighed_services w (Kernel.app_get_userdata pid app_from_pid)
    return (res.ret, if truthy res.ret then user_data else pos_part (number_of res.out))

  -- The loop over the files; false is `goto err_inval`.
  unfoldable pub check_files : List SubstFile → M Bool
  check_files [] = return true
  check_files (f ∷ files) =
      if length f.file_id == subst_str_len
      then (do
        r ← sys w (fcntl_getfl f.fd)
        if eqb_ℤ r.ret minus_one then return false else check_files files)
      else return false

  unfoldable pub check_substitution : SubstFilesArray → M Bool
  unfolding check_files
  check_substitution substitution = elim substitution.files [
    | [] ↦ return (not substitution.allocated)
    | f ∷ files ↦ check_files (f ∷ files)
  ]

  unfoldable pub application_restart : ℤ → ℤ → ℕ → SubstFilesArray → M ℤ
  unfolding check_substitution
  application_restart app_id chkpt_sn flags substitution = do
    valid ← check_substitution substitution
    if valid
        then (do
          res ← call_kerrighed_services w (
              Kernel.app_restart (record {
                app_id = app_id;
                chkpt_sn = chkpt_sn;
                flags = flags;
                substitution = substitution.files;
              }))
          return (if truthy res.ret then res.ret else number_of res.out))
        else return minus_one
