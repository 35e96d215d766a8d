-- ===== src/Callbacks/Requests.antt =====
-- The side of libs/libkrgcb/libkrgcb.c that asks another process to run its callbacks.
pub mod Success
pub mod Protocol
use kerrighed_tools.Base.{
  ℕ, ◌%◌, ◌==◌, Bool, false, ℤ, pos, minus_one, ltb_ℤ, eqb_ℤ, int_of_long, if◌then◌else◌,
}
use kerrighed_tools.Kernel.{
  World, M, ◌>>=◌, return, sys, truthy, number_of, msgget, msgrcv, msgctl_rmid, kill,
}
use kerrighed_tools.Callbacks.Running.{err}
use kerrighed_tools.Proc.{application_get_userdata_from_appid, application_get_userdata_from_pid}

module _ (w : World) where
  -- `CR_CB_ACTIV_CB` is bit 0 of the user data.
  unfoldable pub cr_detect_callbacks : ℤ → Bool → M ℤ
  cr_detect_callbacks pid from_appid = do
    found ←
        if from_appid
        then application_get_userdata_from_appid w pid 0
        else application_get_userdata_from_pid w (int_of_long pid) 0
    return (if truthy found.0 then found.0 else if found.1 % 2 == 0 then minus_one else pos 0)

  -- From the signal to the answer.
  unfoldable pub ask_checkpoint : ℤ → ℤ → M ℤ
  ask_checkpoint pid msqid = do
    signalled ← sys w (kill (int_of_long pid) 37)
    if truthy signalled.ret then return signalled.ret else do
      received ← sys w (msgrcv msqid)
      if ltb_ℤ received.ret (pos 0) then return minus_one else do
        removed ← sys w (msgctl_rmid msqid)
        return (
            if truthy removed.ret
            then removed.ret
            else if eqb_ℤ (number_of received.out) (pos err)
            then minus_one
            else pos 0)

  unfoldable pub cr_execute_chkpt_callbacks : ℤ → Bool → M ℤ
  unfolding ask_checkpoint
  cr_execute_chkpt_callbacks pid from_appid = do
    absent ← cr_detect_callbacks pid from_appid
    if truthy absent then return (pos 0) else do
      msqid ← sys w (msgget (int_of_long pid))
      if ltb_ℤ msqid.ret (pos 0) then return minus_one else ask_checkpoint pid msqid.ret

  -- The two requests that send a signal and do not wait.
  send_hook : ℕ → ℤ → Bool → M ℤ
  send_hook signal pid from_appid = do
    absent ← cr_detect_callbacks pid from_appid
    if truthy absent
        then return (pos 0)
        else do r ← sys w (kill (int_of_long pid) signal); return r.ret

  unfoldable pub cr_execute_restart_callbacks : ℤ → M ℤ
  unfolding send_hook
  cr_execute_restart_callbacks pid = send_hook 38 pid false

  unfoldable pub cr_execute_continue_callbacks : ℤ → Bool → M ℤ
  unfolding send_hook
  cr_execute_continue_callbacks pid from_appid = send_hook 39 pid from_appid
