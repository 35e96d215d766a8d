-- ===== src/Callbacks/Running.antt =====
-- Running the callbacks, and the messages that tell the requester how it went
-- (libs/libkrgcb/libkrgcb.c). A callback is code of the application: a call that the world
-- answers. It is taken not to register further callbacks while it runs.
pub mod Order
pub mod Messages
pub mod Interleaving
use kerrighed_tools.Base.{
  ℕ, zero, suc, ◌+◌, Bool, true, false, not, ◌&&◌, List, [], ◌∷◌, Option, none, some, ℤ, pos,
  negsuc, minus_one, get_or, ltb_ℤ, ltb, ◌==◌, if◌then◌else◌,
}
use kerrighed_tools.Kernel.{
  World, M, ◌>>=◌, ◌>>◌, return, sys, truthy, callback, getpid, msgget, msgsnd, mutex_lock,
  mutex_unlock,
}
use kerrighed_tools.Callbacks.{
  Hook, checkpoint, restart, continue, Context, signal_context, thread_context, in_thread, Callback,
  Info, State, empty_slot, cb_count_read, table, Ended, aborted, ended,
}

-- `cr_cb[idx].func`, and the flag that fits the context.
abbrev pub eligible : Context → Callback → Bool
eligible context cb =
    not (cb.func == 0) && (if in_thread context then cb.thread_cb else not cb.thread_cb)

-- `enum cr_cb_status`
abbrev pub chkpt_app : ℕ
chkpt_app = 1

abbrev pub err : ℕ
err = 2

module _ (w : World) where
  -- The loop of `run_callbacks` over the slots of a table.
  unfoldable pub run_slots : Context → List Callback → ℕ → ℕ → M ℤ
  run_slots context cr_cb zero idx = return (pos 0)
  run_slots context cr_cb (suc rounds) idx =
      let cb = get_or cr_cb idx empty_slot in
      let rest = run_slots context cr_cb rounds (idx + 1) in
      if eligible context cb
      then (do r ← sys w (callback cb.func cb.arg); if truthy r.ret then return r.ret else rest)
      else rest

  unfoldable pub run_hook : Context → Hook → Info → M ℤ
  run_hook context hook info =
      run_slots context (table hook info) (cb_count_read hook info.cr_cb_count) 0

  -- `none` is the `exit` for a missing `cr_callback_init`.
  unfoldable pub run_callbacks : Context → State → M (Option ℤ)
  run_callbacks context s = elim s.info [
    | none ↦ return none
    | some info ↦ elim s.current_hook [
      | none ↦ return (some minus_one)
      | some hook ↦ do r ← run_hook context hook info; return (some r)
    ]
  ]

  unfoldable pub send_message : ℕ → M ℤ
  send_message msg = do
    key ← sys w getpid
    msqid ← sys w (msgget key.ret)
    if ltb_ℤ msqid.ret (pos 0) then return minus_one else do
      sent ← sys w (msgsnd msqid.ret msg)
      return (if truthy sent.ret then minus_one else pos 0)

  -- The message about the signal callbacks, whose result is `r`.
  unfoldable pub report_signal : Hook → Bool → ℤ → M (Unit {0})
  report_signal checkpoint thread_running r =
      if truthy r
      then (do sent ← send_message err; return tt)
      else if thread_running
      then return tt
      else do sent ← send_message chkpt_app; return tt
  report_signal _ thread_running r = return tt

  -- The switch over the signal.
  hook_of : ℕ → Option Hook
  hook_of signum =
      if signum == 37
      then some checkpoint
      else if signum == 38
      then some restart
      else if signum == 39
      then some continue
      else none

  -- The handler with the hook that its signal stands for.
  unfoldable pub handle_hook : Hook → Info → State → M State
  handle_hook hook info s = do
    r ← run_hook signal_context hook info
    told ← report_signal hook s.thread_running r
    if s.thread_running
        then (do woken ← sys w mutex_unlock; return (record s { current_hook = some hook }))
        else return (record s { current_hook = some hook })

  -- `none` is the `exit` for a missing `cr_callback_init`.
  unfoldable pub handle_signal : ℕ → State → M (Option State)
  unfolding hook_of
  handle_signal signum s = elim s.info [
    | none ↦ return none
    | some info ↦ elim (hook_of signum) [
      | none ↦ return (some s)
      | some hook ↦ do s' ← handle_hook hook info s; return (some s')
    ]
  ]

  -- The message about the callbacks of the worker thread.
  unfoldable pub report_thread : Hook → ℤ → M (Unit {0})
  report_thread checkpoint r = do
    sent ← send_message (if truthy r then err else chkpt_app)
    return tt
  report_thread _ r = return tt

  -- The round of `worker_thread` behind the lock, with the hook that a signal has set.
  unfoldable pub worker_body : Hook → Info → M (Unit {0})
  worker_body hook info = do r ← run_hook thread_context hook info; report_thread hook r

  -- One round of the loop of `worker_thread`, for a hook that a signal has set.
  unfoldable pub worker_round : Hook → Info → M (Unit {0})
  unfolding worker_body
  worker_round hook info = do locked ← sys w mutex_lock; worker_body hook info
