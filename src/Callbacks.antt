-- ===== src/Callbacks.antt =====
-- libs/libkrgcb/libkrgcb.c: the callbacks that a process registers for checkpoint, restart and
-- continue, and the tables that hold them. Running them and the messages are in the children.
pub mod Tables
pub mod Registration
pub mod Running
pub mod Requests
use kerrighed_tools.Base.{
  ℕ, ◌+◌, Bool, true, false, List, Option, none, some, ℤ, pos, minus_one, set, replicate, ltb,
  if◌then◌else◌,
}
use kerrighed_tools.Kernel.{
  World, M, ◌>>=◌, ◌>>◌, return, sys, truthy, malloc, pthread_create, mutex_lock, sigaction,
}
use kerrighed_tools.Proc.{application_set_userdata}

-- `enum cr_cb_hook`
pub data Hook : Type 0 where
  checkpoint restart continue : Hook

-- `enum cr_cb_context`
pub data Context : Type 0 where
  signal_context thread_context : Context

-- `struct cr_cb_callback_s`; a function pointer is a number, 0 for NULL.
pub record Callback : Type 0 where
  pub func : ℕ
  pub arg : ℕ
  pub thread_cb : Bool

-- `cr_cb_count_t`
pub record Count : Type 0 where
  pub chkpt : ℕ
  pub rst : ℕ
  pub cnt : ℕ

-- `cr_cb_info_t`
pub record Info : Type 0 where
  pub cr_cb_count : Count
  pub cr_cb_chkpt : List Callback
  pub cr_cb_rst : List Callback
  pub cr_cb_cnt : List Callback

-- The globals of the library. `current_hook` is 0, no hook, until a signal sets it.
pub record State : Type 0 where
  pub info : Option Info
  pub thread_running : Bool
  pub current_hook : Option Hook

abbrev pub max_callbacks : ℕ
max_callbacks = 40

-- A slot of the zeroed table.
abbrev pub empty_slot : Callback
empty_slot = record { func = 0; arg = 0; thread_cb = false }

-- What a function of the library ends with: `exit` for a missing `cr_callback_init`, or a result.
pub data Ended : Type 0 where
  aborted : Ended
  ended : ℤ → State → Ended

unfoldable pub cb_count_read : Hook → Count → ℕ
cb_count_read checkpoint cb = cb.chkpt
cb_count_read restart cb = cb.rst
cb_count_read continue cb = cb.cnt

unfoldable pub cb_count_write : Hook → ℕ → Count → Count
cb_count_write checkpoint value cb = record cb { chkpt = value }
cb_count_write restart value cb = record cb { rst = value }
cb_count_write continue value cb = record cb { cnt = value }

-- The switch that picks the table of a hook, and a write into that table.
unfoldable pub table : Hook → Info → List Callback
table checkpoint info = info.cr_cb_chkpt
table restart info = info.cr_cb_rst
table continue info = info.cr_cb_cnt

put_slot : Hook → ℕ → Callback → Info → Info
put_slot checkpoint idx cb info = record info { cr_cb_chkpt = set info.cr_cb_chkpt idx cb }
put_slot restart idx cb info = record info { cr_cb_rst = set info.cr_cb_rst idx cb }
put_slot continue idx cb info = record info { cr_cb_cnt = set info.cr_cb_cnt idx cb }

abbrev pub in_thread : Context → Bool
in_thread signal_context = false
in_thread thread_context = true

-- The end of `register_callback`: the slot behind the registered ones is filled, if there is one.
unfoldable pub store_callback : Hook → ℕ → ℕ → Context → Info → Info × ℤ
unfolding cb_count_read cb_count_write put_slot
store_callback hook func arg context info =
    let idx = cb_count_read hook info.cr_cb_count in
    if ltb idx max_callbacks
    then (
      record (put_slot hook idx (record { func = func; arg = arg; thread_cb = in_thread context })
          info) { cr_cb_count = cb_count_write hook (idx + 1) info.cr_cb_count },
      pos 0,
    )
    else (info, minus_one)

-- `memset(info, 0, sizeof(cr_cb_info_t))`
abbrev pub zeroed : Info
zeroed = record {
  cr_cb_count = record { chkpt = 0; rst = 0; cnt = 0 };
  cr_cb_chkpt = replicate max_callbacks empty_slot;
  cr_cb_rst = replicate max_callbacks empty_slot;
  cr_cb_cnt = replicate max_callbacks empty_slot;
}

free_info_memory : State → State
free_info_memory s = record s { info = none; thread_running = false }

module _ (w : World) where
  initialize_cb_thread : State → M (ℤ × State)
  unfolding free_info_memory
  initialize_cb_thread s = do
    sys w mutex_lock
    r ← sys w pthread_create
    return (
        if truthy r.ret
        then (r.ret, free_info_memory (record s { thread_running = true }))
        else (r.ret, record s { thread_running = true }))

  -- With the worker thread running, or not wanted.
  store_in : Hook → ℕ → ℕ → Context → Info → State → Ended
  unfolding store_callback
  store_in hook func arg context info s =
      let (info', r) = store_callback hook func arg context info in
      ended r (record s { info = some info' })

  register_with : Hook → ℕ → ℕ → Context → Info → State → M Ended
  unfolding initialize_cb_thread store_in
  register_with hook func arg signal_context info s =
      return (store_in hook func arg signal_context info s)
  register_with hook func arg thread_context info s =
      if s.thread_running then return (store_in hook func arg thread_context info s) else do
        started ← initialize_cb_thread s
        return (
            if truthy started.0
            then ended started.0 started.1
            else store_in hook func arg thread_context info started.1)

  unfoldable pub register_callback : Hook → ℕ → ℕ → Context → State → M Ended
  unfolding register_with
  register_callback hook func arg context s = elim s.info [
    | none ↦ return aborted
    | some info ↦ register_with hook func arg context info s
  ]

  -- The six functions that applications call.
  unfoldable pub register_chkpt_callback : ℕ → ℕ → State → M Ended
  register_chkpt_callback func arg s = register_callback checkpoint func arg signal_context s

  unfoldable pub register_restart_callback : ℕ → ℕ → State → M Ended
  register_restart_callback func arg s = register_callback restart func arg signal_context s

  unfoldable pub register_continue_callback : ℕ → ℕ → State → M Ended
  register_continue_callback func arg s = register_callback continue func arg signal_context s

  unfoldable pub register_chkpt_thread_callback : ℕ → ℕ → State → M Ended
  register_chkpt_thread_callback func arg s = register_callback checkpoint func arg thread_context s

  unfoldable pub register_restart_thread_callback : ℕ → ℕ → State → M Ended
  register_restart_thread_callback func arg s = register_callback restart func arg thread_context s

  unfoldable pub register_continue_thread_callback : ℕ → ℕ → State → M Ended
  register_continue_thread_callback func arg s =
      register_callback continue func arg thread_context s

  initialize_cb_info : State → M (ℤ × State)
  initialize_cb_info s = do
    a ← sys w malloc
    return (
        if truthy a.ret
        then (pos 0, record s { info = some zeroed })
        else (minus_one, record s { info = none }))

  -- `SIG_CB_RUN_CHKPT`, `SIG_CB_RUN_RST` and `SIG_CB_RUN_CNT`.
  initialize_signal_handlers : M ℤ
  initialize_signal_handlers = do
    a ← sys w (sigaction 37)
    if truthy a.ret then return a.ret else do
      b ← sys w (sigaction 38)
      if truthy b.ret then return b.ret else do c ← sys w (sigaction 39); return c.ret

  -- `CR_CB_ACTIV_CB` is bit 0.
  declare_cb : M ℤ
  declare_cb = application_set_userdata w 1

  unfoldable pub callback_init : State → M (ℤ × State)
  unfolding initialize_cb_info initialize_signal_handlers declare_cb free_info_memory
  callback_init s = do
    made ← initialize_cb_info s
    if truthy made.0 then return (made.0, free_info_memory made.1) else do
      handled ← initialize_signal_handlers
      if truthy handled then return (handled, free_info_memory made.1) else do
        declared ← declare_cb
        return (declared, if truthy declared then free_info_memory made.1 else made.1)

unfoldable pub callback_exit : State → Ended
unfolding free_info_memory
callback_exit s = elim s.info [ none ↦ aborted | some info ↦ ended (pos 0) (free_info_memory s) ]
