-- ===== src/Callbacks/Registration.antt =====
-- `register_callback` of libs/libkrgcb/libkrgcb.c as a whole, with the start of the worker thread.
use kerrighed_tools.Base.{
  ℕ, ◌∷◌, ◌≡◌, refl, Bool, true, false, Option, none, some, ℤ, if◌then◌else◌, Bool-cases, inl, inr,
}
use kerrighed_tools.Kernel.{World, Log, truthy, pthread_create, mutex_lock}
use kerrighed_tools.Callbacks.{
  Hook, Context, signal_context, thread_context, in_thread, Info, State, Ended, ended, store_in,
  initialize_cb_thread, register_with, register_callback, free_info_memory,
}
use kerrighed_tools.Callbacks.Tables.{
  IsValid, Stored, store_callback-IsValid, store_callback-Stored,
}

module _ (w : World) (hook : Hook) (func arg : ℕ) (context : Context) (info : Info) where
  -- The answer to the creation of the worker thread, when it is asked for.
  abbrev pub creation : Log → ℤ
  creation log = (w.answer (mutex_lock ∷ log) pthread_create).ret

  -- How a registration ends, from the state `s` with the tables `info`.
  pub data Registered (s : State) (log : Log) : Ended → Type 0 where
    stored :
        (r : ℤ) (s' : State) (info' : Info)
        → s'.info ≡ some info'
        → IsValid info'
        → Stored hook
            (record { func = func; arg = arg; thread_cb = in_thread context })
            info
            info'
            r
        → s'.thread_running ≡ (if in_thread context then true else s.thread_running)
        → (in_thread context ≡ true → s.thread_running ≡ false → truthy (creation log) ≡ false)
        → Registered s log (ended r s')
    no_thread :
        (s' : State)
        → in_thread context ≡ true
        → s.thread_running ≡ false
        → truthy (creation log) ≡ true
        → s'.info ≡ none
        → s'.thread_running ≡ false
        → Registered s log (ended (creation log) s')

  store_in-Registered :
      (s s' : State) (log : Log)
      → IsValid info
      → s'.thread_running ≡ (if in_thread context then true else s.thread_running)
      → (in_thread context ≡ true → s.thread_running ≡ false → truthy (creation log) ≡ false)
      → Registered s log (store_in w hook func arg context info s')
  unfolding store_in
  store_in-Registered s s' log v running created =
      stored _ _ _ refl (store_callback-IsValid hook func arg context info v)
        (store_callback-Stored hook func arg context info v) running created

module _ (w : World) (hook : Hook) (func arg : ℕ) (info : Info) (v : IsValid info) where
  thread-Registered :
      (i : Option Info) (running : Bool) (h : Option Hook) (log : Log)
      → let s : State = record { info = i; thread_running = running; current_hook = h } in
        Registered w hook func arg thread_context info s log
          (register_with w hook func arg thread_context info s log).0
  unfolding register_with initialize_cb_thread free_info_memory
  thread-Registered i true h log =
      let s : State = record { info = i; thread_running = true; current_hook = h } in
      store_in-Registered w hook func arg thread_context info s s log v refl (λ t r. absurd (cc))
  thread-Registered i false h log =
      let s : State = record { info = i; thread_running = false; current_hook = h } in
      elim (Bool-cases (truthy (w.answer (mutex_lock ∷ log) pthread_create).ret)) [
        | inl failed ↦ rw failed (rw failed (no_thread _ refl refl failed refl refl))
        | inr started ↦ rw started (
            rw started (
              store_in-Registered w hook func arg thread_context info s
                (record s { thread_running = true }) log v refl (λ t r. started)))
      ]

  -- With well-formed tables, a registration for either context ends in one of two ways. It stores the
  -- callback behind the others of its hook, or reports a full table with -1, with tables that are
  -- well-formed again and, for a callback of the thread context, the worker thread running, which
  -- `pthread_create` has created unless it ran before. Or the callback needs the thread, it did not run,
  -- and `pthread_create` has failed: the result is the error that it gave, and the tables are gone.
  pub register_callback-Registered :
      (context : Context) (s : State) (log : Log)
      → Registered w hook func arg context info
          (record s { info = some info })
          log
          (register_callback w hook func arg context (record s { info = some info }) log).0
  unfolding register_callback register_with
  register_callback-Registered signal_context s log =
      store_in-Registered w hook func arg signal_context info (record s { info = some info })
        (record s { info = some info }) log v refl (λ t r. absurd (cc))
  register_callback-Registered thread_context s log =
      thread-Registered (some info) s.thread_running s.current_hook log
