-- ===== src/Callbacks/Running/Messages.antt =====
-- The messages of libs/libkrgcb/libkrgcb.c that answer a checkpoint request: who sends them, the
-- signal handler or the worker thread, which they are, and how many.
use kerrighed_tools.Base.{
  ℕ, zero, suc, ◌+◌, ◌≡◌, refl, ◌∙◌, ap, Bool, true, false, List, [], ◌∷◌, ℤ, pos, ltb_ℤ, get_or,
  length, if◌then◌else◌, Bool-cases, inl, inr,
}
use kerrighed_tools.Kernel.{
  World, M, Log, msgsnd, msgget, getpid, ◌>>=◌, return, truthy, callback, mutex_lock,
}
use kerrighed_tools.Callbacks.{
  Hook, checkpoint, Context, signal_context, thread_context, Callback, Info, State, table,
  cb_count_read, empty_slot,
}
use kerrighed_tools.Callbacks.Running.{
  chkpt_app, err, eligible, run_slots, run_hook, send_message, report_signal, report_thread,
  handle_hook, worker_round,
}

-- The messages that a log has sent, newest first.
abbrev pub messages : Log → List ℕ
messages [] = []
messages (msgsnd q m ∷ log) = m ∷ messages log
messages (c ∷ log) = messages log

-- How many messages a log has sent.
abbrev pub sent : Log → ℕ
sent log = length (messages log)

-- What the handler adds, with the result of the signal callbacks, and what the thread adds.
abbrev pub handler_message : Bool → ℤ → List ℕ → List ℕ
handler_message running r ms = if truthy r then err ∷ ms else if running then ms else chkpt_app ∷ ms

abbrev pub thread_message : ℤ → List ℕ → List ℕ
thread_message r ms = (if truthy r then err else chkpt_app) ∷ ms

module _ (w : World) where
  -- A checkpoint request: the signal handler, and then, when it runs, the worker thread, which the
  -- handler has woken.
  abbrev pub request : Info → State → M (Unit {0})
  request info s = do
    s' ← handle_hook w checkpoint info s
    if s.thread_running then worker_round w checkpoint info else return tt

  messages-run_slots :
      (context : Context) (cs : List Callback) (rounds idx : ℕ) (log : Log)
      → messages (run_slots w context cs rounds idx log).1 ≡ messages log
  unfolding run_slots
  messages-run_slots context cs zero idx log = refl
  messages-run_slots context cs (suc rounds) idx log =
      let ih = messages-run_slots context cs rounds (idx + 1) in
      let cb = get_or cs idx empty_slot in
      elim (Bool-cases (eligible context cb)) [
        | inl fits ↦
            rw fits elim (Bool-cases (truthy (w.answer log (callback cb.func cb.arg)).ret)) [
              | inl failed ↦ rw failed refl
              | inr went_on ↦ rw went_on (ih (callback cb.func cb.arg ∷ log))
            ]
        | inr unfit ↦ rw unfit (ih log)
      ]

  pub messages-run_hook :
      (context : Context) (hook : Hook) (info : Info) (log : Log)
      → messages (run_hook w context hook info log).1 ≡ messages log
  unfolding run_hook
  messages-run_hook context hook info log =
      messages-run_slots context (table hook info) (cb_count_read hook info.cr_cb_count) 0 log

  -- The result of the signal callbacks, and that of the thread's, which run later.
  abbrev pub signal_result : Info → Log → ℤ
  signal_result info log = (run_hook w signal_context checkpoint info log).0

  abbrev pub thread_result : Info → State → Log → ℤ
  thread_result info s log =
      (run_hook w thread_context checkpoint info
        (mutex_lock ∷ (handle_hook w checkpoint info s log).1)).0

  module _
      (queue : (log : Log) (key : ℤ) → ltb_ℤ (w.answer log (msgget key)).ret (pos 0) ≡ false) where
    pub messages-send_message :
        (msg : ℕ) (log : Log) → messages (send_message w msg log).1 ≡ msg ∷ messages log
    unfolding send_message
    messages-send_message msg log = rw (queue (getpid ∷ log) (w.answer log getpid).ret) refl

    messages-report_signal :
        (running : Bool) (r : ℤ) (log : Log)
        → messages (report_signal w checkpoint running r log).1
          ≡ handler_message running r (messages log)
    unfolding report_signal
    messages-report_signal running r log = elim (Bool-cases (truthy r)) [
      | inl failed ↦ rw failed (messages-send_message err log)
      | inr passed ↦ rw passed elim (Bool-cases running) [
        | inl on ↦ rw on refl
        | inr off ↦ rw off (messages-send_message chkpt_app log)
      ]
    ]

    pub messages-handle_hook :
        (info : Info) (s : State) (log : Log)
        → messages (handle_hook w checkpoint info s log).1
          ≡ handler_message s.thread_running (signal_result info log) (messages log)
    unfolding handle_hook
    messages-handle_hook info s log =
        let r = run_hook w signal_context checkpoint info log in
        let e = messages-run_hook signal_context checkpoint info log in
        elim (Bool-cases s.thread_running) [
          | inl on ↦ rw on (messages-report_signal true r.0 r.1 ∙ ap (handler_message true r.0) e)
          | inr off ↦
              rw off (messages-report_signal false r.0 r.1 ∙ ap (handler_message false r.0) e)
        ]

    messages-worker_round :
        (info : Info) (log : Log)
        → messages (worker_round w checkpoint info log).1
          ≡ thread_message
              (run_hook w thread_context checkpoint info (mutex_lock ∷ log)).0
              (messages log)
    unfolding worker_round report_thread
    messages-worker_round info log =
        let r = run_hook w thread_context checkpoint info (mutex_lock ∷ log) in
        messages-send_message _ r.1
        ∙ ap (thread_message r.0)
            (messages-run_hook thread_context checkpoint info (mutex_lock ∷ log))

    messages-woken :
        (info : Info) (running : Bool) (log : Log)
        → messages ((if running then worker_round w checkpoint info else return tt) log).1 ≡ (
            if running
            then thread_message
                (run_hook w thread_context checkpoint info (mutex_lock ∷ log)).0
                (messages log)
            else messages log)
    messages-woken info true log = messages-worker_round info log
    messages-woken info false log = refl

    -- The messages after a request.
    pub messages-request :
        (info : Info) (s : State) (log : Log)
        → let said = handler_message s.thread_running (signal_result info log) (messages log) in
          messages (request info s log).1
          ≡ (if s.thread_running then thread_message (thread_result info s log) said else said)
    messages-request info s log =
        messages-woken info s.thread_running (handle_hook w checkpoint info s log).1
        ∙ ap (λ ms. if s.thread_running then thread_message (thread_result info s log) ms else ms)
            (messages-handle_hook info s log)
