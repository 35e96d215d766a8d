-- ===== src/Callbacks/Running/Interleaving.antt =====
-- The signal handler and the worker thread of libs/libkrgcb/libkrgcb.c, in any order that the mutex
-- between them allows. A handler runs in one go, and so do the callbacks of a round; a signal can come
-- before, between the lock and the callbacks, and after. The registered callbacks do not change.
use kerrighed_tools.Base.{
  ℕ, suc, ◌+◌, ◌≡◌, refl, ap, ◌≤◌, Bool, true, false, ◌∷◌, some, ℤ, pos, ltb_ℤ, length,
  if◌then◌else◌, arith, Bool-cases, inl, inr,
}
use kerrighed_tools.Kernel.{World, Log, msgget, getpid, truthy, mutex_lock}
use kerrighed_tools.Callbacks.{
  Hook, checkpoint, restart, continue, signal_context, thread_context, Info, State,
}
use kerrighed_tools.Callbacks.Running.{
  chkpt_app, err, run_hook, send_message, report_signal, report_thread, handle_hook, worker_body,
}
use kerrighed_tools.Callbacks.Running.Messages.{sent, messages-run_hook}

-- The process: the globals, the mutex, and whether the worker thread is behind it.
pub record Process : Type 0 where
  pub state : State
  pub locked : Bool
  pub busy : Bool

-- A run, with how many signals it handles and how many rounds the worker thread ends. A signal for a
-- hook is handled, which gives the mutex free when the thread runs; the thread takes the mutex; it runs
-- its callbacks, for the hook that is current then.
pub data Run (w : World) (info : Info) (p : Process) (log : Log)
    : ℕ → ℕ → Process → Log → Type 0 where
  start : Run w info p log 0 0 p log
  signalled :
      (hook : Hook) (m n : ℕ) (p₁ : Process) (log₁ : Log)
      → Run w info p log m n p₁ log₁
      → Run w info p log
          (suc m)
          n
          (record p₁ {
            state = (handle_hook w hook info p₁.state log₁).0;
            locked = if p₁.state.thread_running then false else p₁.locked;
          })
          (handle_hook w hook info p₁.state log₁).1
  took :
      (m n : ℕ) (p₁ : Process) (log₁ : Log)
      → p₁.locked ≡ false
      → p₁.busy ≡ false
      → Run w info p log m n p₁ log₁
      → Run w info p log m n (record p₁ { locked = true; busy = true }) (mutex_lock ∷ log₁)
  answered :
      (hook : Hook) (m n : ℕ) (p₁ : Process) (log₁ : Log)
      → p₁.busy ≡ true
      → p₁.state.current_hook ≡ some hook
      → Run w info p log m n p₁ log₁
      → Run w info p log m (suc n) (record p₁ { busy = false }) (worker_body w hook info log₁).1

-- What a round of the thread still can be made of.
abbrev pending : Process → ℕ
pending p = (if p.busy then 1 else 0) + (if p.locked then 0 else 1)

freed-le :
    (running locked : Bool)
    → (if (if running then false else locked) then 0 else 1) ≤ (if locked then 0 else 1) + 1
freed-le true true = omega arith
freed-le true false = omega arith
freed-le false true = omega arith
freed-le false false = omega arith

module _ (w : World) (info : Info) where
  sent-send_message-le : (msg : ℕ) (log : Log) → sent (send_message w msg log).1 ≤ sent log + 1
  unfolding send_message
  sent-send_message-le msg log =
      elim (Bool-cases
        (ltb_ℤ (w.answer (getpid ∷ log) (msgget (w.answer log getpid).ret)).ret (pos 0))) [
          | inl none ↦ rw none (omega arith)
          | inr found ↦ rw found (omega arith)
        ]

  sent-report_signal-le :
      (hook : Hook) (running : Bool) (r : ℤ) (log : Log)
      → sent (report_signal w hook running r log).1 ≤ sent log + 1
  unfolding report_signal
  sent-report_signal-le checkpoint running r log = elim (Bool-cases (truthy r)) [
    | inl failed ↦ rw failed (sent-send_message-le err log)
    | inr passed ↦ rw passed elim (Bool-cases running) [
      | inl on ↦ rw on (omega arith)
      | inr off ↦ rw off (sent-send_message-le chkpt_app log)
    ]
  ]
  sent-report_signal-le restart running r log = omega arith
  sent-report_signal-le continue running r log = omega arith

  sent-handle_hook-le :
      (hook : Hook) (s : State) (log : Log) → sent (handle_hook w hook info s log).1 ≤ sent log + 1
  unfolding handle_hook
  sent-handle_hook-le hook s log =
      let r = run_hook w signal_context hook info log in
      let e = ap length (messages-run_hook w signal_context hook info log) in
      elim (Bool-cases s.thread_running) [
        | inl on ↦ let h = sent-report_signal-le hook true r.0 r.1 in rw on (omega (arith, e, h))
        | inr off ↦ let h = sent-report_signal-le hook false r.0 r.1 in rw off (omega (arith, e, h))
      ]

  sent-report_thread-le :
      (hook : Hook) (r : ℤ) (log : Log) → sent (report_thread w hook r log).1 ≤ sent log + 1
  unfolding report_thread
  sent-report_thread-le checkpoint r log = sent-send_message-le _ log
  sent-report_thread-le restart r log = omega arith
  sent-report_thread-le continue r log = omega arith

  sent-worker_body-le :
      (hook : Hook) (log : Log) → sent (worker_body w hook info log).1 ≤ sent log + 1
  unfolding worker_body
  sent-worker_body-le hook log =
      let r = run_hook w thread_context hook info log in
      let e = ap length (messages-run_hook w thread_context hook info log) in
      let h = sent-report_thread-le hook r.0 r.1 in omega (arith, e, h)

  -- A process whose worker thread waits behind the mutex, as it was created.
  pub record Waits (p : Process) : Type 0 where
    pub held : p.locked ≡ true
    pub idle : p.busy ≡ false

  Run-pending :
      (p : Process) (log : Log) (p' : Process) (log' : Log) (m n : ℕ)
      → Waits p
      → Run w info p log m n p' log'
      → (n + pending p' ≤ m) × (sent log' ≤ sent log + m + n)
  Run-pending p log p' log' m n h start = (rw (h.held, h.idle) (omega arith), omega arith)
  Run-pending p log p' log' m n h (signalled hook m₁ n₁ p₁ log₁ r) =
      let (a, b) = Run-pending p log p₁ log₁ m₁ n₁ h r in
      let freed = freed-le p₁.state.thread_running p₁.locked in
      let told = sent-handle_hook-le hook p₁.state log₁ in
      (omega (arith, a, freed), omega (arith, b, told))
  Run-pending p log p' log' m n h (took m₁ n₁ p₁ log₁ free idle r) =
      let (a, b) = Run-pending p log p₁ log₁ m₁ n₁ h r in
      let before : pending p₁ ≡ 1 = rw (idle, free) refl in (omega (arith, a, before), b)
  Run-pending p log p' log' m n h (answered hook m₁ n₁ p₁ log₁ busy e r) =
      let (a, b) = Run-pending p log p₁ log₁ m₁ n₁ h r in
      let before : ◌≡◌ {A = ℕ} (if p₁.busy then 1 else 0) 1 = rw busy refl in
      let told = sent-worker_body-le hook log₁ in (omega (arith, a, before), omega (arith, b, told))

  -- However signals and the worker thread come in turn, from a thread that waits: it ends at most as many
  -- rounds as signals are handled, and the process sends at most two messages for each signal.
  pub Run-bounds :
      (p : Process) (log : Log) (p' : Process) (log' : Log) (m n : ℕ)
      → Waits p
      → Run w info p log m n p' log'
      → (n ≤ m) × (sent log' ≤ sent log + (m + m))
  Run-bounds p log p' log' m n h r =
      let (a, b) = Run-pending p log p' log' m n h r in (omega (arith, a), omega (arith, a, b))
