-- ===== src/Checkpoint/Thawing.antt =====
-- The cycle of freezing, checkpointing and unfreezing of tools/checkpoint.c: an application that
-- it froze is not left frozen.
use kerrighed_tools.Base.{
  ℕ, ◌≡◌, refl, Bool, true, false, not, ◌&&◌, ◌∷◌, ℤ, pos, minus_one, eqb_ℤ, int_of_long,
  if◌then◌else◌, arith, Bool-cases, inl, inr,
}
use kerrighed_tools.Kernel.{
  World, Log, truthy, Request, app_unfreeze, open_services, close_services, ioctl,
  call_kerrighed_services,
}
use kerrighed_tools.Proc.{
  app_from_pid, application_unfreeze_from_appid, application_unfreeze_from_pid,
}
use kerrighed_tools.Callbacks.Requests.{cr_execute_continue_callbacks}
use kerrighed_tools.Checkpoint.{
  Options, all, is_all, checkpoint_app, freeze_app, unfreeze_now, unfreeze_app,
  freeze_checkpoint_unfreeze,
}

-- The device or file of the services can be opened.
abbrev pub Opens : World → Type 0
Opens w = (log : Log) → eqb_ℤ (w.answer log open_services).ret minus_one ≡ false

module _ (w : World) (opens : Opens w) where
  call_opened :
      (r : Request) (log : Log)
      → call_kerrighed_services w r log
        ≡ (w.answer (open_services ∷ log) (ioctl r), close_services ∷ ioctl r ∷ open_services ∷ log)
  unfolding call_kerrighed_services
  call_opened r log = rw (opens log) refl

  module _ (o : Options) where
    -- The request that unfreezes what `pid` names.
    abbrev pub unfreeze_request : ℤ → ℤ → Request
    unfreeze_request pid signal =
        if o.from_appid
        then app_unfreeze pid 0 signal
        else app_unfreeze (int_of_long pid) app_from_pid signal

    unfreeze_now_lem :
        (pid signal : ℤ) (log : Log)
        → unfreeze_now w o pid signal log ≡ (
          (w.answer (open_services ∷ log) (ioctl (unfreeze_request pid signal))).ret,
          close_services ∷ ioctl (unfreeze_request pid signal) ∷ open_services ∷ log,
        )
    unfolding unfreeze_now application_unfreeze_from_appid application_unfreeze_from_pid
    unfreeze_now_lem pid signal log = elim (Bool-cases o.from_appid) [
      | inl t ↦ rw (t, call_opened (app_unfreeze pid 0 signal) log) refl
      | inr t ↦ rw (t, call_opened (app_unfreeze (int_of_long pid) app_from_pid signal) log) refl
    ]

    -- The last thing asked of the kernel was to unfreeze; or the continue callbacks could not be run.
    pub data Thawed (pid signal : ℤ) (log : Log) : ℤ × Log → Type 0 where
      asked :
          (r : ℤ) (log₁ : Log)
          → Thawed pid signal log
              (r, close_services ∷ ioctl (unfreeze_request pid signal) ∷ open_services ∷ log₁)
      callbacks_failed :
          o.no_callbacks ≡ false
          → truthy (cr_execute_continue_callbacks w pid o.from_appid log).0 ≡ true
          → Thawed pid signal log (cr_execute_continue_callbacks w pid o.from_appid log)

    goes_on : o.action ≡ all → (stop : Bool) → stop && not (is_all o.action) ≡ false
    goes_on h stop = rw h ground arith

    unfreeze_now-Thawed :
        (pid signal : ℤ) (before log : Log)
        → Thawed pid signal before (unfreeze_now w o pid signal log)
    unfreeze_now-Thawed pid signal before log = rw (unfreeze_now_lem pid signal log) (asked _ log)

    unfreeze_app-Thawed :
        o.action ≡ all
        → (pid signal : ℤ) (log : Log) → Thawed pid signal log (unfreeze_app w o pid signal log)
    unfolding unfreeze_app
    unfreeze_app-Thawed h pid signal log =
        rw (goes_on h (w.interrupted log)) elim (Bool-cases o.no_callbacks) [
          | inl none_run ↦ simp none_run (unfreeze_now-Thawed pid signal log log)
          | inr run ↦
              simp run
                elim (Bool-cases
                  (truthy (cr_execute_continue_callbacks w pid o.from_appid log).0)) [
                    | inl failed ↦ rw failed (callbacks_failed run failed)
                    | inr passed ↦ rw passed (
                        unfreeze_now-Thawed pid signal log
                          (cr_execute_continue_callbacks w pid o.from_appid log).1)
                  ]
        ]

    -- How `freeze_checkpoint_unfreeze` can go: from `frozen`, the result of `freeze_app` with the
    -- log after it, by the result of `checkpoint_app`.
    pub data Cycle (pid signal : ℤ) (frozen chk : ℤ × Log) : ℤ × Log → Type 0 where
      not_frozen : truthy frozen.0 ≡ true → Cycle pid signal frozen chk frozen
      given_up :
          (end : ℤ × Log)
          → truthy frozen.0 ≡ false
          → truthy chk.0 ≡ true
          → Thawed pid (pos 0) chk.1 end
          → Cycle pid signal frozen chk (chk.0, end.1)
      finished :
          (end : ℤ × Log)
          → truthy frozen.0 ≡ false
          → truthy chk.0 ≡ false
          → Thawed pid signal chk.1 end
          → Cycle pid signal frozen chk end

    -- `freeze_checkpoint_unfreeze`, as the tool runs it without `-c`, `-f` and `-u` and where the
    -- services can be opened, ends in one of three ways: with the failure of the freeze, having done
    -- nothing more; or, after a freeze, with the failure of the checkpoint, after unfreezing without a
    -- signal; or after unfreezing with the given signal. Unfreezing has made the request as its last,
    -- unless the continue callbacks of the application failed.
    pub freeze_checkpoint_unfreeze-Cycle :
        o.action ≡ all
        → (pid : ℤ) (flags : ℕ) (signal : ℤ) (log : Log)
        → Cycle pid signal
            (freeze_app w o pid log)
            (checkpoint_app w o pid flags (freeze_app w o pid log).1)
            (freeze_checkpoint_unfreeze w o pid flags signal log)
    unfolding freeze_checkpoint_unfreeze
    freeze_checkpoint_unfreeze-Cycle h pid flags signal log =
        let frozen = freeze_app w o pid log in
        let chk = checkpoint_app w o pid flags frozen.1 in
        elim (Bool-cases (truthy frozen.0)) [
          | inl failed ↦ rw failed (not_frozen failed)
          | inr froze ↦ elim (Bool-cases (truthy chk.0)) [
            | inl failed ↦
                rw (froze, failed)
                  (given_up _ froze failed (unfreeze_app-Thawed h pid (pos 0) chk.1))
            | inr done ↦
                rw (froze, done) (finished _ froze done (unfreeze_app-Thawed h pid signal chk.1))
          ]
        ]
