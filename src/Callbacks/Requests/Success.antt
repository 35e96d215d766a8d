-- ===== src/Callbacks/Requests/Success.antt =====
-- What a success of `cr_execute_chkpt_callbacks` (libs/libkrgcb/libkrgcb.c) means.
use mathlib.Core.Path.{subst⁻¹}
use kerrighed_tools.Proc.{application_get_userdata_from_appid, application_get_userdata_from_pid}
use kerrighed_tools.Base.{
  ℕ, ◌%◌, ◌==◌, if◌then◌else◌, ◌≡◌, refl, sym, ap, ◌∙◌, ◌⊎◌, inl, inr, Bool, true, false, ℤ, pos,
  ltb_ℤ, eqb_ℤ, int_of_long, ◌∷◌, Bool-cases, arith,
}
use kerrighed_tools.Kernel.{World, M, Log, truthy, number_of, kill, msgget, msgrcv, msgctl_rmid}
use kerrighed_tools.Callbacks.Running.{err}
use kerrighed_tools.Callbacks.Requests.{
  cr_detect_callbacks, ask_checkpoint, cr_execute_chkpt_callbacks,
}

module _ (w : World) where
  -- The last calls of a request that was answered: the signal, the answer, which was received and is
  -- not the error message, and the removal of the queue, all of which succeed.
  pub data Answered (pid : ℤ) : Log → Type 0 where
    answered :
        (msqid : ℤ) (log : Log)
        → truthy (w.answer log (kill (int_of_long pid) 37)).ret ≡ false
        → eqb_ℤ
            (number_of (w.answer (kill (int_of_long pid) 37 ∷ log) (msgrcv msqid)).out)
            (pos err)
          ≡ false
        → ltb_ℤ (w.answer (kill (int_of_long pid) 37 ∷ log) (msgrcv msqid)).ret (pos 0) ≡ false
        → truthy (w.answer (msgrcv msqid ∷ kill (int_of_long pid) 37 ∷ log) (msgctl_rmid msqid)).ret
          ≡ false
        → Answered pid (msgctl_rmid msqid ∷ msgrcv msqid ∷ kill (int_of_long pid) 37 ∷ log)

  ask_checkpoint-Answered :
      (pid msqid : ℤ) (log : Log)
      → truthy (ask_checkpoint w pid msqid log).0 ≡ false
      → Answered pid (ask_checkpoint w pid msqid log).1
  unfolding ask_checkpoint
  ask_checkpoint-Answered pid msqid log h =
      let signalled = w.answer log (kill (int_of_long pid) 37) in
      let log₁ = kill (int_of_long pid) 37 ∷ log in
      let received = w.answer log₁ (msgrcv msqid) in
      let removed = w.answer (msgrcv msqid ∷ log₁) (msgctl_rmid msqid) in
      elim (Bool-cases (truthy signalled.ret)) [
        | inl failed ↦ absurd (ground arith)
        | inr sent ↦ elim (Bool-cases (ltb_ℤ received.ret (pos 0))) [
          | inl failed ↦ absurd (ground arith)
          | inr got ↦ elim (Bool-cases (truthy removed.ret)) [
            | inl failed ↦ absurd (ground arith)
            | inr gone ↦ elim (Bool-cases (eqb_ℤ (number_of received.out) (pos err))) [
              | inl error ↦ absurd (ground arith)
              | inr fine ↦ rw (sent, got) (answered msqid log sent fine got gone)
            ]
          ]
        ]
      ]

  -- The answer to the question for the user data, with the user data.
  abbrev pub user_data : ℤ → Bool → M (ℤ × ℕ)
  user_data pid from_appid =
      if from_appid
      then application_get_userdata_from_appid w pid 0
      else application_get_userdata_from_pid w (int_of_long pid) 0

  -- How a request for the callbacks ends with 0.
  pub data Success (pid : ℤ) (from_appid : Bool) (log : Log) : Log → Type 0 where
    not_told :
        truthy (user_data pid from_appid log).0.0 ≡ true
        → Success pid from_appid log (user_data pid from_appid log).1
    none_declared :
        truthy (user_data pid from_appid log).0.0 ≡ false
        → (user_data pid from_appid log).0.1 % 2 ≡ 0
        → Success pid from_appid log (user_data pid from_appid log).1
    declared :
        (log' : Log)
        → truthy (user_data pid from_appid log).0.0 ≡ false
        → (user_data pid from_appid log).0.1 % 2 ≡ 1
        → Answered pid log'
        → Success pid from_appid log log'

  -- What `cr_detect_callbacks` makes of the answer.
  detect-cases :
      (pid : ℤ) (from_appid : Bool) (log : Log)
      → ((cr_detect_callbacks w pid from_appid log).1 ≡ (user_data pid from_appid log).1)
        × (((truthy (user_data pid from_appid log).0.0 ≡ true)
              × (truthy (cr_detect_callbacks w pid from_appid log).0 ≡ true))
            ⊎ ((truthy (user_data pid from_appid log).0.0 ≡ false)
                × (truthy (cr_detect_callbacks w pid from_appid log).0
                    ≡ ((user_data pid from_appid log).0.1 % 2 == 0))))
  unfolding cr_detect_callbacks
  detect-cases pid from_appid log = elim (Bool-cases (truthy (user_data pid from_appid log).0.0)) [
    | inl t ↦ (refl, inl (t, rw (t, t) refl))
    | inr t ↦ elim (Bool-cases ((user_data pid from_appid log).0.1 % 2 == 0)) [
      | inl u ↦ (refl, inr (t, rw (t, u) refl))
      | inr u ↦ (refl, inr (t, rw (t, u) refl))
    ]
  ]

  undeclared :
      (pid : ℤ) (from_appid : Bool) (log : Log)
      → truthy (cr_detect_callbacks w pid from_appid log).0 ≡ true
      → (cr_execute_chkpt_callbacks w pid from_appid log).1
        ≡ (cr_detect_callbacks w pid from_appid log).1
  unfolding cr_execute_chkpt_callbacks
  undeclared pid from_appid log t = rw t refl

  declared-Answered :
      (pid : ℤ) (from_appid : Bool) (log : Log)
      → truthy (cr_detect_callbacks w pid from_appid log).0 ≡ false
      → truthy (cr_execute_chkpt_callbacks w pid from_appid log).0 ≡ false
      → Answered pid (cr_execute_chkpt_callbacks w pid from_appid log).1
  unfolding cr_execute_chkpt_callbacks ask_checkpoint
  declared-Answered pid from_appid log is_declared h =
      let absent = cr_detect_callbacks w pid from_appid log in
      let msqid = w.answer absent.1 (msgget (int_of_long pid)) in
      elim (Bool-cases (ltb_ℤ msqid.ret (pos 0))) [
        | inl failed ↦ absurd (ground arith)
        | inr got ↦
            let asked : cr_execute_chkpt_callbacks w pid from_appid log
                ≡ ask_checkpoint w pid msqid.ret (msgget (int_of_long pid) ∷ absent.1) =
              rw (is_declared, got) refl in
            rw asked (
              ask_checkpoint-Answered pid msqid.ret (msgget (int_of_long pid) ∷ absent.1)
                (sym (ap (λ r. truthy r.0) asked) ∙ h))
      ]

  -- When `cr_execute_chkpt_callbacks` returns 0, the question for the user data of the application has
  -- failed; or it has declared no callbacks, and nothing more was done; or it has, and then it was sent the
  -- signal, a message other than CR_CB_ERR was received, and the queue was removed, each of these calls
  -- with success.
  pub cr_execute_chkpt_callbacks-Answered :
      (pid : ℤ) (from_appid : Bool) (log : Log)
      → truthy (cr_execute_chkpt_callbacks w pid from_appid log).0 ≡ false
      → Success pid from_appid log (cr_execute_chkpt_callbacks w pid from_appid log).1
  cr_execute_chkpt_callbacks-Answered pid from_appid log h =
      let (same_log, told) = detect-cases pid from_appid log in
      let absent = cr_detect_callbacks w pid from_appid log in
      elim told [
        | inl (t, u) ↦
            subst⁻¹ (Success pid from_appid log) (undeclared pid from_appid log u ∙ same_log)
              (not_told t)
        | inr (t, u) ↦ elim (Bool-cases (truthy absent.0)) [
          | inl v ↦
              subst⁻¹ (Success pid from_appid log) (undeclared pid from_appid log v ∙ same_log)
                (none_declared t (ground arith))
          | inr v ↦
              declared (cr_execute_chkpt_callbacks w pid from_appid log).1 t (ground arith)
                (declared-Answered pid from_appid log v h)
        ]
      ]
