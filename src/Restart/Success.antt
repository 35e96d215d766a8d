-- ===== src/Restart/Success.antt =====
-- What the success of tools/restart.c means: the requests that it has made to the kernel.
use kerrighed_tools.Base.{
  ℕ, ◌≡◌, refl, ap, ◌∙◌, inl, inr, Bool, true, false, List, [], ◌∷◌, ◌++◌, ℤ, pos, ltb_ℤ, minus_one,
  if◌then◌else◌, Bool-cases,
}
use kerrighed_tools.Kernel.Calls.{call_cases}
use kerrighed_tools.Kernel.{
  World, Log, Request, app_restart, app_unfreeze, truthy, number_of, call_kerrighed_services,
  RestartRequest,
}
use kerrighed_tools.Proc.{check_substitution, application_restart, application_unfreeze_from_appid}
use kerrighed_tools.Callbacks.Requests.{cr_execute_restart_callbacks}
use kerrighed_tools.Restart.{Options}
use kerrighed_tools.Restart.Main.{
  exit_success, wait_application_exits, check_environment, unfreeze_and_wait, restart,
}
use kerrighed_tools.Restart.Requests.{
  applied, applied-IsView, IsTaken, check_environment-keeps, callbacks-keeps, waiting-keeps,
  check_substitution_lem,
}

abbrev request : ℤ → ℤ → Options → RestartRequest
request appid chkpt_sn o = record {
  app_id = appid;
  chkpt_sn = chkpt_sn;
  flags = o.flags;
  substitution = o.substitution.files;
}

-- The requests of a restart that went well.
abbrev pub requested : ℤ → ℤ → Options → List Request
requested appid chkpt_sn o =
    if o.no_unfreeze
    then app_restart (request appid chkpt_sn o) ∷ []
    else app_unfreeze appid 0 (pos 0) ∷ app_restart (request appid chkpt_sn o) ∷ []

negative :
    (ret root_pid : ℤ)
    → ret ≡ minus_one
    → ltb_ℤ (if truthy ret then ret else root_pid) (pos 0) ≡ true
negative ret root_pid e = rw e refl

put_unfreeze :
    (frozen : Bool) (restarts thaws : Request) (l l₀ : List Request)
    → l ≡ restarts ∷ l₀
    → (if frozen then l else thaws ∷ l)
      ≡ (if frozen then restarts ∷ [] else thaws ∷ restarts ∷ []) ++ l₀
put_unfreeze true restarts thaws l l₀ e = e
put_unfreeze false restarts thaws l l₀ e = ap (λ m. thaws ∷ m) e

module _ (w : World) where
  -- With a result that is not negative, the restart was asked for, and only once.
  application_restart_lem :
      (appid chkpt_sn : ℤ) (o : Options) (log : Log)
      → let (r, log') = application_restart w appid chkpt_sn o.flags o.substitution log in
        ltb_ℤ r (pos 0) ≡ false
        → IsTaken o.substitution
          × (applied log' ≡ app_restart (request appid chkpt_sn o) ∷ applied log)
  unfolding application_restart
  application_restart_lem appid chkpt_sn o log =
      let c = check_substitution w o.substitution log in
      let (taken, kept) =
        check_substitution_lem w o.substitution.files o.substitution.allocated log in
      elim (Bool-cases c.0) [
        | inr t ↦ rw t (λ h. absurd (cc))
        | inl t ↦ rw t (λ h. (
          taken t,
          elim (call_cases w applied applied-IsView (app_restart (request appid chkpt_sn o)) c.1
              (λ l. app_restart (request appid chkpt_sn o) ∷ l) (λ l. refl)) [
                | inl failed ↦
                    let low =
                      negative
                        (call_kerrighed_services w (app_restart (request appid chkpt_sn o))
                          c.1).0.ret
                        (number_of
                          (call_kerrighed_services w (app_restart (request appid chkpt_sn o))
                            c.1).0.out)
                        failed.0 in
                    absurd (cc)
                | inr made ↦ made ∙ ap (λ l. app_restart (request appid chkpt_sn o) ∷ l) kept
              ],
        ))
      ]

  unfrozen :
      (appid : ℤ) (log : Log)
      → let (r, log') = application_unfreeze_from_appid w appid (pos 0) log in
        truthy r ≡ false → applied log' ≡ app_unfreeze appid 0 (pos 0) ∷ applied log
  unfolding application_unfreeze_from_appid
  unfrozen appid log =
      elim (call_cases w applied applied-IsView (app_unfreeze appid 0 (pos 0)) log
        (λ l. app_unfreeze appid 0 (pos 0) ∷ l) (λ l. refl)) [
          | inr made ↦ λ h. made
          | inl failed ↦ rw (failed.0) (λ h. absurd (cc))
        ]

  then_waits :
      (fuel : ℕ) (o : Options) (log : Log)
      → applied
          ((if o.foreground then wait_application_exits w fuel else (λ l. (exit_success, l))) log).1
        ≡ applied log
  then_waits fuel o log = elim (Bool-cases o.foreground) [
    | inl t ↦ simp t (waiting-keeps w fuel log)
    | inr t ↦ simp t refl
  ]

  unfreeze_and_wait_lem :
      (fuel : ℕ) (appid : ℤ) (o : Options) (log : Log)
      → let (end, log') = unfreeze_and_wait w fuel appid o log in
        end ≡ exit_success
        → applied log'
          ≡ (if o.no_unfreeze then applied log else app_unfreeze appid 0 (pos 0) ∷ applied log)
  unfolding unfreeze_and_wait
  unfreeze_and_wait_lem fuel appid o log = elim (Bool-cases o.no_unfreeze) [
    | inl t ↦ simp t (λ h. then_waits fuel o log)
    | inr t ↦
        simp t (elim (Bool-cases (truthy (application_unfreeze_from_appid w appid (pos 0) log).0)) [
          | inl u ↦ rw u (λ h. absurd (cc))
          | inr u ↦ rw u (λ h.
              then_waits fuel o (application_unfreeze_from_appid w appid (pos 0) log).1
              ∙ unfrozen appid log u)
        ])
  ]

  -- When the tool, from the check of its environment on, ends with success, the keys of the substitution have the length that the
  -- kernel wants, or there is no array, and it has made exactly these requests to restart and to unfreeze: one to restart
  -- the version of the application with the substitution, and then, unless `--no-unfreeze` was given, one to unfreeze it.
  pub restart-success :
      (fuel : ℕ) (appid chkpt_sn : ℤ) (o : Options) (log : Log)
      → (restart w fuel appid chkpt_sn o log).0 ≡ exit_success
      → IsTaken o.substitution
        × (applied (restart w fuel appid chkpt_sn o log).1
            ≡ requested appid chkpt_sn o ++ applied log)
  unfolding restart
  restart-success fuel appid chkpt_sn o log =
      let env = check_environment w log in
      let app = application_restart w appid chkpt_sn o.flags o.substitution env.1 in
      let cb = cr_execute_restart_callbacks w appid app.1 in
      elim (Bool-cases env.0) [
        | inr t ↦ rw t (λ h. absurd (cc))
        | inl t ↦ rw t (elim (Bool-cases (ltb_ℤ app.0 (pos 0))) [
          | inl u ↦ rw u (λ h. absurd (cc))
          | inr u ↦ rw u (elim (Bool-cases (truthy cb.0)) [
            | inl v ↦ rw v (λ h. absurd (cc))
            | inr v ↦ rw v (λ h.
                let (taken, made) = application_restart_lem appid chkpt_sn o env.1 u in
                (
                  taken,
                  unfreeze_and_wait_lem fuel appid o cb.1 h
                      ∙ put_unfreeze o.no_unfreeze (app_restart (request appid chkpt_sn o))
                          (app_unfreeze appid 0 (pos 0)) (applied cb.1) (applied log)
                          (callbacks-keeps w appid app.1
                            ∙ made
                            ∙ ap (λ l. app_restart (request appid chkpt_sn o) ∷ l)
                                (check_environment-keeps w log)),
                ))
          ])
        ])
      ]
