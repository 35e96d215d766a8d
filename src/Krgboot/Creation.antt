-- ===== src/Krgboot/Creation.antt =====
-- The order in which tools-host/krgboot.c checks, creates the cluster and runs the helper.
use mathlib.Core.Path.{subst, subst⁻¹}
use kerrighed_tools.Base.{
  ℕ, ◌≡◌, refl, ap, ◌∙◌, inl, inr, ◌⊎◌, Bool, true, false, List, [], ◌∷◌, minus_one, eqb_ℤ, ◌==◌,
  Bool-cases,
}
use kerrighed_tools.Kernel.{
  World, Log, ioctl, hotplug_set_creator, get_node_id, execvp, clone, truthy,
}
use kerrighed_tools.Kernel.Calls.{IsView, call_cases, call-keeps}
use kerrighed_tools.Hotplug.Services.{check_hotplug, check_container, set_cluster_creator}
use kerrighed_tools.Checkpoint.{ExitStatus, exit_failure}
use kerrighed_tools.Krgboot.{
  Opt, flags, get_config, End, exit, became, do_exec_helper, do_clone_helper, run_helper, create,
  check_and_create, with_helper, main,
}

-- What matters of the calls made: the requests on the creation of a cluster, and the helper run in the
-- process or in a new one.
pub data Event : Type 0 where
  creator : Bool → Event
  executed cloned : List (List ℕ) → Event

-- Newest first.
abbrev pub events : Log → List Event
events [] = []
events (ioctl (hotplug_set_creator enable) ∷ log) = creator enable ∷ events log
events (execvp argv ∷ log) = executed argv ∷ events log
events (clone f argv ∷ log) = cloned argv ∷ events log
events (c ∷ log) = events log

events-IsView : IsView events
events-IsView = record { opens = λ l. refl; closes = λ l. refl }

-- How the helper is run, with the events before.
pub data Helped (f : ℕ) (argv : List (List ℕ)) (es : List Event) : End → List Event → Type 0 where
  in_process : (f == 0) ≡ true → Helped f argv es (became argv) (executed argv ∷ es)
  not_executed : (f == 0) ≡ true → Helped f argv es (exit exit_failure) (executed argv ∷ es)
  in_namespaces :
      (status : ExitStatus) → (f == 0) ≡ false → Helped f argv es (exit status) (cloned argv ∷ es)

module _ (w : World) where
  run_helper-Helped :
      (f : ℕ) (argv : List (List ℕ)) (log : Log)
      → let (e, log') = run_helper w f argv log in Helped f argv (events log) e (events log')
  unfolding run_helper do_exec_helper do_clone_helper
  run_helper-Helped f argv log = elim (Bool-cases (f == 0)) [
    | inr t ↦ rw t (in_namespaces _ t)
    | inl t ↦ elim (Bool-cases (eqb_ℤ (w.answer log (execvp argv)).ret minus_one)) [
      | inl u ↦ rw (t, u) (not_executed t)
      | inr u ↦ rw (t, u) (in_process t)
    ]
  ]

  -- The calls made once both checks are done.
  abbrev pub checked : Log → Log
  checked log = (check_container w (check_hotplug w log).1).1

  -- Why nothing was asked for: no helper is given, a check has succeeded, or the request could not be
  -- made.
  abbrev pub Refusal : List (List ℕ) → Log → Type 0
  Refusal argv log =
      (argv ≡ [])
      ⊎ ((truthy (check_hotplug w log).0 ≡ false)
          ⊎ ((truthy (check_container w (check_hotplug w log).1).0 ≡ false)
              ⊎ (truthy (set_cluster_creator w true (checked log)).0 ≡ true)))

  -- How the tool ends once its options are read.
  pub data Booted (f : ℕ) (argv : List (List ℕ)) (log : Log) : End → List Event → Type 0 where
    refused : Refusal argv log → Booted f argv log (exit exit_failure) (events log)
    denied :
        truthy (check_hotplug w log).0 ≡ true
        → truthy (check_container w (check_hotplug w log).1).0 ≡ true
        → truthy (set_cluster_creator w true (checked log)).0 ≡ true
        → Booted f argv log (exit exit_failure) (creator true ∷ events log)
    booted :
        (e : End) (es : List Event)
        → truthy (check_hotplug w log).0 ≡ true
        → truthy (check_container w (check_hotplug w log).1).0 ≡ true
        → truthy (set_cluster_creator w true (checked log)).0 ≡ false
        → Helped f argv (creator true ∷ events log) e es
        → Booted f argv log e es

  -- The two checks see nothing of this.
  checks-events : (log : Log) → events (checked log) ≡ events log
  unfolding check_container check_hotplug
  checks-events log = call-keeps w events events-IsView get_node_id log (λ l. refl)

  check-events : (log : Log) → events (check_hotplug w log).1 ≡ events log
  unfolding check_hotplug
  check-events log = call-keeps w events events-IsView get_node_id log (λ l. refl)

  set-events :
      (log : Log)
      → let (r, log') = set_cluster_creator w true log in
        ((truthy r ≡ true) × (events log' ≡ events log)) ⊎ (events log' ≡ creator true ∷ events log)
  unfolding set_cluster_creator
  set-events log =
      elim (call_cases w events events-IsView (hotplug_set_creator true) log
        (λ es. creator true ∷ es) (λ l. refl)) [ inl e ↦ inl (ap truthy e.0, e.1) | inr e ↦ inr e ]

  create-Booted :
      (f : ℕ) (argv : List (List ℕ)) (log : Log)
      → truthy (check_hotplug w log).0 ≡ true
      → truthy (check_container w (check_hotplug w log).1).0 ≡ true
      → let (e, log') = create w f argv (checked log) in Booted f argv log e (events log')
  unfolding create
  create-Booted f argv log outside fresh =
      let r = set_cluster_creator w true (checked log) in
      let before = checks-events log in
      elim (set-events (checked log)) [
        | inl e ↦ rw e.0 (
            subst⁻¹ (Booted f argv log (exit exit_failure)) (e.1 ∙ before)
              (refused (inr (inr (inr e.0)))))
        | inr e ↦
            let all : events r.1 ≡ creator true ∷ events log =
              e ∙ ap (λ es. creator true ∷ es) before in
            elim (Bool-cases (truthy r.0)) [
              | inl t ↦
                  rw t
                    (subst⁻¹ (Booted f argv log (exit exit_failure)) all (denied outside fresh t))
              | inr t ↦
                  let (end, log') = run_helper w f argv r.1 in
                  rw t (
                    booted end (events log') outside fresh t (
                      subst (λ es. Helped f argv es end (events log')) all
                        (run_helper-Helped f argv r.1)))
            ]
      ]

  check_and_create-Booted :
      (f : ℕ) (argv : List (List ℕ)) (log : Log)
      → let (e, log') = check_and_create w f argv log in Booted f argv log e (events log')
  unfolding check_and_create
  check_and_create-Booted f argv log = elim (Bool-cases (truthy (check_hotplug w log).0)) [
    | inr t ↦
        rw t (
          subst⁻¹ (Booted f argv log (exit exit_failure)) (check-events log)
            (refused (inr (inl t))))
    | inl t ↦
        let running = check_container w (check_hotplug w log).1 in
        elim (Bool-cases (truthy running.0)) [
          | inr u ↦
              rw (t, u)
                (subst⁻¹ (Booted f argv log (exit exit_failure)) (checks-events log)
                  (refused (inr (inr (inl u)))))
          | inl u ↦ rw (t, u) (create-Booted f argv log t u)
        ]
  ]

  with_helper-Booted :
      (f : ℕ) (argv : List (List ℕ)) (log : Log)
      → let (e, log') = with_helper w f argv log in Booted f argv log e (events log')
  unfolding with_helper
  with_helper-Booted f [] log = refused (inl refl)
  with_helper-Booted f (helper ∷ args) log = check_and_create-Booted f (helper ∷ args) log

  -- Once its options are read, krgboot asks at most once for the creation of a cluster, and only after both
  -- checks (that of the Kerrighed services, and that of the container) have failed. It runs the helper at
  -- most once, in its own process just when no namespace was asked for, and only after the request was
  -- granted. Where it does not run the helper, it ends with a failure, and then no helper is given, or a
  -- check has succeeded, or the request was not granted.
  pub main-Booted :
      (opts : List Opt) (argv : List (List ℕ)) (f : ℕ) (log : Log)
      → get_config opts 0 ≡ flags f
      → let (e, log') = main w opts argv log in Booted f argv log e (events log')
  unfolding main
  main-Booted opts argv f log h = rw (h, main) (with_helper-Booted f argv log)
