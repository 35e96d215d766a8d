-- ===== src/Krginit/Reaping.antt =====
-- The loop of tools/krginit.c that never ends.
use kerrighed_tools.Base.{
  ℕ, zero, suc, ◌+◌, ◌≡◌, refl, sym, ap, ◌∙◌, inl, inr, Bool, true, false, List, [], ◌∷◌, minus_one,
  eqb_ℤ, arith, if◌then◌else◌, Bool-cases,
}
use kerrighed_tools.Kernel.{World, Log, hotplug_ready, setsid, wait, sleep}
use kerrighed_tools.Kernel.Calls.{IsView, call-keeps}
use kerrighed_tools.Hotplug.Services.{node_ready}
use kerrighed_tools.Krginit.{
  Opt, session, get_config, reaps, no_child, reap, run, tell_ready, with_session, main,
}

-- The calls of `wait`, and those of `sleep`.
abbrev pub waits : Log → ℕ
waits [] = 0
waits (wait ∷ log) = suc (waits log)
waits (c ∷ log) = waits log

abbrev pub sleeps : Log → ℕ
sleeps [] = 0
sleeps (sleep ∷ log) = suc (sleeps log)
sleeps (c ∷ log) = sleeps log

module _ (w : World) where
  -- The calls of `wait` that found no child.
  abbrev pub childless : Log → ℕ
  childless [] = 0
  childless (wait ∷ log) =
      if no_child (w.answer log wait) then suc (childless log) else childless log
  childless (c ∷ log) = childless log

  -- From one log to a later one: so many rounds, with a sleep for each that found no child.
  pub record Reaped (rounds : ℕ) (log log' : Log) : Type 0 where
    pub waited : waits log' ≡ rounds + waits log
    pub slept : sleeps log' + childless log ≡ childless log' + sleeps log

  waits-IsView : IsView waits
  waits-IsView = record { opens = λ l. refl; closes = λ l. refl }

  sleeps-IsView : IsView sleeps
  sleeps-IsView = record { opens = λ l. refl; closes = λ l. refl }

  childless-IsView : IsView childless
  childless-IsView = record { opens = λ l. refl; closes = λ l. refl }

  slept_round :
      (log log' : Log)
      → no_child (w.answer log wait) ≡ true
      → sleeps log' + childless (sleep ∷ wait ∷ log) ≡ childless log' + sleeps (sleep ∷ wait ∷ log)
      → sleeps log' + childless log ≡ childless log' + sleeps log
  slept_round log log' none h =
      let idle : childless (sleep ∷ wait ∷ log) ≡ suc (childless log) = rw none refl in
      omega (arith, idle)

  busy_round :
      (log log' : Log)
      → no_child (w.answer log wait) ≡ false
      → sleeps log' + childless (wait ∷ log) ≡ childless log' + sleeps (wait ∷ log)
      → sleeps log' + childless log ≡ childless log' + sleeps log
  busy_round log log' one h =
      let busy : childless (wait ∷ log) ≡ childless log = rw one refl in omega (arith, busy)

  reap-Reaped :
      (rounds : ℕ) (log : Log)
      → ((reap w rounds log).0 ≡ reaps) × Reaped rounds log (reap w rounds log).1
  unfolding reap
  reap-Reaped zero log = (refl, record { waited = omega arith; slept = omega arith })
  reap-Reaped (suc rounds) log = elim (Bool-cases (no_child (w.answer log wait))) [
    | inl t ↦
        let (e, r) = reap-Reaped rounds (sleep ∷ wait ∷ log) in
        let later = (reap w rounds (sleep ∷ wait ∷ log)).1 in
        rw t (
          e,
          record {
            waited = let h = r.waited in omega (arith, h);
            slept = slept_round log later t r.slept;
          },
        )
    | inr t ↦
        let (e, r) = reap-Reaped rounds (wait ∷ log) in
        let later = (reap w rounds (wait ∷ log)).1 in
        rw t (
          e,
          record {
            waited = let h = r.waited in omega (arith, h);
            slept = busy_round log later t r.slept;
          },
        )
  ]

  tell_ready-Reaped :
      (rounds : ℕ) (log log₁ : Log)
      → waits log₁ ≡ waits log
      → sleeps log₁ ≡ sleeps log
      → childless log₁ ≡ childless log
      → ((tell_ready w rounds [] log₁).0 ≡ reaps)
        × Reaped rounds log (tell_ready w rounds [] log₁).1
  unfolding tell_ready run node_ready
  tell_ready-Reaped rounds log log₁ h₁ h₂ h₃ =
      let log₂ = (node_ready w true log₁).1 in
      let (e, r) = reap-Reaped rounds log₂ in
      let k₁ = call-keeps w waits waits-IsView (hotplug_ready false) log₁ (λ l. refl) ∙ h₁ in
      let k₂ = call-keeps w sleeps sleeps-IsView (hotplug_ready false) log₁ (λ l. refl) ∙ h₂ in
      let k₃ =
        call-keeps w childless childless-IsView (hotplug_ready false) log₁ (λ l. refl) ∙ h₃ in
      (
        e,
        record {
          waited = r.waited ∙ ap (λ n. rounds + n) k₁;
          slept =
              ap (λ n. sleeps (reap w rounds log₂).1 + n) (sym k₃)
              ∙ r.slept
              ∙ ap (λ n. childless (reap w rounds log₂).1 + n) k₂;
        },
      )

  -- Without an init program on the command line, once its options are read and, with -s, its session is
  -- created, krginit never ends: after any number of rounds it still reaps, has waited that many times
  -- for a child, and has slept once for each time that there was none.
  pub main-Reaped :
      (rounds : ℕ) (opts : List Opt) (create_session : Bool) (log : Log)
      → get_config opts false ≡ session create_session
      → (create_session ≡ true → eqb_ℤ (w.answer log setsid).ret minus_one ≡ false)
      → ((main w rounds opts [] log).0 ≡ reaps) × Reaped rounds log (main w rounds opts [] log).1
  unfolding main with_session
  main-Reaped rounds opts true log h created =
      rw (h, created refl, main) (tell_ready-Reaped rounds log (setsid ∷ log) refl refl refl)
  main-Reaped rounds opts false log h created =
      rw (h, main) (tell_ready-Reaped rounds log log refl refl refl)
