-- ===== src/Krgcapset/Safety.antt =====
-- tools/krgcapset.c: when the tool changes capabilities, and to what.
use kerrighed_tools.Base.{
  ℕ, zero, suc, ◌⊎◌, ◌≡◌, refl, ap, ◌∙◌, inl, inr, Bool, true, false, not, ◌&&◌, ◌||◌, List, [],
  ◌∷◌, ℤ, pos, negsuc, eqb_ℤ, minus_one, arith, Bool-cases,
}
use kerrighed_tools.Kernel.Calls.{IsView, call_cases, call-keeps}
use kerrighed_tools.Kernel.{
  World, Log, Caps, Request, set_father_cap, set_pid_cap, get_father_cap, get_pid_cap,
  get_supported_cap, ioctl, truthy, call_kerrighed_services,
}
use kerrighed_tools.Capabilities.{
  father_capset, father_capget, pid_capset, pid_capget, cap_get_supported,
}
use kerrighed_tools.Krgcapset.Main.{
  Opt, Flags, Pass, exits, usage_exits, passed, start, first_pass, second_pass, changed_cap,
  confirmed, loses, caps_of, get_caps_for_pid, set_caps_for_pid, usage, change, run, main,
}

-- The requests to set capabilities that a log has made, newest first, each with the process.
abbrev pub settings : Log → List (ℤ × Caps)
settings [] = []
settings (ioctl (set_father_cap c) ∷ log) = (minus_one, c) ∷ settings log
settings (ioctl (set_pid_cap pid c) ∷ log) = (pid, c) ∷ settings log
settings (c ∷ log) = settings log

settings-IsView : IsView settings
settings-IsView = record { opens = λ l. refl; closes = λ l. refl }

module _ (w : World) where
  -- How they may have grown: not at all, or by one, as the text of the theorem below says.
  pub data Changed (opts : List Opt) (input : List ℕ) (log log' : Log) : Type 0 where
    kept : settings log' ≡ settings log → Changed opts input log log'
    set_once :
        (f : Flags) (old : Caps) (log₁ : Log)
        → first_pass opts start ≡ passed f
        → f.set ≡ true
        → f.show ≡ false
        → (get_caps_for_pid w f.pid log₁).0.ret ≡ pos 0
        → old ≡ caps_of (get_caps_for_pid w f.pid log₁).0.out
        → (f.force || not (loses (second_pass opts old)) || confirmed input) ≡ true
        → settings log' ≡ (f.pid, second_pass opts old) ∷ settings log
        → Changed opts input log log'

  supported-keeps : (log : Log) → settings (cap_get_supported w log).1 ≡ settings log
  unfolding cap_get_supported
  supported-keeps log = call-keeps w settings settings-IsView get_supported_cap log (λ l. refl)

  get_caps-keeps : (pid : ℤ) (log : Log) → settings (get_caps_for_pid w pid log).1 ≡ settings log
  unfolding get_caps_for_pid father_capget pid_capget
  get_caps-keeps pid log = elim (Bool-cases (eqb_ℤ pid minus_one)) [
    | inl t ↦ rw t (call-keeps w settings settings-IsView get_father_cap log (λ l. refl))
    | inr t ↦ rw t (call-keeps w settings settings-IsView (get_pid_cap pid) log (λ l. refl))
  ]

  eqb_ℤ-minus_one : (a : ℤ) → eqb_ℤ a minus_one ≡ true → a ≡ minus_one
  eqb_ℤ-minus_one a h = ground arith

  call-sets :
      (r : Request) (pid : ℤ) (c : Caps) (log : Log)
      → ((l : Log) → settings (ioctl r ∷ l) ≡ (pid, c) ∷ settings l)
      → let log' = (call_kerrighed_services w r log).1 in
        (settings log' ≡ settings log) ⊎ (settings log' ≡ (pid, c) ∷ settings log)
  call-sets r pid c log h =
      elim (call_cases w settings settings-IsView r log (λ cs. (pid, c) ∷ cs) h) [
        | inl e ↦ inl e.1
        | inr e ↦ inr e
      ]

  set_caps-sets :
      (pid : ℤ) (c : Caps) (log : Log)
      → let log' = (set_caps_for_pid w pid c log).1 in
        (settings log' ≡ settings log) ⊎ (settings log' ≡ (pid, c) ∷ settings log)
  unfolding set_caps_for_pid father_capset pid_capset
  set_caps-sets pid c log = elim (Bool-cases (eqb_ℤ pid minus_one)) [
    | inl t ↦
        let e = eqb_ℤ-minus_one pid t in
        rw (t, e) (call-sets (set_father_cap c) minus_one c log (λ l. refl))
    | inr t ↦ rw t (call-sets (set_pid_cap pid c) pid c log (λ l. refl))
  ]

  -- `change` sets what it is given, unless it needs an answer that does not come.
  change-sets :
      (f : Flags) (input : List ℕ) (c : Caps) (log : Log)
      → let log' = (change w f input c log).1 in
        (settings log' ≡ settings log)
        ⊎ (((f.force || not (loses c) || confirmed input) ≡ true)
            × (settings log' ≡ (f.pid, c) ∷ settings log))
  unfolding change
  change-sets f input c log = elim (Bool-cases (not f.force && loses c && not (confirmed input))) [
    | inl t ↦ rw t (inl refl)
    | inr t ↦ rw t (elim (set_caps-sets f.pid c log) [
      | inl same ↦ inl same
      | inr set ↦ inr (ground arith, set)
    ])
  ]

  truthy-false : (r : ℤ) → truthy r ≡ false → r ≡ pos 0
  truthy-false (pos zero) h = refl
  truthy-false (pos (suc n)) h = absurd (cc)
  truthy-false (negsuc n) h = absurd (cc)

  run-Changed :
      (opts : List Opt) (input : List ℕ) (f : Flags) (log : Log)
      → first_pass opts start ≡ passed f
      → (f.show && f.set) ≡ false
      → Changed opts input log (run w opts f input log).1
  unfolding run
  run-Changed opts input f log e excl =
      let log₁ = (cap_get_supported w log).1 in
      let same = supported-keeps log in
      let got = get_caps_for_pid w f.pid log₁ in
      let same₂ = get_caps-keeps f.pid log₁ ∙ same in
      elim (Bool-cases (truthy (cap_get_supported w log).0.ret)) [
        | inl t ↦ rw t (kept same)
        | inr t ↦ rw t (elim (Bool-cases (truthy got.0.ret)) [
          | inl u ↦ rw u (kept same₂)
          | inr u ↦ rw u (elim (Bool-cases (f.set && changed_cap opts)) [
            | inr nothing ↦ rw nothing (kept same₂)
            | inl some_set ↦
                rw some_set
                  (elim (change-sets f input (second_pass opts (caps_of got.0.out)) got.1) [
                    | inl same₃ ↦ kept (same₃ ∙ same₂)
                    | inr set ↦
                        set_once f (caps_of got.0.out) log₁ e (ground arith) (ground arith)
                          (truthy-false _ u) refl set.0
                          (set.1
                            ∙ ap (λ l. (f.pid, second_pass opts (caps_of got.0.out)) ∷ l) same₂)
                  ])
          ])
        ])
      ]

  -- The tool asks the kernel at most once to set capabilities, and then only after the first pass over the options
  -- found one that sets and no `--show`, for the process that they name, to what the options make of the
  -- capabilities that the kernel has reported for it without an error; and when the process would lose
  -- the capability to change its capabilities, only with `--force` or when the first answer is 'y' or 'Y'.
  pub main-Changed :
      (opts : List Opt) (extra : Bool) (input : List ℕ) (log : Log)
      → Changed opts input log (main w opts extra input log).1
  unfolding main usage
  main-Changed opts extra input log = go (first_pass opts start) refl
    where
      go :
          (p : Pass)
          → first_pass opts start ≡ p
          → Changed opts input log (main w opts extra input log).1
      go (exits code) e = rw (e, main) (kept refl)
      go (usage_exits code) e = rw (e, main) (kept (supported-keeps log))
      go (passed f) e =
          rw (e, main)
            (elim (Bool-cases (extra || f.show && f.set)) [
              | inl t ↦ rw t (kept (supported-keeps log))
              | inr t ↦ rw t (run-Changed opts input f log e (ground arith))
            ])
