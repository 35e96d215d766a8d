-- ===== src/KrgcrRun/Capability.antt =====
-- The order in which tools/krgcr-run.c gives the capability, forks and executes the program.
use mathlib.Core.Path.{subst, subst⁻¹}
use kerrighed_tools.Base.{
  ℕ, ◌≡◌, refl, sym, ap, ◌∙◌, ◌⊎◌, inl, inr, Bool, true, false, List, ◌∷◌, minus_one, eqb_ℤ, ltb,
  if◌then◌else◌, Bool-cases, ◌<◌, ◌==◌, arith,
}
use kerrighed_tools.Base.Bits.{bit, shl, bit-word_or, bit-shl, bit_bound}
use kerrighed_tools.Kernel.{World, Log, Caps, return, set_cap, get_cap, truthy, pipe}
use kerrighed_tools.Kernel.Calls.{call_cases, call-keeps}
use kerrighed_tools.Capabilities.{capget, capset}
use kerrighed_tools.Krgcapset.Main.{caps_of}
use kerrighed_tools.Checkpoint.{exit_failure}
use kerrighed_tools.KrgcrRun.{
  Opt, Settings, start, parsed, parse_args, End, exit, checkpointable,
  give_checkpointable_capability, fork, open_pipe, launch, main,
}
use kerrighed_tools.KrgcrRun.Forking.{Event, gave, forked, events, events-IsView, Ran, fork-Ran}

-- `c` with the one capability among those that a new program inherits as effective.
pub record WithCheckpointable (c given : Caps) : Type 0 where
  pub effective_same : given.effective ≡ c.effective
  pub permitted_same : given.permitted ≡ c.permitted
  pub inheritable_same : given.inheritable_permitted ≡ c.inheritable_permitted
  pub bits :
      (i : ℕ)
      → i < 32
      → bit i given.inheritable_effective ≡ (if 4 == i then 1 else bit i c.inheritable_effective)

checkpointable-With : (c : Caps) → WithCheckpointable c (checkpointable c)
unfolding checkpointable
checkpointable-With c = record {
  effective_same = refl;
  permitted_same = refl;
  inheritable_same = refl;
  bits = λ i h.
      rw (bit-word_or 32 i c.inheritable_effective (shl 4) h, bit-shl i 4)
        (ground (arith, bit_bound i c.inheritable_effective));
}

abbrev no_caps : Caps
no_caps = record {
  effective = 0;
  permitted = 0;
  inheritable_permitted = 0;
  inheritable_effective = 0;
}

module _ (w : World) where
  -- The events before the fork, with the capabilities that were set, unless -n is given.
  abbrev granted : Settings → Caps → Log → List Event
  granted s given log = if s.setcap then gave given ∷ events log else events log

  -- The kernel has reported capabilities, and `given` are these with the capability to be checkpointed.
  abbrev pub Reported : Log → Caps → Type 0
  Reported log given =
      (truthy (capget w log).0.ret ≡ false)
      × WithCheckpointable (caps_of (capget w log).0.out) given

  -- The request to set them has succeeded.
  abbrev pub IsGranted : Log → Caps → Type 0
  IsGranted log given = truthy (capset w given (capget w log).1).0 ≡ false

  -- How the tool ends from its options on: before the fork, or in one of the two processes.
  pub data Launched (s : Settings) (program : List (List ℕ)) (log : Log)
      : End → List Event → Type 0 where
    gave_up : Launched s program log (exit exit_failure) (events log)
    not_forked :
        (given : Caps)
        → (s.setcap ≡ true → Reported log given)
        → Launched s program log (exit exit_failure) (granted s given log)
    launched :
        (given : Caps) (e : End) (es : List Event)
        → (s.setcap ≡ true → Reported log given × IsGranted log given)
        → Ran program (forked ∷ granted s given log) e es
        → Launched s program log e es

  fork-Launched :
      (s : Settings) (program : List (List ℕ)) (given : Caps) (log log₁ : Log)
      → events log₁ ≡ granted s given log
      → (s.setcap ≡ true → Reported log given × IsGranted log given)
      → let (e, log') = fork w s program log₁ in Launched s program log e (events log')
  fork-Launched s program given log log₁ h good =
      let (e, log') = fork w s program log₁ in
      launched given e (events log') good
        (subst (λ es. Ran program (forked ∷ es) e (events log')) h (fork-Ran w s program log₁))

  not_forked_after :
      (s : Settings) (program : List (List ℕ)) (given : Caps) (log : Log) (es : List Event)
      → es ≡ granted s given log
      → (s.setcap ≡ true → Reported log given)
      → Launched s program log (exit exit_failure) es
  not_forked_after s program given log es h good =
      subst⁻¹ (Launched s program log (exit exit_failure)) h (not_forked given good)

  open_pipe-Launched :
      (s : Settings) (program : List (List ℕ)) (given : Caps) (log log₁ : Log)
      → events log₁ ≡ granted s given log
      → (s.setcap ≡ true → Reported log given × IsGranted log given)
      → let (e, log') = open_pipe w s program log₁ in Launched s program log e (events log')
  unfolding open_pipe
  open_pipe-Launched s program given log log₁ h good = elim (Bool-cases s.sync_w_pipe) [
    | inr t ↦ simp t (fork-Launched s program given log log₁ h good)
    | inl t ↦ elim (Bool-cases (eqb_ℤ (w.answer log₁ pipe).ret minus_one)) [
      | inl u ↦ simp (t, u) (not_forked_after s program given log (events log₁) h (λ t. (good t).0))
      | inr u ↦ simp (t, u) (fork-Launched s program given log (pipe ∷ log₁) h good)
    ]
  ]

  -- The two requests of the capability.
  get-events : (log : Log) → events (capget w log).1 ≡ events log
  unfolding capget
  get-events log = call-keeps w events events-IsView get_cap log (λ l. refl)

  set-events :
      (c : Caps) (log : Log)
      → let (r, log') = capset w c log in
        ((truthy r ≡ true) × (events log' ≡ events log)) ⊎ (events log' ≡ gave c ∷ events log)
  unfolding capset
  set-events c log =
      elim (call_cases w events events-IsView (set_cap c) log (λ es. gave c ∷ es) (λ l. refl)) [
        | inl e ↦ inl (ap truthy e.0, e.1)
        | inr e ↦ inr e
      ]

  -- With the capability set, or its request refused.
  capable-Launched :
      (s : Settings) (program : List (List ℕ)) (log : Log)
      → s.setcap ≡ true
      → truthy (capget w log).0.ret ≡ false
      → let c = checkpointable (caps_of (capget w log).0.out) in
        let r = capset w c (capget w log).1 in
        let (e, log') =
          (if (if truthy r.0 then false else true)
              then open_pipe w s program
              else return (exit exit_failure))
            r.1 in
        Launched s program log e (events log')
  capable-Launched s program log on got =
      let c = checkpointable (caps_of (capget w log).0.out) in
      let r = capset w c (capget w log).1 in
      let before : events (capget w log).1 ≡ events log = get-events log in
      elim (set-events c (capget w log).1) [
        | inl refused ↦
            rw refused.0
              (subst⁻¹ (Launched s program log (exit exit_failure)) (refused.1 ∙ before) gave_up)
        | inr given ↦
            let reported : Reported log c =
              (got, checkpointable-With (caps_of (capget w log).0.out)) in
            let all : events r.1 ≡ granted s c log =
              given
              ∙ ap (λ es. gave c ∷ es) before
              ∙ ap (λ (b : Bool). if b then gave c ∷ events log else events log) (sym on) in
            elim (Bool-cases (truthy r.0)) [
              | inl t ↦ rw t (not_forked_after s program c log (events r.1) all (λ u. reported))
              | inr t ↦ rw t (open_pipe-Launched s program c log r.1 all (λ u. (reported, t)))
            ]
      ]

  launch-Launched :
      (s : Settings) (program : List (List ℕ)) (log : Log)
      → let (e, log') = launch w s program log in Launched s program log e (events log')
  unfolding launch give_checkpointable_capability
  launch-Launched s program log = elim (Bool-cases s.setcap) [
    | inr t ↦ simp t (open_pipe-Launched s program no_caps log log (simp t refl) (λ u. absurd (cc)))
    | inl t ↦ elim (Bool-cases (truthy (capget w log).0.ret)) [
      | inl u ↦
          simp (t, u)
            (subst⁻¹ (Launched s program log (exit exit_failure)) (get-events log) gave_up)
      | inr u ↦ simp (t, u) (capable-Launched s program log t u)
    ]
  ]

  -- Once its options are read as `s`, krgcr-run ends in one of these ways: with a failure and without a
  -- fork; or in a process after the one fork, and then, unless -n was given, the kernel has before
  -- reported the capabilities with success, and has set with success those with the one bit for the
  -- capability to be checkpointed. The program is executed at most once, after the fork, and then this is
  -- the last that happens. No other capabilities are asked for on any of these ways.
  pub main-Launched :
      (argc : ℕ) (opts : List Opt) (program : List (List ℕ)) (s : Settings) (log : Log)
      → parse_args opts start ≡ parsed s
      → let (e, log') = main w argc opts program log in Launched s program log e (events log')
  unfolding main
  main-Launched argc opts program s log h = elim (Bool-cases (ltb argc 2)) [
    | inl t ↦ rw t gave_up
    | inr t ↦ rw (t, h, main) (launch-Launched s program log)
  ]
