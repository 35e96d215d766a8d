-- ===== src/Exclusion/Children.antt =====
-- The children that libs/libkrgcheckpoint/libkrgcheckpoint.c knows of, through forks and exits.
use kerrighed_tools.Base.{
  ◌≡◌, refl, ◌≤◌, List, [], ◌∷◌, ℤ, eqb_ℤ, length, arith, Bool-cases, inl, inr,
}
use kerrighed_tools.Kernel.{World, M, Log, truthy, malloc, sigaction, pthread_atfork}
use kerrighed_tools.Callbacks.{
  Ended, aborted, ended, callback_init, register_chkpt_callback, register_restart_callback,
}
use kerrighed_tools.Exclusion.{
  cr_mm_exclusion_checkpoint_cb, cr_mm_exclusion_restart_cb, second_callback, init_hooks,
  after_register, State, link_child, remove_child, cr_mm_exclusion_init, add_child, handle_sigchild,
  remove_all_children,
}

length-link_child :
    (pid : ℤ) (children : List ℤ) → length children ≤ 1 → length (link_child pid children) ≤ 1
unfolding link_child
length-link_child pid [] h = omega arith
length-link_child pid (first ∷ next) h = h

length-remove_child :
    (pid : ℤ) (children : List ℤ) → length (remove_child pid children) ≤ length children
unfolding remove_child
length-remove_child pid [] = omega arith
length-remove_child pid (child ∷ next) =
    let ih = length-remove_child pid next in
    elim (Bool-cases (eqb_ℤ child pid)) [
      | inl t ↦ rw t (omega arith)
      | inr t ↦ rw t (omega (arith, ih))
    ]

-- What can happen to the list in a process: a fork in it, the end of a child, a fork that it is the
-- child of; with the calls made before and after.
pub data Step (w : World) : State → Log → State → Log → Type 0 where
  forked :
      (pid : ℤ) (s : State) (log : Log)
      → Step w s log (add_child w pid s log).0 (add_child w pid s log).1
  child_ended : (pid : ℤ) (s : State) (log : Log) → Step w s log (handle_sigchild w pid s) log
  is_child : (s : State) (log : Log) → Step w s log (remove_all_children w s) log

pub data Run (w : World) (s : State) (log : Log) : State → Log → Type 0 where
  start : Run w s log s log
  then_step :
      (s₁ : State) (log₁ : Log) (s₂ : State) (log₂ : Log)
      → Run w s log s₁ log₁
      → Step w s₁ log₁ s₂ log₂
      → Run w s log s₂ log₂

module _ (w : World) where
  -- A program that leaves the list of the children alone.
  abbrev Keeps : (State → M (ℤ × State)) → Type 0
  Keeps k = (s : State) (log : Log) → (k s log).0.1.first_child ≡ s.first_child

  init_hooks-Keeps : Keeps (init_hooks w)
  unfolding init_hooks
  init_hooks-Keeps s log = elim (Bool-cases (truthy (w.answer log (sigaction 17)).ret)) [
    | inl failed ↦ rw failed refl
    | inr handled ↦
        rw handled elim (Bool-cases (truthy (w.answer (sigaction 17 ∷ log) pthread_atfork).ret)) [
          | inl failed ↦ rw failed refl
          | inr hooked ↦ rw hooked refl
        ]
  ]

  after_register-Keeps :
      (k : State → M (ℤ × State)) → Keeps k → (a : Ended) → Keeps (λ s. after_register w s a k)
  unfolding after_register
  after_register-Keeps k h aborted s log = refl
  after_register-Keeps k h (ended r callbacks) s log = elim (Bool-cases (truthy r)) [
    | inl failed ↦ rw failed refl
    | inr registered ↦ rw registered (h (record s { callbacks = callbacks }) log)
  ]

  second_callback-Keeps : Keeps (second_callback w)
  unfolding second_callback
  second_callback-Keeps s log =
      let b = register_restart_callback w cr_mm_exclusion_restart_cb 0 s.callbacks log in
      after_register-Keeps (init_hooks w) init_hooks-Keeps b.0 s b.1

  cr_mm_exclusion_init-Keeps : Keeps (cr_mm_exclusion_init w)
  unfolding cr_mm_exclusion_init
  cr_mm_exclusion_init-Keeps s log =
      let started = callback_init w s.callbacks log in
      let a = register_chkpt_callback w cr_mm_exclusion_checkpoint_cb 0 started.0.1 started.1 in
      elim (Bool-cases s.initialized) [
        | inl known ↦ simp known refl
        | inr unknown ↦ simp unknown elim (Bool-cases (truthy started.0.0)) [
          | inl failed ↦ rw failed refl
          | inr ran ↦
              rw ran (after_register-Keeps (second_callback w) second_callback-Keeps a.0 s a.1)
        ]
      ]

  add_child-length :
      (pid : ℤ) (s : State) (log : Log)
      → length s.first_child ≤ 1
      → length (add_child w pid s log).0.first_child ≤ 1
  unfolding add_child
  add_child-length pid s log h =
      let started = cr_mm_exclusion_init w s log in
      let kept = cr_mm_exclusion_init-Keeps s log in
      elim (Bool-cases (truthy started.0.0)) [
        | inl failed ↦ rw (failed, kept) h
        | inr ran ↦ rw ran elim (Bool-cases (truthy (w.answer started.1 malloc).ret)) [
          | inl got ↦ rw (got, kept) (length-link_child pid s.first_child h)
          | inr no_memory ↦ rw (no_memory, kept) h
        ]
      ]

  Step-length :
      (s : State) (log : Log) (s' : State) (log' : Log)
      → Step w s log s' log'
      → length s.first_child ≤ 1
      → length s'.first_child ≤ 1
  unfolding handle_sigchild remove_all_children
  Step-length s log s' log' (forked pid _ _) h = add_child-length pid s log h
  Step-length s log s' log' (child_ended pid _ _) h =
      omega (arith, length-remove_child pid s.first_child)
  Step-length s log s' log' (is_child _ _) h = omega arith

  -- However a process forks and its children end, from a start without children its list never has
  -- more than one child.
  pub Run-length :
      (s : State) (log : Log) (s' : State) (log' : Log)
      → s.first_child ≡ []
      → Run w s log s' log'
      → length s'.first_child ≤ 1
  Run-length s log s' log' none start = rw none (omega arith)
  Run-length s log s' log' none (then_step s₁ log₁ _ _ run step) =
      Step-length s₁ log₁ s' log' step (Run-length s log s₁ log₁ none run)
