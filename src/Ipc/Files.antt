-- ===== src/Ipc/Files.antt =====
-- The file that tools/ipccheckpoint.c creates, and the requests of the two tools.
use kerrighed_tools.Base.{
  ℕ, ◌≡◌, refl, ap, ◌∙◌, ◌==◌, ◌&&◌, arith, inl, inr, ◌⊎◌, Bool, true, false, List, [], ◌∷◌, ℤ,
  minus_one, eqb_ℤ, if◌then◌else◌, Bool-cases,
}
use kerrighed_tools.Kernel.{
  World, Log, Request, ioctl, create_file, close, unlink, truthy, ipc_msgq_chkpt, ipc_sem_chkpt,
  ipc_shm_chkpt, call_kerrighed_services,
}
use kerrighed_tools.Kernel.Calls.{IsView, call_cases, call-keeps}
use kerrighed_tools.Checkpoint.{ExitStatus, exit_success, exit_failure}
use kerrighed_tools.Ipc.{
  IpcType, undef, msg, sem, shm, is_undef, ipc_msgq_checkpoint, ipc_sem_checkpoint,
  ipc_shm_checkpoint,
}
use kerrighed_tools.Ipc.Checkpointing.{
  Opt, Settings, Parsed, start, exits, parsed, parse_args, checkpoint, checkpoint_to,
  create_and_checkpoint, with_operands, main,
}

-- The checkpoints of IPC objects that a log has asked for, newest first.
abbrev pub requested : Log → List Request
requested [] = []
requested (ioctl (ipc_msgq_chkpt id fd) ∷ log) = ipc_msgq_chkpt id fd ∷ requested log
requested (ioctl (ipc_sem_chkpt id fd) ∷ log) = ipc_sem_chkpt id fd ∷ requested log
requested (ioctl (ipc_shm_chkpt id fd) ∷ log) = ipc_shm_chkpt id fd ∷ requested log
requested (c ∷ log) = requested log

-- The request for a setting.
abbrev request : IpcType → ℤ → ℤ → Request
request sem id fd = ipc_sem_chkpt id fd
request shm id fd = ipc_shm_chkpt id fd
request _ id fd = ipc_msgq_chkpt id fd

abbrev same_path : List ℕ → List ℕ → Bool
same_path [] [] = true
same_path (c ∷ p) (d ∷ q) = c == d && same_path p q
same_path _ _ = false

same_path_refl : (p : List ℕ) → same_path p p ≡ true
same_path_refl [] = refl
same_path_refl (c ∷ p) = let ih = same_path_refl p in ground (arith, ih)

-- Without the first such path.
abbrev remove_path : List ℕ → List (List ℕ) → List (List ℕ)
remove_path path [] = []
remove_path path (p ∷ ps) = if same_path path p then ps else p ∷ remove_path path ps

remove_path-first : (p : List ℕ) (ps : List (List ℕ)) → remove_path p (p ∷ ps) ≡ ps
remove_path-first p ps = rw (same_path_refl p) refl

module _ (w : World) where
  -- The files that the calls have created and not removed, newest first.
  abbrev pub kept : Log → List (List ℕ)
  kept [] = []
  kept (create_file path ∷ log) =
      if eqb_ℤ (w.answer log (create_file path)).ret minus_one then kept log else path ∷ kept log
  kept (unlink path ∷ log) =
      if truthy (w.answer log (unlink path)).ret then kept log else remove_path path (kept log)
  kept (c ∷ log) = kept log

  requested-IsView : IsView requested
  requested-IsView = record { opens = λ l. refl; closes = λ l. refl }

  kept-IsView : IsView kept
  kept-IsView = record { opens = λ l. refl; closes = λ l. refl }

  -- What a request leaves, whether it could be made or not.
  Asked : Request → ℤ × Log → Log → Type 0
  Asked r (result, log') log =
      (kept log' ≡ kept log)
      × (((truthy result ≡ true) × (requested log' ≡ requested log))
          ⊎ (requested log' ≡ r ∷ requested log))

  asks :
      (r : Request) (log : Log)
      → ((l : Log) → kept (ioctl r ∷ l) ≡ kept l)
      → ((l : Log) → requested (ioctl r ∷ l) ≡ r ∷ requested l)
      → let (a, log') = call_kerrighed_services w r log in Asked r (a.ret, log') log
  unfolding Asked
  asks r log keeps adds = (
    call-keeps w kept kept-IsView r log keeps,
    elim (call_cases w requested requested-IsView r log (λ rs. r ∷ rs) adds) [
      | inl e ↦ inl (ap truthy e.0, e.1)
      | inr e ↦ inr e
    ],
  )

  checkpoint_lem :
      (t : IpcType) (id fd : ℤ) (log : Log)
      → is_undef t ≡ false
      → Asked (request t id fd) (checkpoint w t id fd log) log
  unfolding checkpoint ipc_msgq_checkpoint ipc_sem_checkpoint ipc_shm_checkpoint
  checkpoint_lem undef id fd log h = absurd (cc)
  checkpoint_lem msg id fd log h = asks (ipc_msgq_chkpt id fd) log (λ l. refl) (λ l. refl)
  checkpoint_lem sem id fd log h = asks (ipc_sem_chkpt id fd) log (λ l. refl) (λ l. refl)
  checkpoint_lem shm id fd log h = asks (ipc_shm_chkpt id fd) log (λ l. refl) (λ l. refl)

  -- How the tool ends once the options are read, and what it leaves.
  pub data Ran (s : Settings) (operands : List (List ℕ)) (log : Log)
      : ExitStatus → Log → Type 0 where
    succeeded :
        (path : List ℕ) (fd : ℤ) (log' : Log)
        → operands ≡ path ∷ []
        → truthy (checkpoint w s.ipc_type s.ipcid fd (create_file path ∷ log)).0 ≡ false
        → requested log' ≡ request s.ipc_type s.ipcid fd ∷ requested log
        → kept log' ≡ path ∷ kept log
        → Ran s operands log exit_success log'
    failed : (log' : Log) → kept log' ≡ kept log → Ran s operands log exit_failure log'
    not_removed :
        (path : List ℕ) (log₁ : Log)
        → operands ≡ path ∷ []
        → truthy (w.answer log₁ (unlink path)).ret ≡ true
        → kept log₁ ≡ path ∷ kept log
        → Ran s operands log exit_failure (unlink path ∷ log₁)

  -- How the tool ends: as its options say, or with what it does with them.
  pub data Ended (opts : List Opt) (operands : List (List ℕ)) (log : Log)
      : ExitStatus → Log → Type 0 where
    told :
        (status : ExitStatus)
        → parse_args opts start ≡ exits status
        → Ended opts operands log status log
    ran :
        (s : Settings) (status : ExitStatus) (log' : Log)
        → parse_args opts start ≡ parsed s
        → Ran s operands log status log'
        → Ended opts operands log status log'

  -- With the file opened.
  checkpoint_to-Ran :
      (s : Settings) (path : List ℕ) (fd : ℤ) (log : Log)
      → is_undef s.ipc_type ≡ false
      → kept (create_file path ∷ log) ≡ path ∷ kept log
      → let (status, log') = checkpoint_to w s path fd (create_file path ∷ log) in
        Ran s (path ∷ []) log status log'
  unfolding checkpoint_to Asked
  checkpoint_to-Ran s path fd log known created =
      let r = checkpoint w s.ipc_type s.ipcid fd (create_file path ∷ log) in
      let (keeps, asked) = checkpoint_lem s.ipc_type s.ipcid fd (create_file path ∷ log) known in
      elim (Bool-cases (truthy r.0)) [
        | inl t ↦ rw t (elim (Bool-cases (truthy (w.answer (close fd ∷ r.1) (unlink path)).ret)) [
          | inl refused ↦ not_removed path (close fd ∷ r.1) refl refused (keeps ∙ created)
          | inr removed ↦ failed (unlink path ∷ close fd ∷ r.1) (
              rw removed
                (ap (remove_path path) (keeps ∙ created) ∙ remove_path-first path (kept log)))
        ])
        | inr t ↦ rw t (
            succeeded path fd (close fd ∷ r.1) refl t
              (elim asked [ inl e ↦ absurd (cc) | inr e ↦ e ]) (keeps ∙ created))
      ]

  with_operands-Ran :
      (s : Settings) (operands : List (List ℕ)) (log : Log)
      → let (status, log') = with_operands w s operands log in Ran s operands log status log'
  unfolding with_operands create_and_checkpoint
  with_operands-Ran s [] log = failed log refl
  with_operands-Ran s (path ∷ p ∷ ps) log = failed log refl
  with_operands-Ran s (path ∷ []) log = elim (Bool-cases (is_undef s.ipc_type)) [
    | inl t ↦ rw t (failed log refl)
    | inr t ↦ elim (Bool-cases (eqb_ℤ (w.answer log (create_file path)).ret minus_one)) [
      | inl u ↦ rw (t, u) (failed (create_file path ∷ log) (rw u refl))
      | inr u ↦ rw (t, u) (checkpoint_to-Ran s path _ log t (rw u refl))
    ]
  ]

  -- ipccheckpoint ends at once with the status that its options ask for (as for the help); or, with the
  -- settings that they give, in one of three ways. With success: then it has made one request, for the
  -- kind and the number of the settings, that the kernel answered with 0, and has left just the file that
  -- it was told to create. With a failure, and it has left no file. Or with a failure, where the last it
  -- did was to remove the file that it had created, and the removal has failed.
  pub main-Ended :
      (opts : List Opt) (operands : List (List ℕ)) (log : Log)
      → let (status, log') = main w opts operands log in Ended opts operands log status log'
  unfolding main
  main-Ended opts operands log = go (parse_args opts start) refl
    where
      go :
          (p : Parsed)
          → parse_args opts start ≡ p
          → let (status, log') = main w opts operands log in Ended opts operands log status log'
      go (exits status) e = rw (e, main) (told status e)
      go (parsed s) e = rw (e, main) (ran s _ _ e (with_operands-Ran s operands log))
