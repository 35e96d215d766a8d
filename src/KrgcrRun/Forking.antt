-- ===== src/KrgcrRun/Forking.antt =====
-- What the two processes of tools/krgcr-run.c do after the fork.
use kerrighed_tools.Base.{
  ℕ, refl, inl, inr, List, [], ◌∷◌, ℤ, pos, minus_one, eqb_ℤ, ltb_ℤ, Bool-cases,
}
use kerrighed_tools.Kernel.{
  World, Log, Caps, ioctl, set_cap, vfork, execvp, truthy, setsid, fopen_path, close_read_end,
  print_sid,
}
use kerrighed_tools.Kernel.Calls.{IsView}
use kerrighed_tools.Checkpoint.{ExitStatus, exit_success, exit_failure}
use kerrighed_tools.KrgcrRun.{
  Settings, End, exit, became, is_path, wait_for_child, parent, execute, write_session,
  enter_session, child, fork,
}

-- What matters of the calls made.
pub data Event : Type 0 where
  gave : Caps → Event
  forked : Event
  executed : List (List ℕ) → Event

-- Newest first.
abbrev pub events : Log → List Event
events [] = []
events (ioctl (set_cap c) ∷ log) = gave c ∷ events log
events (vfork ∷ log) = forked ∷ events log
events (execvp program ∷ log) = executed program ∷ events log
events (c ∷ log) = events log

pub events-IsView : IsView events
events-IsView = record { opens = λ l. refl; closes = λ l. refl }

-- What a process does from the fork on, with the events before it.
pub data Ran (program : List (List ℕ)) (es : List Event) : End → List Event → Type 0 where
  left : (status : ExitStatus) → Ran program es (exit status) es
  runs : Ran program es (became program) (executed program ∷ es)
  failed : Ran program es (exit exit_failure) (executed program ∷ es)

module _ (w : World) where
  execute-Ran :
      (program : List (List ℕ)) (log : Log)
      → let (e, log') = execute w program log in Ran program (events log) e (events log')
  unfolding execute
  execute-Ran program log =
      elim (Bool-cases (eqb_ℤ (w.answer log (execvp program)).ret minus_one)) [
        | inl t ↦ rw t failed
        | inr t ↦ rw t runs
      ]

  write_session-Ran :
      (sid : ℤ) (filepath : List ℕ) (program : List (List ℕ)) (log : Log)
      → let (e, log') = write_session w sid filepath program log in
        Ran program (events log) e (events log')
  unfolding write_session
  write_session-Ran sid filepath program log = elim (Bool-cases (is_path filepath)) [
    | inl t ↦ elim (Bool-cases (truthy (w.answer log (fopen_path filepath)).ret)) [
      | inl u ↦ rw (t, u) (execute-Ran program (print_sid sid ∷ fopen_path filepath ∷ log))
      | inr u ↦ rw (t, u) (left exit_failure)
    ]
    | inr t ↦ rw t (execute-Ran program log)
  ]

  enter_session-Ran :
      (s : Settings) (program : List (List ℕ)) (log : Log)
      → let (e, log') = enter_session w s program log in Ran program (events log) e (events log')
  unfolding enter_session
  enter_session-Ran s program log =
      let sid = (w.answer log setsid).ret in
      elim (Bool-cases (ltb_ℤ sid (pos 0))) [
        | inl t ↦ rw t (left exit_failure)
        | inr t ↦ rw t (write_session-Ran sid s.filepath program (setsid ∷ log))
      ]

  child-Ran :
      (s : Settings) (program : List (List ℕ)) (log : Log)
      → let (e, log') = child w s program log in Ran program (events log) e (events log')
  unfolding child
  child-Ran s program log = elim (Bool-cases s.sync_w_pipe) [
    | inl t ↦ simp t (enter_session-Ran s program (close_read_end ∷ log))
    | inr t ↦ simp t (enter_session-Ran s program log)
  ]

  parent-Ran :
      (s : Settings) (program : List (List ℕ)) (log : Log)
      → let (e, log') = parent w s log in Ran program (events log) e (events log')
  unfolding parent wait_for_child
  parent-Ran s program log = elim (Bool-cases s.background) [
    | inr t ↦ rw t (left _)
    | inl t ↦ elim (Bool-cases s.sync_w_pipe) [
      | inl u ↦ rw (t, u) (left exit_success)
      | inr u ↦ rw (t, u) (left exit_success)
    ]
  ]

  pub fork-Ran :
      (s : Settings) (program : List (List ℕ)) (log : Log)
      → let (e, log') = fork w s program log in Ran program (forked ∷ events log) e (events log')
  unfolding fork
  fork-Ran s program log =
      let pid = (w.answer log vfork).ret in
      elim (Bool-cases (eqb_ℤ pid minus_one)) [
        | inl t ↦ rw t (left exit_failure)
        | inr t ↦ elim (Bool-cases (eqb_ℤ pid (pos 0))) [
          | inl u ↦ rw (t, u) (child-Ran s program (vfork ∷ log))
          | inr u ↦ rw (t, u) (parent-Ran s program (vfork ∷ log))
        ]
      ]
