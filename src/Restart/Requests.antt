-- ===== src/Restart/Requests.antt =====
-- The requests that the parts of tools/restart.c make to the kernel.
use kerrighed_tools.Base.{
  ℕ, zero, suc, ◌≡◌, refl, inl, inr, Bool, true, false, List, [], ◌∷◌, ℤ, pos, negsuc, eqb_ℤ,
  minus_one, int_of_long, length, ◌==◌, ==_iff, if◌then◌else◌, arith, Bool-cases,
}
use kerrighed_tools.Kernel.Calls.{IsView, call-keeps}
use kerrighed_tools.Kernel.{
  World, Log, Request, app_restart, app_unfreeze, app_get_userdata, get_node_id, ioctl, fcntl_getfl,
  wait, sigaction, truthy, call_kerrighed_services, SubstFile,
}
use kerrighed_tools.Proc.{
  SubstFilesArray, subst_str_len, app_from_pid, check_files, check_substitution,
  application_get_userdata_from_pid,
}
use kerrighed_tools.Callbacks.Requests.{cr_detect_callbacks, cr_execute_restart_callbacks}
use kerrighed_tools.Hotplug.Services.{check_hotplug}
use kerrighed_tools.Restart.Main.{wait_loop, wait_application_exits, check_environment}

-- The requests to restart and to unfreeze that a log has made, newest first.
abbrev pub applied : Log → List Request
applied [] = []
applied (ioctl (app_restart r) ∷ log) = app_restart r ∷ applied log
applied (ioctl (app_unfreeze a f s) ∷ log) = app_unfreeze a f s ∷ applied log
applied (c ∷ log) = applied log

-- The keys have the length that the kernel wants.
abbrev pub AllKeys : List SubstFile → Type 0
AllKeys [] = Unit
AllKeys (f ∷ files) = (length f.file_id ≡ subst_str_len) × AllKeys files

-- A substitution that the kernel takes: keys of the right length, or no array at all.
abbrev pub IsTaken : SubstFilesArray → Type 0
IsTaken s = AllKeys s.files × ((s.files ≡ []) → s.allocated ≡ false)

pub applied-IsView : IsView applied
applied-IsView = record { opens = λ l. refl; closes = λ l. refl }

module _ (w : World) where
  pub check_environment-keeps : (log : Log) → applied (check_environment w log).1 ≡ applied log
  unfolding check_environment check_hotplug
  check_environment-keeps log =
      let r = call_kerrighed_services w get_node_id log in
      elim (Bool-cases (truthy (if eqb_ℤ r.0.ret (pos 0) then pos 0 else minus_one))) [
        | inl t ↦ rw t (call-keeps w applied applied-IsView get_node_id log (λ l. refl))
        | inr t ↦ rw t (call-keeps w applied applied-IsView get_node_id log (λ l. refl))
      ]

  check_files-keeps :
      (files : List SubstFile) (log : Log) → applied (check_files w files log).1 ≡ applied log
  unfolding check_files
  check_files-keeps [] log = refl
  check_files-keeps (f ∷ files) log = elim (Bool-cases (length f.file_id == subst_str_len)) [
    | inr t ↦ rw t refl
    | inl t ↦ rw t (elim (Bool-cases (eqb_ℤ (w.answer log (fcntl_getfl f.fd)).ret minus_one)) [
      | inl u ↦ rw u refl
      | inr u ↦ rw u (check_files-keeps files (fcntl_getfl f.fd ∷ log))
    ])
  ]

  check_files-AllKeys :
      (files : List SubstFile) (log : Log) → (check_files w files log).0 ≡ true → AllKeys files
  unfolding check_files
  check_files-AllKeys [] log = λ h. tt
  check_files-AllKeys (f ∷ files) log = elim (Bool-cases (length f.file_id == subst_str_len)) [
    | inr t ↦ rw t (λ h. absurd (cc))
    | inl t ↦ rw t (elim (Bool-cases (eqb_ℤ (w.answer log (fcntl_getfl f.fd)).ret minus_one)) [
      | inl u ↦ rw u (λ h. absurd (cc))
      | inr u ↦ rw u (λ h. ((==_iff _ _).0 t, check_files-AllKeys files (fcntl_getfl f.fd ∷ log) h))
    ])
  ]

  pub callbacks-keeps :
      (pid : ℤ) (log : Log) → applied (cr_execute_restart_callbacks w pid log).1 ≡ applied log
  unfolding cr_execute_restart_callbacks cr_detect_callbacks application_get_userdata_from_pid
  callbacks-keeps pid log =
      let kept =
        call-keeps w applied applied-IsView (app_get_userdata (int_of_long pid) app_from_pid) log
          (λ l. refl) in
      elim (Bool-cases (truthy (cr_detect_callbacks w pid false log).0)) [
        | inl t ↦ rw t kept
        | inr t ↦ rw t kept
      ]

  wait_loop-keeps : (fuel : ℕ) (log : Log) → applied (wait_loop w fuel log).1 ≡ applied log
  unfolding wait_loop
  wait_loop-keeps zero log = refl
  wait_loop-keeps (suc fuel) log = elim (Bool-cases (eqb_ℤ (w.answer log wait).ret (negsuc 3))) [
    | inl t ↦ rw t (wait_loop-keeps fuel (wait ∷ log))
    | inr t ↦ rw t refl
  ]

  pub waiting-keeps :
      (fuel : ℕ) (log : Log) → applied (wait_application_exits w fuel log).1 ≡ applied log
  unfolding wait_application_exits
  waiting-keeps fuel log = wait_loop-keeps fuel (sigaction 15 ∷ sigaction 2 ∷ log)

  pub check_substitution_lem :
      (files : List SubstFile) (allocated : Bool) (log : Log)
      → let s : SubstFilesArray = record { files = files; allocated = allocated } in
        ((check_substitution w s log).0 ≡ true → IsTaken s)
        × (applied (check_substitution w s log).1 ≡ applied log)
  unfolding check_substitution
  check_substitution_lem [] allocated log = (λ h. (tt, λ e. ground arith), refl)
  check_substitution_lem (f ∷ files) allocated log = (
    λ h. (check_files-AllKeys (f ∷ files) log h, λ e. absurd (cc)),
    check_files-keeps (f ∷ files) log,
  )
