-- ===== src/Checkpoint/Cleaning.antt =====
-- What `clean_checkpoint_dir` of tools/checkpoint.c removes.
use Prim.Native.String.{String}
use kerrighed_tools.Base.{
  ◌≡◌, refl, ◌⊎◌, inl, inr, Bool, true, false, List, [], ◌∷◌, if◌then◌else◌, Bool-cases, ap, ◌∙◌,
}
use kerrighed_tools.Kernel.{
  World, Log, truthy, CheckpointInfo, ChkptFile, chkpt_dir, app_dir, version_dir, dir_entry,
  opendir, remove_file,
}
use kerrighed_tools.Checkpoint.{
  entries_of, remove_entries, clean_version_dir, refresh, clean_checkpoint_dir,
}

-- The files that the calls of a log remove, or try to, newest first.
abbrev pub removed : Log → List ChkptFile
removed [] = []
removed (remove_file f ∷ log) = f ∷ removed log
removed (c ∷ log) = removed log

-- The regular files of a listing, put in front of a list one by one.
abbrev pub regular : CheckpointInfo → List (String × Bool) → List ChkptFile → List ChkptFile
regular info [] fs = fs
regular info ((d_name, is_reg) ∷ es) fs =
    regular info es (if is_reg then dir_entry info.app_id info.chkpt_sn d_name ∷ fs else fs)

module _ (w : World) (info : CheckpointInfo) where
  removed-remove_entries :
      (es : List (String × Bool)) (log : Log)
      → removed (remove_entries w info es log).1 ≡ regular info es (removed log)
  unfolding remove_entries
  removed-remove_entries [] log = refl
  removed-remove_entries ((d_name, true) ∷ es) log =
      removed-remove_entries es (remove_file (dir_entry info.app_id info.chkpt_sn d_name) ∷ log)
  removed-remove_entries ((d_name, false) ∷ es) log = removed-remove_entries es log

  removed-refresh : (path : ChkptFile) (log : Log) → removed (refresh w path log).1 ≡ removed log
  unfolding refresh
  removed-refresh path log = elim (Bool-cases (truthy (w.answer log (opendir path)).ret)) [
    | inl opened ↦ rw opened refl
    | inr shut ↦ rw shut refl
  ]

  -- What is gone after the version's directory was opened.
  abbrev pub whole_version : List (String × Bool) → List ChkptFile → List ChkptFile
  whole_version es fs =
      app_dir info.app_id ∷ version_dir info.app_id info.chkpt_sn ∷ regular info es fs

  removed-clean_version_dir :
      (log : Log)
      → (removed (clean_version_dir w info log).1 ≡ removed log)
        ⊎ (removed (clean_version_dir w info log).1
            ≡ whole_version
                (entries_of (w.answer log (opendir (version_dir info.app_id info.chkpt_sn))).out)
                (removed log))
  unfolding clean_version_dir
  removed-clean_version_dir log =
      let dir = w.answer log (opendir (version_dir info.app_id info.chkpt_sn)) in
      elim (Bool-cases (truthy dir.ret)) [
        | inl opened ↦ inr (
            rw opened (
              ap (λ fs. app_dir info.app_id ∷ version_dir info.app_id info.chkpt_sn ∷ fs)
                (removed-remove_entries (entries_of dir.out)
                  (opendir (version_dir info.app_id info.chkpt_sn) ∷ log))))
        | inr shut ↦ inl (rw shut refl)
      ]

  -- `clean_checkpoint_dir` removes nothing when the checkpoint has version 0 or a directory cannot
  -- be opened; else the regular files that the version's directory lists, then that directory,
  -- then the application's, and no other file.
  pub removed-clean_checkpoint_dir :
      (log : Log)
      → (removed (clean_checkpoint_dir w info log).1 ≡ removed log)
        ⊎ ((truthy info.chkpt_sn ≡ true)
            × (log' : Log) × (removed (clean_checkpoint_dir w info log).1
                ≡ whole_version
                    (entries_of
                      (w.answer log' (opendir (version_dir info.app_id info.chkpt_sn))).out)
                    (removed log)))
  unfolding clean_checkpoint_dir
  removed-clean_checkpoint_dir log =
      let top = refresh w chkpt_dir log in
      let mine = refresh w (app_dir info.app_id) top.1 in
      let before : removed mine.1 ≡ removed log =
        removed-refresh (app_dir info.app_id) top.1 ∙ removed-refresh chkpt_dir log in
      elim (Bool-cases (truthy info.chkpt_sn)) [
        | inr no_version ↦ inl (rw no_version refl)
        | inl versioned ↦ elim (Bool-cases top.0) [
          | inr shut ↦ inl (rw (versioned, shut) (removed-refresh chkpt_dir log))
          | inl opened ↦ elim (Bool-cases mine.0) [
            | inr shut ↦ inl (rw (versioned, opened, shut) before)
            | inl opened_too ↦ elim (removed-clean_version_dir mine.1) [
              | inl nothing ↦ inl (rw (versioned, opened, opened_too) (nothing ∙ before))
              | inr cleaned ↦ inr (
                versioned,
                mine.1,
                rw (versioned, opened, opened_too)
                    (cleaned
                      ∙ ap
                          (whole_version (
                            entries_of
                              (w.answer mine.1
                                (opendir (version_dir info.app_id info.chkpt_sn))).out))
                          before),
              )
            ]
          ]
        ]
      ]
