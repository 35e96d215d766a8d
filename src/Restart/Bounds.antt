-- ===== src/Restart/Bounds.antt =====
-- The array of the substitution of tools/restart.c.
use kerrighed_tools.Base.{
  ℕ, ◌+◌, ◌≡◌, refl, ◌≤◌, ◌<◌, inl, inr, true, false, List, [], ◌∷◌, length, length-append, Option,
  none, some, ℤ, pos, negsuc, eqb_ℤ, minus_one, ltb, arith, Bool-cases,
}
use kerrighed_tools.Kernel.{
  World, M, return, Log, SubstFile, truthy, realloc, fileno, grep_fd_key, grep_root_pid,
}
use kerrighed_tools.Restart.{
  Options, scan_substitution, inc_substitution_array_size, put_file, parse_file_substitution,
  get_returned_word, put_key, replace_fd, replace_all, replace_stdin_stdout_stderr,
}
use kerrighed_tools.Restart.Main.{
  Opt, help, version, foreground, tty, pids, quiet, debug, no_unfreeze, other_opt, substitute_file,
  Parsed, exits, parsed, start, parse_opts,
}

-- The files in use fit into the array, and there is an array just when it has room.
pub record Fits (o : Options) : Type 0 where
  pub room : length o.substitution.files ≤ o.array_size
  pub allocated : o.substitution.allocated ≡ ltb 0 o.array_size

-- The same, with room for one more.
record HasRoom (o : Options) : Type 0 where
  room : length o.substitution.files < o.array_size
  allocated : o.substitution.allocated ≡ ltb 0 o.array_size

module _ (w : World) where
  abbrev Grown : Option Options → Type 0
  Grown none = Unit
  Grown (some p) = HasRoom p

  inc-Grown : (o : Options) (log : Log) → Fits o → Grown (inc_substitution_array_size w o log).0
  unfolding inc_substitution_array_size
  inc-Grown o log f = elim (Bool-cases (ltb o.array_size (length o.substitution.files + 1))) [
    | inr t ↦ rw t (record { room = ground arith; allocated = f.allocated })
    | inl t ↦ rw t (elim (Bool-cases (truthy (w.answer log realloc).ret)) [
      | inl u ↦ rw u (record { room = omega (arith, f.room); allocated = ground arith })
      | inr u ↦ rw u tt
    ])
  ]

  put_file-Fits : (o : Options) (file : SubstFile) → HasRoom o → Fits (put_file w o file)
  put_file-Fits o file h = record {
    room = omega (arith, length-append o.substitution.files (file ∷ []), h.room);
    allocated = h.allocated;
  }

  pub parse_file_substitution-Fits :
      (fileinfo_str : List ℕ) (o : Options) (log : Log)
      → Fits o
      → truthy (parse_file_substitution w fileinfo_str o log).0.0 ≡ false
      → Fits (parse_file_substitution w fileinfo_str o log).0.1
  unfolding parse_file_substitution
  parse_file_substitution-Fits fileinfo_str o log f =
      go (inc_substitution_array_size w o log).0 (inc-Grown o log f)
        (scan_substitution fileinfo_str)
    where
      go :
          (grown : Option Options)
          → Grown grown
          → (scanned : Option SubstFile)
          → let r : ℤ × Options = elim grown [
            | none ↦ (negsuc 11, o)
            | some p ↦ elim scanned [
              | some file ↦ (pos 0, put_file w p file)
              | none ↦ (negsuc 21, p)
            ]
          ] in
            truthy r.0 ≡ false → Fits r.1
      go none h s = λ e. absurd (cc)
      go (some p) h none = λ e. absurd (cc)
      go (some p) h (some file) = λ e. put_file-Fits p file h

  put_key-Fits :
      (fd : ℤ) (fd_key : Option (List ℕ)) (o : Options) (log : Log)
      → Fits o
      → Fits (put_key w fd fd_key o log).0.1
  unfolding put_key
  put_key-Fits fd none o log f = f
  put_key-Fits fd (some []) o log f = f
  put_key-Fits fd (some (c ∷ key)) o log f =
      go (inc_substitution_array_size w o log).0 (inc-Grown o log f)
    where
      go :
          (grown : Option Options)
          → Grown grown
          → Fits (
              (elim grown as (λ _. ℤ × Options) [
                | none ↦ (negsuc 11, o)
                | some p ↦ (pos 0, put_file w p (record { fd = fd; file_id = c ∷ key }))
              ]).1)
      go none h = f
      go (some p) h = put_file-Fits p (record { fd = fd; file_id = c ∷ key }) h

  replace_fd-Fits :
      (appid chkpt_sn : ℤ) (root_pid : List ℕ) (file : ℕ) (o : Options) (log : Log)
      → Fits o
      → Fits (replace_fd w appid chkpt_sn root_pid file o log).0.1
  unfolding replace_fd
  replace_fd-Fits appid chkpt_sn root_pid file o log f =
      elim (Bool-cases (eqb_ℤ (w.answer log (fileno file)).ret minus_one)) [
        | inl t ↦ rw t f
        | inr t ↦
            let key =
              get_returned_word w
                (grep_fd_key appid chkpt_sn root_pid (w.answer log (fileno file)).ret)
                (fileno file ∷ log) in
            rw t (put_key-Fits (w.answer log (fileno file)).ret key.0 o key.1 f)
      ]

  replace_all-Fits :
      (appid chkpt_sn : ℤ) (root_pid : List ℕ) (files : List ℕ) (o : Options) (log : Log)
      → Fits o
      → Fits (replace_all w appid chkpt_sn root_pid files o log).0.1
  unfolding replace_all
  replace_all-Fits appid chkpt_sn root_pid [] o log f = f
  replace_all-Fits appid chkpt_sn root_pid (file ∷ files) o log f =
      let r = replace_fd w appid chkpt_sn root_pid file o log in
      let here = replace_fd-Fits appid chkpt_sn root_pid file o log f in
      elim (Bool-cases (truthy r.0.0)) [
        | inl t ↦ rw t here
        | inr t ↦ rw t (replace_all-Fits appid chkpt_sn root_pid files r.0.1 r.1 here)
      ]

  replace_stdin-Fits :
      (appid chkpt_sn : ℤ) (o : Options) (log : Log)
      → Fits o
      → Fits (replace_stdin_stdout_stderr w appid chkpt_sn o log).0.1
  unfolding replace_stdin_stdout_stderr
  replace_stdin-Fits appid chkpt_sn o log f =
      go (get_returned_word w (grep_root_pid appid chkpt_sn) log)
    where
      go :
          (r : Option (List ℕ) × Log)
          → Fits
              ((elim r.0 as (λ _. M (ℤ × Options)) [
                | none ↦ return (negsuc 21, o)
                | some pid ↦ replace_all w appid chkpt_sn pid (0 ∷ 1 ∷ 2 ∷ []) o
              ])
                r.1).0.1
      go (none, log') = f
      go (some pid, log') = replace_all-Fits appid chkpt_sn pid (0 ∷ 1 ∷ 2 ∷ []) o log' f

  abbrev FitsParsed : Parsed → Type 0
  FitsParsed (exits end) = Unit
  FitsParsed (parsed o) = Fits o

  parse_opts-Fits :
      (os : List Opt) (o : Options) (log : Log) → Fits o → FitsParsed (parse_opts w os o log).0
  unfolding parse_opts
  parse_opts-Fits [] o log f = f
  parse_opts-Fits (help ∷ os) o log f = tt
  parse_opts-Fits (version ∷ os) o log f = tt
  parse_opts-Fits (foreground ∷ os) o log f =
      parse_opts-Fits os (record o { foreground = true; stdin_out_err = true }) log
        (record { room = f.room; allocated = f.allocated })
  parse_opts-Fits (tty ∷ os) o log f =
      parse_opts-Fits os (record o { stdin_out_err = true }) log
        (record { room = f.room; allocated = f.allocated })
  parse_opts-Fits (pids ∷ os) o log f =
      parse_opts-Fits os (record o { flags = 1 }) log
        (record { room = f.room; allocated = f.allocated })
  parse_opts-Fits (quiet ∷ os) o log f = parse_opts-Fits os o log f
  parse_opts-Fits (debug ∷ os) o log f = parse_opts-Fits os o log f
  parse_opts-Fits (no_unfreeze ∷ os) o log f =
      parse_opts-Fits os (record o { no_unfreeze = true }) log
        (record { room = f.room; allocated = f.allocated })
  parse_opts-Fits (other_opt ∷ os) o log f = tt
  parse_opts-Fits (substitute_file optarg ∷ os) o log f =
      let r = parse_file_substitution w optarg o log in
      elim (Bool-cases (truthy r.0.0)) [
        | inl t ↦ rw t tt
        | inr t ↦
            rw t (parse_opts-Fits os r.0.1 r.1 (parse_file_substitution-Fits optarg o log f t))
      ]

  -- The array fits after the loop over the options, if that does not end the tool, and after the files
  -- of the terminal are replaced.
  abbrev pub AllFit : Parsed → Type 0
  AllFit (exits end) = Unit
  AllFit (parsed o) =
      Fits o
      × ((appid chkpt_sn : ℤ) (log : Log)
          → Fits (replace_stdin_stdout_stderr w appid chkpt_sn o log).0.1)

  -- With any options, and whatever `realloc` and the commands answer, the array of the substitution has
  -- room for all files in use, and is not NULL just when its size is not 0: after the loop over
  -- the options, if that does not end the tool, and after the files of the terminal are replaced.
  pub substitution-AllFit : (opts : List Opt) (log : Log) → AllFit (parse_opts w opts start log).0
  substitution-AllFit opts log =
      go (parse_opts w opts start log).0
        (parse_opts-Fits opts start log (record { room = omega arith; allocated = refl }))
    where
      go : (p : Parsed) → FitsParsed p → AllFit p
      go (exits end) f = tt
      go (parsed o) f = (f, λ appid chkpt_sn log'. replace_stdin-Fits appid chkpt_sn o log' f)
