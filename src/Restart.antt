-- ===== src/Restart.antt =====
-- tools/restart.c: the substitution of files, the options, and the restart of an application. What
-- is printed is left out, and with it the quiet and debug flags.
pub mod Main
pub mod Requests
pub mod Success
pub mod Bounds
use kerrighed_tools.Base.{
  ℕ, zero, suc, ◌+◌, ◌-◌, Bool, true, false, not, ◌&&◌, ◌||◌, List, [], ◌∷◌, ◌++◌, Option, none,
  some, ℤ, pos, negsuc, minus_one, ltb_ℤ, eqb_ℤ, int_of_long, length, ltb, leb, ◌==◌, if◌then◌else◌,
}
use kerrighed_tools.Text.{is_digit, strtol, atol}
use kerrighed_tools.Kernel.{
  World, M, ◌>>=◌, ◌>>◌, return, sys, alloc, truthy, bytes_of, number_of, SubstFile, Command,
  grep_fd_key, grep_root_pid, popen, pclose, realloc, wait, fileno, sigaction, kill, stat_chkpt_dir,
}
use kerrighed_tools.Proc.{SubstFilesArray, application_restart, application_unfreeze_from_appid}
use kerrighed_tools.Callbacks.Requests.{cr_execute_restart_callbacks}
use kerrighed_tools.Hotplug.Services.{check_hotplug}

-- The errors of errno that the tool returns, negated.
abbrev enoent : ℤ
enoent = negsuc 1

abbrev ebadf : ℤ
ebadf = negsuc 8

abbrev enomem : ℤ
enomem = negsuc 11

abbrev einval : ℤ
einval = negsuc 21

abbrev pub array_size_inc : ℕ
array_size_inc = 32

-- The globals `options`, `flags`, `substitution` and `array_size`.
pub record Options : Type 0 where
  pub foreground : Bool
  pub stdin_out_err : Bool
  pub no_unfreeze : Bool
  pub flags : ℕ
  pub substitution : SubstFilesArray
  pub array_size : ℕ

-- `strsep(&buff, " \r\n")` on what a command writes: the bytes before a separator or a NUL.
unfoldable pub first_word : List ℕ → List ℕ
first_word [] = []
first_word (c ∷ s) =
    let rest = first_word s in if c == 0 || c == 32 || c == 13 || c == 10 then [] else c ∷ rest

-- [0-9A-F]
abbrev pub is_hex : ℕ → Bool
is_hex c = is_digit c || leb b'A' c && leb c b'F'

unfoldable pub scan_hex : List ℕ → List ℕ × List ℕ
scan_hex [] = ([], [])
scan_hex (c ∷ s) = let (key, rest) = scan_hex s in if is_hex c then (c ∷ key, rest) else ([], c ∷ s)

-- After the key: "," and a number.
after_key : List ℕ → List ℕ → Option SubstFile
after_key [] rest = none
after_key (c ∷ key) [] = none
after_key (c ∷ key) (x ∷ rest) =
    if x == b','
    then (elim (strtol rest) [
      | some (fd, behind) ↦ some (record { fd = int_of_long fd; file_id = c ∷ key })
      | none ↦ none
    ])
    else none

-- sscanf(fileinfo_str, "%a[0-9A-F],%d", ...), when it returns 2.
unfoldable pub scan_substitution : List ℕ → Option SubstFile
unfolding scan_hex after_key
scan_substitution fileinfo_str = let (key, rest) = scan_hex fileinfo_str in after_key key rest

module _ (w : World) where
  -- Room for one more file; `none` is -ENOMEM. The new entry is in use once it is written.
  unfoldable pub inc_substitution_array_size : Options → M (Option Options)
  inc_substitution_array_size o =
      if ltb o.array_size (length o.substitution.files + 1)
      then (do
        files ← sys w realloc
        return (
            if truthy files.ret
            then some (record o {
              substitution = record { files = o.substitution.files; allocated = true };
              array_size = o.array_size + array_size_inc;
            })
            else none))
      else return (some o)

  -- `substitution.files[i] = file`
  abbrev pub put_file : Options → SubstFile → Options
  put_file o file = record o {
    substitution = record {
      files = o.substitution.files ++ (file ∷ []);
      allocated = o.substitution.allocated;
    };
  }

  -- The result, 0 or an error; after an error the tool exits.
  unfoldable pub parse_file_substitution : List ℕ → Options → M (ℤ × Options)
  parse_file_substitution fileinfo_str o = do
    grown ← inc_substitution_array_size o
    return (elim grown [
      | none ↦ (enomem, o)
      | some p ↦ elim (scan_substitution fileinfo_str) [
        | some file ↦ (pos 0, put_file p file)
        | none ↦ (einval, p)
      ]
    ])

  -- The commands write their line with its end, so that the buffer has a separator.
  unfoldable pub get_returned_word : Command → M (Option (List ℕ))
  get_returned_word cmd = do
    pipe ← sys w (popen cmd)
    if truthy pipe.ret
        then (do
          buff ← alloc w
          closed ← sys w pclose
          return (elim buff [ none ↦ none | some block ↦ some (first_word (bytes_of pipe.out)) ]))
        else return none

  -- From the key on.
  unfoldable pub put_key : ℤ → Option (List ℕ) → Options → M (ℤ × Options)
  put_key fd none o = return (enoent, o)
  put_key fd (some []) o = return (enoent, o)
  put_key fd (some (c ∷ key)) o = do
    grown ← inc_substitution_array_size o
    return (elim grown [
      | none ↦ (enomem, o)
      | some p ↦ (pos 0, put_file p (record { fd = fd; file_id = c ∷ key }))
    ])

  unfoldable pub replace_fd : ℤ → ℤ → List ℕ → ℕ → Options → M (ℤ × Options)
  unfolding put_key
  replace_fd appid version root_pid file o = do
    fd ← sys w (fileno file)
    if eqb_ℤ fd.ret minus_one then return (ebadf, o) else do
      fd_key ← get_returned_word (grep_fd_key appid version root_pid fd.ret)
      put_key fd.ret fd_key o

  -- stdin, stdout and stderr, up to the first error.
  unfoldable pub replace_all : ℤ → ℤ → List ℕ → List ℕ → Options → M (ℤ × Options)
  replace_all appid version root_pid [] o = return (pos 0, o)
  replace_all appid version root_pid (file ∷ files) o = do
    r ← replace_fd appid version root_pid file o
    if truthy r.0 then return r else replace_all appid version root_pid files r.1

  unfoldable pub replace_stdin_stdout_stderr : ℤ → ℤ → Options → M (ℤ × Options)
  unfolding replace_all
  replace_stdin_stdout_stderr appid version o = do
    root_pid ← get_returned_word (grep_root_pid appid version)
    elim root_pid [
      | none ↦ return (einval, o)
      | some pid ↦ replace_all appid version pid (0 ∷ 1 ∷ 2 ∷ []) o
    ]
