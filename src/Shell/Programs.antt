-- ===== src/Shell/Programs.antt =====
-- kernel/commands.c, the commands that load and run programs: `load`, `run`, `exec`, `edit`, `calc`,
-- `hello`, with the search for a program along PATH. Here the loader stands on the files of Fs.
use seolsem.Base.{
  ℕ, ◌+◌, ◌-◌, Bool, true, false, not, ◌&&◌, ◌||◌, Option, none, some, List, [], ◌∷◌, ltb, leb,
  ◌==◌, if◌then◌else◌, get_or, length, u8, Str, codes,
}
use seolsem.Act.{Act, cases, pure, modify, call, gets, ◌>>=◌, ◌>>◌}
use seolsem.Env.{env_get}
use seolsem.Fat.{Drive, Volume}
use seolsem.Fat.Mount.{Bpb}
use seolsem.File
use seolsem.File.{is_nil}
use seolsem.FilePath.{is_separator, path_max}
use seolsem.Fs
use seolsem.Fs.{
  fs_stat, fs_stat_in_dir, fs_is_executable, fs_is_executable_in_dir, fs_read, fs_read_in_dir,
}
use seolsem.Mem.Copying.{strcpy, strcat}
use seolsem.Mem.Split.{sima_strcspl}
use seolsem.Perm.{perm_is_root}
use seolsem.Program
use seolsem.Program.{
  Files, Result, Target, at_path, in_dir, ok, err_invalid_arg, err_permission, err_not_found,
  err_not_executable, err_file_too_large, err_no_memory, err_io, err_bad_format, err_import,
  err_reloc, err_exec, err_bad_handle, is_ok,
}
use seolsem.Program.Open.{program_loader_open, program_loader_open_in_dir, program_loader_exec}
use seolsem.Shell.{
  Machine, Shell, print_message, print_simple, of_accounts, context, guarded, has_path_separator,
}
use seolsem.Shell.Files.{if_fits}
use seolsem.User.Session.{Accounts, on_files}

unfoldable pub program_loader_result_message : Result → Str
program_loader_result_message ok = codes "prog:OK"
program_loader_result_message err_invalid_arg = codes "prog:EARG"
program_loader_result_message err_permission = codes "prog:EPERM"
program_loader_result_message err_not_found = codes "prog:ENOENT"
program_loader_result_message err_not_executable = codes "prog:ENOEXEC"
program_loader_result_message err_file_too_large = codes "prog:ETOOBIG"
program_loader_result_message err_no_memory = codes "prog:ENOMEM"
program_loader_result_message err_io = codes "prog:EIO"
program_loader_result_message err_bad_format = codes "prog:EBADFMT"
program_loader_result_message err_import = codes "prog:EIMPORT"
program_loader_result_message err_reloc = codes "prog:ERELOC"
program_loader_result_message err_exec = codes "prog:EEXEC"
program_loader_result_message err_bad_handle = codes "prog:EBADH"

abbrev upper : ℕ → ℕ
upper c = if leb b'a' c && leb c b'z' then u8 (c - b'a' + b'A') else c

unfoldable pub has_xef_extension : Str → Bool
has_xef_extension name =
    let len = length name in
    if ltb len 4
    then false
    else get_or name (len - 4) 0 == b'.'
      && upper (get_or name (len - 3) 0) == b'X'
      && upper (get_or name (len - 2) 0) == b'E'
      && upper (get_or name (len - 1) 0) == b'F'

-- `rc != PROGRAM_ERR_NOT_FOUND && rc != PROGRAM_ERR_NOT_EXECUTABLE`: the search ends.
unfoldable pub ends_search : Result → Bool
ends_search rc = elim rc [ err_not_found ↦ false | err_not_executable ↦ false | _ ↦ true ]

abbrev is_bad_handle : Result → Bool
is_bad_handle rc = elim rc [ err_bad_handle ↦ true | _ ↦ false ]

-- `if (best == PROGRAM_ERR_NOT_FOUND) best = rc;`
unfoldable pub better : Result → Result → Result
better best rc = elim best [ err_not_found ↦ rc | other ↦ other ]

-- `with_ext` and `abs_dir`.
unfoldable pub with_extension : Str → Option Str
with_extension name =
    let (copy, fits) = strcpy path_max name in
    if fits then if_fits (strcat path_max copy (codes ".XEF")) else none

unfoldable pub in_root : Str → Option Str
in_root dir = if_fits (strcat 64 (codes "/") dir)

abbrev pub Loaded : Type 0
Loaded = Result × ℕ

module _ (drv : Drive) (b : Bpb) (v : Volume) where
  open drv use {Disk}

  -- What an operation returned, on the files below the accounts.
  abbrev below :
      {A C : Type 0} → Act (Fs.Session Disk) A → (Option A → C) → Accounts Disk → C × Accounts Disk
  below m f a = let (r, a') = on_files drv b v m a in (f r, a')

  abbrev dirent : Option File.Dirent → Option Program.Dirent
  dirent none = none
  dirent (some e) = some (record { is_dir = e.is_dir; size = e.size })

  abbrev returned : {A : Type 0} → Option A → Bool
  returned none = false
  returned (some a) = true

  unfoldable pub stat_of : Target → Accounts Disk → Option Program.Dirent × Accounts Disk
  stat_of (at_path path) = below (fs_stat drv b v path) dirent
  stat_of (in_dir dir name) = below (fs_stat_in_dir drv b v dir name) dirent

  unfoldable pub is_executable_of : Target → Accounts Disk → Bool × Accounts Disk
  is_executable_of (at_path path) = below (fs_is_executable drv b v path) returned
  is_executable_of (in_dir dir name) = below (fs_is_executable_in_dir drv b v dir name) returned

  abbrev bytes_of : Option (List ℕ) → Bool × List ℕ
  bytes_of none = (false, [])
  bytes_of (some bytes) = (true, bytes)

  abbrev flat : (Bool × List ℕ) × Accounts Disk → Bool × List ℕ × Accounts Disk
  flat ((done, bytes), a) = (done, bytes, a)

  unfoldable pub read_of : Target → ℕ → Accounts Disk → Bool × List ℕ × Accounts Disk
  read_of (at_path path) cap a = flat (below (fs_read drv b v path cap) bytes_of a)
  read_of (in_dir dir name) cap a = flat (below (fs_read_in_dir drv b v dir name cap) bytes_of a)

  -- The files that the loader works on.
  unfoldable pub files : Files
  unfolding stat_of is_executable_of read_of
  files = record {
    Fs = Accounts Disk;
    stat = stat_of;
    is_executable = is_executable_of;
    read = read_of;
  }

  -- An operation of the loader that gives a result and a number.
  unfoldable pub on_loader :
      (Program.State (Accounts Disk) → Result × ℕ × Program.State (Accounts Disk))
      → Act (Shell Disk) Loaded
  on_loader f =
      call λ s. let (rc, n, loader) = f s.loader in ((rc, n), record s { loader = loader })

  unfoldable pub load_program_candidate : Option Str → Str → Act (Shell Disk) Loaded
  unfolding files
  load_program_candidate dir [] = pure (err_invalid_arg, 0)
  load_program_candidate none (c ∷ name) =
      on_loader (λ st. program_loader_open files (context st.fs) (some (c ∷ name)) st)
  load_program_candidate (some []) (c ∷ name) =
      on_loader (λ st. program_loader_open files (context st.fs) (some (c ∷ name)) st)
  load_program_candidate (some (d ∷ dir)) (c ∷ name) =
      on_loader (λ st. program_loader_open_in_dir files (context st.fs) (d ∷ dir) (c ∷ name) st)

  unfoldable pub load_program_with_optional_ext : Option Str → Str → Act (Shell Disk) Loaded
  unfolding load_program_candidate
  load_program_with_optional_ext dir name = do
    (rc, handle) ← load_program_candidate dir name
    if ends_search rc
        then pure (rc, handle)
        else if has_xef_extension name
        then pure (rc, 0)
        else cases (with_extension name) (pure (err_invalid_arg, 0)) λ longer. do
          (rc', handle') ← load_program_candidate dir longer
          if ends_search rc' then pure (rc', handle') else pure (better rc rc', 0)

  -- The loop of `load_program_with_path` over the directories left.
  unfoldable pub path_loop : Str → Result → List Str → Act (Shell Disk) Loaded
  unfolding load_program_with_optional_ext
  path_loop name best [] = pure (best, 0)
  path_loop name best (dir ∷ dirs) = do
    (rc, handle) ← load_program_with_optional_ext (some dir) name
    if ends_search rc
        then pure (rc, handle)
        else if is_separator (get_or dir 0 0)
        then path_loop name (better best rc) dirs
        else cases (in_root dir) (path_loop name (better best rc) dirs) λ abs_dir. do
          (rc', handle') ← load_program_with_optional_ext (some abs_dir) name
          if ends_search rc'
              then pure (rc', handle')
              else path_loop name (better (better best rc) rc') dirs

  unfoldable pub load_program_with_path : Str → Act (Shell Disk) Loaded
  unfolding load_program_with_optional_ext path_loop
  load_program_with_path name = do
    (rc, handle) ← load_program_with_optional_ext none name
    path ← of_accounts (λ a. env_get a.env (some (codes "PATH")))
    if ends_search rc
        then pure (rc, handle)
        else cases path (pure (rc, 0)) λ dirs.
          if (strcpy 64 dirs).1
          then path_loop name rc (sima_strcspl (some dirs) b';' 8)
          else pure (err_invalid_arg, 0)

  unfoldable pub print_program_result : Result → Act (Shell Disk) Unit
  unfolding program_loader_result_message
  print_program_result rc =
      if is_ok rc then pure tt else print_message (strcpy 96 (program_loader_result_message rc)).0

  unfoldable pub set_loaded : ℕ → Act (Shell Disk) Unit
  set_loaded handle = modify (λ s. record s { loaded_handle = handle })

  module _ (hw : Machine drv) where
    -- `program_loader_exec`; an argument of 0 is NULL.
    unfoldable pub exec_loaded : ℕ → ℕ → Act (Shell Disk) Result
    unfolding files
    exec_loaded handle arg = do
      (rc, status) ← on_loader (program_loader_exec files hw.wrapper hw.call_entry handle arg)
      pure rc

    -- The end of a command that runs the program it has loaded.
    unfoldable pub run_loaded : ℕ → Loaded → Act (Shell Disk) Unit
    unfolding print_program_result set_loaded exec_loaded
    run_loaded arg (rc, handle) =
        if is_ok rc
        then set_loaded handle >> (exec_loaded handle arg >>= print_program_result)
        else print_program_result rc

    unfoldable pub run_builtin_program : Str → Str → ℕ → Act (Shell Disk) Unit
    unfolding run_loaded
    run_builtin_program primary fallback arg = do
      (rc, handle) ← load_program_with_path primary
      if is_ok rc || is_nil fallback
          then run_loaded arg (rc, handle)
          else load_program_with_path fallback >>= run_loaded arg

    unfoldable pub run_edit : Option Str → Act (Shell Disk) Unit
    unfolding run_builtin_program
    run_edit name =
        let edit = run_builtin_program (codes "BIN/EDIT.XEF") (codes "EDIT.XEF") in
        cases name (edit 0)
          λ path. if is_nil path then edit 0 else guarded path false (edit (hw.place path))

    unfoldable pub run_calc : Act (Shell Disk) Unit
    unfolding run_builtin_program
    run_calc = run_builtin_program (codes "BIN/CALC.XEF") (codes "CALC.XEF") 0

    unfoldable pub run_hello : Act (Shell Disk) Unit
    unfolding run_builtin_program
    run_hello = run_builtin_program (codes "BIN/HELLO.XEF") (codes "HELLO.XEF") 0

    -- The test that `run_load` and `run_exec` make before they load.
    unfoldable pub load_guarded : Str → Act (Shell Disk) Unit → Act (Shell Disk) Unit
    unfolding has_path_separator
    load_guarded name rest = do
      root ← of_accounts (λ a. perm_is_root (context a))
      if not root && has_path_separator name then guarded name true rest else rest

    -- `prepare_loaded_program`
    unfoldable pub prepare_loaded_program : Str → Act (Shell Disk) Loaded
    unfolding set_loaded
    prepare_loaded_program name = if is_nil name then pure (err_invalid_arg, 0) else do
      (rc, handle) ← load_program_with_path name
      if is_ok rc then set_loaded handle >> pure (rc, handle) else pure (rc, 0)

    unfoldable pub run_load : Str → Act (Shell Disk) Unit
    unfolding load_guarded prepare_loaded_program print_program_result
    run_load name = load_guarded name do
      (rc, handle) ← prepare_loaded_program name
      if is_ok rc then print_simple (codes "Program loaded.") else print_program_result rc

    unfoldable pub run_program : Act (Shell Disk) Unit
    unfolding exec_loaded set_loaded print_program_result
    run_program = do
      handle ← gets (λ s. s.loaded_handle)
      if handle == 0 then print_simple (codes "No program loaded.") else do
        rc ← exec_loaded handle 0
        if is_bad_handle rc
            then set_loaded 0 >> print_simple (codes "No program loaded.")
            else print_program_result rc

    unfoldable pub run_exec : Str → Act (Shell Disk) Unit
    unfolding load_guarded prepare_loaded_program exec_loaded print_program_result
    run_exec name = load_guarded name do
      (rc, handle) ← prepare_loaded_program name
      if is_ok rc then exec_loaded handle 0 >>= print_program_result else print_program_result rc
