-- ===== src/Shell/Safe/Programs.antt =====
-- The commands that load and run programs: the cache of the FAT stays in order.
use seolsem.Base.{ℕ, Option, none, some, List, [], ◌∷◌, Str, codes}
use seolsem.Act.{Act}
use seolsem.Act.Keeps.{Keeps, Keeps-modify, Keeps-call, Keeps-bind, keeps_rules}
use seolsem.Fat.{Drive, Volume}
use seolsem.Fat.Entry.{Covers}
use seolsem.Fat.Geometry.{IsInOrder}
use seolsem.Fat.Mount.{Bpb}
use seolsem.Fat.Write.{IsSized}
use seolsem.Fs.Calls.{
  query, stat, is_executable, read_in_dir, stat_in_dir, is_executable_in_dir, perform, ask,
}
use seolsem.Dir.Sectors.{IsModest}
use seolsem.Program
use seolsem.Program.{Result, Target, at_path, in_dir, err_bad_handle}
use seolsem.Program.Below.{
  FilesKeep, program_loader_open-Left, program_loader_open_in_dir-Left, program_loader_exec-Left,
}
use seolsem.Shell.{Machine, Shell, context}
use seolsem.Shell.Programs.{
  Loaded, files, stat_of, is_executable_of, read_of, on_loader, load_program_candidate,
  load_program_with_optional_ext, path_loop, load_program_with_path, print_program_result,
  set_loaded, exec_loaded, run_loaded, run_builtin_program, run_edit, run_calc, run_hello,
  load_guarded, prepare_loaded_program, run_load, run_program, run_exec,
}
use seolsem.Shell.Safe
use seolsem.Shell.Safe.{InFiles, InAccounts, InShell}
use seolsem.User.Session.{Accounts, on_files}

module _ (drv : Drive) (b : Bpb) (v : Volume) (hw : Machine drv) (ord : IsInOrder b v)
    (covers : Covers v) (modest : IsModest b v) (sized : IsSized v) where
  open drv use {Disk}

  abbrev Holds : {A : Type 0} → Act (Shell Disk) A → Type 0
  Holds m = Keeps (InShell drv v) m

  stat-Kept :
      (target : Target) (a : Accounts Disk)
      → InAccounts drv v a
      → InAccounts drv v (stat_of drv b v target a).1
  unfolding stat_of on_files perform ask
  stat-Kept (at_path path) a h =
      Safe.performed drv b v hw ord covers modest sized (query (stat path)) a.files h
  stat-Kept (in_dir dir name) a h =
      Safe.performed drv b v hw ord covers modest sized (query (stat_in_dir dir name)) a.files h

  is_executable-Kept :
      (target : Target) (a : Accounts Disk)
      → InAccounts drv v a
      → InAccounts drv v (is_executable_of drv b v target a).1
  unfolding is_executable_of on_files perform ask
  is_executable-Kept (at_path path) a h =
      Safe.performed drv b v hw ord covers modest sized (query (is_executable path)) a.files h
  is_executable-Kept (in_dir dir name) a h =
      Safe.performed drv b v hw ord covers modest sized (query (is_executable_in_dir dir name))
        a.files h

  read-Kept :
      (target : Target) (cap : ℕ) (a : Accounts Disk)
      → InAccounts drv v a
      → InAccounts drv v (read_of drv b v target cap a).2
  unfolding read_of on_files perform ask
  read-Kept (at_path path) cap a h =
      (Safe.fs_read-Kept drv b v hw ord covers modest sized path cap).at a.files h
  read-Kept (in_dir dir name) cap a h =
      Safe.performed drv b v hw ord covers modest sized (query (read_in_dir dir name cap)) a.files h

  files-Kept : unfold files in FilesKeep (files drv b v) (InAccounts drv v)
  unfolding files
  files-Kept = record {
    stat_keeps = stat-Kept;
    is_executable_keeps = is_executable-Kept;
    read_keeps = read-Kept;
  }

  on_loader-Kept :
      (f : Program.State (Accounts Disk) → Result × ℕ × Program.State (Accounts Disk))
      → ((st : Program.State (Accounts Disk))
          → InAccounts drv v st.fs
          → InAccounts drv v (f st).2.fs)
      → Holds (on_loader drv b v f)
  unfolding on_loader
  on_loader-Kept f h = Keeps-call _ λ s p. h s.loader p

  candidate-Kept : (dir : Option Str) (name : Str) → Holds (load_program_candidate drv b v dir name)
  unfolding load_program_candidate files
  candidate-Kept dir [] = search keeps_rules
  candidate-Kept none (c ∷ name) = on_loader-Kept _ λ st.
      program_loader_open-Left (files drv b v) (InAccounts drv v) files-Kept (context st.fs)
        (some (c ∷ name)) st
  candidate-Kept (some []) (c ∷ name) = on_loader-Kept _ λ st.
      program_loader_open-Left (files drv b v) (InAccounts drv v) files-Kept (context st.fs)
        (some (c ∷ name)) st
  candidate-Kept (some (d ∷ dir)) (c ∷ name) = on_loader-Kept _ λ st.
      program_loader_open_in_dir-Left (files drv b v) (InAccounts drv v) files-Kept (context st.fs)
        (d ∷ dir) (c ∷ name) st

  optional_ext-Kept :
      (dir : Option Str) (name : Str) → Holds (load_program_with_optional_ext drv b v dir name)
  unfolding load_program_with_optional_ext
  optional_ext-Kept dir name = search (keeps_rules, candidate-Kept) depth 12

  path_loop-Kept :
      (name : Str) (best : Result) (dirs : List Str) → Holds (path_loop drv b v name best dirs)
  unfolding path_loop
  path_loop-Kept name best [] = search keeps_rules
  path_loop-Kept name best (dir ∷ dirs) =
      let rest = λ (r : Result). path_loop-Kept name r dirs in
      search (keeps_rules, optional_ext-Kept, rest) depth 12

  load_program_with_path-Kept : (name : Str) → Holds (load_program_with_path drv b v name)
  unfolding load_program_with_path
  load_program_with_path-Kept name =
      search (Safe.shell_rules, optional_ext-Kept, path_loop-Kept) depth 12

  set_loaded-Kept : (handle : ℕ) → Holds (set_loaded drv b v handle)
  unfolding set_loaded
  set_loaded-Kept handle = Keeps-modify _ λ s h. h

  print_program_result-Kept : (rc : Result) → Holds (print_program_result drv b v rc)
  unfolding print_program_result
  print_program_result-Kept rc = search Safe.shell_rules

  exec_loaded-Kept : (handle arg : ℕ) → Holds (exec_loaded drv b v hw handle arg)
  unfolding exec_loaded files
  exec_loaded-Kept handle arg =
      Keeps-bind _ _
        (on_loader-Kept _ (
          program_loader_exec-Left (files drv b v) (InAccounts drv v) files-Kept hw.wrapper
            hw.call_entry handle arg))
        λ r. search keeps_rules

  ruleset load_rules = (
    Safe.shell_rules, load_program_with_path-Kept, set_loaded-Kept, print_program_result-Kept,
    exec_loaded-Kept,
  )

  run_loaded-Kept : (arg : ℕ) (loaded : Loaded) → Holds (run_loaded drv b v hw arg loaded)
  unfolding run_loaded
  run_loaded-Kept arg (rc, handle) = search load_rules

  builtin-Kept :
      (primary fallback : Str) (arg : ℕ)
      → Holds (run_builtin_program drv b v hw primary fallback arg)
  unfolding run_builtin_program
  builtin-Kept primary fallback arg = search (load_rules, run_loaded-Kept)

  pub run_edit-Kept : (name : Option Str) → Holds (run_edit drv b v hw name)
  unfolding run_edit
  run_edit-Kept name = search (load_rules, builtin-Kept)

  pub run_calc-Kept : Holds (run_calc drv b v hw)
  unfolding run_calc
  run_calc-Kept = builtin-Kept (codes "BIN/CALC.XEF") (codes "CALC.XEF") 0

  pub run_hello-Kept : Holds (run_hello drv b v hw)
  unfolding run_hello
  run_hello-Kept = builtin-Kept (codes "BIN/HELLO.XEF") (codes "HELLO.XEF") 0

  load_guarded-Kept :
      (name : Str) (rest : Act (Shell Disk) Unit)
      → Holds rest
      → Holds (load_guarded drv b v hw name rest)
  unfolding load_guarded
  load_guarded-Kept name rest h = search Safe.shell_rules

  prepare-Kept : (name : Str) → Holds (prepare_loaded_program drv b v hw name)
  unfolding prepare_loaded_program
  prepare-Kept name = search load_rules depth 12

  pub run_load-Kept : (name : Str) → Holds (run_load drv b v hw name)
  unfolding run_load
  run_load-Kept name = search (load_rules, load_guarded-Kept, prepare-Kept) depth 12

  pub run_program-Kept : Holds (run_program drv b v hw)
  unfolding run_program
  run_program-Kept = search load_rules depth 12

  pub run_exec-Kept : (name : Str) → Holds (run_exec drv b v hw name)
  unfolding run_exec
  run_exec-Kept name = search (load_rules, load_guarded-Kept, prepare-Kept) depth 12
