-- ===== src/Shell/Safe.antt =====
-- The shell and the file allocation table: whatever is typed, the cache of the FAT stays in order.
pub mod Users
pub mod Programs
pub mod Files
pub mod Pages
pub mod Lines
use mathlib.Core.Path.{subst}
use seolsem.Base.{
  ℕ, ◌∙◌, sym, Bool, Option, none, some, List, [], ◌∷◌, ◌==◌, ◌&&◌, ◌||◌, not, true, false,
  if◌then◌else◌, Str, codes, leb,
}
use seolsem.Act.{Act, call, attempt, gets, modify, pure, ◌>>=◌, ◌>>◌}
use seolsem.Act.Keeps.{
  Keeps, Keeps-modify, Keeps-bind, Keeps-pure, Keeps-fail, Keeps-gets, keeps_rules,
}
use seolsem.Dir.{FsDir}
use seolsem.Fat.{Drive, Volume, State}
use seolsem.Fat.Cache.{IsCoherent}
use seolsem.Fat.Entry.{Covers}
use seolsem.Fat.Geometry.{IsInOrder}
use seolsem.Fat.Mount.{Bpb}
use seolsem.Fat.Write.{IsSized}
use seolsem.Dir.Sectors.{IsModest}
use seolsem.Fs
use seolsem.Fs.{
  fs_cd, fs_get_cwd, fs_dir_open, fs_dir_read, fs_read, fs_read_in_dir, fs_stat, fs_stat_in_dir,
  fs_is_executable, fs_is_executable_in_dir, fs_is_dir, fs_sync, fs_get_volume_info32,
}
use seolsem.Fs.Change.{fs_create_dir, fs_write, fs_delete, fs_delete_dir}
use seolsem.Fs.Calls.{
  Call, query, cd, is_dir, stat, is_executable, dir_open, dir_read, read, read_in_dir, stat_in_dir,
  is_executable_in_dir, sync, create_dir, delete, delete_dir, write, perform, ask,
}
use seolsem.Fs.Queries.{fs_is_ready-Keeps}
use seolsem.Fs.Safe.{perform-IsCoherent}
use seolsem.Program
use seolsem.Program.{Result, Target, at_path, in_dir}
use seolsem.Program.Below.{
  FilesKeep, program_loader_open-Left, program_loader_open_in_dir-Left, program_loader_exec-Left,
}
use seolsem.Shell.{
  Machine, Shell, Shown, show, print_message, print_simple, print_all, on_accounts, context,
  deny_if_forbidden, guarded, or_say,
}
use seolsem.User.Session.{Accounts, on_files}

-- The cache of the FAT is in order, in the state of the shell and in the parts of it.
module _ (drv : Drive) (v : Volume) where
  open drv use {Disk}

  abbrev pub InFiles : Fs.Session Disk → Type 0
  InFiles s = IsCoherent drv v s.fat

  abbrev pub InAccounts : Accounts Disk → Type 0
  InAccounts a = IsCoherent drv v a.files.fat

  abbrev pub InShell : Shell Disk → Type 0
  InShell s = IsCoherent drv v s.loader.fs.files.fat

module _ (drv : Drive) (b : Bpb) (v : Volume) (hw : Machine drv) (ord : IsInOrder b v)
    (covers : Covers v) (modest : IsModest b v) (sized : IsSized v) where
  open drv use {Disk}

  -- A function of sima_fs.h, from the call that it answers.
  performed :
      (c : Call) (s : Fs.Session Disk) → (InFiles drv v) s → (InFiles drv v) (perform drv b v c s)
  performed = perform-IsCoherent drv b v ord covers modest sized

  pub fs_cd-Kept : (path : Str) → Keeps (InFiles drv v) (fs_cd drv b v path)
  fs_cd-Kept path = record { at = unfold perform ask in performed (query (cd path)) }

  pub fs_is_dir-Kept : (path : Str) → Keeps (InFiles drv v) (fs_is_dir drv b v path)
  fs_is_dir-Kept path = record { at = unfold perform ask in performed (query (is_dir path)) }

  pub fs_dir_open-Kept : (path : Option Str) → Keeps (InFiles drv v) (fs_dir_open drv b v path)
  fs_dir_open-Kept path = record { at = unfold perform ask in performed (query (dir_open path)) }

  pub fs_dir_read-Kept :
      (dir : FsDir) (s : Fs.Session Disk)
      → (InFiles drv v) s
      → (InFiles drv v) (fs_dir_read drv b v dir s).1
  unfolding perform ask
  fs_dir_read-Kept dir = performed (query (dir_read dir))

  pub fs_read-Kept : (path : Str) (cap : ℕ) → Keeps (InFiles drv v) (fs_read drv b v path cap)
  fs_read-Kept path cap = record { at = unfold perform ask in performed (query (read path cap)) }

  pub fs_sync-Kept : Keeps (InFiles drv v) (fs_sync drv b v)
  fs_sync-Kept = record { at = unfold perform ask in performed (query sync) }

  pub fs_create_dir-Kept : (path : Str) → Keeps (InFiles drv v) (fs_create_dir drv b v path)
  fs_create_dir-Kept path = record { at = unfold perform in performed (create_dir path) }

  pub fs_write-Kept :
      (path : Str) (bytes : List ℕ) → Keeps (InFiles drv v) (fs_write drv b v path bytes)
  fs_write-Kept path bytes = record { at = unfold perform in performed (write path bytes) }

  pub fs_delete-Kept : (path : Str) → Keeps (InFiles drv v) (fs_delete drv b v path)
  fs_delete-Kept path = record { at = unfold perform in performed (delete path) }

  pub fs_delete_dir-Kept : (path : Str) → Keeps (InFiles drv v) (fs_delete_dir drv b v path)
  fs_delete_dir-Kept path = record { at = unfold perform in performed (delete_dir path) }

  pub info-Kept : Keeps (InFiles drv v) (fs_get_volume_info32 drv b v)
  unfolding fs_get_volume_info32
  info-Kept =
      search (
        keeps_rules,
        fs_is_ready-Keeps drv b v ord covers (λ (st : State Disk). IsCoherent drv v st),
      )

  pub on_files-Kept :
      {A : Type 0} (m : Act (Fs.Session Disk) A)
      → Keeps (InFiles drv v) m
      → Keeps (InAccounts drv v) (on_files drv b v m)
  unfolding on_files
  on_files-Kept m h = record { at = λ a. h.at a.files }

  pub on_accounts-Kept :
      {A : Type 0} (m : Act (Accounts Disk) A)
      → Keeps (InAccounts drv v) m
      → Keeps (InShell drv v) (on_accounts m)
  unfolding on_accounts
  on_accounts-Kept m h = record { at = λ s. h.at s.loader.fs }

  pub show-Kept : (shown : Shown) → Keeps (InShell drv v) (show shown)
  unfolding show
  show-Kept shown = Keeps-modify _ λ s h. h

  pub print_message-Kept : (text : Str) → Keeps (InShell drv v) (print_message text)
  unfolding print_message
  print_message-Kept text = show-Kept _

  pub print_simple-Kept : (text : Str) → Keeps (InShell drv v) (print_simple text)
  unfolding print_simple
  print_simple-Kept text = print_message-Kept _

  pub print_all-Kept : (lines : List Str) → Keeps (InShell drv v) (print_all lines)
  unfolding print_all
  print_all-Kept [] = Keeps-pure _
  print_all-Kept (line ∷ lines) =
      Keeps-bind (print_message line) _ (print_message-Kept line) λ u. print_all-Kept lines

  pub ruleset fs_rules = (
    keeps_rules, fs_cd-Kept, fs_is_dir-Kept, fs_dir_open-Kept, fs_dir_read-Kept, fs_read-Kept,
    fs_sync-Kept, fs_create_dir-Kept, fs_write-Kept, fs_delete-Kept, fs_delete_dir-Kept, info-Kept,
    on_files-Kept, on_accounts-Kept, print_message-Kept, print_simple-Kept, print_all-Kept,
  )

  pub deny_if_forbidden-Kept :
      (path : Str) (allow_bin : Bool) → Keeps (InShell drv v) (deny_if_forbidden path allow_bin)
  unfolding deny_if_forbidden
  deny_if_forbidden-Kept path allow_bin = search (keeps_rules, print_simple-Kept)

  pub guarded-Kept :
      (path : Str) (allow_bin : Bool) (rest : Act (Shell Disk) Unit)
      → Keeps (InShell drv v) rest
      → Keeps (InShell drv v) (guarded path allow_bin rest)
  unfolding guarded
  guarded-Kept path allow_bin rest h = search (keeps_rules, deny_if_forbidden-Kept)

  pub or_say-Kept :
      {A : Type 0} (m : Act (Shell Disk) (Option A)) (bad : Str) (rest : A → Act (Shell Disk) Unit)
      → Keeps (InShell drv v) m
      → ((a : A) → Keeps (InShell drv v) (rest a))
      → Keeps (InShell drv v) (or_say m bad rest)
  unfolding or_say
  or_say-Kept m bad rest km kr = search (keeps_rules, print_simple-Kept)

  pub ruleset shell_rules = (fs_rules, show-Kept, deny_if_forbidden-Kept, guarded-Kept, or_say-Kept)
