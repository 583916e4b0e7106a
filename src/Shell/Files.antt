-- ===== src/Shell/Files.antt =====
-- kernel/commands.c, the commands on directories, files and the disk: `ls`, `pwd`, `cd`, `cat`, `write`,
-- `rm`, `rmdir`, `mkdir`, `sync`, `diskinfo`.
use seolsem.Base.{
  ℕ, zero, suc, ◌*◌, ◌/◌, ◌^◌, Bool, true, false, not, ◌||◌, Option, none, some, List, [], ◌∷◌,
  ◌++◌, ◌==◌, if◌then◌else◌, drop, u16, Str, codes,
}
use seolsem.Act.{Act, cases, pure, modify, call, gets, attempt, ◌>>=◌, ◌>>◌}
use seolsem.Conv.{sima_itoh}
use seolsem.Dir.{FsDir}
use seolsem.Env.{env_get}
use seolsem.Fat.{Drive, Volume}
use seolsem.Fat.Mount.{Bpb}
use seolsem.File.{Dirent, is_nil}
use seolsem.FilePath.{is_separator, path_max}
use seolsem.Fs
use seolsem.Fs.{fs_cd, fs_get_cwd, fs_dir_open, fs_dir_read, fs_read, fs_sync, fs_get_volume_info32}
use seolsem.Fs.Change.{fs_create_dir, fs_write, fs_delete, fs_delete_dir}
use seolsem.Mem.Copying.{c_str, strcpy, strcat}
use seolsem.Mem.Comparing.{str_eq}
use seolsem.Shell.{
  Machine, Shell, message_max, appended, text_of, decimal, print_message, print_simple, print_all,
  on_accounts, of_accounts, guarded, or_say,
}
use seolsem.User.Session.{on_files, set_env}

-- What `sima_strcpy` or `sima_strcat` left, unless it returned FALSE.
abbrev pub if_fits : Str × Bool → Option Str
if_fits (out, ok) = if ok then some out else none

-- The end of `cd_expand_user`: what follows the '~' joined to HOME.
unfoldable pub join_home : ℕ → Str × Bool → Str → Option Str
join_home out_cap (out, false) rest = none
join_home out_cap (out, true) [] = some out
join_home out_cap (out, true) (c ∷ rest) =
    if str_eq out (codes "/")
    then if_fits (strcat out_cap out rest)
    else if_fits (strcat out_cap out (c ∷ rest))

-- With HOME, for a path that begins with '~'.
unfoldable pub expand_tilde : Option Str → Str → Str → ℕ → Option Str
unfolding join_home
expand_tilde none path rest out_cap = if_fits (strcpy out_cap path)
expand_tilde (some []) path rest out_cap = if_fits (strcpy out_cap path)
expand_tilde (some (h ∷ home)) path [] out_cap = join_home out_cap (strcpy out_cap (h ∷ home)) []
expand_tilde (some (h ∷ home)) path (c ∷ rest) out_cap =
    if is_separator c
    then join_home out_cap (strcpy out_cap (h ∷ home)) (c ∷ rest)
    else if_fits (strcpy out_cap path)

unfoldable pub cd_expand_user : Option Str → Str → ℕ → Option Str
unfolding expand_tilde
cd_expand_user home [] out_cap = if out_cap == 0 then none else if_fits (strcpy out_cap [])
cd_expand_user home (c ∷ rest) out_cap =
    if out_cap == 0
    then none
    else if not (c == b'~')
    then if_fits (strcpy out_cap (c ∷ rest))
    else expand_tilde home (c ∷ rest) rest out_cap

-- A line of `run_ls`.
unfoldable pub ls_line : Dirent → Str
unfolding text_of decimal
ls_line entry =
    let line = text_of message_max (entry.name ∷ []) in
    if entry.is_dir
    then appended message_max line (codes " [DIR]" ∷ [])
    else appended message_max line (
        codes " "
        ∷ decimal (u16 entry.size) 16
        ∷ codes " bytes"
        ∷ (if entry.is_exec then codes " [EXEC]" ∷ [] else []))

-- The upper and the lower half of a 32-bit number, as "0xHHHH" without NUL.
unfoldable pub hex_of : ℕ → Str
unfolding sima_itoh
hex_of n = elim (sima_itoh n 8).0 [ none ↦ [] | some s ↦ s ]

abbrev pub halves : ℕ → List Str
halves n = hex_of (u16 (n / 2 ^ 16)) ∷ codes ":" ∷ drop 2 (hex_of (u16 n)) ∷ []

abbrev pub line_max : ℕ
line_max = 128

unfoldable pub physical_line : Option ℕ → Str
unfolding text_of hex_of
physical_line none = codes "  Physical sectors: (ATA IDENTIFY failed)"
physical_line (some sectors) = text_of line_max (codes "  Physical sectors: " ∷ halves sectors)

-- What `run_diskinfo` prints of the volume, from what `fs_get_volume_info32` gave.
unfoldable pub volume_lines : Option (ℕ × ℕ × ℕ) → List Str
unfolding text_of hex_of decimal
volume_lines none = codes "  Volume info (BPB): unavailable" ∷ []
volume_lines (some (sectors, spc, base_lba)) =
    text_of line_max (codes "  Partition base LBA: " ∷ halves base_lba)
    ∷ text_of line_max (
        codes "  Volume sectors (BPB): "
        ∷ (halves sectors ++ codes " (~" ∷ decimal (u16 (sectors / 2 ^ 11)) 8 ∷ codes " MiB)" ∷ []))
    ∷ text_of line_max (
        codes "  Sectors/cluster: "
        ∷ decimal spc 8
        ∷ codes " ("
        ∷ decimal (u16 (spc * 2 ^ 9)) 8
        ∷ codes " bytes)"
        ∷ [])
    ∷ []

-- Where `cd` goes, and whether it goes back: `none` if there is no directory to go back to.
unfoldable pub cd_goal : Option Str → Option Str → Bool → Str → Option (Str × Bool)
cd_goal none home has_prev prev_path =
    some (elim home [ none ↦ codes "/" | some h ↦ if is_nil h then codes "/" else h ], false)
cd_goal (some path) home has_prev prev_path =
    if is_nil path
    then some (elim home [ none ↦ codes "/" | some h ↦ if is_nil h then codes "/" else h ], false)
    else if str_eq path (codes "-")
    then if not has_prev || is_nil prev_path then none else some (prev_path, true)
    else some (path, false)

module _ (drv : Drive) (b : Bpb) (v : Volume) (hw : Machine drv) where
  open drv use {Disk}

  -- An operation of sima_fs.h.
  abbrev pub on_fs : {A : Type 0} → Act (Fs.Session Disk) A → Act (Shell Disk) A
  on_fs m = on_accounts (on_files drv b v m)

  abbrev pub home : Act (Shell Disk) (Option Str)
  home = of_accounts (λ a. env_get a.env (some (codes "HOME")))

  abbrev pub cwd_text : Act (Shell Disk) Str
  cwd_text = of_accounts (λ a. fs_get_cwd drv b v path_max a.files)

  -- `path && path[0] ? path : "."`
  abbrev here_if_nil : Option Str → Str
  here_if_nil none = codes "."
  here_if_nil (some []) = codes "."
  here_if_nil (some (c ∷ path)) = c ∷ path

  -- The loop of `run_ls`, which prints `left` more entries.
  unfoldable pub ls_loop : ℕ → FsDir → Act (Shell Disk) Unit
  unfolding ls_line
  ls_loop zero dir = do
    (dir', entry) ← on_fs (call (fs_dir_read drv b v dir))
    cases entry (pure tt) λ e. print_simple (codes "Directory listing aborted.")
  ls_loop (suc left) dir = do
    (dir', entry) ← on_fs (call (fs_dir_read drv b v dir))
    cases entry (pure tt) λ e. print_message (ls_line e) >> ls_loop left dir'

  unfoldable pub run_ls : Option Str → Act (Shell Disk) Unit
  unfolding ls_loop
  run_ls path = guarded (here_if_nil path) false (
      or_say (attempt (on_fs (fs_dir_open drv b v (some (here_if_nil path)))))
        (codes "Path not found.") (ls_loop 256))

  unfoldable pub run_pwd : Act (Shell Disk) Unit
  run_pwd = cwd_text >>= print_message

  -- The end of `run_cd`, in the new directory.
  unfoldable pub cd_done : Str → Bool → Act (Shell Disk) Unit
  unfolding run_pwd
  cd_done old_path swap_prev = do
    new_path ← cwd_text
    on_accounts (set_env drv b v (codes "OLDPWD") old_path)
    on_accounts (set_env drv b v (codes "PWD") new_path)
    modify (λ s. record s { prev_path = (strcpy path_max old_path).0; has_prev = true })
    if swap_prev then run_pwd else pure tt

  -- `run_cd` once it is settled where to go.
  unfoldable pub cd_to : Str → Str × Bool → Act (Shell Disk) Unit
  unfolding cd_expand_user cd_done
  cd_to old_path (path, swap_prev) = do
    h ← home
    cases (cd_expand_user h path path_max) (print_simple (codes "Unable to change directory."))
        λ target. guarded target false (
          or_say (attempt (on_fs (fs_cd drv b v target))) (codes "Directory not found.")
            λ u. cd_done old_path swap_prev)

  unfoldable pub run_cd : Option Str → Act (Shell Disk) Unit
  unfolding cd_goal cd_to
  run_cd path = do
    old_path ← cwd_text
    h ← home
    goal ← gets (λ s. cd_goal path h s.has_prev s.prev_path)
    cases goal (print_simple (codes "No previous directory.")) (cd_to old_path)

  unfoldable pub run_cat : Str → Act (Shell Disk) Unit
  run_cat name = guarded name false (
      or_say (attempt (on_fs (fs_read drv b v name 512))) (codes "Unable to read file.")
        λ bytes. print_message (c_str bytes))

  unfoldable pub run_write : Str → Str → Act (Shell Disk) Unit
  run_write name text = guarded name false (
      or_say (attempt (on_fs (fs_write drv b v name text))) (codes "Unable to write file.")
        λ u. print_simple (codes "Write complete."))

  unfoldable pub run_rm : Str → Act (Shell Disk) Unit
  run_rm name = guarded name false (
      or_say (attempt (on_fs (fs_delete drv b v name))) (codes "Unable to delete file.")
        λ u. print_simple (codes "File deleted."))

  unfoldable pub run_rmdir : Str → Act (Shell Disk) Unit
  run_rmdir name = guarded name false (
      or_say (attempt (on_fs (fs_delete_dir drv b v name))) (codes "Unable to remove directory.")
        λ u. print_simple (codes "Directory removed."))

  unfoldable pub run_mkdir : Str → Act (Shell Disk) Unit
  run_mkdir name = guarded name false (
      or_say (attempt (on_fs (fs_create_dir drv b v name))) (codes "Unable to create directory.")
        λ u. print_simple (codes "Directory created."))

  unfoldable pub run_sync : Act (Shell Disk) Unit
  run_sync =
      or_say (attempt (on_fs (fs_sync drv b v))) (codes "Disk sync failed.")
        λ u. print_simple (codes "Filesystem synced to disk.")

  -- `ide_identify_total_sectors` on the disk below the files.
  unfoldable pub identified : Fs.Session Disk → Option ℕ × Fs.Session Disk
  identified s =
      let (sectors, disk) = hw.identify s.fat.disk in
      (sectors, record s { fat = record s.fat { disk = disk } })

  unfoldable pub run_diskinfo : Act (Shell Disk) Unit
  unfolding physical_line volume_lines
  run_diskinfo = do
    print_message (codes "Disk information:")
    sectors ← on_fs (call identified)
    print_message (physical_line sectors)
    info ← attempt (on_fs (fs_get_volume_info32 drv b v))
    print_all (volume_lines info)
