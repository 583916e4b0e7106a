-- ===== src/Fs.antt =====
-- kernel/sima_fs.c, the functions of sima_fs.h over a mounted volume: the current directory, reading,
-- writing, deleting. The state adds to that of the FAT cache and the disk what the functions keep
-- between calls: g_fs_ready, g_cwd_cluster and g_cwd_path. A string pointer is not NULL where the
-- type has no `Option`.
pub mod Cwd
pub mod Change
pub mod Calls
pub mod Queries
pub mod Safe
use seolsem.Base.{
  ℕ, Bool, true, false, not, ◌&&◌, ◌||◌, Option, none, some, List, [], ◌∷◌, ◌==◌, if◌then◌else◌,
  Str, codes,
}
use seolsem.Fat.{Drive, Volume, State, fat_flush_fat_sector}
use seolsem.Fat.Bytes.{Buffer}
use seolsem.Fat.Mount.{Bpb, is_fat32}
use seolsem.FilePath.{is_dot, fs_normalize_path, path_max}
use seolsem.Mem.Copying.{strcpy}
use seolsem.Act.{Act, pure, gets, modify, require, check, ◌>>=◌, ◌>>◌}
use seolsem.Dir.{FsDir, is_directory}
use seolsem.Dir.Find.{open_at, fat_dir_read_raw, fat_find_in_dir}
use seolsem.Dir.Resolve.{root_dir, fat_resolve_path, fat_resolve_dir}
use seolsem.File.{Dirent, is_nil, fat_fill_dirent, fat_is_exec_entry, fat_read_file_entry}

-- g_fs_ready, g_cwd_cluster, g_cwd_path, and the state below.
pub record Session (Disk : Type 0) : Type 0 where
  pub ready : Bool
  pub cwd_cluster : ℕ
  pub cwd_path : Str
  pub fat : State Disk

-- The path "/".
abbrev pub is_root_path : Str → Bool
is_root_path [] = false
is_root_path (c ∷ []) = c == b'/'
is_root_path (c ∷ d ∷ path) = false

module _ (drv : Drive) (b : Bpb) (v : Volume) where
  open drv use {Disk}

  -- An operation of the volume within a session.
  unfoldable pub on_fat : {A : Type 0} → Act (State Disk) A → Act (Session Disk) A
  on_fat m s = let (r, st) = m s.fat in (r, record s { fat = st })

  -- `if (!fs_is_ready()) return FALSE;`
  unfoldable pub fs_is_ready : Act (Session Disk) Unit
  fs_is_ready = gets (λ (s : Session Disk). s.ready) >>= require

  abbrev pub cwd : Act (Session Disk) ℕ
  cwd = gets (λ s. s.cwd_cluster)

  -- The end of `fs_cd`: the text of the new directory depends on that of the old one.
  unfoldable pub set_cwd : ℕ → (Str → Str) → Act (Session Disk) Unit
  set_cwd cluster path =
      modify
        (λ s. record s { cwd_cluster = cluster; cwd_path = (strcpy path_max (path s.cwd_path)).0 })

  -- The text of the new directory; the root's where it does not fit.
  unfoldable pub new_path : Str → Str → Str
  unfolding fs_normalize_path
  new_path base path = elim (fs_normalize_path base path path_max) [ some p ↦ p | none ↦ codes "/" ]

  unfoldable pub fs_cd : Str → Act (Session Disk) Unit
  unfolding new_path root_dir is_dot
  fs_cd path = do
    fs_is_ready
    if is_nil path || is_dot path
        then pure tt
        else if is_root_path path
        then set_cwd (root_dir b v) (λ base. codes "/")
        else do
          here ← cwd
          target ← on_fat (fat_resolve_dir drv b v here path)
          set_cwd target (λ base. new_path base path)

  unfoldable pub fs_get_cwd : ℕ → Session Disk → Str
  unfolding strcpy
  fs_get_cwd out_cap s =
      (strcpy out_cap (elim s.cwd_path [ [] ↦ codes "/" | c ∷ path ↦ c ∷ path ])).0

  -- The iterator over the directory of a cluster.
  unfoldable pub dir_at : ℕ → FsDir
  dir_at cluster =
      if not (is_fat32 v.fat_type) && cluster == 0
      then open_at drv b v true 0
      else open_at drv b v false cluster

  -- The root directory, as "/" opens it.
  unfoldable pub dir_at_root : FsDir
  dir_at_root =
      if is_fat32 v.fat_type then open_at drv b v false b.root_cluster else open_at drv b v true 0

  unfoldable pub fs_dir_open : Option Str → Act (Session Disk) FsDir
  unfolding dir_at dir_at_root is_dot
  fs_dir_open none = do fs_is_ready; here ← cwd; pure (dir_at here)
  fs_dir_open (some path) = do
    fs_is_ready
    here ← cwd
    if is_root_path path
        then pure dir_at_root
        else if is_dot path
        then pure (dir_at here)
        else do target ← on_fat (fat_resolve_dir drv b v here path); pure (dir_at target)

  -- The iterator comes back beside the entry or FALSE.
  unfoldable pub fs_dir_read : FsDir → Session Disk → (FsDir × Option Dirent) × Session Disk
  unfolding fat_fill_dirent
  fs_dir_read dir s =
      let ((dir', o), st) = fat_dir_read_raw drv b v dir s.fat in
      if s.ready
      then (
        (dir', elim o [ none ↦ none | some raw ↦ some (fat_fill_dirent raw) ]),
        record s { fat = st },
      )
      else ((dir, none), s)

  -- The entry of a path, and that of a name in a directory.
  unfoldable pub entry_of_path : Str → Act (Session Disk) Buffer
  entry_of_path path = do fs_is_ready; here ← cwd; on_fat (fat_resolve_path drv b v here path)

  unfoldable pub entry_in_dir : Str → Str → Act (Session Disk) Buffer
  entry_in_dir dir_name name = do
    fs_is_ready
    here ← cwd
    dir_cluster ← on_fat (fat_resolve_dir drv b v here dir_name)
    on_fat (fat_find_in_dir drv b v dir_cluster name)

  -- The end of `fs_read` and `fs_read_in_dir`.
  unfoldable pub read_entry : ℕ → Buffer → Act (Session Disk) (List ℕ)
  unfolding is_directory
  read_entry out_cap raw = do
    require (not (is_directory raw))
    on_fat (fat_read_file_entry drv b v raw out_cap)

  -- The end of `fs_is_executable` and `fs_is_executable_in_dir`.
  unfoldable pub exec_entry : Buffer → Act (Session Disk) Unit
  unfolding is_directory fat_is_exec_entry
  exec_entry raw = do require (not (is_directory raw)); require (fat_is_exec_entry raw)

  unfoldable pub fs_read : Str → ℕ → Act (Session Disk) (List ℕ)
  fs_read path out_cap = entry_of_path path >>= read_entry out_cap

  unfoldable pub fs_read_in_dir : Str → Str → ℕ → Act (Session Disk) (List ℕ)
  fs_read_in_dir dir_name name out_cap = entry_in_dir dir_name name >>= read_entry out_cap

  unfoldable pub fs_stat : Str → Act (Session Disk) Dirent
  unfolding fat_fill_dirent
  fs_stat path = entry_of_path path >>= λ raw. pure (fat_fill_dirent raw)

  unfoldable pub fs_stat_in_dir : Str → Str → Act (Session Disk) Dirent
  unfolding fat_fill_dirent
  fs_stat_in_dir dir_name name = entry_in_dir dir_name name >>= λ raw. pure (fat_fill_dirent raw)

  unfoldable pub fs_is_executable : Str → Act (Session Disk) Unit
  fs_is_executable path = entry_of_path path >>= exec_entry

  unfoldable pub fs_is_executable_in_dir : Str → Str → Act (Session Disk) Unit
  fs_is_executable_in_dir dir_name name = entry_in_dir dir_name name >>= exec_entry

  unfoldable pub fs_is_dir : Str → Act (Session Disk) Unit
  fs_is_dir path = do
    fs_is_ready
    here ← cwd
    cluster ← on_fat (fat_resolve_dir drv b v here path)
    pure tt

  unfoldable pub fs_sync : Act (Session Disk) Unit
  fs_sync = do fs_is_ready; on_fat (check (fat_flush_fat_sector drv v))

  -- *out_total_sectors, *out_sec_per_clus and *out_base_lba.
  unfoldable pub fs_get_volume_info32 : Act (Session Disk) (ℕ × ℕ × ℕ)
  fs_get_volume_info32 = do fs_is_ready; pure (v.total_sectors, b.sec_per_clus, v.base_lba)
