-- ===== src/Fs/Change.antt =====
-- kernel/sima_fs.c, the functions that change the volume: `fs_create_dir`, `fs_write`,
-- `fs_write_in_dir`, `fs_delete`, `fs_delete_dir`.
use seolsem.Base.{ℕ, not, List, leb, ◌==◌, if◌then◌else◌, Str}
use seolsem.Fat.{Drive, Volume, State, fat_flush_fat_sector}
use seolsem.Fat.Bytes.{Buffer}
use seolsem.Fat.Mount.{Bpb}
use seolsem.Fat.Alloc.{fat_free_chain}
use seolsem.Act.{Act, pure, require, check, ◌>>=◌, ◌>>◌}
use seolsem.Dir.{
  Loc, is_directory, fat_entry_cluster, fat_read_entry_at_loc, fat_write_entry_at_loc,
}
use seolsem.Dir.Search.{fat_find_in_dir_loc}
use seolsem.Dir.Free.{fat_is_dir_empty}
use seolsem.Dir.Resolve.{fat_is_root_cluster, fat_resolve_dir, fat_resolve_parent_dir}
use seolsem.File.Write.{fat_write_file_in_dir, fat_create_dir_in_dir}
use seolsem.Fs.{Session, on_fat, fs_is_ready, cwd}

-- The entry as deleted.
unfoldable pub deleted : Buffer → Buffer
deleted raw i = if i == 0 then 0xE5 else raw i

module _ (drv : Drive) (b : Bpb) (v : Volume) where
  open drv use {Disk}

  -- The directory and the last name of a path, of an operation that changes the directory.
  unfoldable pub parent_and_leaf : Str → Act (Session Disk) (ℕ × Str)
  parent_and_leaf path = do
    fs_is_ready drv b v
    here ← cwd drv b v
    on_fat drv b v (fat_resolve_parent_dir drv b v here path)

  unfoldable pub fs_create_dir : Str → Act (Session Disk) Unit
  fs_create_dir path = do
    (dir_cluster, leaf) ← parent_and_leaf path
    on_fat drv b v (fat_create_dir_in_dir drv b v dir_cluster leaf)

  unfoldable pub fs_write : Str → List ℕ → Act (Session Disk) Unit
  fs_write path bytes = do
    (dir_cluster, leaf) ← parent_and_leaf path
    on_fat drv b v (fat_write_file_in_dir drv b v dir_cluster leaf bytes)

  unfoldable pub fs_write_in_dir : Str → Str → List ℕ → Act (Session Disk) Unit
  fs_write_in_dir dir_name name bytes = do
    fs_is_ready drv b v
    here ← cwd drv b v
    dir_cluster ← on_fat drv b v (fat_resolve_dir drv b v here dir_name)
    on_fat drv b v (fat_write_file_in_dir drv b v dir_cluster name bytes)

  -- The entry at a place becomes a deleted one, on the disk.
  unfoldable pub delete_entry : Loc → Act (State Disk) Unit
  unfolding deleted
  delete_entry loc = do
    raw ← fat_read_entry_at_loc drv b v loc
    fat_write_entry_at_loc drv b v loc (deleted raw)
    check (fat_flush_fat_sector drv v)

  unfoldable pub free_and_flush : ℕ → Act (State Disk) Unit
  free_and_flush cluster = do
    check (fat_free_chain drv v cluster)
    check (fat_flush_fat_sector drv v)

  unfoldable pub fs_delete : Str → Act (Session Disk) Unit
  unfolding is_directory
  fs_delete path = do
    (dir_cluster, leaf) ← parent_and_leaf path
    (raw, loc) ← on_fat drv b v (fat_find_in_dir_loc drv b v dir_cluster leaf)
    require (not (is_directory raw))
    on_fat drv b v (delete_entry loc)
    if leb 2 (fat_entry_cluster raw)
        then on_fat drv b v (free_and_flush (fat_entry_cluster raw))
        else pure tt

  unfoldable pub fs_delete_dir : Str → Act (Session Disk) Unit
  fs_delete_dir path = do
    (parent_cluster, leaf) ← parent_and_leaf path
    (raw, loc) ← on_fat drv b v (fat_find_in_dir_loc drv b v parent_cluster leaf)
    require (is_directory raw)
    let dir_cluster = fat_entry_cluster raw
    require (leb 2 dir_cluster)
    require (not (fat_is_root_cluster b v dir_cluster))
    here ← cwd drv b v
    require (not (dir_cluster == here))
    on_fat drv b v (fat_is_dir_empty drv b v dir_cluster)
    on_fat drv b v (delete_entry loc)
    on_fat drv b v (free_and_flush dir_cluster)
