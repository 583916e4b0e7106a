-- ===== src/File/Write.antt =====
-- kernel/sima_fs.c, what changes a directory: `fat_write_file_in_dir`, `fat_create_dir_in_dir`,
-- `fat_init_directory_cluster`, `fat_write_end_marker_after_loc`. A failure after an allocation
-- gives the clusters back.
use seolsem.Base.{
  ℕ, ◌+◌, ◌-◌, ◌/◌, ◌^◌, Bool, true, false, not, ◌&&◌, Option, none, some, List, [], ◌∷◌, leb, ◌==◌,
  if◌then◌else◌, u32, length, Str,
}
use seolsem.Fat.{Sector, Drive, Volume, State, fat_flush_fat_sector}
use seolsem.Fat.Bytes.{Buffer}
use seolsem.Fat.Mount.{Bpb, is_fat32}
use seolsem.Fat.Table.{is_fat12}
use seolsem.Fat.Alloc.{fat_alloc_chain, fat_free_chain}
use seolsem.Act.{Act, pure, fail, lift, attempt, rescue, require, check, ignore, ◌>>=◌, ◌>>◌}
use seolsem.Dir.{
  Loc, patch, attr_directory, is_directory, fat_cluster_to_lba, fat_entry_cluster, cluster_bytes,
  fat_write_entry_at_loc, fat_dir_loc_next,
}
use seolsem.Dir.Search.{fat_find_in_dir_loc}
use seolsem.Dir.Free.{fat_find_free_in_dir, fat_extend_dir_chain, store_loop, drop_chain}
use seolsem.Dir.Resolve.{fat_is_root_cluster, dotdot}
use seolsem.File.{is_nil, fat_make_dir_entry, fat_write_cluster_chain}

abbrev pub attr_archive : ℕ
attr_archive = 0x20

-- Where the entry of a file goes: the place, whether it is the end of the directory, and the first
-- cluster of the file that is there now, or 0.
pub record Place : Type 0 where
  pub loc : Loc
  pub end_marker : Bool
  pub old_cluster : ℕ

-- The sectors of a new directory: `.` and `..` in the first one.
unfoldable pub dir_sector : Buffer → Buffer → ℕ → Sector
unfolding patch
dir_sector dot dotdot_entry k =
    if k == 0 then patch (patch (λ o. 0) 0 dot) 32 dotdot_entry else λ o. 0

module _ (drv : Drive) (b : Bpb) (v : Volume) where
  open drv use {Disk}

  -- The zero entry behind the new one, unless there is no next entry.
  unfoldable pub write_end : Option Loc → Act (State Disk) Unit
  unfolding fat_write_entry_at_loc
  write_end none = pure tt
  write_end (some next) = fat_write_entry_at_loc drv b v next (λ o. 0)

  unfoldable pub fat_write_end_marker_after_loc : Loc → Act (State Disk) Unit
  unfolding write_end fat_dir_loc_next
  fat_write_end_marker_after_loc loc = do
    next ← attempt (fat_dir_loc_next drv b v loc)
    write_end next

  -- A free entry, in a new cluster of the directory if there is none.
  unfoldable pub new_place : ℕ → Act (State Disk) (Loc × Bool)
  unfolding fat_find_free_in_dir fat_extend_dir_chain
  new_place dir_cluster = rescue (fat_find_free_in_dir drv b v dir_cluster) do
    require (not (not (is_fat32 v.fat_type) && dir_cluster == 0))
    loc ← fat_extend_dir_chain drv b v dir_cluster
    pure (loc, true)

  -- Where the entry of `name` goes.
  unfoldable pub place_of : ℕ → Option (Buffer × Loc) → Act (State Disk) Place
  unfolding new_place is_directory fat_entry_cluster
  place_of dir_cluster (some (existing, loc)) = do
    require (not (is_directory existing))
    pure (record { loc = loc; end_marker = false; old_cluster = fat_entry_cluster existing })
  place_of dir_cluster none = do
    (loc, end_marker) ← new_place dir_cluster
    pure (record { loc = loc; end_marker = end_marker; old_cluster = 0 })

  -- The clusters of the contents; 0 for an empty file.
  unfoldable pub new_contents : List ℕ → Act (State Disk) ℕ
  unfolding fat_write_cluster_chain drop_chain cluster_bytes
  new_contents bytes = if is_nil bytes then pure 0 else do
    let cluster_count = u32 (length bytes + (cluster_bytes v - 1)) / 2 ^ (v.spc_shift + 9)
    new_cluster ← fat_alloc_chain drv v cluster_count
    rescue (fat_write_cluster_chain drv b v new_cluster bytes) (drop_chain drv b v new_cluster)
    pure new_cluster

  -- `if (c >= 2) (void)fat_free_chain(c); (void)fat_flush_fat_sector(); return FALSE;`
  unfoldable pub drop_new : {A : Type 0} → ℕ → Act (State Disk) A
  unfolding drop_chain
  drop_new new_cluster =
      if leb 2 new_cluster
      then drop_chain drv b v new_cluster
      else do ignore (fat_flush_fat_sector drv v); fail

  -- The old clusters, once the new entry is on the disk.
  unfoldable pub drop_old : ℕ → Act (State Disk) Unit
  drop_old old_cluster =
      if not (leb 2 old_cluster)
      then pure tt
      else do check (fat_free_chain drv v old_cluster); check (fat_flush_fat_sector drv v)

  -- The new entry, with the end of the directory behind it, and the FAT on the disk.
  unfoldable pub put_entry :
      Place → Str → ℕ → ℕ → ℕ → (Act (State Disk) Unit) → Act (State Disk) Unit
  unfolding fat_write_end_marker_after_loc fat_write_entry_at_loc fat_make_dir_entry
  put_entry place name attr cluster size undo = do
    entry ← rescue (lift (fat_make_dir_entry name attr cluster size)) (undo >> fail)
    rescue (fat_write_entry_at_loc drv b v place.loc entry) undo
    if place.end_marker then fat_write_end_marker_after_loc place.loc else pure tt
    check (fat_flush_fat_sector drv v)

  unfoldable pub fat_write_file_in_dir : ℕ → Str → List ℕ → Act (State Disk) Unit
  unfolding place_of new_contents drop_new put_entry drop_old fat_find_in_dir_loc
  fat_write_file_in_dir dir_cluster name bytes = do
    require (not (is_nil name))
    require (not (is_fat12 v.fat_type))
    existing ← attempt (fat_find_in_dir_loc drv b v dir_cluster name)
    place ← place_of dir_cluster existing
    new_cluster ← new_contents bytes
    put_entry place name attr_archive new_cluster (length bytes) (drop_new new_cluster)
    drop_old place.old_cluster

  unfoldable pub fat_init_directory_cluster : ℕ → ℕ → Act (State Disk) Unit
  unfolding fat_make_dir_entry store_loop dir_sector fat_is_root_cluster fat_cluster_to_lba
  fat_init_directory_cluster dir_cluster parent_cluster = do
    require (leb 2 dir_cluster)
    let above = if fat_is_root_cluster b v parent_cluster then 0 else parent_cluster
    dot ← lift (fat_make_dir_entry (b'.' ∷ []) attr_directory dir_cluster 0)
    dotdot_entry ← lift (fat_make_dir_entry dotdot attr_directory above 0)
    store_loop drv b v (dir_sector dot dotdot_entry) (fat_cluster_to_lba v dir_cluster)
        b.sec_per_clus 0

  abbrev absent : Option (Buffer × Loc) → Bool
  absent none = true
  absent (some found) = false

  -- The cluster that was allocated becomes the directory, which its parent then names.
  unfoldable pub in_new_cluster : Loc → Bool → ℕ → Str → ℕ → Act (State Disk) Unit
  unfolding fat_init_directory_cluster drop_chain put_entry
  in_new_cluster loc end_marker parent_cluster name dir_cluster = do
    require (leb 2 dir_cluster)
    rescue (fat_init_directory_cluster dir_cluster parent_cluster) (drop_chain drv b v dir_cluster)
    put_entry (record { loc = loc; end_marker = end_marker; old_cluster = 0 }) name attr_directory
        dir_cluster 0 (drop_chain drv b v dir_cluster)

  unfoldable pub fat_create_dir_in_dir : ℕ → Str → Act (State Disk) Unit
  unfolding new_place in_new_cluster fat_find_in_dir_loc
  fat_create_dir_in_dir parent_cluster name = do
    require (not (is_nil name))
    require (not (is_fat12 v.fat_type))
    existing ← attempt (fat_find_in_dir_loc drv b v parent_cluster name)
    require (absent existing)
    (loc, end_marker) ← new_place parent_cluster
    dir_cluster ← fat_alloc_chain drv v 1
    in_new_cluster loc end_marker parent_cluster name dir_cluster
