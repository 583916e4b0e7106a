-- ===== src/Dir/Resolve.antt =====
-- kernel/sima_fs.c, paths to clusters and entries: `fat_is_root_cluster`, `fat_parent_cluster`,
-- `fat_resolve_path`, `fat_resolve_dir`, `fat_resolve_parent_dir`. A cursor is the rest of the path;
-- a round of a loop takes at least one byte of it, so the length of the path bounds the rounds.
use seolsem.Base.{
  ℕ, zero, suc, ◌+◌, Bool, true, false, not, ◌&&◌, Option, none, some, [], ◌∷◌, leb, ◌==◌,
  if◌then◌else◌, length, Str,
}
use seolsem.Fat.{Drive, Volume, State}
use seolsem.Fat.Bytes.{Buffer}
use seolsem.Fat.Mount.{Bpb, is_fat32}
use seolsem.Fat.Table.{fat_cluster_is_valid}
use seolsem.FilePath.{
  name_max, fat_next_segment, fat_skip_separators, is_dot, is_dotdot, starts_absolute,
}
use seolsem.Act.{Act, pure, fail, lift, require, ◌>>=◌, ◌>>◌}
use seolsem.Dir.{fat_entry_cluster, is_directory}
use seolsem.Dir.Find.{fat_find_in_dir}

module _ (b : Bpb) (v : Volume) where
  unfoldable pub root_dir : ℕ
  root_dir = if is_fat32 v.fat_type then b.root_cluster else 0

  unfoldable pub fat_is_root_cluster : ℕ → Bool
  fat_is_root_cluster cluster =
      if is_fat32 v.fat_type then cluster == b.root_cluster else cluster == 0

  unfoldable pub start_dir : ℕ → Str → ℕ
  unfolding root_dir
  start_dir cwd path = if starts_absolute path then root_dir else cwd

  -- The cluster of `..`; 0 stands for the root of a FAT32 volume.
  unfoldable pub parent_of : Buffer → ℕ
  parent_of raw =
      let parent = fat_entry_cluster raw in
      if parent == 0 && is_fat32 v.fat_type then b.root_cluster else parent

abbrev pub dotdot : Str
dotdot = b'.' ∷ b'.' ∷ []

module _ (drv : Drive) (b : Bpb) (v : Volume) where
  open drv use {Disk}

  unfoldable pub fat_parent_cluster : ℕ → Act (State Disk) ℕ
  unfolding fat_is_root_cluster root_dir parent_of fat_find_in_dir
  fat_parent_cluster cluster = if fat_is_root_cluster b v cluster then pure (root_dir b v) else do
    raw ← fat_find_in_dir drv b v cluster dotdot
    require (is_directory raw)
    pure (parent_of b v raw)

  -- The directory of an entry on the way, in `fat_resolve_path` and `fat_resolve_parent_dir`.
  unfoldable pub enter_entry : Buffer → Act (State Disk) ℕ
  unfolding is_directory fat_entry_cluster
  enter_entry raw = do
    require (is_directory raw)
    require (not (fat_entry_cluster raw == 0 && is_fat32 v.fat_type))
    pure (fat_entry_cluster raw)

  -- The same in `fat_resolve_dir`.
  unfoldable pub target_of : Buffer → Act (State Disk) ℕ
  unfolding is_directory fat_entry_cluster
  target_of raw = do
    require (is_directory raw)
    let target = fat_entry_cluster raw
    require (if is_fat32 v.fat_type then fat_cluster_is_valid v target else leb 2 target)
    pure target

  abbrev at_nul : Str → Bool
  at_nul [] = true
  at_nul (c ∷ cursor) = false

  -- A segment other than `.` and `..` in `fat_resolve_path`; `next` is the loop at a directory.
  unfoldable pub path_entry :
      ℕ → Str → Str → (ℕ → Act (State Disk) Buffer) → Act (State Disk) Buffer
  unfolding enter_entry fat_find_in_dir
  path_entry current segment cursor next = do
    raw ← fat_find_in_dir drv b v current segment
    if at_nul cursor then pure raw else do entered ← enter_entry raw; next entered

  unfoldable pub path_loop : ℕ → Str → ℕ → Act (State Disk) Buffer
  unfolding path_entry fat_parent_cluster
  path_loop zero cursor current = fail
  path_loop (suc left) cursor current = do
    (segment, rest) ← lift (fat_next_segment cursor name_max)
    let cursor' = fat_skip_separators rest
    if is_dot segment
        then path_loop left cursor' current
        else if is_dotdot segment
        then fat_parent_cluster current >>= (λ parent. path_loop left cursor' parent)
        else path_entry current segment cursor' λ entered. path_loop left cursor' entered

  unfoldable pub fat_resolve_path : ℕ → Str → Act (State Disk) Buffer
  unfolding path_loop start_dir
  fat_resolve_path cwd path = path_loop (length path + 1) path (start_dir b v cwd path)

  -- A round of the loop of `fat_resolve_dir`, which ends at any FALSE of `fat_next_segment`; `next`
  -- is the rest of the loop.
  unfoldable pub dir_segment :
      ℕ → Option (Str × Str) → (Str → ℕ → Act (State Disk) ℕ) → Act (State Disk) ℕ
  unfolding target_of fat_parent_cluster fat_find_in_dir
  dir_segment current none next = pure current
  dir_segment current (some (segment, rest)) next =
      let cursor = fat_skip_separators rest in
      if is_dot segment
      then next cursor current
      else if is_dotdot segment
      then fat_parent_cluster current >>= next cursor
      else do
        raw ← fat_find_in_dir drv b v current segment
        target ← target_of raw
        next cursor target

  unfoldable pub dir_loop : ℕ → Str → ℕ → Act (State Disk) ℕ
  unfolding dir_segment
  dir_loop zero cursor current = pure current
  dir_loop (suc left) cursor current =
      dir_segment current (fat_next_segment cursor name_max)
        (λ cursor' target. dir_loop left cursor' target)

  unfoldable pub fat_resolve_dir : ℕ → Str → Act (State Disk) ℕ
  unfolding dir_loop start_dir
  fat_resolve_dir cwd [] = pure cwd
  fat_resolve_dir cwd (c ∷ path) =
      dir_loop (length path + 2) (fat_skip_separators (c ∷ path)) (start_dir b v cwd (c ∷ path))

  unfoldable pub parent_loop : ℕ → Str → ℕ → Act (State Disk) (ℕ × Str)
  unfolding enter_entry fat_parent_cluster fat_find_in_dir
  parent_loop zero cursor current = fail
  parent_loop (suc left) cursor current = do
    (segment, rest) ← lift (fat_next_segment cursor name_max)
    let cursor' = fat_skip_separators rest
    if at_nul cursor'
        then if is_dot segment
          then fail
          else if is_dotdot segment
          then fail
          else pure (current, segment)
        else if is_dot segment
        then parent_loop left cursor' current
        else if is_dotdot segment
        then fat_parent_cluster current >>= (λ parent. parent_loop left cursor' parent)
        else do
          raw ← fat_find_in_dir drv b v current segment
          entered ← enter_entry raw
          parent_loop left cursor' entered

  -- The directory of the last segment, and the segment, which fits the 13 bytes of `out_name`.
  unfoldable pub fat_resolve_parent_dir : ℕ → Str → Act (State Disk) (ℕ × Str)
  unfolding parent_loop start_dir
  fat_resolve_parent_dir cwd path =
      parent_loop (length path + 1) (fat_skip_separators path) (start_dir b v cwd path)
