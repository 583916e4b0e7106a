-- ===== src/Dir/Free.antt =====
-- kernel/sima_fs.c, room in a directory: `fat_find_free_in_dir`, `fat_extend_dir_chain`, and
-- `fat_is_dir_empty`. A sector has 16 entries, which a loop looks at without a transfer.
use seolsem.Base.{
  ℕ, zero, suc, ◌+◌, ◌*◌, Bool, true, false, not, ◌&&◌, ◌||◌, Option, none, some, ltb, ◌==◌,
  if◌then◌else◌, u16, u32,
}
use seolsem.Fat.{Sector, Drive, Volume, State, fat_flush_fat_sector}
use seolsem.Fat.Alloc.{fat_alloc_chain, fat_free_chain}
use seolsem.Fat.Mount.{Bpb, is_fat32}
use seolsem.Fat.Table.{
  fat_cluster_is_valid, fat_next_cluster, fat_set_entry, fat_eoc_marker, is_fat12,
}
use seolsem.Act.{Act, pure, fail, call, require, check, ignore, rescue, ◌>>=◌, ◌>>◌}
use seolsem.Dir.{Loc, attr_lfn, fat_cluster_to_lba, load, store}
use seolsem.Dir.Search.{root_loc, cluster_loc, max_iter}

-- Where the scan for room stands: a place, with *out_is_end_marker, or the first deleted entry.
pub data Room : Type 0 where
  room_at : Loc → Bool → Room
  no_room_yet : Option Loc → Room

-- The end of the entries, at `here`: a deleted entry comes first.
unfoldable pub at_end : Option Loc → Loc → Room
at_end none here = room_at here true
at_end (some deleted) here = room_at deleted false

-- The deleted entry to remember.
unfoldable pub first_deleted : Option Loc → Bool → Loc → Option Loc
first_deleted (some deleted) is_deleted here = some deleted
first_deleted none is_deleted here = if is_deleted then some here else none

-- The entries of a sector from `i` on; `inside` is the test that the index has not run out.
unfoldable pub slot_loop : (ℕ → Loc) → (ℕ → Bool) → Sector → ℕ → ℕ → Option Loc → Room
unfolding at_end first_deleted
slot_loop loc_of inside s zero i deleted = no_room_yet deleted
slot_loop loc_of inside s (suc left) i deleted =
    let first = s (i * 32) in
    let deleted' = first_deleted deleted (first == 0xE5) (loc_of i) in
    let rest = slot_loop loc_of inside s left (i + 1) deleted' in
    if not (inside i)
    then no_room_yet deleted
    else if first == 0
    then at_end deleted (loc_of i)
    else rest

abbrev always : ℕ → Bool
always i = true

-- The entry is `.` or `..`, by its first bytes.
unfoldable pub is_dots : Sector → ℕ → Bool
is_dots s o = s o == b'.' && (s (o + 1) == b' ' || s (o + 1) == b'.' && s (o + 2) == b' ')

-- The entries of a sector in `fat_is_dir_empty`; `none` if all of them are to be skipped.
unfoldable pub empty_loop : Sector → ℕ → ℕ → Option Bool
unfolding is_dots
empty_loop s zero i = none
empty_loop s (suc left) i =
    let rest = empty_loop s left (i + 1) in
    if s (i * 32) == 0
    then some true
    else if s (i * 32) == 0xE5
    then rest
    else if s (i * 32 + 11) == attr_lfn
    then some false
    else if is_dots s (i * 32)
    then rest
    else some false

module _ (drv : Drive) (b : Bpb) (v : Volume) where
  open drv use {Disk}

  -- The scan goes on where there is no place yet.
  unfoldable pub or_further : Room → (Option Loc → Act (State Disk) Room) → Act (State Disk) Room
  or_further (room_at loc end) next = pure (room_at loc end)
  or_further (no_room_yet deleted) next = next deleted

  -- `left` sectors from sector `k` of those at `lba`.
  unfoldable pub sector_loop :
      (ℕ → ℕ → Loc) → (ℕ → ℕ → Bool) → ℕ → ℕ → ℕ → Option Loc → Act (State Disk) Room
  unfolding or_further slot_loop
  sector_loop loc_of inside lba zero k deleted = pure (no_room_yet deleted)
  sector_loop loc_of inside lba (suc left) k deleted = do
    s ← load drv b v (u32 (lba + k))
    or_further (slot_loop (loc_of k) (inside k) s 16 0 deleted)
        (λ deleted'. sector_loop loc_of inside lba left (k + 1) deleted')

  -- The result when all entries were seen: the deleted one, or FALSE.
  unfoldable pub settle : Room → Act (State Disk) (Loc × Bool)
  settle (room_at loc end) = pure (loc, end)
  settle (no_room_yet (some deleted)) = pure (deleted, false)
  settle (no_room_yet none) = fail

  unfoldable pub root_index_of : ℕ → ℕ → ℕ
  root_index_of k i = u16 (k * 16 + i)

  -- The clusters of a directory, with `left` of them to go.
  unfoldable pub room_chain : ℕ → ℕ → Option Loc → Act (State Disk) Room
  unfolding sector_loop or_further fat_cluster_to_lba
  room_chain zero cluster deleted = pure (no_room_yet deleted)
  room_chain (suc left) cluster deleted =
      if not (fat_cluster_is_valid v cluster) then pure (no_room_yet deleted) else do
        seen ←
            sector_loop (λ k i. cluster_loc drv b v cluster (k * 512 + i * 32)) (λ k. always)
              (fat_cluster_to_lba v cluster) b.sec_per_clus 0 deleted
        or_further seen λ deleted'. do
          next ← call (fat_next_cluster drv v cluster)
          if ltb next 2 then pure (no_room_yet deleted') else room_chain left next deleted'

  unfoldable pub fat_find_free_in_dir : ℕ → Act (State Disk) (Loc × Bool)
  unfolding sector_loop room_chain settle root_index_of max_iter
  fat_find_free_in_dir dir_cluster =
      if not (is_fat32 v.fat_type) && dir_cluster == 0
      then sector_loop (λ k i. root_loc drv b v (root_index_of k i))
          (λ k i. ltb (root_index_of k i) b.root_ents) v.root_start_lba (u16 v.root_dir_sectors) 0
          none
        >>= settle
      else do
        require (fat_cluster_is_valid v dir_cluster)
        seen ← room_chain (max_iter v + 1) dir_cluster none
        settle seen

  -- The last cluster of a chain, within `left` links.
  unfoldable pub last_loop : ℕ → ℕ → Act (State Disk) ℕ
  last_loop zero last_cluster = fail
  last_loop (suc left) last_cluster = do
    next_cluster ← call (fat_next_cluster drv v last_cluster)
    if ltb next_cluster 2 then pure last_cluster else last_loop left next_cluster

  -- `left` sectors of a cluster, from sector `k` on.
  unfoldable pub store_loop : (ℕ → Sector) → ℕ → ℕ → ℕ → Act (State Disk) Unit
  unfolding store
  store_loop sector_of lba zero k = pure tt
  store_loop sector_of lba (suc left) k = do
    store drv b v (u32 (lba + k)) (sector_of k)
    store_loop sector_of lba left (k + 1)

  -- `(void)fat_free_chain(c); (void)fat_flush_fat_sector(); return FALSE;`
  unfoldable pub drop_chain : {A : Type 0} → ℕ → Act (State Disk) A
  drop_chain cluster = do
    ignore (fat_free_chain drv v cluster)
    ignore (fat_flush_fat_sector drv v)
    fail

  -- The same, after the end mark is put back at the last cluster.
  unfoldable pub unlink : {A : Type 0} → ℕ → ℕ → Act (State Disk) A
  unfolding drop_chain
  unlink last_cluster new_cluster = do
    ignore (fat_set_entry drv v last_cluster (fat_eoc_marker v))
    drop_chain new_cluster

  unfoldable pub fat_extend_dir_chain : ℕ → Act (State Disk) Loc
  unfolding last_loop store_loop drop_chain unlink max_iter fat_cluster_to_lba
  fat_extend_dir_chain dir_cluster = do
    require (not (is_fat12 v.fat_type))
    require (fat_cluster_is_valid v dir_cluster)
    last_cluster ← last_loop (max_iter v + 1) dir_cluster
    new_cluster ← fat_alloc_chain drv v 1
    require (fat_cluster_is_valid v new_cluster)
    rescue (check (fat_set_entry drv v last_cluster new_cluster)) (drop_chain new_cluster)
    rescue (check (fat_set_entry drv v new_cluster (fat_eoc_marker v)))
        (unlink last_cluster new_cluster)
    rescue (store_loop (λ k o. 0) (fat_cluster_to_lba v new_cluster) b.sec_per_clus 0)
        (unlink last_cluster new_cluster)
    check (fat_flush_fat_sector drv v)
    pure (cluster_loc drv b v new_cluster 0)

  unfoldable pub or_later :
      Option Bool → Act (State Disk) (Option Bool) → Act (State Disk) (Option Bool)
  or_later (some answer) next = pure (some answer)
  or_later none next = next

  unfoldable pub empty_sectors : ℕ → ℕ → ℕ → Act (State Disk) (Option Bool)
  unfolding or_later empty_loop
  empty_sectors lba zero k = pure none
  empty_sectors lba (suc left) k = do
    s ← load drv b v (u32 (lba + k))
    or_later (empty_loop s 16 0) (empty_sectors lba left (k + 1))

  unfoldable pub empty_chain : ℕ → ℕ → Act (State Disk) (Option Bool)
  unfolding empty_sectors or_later fat_cluster_to_lba
  empty_chain zero cluster = fail
  empty_chain (suc left) cluster = if not (fat_cluster_is_valid v cluster) then fail else do
    seen ← empty_sectors (fat_cluster_to_lba v cluster) b.sec_per_clus 0
    or_later seen do next ← call (fat_next_cluster drv v cluster); empty_chain left next

  -- TRUE or FALSE; an error is FALSE.
  unfoldable pub fat_is_dir_empty : ℕ → Act (State Disk) Unit
  unfolding empty_chain max_iter
  fat_is_dir_empty dir_cluster = do
    answer ← empty_chain (max_iter v + 1) dir_cluster
    require (elim answer [ some is_so ↦ is_so | none ↦ false ])
