-- ===== src/Dir/Find.antt =====
-- kernel/sima_fs.c, reading a directory entry by entry: `fat_dir_read_raw` and `fat_find_in_dir`, on
-- fuel. The iterator is changed by a FALSE too, so it comes back beside the result.
use seolsem.Base.{
  ℕ, zero, suc, ◌+◌, ◌*◌, Bool, true, false, not, ◌&&◌, Option, none, some, ltb, leb, ◌==◌,
  if◌then◌else◌, u16, u32, Str,
}
use seolsem.Fat.{Drive, Volume, State}
use seolsem.Fat.Bytes.{Buffer}
use seolsem.Fat.Mount.{Bpb, is_fat32}
use seolsem.Fat.Name.{fat_names_equal}
use seolsem.Fat.Table.{fat_cluster_is_valid, fat_max_cluster, fat_next_cluster}
use seolsem.Act.{Act}
use seolsem.Dir.{
  FsDir, attr_of, attr_lfn, name_of, cluster_bytes, fat_read_root_entry, fat_read_cluster_entry,
}

-- The tests on an entry that was read.
pub data Verdict : Type 0 where
  end_of_dir skipped live : Verdict

unfoldable pub verdict : Buffer → Verdict
verdict raw =
    if raw 0 == 0
    then end_of_dir
    else if raw 0 == 0xE5
    then skipped
    else if attr_of raw == attr_lfn
    then skipped
    else live

unfoldable pub guard_limit : Volume → ℕ
guard_limit v =
    let m = if ltb 64 (fat_max_cluster v) then 64 else fat_max_cluster v in if ltb m 8 then 8 else m

-- A directory that is not a chain of clusters.
unfoldable pub is_fixed : Volume → FsDir → Bool
is_fixed v dir = dir.root && not (is_fat32 v.fat_type)

-- More rounds than any reading of a directory takes.
unfoldable pub rounds : Bpb → Volume → ℕ
rounds b v = b.root_ents + (guard_limit v + 2) * (cluster_bytes v + 32) + 1

abbrev failed : FsDir → FsDir
failed dir = record dir { error = true }

module _ (drv : Drive) (b : Bpb) (v : Volume) where
  open drv use {Disk}

  -- What comes of a reading: the iterator, and the entry or FALSE.
  abbrev pub Outcome : Type 0
  Outcome = (FsDir × Option Buffer) × State Disk

  -- After the read of an entry; `next` is the iterator behind it.
  unfoldable pub entry_read : FsDir → FsDir → Option Buffer × State Disk → Outcome
  entry_read dir next (none, st) = ((failed dir, none), st)
  entry_read dir next (some raw, st) = ((next, some raw), st)

  unfoldable pub root_turn : FsDir → State Disk → Outcome
  unfolding entry_read
  root_turn dir st =
      if leb b.root_ents dir.root_index
      then ((dir, none), st)
      else entry_read dir (record dir { root_index = u16 (dir.root_index + 1) })
          (fat_read_root_entry drv b v dir.root_index st)

  unfoldable pub cluster_turn : FsDir → State Disk → Outcome
  unfolding entry_read
  cluster_turn dir st =
      entry_read dir (record dir { offset = u32 (dir.offset + 32) })
        (fat_read_cluster_entry drv b v dir.cur_cluster dir.offset st)

  -- At the end of a cluster, where `fat_next_cluster` returned `next_cluster`.
  unfoldable pub crossed : FsDir → ℕ × State Disk → Outcome
  unfolding cluster_turn guard_limit
  crossed dir (next_cluster, st) =
      let dir₀ = record dir { offset = 0 } in
      let dir₁ = record dir₀ {
        cur_cluster = next_cluster;
        guard_clusters = u32 (dir.guard_clusters + 1);
      } in
      if ltb next_cluster 2
      then ((dir₀, none), st)
      else if next_cluster == dir.cur_cluster
      then ((failed dir₀, none), st)
      else if ltb (guard_limit v) dir₁.guard_clusters
      then ((failed dir₁, none), st)
      else cluster_turn dir₁ st

  unfoldable pub chain_turn : FsDir → State Disk → Outcome
  unfolding cluster_turn crossed cluster_bytes
  chain_turn dir st =
      if not (fat_cluster_is_valid v dir.cur_cluster)
      then ((failed dir, none), st)
      else if leb (cluster_bytes v) dir.offset
      then crossed dir (fat_next_cluster drv v dir.cur_cluster st)
      else cluster_turn dir st

  -- One round of the loop, up to the tests on the entry.
  unfoldable pub turn : FsDir → State Disk → Outcome
  unfolding root_turn chain_turn is_fixed
  turn dir st = if is_fixed v dir then root_turn dir st else chain_turn dir st

  -- What the tests on an entry lead to; `next` is the rest of the loop.
  unfoldable pub judge : Outcome → (FsDir → State Disk → Outcome) → Outcome
  unfolding verdict
  judge ((dir, none), st) next = ((dir, none), st)
  judge ((dir, some raw), st) next = elim (verdict raw) [
    | end_of_dir ↦ ((dir, none), st)
    | skipped ↦ next dir st
    | live ↦ ((dir, some raw), st)
  ]

  unfoldable pub read_loop : ℕ → FsDir → State Disk → Outcome
  unfolding turn judge
  read_loop zero dir st = ((dir, none), st)
  read_loop (suc left) dir st = judge (turn dir st) (λ dir' st'. read_loop left dir' st')

  unfoldable pub fat_dir_read_raw : FsDir → State Disk → Outcome
  unfolding read_loop rounds
  fat_dir_read_raw dir st = if dir.error then ((dir, none), st) else read_loop (rounds b v) dir st

  -- The loop of `fat_find_in_dir`, after one more reading.
  unfoldable pub match_or :
      Str → Outcome → (FsDir → State Disk → Option Buffer × State Disk) → Option Buffer × State Disk
  match_or name ((dir, none), st) next = (none, st)
  match_or name ((dir, some raw), st) next = elim (fat_names_equal (name_of raw) name) [
    | true ↦ (some raw, st)
    | false ↦ next dir st
  ]

  unfoldable pub find_loop : ℕ → Str → FsDir → State Disk → Option Buffer × State Disk
  unfolding match_or
  find_loop zero name dir st = (none, st)
  find_loop (suc left) name dir st =
      match_or name (fat_dir_read_raw dir st) (λ dir' st'. find_loop left name dir' st')

  abbrev pub open_at : Bool → ℕ → FsDir
  open_at root cluster = record {
    cluster = cluster;
    cur_cluster = cluster;
    offset = 0;
    root_index = 0;
    root = root;
    guard_clusters = 0;
    error = false;
  }

  -- The iterator over the directory at a cluster, 0 for a fixed root.
  unfoldable pub start_of : ℕ → FsDir
  start_of dir_cluster =
      if not (is_fat32 v.fat_type) && dir_cluster == 0
      then open_at true 0
      else open_at false dir_cluster

  unfoldable pub fat_find_in_dir : ℕ → Str → Act (State Disk) Buffer
  unfolding find_loop start_of rounds
  fat_find_in_dir dir_cluster name st = find_loop (rounds b v) name (start_of dir_cluster) st
