-- ===== src/Dir/Lookups.antt =====
-- kernel/sima_fs.c, the searches and the path walks over directories, and the reading of a file:
-- what they leave of the table that the kernel sees.
use seolsem.Base.{ℕ, zero, suc, ◌+◌, Bool, Option, none, some, [], ◌∷◌, Str}
use seolsem.Fat.{Drive, Volume, State}
use seolsem.Fat.Bytes.{Buffer}
use seolsem.Fat.Cache.{IsLaidOut}
use seolsem.Fat.Entry.{Covers}
use seolsem.Fat.Mount.{Bpb}
use seolsem.Act.{Act}
use seolsem.Act.Keeps.{Keeps}
use seolsem.Dir.{Loc}
use seolsem.Dir.Find.{Verdict, end_of_dir, skipped, live}
use seolsem.Dir.Search.{
  on_verdict, search_loop, search_cluster, or_next, search_chain, search_root, fat_find_in_dir_loc,
}
use seolsem.Dir.Free.{
  Room, room_at, no_room_yet, or_further, sector_loop, settle, room_chain, fat_find_free_in_dir,
  last_loop, or_later, empty_sectors, empty_chain, fat_is_dir_empty,
}
use seolsem.Dir.Resolve.{
  fat_parent_cluster, enter_entry, target_of, path_entry, path_loop, fat_resolve_path, dir_segment,
  dir_loop, fat_resolve_dir, parent_loop, fat_resolve_parent_dir,
}
use seolsem.Dir.Reads.{
  Same, same_rules, fat_read_root_entry-Same, fat_read_cluster_entry-Same, fat_find_in_dir-Same,
}
use seolsem.File.{read_sectors, read_loop, fat_read_file_entry}

module _ (drv : Drive) (b : Bpb) (v : Volume) (laid : IsLaidOut v) (covers : Covers v)
    (st₀ : State drv.Disk) where
  open drv use {Disk}

  abbrev Holds : {A : Type 0} → Act (State Disk) A → Type 0
  Holds m = Keeps (Same drv b v laid covers st₀) m

  on_verdict-Same :
      {A : Type 0} (w : Verdict) (m n : Act (State Disk) A)
      → Holds m
      → Holds n
      → Holds (on_verdict drv b v w m n)
  unfolding on_verdict
  on_verdict-Same end_of_dir m n h k = search same_rules
  on_verdict-Same skipped m n h k = h
  on_verdict-Same live m n h k = k

  search_loop-Same :
      (read : ℕ → Act (State Disk) Buffer) (loc_of : ℕ → Loc) (name : Str)
      → ((i : ℕ) → Holds (read i))
      → (left i : ℕ) → Holds (search_loop drv b v read loc_of name left i)
  unfolding search_loop
  search_loop-Same read loc_of name h zero i = search same_rules
  search_loop-Same read loc_of name h (suc left) i =
      search (same_rules, on_verdict-Same, h, search_loop-Same read loc_of name h left)

  or_next-Same :
      (c : ℕ) (found : Option (Buffer × Loc)) (rest : ℕ → Act (State Disk) (Buffer × Loc))
      → ((next : ℕ) → Holds (rest next))
      → Holds (or_next drv b v c found rest)
  unfolding or_next
  or_next-Same c (some found) rest h = search same_rules
  or_next-Same c none rest h = search (same_rules, h)

  search_chain-Same : (name : Str) (left c : ℕ) → Holds (search_chain drv b v name left c)
  unfolding search_chain search_cluster
  search_chain-Same name zero c = search same_rules
  search_chain-Same name (suc left) c = search (
    same_rules,
    search_loop-Same,
    fat_read_cluster_entry-Same,
    or_next-Same,
    search_chain-Same name left,
  )

  pub fat_find_in_dir_loc-Same : (c : ℕ) (name : Str) → Holds (fat_find_in_dir_loc drv b v c name)
  unfolding fat_find_in_dir_loc search_root
  fat_find_in_dir_loc-Same c name =
      search (same_rules, search_loop-Same, fat_read_root_entry-Same, search_chain-Same)

  or_further-Same :
      (r : Room) (next : Option Loc → Act (State Disk) Room)
      → ((o : Option Loc) → Holds (next o))
      → Holds (or_further drv b v r next)
  unfolding or_further
  or_further-Same (room_at loc end) next h = search same_rules
  or_further-Same (no_room_yet deleted) next h = h deleted

  sector_loop-Same :
      (loc_of : ℕ → ℕ → Loc) (inside : ℕ → ℕ → Bool) (lba left k : ℕ) (deleted : Option Loc)
      → Holds (sector_loop drv b v loc_of inside lba left k deleted)
  unfolding sector_loop
  sector_loop-Same loc_of inside lba zero k deleted = search same_rules
  sector_loop-Same loc_of inside lba (suc left) k deleted =
      search (same_rules, or_further-Same, sector_loop-Same loc_of inside lba left (k + 1))

  settle-Same : (r : Room) → Holds (settle drv b v r)
  unfolding settle
  settle-Same (room_at loc end) = search same_rules
  settle-Same (no_room_yet (some deleted)) = search same_rules
  settle-Same (no_room_yet none) = search same_rules

  room_chain-Same : (left c : ℕ) (deleted : Option Loc) → Holds (room_chain drv b v left c deleted)
  unfolding room_chain
  room_chain-Same zero c deleted = search same_rules
  room_chain-Same (suc left) c deleted =
      search (same_rules, or_further-Same, sector_loop-Same, room_chain-Same left) depth 12

  pub fat_find_free_in_dir-Same : (c : ℕ) → Holds (fat_find_free_in_dir drv b v c)
  unfolding fat_find_free_in_dir
  fat_find_free_in_dir-Same c = search (same_rules, sector_loop-Same, room_chain-Same, settle-Same)

  pub last_loop-Same : (left c : ℕ) → Holds (last_loop drv b v left c)
  unfolding last_loop
  last_loop-Same zero c = search same_rules
  last_loop-Same (suc left) c = search (same_rules, last_loop-Same left)

  or_later-Same :
      (o : Option Bool) (m : Act (State Disk) (Option Bool))
      → Holds m
      → Holds (or_later drv b v o m)
  unfolding or_later
  or_later-Same (some answer) m h = search same_rules
  or_later-Same none m h = h

  empty_sectors-Same : (lba left k : ℕ) → Holds (empty_sectors drv b v lba left k)
  unfolding empty_sectors
  empty_sectors-Same lba zero k = search same_rules
  empty_sectors-Same lba (suc left) k =
      search (same_rules, or_later-Same, empty_sectors-Same lba left)

  empty_chain-Same : (left c : ℕ) → Holds (empty_chain drv b v left c)
  unfolding empty_chain
  empty_chain-Same zero c = search same_rules
  empty_chain-Same (suc left) c =
      search (same_rules, or_later-Same, empty_sectors-Same, empty_chain-Same left) depth 12

  pub fat_is_dir_empty-Same : (c : ℕ) → Holds (fat_is_dir_empty drv b v c)
  unfolding fat_is_dir_empty
  fat_is_dir_empty-Same c = search (same_rules, empty_chain-Same)

  fat_parent_cluster-Same : (c : ℕ) → Holds (fat_parent_cluster drv b v c)
  unfolding fat_parent_cluster
  fat_parent_cluster-Same c = search (same_rules, fat_find_in_dir-Same)

  enter_entry-Same : (raw : Buffer) → Holds (enter_entry drv b v raw)
  unfolding enter_entry
  enter_entry-Same raw = search same_rules

  target_of-Same : (raw : Buffer) → Holds (target_of drv b v raw)
  unfolding target_of
  target_of-Same raw = search same_rules

  ruleset walk_rules =
      (same_rules, fat_find_in_dir-Same, fat_parent_cluster-Same, enter_entry-Same, target_of-Same)

  path_loop-Same : (left : ℕ) (cursor : Str) (c : ℕ) → Holds (path_loop drv b v left cursor c)
  unfolding path_loop path_entry
  path_loop-Same zero cursor c = search same_rules
  path_loop-Same (suc left) cursor c = search (walk_rules, path_loop-Same left) depth 12

  pub fat_resolve_path-Same : (cwd : ℕ) (path : Str) → Holds (fat_resolve_path drv b v cwd path)
  unfolding fat_resolve_path
  fat_resolve_path-Same cwd path = search path_loop-Same

  dir_segment-Same :
      (c : ℕ) (o : Option (Str × Str)) (next : Str → ℕ → Act (State Disk) ℕ)
      → ((cursor : Str) (target : ℕ) → Holds (next cursor target))
      → Holds (dir_segment drv b v c o next)
  unfolding dir_segment
  dir_segment-Same c none next h = search same_rules
  dir_segment-Same c (some (segment, rest)) next h = search (walk_rules, h) depth 12

  dir_loop-Same : (left : ℕ) (cursor : Str) (c : ℕ) → Holds (dir_loop drv b v left cursor c)
  unfolding dir_loop
  dir_loop-Same zero cursor c = search same_rules
  dir_loop-Same (suc left) cursor c = dir_segment-Same c _ _ (dir_loop-Same left)

  pub fat_resolve_dir-Same : (cwd : ℕ) (path : Str) → Holds (fat_resolve_dir drv b v cwd path)
  unfolding fat_resolve_dir
  fat_resolve_dir-Same cwd [] = search same_rules
  fat_resolve_dir-Same cwd (c ∷ path) = search dir_loop-Same

  parent_loop-Same : (left : ℕ) (cursor : Str) (c : ℕ) → Holds (parent_loop drv b v left cursor c)
  unfolding parent_loop
  parent_loop-Same zero cursor c = search same_rules
  parent_loop-Same (suc left) cursor c = search (walk_rules, parent_loop-Same left) depth 12

  pub fat_resolve_parent_dir-Same :
      (cwd : ℕ) (path : Str) → Holds (fat_resolve_parent_dir drv b v cwd path)
  unfolding fat_resolve_parent_dir
  fat_resolve_parent_dir-Same cwd path = search parent_loop-Same

  read_sectors-Same : (lba left k : ℕ) → Holds (read_sectors drv b v lba left k)
  unfolding read_sectors
  read_sectors-Same lba zero k = search same_rules
  read_sectors-Same lba (suc left) k = search (same_rules, read_sectors-Same lba left)

  read_loop-Same : (left c size room : ℕ) → Holds (read_loop drv b v left c size room)
  unfolding read_loop
  read_loop-Same zero c size room = search same_rules
  read_loop-Same (suc left) c size room =
      search (same_rules, read_sectors-Same, read_loop-Same left) depth 12

  pub fat_read_file_entry-Same :
      (raw : Buffer) (out_cap : ℕ) → Holds (fat_read_file_entry drv b v raw out_cap)
  unfolding fat_read_file_entry
  fat_read_file_entry-Same raw out_cap = search (same_rules, read_loop-Same)
