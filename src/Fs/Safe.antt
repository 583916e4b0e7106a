-- ===== src/Fs/Safe.antt =====
-- The functions of sima_fs.h that change the volume: no call brings the cache of the FAT out of order.
use seolsem.Base.{ℕ, List, [], ◌∷◌, Str}
use seolsem.Fat.{Drive, Volume, State, fat_flush_fat_sector}
use seolsem.Fat.Bytes.{Buffer}
use seolsem.Fat.Cache.{IsCoherent, SameTable}
use seolsem.Fat.Entry.{Covers}
use seolsem.Fat.Geometry.{IsInOrder}
use seolsem.Fat.Mount.{Bpb}
use seolsem.Fat.Write.{IsSized}
use seolsem.Act.{Act}
use seolsem.Act.Keeps.{Keeps, keeps_rules}
use seolsem.Dir.{Loc, fat_read_entry_at_loc, fat_write_entry_at_loc}
use seolsem.Dir.Search.{fat_find_in_dir_loc}
use seolsem.Dir.Free.{fat_is_dir_empty}
use seolsem.File.Write.{fat_write_file_in_dir, fat_create_dir_in_dir}
use seolsem.Dir.Resolve.{fat_resolve_dir, fat_resolve_parent_dir}
use seolsem.Dir.Reads.{fat_read_entry_at_loc-Same}
use seolsem.Dir.Lookups.{
  fat_find_in_dir_loc-Same, fat_is_dir_empty-Same, fat_resolve_parent_dir-Same,
}
use seolsem.Dir.Sectors.{IsModest}
use seolsem.File.Coherent.{
  coherent_of, flush-IsCoherent, free-IsCoherent, fat_write_entry_at_loc-IsCoherent,
  fat_write_file_in_dir-IsCoherent, fat_create_dir_in_dir-IsCoherent,
}
use seolsem.Fs.{Session, on_fat, fs_is_ready}
use seolsem.Fs.Change.{
  parent_and_leaf, fs_create_dir, fs_write, fs_write_in_dir, delete_entry, free_and_flush,
  fs_delete, fs_delete_dir,
}
use seolsem.Fs.Calls.{
  Call, query, create_dir, delete, delete_dir, write, write_in_dir, perform, perform_all,
}
use seolsem.Fs.Queries.{on_fat-Keeps, fs_is_ready-Keeps, dir-Same, ask-SameTable}

module _ (drv : Drive) (b : Bpb) (v : Volume) (ord : IsInOrder b v) (covers : Covers v)
    (modest : IsModest b v) (sized : IsSized v) where
  open drv use {Disk}

  abbrev C : State Disk → Type 0
  C st = IsCoherent drv v st

  abbrev Safe : {A : Type 0} → Act (Session Disk) A → Type 0
  Safe m = Keeps (λ (s : Session Disk). C s.fat) m

  ready-Safe : Safe (fs_is_ready drv b v)
  ready-Safe = fs_is_ready-Keeps drv b v ord covers C

  on_fat-Safe : {A : Type 0} (m : Act (State Disk) A) → Keeps C m → Safe (on_fat drv b v m)
  on_fat-Safe m h = on_fat-Keeps drv b v ord covers C m h

  -- A reading operation of the volume.
  reads-Safe :
      {A : Type 0} (m : Act (State Disk) A)
      → ((st₀ : State Disk) → Keeps (λ st. SameTable drv v st₀ st) m)
      → Safe (on_fat drv b v m)
  reads-Safe m h = on_fat-Safe m (coherent_of drv b v ord modest covers sized m h)

  parent_and_leaf-Safe : (path : Str) → Safe (parent_and_leaf drv b v path)
  unfolding parent_and_leaf
  parent_and_leaf-Safe path =
      search
        (
          keeps_rules,
          ready-Safe,
          λ (here : ℕ).
              reads-Safe (fat_resolve_parent_dir drv b v here path)
                λ st₀. fat_resolve_parent_dir-Same drv b v ord.laid_out covers st₀ here path,
        )
        depth 12

  dir-Safe : (here : ℕ) (path : Str) → Safe (on_fat drv b v (fat_resolve_dir drv b v here path))
  dir-Safe here path =
      reads-Safe (fat_resolve_dir drv b v here path)
        λ st₀. dir-Same drv b v ord covers st₀ here path

  find-Safe : (c : ℕ) (name : Str) → Safe (on_fat drv b v (fat_find_in_dir_loc drv b v c name))
  find-Safe c name =
      reads-Safe (fat_find_in_dir_loc drv b v c name)
        λ st₀. fat_find_in_dir_loc-Same drv b v ord.laid_out covers st₀ c name

  empty-Safe : (c : ℕ) → Safe (on_fat drv b v (fat_is_dir_empty drv b v c))
  empty-Safe c =
      reads-Safe (fat_is_dir_empty drv b v c)
        λ st₀. fat_is_dir_empty-Same drv b v ord.laid_out covers st₀ c

  write-Safe :
      (c : ℕ) (name : Str) (bytes : List ℕ)
      → Safe (on_fat drv b v (fat_write_file_in_dir drv b v c name bytes))
  write-Safe c name bytes =
      on_fat-Safe (fat_write_file_in_dir drv b v c name bytes)
        (fat_write_file_in_dir-IsCoherent drv b v ord modest covers sized c name bytes)

  create-Safe : (c : ℕ) (name : Str) → Safe (on_fat drv b v (fat_create_dir_in_dir drv b v c name))
  create-Safe c name =
      on_fat-Safe (fat_create_dir_in_dir drv b v c name)
        (fat_create_dir_in_dir-IsCoherent drv b v ord modest covers sized c name)

  free-Safe : (c : ℕ) → Safe (on_fat drv b v (free_and_flush drv b v c))
  free-Safe c = on_fat-Safe (free_and_flush drv b v c) (
      unfold free_and_flush in
      search (
        keeps_rules,
        free-IsCoherent drv b v ord modest covers sized,
        flush-IsCoherent drv b v ord modest covers sized,
      ))

  read_at-IsCoherent : (loc : Loc) → Keeps C (fat_read_entry_at_loc drv b v loc)
  read_at-IsCoherent loc =
      coherent_of drv b v ord modest covers sized (fat_read_entry_at_loc drv b v loc)
        λ st₀. fat_read_entry_at_loc-Same drv b v ord.laid_out covers st₀ loc

  flush-Kept : (st : State Disk) → C st → C (fat_flush_fat_sector drv v st).1
  flush-Kept = flush-IsCoherent drv b v ord modest covers sized

  write_at-IsCoherent :
      (loc : Loc) (raw : Buffer) → Keeps C (fat_write_entry_at_loc drv b v loc raw)
  write_at-IsCoherent = fat_write_entry_at_loc-IsCoherent drv b v ord modest covers sized

  delete_entry-IsCoherent : (loc : Loc) → Keeps C (delete_entry drv b v loc)
  unfolding delete_entry
  delete_entry-IsCoherent loc =
      search (keeps_rules, read_at-IsCoherent, write_at-IsCoherent, flush-Kept) depth 12

  delete_entry-Safe : (loc : Loc) → Safe (on_fat drv b v (delete_entry drv b v loc))
  delete_entry-Safe loc = on_fat-Safe (delete_entry drv b v loc) (delete_entry-IsCoherent loc)

  ruleset change_rules = (
    keeps_rules, ready-Safe, parent_and_leaf-Safe, dir-Safe, find-Safe, empty-Safe, write-Safe,
    create-Safe, free-Safe, delete_entry-Safe,
  )

  fs_delete-Safe : (path : Str) → Safe (fs_delete drv b v path)
  unfolding fs_delete
  fs_delete-Safe path = search change_rules depth 16

  fs_delete_dir-Safe : (path : Str) → Safe (fs_delete_dir drv b v path)
  unfolding fs_delete_dir
  fs_delete_dir-Safe path = search change_rules depth 24

  fs_write-Safe : (path : Str) (bytes : List ℕ) → Safe (fs_write drv b v path bytes)
  unfolding fs_write
  fs_write-Safe path bytes = search change_rules

  fs_create_dir-Safe : (path : Str) → Safe (fs_create_dir drv b v path)
  unfolding fs_create_dir
  fs_create_dir-Safe path = search change_rules

  fs_write_in_dir-Safe :
      (dir_name name : Str) (bytes : List ℕ) → Safe (fs_write_in_dir drv b v dir_name name bytes)
  unfolding fs_write_in_dir
  fs_write_in_dir-Safe dir_name name bytes = search change_rules depth 12

  pub perform-IsCoherent :
      (call : Call) (s : Session Disk) → C s.fat → C (perform drv b v call s).fat
  unfolding perform
  perform-IsCoherent (query q) = λ s h. (ask-SameTable drv b v ord covers q s h).coherent
  perform-IsCoherent (create_dir path) = (fs_create_dir-Safe path).at
  perform-IsCoherent (delete path) = (fs_delete-Safe path).at
  perform-IsCoherent (delete_dir path) = (fs_delete_dir-Safe path).at
  perform-IsCoherent (write path bytes) = (fs_write-Safe path bytes).at
  perform-IsCoherent (write_in_dir dir_name name bytes) =
      (fs_write_in_dir-Safe dir_name name bytes).at

  -- Any sequence of calls of sima_fs.h (the queries, fs_create_dir, fs_delete, fs_delete_dir,
  -- fs_write, fs_write_in_dir), with any arguments, from a session whose cache is in order, on a
  -- volume with its parts in order, that ends within the 2^28 sectors that an address tells apart,
  -- whose FAT covers its clusters, at most as many as FAT32 allows: whatever the calls return and
  -- whatever transfers fail, the cache of the FAT is in order afterwards.
  pub perform_all-IsCoherent :
      (calls : List Call) (s : Session Disk) → C s.fat → C (perform_all drv b v calls s).fat
  unfolding perform_all
  perform_all-IsCoherent [] s h = h
  perform_all-IsCoherent (call ∷ calls) s h =
      perform_all-IsCoherent calls (perform drv b v call s) (perform-IsCoherent call s h)
