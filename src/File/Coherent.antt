-- ===== src/File/Coherent.antt =====
-- kernel/sima_fs.c, the operations that change a directory: the cache of the FAT stays in order,
-- whatever fails.
use seolsem.Base.{
  ℕ, zero, suc, ◌+◌, ◌≤◌, ◌≡◌, Bool, true, Option, none, some, List, Str, u32, arith, leb,
}
use seolsem.Fat.{Sector, Drive, Volume, State, fat_flush_fat_sector}
use seolsem.Fat.Alloc.{fat_alloc_chain, fat_free_chain}
use seolsem.Fat.Bytes.{Buffer}
use seolsem.Fat.Cache.{IsCoherent, SameTable, SameTable-refl}
use seolsem.Fat.Coherence.{
  fat_flush_fat_sector-IsCoherent, fat_set_entry-IsCoherent, fat_free_chain-IsCoherent,
  fat_alloc_chain-Allocates, fat_alloc_chain-IsCoherent,
}
use seolsem.Fat.Entry.{Covers}
use seolsem.Fat.Geometry.{IsInOrder}
use seolsem.Fat.Mount.{Bpb}
use seolsem.Fat.Table.{fat_cluster_is_valid, fat_set_entry}
use seolsem.Fat.Write.{IsSized}
use seolsem.Act.{Act, rescue, ◌>>=◌}
use seolsem.Act.Keeps.{
  Keeps, Keeps-bind, Keeps-bind-result, Keeps-bind-require, Keeps-rescue, keeps_rules,
}
use seolsem.Dir.{
  Loc, attr_directory, fat_cluster_to_lba, store, fat_write_entry_at_loc, fat_dir_loc_next,
}
use seolsem.Dir.EntryAt.{fat_write_entry_at_loc-Same}
use seolsem.Dir.Search.{fat_find_in_dir_loc}
use seolsem.Dir.Free.{
  fat_find_free_in_dir, last_loop, store_loop, drop_chain, unlink, fat_extend_dir_chain,
}
use seolsem.Dir.Lookups.{fat_find_in_dir_loc-Same, fat_find_free_in_dir-Same, last_loop-Same}
use seolsem.Dir.Reads.{fat_dir_loc_next-Same}
use seolsem.Dir.Sectors.{IsModest, apart, store-Same}
use seolsem.File.{fat_write_cluster_chain}
use seolsem.File.Contents.{cluster_sector, fat_write_cluster_chain-Same}
use seolsem.File.Write.{
  Place, write_end, fat_write_end_marker_after_loc, new_place, place_of, new_contents, drop_new,
  drop_old, put_entry, in_new_cluster, fat_write_file_in_dir, fat_init_directory_cluster,
  fat_create_dir_in_dir,
}

module _ (drv : Drive) (b : Bpb) (v : Volume) (ord : IsInOrder b v) (modest : IsModest b v)
    (covers : Covers v) (sized : IsSized v) where
  open drv use {Disk}

  abbrev C : State Disk → Type 0
  C st = IsCoherent drv v st

  -- What keeps the table keeps the cache in order.
  pub coherent_of :
      {A : Type 0} (m : Act (State Disk) A)
      → ((st₀ : State Disk) → Keeps (λ st. SameTable drv v st₀ st) m)
      → Keeps C m
  coherent_of m h = record { at = λ st c. ((h st).at st (SameTable-refl drv v c)).coherent }

  pub flush-IsCoherent : (st : State Disk) → C st → C (fat_flush_fat_sector drv v st).1
  flush-IsCoherent = fat_flush_fat_sector-IsCoherent drv v ord.laid_out covers sized

  set-IsCoherent : (c value : ℕ) (st : State Disk) → C st → C (fat_set_entry drv v c value st).1
  set-IsCoherent = fat_set_entry-IsCoherent drv v ord.laid_out covers sized

  pub free-IsCoherent : (c : ℕ) (st : State Disk) → C st → C (fat_free_chain drv v c st).1
  free-IsCoherent = fat_free_chain-IsCoherent drv v ord.laid_out covers sized

  alloc-IsCoherent : (count : ℕ) → Keeps C (fat_alloc_chain drv v count)
  alloc-IsCoherent count = record {
    at = fat_alloc_chain-IsCoherent drv v ord.laid_out covers sized count;
  }

  pub fat_write_entry_at_loc-IsCoherent :
      (loc : Loc) (raw : Buffer) → Keeps C (fat_write_entry_at_loc drv b v loc raw)
  fat_write_entry_at_loc-IsCoherent loc raw =
      coherent_of (fat_write_entry_at_loc drv b v loc raw)
        λ st₀. fat_write_entry_at_loc-Same drv b v ord modest covers st₀ loc raw

  fat_dir_loc_next-IsCoherent : (loc : Loc) → Keeps C (fat_dir_loc_next drv b v loc)
  fat_dir_loc_next-IsCoherent loc =
      coherent_of (fat_dir_loc_next drv b v loc)
        λ st₀. fat_dir_loc_next-Same drv b v ord.laid_out covers st₀ loc

  pub fat_find_in_dir_loc-IsCoherent :
      (c : ℕ) (name : Str) → Keeps C (fat_find_in_dir_loc drv b v c name)
  fat_find_in_dir_loc-IsCoherent c name =
      coherent_of (fat_find_in_dir_loc drv b v c name)
        λ st₀. fat_find_in_dir_loc-Same drv b v ord.laid_out covers st₀ c name

  fat_find_free_in_dir-IsCoherent : (c : ℕ) → Keeps C (fat_find_free_in_dir drv b v c)
  fat_find_free_in_dir-IsCoherent c =
      coherent_of (fat_find_free_in_dir drv b v c)
        λ st₀. fat_find_free_in_dir-Same drv b v ord.laid_out covers st₀ c

  last_loop-IsCoherent : (left c : ℕ) → Keeps C (last_loop drv b v left c)
  last_loop-IsCoherent left c =
      coherent_of (last_loop drv b v left c)
        λ st₀. last_loop-Same drv b v ord.laid_out covers st₀ left c

  write_chain-IsCoherent :
      (c : ℕ) (bytes : List ℕ) → Keeps C (fat_write_cluster_chain drv b v c bytes)
  write_chain-IsCoherent c bytes =
      coherent_of (fat_write_cluster_chain drv b v c bytes)
        λ st₀. fat_write_cluster_chain-Same drv b v ord modest covers sized st₀ c bytes

  ruleset coherent_rules = (
    keeps_rules, flush-IsCoherent, set-IsCoherent, free-IsCoherent, alloc-IsCoherent,
    fat_write_entry_at_loc-IsCoherent, fat_dir_loc_next-IsCoherent, fat_find_in_dir_loc-IsCoherent,
    fat_find_free_in_dir-IsCoherent, last_loop-IsCoherent, write_chain-IsCoherent,
  )

  -- The sectors of a cluster of the volume.
  store_loop-IsCoherent :
      (sector_of : ℕ → Sector) (c left k : ℕ)
      → fat_cluster_is_valid v c ≡ true
      → k + left ≤ b.sec_per_clus
      → Keeps C (store_loop drv b v sector_of (fat_cluster_to_lba v c) left k)
  unfolding store_loop
  store_loop-IsCoherent sector_of c zero k valid l = search keeps_rules
  store_loop-IsCoherent sector_of c (suc left) k valid l =
      Keeps-bind (store drv b v (u32 (fat_cluster_to_lba v c + k)) (sector_of k)) _
        (coherent_of (store drv b v (u32 (fat_cluster_to_lba v c + k)) (sector_of k)) λ st₀.
          store-Same drv b v st₀ (u32 (fat_cluster_to_lba v c + k)) (sector_of k)
            (apart b v ord modest)
            (cluster_sector drv b v ord modest covers sized c k valid (omega arith)))
        λ u. store_loop-IsCoherent sector_of c left (k + 1) valid (omega arith)

  store_cluster-IsCoherent :
      (sector_of : ℕ → Sector) (c : ℕ)
      → fat_cluster_is_valid v c ≡ true
      → Keeps C (store_loop drv b v sector_of (fat_cluster_to_lba v c) b.sec_per_clus 0)
  store_cluster-IsCoherent sector_of c valid =
      store_loop-IsCoherent sector_of c b.sec_per_clus 0 valid (omega arith)

  drop_chain-IsCoherent : {A : Type 0} (c : ℕ) → Keeps C (drop_chain drv b v {A = A} c)
  unfolding drop_chain
  drop_chain-IsCoherent c = search coherent_rules

  unlink-IsCoherent : {A : Type 0} (last c : ℕ) → Keeps C (unlink drv b v {A = A} last c)
  unfolding unlink
  unlink-IsCoherent last c = search (coherent_rules, drop_chain-IsCoherent)

  fat_extend_dir_chain-IsCoherent : (c : ℕ) → Keeps C (fat_extend_dir_chain drv b v c)
  unfolding fat_extend_dir_chain
  fat_extend_dir_chain-IsCoherent c =
      search (coherent_rules, drop_chain-IsCoherent, unlink-IsCoherent, store_cluster-IsCoherent)
        depth 20

  new_place-IsCoherent : (c : ℕ) → Keeps C (new_place drv b v c)
  unfolding new_place
  new_place-IsCoherent c = search (coherent_rules, fat_extend_dir_chain-IsCoherent) depth 12

  place_of-IsCoherent : (c : ℕ) (o : Option (Buffer × Loc)) → Keeps C (place_of drv b v c o)
  unfolding place_of
  place_of-IsCoherent c none = search (coherent_rules, new_place-IsCoherent) depth 12
  place_of-IsCoherent c (some (raw, loc)) = search coherent_rules depth 12

  new_contents-IsCoherent : (bytes : List ℕ) → Keeps C (new_contents drv b v bytes)
  unfolding new_contents
  new_contents-IsCoherent bytes = search (coherent_rules, drop_chain-IsCoherent) depth 12

  drop_new-IsCoherent : {A : Type 0} (c : ℕ) → Keeps C (drop_new drv b v {A = A} c)
  unfolding drop_new
  drop_new-IsCoherent c = search (coherent_rules, drop_chain-IsCoherent) depth 12

  drop_old-IsCoherent : (c : ℕ) → Keeps C (drop_old drv b v c)
  unfolding drop_old
  drop_old-IsCoherent c = search coherent_rules depth 12

  write_end-IsCoherent : (o : Option Loc) → Keeps C (write_end drv b v o)
  unfolding write_end
  write_end-IsCoherent none = search coherent_rules
  write_end-IsCoherent (some next) = search coherent_rules

  end_marker-IsCoherent : (loc : Loc) → Keeps C (fat_write_end_marker_after_loc drv b v loc)
  unfolding fat_write_end_marker_after_loc
  end_marker-IsCoherent loc = search (coherent_rules, write_end-IsCoherent) depth 12

  put_entry-IsCoherent :
      (place : Place) (name : Str) (attr c size : ℕ) (undo : Act (State Disk) Unit)
      → Keeps C undo
      → Keeps C (put_entry drv b v place name attr c size undo)
  unfolding put_entry
  put_entry-IsCoherent place name attr c size undo h =
      search (coherent_rules, end_marker-IsCoherent) depth 20

  -- fat_write_file_in_dir, for any directory cluster, name and data, on a volume with its parts in
  -- order, of a size that leaves room below 32 bits, whose FAT covers its clusters: whatever it
  -- returns and whatever transfers fail, it leaves the cache of the FAT in order.
  pub fat_write_file_in_dir-IsCoherent :
      (c : ℕ) (name : Str) (bytes : List ℕ) → Keeps C (fat_write_file_in_dir drv b v c name bytes)
  unfolding fat_write_file_in_dir
  fat_write_file_in_dir-IsCoherent c name bytes =
      search
        (
          coherent_rules, place_of-IsCoherent, new_contents-IsCoherent, put_entry-IsCoherent,
          drop_new-IsCoherent, drop_old-IsCoherent,
        )
        depth 20

  init_cluster-IsCoherent :
      (c parent : ℕ)
      → fat_cluster_is_valid v c ≡ true
      → Keeps C (fat_init_directory_cluster drv b v c parent)
  unfolding fat_init_directory_cluster
  init_cluster-IsCoherent c parent valid =
      search
        (coherent_rules, λ (sector_of : ℕ → Sector). store_cluster-IsCoherent sector_of c valid)
        depth 12

  -- What fat_create_dir_in_dir does with the cluster that it allocated.
  with_new_cluster :
      (loc : Loc) (end_marker : Bool) (c parent : ℕ) (name : Str)
      → fat_cluster_is_valid v c ≡ true
      → Keeps C (in_new_cluster drv b v loc end_marker parent name c)
  unfolding in_new_cluster
  with_new_cluster loc end_marker c parent name valid =
      let place : Place = record { loc = loc; end_marker = end_marker; old_cluster = 0 } in
      let undo = drop_chain-IsCoherent c in
      Keeps-bind-require (leb 2 c) _ λ e.
        Keeps-bind
          (rescue (fat_init_directory_cluster drv b v c parent) (drop_chain drv b v {A = Unit} c)) _
          (Keeps-rescue (fat_init_directory_cluster drv b v c parent)
            (drop_chain drv b v {A = Unit} c) (init_cluster-IsCoherent c parent valid) undo)
          λ u.
            put_entry-IsCoherent place name attr_directory c 0 (drop_chain drv b v {A = Unit} c)
              undo

  -- fat_create_dir_in_dir, for any parent cluster and name, on such a volume: whatever it returns
  -- and whatever transfers fail, it leaves the cache of the FAT in order.
  pub fat_create_dir_in_dir-IsCoherent :
      (parent : ℕ) (name : Str) → Keeps C (fat_create_dir_in_dir drv b v parent name)
  unfolding fat_create_dir_in_dir
  fat_create_dir_in_dir-IsCoherent parent name =
      search (coherent_rules, new_place-IsCoherent, allocated) depth 12
    where
      allocated :
          (loc : Loc) (end_marker : Bool)
          → Keeps C (fat_alloc_chain drv v 1 >>= in_new_cluster drv b v loc end_marker parent name)
      allocated loc end_marker =
          Keeps-bind-result (λ c. fat_cluster_is_valid v c ≡ true) (fat_alloc_chain drv v 1)
            (in_new_cluster drv b v loc end_marker parent name) (alloc-IsCoherent 1)
            (λ st c h e.
              (fat_alloc_chain-Allocates drv v ord.laid_out covers sized 1 st (omega arith) h).valid
                c e)
            λ c valid. with_new_cluster loc end_marker c parent name valid
