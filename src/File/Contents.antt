-- ===== src/File/Contents.antt =====
-- kernel/sima_fs.c, the contents of a file: `fat_write_cluster_chain` stores them behind the table.
use seolsem.Base.{
  ℕ, zero, suc, ◌+◌, ◌≤◌, ◌<◌, ◌≡◌, Bool, true, false, List, [], u32, arith, not, drop,
}
use seolsem.Fat.{Drive, Volume, State}
use seolsem.Fat.Cache.{SameTable}
use seolsem.Fat.Entry.{Covers}
use seolsem.Fat.Geometry.{IsInOrder}
use seolsem.Fat.Mount.{Bpb}
use seolsem.Fat.Table.{fat_cluster_is_valid}
use seolsem.Fat.Write.{IsSized}
use seolsem.Act.{pure}
use seolsem.Act.Keeps.{Keeps, Keeps-if, Keeps-bind, keeps_rules}
use seolsem.Dir.{fat_cluster_to_lba}
use seolsem.Dir.Reads.{same_rules}
use seolsem.Dir.Sectors.{IsModest, IsPast, apart, behind_of_cluster, store-Same}
use seolsem.File.{is_nil, write_sectors, write_loop, fat_write_cluster_chain}

true_of_not : (t : Bool) → not t ≡ false → t ≡ true
true_of_not t e = ground arith

module _ (drv : Drive) (b : Bpb) (v : Volume) (ord : IsInOrder b v) (modest : IsModest b v)
    (covers : Covers v) (sized : IsSized v) where
  open drv use {Disk}

  pub cluster_sector :
      (c k : ℕ)
      → fat_cluster_is_valid v c ≡ true
      → k < b.sec_per_clus
      → IsPast v (u32 (fat_cluster_to_lba v c + k))
  cluster_sector c k valid l =
      behind_of_cluster b v ord modest c k valid (omega (arith, modest.sectors))

  module _ (st₀ : State Disk) where
    abbrev S : State Disk → Type 0
    S st = SameTable drv v st₀ st

    write_sectors-Same :
        (c left k : ℕ) (bytes : List ℕ)
        → fat_cluster_is_valid v c ≡ true
        → k + left ≤ b.sec_per_clus
        → Keeps S (write_sectors drv b v (fat_cluster_to_lba v c) left k bytes)
    unfolding write_sectors
    write_sectors-Same c zero k bytes valid l = search keeps_rules
    write_sectors-Same c (suc left) k bytes valid l =
        Keeps-bind _ _
          (store-Same drv b v st₀ _ _ (apart b v ord modest)
            (cluster_sector c k valid (omega arith)))
          λ u.
            Keeps-if (is_nil (drop 512 bytes)) (pure []) _ (λ e. search keeps_rules)
              λ e. write_sectors-Same c left (k + 1) (drop 512 bytes) valid (omega arith)

    write_loop-Same : (left c : ℕ) (bytes : List ℕ) → Keeps S (write_loop drv b v left c bytes)
    unfolding write_loop
    write_loop-Same zero c bytes = search keeps_rules
    write_loop-Same (suc left) c bytes =
        Keeps-if _ _ _ (λ e. search keeps_rules)
          λ e.
            Keeps-bind _ _
              (write_sectors-Same c b.sec_per_clus 0 bytes (true_of_not _ e) (omega arith))
              λ rest. search (same_rules, write_loop-Same left)

    -- fat_write_cluster_chain on a volume with its parts in order, that ends within the 2^28
    -- sectors that an address tells apart, whose FAT covers its clusters, from a state with a
    -- given table and a cache in order: whatever data it writes to whatever chain, and whatever
    -- transfers fail, the state again has that table, the allocation hint and a cache in order.
    pub fat_write_cluster_chain-Same :
        (c : ℕ) (bytes : List ℕ) → Keeps S (fat_write_cluster_chain drv b v c bytes)
    unfolding fat_write_cluster_chain
    fat_write_cluster_chain-Same c bytes = search (keeps_rules, write_loop-Same)
