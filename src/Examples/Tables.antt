-- ===== src/Examples/Tables.antt =====
-- The theorems on the file allocation table, at the volume of Examples/Disk.
use seolsem.Base.{
  ℕ, ◌≤◌, false, [], ◌∷◌, ◌==◌, ◌&&◌, ◌||◌, if◌then◌else◌, ◌+◌, ◌*◌, ◌%◌, ◌≡◌, refl, true, arith,
}
use seolsem.Examples.Disk.{
  ram_disk, volume, start, volume-IsLaidOut, start-IsCoherent, volume-Covers,
}
use seolsem.Fat.{State, fat_flush_fat_sector, fat_load_fat_sector}
use seolsem.Fat.Cache.{fat_byte, IsCoherent, SameTable, fat_flush_fat_sector-SameTable}
use seolsem.Fat.Load.{Loads, fat_load_fat_sector-Loads}
use seolsem.Fat.Table.{
  fat_cluster_is_valid, fat_max_cluster, fat_offset, decode, widened, fat_get_entry, fat_set_entry,
}
use seolsem.Fat.Bytes.{le16}
use seolsem.Fat.Entry.{Gets, fat_get_entry-Gets, table_entry}
use seolsem.Fat.Write.{Sets, fat_set_entry-Sets}
use seolsem.Fat.Alloc.{fat_free_chain}
use seolsem.Fat.Freed.{Chain, last, link, Freed, fat_free_chain-Freed}

cluster_is_valid : fat_cluster_is_valid volume 300 ≡ true
unfolding fat_cluster_is_valid fat_max_cluster
cluster_is_valid = refl

fat_set_entry-Sets_example :
    Sets ram_disk volume volume-IsLaidOut volume-Covers
      (omega arith)
      start
      300
      0xFFFF
      (fat_set_entry ram_disk volume 300 0xFFFF start)
fat_set_entry-Sets_example =
    fat_set_entry-Sets ram_disk volume volume-IsLaidOut volume-Covers (omega arith) 300 0xFFFF start
      start-IsCoherent cluster_is_valid

fat_get_entry-Gets_example :
    Gets ram_disk volume volume-IsLaidOut start
      (table_entry ram_disk volume start 300)
      (fat_get_entry ram_disk volume 300 start)
fat_get_entry-Gets_example =
    fat_get_entry-Gets ram_disk volume volume-IsLaidOut 300 start volume-Covers start-IsCoherent
      cluster_is_valid

fat_load_fat_sector-Loads_example :
    Loads ram_disk volume volume-IsLaidOut
      (volume.fat_start_lba + 1)
      start
      (fat_load_fat_sector ram_disk volume 1 start)
fat_load_fat_sector-Loads_example =
    fat_load_fat_sector-Loads ram_disk volume volume-IsLaidOut 1 start (omega arith)
      start-IsCoherent

fat_flush_fat_sector-SameTable_example :
    SameTable ram_disk volume start (fat_flush_fat_sector ram_disk volume start).1
fat_flush_fat_sector-SameTable_example =
    fat_flush_fat_sector-SameTable ram_disk volume volume-IsLaidOut start start-IsCoherent

abbrev bytes : ℕ → ℕ
bytes o = (o * 37 + 11) % 256

-- Clusters 300 and 301 in a chain.
abbrev two_clusters : State (ℕ → ℕ → ℕ)
two_clusters = record start {
  cur_lba = 0;
  dirty = false;
  disk = λ l o.
      if (l == 65) && (o == 88)
      then 45
      else if (l == 65) && (o == 89)
      then 1
      else if (l == 65) && (o == 90) || (l == 65) && (o == 91)
      then 255
      else 0;
}

two_clusters-IsCoherent : IsCoherent ram_disk volume two_clusters
two_clusters-IsCoherent = record {
  inside = λ nz. absurd (nz refl);
  clean = λ e nz. absurd (nz refl);
  loaded = λ e. cc;
  octets = λ o. ground arith;
}

two_clusters-Chain : Chain ram_disk volume two_clusters 300 (300 ∷ 301 ∷ [])
unfolding fat_cluster_is_valid fat_max_cluster table_entry fat_byte fat_offset decode le16 widened
two_clusters-Chain =
    link 300 301 (301 ∷ []) refl refl refl (omega arith) (λ e. omega (arith, e), tt)
      (last 301 refl (omega arith))

two_fit : 2 ≤ fat_max_cluster volume + 1
unfolding fat_max_cluster
two_fit = omega arith

fat_free_chain-Freed_example :
    Freed ram_disk volume volume-IsLaidOut volume-Covers
      (omega arith)
      two_clusters
      (300 ∷ 301 ∷ [])
      (fat_free_chain ram_disk volume 300 two_clusters)
fat_free_chain-Freed_example =
    fat_free_chain-Freed ram_disk volume volume-IsLaidOut volume-Covers (omega arith) 300
      (300 ∷ 301 ∷ []) two_clusters two_clusters-Chain two_clusters-IsCoherent two_fit
