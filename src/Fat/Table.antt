-- ===== src/Fat/Table.antt =====
-- kernel/sima_fs.c, one entry of the FAT: `fat_get_entry`, `fat_set_entry`, `fat_next_cluster`, and
-- the tests on cluster numbers.
use seolsem.Base.{
  ℕ, ◌+◌, ◌*◌, ◌/◌, ◌%◌, Bool, true, false, ◌&&◌, ltb, leb, ◌==◌, if◌then◌else◌, bit_and, bit_or,
  u16, u32,
}
use seolsem.Fat.{Drive, FatType, unknown, fat12, fat16, fat32, Volume, State, fat_load_fat_sector}
use seolsem.Fat.Bytes.{Buffer, le16, le32, wr16, wr32}

abbrev pub fat_bad_cluster : ℕ
fat_bad_cluster = 0x0FFFFFF7

unfoldable pub fat_max_cluster : Volume → ℕ
fat_max_cluster v = u32 (v.count_of_clusters + 1)

unfoldable pub fat_cluster_is_valid : Volume → ℕ → Bool
unfolding fat_max_cluster
fat_cluster_is_valid v cluster =
    if ltb (fat_max_cluster v) 2 then false else leb 2 cluster && leb cluster (fat_max_cluster v)

-- The byte offset of an entry: `fat_offset` of both functions.
unfoldable pub fat_offset : FatType → ℕ → ℕ
fat_offset fat12 cluster = u32 (cluster + cluster / 2)
fat_offset fat16 cluster = u32 (cluster * 2)
fat_offset fat32 cluster = u32 (cluster * 4)
fat_offset unknown cluster = u32 (cluster * 4)

-- A FAT12 entry out of the 16 bits that hold it.
unfoldable pub nibbles : ℕ → ℕ → ℕ
nibbles cluster val16 = if bit_and cluster 1 == 0 then bit_and val16 0xFFF else val16 / 16

-- A FAT16 entry, its end marks mapped to those of FAT32.
unfoldable pub widened : ℕ → ℕ
widened entry_val = if leb 0xFFF8 entry_val then bit_or entry_val 0x0FFFF000 else entry_val

-- The entry at an offset of a buffer; for FAT12 the one that does not straddle.
unfoldable pub decode : FatType → ℕ → Buffer → ℕ → ℕ
unfolding nibbles widened
decode fat12 cluster p o = nibbles cluster (le16 p o)
decode fat16 cluster p o = widened (le16 p o)
decode fat32 cluster p o = bit_and (le32 p o) 0x0FFFFFFF
decode unknown cluster p o = bit_and (le32 p o) 0x0FFFFFFF

-- The 16 bits of a FAT12 entry after the write; the other entry's four bits stay.
unfoldable pub merged : ℕ → ℕ → ℕ → ℕ
merged cluster val16 value =
    let value = bit_and value 0xFFF in
    if bit_and cluster 1 == 0
    then bit_or (bit_and val16 0xF000) (u16 value)
    else bit_or (bit_and val16 0x000F) (u16 (value * 16))

-- The sector after the write of an entry at an offset.
unfoldable pub encode : FatType → ℕ → ℕ → Buffer → ℕ → Buffer
encode fat12 cluster value p o = wr16 p o (merged cluster (le16 p o) value)
encode fat16 cluster value p o = wr16 p o (u16 value)
encode fat32 cluster value p o =
    wr32 p o (bit_or (bit_and (le32 p o) 0xF0000000) (bit_and value 0x0FFFFFFF))
encode unknown cluster value p o =
    wr32 p o (bit_or (bit_and (le32 p o) 0xF0000000) (bit_and value 0x0FFFFFFF))

abbrev pub is_fat12 : FatType → Bool
is_fat12 fat12 = true
is_fat12 fat16 = false
is_fat12 fat32 = false
is_fat12 unknown = false

-- The values that end a chain.
unfoldable pub eoc_min : FatType → ℕ
eoc_min fat12 = 0xFF8
eoc_min fat16 = 0xFFF8
eoc_min fat32 = 0x0FFFFFF8
eoc_min unknown = 0x0FFFFFF8

-- The tests of `fat_next_cluster` on the entry of a valid cluster.
unfoldable pub next_of : Volume → ℕ → ℕ
unfolding eoc_min fat_max_cluster
next_of v val =
    if leb (eoc_min v.fat_type) val
    then 0
    else if val == 0
    then 0
    else if val == fat_bad_cluster
    then 0
    else if ltb val 2
    then 0
    else if ltb (fat_max_cluster v) val
    then 0
    else val

module _ (drv : Drive) (v : Volume) where
  open drv use {Disk}

  -- The second half of a FAT12 entry that straddles two sectors; `b1` is the first.
  unfoldable pub straddled : ℕ → ℕ → Bool × State Disk → ℕ × State Disk
  straddled cluster b1 (false, st) = (fat_bad_cluster, st)
  straddled cluster b1 (true, st) =
      (nibbles cluster (u16 (bit_or b1 (u16 (st.fat_sector 0 * 256)))), st)

  -- After the load in `fat_get_entry`.
  unfoldable pub entry_of : FatType → ℕ → ℕ → Bool × State Disk → ℕ × State Disk
  entry_of t cluster off (false, st) = (fat_bad_cluster, st)
  entry_of fat12 cluster off (true, st) =
      if off % 512 == 511
      then straddled cluster (st.fat_sector 511) (fat_load_fat_sector drv v (off / 512 + 1) st)
      else (decode fat12 cluster st.fat_sector (off % 512), st)
  entry_of fat16 cluster off (true, st) = (decode fat16 cluster st.fat_sector (off % 512), st)
  entry_of fat32 cluster off (true, st) = (decode fat32 cluster st.fat_sector (off % 512), st)
  entry_of unknown cluster off (true, st) = (decode unknown cluster st.fat_sector (off % 512), st)

  unfoldable pub fat_get_entry : ℕ → State Disk → ℕ × State Disk
  fat_get_entry cluster st =
      if fat_cluster_is_valid v cluster
      then entry_of v.fat_type cluster (fat_offset v.fat_type cluster)
          (fat_load_fat_sector drv v (fat_offset v.fat_type cluster / 512) st)
      else (fat_bad_cluster, st)

  -- After the load in `fat_set_entry`.
  unfoldable pub entry_set : FatType → ℕ → ℕ → ℕ → Bool × State Disk → Bool × State Disk
  entry_set t cluster value off (false, st) = (false, st)
  entry_set t cluster value off (true, st) =
      if is_fat12 t && off % 512 == 511 then (false, st) else (
        true,
        record st { fat_sector = encode t cluster value st.fat_sector (off % 512); dirty = true },
      )

  unfoldable pub fat_set_entry : ℕ → ℕ → State Disk → Bool × State Disk
  fat_set_entry cluster value st =
      if fat_cluster_is_valid v cluster
      then entry_set v.fat_type cluster value (fat_offset v.fat_type cluster)
          (fat_load_fat_sector drv v (fat_offset v.fat_type cluster / 512) st)
      else (false, st)

  unfoldable pub fat_next_cluster : ℕ → State Disk → ℕ × State Disk
  fat_next_cluster cluster st =
      let (val, st') = fat_get_entry cluster st in
      if fat_cluster_is_valid v cluster then (next_of v val, st') else (0, st')

unfoldable pub fat_eoc_marker : Volume → ℕ
fat_eoc_marker v = marker v.fat_type
  where
    marker : FatType → ℕ
    marker fat12 = 0x0FFF
    marker fat16 = 0xFFFF
    marker fat32 = 0x0FFFFFFF
    marker unknown = 0x0FFFFFFF
