-- ===== src/Dir.antt =====
-- kernel/sima_fs.c, directories: where an entry lies (`fat_cluster_to_lba`, `fat_loc_to_lba`,
-- `fat_dir_loc_next`), and the reading and writing of one entry. An entry is its 32 bytes by offset
-- (FAT_DIR_RAW). g_sector never carries data from one call to the next, so it is a local value. The
-- volume is mounted: its BPB and geometry are arguments, and the state is that of the FAT cache and
-- the disk.
pub mod Find
pub mod Search
pub mod Reads
pub mod Sectors
pub mod EntryAt
pub mod Ends
pub mod Found
pub mod Lookups
pub mod Free
pub mod Resolve
use seolsem.Base.{
  ℕ, zero, suc, ◌+◌, ◌-◌, ◌*◌, ◌/◌, ◌%◌, ◌^◌, Bool, true, false, not, ◌&&◌, Option, none, some,
  List, [], ◌∷◌, ltb, leb, ◌==◌, if◌then◌else◌, bit_and, bit_or, u16, u32,
}
use seolsem.Fat.{Sector, Drive, Volume, State, read_sector, write_sector}
use seolsem.Fat.Bytes.{Buffer, le16, le32}
use seolsem.Fat.Mount.{Bpb, is_fat32}
use seolsem.Fat.Table.{fat_cluster_is_valid, fat_next_cluster}
use seolsem.Act.{Act, done, pure, fail, lift, call, require, ◌>>=◌, ◌>>◌}

abbrev pub attr_directory : ℕ
attr_directory = 0x10

abbrev pub attr_lfn : ℕ
attr_lfn = 0x0F

-- FAT_DIR_LOC
pub record Loc : Type 0 where
  pub root : Bool
  pub root_index : ℕ
  pub cluster : ℕ
  pub offset : ℕ

-- FS_DIR
pub record FsDir : Type 0 where
  pub cluster : ℕ
  pub cur_cluster : ℕ
  pub offset : ℕ
  pub root_index : ℕ
  pub root : Bool
  pub guard_clusters : ℕ
  pub error : Bool

-- The 32 bytes at an offset of a sector.
unfoldable pub slice : Buffer → ℕ → Buffer
slice p o i = p (o + i)

-- The sector with the 32 bytes of an entry stored at an offset.
unfoldable pub patch : Sector → ℕ → Buffer → Sector
patch s o raw i = if leb o i && ltb i (o + 32) then raw (i - o) else s i

abbrev pub attr_of : Buffer → ℕ
attr_of raw = raw 11

unfoldable pub is_directory : Buffer → Bool
is_directory raw = not (bit_and (attr_of raw) attr_directory == 0)

-- The name and the extension, of 11 bytes.
unfoldable pub name_of : Buffer → List ℕ
name_of raw =
    raw 0 ∷ raw 1 ∷ raw 2 ∷ raw 3 ∷ raw 4 ∷ raw 5 ∷ raw 6 ∷ raw 7 ∷ raw 8 ∷ raw 9 ∷ raw 10 ∷ []

unfoldable pub fat_entry_cluster : Buffer → ℕ
fat_entry_cluster raw = bit_or (le16 raw 26) (u32 (le16 raw 20 * 65536))

unfoldable pub size_of : Buffer → ℕ
size_of raw = le32 raw 28

unfoldable pub cluster_bytes : Volume → ℕ
cluster_bytes v = u32 (2 ^ (v.spc_shift + 9))

unfoldable pub fat_cluster_to_lba : Volume → ℕ → ℕ
fat_cluster_to_lba v cluster =
    u32 (v.data_start_lba + u32 (u32 (cluster + 4294967294) * 2 ^ v.spc_shift))

-- A directory that is not a chain of clusters.
unfoldable pub is_fixed_root : Volume → Loc → Bool
is_fixed_root v loc = loc.root && not (is_fat32 v.fat_type)

-- The sector of an entry and the offset in it.
unfoldable pub fat_loc_to_lba : Volume → Loc → Option (ℕ × ℕ)
unfolding is_fixed_root fat_cluster_to_lba
fat_loc_to_lba v loc =
    let sector = u16 (loc.root_index / 16) in
    if is_fixed_root v loc
    then if leb v.root_dir_sectors sector
      then none
      else some (u32 (v.root_start_lba + sector), u16 (loc.root_index % 16 * 32))
    else if fat_cluster_is_valid v loc.cluster
    then some (
      u32 (fat_cluster_to_lba v loc.cluster + u32 loc.offset / 512),
      u16 (bit_and loc.offset 511),
    )
    else none

module _ (drv : Drive) (b : Bpb) (v : Volume) where
  open drv use {Disk}

  unfoldable pub load : ℕ → Act (State Disk) Sector
  load lba st = let (r, d) = read_sector drv v lba st.disk in (r, record st { disk = d })

  unfoldable pub store : ℕ → Sector → Act (State Disk) Unit
  store lba s st = let (r, d) = write_sector drv v lba s st.disk in (done r, record st { disk = d })

  unfoldable pub fat_read_root_entry : ℕ → Act (State Disk) Buffer
  unfolding load slice
  fat_read_root_entry index = do
    require (not (is_fat32 v.fat_type))
    require (ltb (u16 (index / 16)) v.root_dir_sectors)
    s ← load (u32 (v.root_start_lba + u16 (index / 16)))
    pure (slice s (u16 (index % 16 * 32)))

  unfoldable pub fat_read_cluster_entry : ℕ → ℕ → Act (State Disk) Buffer
  unfolding load slice fat_cluster_to_lba cluster_bytes
  fat_read_cluster_entry cluster offset = do
    require (fat_cluster_is_valid v cluster)
    require (leb (u32 (offset + 32)) (cluster_bytes v))
    s ← load (u32 (fat_cluster_to_lba v cluster + offset / 512))
    pure (slice s (u16 (bit_and offset 511)))

  unfoldable pub fat_read_entry_at_loc : Loc → Act (State Disk) Buffer
  unfolding load slice fat_loc_to_lba
  fat_read_entry_at_loc loc = do
    at ← lift (fat_loc_to_lba v loc)
    s ← load at.0
    pure (slice s at.1)

  unfoldable pub fat_write_entry_at_loc : Loc → Buffer → Act (State Disk) Unit
  unfolding load store patch fat_loc_to_lba
  fat_write_entry_at_loc loc raw = do
    at ← lift (fat_loc_to_lba v loc)
    s ← load at.0
    store at.0 (patch s at.1 raw)

  unfoldable pub fat_dir_loc_next : Loc → Act (State Disk) Loc
  unfolding is_fixed_root cluster_bytes
  fat_dir_loc_next loc =
      if is_fixed_root v loc
      then if leb b.root_ents (u16 (loc.root_index + 1))
        then fail
        else pure (record loc { root_index = u16 (loc.root_index + 1) })
      else if ltb (u32 (loc.offset + 32)) (cluster_bytes v)
      then pure (record loc { offset = u32 (loc.offset + 32) })
      else do
        next_cluster ← call (fat_next_cluster drv v loc.cluster)
        require (leb 2 next_cluster)
        pure (record loc { cluster = next_cluster; offset = 0 })
