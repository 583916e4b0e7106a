-- ===== src/Fat.antt =====
-- kernel/sima_fs.c, the volume: its geometry, the sector cache over the file allocation table, and
-- the disk below. The geometry (g_bpb, g_fat_type, g_base_lba, …) is set by fs_init and constant
-- after it, so it is an argument; what the operations change is the record `State`. An operation
-- takes a state to its result and the new state, which is also what a FALSE result leaves.
pub mod Bytes
pub mod Cache
pub mod Load
pub mod Name
pub mod Table
pub mod Codec
pub mod Entry
pub mod Update
pub mod Write
pub mod Alloc
pub mod Free
pub mod Chain
pub mod Freed
pub mod Coherence
pub mod Mount
pub mod Partition
pub mod Geometry
pub mod Overflow
use seolsem.Base.{
  ℕ, zero, suc, ◌+◌, ◌-◌, ◌*◌, ◌%◌, ◌<◌, ◌≡◌, ◌≢◌, Bool, true, false, Option, none, some, ltb, ◌==◌,
  if◌then◌else◌, u32,
}

-- The bytes of a sector by their offset.
abbrev pub Sector : Type 0
Sector = ℕ → ℕ

-- The sectors that the 28 bits of an address in sima_ide.c tell apart.
abbrev pub lba_count : ℕ
lba_count = 268435456

-- The ATA disk behind sima_ide.c: what a transfer returns, and what it does to the disk. `contents`
-- says what is found at an address; the laws are those of a disk: a sector holds bytes; a read that
-- succeeds returns what the sector holds, and changes nothing; the bytes of a write that succeeds
-- are found there, and any write leaves the sectors alone whose addresses have other low 28 bits.
pub record Drive : Type 1 where
  pub Disk : Type 0
  pub ide_read_sector : ℕ → Disk → Option Sector × Disk
  pub ide_write_sector : ℕ → Sector → Disk → Bool × Disk
  pub contents : Disk → ℕ → Sector
  pub contents_bytes : (d : Disk) (l o : ℕ) → contents d l o < 256
  pub read_gives :
      (lba : ℕ) (d : Disk) (s : Sector) (o : ℕ)
      → (ide_read_sector lba d).0 ≡ some s
      → s o ≡ contents d lba o
  pub read_keeps :
      (lba : ℕ) (d : Disk) (l o : ℕ) → contents (ide_read_sector lba d).1 l o ≡ contents d l o
  pub write_stores :
      (lba : ℕ) (s : Sector) (d : Disk) (o : ℕ)
      → s o < 256
      → (ide_write_sector lba s d).0 ≡ true
      → contents (ide_write_sector lba s d).1 lba o ≡ s o
  pub write_keeps :
      (lba : ℕ) (s : Sector) (d : Disk) (l o : ℕ)
      → l % lba_count ≢ lba % lba_count
      → contents (ide_write_sector lba s d).1 l o ≡ contents d l o

-- FAT_TYPE
pub data FatType : Type 0 where
  unknown fat12 fat16 fat32 : FatType

-- The globals that fs_init computes from the BPB.
pub record Volume : Type 0 where
  pub fat_type : FatType
  pub base_lba : ℕ
  pub spc_shift : ℕ
  pub fats : ℕ
  pub fat_start_lba : ℕ
  pub root_start_lba : ℕ
  pub data_start_lba : ℕ
  pub total_sectors : ℕ
  pub sectors_per_fat : ℕ
  pub root_dir_sectors : ℕ
  pub count_of_clusters : ℕ

-- g_fat_sector, g_cur_fat_sector_lba, g_fat_dirty, g_alloc_hint, and the disk.
pub record State (Disk : Type 0) : Type 0 where
  pub fat_sector : Sector
  pub cur_lba : ℕ
  pub dirty : Bool
  pub alloc_hint : ℕ
  pub disk : Disk

unfoldable pub lba_in_volume : Volume → ℕ → Bool
lba_in_volume v lba =
    if v.total_sectors == 0
    then true
    else if ltb lba v.base_lba
    then false
    else ltb (lba - v.base_lba) v.total_sectors

module _ (drv : Drive) (v : Volume) where
  open drv use {Disk, ide_read_sector, ide_write_sector}

  unfoldable pub read_sector : ℕ → Disk → Option Sector × Disk
  read_sector lba d = if lba_in_volume v lba then ide_read_sector lba d else (none, d)

  unfoldable pub write_sector : ℕ → Sector → Disk → Bool × Disk
  write_sector lba s d = if lba_in_volume v lba then ide_write_sector lba s d else (false, d)

  -- A transfer that fails ends the loop.
  pub then_go_on : Bool × Disk → (Disk → Bool × Disk) → Bool × Disk
  then_go_on (true, d) next = next d
  then_go_on (false, d) next = (false, d)

  -- Where copy `fat_index` of the cached sector lies.
  pub copy_lba : ℕ → ℕ → ℕ
  copy_lba cur_lba fat_index =
      let sector_offset = u32 (cur_lba + 4294967296 - v.fat_start_lba) in
      u32 (v.fat_start_lba + sector_offset + fat_index * v.sectors_per_fat)

  -- One FAT copy for each round left, from copy `fat_index` on.
  pub flush_loop : ℕ → ℕ → State Disk → Disk → Bool × Disk
  flush_loop zero fat_index st d = (true, d)
  flush_loop (suc left) fat_index st d =
      then_go_on (write_sector (copy_lba st.cur_lba fat_index) st.fat_sector d)
        (λ d'. flush_loop left (fat_index + 1) st d')

  -- After the loop of `fat_flush_fat_sector`.
  pub flushed : State Disk → Bool × Disk → Bool × State Disk
  flushed st (true, d) = (true, record st { dirty = false; disk = d })
  flushed st (false, d) = (false, record st { disk = d })

  pub fat_flush_fat_sector : State Disk → Bool × State Disk
  fat_flush_fat_sector st =
      if st.cur_lba == 0
      then (true, st)
      else if st.dirty
      then flushed st (flush_loop v.fats 0 st st.disk)
      else (true, st)

  -- After the read of `fat_load_fat_sector`.
  pub fetched : ℕ → State Disk → Option Sector × Disk → Bool × State Disk
  fetched lba st (none, d) = (false, record st { cur_lba = 0; disk = d })
  fetched lba st (some s, d) =
      (true, record st { fat_sector = s; cur_lba = lba; dirty = false; disk = d })

  -- The part of `fat_load_fat_sector` after the flush.
  pub fetch : ℕ → Bool × State Disk → Bool × State Disk
  fetch lba (false, st) = (false, st)
  fetch lba (true, st) = fetched lba st (read_sector lba st.disk)

  pub fat_load_fat_sector : ℕ → State Disk → Bool × State Disk
  fat_load_fat_sector sector_offset_in_fat st =
      let lba = u32 (v.fat_start_lba + sector_offset_in_fat) in
      if lba == st.cur_lba
      then (true, st)
      else fetch lba (if st.dirty then fat_flush_fat_sector st else (true, st))
