-- ===== src/Fat/Mount.antt =====
-- kernel/sima_fs.c, mounting: the partition table, the BPB and the geometry computed from it
-- (`mbr_find_partition_start`, `fat_calc_spc_shift`, `determine_fat_type`, `fat_load_bpb`,
-- `fs_init`). A mount that fails leaves the volume unready, so that no operation reads the globals
-- it may have set; the next mount starts from any g_bpb.
use seolsem.Base.{
  ℕ, zero, suc, ◌+◌, ◌-◌, ◌*◌, ◌/◌, ◌^◌, Bool, true, false, not, ◌&&◌, ◌||◌, Option, none, some,
  ltb, ◌==◌, if◌then◌else◌, bit_and, u32,
}
use seolsem.Fat.{Sector, Drive, FatType, unknown, fat12, fat16, fat32, Volume, State, read_sector}
use seolsem.Fat.Bytes.{Buffer, le16, le32}

-- FAT_BPB
pub record Bpb : Type 0 where
  pub bytes_per_sec : ℕ
  pub sec_per_clus : ℕ
  pub res_sectors : ℕ
  pub fats : ℕ
  pub root_ents : ℕ
  pub total_sectors16 : ℕ
  pub media : ℕ
  pub fat_secs16 : ℕ
  pub sec_per_track : ℕ
  pub heads : ℕ
  pub hidden_sectors : ℕ
  pub total_sectors32 : ℕ
  pub fat_secs32 : ℕ
  pub ext_flags : ℕ
  pub fs_ver : ℕ
  pub root_cluster : ℕ
  pub fs_info : ℕ
  pub backup_boot : ℕ

-- The loop of `fat_calc_spc_shift`; eight rounds, since the number has eight bits.
unfoldable pub shift_loop : ℕ → ℕ → ℕ → Option ℕ
shift_loop zero sec_per_clus shift = none
shift_loop (suc left) sec_per_clus shift =
    let rest = shift_loop left (sec_per_clus / 2) (shift + 1) in
    if bit_and sec_per_clus 1 == 0
    then rest
    else if not (sec_per_clus == 1)
    then none
    else if ltb 7 shift
    then none
    else some shift

unfoldable pub fat_calc_spc_shift : ℕ → Option ℕ
unfolding shift_loop
fat_calc_spc_shift sec_per_clus = if sec_per_clus == 0 then none else shift_loop 8 sec_per_clus 0

-- The address of entry `i` of the partition table.
abbrev pub entry_at : ℕ → ℕ
entry_at i = 0x1BE + i * 16

-- The loop of `mbr_find_partition_start` with `left` entries to go; `fallback` is *out_start_lba.
unfoldable pub partition_loop : ℕ → Buffer → ℕ → ℕ → Option ℕ
partition_loop zero mbr i fallback = if not (fallback == 0) then some fallback else none
partition_loop (suc left) mbr i fallback =
    let e = entry_at i in
    let start_lba = le32 mbr (e + 8) in
    let next = partition_loop left mbr (i + 1) fallback in
    let kept = partition_loop left mbr (i + 1) start_lba in
    if mbr (e + 4) == 0
    then next
    else if start_lba == 0
    then next
    else if mbr e == 0x80
    then some start_lba
    else kept

abbrev pub has_signature : Buffer → Bool
has_signature p = p 510 == 0x55 && p 511 == 0xAA

unfoldable pub mbr_find_partition_start : Buffer → Option ℕ
unfolding partition_loop
mbr_find_partition_start mbr = if has_signature mbr then partition_loop 4 mbr 0 0 else none

unfoldable pub determine_fat_type : ℕ → FatType
determine_fat_type clusters =
    if ltb clusters 4085 then fat12 else if ltb clusters 65525 then fat16 else fat32

-- The fields as `fat_load_bpb` reads them; those of FAT32 keep what they held unless they are there.
unfoldable pub read_bpb : Bpb → Buffer → Bpb
read_bpb old p =
    let short = le16 p 0x16 == 0 in
    record {
      bytes_per_sec = le16 p 0x0B;
      sec_per_clus = p 0x0D;
      res_sectors = le16 p 0x0E;
      fats = p 0x10;
      root_ents = le16 p 0x11;
      total_sectors16 = le16 p 0x13;
      media = p 0x15;
      fat_secs16 = le16 p 0x16;
      sec_per_track = le16 p 0x18;
      heads = le16 p 0x1A;
      hidden_sectors = le32 p 0x1C;
      total_sectors32 = le32 p 0x20;
      fat_secs32 = if short then le32 p 0x24 else old.fat_secs32;
      ext_flags = if short then le16 p 0x28 else old.ext_flags;
      fs_ver = if short then le16 p 0x2A else old.fs_ver;
      root_cluster = if short then le32 p 0x2C else old.root_cluster;
      fs_info = if short then le16 p 0x30 else old.fs_info;
      backup_boot = if short then le16 p 0x32 else old.backup_boot;
    }

-- What a mount sets: the BPB, the geometry and the current directory.
pub record Mounted : Type 0 where
  pub bpb : Bpb
  pub volume : Volume
  pub cwd_cluster : ℕ

unfoldable pub sectors_of : Bpb → ℕ
sectors_of b = if not (b.total_sectors16 == 0) then b.total_sectors16 else b.total_sectors32

unfoldable pub fat_sectors_of : Bpb → ℕ
fat_sectors_of b = if not (b.fat_secs16 == 0) then b.fat_secs16 else b.fat_secs32

-- The geometry on a BPB, without its checks.
unfoldable pub geometry : Bpb → ℕ → ℕ → Volume
unfolding determine_fat_type sectors_of fat_sectors_of
geometry b base spc_shift =
    let per_fat = fat_sectors_of b in
    let root_dir = (b.root_ents * 32 + 511) / 512 in
    let fat_start = u32 (base + b.res_sectors) in
    let root_start = u32 (fat_start + u32 (per_fat * b.fats)) in
    let data_start = u32 (root_start + root_dir) in
    let clusters = (sectors_of b - (data_start - base)) / 2 ^ spc_shift in
    record {
      fat_type = determine_fat_type clusters;
      base_lba = base;
      spc_shift = spc_shift;
      fats = b.fats;
      fat_start_lba = fat_start;
      root_start_lba = root_start;
      data_start_lba = data_start;
      total_sectors = sectors_of b;
      sectors_per_fat = per_fat;
      root_dir_sectors = root_dir;
      count_of_clusters = clusters;
    }

abbrev pub is_fat32 : FatType → Bool
is_fat32 fat32 = true
is_fat32 fat12 = false
is_fat32 fat16 = false
is_fat32 unknown = false

-- The checks of `fat_load_bpb` on the geometry, in their order, and the current directory.
unfoldable pub check_geometry : Bpb → Volume → Option Mounted
check_geometry b v =
    if v.total_sectors == 0
    then none
    else if b.fats == 0 || b.res_sectors == 0 || v.sectors_per_fat == 0
    then none
    else if ltb v.data_start_lba v.base_lba
    then none
    else if not (ltb (v.data_start_lba - v.base_lba) v.total_sectors)
    then none
    else if is_fat32 v.fat_type && ltb b.root_cluster 2
    then none
    else some (record {
      bpb = b;
      volume = v;
      cwd_cluster = if is_fat32 v.fat_type then b.root_cluster else 0;
    })

-- `fat_load_bpb` from the boot sector on.
unfoldable pub read_volume : Bpb → ℕ → Buffer → Option Mounted
unfolding read_bpb geometry check_geometry
read_volume old base p = elim (fat_calc_spc_shift (p 0x0D)) [
  | none ↦ none
  | some spc_shift ↦ check_geometry (read_bpb old p) (geometry (read_bpb old p) base spc_shift)
]

-- The globals as `fs_init` clears them; with no total, every sector passes `lba_in_volume`.
abbrev pub unset : Volume
unset = record {
  fat_type = unknown;
  base_lba = 0;
  spc_shift = 0;
  fats = 0;
  fat_start_lba = 0;
  root_start_lba = 0;
  data_start_lba = 0;
  total_sectors = 0;
  sectors_per_fat = 0;
  root_dir_sectors = 0;
  count_of_clusters = 0;
}

module _ (drv : Drive) where
  open drv use {Disk}

  -- The sector at the start of the partition.
  unfoldable pub in_partition : Bpb → ℕ → Option Sector × Disk → Option Mounted × Disk
  unfolding read_volume
  in_partition old base (none, d) = (none, d)
  in_partition old base (some p, d) =
      if le16 p 0x0B == 512 then (read_volume old base p, d) else (none, d)

  -- Sector 0: a boot sector, or a partition table that leads to one.
  unfoldable pub in_first : Bpb → Option Sector × Disk → Option Mounted × Disk
  unfolding in_partition mbr_find_partition_start
  in_first old (none, d) = (none, d)
  in_first old (some p, d) =
      let partition : Option Mounted × Disk = elim (mbr_find_partition_start p) [
        | none ↦ (none, d)
        | some start ↦ in_partition old start (read_sector drv unset start d)
      ] in
      if not (has_signature p)
      then (none, d)
      else if le16 p 0x0B == 512
      then (read_volume old 0 p, d)
      else partition

  -- The end of `fat_load_bpb`: the cache is reset.
  unfoldable pub reset_cache : State Disk → Option Mounted × Disk → Option Mounted × State Disk
  reset_cache st (none, d) = (none, record st { disk = d })
  reset_cache st (some mt, d) = (some mt, record st { cur_lba = 0; dirty = false; disk = d })

  -- `fs_init`; `none` is FALSE, with g_fs_ready cleared.
  unfoldable pub fs_init : Bpb → State Disk → Option Mounted × State Disk
  unfolding in_first reset_cache
  fs_init old st = reset_cache st (in_first old (read_sector drv unset 0 st.disk))
