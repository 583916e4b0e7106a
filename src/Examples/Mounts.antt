-- ===== src/Examples/Mounts.antt =====
-- The theorems on mounting, at a boot sector and a partition table written out.
use seolsem.Base.{ℕ, ◌*◌, ◌≤◌, ◌≡◌, refl, List, [], ◌∷◌, some, get_or, ◌==◌, if◌then◌else◌, arith}
use seolsem.Examples.Disk.{ram_disk, start, start-IsCoherent}
use seolsem.Fat.{fat16, fat32, State, read_sector, lba_in_volume}
use seolsem.Fat.Bytes.{le16, le32}
use seolsem.Fat.Mount.{
  Bpb, Mounted, shift_loop, fat_calc_spc_shift, determine_fat_type, geometry, check_geometry,
  read_volume, in_partition, in_first, reset_cache, fs_init, partition_loop,
  mbr_find_partition_start, sectors_of, fat_sectors_of, read_bpb,
}
use seolsem.Fat.Geometry.{IsSound, fs_init-IsSound}
use seolsem.Fat.Overflow.{wider, with_tables, geometry-wraps}

-- The bytes 0x0B to 0x24 of a boot sector of a FAT16 volume.
abbrev boot_bytes : List ℕ
boot_bytes = 0 ∷ 2 ∷ 1 ∷ 1 ∷ 0 ∷ 2 ∷ 0 ∷ 2 ∷ 0 ∷ 80 ∷ 248 ∷ 80 ∷ 0 ∷ 63 ∷ 0 ∷ 16 ∷ 0 ∷ []

abbrev boot : ℕ → ℕ
boot o =
    if o == 510
    then 0x55
    else if o == 511
    then 0xAA
    else get_or (0 ∷ 0 ∷ 0 ∷ 0 ∷ 0 ∷ 0 ∷ 0 ∷ 0 ∷ 0 ∷ 0 ∷ 0 ∷ boot_bytes) o 0

abbrev blank : Bpb
blank = record {
  bytes_per_sec = 0;
  sec_per_clus = 0;
  res_sectors = 0;
  fats = 0;
  root_ents = 0;
  total_sectors16 = 0;
  media = 0;
  fat_secs16 = 0;
  sec_per_track = 0;
  heads = 0;
  hidden_sectors = 0;
  total_sectors32 = 0;
  fat_secs32 = 0;
  ext_flags = 0;
  fs_ver = 0;
  root_cluster = 0;
  fs_info = 0;
  backup_boot = 0;
}

abbrev mounted : Mounted
mounted = record {
  bpb = record blank {
    bytes_per_sec = 512;
    sec_per_clus = 1;
    res_sectors = 1;
    fats = 2;
    root_ents = 512;
    total_sectors16 = 20480;
    media = 248;
    fat_secs16 = 80;
    sec_per_track = 63;
    heads = 16;
  };
  volume = record {
    fat_type = fat16;
    base_lba = 0;
    spc_shift = 0;
    fats = 2;
    fat_start_lba = 1;
    root_start_lba = 161;
    data_start_lba = 193;
    total_sectors = 20480;
    sectors_per_fat = 80;
    root_dir_sectors = 32;
    count_of_clusters = 20287;
  };
  cwd_cluster = 0;
}

abbrev before : State (ℕ → ℕ → ℕ)
before = record start { disk = λ l o. boot o }

fs_init-mounts : (fs_init ram_disk blank before).0 ≡ some mounted
unfolding fs_init reset_cache in_first in_partition read_volume fat_calc_spc_shift shift_loop
    read_bpb geometry check_geometry determine_fat_type sectors_of fat_sectors_of read_sector
    lba_in_volume le16 le32 mbr_find_partition_start partition_loop
fs_init-mounts = refl

fs_init-IsSound_example : IsSound ram_disk mounted (fs_init ram_disk blank before).1
fs_init-IsSound_example =
    fs_init-IsSound ram_disk blank before mounted start-IsCoherent.octets fs_init-mounts
      (omega arith)

-- Two partitions, from sectors 63 and 2048, neither active.
abbrev table : ℕ → ℕ
table o =
    if o == 450
    then 6
    else if o == 454
    then 63
    else if o == 466
    then 6
    else if o == 471
    then 8
    else if o == 510
    then 0x55
    else if o == 511
    then 0xAA
    else 0

abbrev big : Bpb
big = record blank {
  sec_per_clus = 8;
  res_sectors = 32;
  fats = 2;
  total_sectors32 = 8000000;
  fat_secs32 = 7800;
  root_cluster = 2;
}

abbrev big_mounted : Mounted
big_mounted = record {
  bpb = big;
  volume = record {
    fat_type = fat32;
    base_lba = 0;
    spc_shift = 3;
    fats = 2;
    fat_start_lba = 32;
    root_start_lba = 15632;
    data_start_lba = 15632;
    total_sectors = 8000000;
    sectors_per_fat = 7800;
    root_dir_sectors = 0;
    count_of_clusters = 998046;
  };
  cwd_cluster = 2;
}

big_accepted : check_geometry big (geometry big 0 3) ≡ some big_mounted
unfolding check_geometry geometry determine_fat_type sectors_of fat_sectors_of
big_accepted = refl

geometry-wraps_example :
    (check_geometry (wider big) (geometry (wider big) 0 3)
      ≡ some (record big_mounted {
        bpb = wider big;
        volume = with_tables (geometry big 0 3) 2147491448;
      }))
    × (4294967296 ≤ 2147491448 * 2)
geometry-wraps_example = geometry-wraps big 0 3 refl refl big_mounted big_accepted
