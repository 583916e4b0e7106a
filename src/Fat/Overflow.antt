-- ===== src/Fat/Overflow.antt =====
-- kernel/sima_fs.c, `fat_load_bpb`: the size of the FAT copies is a 32-bit product.
use seolsem.Base.{ℕ, ◌+◌, ◌*◌, ◌≤◌, ◌<◌, ◌≡◌, some, u32, arith}
use seolsem.Fat.{Volume}
use seolsem.Fat.Mount.{Bpb, Mounted, geometry, check_geometry, fat_sectors_of}

abbrev pub wider : Bpb → Bpb
wider b = record b { fat_secs32 = b.fat_secs32 + 2147483648 }

abbrev pub with_tables : Volume → ℕ → Volume
with_tables v n = record v { sectors_per_fat = n }

module _ (b : Bpb) (base shift : ℕ) (short : b.fat_secs16 ≡ 0) (two : b.fats ≡ 2) where
  tables_wrap : u32 (fat_sectors_of (wider b) * b.fats) ≡ u32 (fat_sectors_of b * b.fats)
  unfolding fat_sectors_of
  tables_wrap = rw two (ground arith)

  geometry-wider :
      geometry (wider b) base shift
      ≡ with_tables (geometry b base shift) (b.fat_secs32 + 2147483648)
  unfolding geometry
  geometry-wider = rw tables_wrap (ground (arith, short))

  check_geometry-wider :
      (v : Volume) (n : ℕ) (mt : Mounted)
      → 0 < n
      → check_geometry b v ≡ some mt
      → check_geometry (wider b) (with_tables v n)
        ≡ some (record mt { bpb = wider b; volume = with_tables v n })
  unfolding check_geometry
  check_geometry-wider v n mt h e = ground arith

  -- The size of the FAT copies wraps at 32 bits: wherever fat_load_bpb accepts a BPB with two FAT
  -- copies and a 32-bit FAT size, it accepts the one whose FAT size is 2^31 larger, with the same
  -- layout otherwise, though its copies alone take 2^32 sectors or more.
  pub geometry-wraps :
      (mt : Mounted)
      → check_geometry b (geometry b base shift) ≡ some mt
      → let n = b.fat_secs32 + 2147483648 in
        (check_geometry (wider b) (geometry (wider b) base shift)
          ≡ some (record mt { bpb = wider b; volume = with_tables (geometry b base shift) n }))
        × (4294967296 ≤ n * b.fats)
  geometry-wraps mt h =
      let n = b.fat_secs32 + 2147483648 in
      (
        rw geometry-wider (check_geometry-wider (geometry b base shift) n mt (omega arith) h),
        rw two (omega arith),
      )
