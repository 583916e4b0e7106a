-- ===== src/Fat/Geometry.antt =====
-- kernel/sima_fs.c, the volume that a mount accepts: `fat_load_bpb` and `fs_init`.
use mathlib.Core.Path.{subst}
use native.Mathlib.Nat.{div-mul-le_self, mul_comm}
use seolsem.Base.{
  ℕ, ◌+◌, ◌-◌, ◌*◌, ◌^◌, ◌≤◌, ◌<◌, ◌≡◌, refl, sym, not, Option, none, some, ◌==◌, if◌then◌else◌,
  arith, if_rule,
}
use seolsem.Fat.{lba_count, Sector, Drive, Volume, State, read_sector}
use seolsem.Fat.Bytes.{Buffer, le16}
use seolsem.Fat.Cache.{IsLaidOut, IsCoherent}
use seolsem.Fat.Mount.{
  Bpb, Mounted, fat_calc_spc_shift, geometry, check_geometry, read_volume, in_partition, in_first,
  reset_cache, fs_init, unset, has_signature, mbr_find_partition_start, read_bpb,
}
use seolsem.Fat.Partition.{fat_calc_spc_shift_iff}

-- The parts of a volume follow each other on the disk: the reserved sectors, the copies of the FAT,
-- the root directory, and the clusters, within the sectors of the volume.
pub record IsInOrder (b : Bpb) (v : Volume) : Type 0 where
  pub reserved : v.fat_start_lba ≡ v.base_lba + b.res_sectors
  pub tables : v.root_start_lba ≡ v.fat_start_lba + v.sectors_per_fat * v.fats
  pub root : v.data_start_lba ≡ v.root_start_lba + v.root_dir_sectors
  pub room : v.root_dir_sectors * 512 < b.root_ents * 32 + 512
  pub roots : b.root_ents * 32 ≤ v.root_dir_sectors * 512
  pub cluster_size : b.sec_per_clus ≡ 2 ^ v.spc_shift
  pub clusters :
      v.data_start_lba + v.count_of_clusters * 2 ^ v.spc_shift ≤ v.base_lba + v.total_sectors
  pub laid_out : IsLaidOut v

-- The layout ends within the sectors that the disk tells apart.
abbrev pub IsInRange : Bpb → Volume → Type 0
IsInRange b v =
    v.base_lba + b.res_sectors + v.sectors_per_fat * v.fats + v.root_dir_sectors ≤ lba_count

-- What `check_geometry` makes sure of.
record IsAccepted (b : Bpb) (v : Volume) (mt : Mounted) : Type 0 where
  same_bpb : mt.bpb ≡ b
  same_volume : mt.volume ≡ v
  some_fat : 0 < b.fats
  some_reserved : 0 < b.res_sectors
  above : v.base_lba ≤ v.data_start_lba
  within : v.data_start_lba - v.base_lba < v.total_sectors

check_geometry-IsAccepted :
    (b : Bpb) (v : Volume) (mt : Mounted) → check_geometry b v ≡ some mt → IsAccepted b v mt
unfolding check_geometry
check_geometry-IsAccepted b v mt h = record {
  same_bpb = ground arith;
  same_volume = ground arith;
  some_fat = ground arith;
  some_reserved = ground arith;
  above = ground arith;
  within = ground arith;
}

module _ (b : Bpb) (base shift : ℕ) where
  abbrev v : Volume
  v = geometry b base shift

  geometry-IsInOrder :
      IsInRange b v
      → b.sec_per_clus ≡ 2 ^ shift
      → 0 < b.fats
      → 0 < b.res_sectors
      → base ≤ v.data_start_lba
      → v.data_start_lba - base < v.total_sectors
      → IsInOrder b v
  unfolding geometry
  geometry-IsInOrder range p fats res above within = record {
    reserved = ground arith;
    tables = ground arith;
    root = ground arith;
    room = ground arith;
    roots = ground arith;
    cluster_size = p;
    clusters =
        omega (arith, div-mul-le_self (v.total_sectors - (v.data_start_lba - base)) (2 ^ shift));
    laid_out = record {
      after_start = ground arith;
      some_fat = fats;
      fits = ground (arith, mul_comm v.fats v.sectors_per_fat);
    };
  }

-- A volume that is mounted has its parts in order.
record Yields (o : Option Mounted) : Type 0 where
  parts : (mt : Mounted) → o ≡ some mt → IsInRange mt.bpb mt.volume → IsInOrder mt.bpb mt.volume

none-Yields : Yields none
none-Yields = record { parts = λ mt. cc }

check_geometry-Yields :
    (b : Bpb) (base shift : ℕ)
    → b.sec_per_clus ≡ 2 ^ shift
    → Yields (check_geometry b (geometry b base shift))
unfolding geometry
check_geometry-Yields b base shift size = record {
  parts = λ mt h range.
      let v = geometry b base shift in
      let ok = check_geometry-IsAccepted b v mt h in
      subst (λ v'. IsInOrder mt.bpb v') (sym ok.same_volume)
        (subst (λ b'. IsInOrder b' v) (sym ok.same_bpb)
          (geometry-IsInOrder b base shift
            (subst (λ b'. IsInRange b' v) ok.same_bpb
              (subst (λ v'. IsInRange mt.bpb v') ok.same_volume range))
            size ok.some_fat ok.some_reserved ok.above ok.within));
}

read_volume-Yields : (old : Bpb) (base : ℕ) (p : Buffer) → Yields (read_volume old base p)
unfolding read_volume read_bpb
read_volume-Yields old base p = with_shift (fat_calc_spc_shift (p 0x0D)) refl
  where
    with_shift :
        (o : Option ℕ)
        → fat_calc_spc_shift (p 0x0D) ≡ o
        → Yields (elim o [
          | none ↦ none
          | some spc_shift ↦
              check_geometry (read_bpb old p) (geometry (read_bpb old p) base spc_shift)
        ])
    with_shift none e = none-Yields
    with_shift (some shift) e =
        check_geometry-Yields (read_bpb old p) base shift
          ((fat_calc_spc_shift_iff (p 0x0D) shift).0 e).0

-- The mount of `mt` left the volume sound: its parts follow each other, and the cache of the FAT is
-- empty and in order.
pub record IsSound (drv : Drive) (mt : Mounted) (st : State drv.Disk) : Type 0 where
  pub parts : IsInOrder mt.bpb mt.volume
  pub coherent : IsCoherent drv mt.volume st

module _ (drv : Drive) (old : Bpb) where
  open drv use {Disk}

  in_partition-Yields :
      (base : ℕ) (r : Option Sector × Disk) → Yields (in_partition drv old base r).0
  unfolding in_partition
  in_partition-Yields base (none, d) = none-Yields
  in_partition-Yields base (some p, d) =
      if_rule (λ (r : Option Mounted × Disk). Yields r.0) (le16 p 0x0B == 512)
        (read_volume old base p, d) (none, d) (λ e. read_volume-Yields old base p) λ e. none-Yields

  in_first-Yields : (r : Option Sector × Disk) → Yields (in_first drv old r).0
  unfolding in_first
  in_first-Yields (none, d) = none-Yields
  in_first-Yields (some p, d) =
      let Y = λ (r : Option Mounted × Disk). Yields r.0 in
      let partition : Option Mounted × Disk = elim (mbr_find_partition_start p) [
        | none ↦ (none, d)
        | some start ↦ in_partition drv old start (read_sector drv unset start d)
      ] in
      if_rule Y (not (has_signature p)) (none, d)
        (if le16 p 0x0B == 512 then (read_volume old 0 p, d) else partition) (λ e. none-Yields)
        λ e.
          if_rule Y (le16 p 0x0B == 512) (read_volume old 0 p, d) partition
            (λ e'. read_volume-Yields old 0 p) λ e'. from_table (mbr_find_partition_start p)
    where
      from_table :
          (o : Option ℕ)
          → Yields
              (elim o as (λ x. Option Mounted × Disk) [
                | none ↦ (none, d)
                | some start ↦ in_partition drv old start (read_sector drv unset start d)
              ]).0
      from_table none = none-Yields
      from_table (some start) = in_partition-Yields start (read_sector drv unset start d)

  reset_cache-IsSound :
      (st : State Disk) (r : Option Mounted × Disk) (mt : Mounted)
      → Yields r.0
      → ((o : ℕ) → st.fat_sector o < 256)
      → (reset_cache drv st r).0 ≡ some mt
      → IsInRange mt.bpb mt.volume
      → IsSound drv mt (reset_cache drv st r).1
  unfolding reset_cache
  reset_cache-IsSound st (none, d) mt y octets h range = cc
  reset_cache-IsSound st (some mt', d) mt y octets h range = record {
    parts = y.parts mt h range;
    coherent = record {
      inside = λ nz. absurd (nz refl);
      clean = λ e nz. absurd (nz refl);
      loaded = λ e. cc;
      octets = octets;
    };
  }

  -- fs_init on any disk, with any g_bpb left by earlier mounts and a sector cache of bytes: if it
  -- mounts a volume whose layout ends within the 2^28 sectors that an address tells apart, the
  -- reserved sectors, the FAT copies, the root directory and the clusters follow each other within
  -- the sectors of the volume, the cluster size is the power of two of the shift, the volume is
  -- laid out as the operations on the FAT need it, and their cache is in order.
  pub fs_init-IsSound :
      (st : State Disk) (mt : Mounted)
      → ((o : ℕ) → st.fat_sector o < 256)
      → (fs_init drv old st).0 ≡ some mt
      → IsInRange mt.bpb mt.volume
      → IsSound drv mt (fs_init drv old st).1
  unfolding fs_init
  fs_init-IsSound st mt octets h range =
      let r = in_first drv old (read_sector drv unset 0 st.disk) in
      reset_cache-IsSound st r mt (in_first-Yields (read_sector drv unset 0 st.disk)) octets h range
