-- ===== src/Dir/Sectors.antt =====
-- kernel/sima_fs.c, where the sectors of directories and files lie: behind the copies of the FAT,
-- whatever wraps around, so that a write to one leaves the table alone.
use mathlib.Core.Option.{some-injective}
use mathlib.Core.Path.{subst}
use native.Mathlib.Nat.{mul-le-mul_right}
use seolsem.Base.{
  ℕ, ◌+◌, ◌-◌, ◌*◌, ◌/◌, ◌%◌, ◌^◌, ◌≤◌, ◌<◌, ◌≡◌, refl, sym, ◌∙◌, true, Option, some, leb, arith,
  u16, u32, if_rule, Bool-cases, inl, inr,
}
use seolsem.Fat.{lba_count, Sector, Drive, Volume, State, write_sector, lba_in_volume}
use seolsem.Fat.Cache.{SameTable, SameTable-trans, fat_byte, write_sector_keeps}
use seolsem.Fat.Geometry.{IsInOrder}
use seolsem.Fat.Mount.{Bpb}
use seolsem.Fat.Table.{fat_cluster_is_valid, fat_max_cluster}
use seolsem.Act.Keeps.{Keeps}
use seolsem.Dir.{Loc, store, fat_cluster_to_lba, fat_loc_to_lba, is_fixed_root}

-- The volume has sectors, all within those that the disk tells apart, and the sectors of a cluster
-- are counted in a byte.
pub record IsModest (b : Bpb) (v : Volume) : Type 0 where
  pub some_sector : 0 < v.total_sectors
  pub total : v.base_lba + v.total_sectors ≤ lba_count
  pub sectors : b.sec_per_clus < 256

-- A sector that the volume has lies behind the copies of the FAT, and has an address of 28 bits.
abbrev pub IsPast : Volume → ℕ → Type 0
IsPast v lba = lba_in_volume v lba ≡ true → (v.root_start_lba ≤ lba) × (lba < lba_count)

module _ (b : Bpb) (v : Volume) (ord : IsInOrder b v) (modest : IsModest b v) where
  -- A sum that passes 32 bits falls below the volume.
  behind_of_range :
      (x : ℕ) → v.root_start_lba ≤ x → x < v.base_lba + v.total_sectors + 8388608 → IsPast v (u32 x)
  unfolding lba_in_volume
  behind_of_range x low high h = (
    ground (arith, ord.reserved, ord.tables, modest.some_sector, modest.total, low, high, h),
    ground (arith, modest.some_sector, modest.total, h),
  )

  -- The first copy ends before the root directory.
  pub apart : v.fat_start_lba + v.sectors_per_fat ≤ v.root_start_lba
  apart = grind (arith, ord.tables, ord.laid_out.some_fat)

  -- The sectors of a cluster before the wrap-around.
  cluster_to_lba-eq :
      (c : ℕ)
      → fat_cluster_is_valid v c ≡ true
      → (x : ℕ) × (fat_cluster_to_lba v c ≡ u32 x)
        × (v.root_start_lba ≤ x)
        × (x ≤ v.base_lba + v.total_sectors)
  unfolding fat_cluster_to_lba fat_cluster_is_valid fat_max_cluster
  cluster_to_lba-eq c valid =
      let size = 2 ^ v.spc_shift in
      let below : c - 2 ≤ v.count_of_clusters = ground arith in
      let le = mul-le-mul_right size below in
      let index : u32 (c + 4294967294) ≡ c - 2 = ground arith in
      (
        v.data_start_lba + (c - 2) * size,
        rw index
            (ground (arith, le, ord.clusters, ord.reserved, ord.tables, ord.root, modest.total)),
        omega (arith, ord.root),
        omega (arith, le, ord.clusters),
      )

  pub behind_of_cluster :
      (c k : ℕ)
      → fat_cluster_is_valid v c ≡ true
      → k < 8388608
      → IsPast v (u32 (fat_cluster_to_lba v c + k))
  behind_of_cluster c k valid l =
      let (x, e, low, high) = cluster_to_lba-eq c valid in
      let wrap : u32 (u32 x + k) ≡ u32 (x + k) = omega arith in
      rw (e, wrap) (behind_of_range (x + k) (omega arith) (omega arith))

  pub behind_of_loc : (loc : Loc) (at : ℕ × ℕ) → fat_loc_to_lba v loc ≡ some at → IsPast v at.0
  unfolding fat_loc_to_lba
  behind_of_loc loc at =
      if_rule Past (is_fixed_root v loc) _ _
        (λ e.
          if_rule Past (leb v.root_dir_sectors (u16 (loc.root_index / 16))) _ _ (λ e'. cc)
            λ e' q.
              subst (λ (a : ℕ × ℕ). IsPast v a.0) (some-injective _ at q)
                (behind_of_range (v.root_start_lba + u16 (loc.root_index / 16)) (omega arith)
                  (ground (arith, ord.root, ord.clusters))))
        λ e.
          if_rule Past (fat_cluster_is_valid v loc.cluster) _ _
            (λ valid q.
              subst (λ (a : ℕ × ℕ). IsPast v a.0) (some-injective _ at q)
                (behind_of_cluster loc.cluster (u32 loc.offset / 512) valid (omega arith)))
            λ e'. cc
    where
      Past : Option (ℕ × ℕ) → Type 0
      Past o = o ≡ some at → IsPast v at.0

module _ (drv : Drive) (b : Bpb) (v : Volume) (st₀ : State drv.Disk) where
  open drv use {Disk, contents}

  -- A write behind the copies of the FAT leaves the table and the cache.
  pub store-Same :
      (lba : ℕ) (s : Sector)
      → v.fat_start_lba + v.sectors_per_fat ≤ v.root_start_lba
      → IsPast v lba
      → Keeps (λ st. SameTable drv v st₀ st) (store drv b v lba s)
  unfolding store
  store-Same lba s apart past = record {
    at = λ st h. SameTable-trans drv v h (record {
      coherent = record {
        inside = h.coherent.inside;
        clean = λ e nz o.
            h.coherent.clean e nz o ∙ sym (kept st.disk st.cur_lba o (h.coherent.inside nz).1);
        loaded = h.coherent.loaded;
        octets = h.coherent.octets;
      };
      bytes = λ off l.
          unfold fat_byte in
          ground (arith, kept st.disk (v.fat_start_lba + off / 512) (off % 512) (omega arith));
      hint = refl;
    });
  }
    where
      -- The sectors of the first copy are as before.
      kept :
          (d : Disk) (l o : ℕ)
          → l < v.fat_start_lba + v.sectors_per_fat
          → contents (write_sector drv v lba s d).1 l o ≡ contents d l o
      kept d l o below = elim (Bool-cases (lba_in_volume v lba)) [
        | inl e ↦ write_sector_keeps drv v lba s d l o (λ q. omega (arith, past e, q))
        | inr e ↦ unfold write_sector in rw e
      ]
