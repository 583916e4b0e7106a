-- ===== src/Fat/Entry.antt =====
-- `fat_get_entry` reads the entry of the table that the kernel sees.
use seolsem.Base.{
  ℕ, ◌+◌, ◌*◌, ◌/◌, ◌%◌, ◌≤◌, ◌<◌, ◌≡◌, ◌⊎◌, inl, inr, refl, ap, ◌∙◌, Bool, true, false, ◌==◌,
  arith, if_rule,
}
use seolsem.Fat.{Drive, FatType, unknown, fat12, fat16, fat32, Volume, State, fat_load_fat_sector}
use seolsem.Fat.Bytes.{Buffer, le16, le32}
use seolsem.Fat.Cache.{IsLaidOut, IsCoherent, SameTable, SameTable-trans, fat_byte}
use seolsem.Fat.Load.{IsReliable, Loads, fat_load_fat_sector-Loads}
use seolsem.Fat.Table.{
  fat_bad_cluster, fat_cluster_is_valid, fat_offset, decode, straddled, entry_of, fat_get_entry,
}

-- The bytes of an entry.
abbrev pub entry_width : FatType → ℕ
entry_width fat12 = 2
entry_width fat16 = 2
entry_width fat32 = 4
entry_width unknown = 4

pub entry_width_two : (t : FatType) → 2 ≤ entry_width t
entry_width_two fat12 = omega arith
entry_width_two fat16 = omega arith
entry_width_two fat32 = omega arith
entry_width_two unknown = omega arith

-- The FAT has an entry for every cluster of the volume.
abbrev pub Covers : Volume → Type 0
Covers v =
    (c : ℕ)
    → fat_cluster_is_valid v c ≡ true
    → fat_offset v.fat_type c + entry_width v.fat_type ≤ v.sectors_per_fat * 512

pub decode-agree :
    (t : FatType) (c : ℕ) (p q : Buffer) (o o' : ℕ)
    → p o ≡ q o'
    → p (o + 1) ≡ q (o' + 1)
    → (entry_width t ≡ 4 → (p (o + 2) ≡ q (o' + 2)) × (p (o + 3) ≡ q (o' + 3)))
    → decode t c p o ≡ decode t c q o'
unfolding decode le16 le32
decode-agree fat12 c p q o o' a b h = rw (a, b)
decode-agree fat16 c p q o o' a b h = rw (a, b)
decode-agree fat32 c p q o o' a b h = rw (a, b, (h refl).0, (h refl).1)
decode-agree unknown c p q o o' a b h = rw (a, b, (h refl).0, (h refl).1)

module _ (drv : Drive) (v : Volume) where
  open drv use {Disk}

  -- The entry of a cluster in the table that the kernel sees.
  unfoldable pub table_entry : State Disk → ℕ → ℕ
  table_entry st c = decode v.fat_type c (fat_byte drv v st) (fat_offset v.fat_type c)

  pub table_entry-SameTable :
      (st st' : State Disk) (c : ℕ)
      → SameTable drv v st st'
      → fat_offset v.fat_type c + entry_width v.fat_type ≤ v.sectors_per_fat * 512
      → table_entry st' c ≡ table_entry st c
  unfolding table_entry
  table_entry-SameTable st st' c same fits =
      let off = fat_offset v.fat_type c in
      decode-agree v.fat_type c (fat_byte drv v st') (fat_byte drv v st) off off
        (same.bytes off (omega (arith, entry_width_two v.fat_type)))
        (same.bytes (off + 1) (omega (arith, entry_width_two v.fat_type)))
        λ w. (same.bytes (off + 2) (omega arith), same.bytes (off + 3) (omega arith))

  -- A byte of the cached sector, by its offset in the table.
  pub cached_byte :
      (st : State Disk) (off o j : ℕ)
      → st.cur_lba ≡ v.fat_start_lba + off / 512
      → j < 512
      → o / 512 ≡ off / 512
      → o % 512 ≡ j
      → st.fat_sector j ≡ fat_byte drv v st o
  unfolding fat_byte
  cached_byte st off o j cur l same place = ground (arith, ap st.fat_sector place)

  abbrev pub Aligned : FatType → ℕ → Type 0
  Aligned fat12 off = Unit {0}
  Aligned fat16 off = off % 2 ≡ 0
  Aligned fat32 off = off % 4 ≡ 0
  Aligned unknown off = off % 4 ≡ 0

  pub fat_offset-Aligned : (t : FatType) (c : ℕ) → Aligned t (fat_offset t c)
  unfolding fat_offset
  fat_offset-Aligned fat12 c = tt
  fat_offset-Aligned fat16 c = omega arith
  fat_offset-Aligned fat32 c = omega arith
  fat_offset-Aligned unknown c = omega arith

  -- The entry of the cached sector is that of the table, where it lies in one sector.
  decode_cached :
      (t : FatType) (c off : ℕ) (st st' : State Disk)
      → off + entry_width t ≤ v.sectors_per_fat * 512
      → off % 512 + entry_width t ≤ 512
      → st'.cur_lba ≡ v.fat_start_lba + off / 512
      → SameTable drv v st st'
      → decode t c st'.fat_sector (off % 512) ≡ decode t c (fat_byte drv v st) off
  decode_cached t c off st st' fits one cur same =
      decode-agree t c st'.fat_sector (fat_byte drv v st) (off % 512) off
        (byte off (off % 512) (omega (arith, entry_width_two t)) (omega (arith, entry_width_two t))
          refl)
        (byte (off + 1) (off % 512 + 1) (omega (arith, entry_width_two t))
          (omega (arith, entry_width_two t)) (omega (arith, entry_width_two t)))
        λ w. (
          byte (off + 2) (off % 512 + 2) (omega arith) (omega arith) (omega arith),
          byte (off + 3) (off % 512 + 3) (omega arith) (omega arith) (omega arith),
        )
    where
      byte :
          (o j : ℕ)
          → o < off + entry_width t
          → (j < 512) × (o / 512 ≡ off / 512)
          → o % 512 ≡ j
          → st'.fat_sector j ≡ fat_byte drv v st o
      byte o j below at place =
          cached_byte st' off o j cur at.0 at.1 place ∙ same.bytes o (omega arith)

  module _ (laid : IsLaidOut v) where
    -- The outcome of a read of an entry with the value `x`: that value, unless a transfer failed.
    pub record Gets (st : State Disk) (x : ℕ) (r : ℕ × State Disk) : Type 0 where
      pub same : SameTable drv v st r.1
      pub value : (r.0 ≡ x) ⊎ ((r.0 ≡ fat_bad_cluster) × ¬ (IsReliable drv v laid))

    failed_load :
        {lba x : ℕ} {st st' : State Disk}
        → Loads drv v laid lba st (false, st')
        → Gets st x (fat_bad_cluster, st')
    failed_load h = record { same = h.same; value = inr (refl, λ rel. cc (h.succeeds rel)) }

    straddled-Gets :
        (c off b1 : ℕ) (st st' : State Disk) (r : Bool × State Disk)
        → off + 2 ≤ v.sectors_per_fat * 512
        → off % 512 ≡ 511
        → b1 ≡ fat_byte drv v st off
        → SameTable drv v st st'
        → Loads drv v laid (v.fat_start_lba + (off / 512 + 1)) st' r
        → Gets st (decode fat12 c (fat_byte drv v st) off) (straddled drv v c b1 r)
    unfolding straddled decode le16
    straddled-Gets c off b1 st st' (false, s) fits last e same h = record {
      same = SameTable-trans drv v same h.same;
      value = inr (refl, λ rel. cc (h.succeeds rel));
    }
    straddled-Gets c off b1 st st' (true, s) fits last e same h =
        let second : s.fat_sector 0 ≡ fat_byte drv v st (off + 1) =
          cached_byte s (off + 1) (off + 1) 0 (h.current refl ∙ omega arith) (omega arith) refl
            (omega arith)
          ∙ (SameTable-trans drv v same h.same).bytes (off + 1) (omega arith) in
        record { same = SameTable-trans drv v same h.same; value = inl (rw (e, second) refl) }

    entry_of-Gets :
        (t : FatType) (c off : ℕ) (st : State Disk)
        → off + entry_width t ≤ v.sectors_per_fat * 512
        → Aligned t off
        → (r : Bool × State Disk) → Loads drv v laid (v.fat_start_lba + off / 512) st r
        → Gets st (decode t c (fat_byte drv v st) off) (entry_of drv v t c off r)
    unfolding entry_of
    entry_of-Gets fat12 c off st fits al (false, st') h = failed_load h
    entry_of-Gets fat16 c off st fits al (false, st') h = failed_load h
    entry_of-Gets fat32 c off st fits al (false, st') h = failed_load h
    entry_of-Gets unknown c off st fits al (false, st') h = failed_load h
    entry_of-Gets fat12 c off st fits al (true, st') h =
        if_rule (Gets st (decode fat12 c (fat_byte drv v st) off)) (off % 512 == 511)
          (straddled drv v c (st'.fat_sector 511) (fat_load_fat_sector drv v (off / 512 + 1) st'))
          (decode fat12 c st'.fat_sector (off % 512), st')
          (λ e.
            straddled-Gets c off (st'.fat_sector 511) st st'
              (fat_load_fat_sector drv v (off / 512 + 1) st') fits (ground arith)
              (cached_byte st' off off 511 (h.current refl) (omega arith) refl (ground arith)
                ∙ h.same.bytes off (omega arith))
              h.same
              (fat_load_fat_sector-Loads drv v laid (off / 512 + 1) st' (ground arith)
                h.same.coherent))
          λ n. record {
            same = h.same;
            value =
                inl (decode_cached fat12 c off st st' fits (ground arith) (h.current refl) h.same);
          }
    entry_of-Gets fat16 c off st fits al (true, st') h = record {
      same = h.same;
      value = inl (decode_cached fat16 c off st st' fits (omega arith) (h.current refl) h.same);
    }
    entry_of-Gets fat32 c off st fits al (true, st') h = record {
      same = h.same;
      value = inl (decode_cached fat32 c off st st' fits (omega arith) (h.current refl) h.same);
    }
    entry_of-Gets unknown c off st fits al (true, st') h = record {
      same = h.same;
      value = inl (decode_cached unknown c off st st' fits (omega arith) (h.current refl) h.same);
    }

    -- fat_get_entry of a cluster of a laid-out volume whose FAT covers its clusters, with a cache
    -- in order: it returns the entry of the table that the kernel sees, or FAT_BAD_CLUSTER, and
    -- the latter in its place only if the disk is not reliable; whatever transfers fail, the table
    -- stays as it is.
    pub fat_get_entry-Gets :
        (c : ℕ) (st : State Disk)
        → Covers v
        → IsCoherent drv v st
        → fat_cluster_is_valid v c ≡ true
        → Gets st (table_entry st c) (fat_get_entry drv v c st)
    unfolding fat_get_entry table_entry
    fat_get_entry-Gets c st covers h valid = rw valid (
        entry_of-Gets v.fat_type c (fat_offset v.fat_type c) st (covers c valid)
          (fat_offset-Aligned v.fat_type c)
          (fat_load_fat_sector drv v (fat_offset v.fat_type c / 512) st)
          (fat_load_fat_sector-Loads drv v laid (fat_offset v.fat_type c / 512) st
            (omega (arith, covers c valid, entry_width_two v.fat_type)) h))
