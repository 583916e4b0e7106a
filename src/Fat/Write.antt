-- ===== src/Fat/Write.antt =====
-- What `fat_set_entry` does to the table that the kernel sees.
use mathlib.Core.Path.{fun_ext}
use seolsem.Base.{
  ℕ, ◌+◌, ◌/◌, ◌%◌, ◌≤◌, ◌<◌, ◌≡◌, ◌≢◌, refl, ◌∙◌, Bool, true, false, ◌&&◌, ◌==◌, arith, if_rule,
}
use seolsem.Fat.{Drive, FatType, unknown, fat12, fat16, fat32, Volume, State, fat_load_fat_sector}
use seolsem.Fat.Cache.{IsLaidOut, IsCoherent, SameTable, fat_byte}
use seolsem.Fat.Load.{IsReliable, Loads, fat_load_fat_sector-Loads}
use seolsem.Fat.Table.{
  fat_cluster_is_valid, fat_max_cluster, fat_offset, is_fat12, entry_set, fat_set_entry,
}
use seolsem.Fat.Codec.{masked, decode-encode, decode-encode_other, encode-IsBytes}
use seolsem.Fat.Entry.{
  entry_width, entry_width_two, Covers, table_entry, table_entry-SameTable, Aligned,
  fat_offset-Aligned,
}
use seolsem.Fat.Update.{fat_byte-IsBytes, stored, fat_byte-stored}

-- The volume has no more clusters than the FAT32 format allows.
abbrev pub IsSized : Volume → Type 0
IsSized v = v.count_of_clusters < 268435445

valid-lt : (v : Volume) (c : ℕ) → IsSized v → fat_cluster_is_valid v c ≡ true → c < 268435456
unfolding fat_cluster_is_valid fat_max_cluster
valid-lt v c sized valid = ground arith

module _ (drv : Drive) (v : Volume) where
  open drv use {Disk}

  one_sector :
      (t : FatType) (off : ℕ)
      → Aligned drv v t off
      → (is_fat12 t && off % 512 == 511) ≡ false
      → off % 512 + entry_width t ≤ 512
  one_sector fat12 off al h = ground arith
  one_sector fat16 off al h = omega arith
  one_sector fat32 off al h = omega arith
  one_sector unknown off al h = omega arith

  module _ (laid : IsLaidOut v) (covers : Covers v) (sized : IsSized v) where
    -- The outcome of a write of `value` to the entry of cluster `c`.
    pub record Sets (st : State Disk) (c value : ℕ) (r : Bool × State Disk) : Type 0 where
      pub coherent : IsCoherent drv v r.1
      pub hint : r.1.alloc_hint ≡ st.alloc_hint
      pub refused : r.0 ≡ false → SameTable drv v st r.1
      pub written : r.0 ≡ true → table_entry drv v r.1 c ≡ masked v.fat_type value
      pub others :
          (c' : ℕ)
          → fat_cluster_is_valid v c' ≡ true
          → c ≢ c'
          → table_entry drv v r.1 c' ≡ table_entry drv v st c'
      pub succeeds : IsReliable drv v laid → is_fat12 v.fat_type ≡ false → r.0 ≡ true

    stored-Sets :
        (c value : ℕ) (st st' : State Disk)
        → fat_cluster_is_valid v c ≡ true
        → SameTable drv v st st'
        → st'.cur_lba ≡ v.fat_start_lba + fat_offset v.fat_type c / 512
        → fat_offset v.fat_type c % 512 + entry_width v.fat_type ≤ 512
        → Sets st c value (true, stored drv v v.fat_type c value (fat_offset v.fat_type c) st')
    unfolding table_entry
    stored-Sets c value st st' valid same cur one =
        let off = fat_offset v.fat_type c in
        let bytes = fat_byte-IsBytes drv v st' same.coherent in
        let view = fun_ext (λ x. fat_byte-stored drv v v.fat_type c value off st' x cur one) in
        record {
          coherent = record {
            inside = same.coherent.inside;
            clean = λ e. cc;
            loaded = λ e z. omega (arith, laid.after_start);
            octets =
                encode-IsBytes v.fat_type c value (off % 512) st'.fat_sector same.coherent.octets;
          };
          hint = same.hint;
          refused = λ e. cc;
          written = λ e. rw view (decode-encode v.fat_type c value off (fat_byte drv v st') bytes);
          others = λ c' valid' ne. rw view (
              decode-encode_other v.fat_type c c' value (fat_byte drv v st') bytes
                (valid-lt v c sized valid) (valid-lt v c' sized valid') ne
              ∙ table_entry-SameTable drv v st st' c' same (covers c' valid'));
          succeeds = λ rel t. refl;
        }

    entry_set-Sets :
        (c value : ℕ) (st : State Disk)
        → fat_cluster_is_valid v c ≡ true
        → (r : Bool × State Disk)
        → Loads drv v laid (v.fat_start_lba + fat_offset v.fat_type c / 512) st r
        → Sets st c value (entry_set drv v v.fat_type c value (fat_offset v.fat_type c) r)
    unfolding entry_set
    entry_set-Sets c value st valid (false, st') h = record {
      coherent = h.same.coherent;
      hint = h.same.hint;
      refused = λ e. h.same;
      written = λ e. cc;
      others = λ c' valid' ne. table_entry-SameTable drv v st st' c' h.same (covers c' valid');
      succeeds = λ rel t. h.succeeds rel;
    }
    entry_set-Sets c value st valid (true, st') h =
        let off = fat_offset v.fat_type c in
        if_rule (Sets st c value) (is_fat12 v.fat_type && off % 512 == 511) (false, st')
          (true, stored drv v v.fat_type c value off st')
          (λ e. record {
            coherent = h.same.coherent;
            hint = h.same.hint;
            refused = λ d. h.same;
            written = λ d. cc;
            others =
                λ c' valid' ne. table_entry-SameTable drv v st st' c' h.same (covers c' valid');
            succeeds = λ rel t. ground arith;
          })
          λ n.
            stored-Sets c value st st' valid h.same (h.current refl)
              (one_sector v.fat_type off (fat_offset-Aligned drv v v.fat_type c) n)

    -- fat_set_entry of a cluster of the volume, on a laid-out volume with a FAT that covers its
    -- clusters and at most as many clusters as FAT32 allows, and a cache in order: if it returns
    -- TRUE, the entry of that cluster in the table that the kernel sees is the value, as far as
    -- the type of the FAT keeps it; if it returns FALSE that table is as before. The entries of
    -- all other clusters and the allocation hint stay either way, the cache stays in order, and on
    -- a reliable disk it returns TRUE unless the volume is FAT12.
    pub fat_set_entry-Sets :
        (c value : ℕ) (st : State Disk)
        → IsCoherent drv v st
        → fat_cluster_is_valid v c ≡ true
        → Sets st c value (fat_set_entry drv v c value st)
    unfolding fat_set_entry
    fat_set_entry-Sets c value st h valid = rw valid (
        entry_set-Sets c value st valid
          (fat_load_fat_sector drv v (fat_offset v.fat_type c / 512) st)
          (fat_load_fat_sector-Loads drv v laid (fat_offset v.fat_type c / 512) st
            (omega (arith, covers c valid, entry_width_two v.fat_type)) h))
