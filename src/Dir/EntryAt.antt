-- ===== src/Dir/EntryAt.antt =====
-- kernel/sima_fs.c, the entry at a place: what `fat_write_entry_at_loc` does to the disk and the
-- table, and that `fat_read_entry_at_loc` gives back what was written.
use mathlib.Core.Option.{some-injective}
use seolsem.Base.{
  ℕ, ◌%◌, ◌+◌, ◌-◌, ◌≤◌, ◌<◌, ◌⊎◌, ◌≡◌, ◌≢◌, ◌&&◌, inl, inr, refl, sym, ap, ◌∙◌, true, Option, none,
  some, ltb, leb, arith, Option-cases,
}
use seolsem.Fat.{lba_count, Sector, Drive, Volume, State, read_sector}
use seolsem.Fat.Bytes.{Buffer, IsBytes}
use seolsem.Fat.Cache.{SameTable, write_sector_keeps, write_sector_stores}
use seolsem.Fat.Load.{read_sector_gives, read_sector_keeps}
use seolsem.Fat.Geometry.{IsInOrder}
use seolsem.Fat.Mount.{Bpb}
use seolsem.Fat.Entry.{Covers}
use seolsem.Act.{pure, true_of_done, continue, ◌>>=◌}
use seolsem.Act.Keeps.{Keeps, Keeps-bind, Keeps-bind-lift}
use seolsem.Dir.{
  Loc, load, store, patch, slice, fat_loc_to_lba, fat_read_entry_at_loc, fat_write_entry_at_loc,
}
use seolsem.Dir.Reads.{load-Same}
use seolsem.Dir.Sectors.{IsModest, apart, behind_of_loc, store-Same}

none-some : {A : Type 0} {a : A} → ◌≡◌ {A = Option A} none (some a) → ⊥
none-some e = cc

pub patch-slice :
    (s : Sector) (o : ℕ) (raw : Buffer) (i : ℕ) → i < 32 → slice (patch s o raw) o i ≡ raw i
unfolding slice patch
patch-slice s o raw i l =
    let inside : leb o (o + i) && ltb (o + i) (o + 32) ≡ true = ground arith in
    let index : o + i - o ≡ i = omega arith in rw (inside, index)

patch-outside :
    (s : Sector) (o : ℕ) (raw : Buffer) (i : ℕ) → (i < o) ⊎ (o + 32 ≤ i) → patch s o raw i ≡ s i
unfolding patch
patch-outside s o raw i (inl l) = ground arith
patch-outside s o raw i (inr l) = ground arith

module _ (drv : Drive) (b : Bpb) (v : Volume) where
  open drv use {Disk, contents, contents_bytes}

  -- What a write of an entry at `at` leaves on the disk `d`, when it returned `ok`.
  pub record Puts (at : ℕ × ℕ) (raw : Buffer) (d : Disk) (r : Option (Unit {0}) × State Disk)
      : Type 0 where
    pub others :
        (l o : ℕ) → l % lba_count ≢ at.0 % lba_count → contents r.1.disk l o ≡ contents d l o
    pub stored : r.0 ≡ some tt → (i : ℕ) → i < 32 → contents r.1.disk at.0 (at.1 + i) ≡ raw i
    pub rest :
        r.0 ≡ some tt
        → (o : ℕ) → (o < at.1) ⊎ (at.1 + 32 ≤ o)
        → contents r.1.disk at.0 o ≡ contents d at.0 o

  store-Puts :
      (at : ℕ × ℕ) (raw : Buffer) (d : Disk) (s : Sector) (st : State Disk)
      → IsBytes raw
      → ((o : ℕ) → s o ≡ contents d at.0 o)
      → ((l o : ℕ) → contents st.disk l o ≡ contents d l o)
      → Puts at raw d (store drv b v at.0 (patch s at.1 raw) st)
  unfolding store patch slice
  store-Puts at raw d s st octets gives keeps = record {
    others = λ l o ne. write_sector_keeps drv v at.0 _ st.disk l o ne ∙ keeps l o;
    stored = λ e i l. written e (at.1 + i) ∙ patch-slice s at.1 raw i l;
    rest = λ e o out. written e o ∙ patch-outside s at.1 raw o out ∙ gives o;
  }
    where
      written :
          (store drv b v at.0 (patch s at.1 raw) st).0 ≡ some tt
          → (o : ℕ)
          → contents (store drv b v at.0 (patch s at.1 raw) st).1.disk at.0 o ≡ patch s at.1 raw o
      written e o =
          write_sector_stores drv v at.0 (patch s at.1 raw) st.disk o
            (ground (arith, octets (o - at.1), gives o, contents_bytes d at.0 o)) (true_of_done _ e)

  load-continued :
      (at : ℕ × ℕ) (raw : Buffer) (st : State Disk)
      → IsBytes raw
      → Puts at raw st.disk ((load drv b v at.0 >>= λ s. store drv b v at.0 (patch s at.1 raw)) st)
  unfolding load ◌>>=◌
  load-continued at raw st octets =
      continued (read_sector drv v at.0 st.disk) (λ s o. read_sector_gives drv v at.0 st.disk s o)
        (read_sector_keeps drv v at.0 st.disk)
    where
      continued :
          (r : Option Sector × Disk)
          → ((s : Sector) (o : ℕ) → r.0 ≡ some s → s o ≡ contents st.disk at.0 o)
          → ((l o : ℕ) → contents r.1 l o ≡ contents st.disk l o)
          → Puts at raw st.disk
              (continue r.0 (λ s. store drv b v at.0 (patch s at.1 raw)) (record st { disk = r.1 }))
      continued (none, d) gives keeps = record {
        others = λ l o ne. keeps l o;
        stored = λ e. cc;
        rest = λ e. cc;
      }
      continued (some s, d) gives keeps =
          store-Puts at raw st.disk s (record st { disk = d }) octets (λ o. gives s o refl) keeps

  -- fat_write_entry_at_loc of an entry of bytes, at any place that has an address: whatever it
  -- returns, no sector changes whose number has other low 28 bits; where it returns TRUE, the 32
  -- bytes from the offset on are those of the entry, and the bytes before and behind them are as
  -- before.
  pub fat_write_entry_at_loc-Puts :
      (loc : Loc) (at : ℕ × ℕ) (raw : Buffer) (st : State Disk)
      → IsBytes raw
      → fat_loc_to_lba v loc ≡ some at
      → Puts at raw st.disk (fat_write_entry_at_loc drv b v loc raw st)
  unfolding fat_write_entry_at_loc ◌>>=◌
  fat_write_entry_at_loc-Puts loc at raw st octets e = rw e (load-continued at raw st octets)

  read_gives_slice :
      (at : ℕ × ℕ) (raw : Buffer) (st : State Disk)
      → ((load drv b v at.0 >>= λ s. pure (slice s at.1)) st).0 ≡ some raw
      → (i : ℕ) → raw i ≡ slice (contents st.disk at.0) at.1 i
  unfolding load slice ◌>>=◌
  read_gives_slice at raw st e i =
      given (read_sector drv v at.0 st.disk).0 (λ s o. read_sector_gives drv v at.0 st.disk s o) e
    where
      given :
          (r : Option Sector)
          → ((s : Sector) (o : ℕ) → r ≡ some s → s o ≡ contents st.disk at.0 o)
          → (continue r
              (λ s. pure (slice s at.1))
              (record st { disk = (read_sector drv v at.0 st.disk).1 })).0
            ≡ some raw
          → raw i ≡ contents st.disk at.0 (at.1 + i)
      given none gives q = cc
      given (some s) gives q =
          ap (λ (f : Buffer). f i) (sym (some-injective (slice s at.1) raw q))
          ∙ gives s (at.1 + i) refl

  refused_write :
      (loc : Loc) (raw : Buffer) (st : State Disk)
      → fat_loc_to_lba v loc ≡ none
      → (fat_write_entry_at_loc drv b v loc raw st).0 ≡ none
  unfolding fat_write_entry_at_loc ◌>>=◌
  refused_write loc raw st e = rw e

  read_at :
      (loc : Loc) (at : ℕ × ℕ) (st : State Disk)
      → fat_loc_to_lba v loc ≡ some at
      → fat_read_entry_at_loc drv b v loc st ≡ (load drv b v at.0 >>= λ s. pure (slice s at.1)) st
  unfolding fat_read_entry_at_loc ◌>>=◌
  read_at loc at st e = rw e

  -- An entry of bytes that fat_write_entry_at_loc wrote and returned TRUE for is what
  -- fat_read_entry_at_loc then reads at the place, if that returns TRUE: the 32 bytes are the
  -- same.
  pub fat_read_entry_at_loc-fat_write_entry_at_loc :
      (loc : Loc) (raw read : Buffer) (st : State Disk)
      → IsBytes raw
      → (fat_write_entry_at_loc drv b v loc raw st).0 ≡ some tt
      → (fat_read_entry_at_loc drv b v loc (fat_write_entry_at_loc drv b v loc raw st).1).0
        ≡ some read
      → (i : ℕ) → i < 32
      → read i ≡ raw i
  fat_read_entry_at_loc-fat_write_entry_at_loc loc raw read st octets wrote found i l =
      elim (Option-cases (fat_loc_to_lba v loc)) [
        | inl e ↦ absurd (none-some (sym (refused_write loc raw st e) ∙ wrote))
        | inr (at, e) ↦
            let puts = fat_write_entry_at_loc-Puts loc at raw st octets e in
            let st' = (fat_write_entry_at_loc drv b v loc raw st).1 in
            read_gives_slice at read st'
              (ap (λ (r : Option Buffer × State Disk). r.0) (sym (read_at loc at st' e)) ∙ found) i
            ∙ unfold slice in puts.stored wrote i l
      ]

  module _ (ord : IsInOrder b v) (modest : IsModest b v) (covers : Covers v)
      (st₀ : State Disk) where
    -- A write of an entry leaves the table.
    pub fat_write_entry_at_loc-Same :
        (loc : Loc) (raw : Buffer)
        → Keeps (λ st. SameTable drv v st₀ st) (fat_write_entry_at_loc drv b v loc raw)
    unfolding fat_write_entry_at_loc
    fat_write_entry_at_loc-Same loc raw = Keeps-bind-lift (fat_loc_to_lba v loc) _ λ at e.
        Keeps-bind (load drv b v at.0) _ (load-Same drv b v ord.laid_out covers st₀ at.0) λ s.
          store-Same drv b v st₀ at.0 (patch s at.1 raw) (apart b v ord modest)
            (behind_of_loc b v ord modest loc at e)
