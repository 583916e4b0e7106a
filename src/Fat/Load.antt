-- ===== src/Fat/Load.antt =====
-- `fat_load_fat_sector` brings in the sector that is asked for, and changes no byte of the table
-- that the kernel sees, whatever transfers fail.
use seolsem.Base.{
  ℕ, zero, suc, ◌+◌, ◌*◌, ◌/◌, ◌%◌, ◌≤◌, ◌<◌, ◌≡◌, ◌≢◌, refl, sym, ◌∙◌, Bool, true, false, Option,
  none, some, ◌==◌, if◌then◌else◌, arith, u32, if_rule,
}
use seolsem.Fat.{
  Sector, Drive, Volume, State, read_sector, write_sector, copy_lba, then_go_on, flushed,
  flush_loop, fat_flush_fat_sector, fetched, fetch, fat_load_fat_sector,
}
use seolsem.Fat.Cache.{
  IsLaidOut, IsCoherent, SameTable, SameTable-refl, SameTable-trans, fat_byte, copy_le, copy_lba-eq,
  fat_flush_fat_sector-SameTable,
}

module _ (drv : Drive) (v : Volume) where
  open drv use {Disk, contents, contents_bytes, read_gives, read_keeps}

  pub read_sector_gives :
      (lba : ℕ) (d : Disk) (s : Sector) (o : ℕ)
      → (read_sector drv v lba d).0 ≡ some s
      → s o ≡ contents d lba o
  unfolding read_sector
  read_sector_gives lba d s o h = ground (arith, read_gives lba d s o)

  pub read_sector_keeps :
      (lba : ℕ) (d : Disk) (l o : ℕ) → contents (read_sector drv v lba d).1 l o ≡ contents d l o
  unfolding read_sector
  read_sector_keeps lba d l o = ground (arith, read_keeps lba d l o)

  module _ (laid : IsLaidOut v) where
    -- Every transfer of a sector of the FAT copies succeeds.
    pub record IsReliable : Type 0 where
      pub reads :
          (lba : ℕ) (d : Disk)
          → v.fat_start_lba ≤ lba
          → lba < v.fat_start_lba + v.fats * v.sectors_per_fat
          → (read_sector drv v lba d).0 ≢ none
      pub writes :
          (lba : ℕ) (s : Sector) (d : Disk)
          → v.fat_start_lba ≤ lba
          → lba < v.fat_start_lba + v.fats * v.sectors_per_fat
          → (write_sector drv v lba s d).0 ≡ true

    -- The outcome of a load of the sector at `lba`, from state `st`.
    pub record Loads (lba : ℕ) (st : State Disk) (r : Bool × State Disk) : Type 0 where
      pub same : SameTable drv v st r.1
      pub current : r.0 ≡ true → r.1.cur_lba ≡ lba
      pub succeeds : IsReliable → r.0 ≡ true

    fetched-Loads :
        (lba : ℕ) (st : State Disk)
        → v.fat_start_lba ≤ lba
        → lba < v.fat_start_lba + v.sectors_per_fat
        → IsCoherent drv v st
        → st.dirty ≡ false
        → (r : Option Sector × Disk)
        → ((s : Sector) (o : ℕ) → r.0 ≡ some s → s o ≡ contents st.disk lba o)
        → ((l o : ℕ) → contents r.1 l o ≡ contents st.disk l o)
        → (IsReliable → r.0 ≢ none)
        → Loads lba st (fetched drv v lba st r)
    unfolding fetched fat_byte
    fetched-Loads lba st low high h tidy (none, d) gives keeps reads = record {
      same = record {
        coherent = record {
          inside = λ nz. absurd (nz refl);
          clean = λ c nz. absurd (nz refl);
          loaded = λ e. cc;
          octets = h.octets;
        };
        bytes = λ off l. ground (
          arith,
          laid.after_start,
          keeps (v.fat_start_lba + off / 512) (off % 512),
          λ (nz : st.cur_lba ≢ 0). h.clean tidy nz (off % 512),
        );
        hint = refl;
      };
      current = λ e. cc;
      succeeds = λ rel. absurd (reads rel refl);
    }
    fetched-Loads lba st low high h tidy (some s, d) gives keeps reads = record {
      same = record {
        coherent = record {
          inside = λ nz. (low, high);
          clean = λ c nz o. gives s o refl ∙ sym (keeps lba o);
          loaded = λ e. cc;
          octets = λ o. rw (gives s o refl) (contents_bytes st.disk lba o);
        };
        bytes = λ off l. ground (
          arith,
          laid.after_start,
          gives s (off % 512) refl,
          keeps (v.fat_start_lba + off / 512) (off % 512),
          λ (nz : st.cur_lba ≢ 0). h.clean tidy nz (off % 512),
        );
        hint = refl;
      };
      current = λ e. refl;
      succeeds = λ rel. refl;
    }

    flushed-tidy :
        (st : State Disk) (r : Bool × Disk)
        → (flushed drv v st r).0 ≡ true
        → (flushed drv v st r).1.dirty ≡ false
    unfolding flushed
    flushed-tidy st (true, d) e = refl
    flushed-tidy st (false, d) e = cc

    flush-tidy :
        (st : State Disk)
        → IsCoherent drv v st
        → (fat_flush_fat_sector drv v st).0 ≡ true
        → (fat_flush_fat_sector drv v st).1.dirty ≡ false
    unfolding fat_flush_fat_sector
    flush-tidy st h =
        if_rule Tidy (st.cur_lba == 0) (true, st)
          (if st.dirty then flushed drv v st (flush_loop drv v v.fats 0 st st.disk) else (true, st))
          (λ e d. ground (arith, h.loaded))
          λ n.
            if_rule Tidy st.dirty (flushed drv v st (flush_loop drv v v.fats 0 st st.disk))
              (true, st) (λ e. flushed-tidy st (flush_loop drv v v.fats 0 st st.disk)) λ m d. m
      where
        Tidy : Bool × State Disk → Type 0
        Tidy r = r.0 ≡ true → r.1.dirty ≡ false

    one_copy : v.sectors_per_fat ≤ v.fats * v.sectors_per_fat
    one_copy = omega (arith, copy_le 0 v.fats v.sectors_per_fat laid.some_fat)

    then_go_on-true :
        (r : Bool × Disk) (next : Disk → Bool × Disk)
        → r.0 ≡ true
        → ((d : Disk) → (next d).0 ≡ true)
        → (then_go_on drv v r next).0 ≡ true
    unfolding then_go_on
    then_go_on-true (true, d) next e h = h d
    then_go_on-true (false, d) next e h = cc

    module _ (rel : IsReliable) where
      flush_loop-true :
          (left i : ℕ) (st : State Disk) (d : Disk)
          → v.fat_start_lba ≤ st.cur_lba
          → st.cur_lba < v.fat_start_lba + v.sectors_per_fat
          → i + left ≤ v.fats
          → (flush_loop drv v left i st d).0 ≡ true
      unfolding flush_loop
      flush_loop-true zero i st d low high fits = refl
      flush_loop-true (suc left) i st d low high fits =
          let place = copy_lba-eq drv v laid st.cur_lba i low high (omega arith) in
          let room = copy_le i v.fats v.sectors_per_fat (omega arith) in
          then_go_on-true (write_sector drv v (copy_lba drv v st.cur_lba i) st.fat_sector d)
            (λ d'. flush_loop drv v left (i + 1) st d')
            (rel.writes (copy_lba drv v st.cur_lba i) st.fat_sector d (omega (arith, place))
              (omega (arith, place, room)))
            λ d'. flush_loop-true left (i + 1) st d' low high (omega arith)

      flushed-true :
          (st : State Disk) (r : Bool × Disk) → r.0 ≡ true → (flushed drv v st r).0 ≡ true
      unfolding flushed
      flushed-true st (true, d) e = refl
      flushed-true st (false, d) e = cc

      flush-true :
          (st : State Disk) → IsCoherent drv v st → (fat_flush_fat_sector drv v st).0 ≡ true
      unfolding fat_flush_fat_sector
      flush-true st h =
          if_rule Done (st.cur_lba == 0) (true, st)
            (if st.dirty
              then flushed drv v st (flush_loop drv v v.fats 0 st st.disk)
              else (true, st))
            (λ e. refl)
            λ n.
              if_rule Done st.dirty (flushed drv v st (flush_loop drv v v.fats 0 st st.disk))
                (true, st)
                (λ e. flushed-true st (flush_loop drv v v.fats 0 st st.disk) (
                  flush_loop-true v.fats 0 st st.disk (h.inside (ground arith)).0
                    (h.inside (ground arith)).1 (omega arith)))
                λ m. refl
        where
          Done : Bool × State Disk → Type 0
          Done r = r.0 ≡ true

    fetch-Loads :
        (lba : ℕ)
        → v.fat_start_lba ≤ lba
        → lba < v.fat_start_lba + v.sectors_per_fat
        → (st : State Disk) (r : Bool × State Disk) → SameTable drv v st r.1
        → (r.0 ≡ true → r.1.dirty ≡ false)
        → (IsReliable → r.0 ≡ true)
        → Loads lba st (fetch drv v lba r)
    unfolding fetch
    fetch-Loads lba low high st (false, st') same tidy done = record {
      same = same;
      current = λ e. cc;
      succeeds = done;
    }
    fetch-Loads lba low high st (true, st') same tidy done =
        let load =
          fetched-Loads lba st' low high same.coherent (tidy refl) (read_sector drv v lba st'.disk)
            (λ s o e. read_sector_gives lba st'.disk s o e)
            (λ l o. read_sector_keeps lba st'.disk l o)
            (λ rel. rel.reads lba st'.disk low (omega (arith, one_copy))) in
        record {
          same = SameTable-trans drv v same load.same;
          current = load.current;
          succeeds = load.succeeds;
        }

    unwrapped : (k : ℕ) → k < v.sectors_per_fat → u32 (v.fat_start_lba + k) ≡ v.fat_start_lba + k
    unwrapped k below = omega (arith, copy_le 0 v.fats v.sectors_per_fat laid.some_fat, laid.fits)

    -- fat_load_fat_sector of a sector of the first FAT copy of a laid-out volume, with a cache in
    -- order: whatever the transfers do, it changes no byte of the table that the kernel sees and
    -- keeps the cache in order; if it returns TRUE the sector is the cached one, and on a reliable
    -- disk it returns TRUE.
    pub fat_load_fat_sector-Loads :
        (k : ℕ) (st : State Disk)
        → k < v.sectors_per_fat
        → IsCoherent drv v st
        → Loads (v.fat_start_lba + k) st (fat_load_fat_sector drv v k st)
    unfolding fat_load_fat_sector
    fat_load_fat_sector-Loads k st below h =
        let lba = v.fat_start_lba + k in
        let first = if st.dirty then fat_flush_fat_sector drv v st else (true, st) in
        rw (unwrapped k below) (
          if_rule (Loads lba st) (lba == st.cur_lba) (true, st) (fetch drv v lba first)
            (λ e. record {
              same = SameTable-refl drv v h;
              current = λ d. ground arith;
              succeeds = λ rel. refl;
            })
            λ n.
              fetch-Loads lba (omega arith) (omega arith) st first
                (if_rule (λ r. SameTable drv v st r.1) st.dirty (fat_flush_fat_sector drv v st)
                  (true, st) (λ e. fat_flush_fat_sector-SameTable drv v laid st h)
                  λ m. SameTable-refl drv v h)
                (if_rule (λ r. r.0 ≡ true → r.1.dirty ≡ false) st.dirty
                  (fat_flush_fat_sector drv v st) (true, st) (λ e. flush-tidy st h) λ m d. m)
                (λ rel.
                  if_rule (λ r. r.0 ≡ true) st.dirty (fat_flush_fat_sector drv v st) (true, st)
                    (λ e. flush-true rel st h) λ m. refl))
