-- ===== src/Fat/Cache.antt =====
-- The sector cache over the FAT is transparent: `fat_flush_fat_sector` and `fat_load_fat_sector`
-- change no byte of the table that the kernel sees, whatever transfers fail.
use mathlib.Core.Path.{subst}
use seolsem.Base.{
  ℕ, zero, suc, ◌+◌, ◌*◌, ◌/◌, ◌%◌, ◌≤◌, ◌<◌, ◌≡◌, ◌≢◌, ◌⊎◌, inl, inr, refl, sym, ◌∙◌, Bool, true,
  false, ◌==◌, if◌then◌else◌, arith, if_rule,
}
use seolsem.Fat.{
  lba_count, Sector, Drive, Volume, State, write_sector, flush_loop, fat_flush_fat_sector, copy_lba,
  then_go_on, flushed,
}

-- The FAT copies lie after the first sector and before the end of the address space.
pub record IsLaidOut (v : Volume) : Type 0 where
  pub after_start : 0 < v.fat_start_lba
  pub some_fat : 0 < v.fats
  pub fits : v.fat_start_lba + v.fats * v.sectors_per_fat ≤ lba_count

pub copy_le : (i f n : ℕ) → i < f → i * n + n ≤ f * n
copy_le i f n h = grind arith

module _ (drv : Drive) (v : Volume) where
  open drv use {Disk, contents, write_stores, write_keeps, read_gives, read_keeps}

  -- The cached sector belongs to the first FAT copy, and unless it is dirty the disk has it too.
  pub record IsCoherent (st : State Disk) : Type 0 where
    pub inside :
        st.cur_lba ≢ 0
        → (v.fat_start_lba ≤ st.cur_lba) × (st.cur_lba < v.fat_start_lba + v.sectors_per_fat)
    pub clean :
        st.dirty ≡ false
        → st.cur_lba ≢ 0
        → (o : ℕ) → st.fat_sector o ≡ contents st.disk st.cur_lba o
    pub loaded : st.dirty ≡ true → st.cur_lba ≢ 0
    pub octets : (o : ℕ) → st.fat_sector o < 256

  -- The byte of the FAT at an offset, as the kernel sees it: from the cached sector where that
  -- holds it, and from the first copy on the disk elsewhere.
  unfoldable pub fat_byte : State Disk → ℕ → ℕ
  fat_byte st off =
      if v.fat_start_lba + off / 512 == st.cur_lba
      then st.fat_sector (off % 512)
      else contents st.disk (v.fat_start_lba + off / 512) (off % 512)

  -- `st'` has the table that `st` has, and a cache that is in order.
  pub record SameTable (st st' : State Disk) : Type 0 where
    pub coherent : IsCoherent st'
    pub bytes : (off : ℕ) → off / 512 < v.sectors_per_fat → fat_byte st' off ≡ fat_byte st off
    pub hint : st'.alloc_hint ≡ st.alloc_hint

  pub SameTable-refl : {st : State Disk} → IsCoherent st → SameTable st st
  SameTable-refl h = record { coherent = h; bytes = λ off l. refl; hint = refl }

  pub SameTable-trans : {a b c : State Disk} → SameTable a b → SameTable b c → SameTable a c
  SameTable-trans h k = record {
    coherent = k.coherent;
    bytes = λ off l. k.bytes off l ∙ h.bytes off l;
    hint = k.hint ∙ h.hint;
  }

  pub write_sector_keeps :
      (lba : ℕ) (s : Sector) (d : Disk) (l o : ℕ)
      → l % lba_count ≢ lba % lba_count
      → contents (write_sector drv v lba s d).1 l o ≡ contents d l o
  unfolding write_sector
  write_sector_keeps lba s d l o ne = ground (arith, write_keeps lba s d l o ne)

  pub write_sector_stores :
      (lba : ℕ) (s : Sector) (d : Disk) (o : ℕ)
      → s o < 256
      → (write_sector drv v lba s d).0 ≡ true
      → contents (write_sector drv v lba s d).1 lba o ≡ s o
  unfolding write_sector
  write_sector_stores lba s d o octet h = ground (arith, write_stores lba s d o octet)

  module _ (laid : IsLaidOut v) where
    pub copy_lba-eq :
        (cur i : ℕ)
        → v.fat_start_lba ≤ cur
        → cur < v.fat_start_lba + v.sectors_per_fat
        → i < v.fats
        → copy_lba drv v cur i ≡ cur + i * v.sectors_per_fat
    unfolding copy_lba
    copy_lba-eq cur i a b c = omega (arith, copy_le i v.fats v.sectors_per_fat c, laid.fits)

    copy_lba-ne :
        (cur i l : ℕ)
        → v.fat_start_lba ≤ cur
        → cur < v.fat_start_lba + v.sectors_per_fat
        → i < v.fats
        → l < v.fat_start_lba + v.sectors_per_fat
        → (l ≢ cur) ⊎ (0 < i)
        → l ≢ copy_lba drv v cur i
    copy_lba-ne cur zero l a b c below (inl ne) e = ne (omega (arith, copy_lba-eq cur 0 a b c))
    copy_lba-ne cur zero l a b c below (inr pos) e = absurd (omega arith)
    copy_lba-ne cur (suc i) l a b c below h e = omega (arith, copy_lba-eq cur (suc i) a b c)

    -- Nor do the low 28 bits agree.
    copy_lba-apart :
        (cur i l : ℕ)
        → v.fat_start_lba ≤ cur
        → cur < v.fat_start_lba + v.sectors_per_fat
        → i < v.fats
        → l < v.fat_start_lba + v.sectors_per_fat
        → (l ≢ cur) ⊎ (0 < i)
        → l % lba_count ≢ copy_lba drv v cur i % lba_count
    copy_lba-apart cur i l a b c below h e =
        copy_lba-ne cur i l a b c below h (
          omega
            (arith, e, copy_lba-eq cur i a b c, copy_le i v.fats v.sectors_per_fat c, laid.fits))

    module _ (st : State Disk) (low : v.fat_start_lba ≤ st.cur_lba)
        (high : st.cur_lba < v.fat_start_lba + v.sectors_per_fat) where
      then_go_on-keeps :
          (r : Bool × Disk) (next : Disk → Bool × Disk) (d : Disk) (l o : ℕ)
          → contents r.1 l o ≡ contents d l o
          → ((d' : Disk) → contents (next d').1 l o ≡ contents d' l o)
          → contents (then_go_on drv v r next).1 l o ≡ contents d l o
      unfolding then_go_on
      then_go_on-keeps (true, d') next d l o e h = h d' ∙ e
      then_go_on-keeps (false, d') next d l o e h = e

      flush_loop-keeps :
          (left i : ℕ) (d : Disk) (l o : ℕ)
          → i + left ≤ v.fats
          → l < v.fat_start_lba + v.sectors_per_fat
          → (l ≢ st.cur_lba) ⊎ (0 < i)
          → contents (flush_loop drv v left i st d).1 l o ≡ contents d l o
      unfolding flush_loop
      flush_loop-keeps zero i d l o fits below h = refl
      flush_loop-keeps (suc left) i d l o fits below h =
          then_go_on-keeps (write_sector drv v (copy_lba drv v st.cur_lba i) st.fat_sector d)
            (λ d'. flush_loop drv v left (i + 1) st d') d l o
            (write_sector_keeps (copy_lba drv v st.cur_lba i) st.fat_sector d l o
              (copy_lba-apart st.cur_lba i l low high (omega arith) below h))
            λ d'. flush_loop-keeps left (i + 1) d' l o (omega arith) below (inr (omega arith))

      then_go_on-done :
          (r : Bool × Disk) (next : Disk → Bool × Disk) (l o x : ℕ)
          → (then_go_on drv v r next).0 ≡ true
          → (r.0 ≡ true → contents r.1 l o ≡ x)
          → ((d' : Disk) → contents (next d').1 l o ≡ contents d' l o)
          → contents (then_go_on drv v r next).1 l o ≡ x
      unfolding then_go_on
      then_go_on-done (true, d') next l o x e h k = k d' ∙ h refl
      then_go_on-done (false, d') next l o x e h k = cc

      -- A whole flush leaves the cached sector at its place in the first copy.
      flush_loop-stores :
          (left : ℕ) (d : Disk) (o : ℕ)
          → suc left ≤ v.fats
          → st.fat_sector o < 256
          → (flush_loop drv v (suc left) 0 st d).0 ≡ true
          → contents (flush_loop drv v (suc left) 0 st d).1 st.cur_lba o ≡ st.fat_sector o
      unfolding flush_loop
      flush_loop-stores left d o fits octet e =
          then_go_on-done (write_sector drv v (copy_lba drv v st.cur_lba 0) st.fat_sector d)
            (λ d'. flush_loop drv v left 1 st d') st.cur_lba o (st.fat_sector o) e
            (λ w.
              subst
                (λ l.
                  contents (write_sector drv v (copy_lba drv v st.cur_lba 0) st.fat_sector d).1 l o
                  ≡ st.fat_sector o)
                (omega (arith, copy_lba-eq st.cur_lba 0 low high (omega arith)))
                (write_sector_stores (copy_lba drv v st.cur_lba 0) st.fat_sector d o octet w))
            λ d'. flush_loop-keeps left 1 d' st.cur_lba o (omega arith) high (inr (omega arith))

      module _ (is_dirty : st.dirty ≡ true) (octets : (o : ℕ) → st.fat_sector o < 256) where
        flushed-SameTable :
            (r : Bool × Disk)
            → ((l o : ℕ)
                → l < v.fat_start_lba + v.sectors_per_fat
                → l ≢ st.cur_lba
                → contents r.1 l o ≡ contents st.disk l o)
            → (r.0 ≡ true → (o : ℕ) → contents r.1 st.cur_lba o ≡ st.fat_sector o)
            → SameTable st (flushed drv v st r).1
        unfolding flushed fat_byte
        flushed-SameTable (true, d) keeps stores = record {
          coherent = record {
            inside = λ nz. (low, high);
            clean = λ c nz o. sym (stores refl o);
            loaded = λ e. cc;
            octets = octets;
          };
          bytes = λ off l. ground (arith, keeps (v.fat_start_lba + off / 512) (off % 512));
          hint = refl;
        }
        flushed-SameTable (false, d) keeps stores = record {
          coherent = record {
            inside = λ nz. (low, high);
            clean = λ c. cc;
            loaded = λ e z. omega (arith, laid.after_start);
            octets = octets;
          };
          bytes = λ off l. ground (arith, keeps (v.fat_start_lba + off / 512) (off % 512));
          hint = refl;
        }

    flush_loop-SameTable :
        (f : ℕ) (st : State Disk)
        → f ≡ v.fats
        → v.fat_start_lba ≤ st.cur_lba
        → st.cur_lba < v.fat_start_lba + v.sectors_per_fat
        → st.dirty ≡ true
        → ((o : ℕ) → st.fat_sector o < 256)
        → SameTable st (flushed drv v st (flush_loop drv v f 0 st st.disk)).1
    flush_loop-SameTable zero st e low high is_dirty octets = absurd (omega (arith, laid.some_fat))
    flush_loop-SameTable (suc left) st e low high is_dirty octets =
        flushed-SameTable st low high is_dirty octets (flush_loop drv v (suc left) 0 st st.disk)
          (λ l o below ne.
            flush_loop-keeps st low high (suc left) 0 st.disk l o (omega arith) below (inl ne))
          (λ d o. flush_loop-stores st low high left st.disk o (omega arith) (octets o) d)

    -- fat_flush_fat_sector on a laid-out volume with a cache in order changes no byte of the table
    -- that the kernel sees, keeps the allocation hint and leaves the cache in order, whichever of
    -- its writes fail.
    pub fat_flush_fat_sector-SameTable :
        (st : State Disk) → IsCoherent st → SameTable st (fat_flush_fat_sector drv v st).1
    unfolding fat_flush_fat_sector
    fat_flush_fat_sector-SameTable st h =
        if_rule Same (st.cur_lba == 0) (true, st)
          (if st.dirty then flushed drv v st (flush_loop drv v v.fats 0 st st.disk) else (true, st))
          (λ e. SameTable-refl h)
          λ n.
            if_rule Same st.dirty (flushed drv v st (flush_loop drv v v.fats 0 st st.disk))
              (true, st)
              (λ e.
                flush_loop-SameTable v.fats st refl (h.inside (ground arith)).0
                  (h.inside (ground arith)).1 e h.octets)
              λ m. SameTable-refl h
      where
        Same : Bool × State Disk → Type 0
        Same r = SameTable st r.1
