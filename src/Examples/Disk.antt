-- ===== src/Examples/Disk.antt =====
-- A disk in memory that never fails, and a small FAT16 volume on it.
use mathlib.Core.Option.{some-injective}
use seolsem.Base.{ℕ, ◌+◌, ◌%◌, ◌/◌, refl, ap, sym, true, some, ◌==◌, if◌then◌else◌, arith}
use seolsem.Fat.{Sector, Drive, fat16, Volume, State, read_sector, write_sector, lba_in_volume}
use seolsem.Fat.Cache.{IsLaidOut, IsCoherent}
use seolsem.Fat.Load.{IsReliable}
use seolsem.Fat.Entry.{Covers}
use seolsem.Fat.Table.{fat_cluster_is_valid, fat_max_cluster, fat_offset}

abbrev pub ram_disk : Drive
ram_disk = record {
  Disk = ℕ → ℕ → ℕ;
  ide_read_sector = λ lba d. (some (λ o. d lba o % 256), d);
  ide_write_sector = λ lba s d. (true, λ l o. if l == lba then s o else d l o);
  contents = λ d l o. d l o % 256;
  contents_bytes = λ d l o. omega arith;
  read_gives =
      λ lba d s o e. ap (λ (f : Sector). f o) (sym (some-injective (λ o'. d lba o' % 256) s e));
  read_keeps = λ lba d l o. refl;
  write_stores = λ lba s d o h e. ground (arith, h);
  write_keeps = λ lba s d l o ne. ground (arith, ne);
}

abbrev pub volume : Volume
volume = record {
  fat_type = fat16;
  base_lba = 63;
  spc_shift = 2;
  fats = 2;
  fat_start_lba = 64;
  root_start_lba = 68;
  data_start_lba = 100;
  total_sectors = 2000;
  sectors_per_fat = 2;
  root_dir_sectors = 32;
  count_of_clusters = 400;
}

-- The table is the bytes of a disk that counts up, with cluster 5 free; the first sector is cached
-- and dirty.
abbrev pub start : State (ℕ → ℕ → ℕ)
start = record {
  fat_sector = λ o. if o / 2 == 5 then 0 else (o + 7) % 256;
  cur_lba = 64;
  dirty = true;
  alloc_hint = 3;
  disk = λ l o. l + o;
}

pub volume-IsLaidOut : IsLaidOut volume
volume-IsLaidOut = record { after_start = omega arith; some_fat = omega arith; fits = omega arith }

pub start-IsCoherent : IsCoherent ram_disk volume start
start-IsCoherent = record {
  inside = λ nz. (omega arith, omega arith);
  clean = λ e. cc;
  loaded = λ e. cc;
  octets = λ o. ground arith;
}

pub volume-Covers : Covers volume
unfolding fat_cluster_is_valid fat_max_cluster fat_offset
volume-Covers = λ c h. ground (arith, h)

pub ram_disk-IsReliable : IsReliable ram_disk volume volume-IsLaidOut
unfolding read_sector write_sector lba_in_volume
ram_disk-IsReliable = record {
  reads = λ lba d low high. ground (arith, low, high);
  writes = λ lba s d low high. ground (arith, low, high);
}
