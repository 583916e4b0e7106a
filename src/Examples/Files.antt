-- ===== src/Examples/Files.antt =====
-- Witnesses for directories and files: a FAT16 volume on the disk in memory.
use seolsem.Base.{
  ℕ, ◌%◌, ◌≤◌, ◌≡◌, refl, true, some, List, [], ◌∷◌, arith, codes, ◌==◌, ltb, ◌+◌, ◌&&◌,
  if◌then◌else◌, get_or,
}
use seolsem.Fat.{State, read_sector, write_sector, lba_in_volume}
use seolsem.Fat.Bytes.{Buffer}
use seolsem.Fat.Cache.{IsCoherent, SameTable, SameTable-refl}
use seolsem.Fat.Geometry.{IsInOrder}
use seolsem.Fat.Mount.{Bpb}
use seolsem.Fat.Name.{fat_names_equal}
use seolsem.Fat.Table.{fat_max_cluster}
use seolsem.Fat.Write.{IsSized}
use seolsem.FilePath.{is_separator}
use seolsem.Dir.{
  Loc, name_of, cluster_bytes, fat_read_root_entry, slice, fat_loc_to_lba, fat_write_entry_at_loc,
  fat_read_entry_at_loc,
}
use seolsem.Dir.EntryAt.{
  Puts, fat_write_entry_at_loc-Puts, fat_read_entry_at_loc-fat_write_entry_at_loc,
}
use seolsem.Dir.Ends.{IsSmall}
use seolsem.Dir.Find.{rounds, guard_limit, fat_dir_read_raw, find_loop, fat_find_in_dir, start_of}
use seolsem.Dir.Found.{IsEntryOf, fat_find_in_dir-Found, find_loop-rounds}
use seolsem.Dir.Resolve.{fat_resolve_dir}
use seolsem.Dir.Sectors.{IsModest}
use seolsem.File.{fat_write_cluster_chain}
use seolsem.File.Contents.{fat_write_cluster_chain-Same}
use seolsem.Act.{◌>>=◌, succeeds}
use seolsem.Fs.{Session, fs_cd}
use seolsem.Fs.Calls.{Call, read, write, create_dir, query, cd, ask, perform_all}
use seolsem.Fs.Cwd.{Moves, fs_cd-Moves, fat_resolve_dir-long}
use seolsem.Fs.Queries.{ask-SameTable}
use seolsem.Fs.Safe.{perform_all-IsCoherent}
use seolsem.Examples.Disk.{
  ram_disk, volume, start, volume-IsLaidOut, start-IsCoherent, volume-Covers,
}

abbrev pub bpb : Bpb
bpb = record {
  bytes_per_sec = 512;
  sec_per_clus = 4;
  res_sectors = 1;
  fats = 2;
  root_ents = 512;
  total_sectors16 = 2000;
  media = 0xF8;
  fat_secs16 = 2;
  sec_per_track = 32;
  heads = 2;
  hidden_sectors = 63;
  total_sectors32 = 0;
  fat_secs32 = 0;
  ext_flags = 0;
  fs_ver = 0;
  root_cluster = 0;
  fs_info = 0;
  backup_boot = 0;
}

pub in_order : IsInOrder bpb volume
in_order = record {
  reserved = refl;
  tables = refl;
  root = refl;
  room = omega arith;
  roots = omega arith;
  cluster_size = refl;
  clusters = omega arith;
  laid_out = volume-IsLaidOut;
}

pub modest : IsModest bpb volume
modest = record { some_sector = omega arith; total = omega arith; sectors = omega arith }

pub sized : IsSized volume
sized = omega arith

abbrev pub session : Session (ℕ → ℕ → ℕ)
session = record { ready = true; cwd_cluster = 0; cwd_path = codes "/"; fat = start }

abbrev calls : List Call
calls =
    create_dir (codes "DOC")
    ∷ write (codes "DOC/A.TXT") (codes "text")
    ∷ query (cd (codes "DOC"))
    ∷ []

perform_all-IsCoherent_example :
    IsCoherent ram_disk volume (perform_all ram_disk bpb volume calls session).fat
perform_all-IsCoherent_example =
    perform_all-IsCoherent ram_disk bpb volume in_order volume-Covers modest sized calls session
      start-IsCoherent

ask-SameTable_example :
    SameTable ram_disk volume start (ask ram_disk bpb volume (read (codes "A.TXT") 100) session).fat
ask-SameTable_example =
    ask-SameTable ram_disk bpb volume in_order volume-Covers (read (codes "A.TXT") 100) session
      start-IsCoherent

abbrev first_entry : Loc
first_entry = record { root = true; root_index = 1; cluster = 0; offset = 0 }

abbrev entry : Buffer
entry = λ i. i % 256

fat_write_entry_at_loc-Puts_example :
    Puts ram_disk bpb volume
      (68, 32)
      entry
      start.disk
      (fat_write_entry_at_loc ram_disk bpb volume first_entry entry start)
unfolding fat_loc_to_lba
fat_write_entry_at_loc-Puts_example =
    fat_write_entry_at_loc-Puts ram_disk bpb volume first_entry (68, 32) entry start
      (λ o. omega arith) refl

abbrev written : State (ℕ → ℕ → ℕ)
written = (fat_write_entry_at_loc ram_disk bpb volume first_entry entry start).1

abbrev read_back : Buffer
read_back = slice (λ o. written.disk 68 o % 256) 32

fat_read_entry_at_loc-fat_write_entry_at_loc_example : read_back 11 ≡ 11
unfolding fat_write_entry_at_loc fat_read_entry_at_loc ◌>>=◌ read_sector write_sector lba_in_volume
fat_read_entry_at_loc-fat_write_entry_at_loc_example =
    fat_read_entry_at_loc-fat_write_entry_at_loc ram_disk bpb volume first_entry entry read_back
      start (λ o. omega arith) refl refl 11 (omega arith)

small : IsSmall bpb volume
unfolding cluster_bytes
small = record { entries = omega arith; cluster = omega arith }

enough_rounds : rounds bpb volume ≤ 200000
unfolding rounds cluster_bytes guard_limit fat_max_cluster
enough_rounds = omega arith

find_loop-rounds_example :
    find_loop ram_disk bpb volume 200000 (codes "A.TXT") (start_of ram_disk bpb volume 0) start
    ≡ find_loop ram_disk bpb volume
        (rounds bpb volume)
        (codes "A.TXT")
        (start_of ram_disk bpb volume 0)
        start
find_loop-rounds_example =
    find_loop-rounds ram_disk bpb volume small 200000 (codes "A.TXT")
      (start_of ram_disk bpb volume 0) start enough_rounds

-- The start of the root directory, with one file in it.
abbrev one_file : State (ℕ → ℕ → ℕ)
one_file = record start {
  disk = λ l o.
      if l == 68 && ltb o 11
      then get_or (codes "A       TXT") o 0
      else if o == 11
      then 0x20
      else l + o;
}

abbrev found_file : Buffer
found_file = slice (λ o. one_file.disk 68 o % 256) 0

fat_find_in_dir-Found_example : IsEntryOf ram_disk bpb volume small (codes "a.txt") found_file
unfolding fat_find_in_dir start_of read_sector lba_in_volume fat_read_root_entry ◌>>=◌ succeeds
    guard_limit fat_max_cluster cluster_bytes fat_dir_read_raw fat_names_equal name_of
fat_find_in_dir-Found_example =
    fat_find_in_dir-Found ram_disk bpb volume small 0 (codes "a.txt") one_file found_file refl

fat_write_cluster_chain-Same_example :
    SameTable ram_disk volume start
      (fat_write_cluster_chain ram_disk bpb volume 7 (codes "text") start).1
fat_write_cluster_chain-Same_example =
    (fat_write_cluster_chain-Same ram_disk bpb volume in_order modest volume-Covers sized start 7
        (codes "text")).at
      start (SameTable-refl ram_disk volume start-IsCoherent)

fs_cd-Moves_example :
    Moves ram_disk bpb volume session (fs_cd ram_disk bpb volume (codes "DOC") session)
fs_cd-Moves_example = fs_cd-Moves ram_disk bpb volume (codes "DOC") session

fat_resolve_dir-long_example :
    fat_resolve_dir ram_disk bpb volume 9 (codes "LONGDIRECTORY") start ≡ (some 9, start)
unfolding is_separator
fat_resolve_dir-long_example =
    fat_resolve_dir-long ram_disk bpb volume 9 b'L' (codes "ONGDIRECTORY") start
      (
        refl,
        (
          refl,
          (
            refl,
            (refl, (refl, (refl, (refl, (refl, (refl, (refl, (refl, (refl, (refl, tt)))))))))),
          ),
        ),
      )
      (omega arith)
