-- ===== src/Fs/Queries.antt =====
-- The functions of sima_fs.h that only read, and the table of the FAT: a query leaves it.
use seolsem.Base.{ℕ, Option, none, some, Str, if_rule}
use seolsem.Fat.{Drive, Volume, State, fat_flush_fat_sector}
use seolsem.Fat.Bytes.{Buffer}
use seolsem.Fat.Cache.{
  IsCoherent, SameTable, SameTable-refl, SameTable-trans, fat_flush_fat_sector-SameTable,
}
use seolsem.Fat.Entry.{Covers}
use seolsem.Fat.Geometry.{IsInOrder}
use seolsem.Fat.Mount.{Bpb}
use seolsem.Act.{Act}
use seolsem.Act.Keeps.{Keeps, Keeps-modify, keeps_rules}
use seolsem.Dir.{FsDir}
use seolsem.Dir.Find.{fat_find_in_dir}
use seolsem.Dir.Resolve.{fat_resolve_path, fat_resolve_dir}
use seolsem.Dir.Reads.{Same, fat_find_in_dir-Same, fat_dir_read_raw-Same}
use seolsem.Dir.Lookups.{fat_resolve_path-Same, fat_resolve_dir-Same, fat_read_file_entry-Same}
use seolsem.File.{Dirent, fat_read_file_entry}
use seolsem.Fs.{
  Session, on_fat, fs_is_ready, fs_cd, set_cwd, fs_dir_open, fs_dir_read, entry_of_path,
  entry_in_dir, read_entry, exec_entry, fs_read, fs_read_in_dir, fs_stat, fs_stat_in_dir,
  fs_is_executable, fs_is_executable_in_dir, fs_is_dir, fs_sync,
}
use seolsem.Fs.Calls.{
  Query, cd, is_dir, stat, is_executable, dir_open, dir_read, read, read_in_dir, stat_in_dir,
  is_executable_in_dir, sync, ask,
}

module _ (drv : Drive) (b : Bpb) (v : Volume) (ord : IsInOrder b v) (covers : Covers v) where
  open drv use {Disk}

  -- An operation of the volume, within a session.
  pub on_fat-Keeps :
      {A : Type 0} (P : State Disk → Type 0) (m : Act (State Disk) A)
      → Keeps P m
      → Keeps (λ (s : Session Disk). P s.fat) (on_fat drv b v m)
  unfolding on_fat
  on_fat-Keeps P m h = record { at = λ s. h.at s.fat }

  pub fs_is_ready-Keeps :
      (P : State Disk → Type 0) → Keeps (λ (s : Session Disk). P s.fat) (fs_is_ready drv b v)
  unfolding fs_is_ready
  fs_is_ready-Keeps P = search keeps_rules

  module _ (st₀ : State Disk) where
    abbrev T : State Disk → Type 0
    T st = Same drv b v ord.laid_out covers st₀ st

    abbrev Holds : {A : Type 0} → Act (Session Disk) A → Type 0
    Holds m = Keeps (λ (s : Session Disk). T s.fat) m

    ready-Same : Holds (fs_is_ready drv b v)
    ready-Same = fs_is_ready-Keeps T

    on_fat-Same : {A : Type 0} (m : Act (State Disk) A) → Keeps T m → Holds (on_fat drv b v m)
    on_fat-Same m h = on_fat-Keeps T m h

    flush-Same : (st : State Disk) → T st → T (fat_flush_fat_sector drv v st).1
    flush-Same st h =
        SameTable-trans drv v h (fat_flush_fat_sector-SameTable drv v ord.laid_out st h.coherent)

    find-Same : (c : ℕ) (name : Str) → Keeps T (fat_find_in_dir drv b v c name)
    find-Same = fat_find_in_dir-Same drv b v ord.laid_out covers st₀

    path-Same : (c : ℕ) (path : Str) → Keeps T (fat_resolve_path drv b v c path)
    path-Same = fat_resolve_path-Same drv b v ord.laid_out covers st₀

    pub dir-Same : (c : ℕ) (path : Str) → Keeps T (fat_resolve_dir drv b v c path)
    dir-Same = fat_resolve_dir-Same drv b v ord.laid_out covers st₀

    file-Same : (raw : Buffer) (out_cap : ℕ) → Keeps T (fat_read_file_entry drv b v raw out_cap)
    file-Same = fat_read_file_entry-Same drv b v ord.laid_out covers st₀

    ruleset query_rules = (
      keeps_rules, ready-Same, on_fat-Same, flush-Same, find-Same, path-Same, dir-Same, file-Same,
    )

    set_cwd-Same : (c : ℕ) (path : Str → Str) → Holds (set_cwd drv b v c path)
    unfolding set_cwd
    set_cwd-Same c path = Keeps-modify _ λ s h. h

    fs_cd-Same : (path : Str) → Holds (fs_cd drv b v path)
    unfolding fs_cd
    fs_cd-Same path = search (query_rules, set_cwd-Same) depth 12

    entry_of_path-Same : (path : Str) → Holds (entry_of_path drv b v path)
    unfolding entry_of_path
    entry_of_path-Same path = search query_rules depth 12

    entry_in_dir-Same : (dir_name name : Str) → Holds (entry_in_dir drv b v dir_name name)
    unfolding entry_in_dir
    entry_in_dir-Same dir_name name = search query_rules depth 12

    read_entry-Same : (out_cap : ℕ) (raw : Buffer) → Holds (read_entry drv b v out_cap raw)
    unfolding read_entry
    read_entry-Same out_cap raw = search query_rules

    exec_entry-Same : (raw : Buffer) → Holds (exec_entry drv b v raw)
    unfolding exec_entry
    exec_entry-Same raw = search query_rules

    ruleset entry_rules =
        (query_rules, entry_of_path-Same, entry_in_dir-Same, read_entry-Same, exec_entry-Same)

    fs_dir_open-Same : (path : Option Str) → Holds (fs_dir_open drv b v path)
    unfolding fs_dir_open
    fs_dir_open-Same none = search query_rules
    fs_dir_open-Same (some path) = search query_rules depth 12

    fs_dir_read-Same :
        (dir : FsDir) (s : Session Disk) → T s.fat → T (fs_dir_read drv b v dir s).1.fat
    unfolding fs_dir_read
    fs_dir_read-Same dir s h =
        if_rule (λ (r : (FsDir × Option Dirent) × Session Disk). T r.1.fat) s.ready _ _
          (λ e. fat_dir_read_raw-Same drv b v ord.laid_out covers st₀ dir s.fat h) λ e. h

    ask-Same : (q : Query) (s : Session Disk) → T s.fat → T (ask drv b v q s).fat
    unfolding ask
    ask-Same (cd path) = (fs_cd-Same path).at
    ask-Same (is_dir path) =
        let h : Holds (fs_is_dir drv b v path) = unfold fs_is_dir in search query_rules depth 12 in
        h.at
    ask-Same (stat path) =
        let h : Holds (fs_stat drv b v path) = unfold fs_stat in search entry_rules in h.at
    ask-Same (is_executable path) =
        let h : Holds (fs_is_executable drv b v path) =
          unfold fs_is_executable in search entry_rules in
        h.at
    ask-Same (dir_open path) = (fs_dir_open-Same path).at
    ask-Same (dir_read dir) = fs_dir_read-Same dir
    ask-Same (read path out_cap) =
        let h : Holds (fs_read drv b v path out_cap) = unfold fs_read in search entry_rules in h.at
    ask-Same (read_in_dir dir_name name out_cap) =
        let h : Holds (fs_read_in_dir drv b v dir_name name out_cap) =
          unfold fs_read_in_dir in search entry_rules in
        h.at
    ask-Same (stat_in_dir dir_name name) =
        let h : Holds (fs_stat_in_dir drv b v dir_name name) =
          unfold fs_stat_in_dir in search entry_rules in
        h.at
    ask-Same (is_executable_in_dir dir_name name) =
        let h : Holds (fs_is_executable_in_dir drv b v dir_name name) =
          unfold fs_is_executable_in_dir in search entry_rules in
        h.at
    ask-Same sync =
        let h : Holds (fs_sync drv b v) = unfold fs_sync in search query_rules depth 12 in h.at

  -- Every query (fs_cd, fs_read, fs_stat, fs_dir_open, fs_dir_read, fs_is_dir, fs_is_executable,
  -- fs_sync and their forms with a directory), with any arguments, from any session with a cache
  -- in order, on a volume with its parts in order whose FAT covers its clusters: whatever it
  -- returns and whatever transfers fail, no byte of the table that the kernel sees changes, the
  -- allocation hint stays, and the cache stays in order.
  pub ask-SameTable :
      (q : Query) (s : Session Disk)
      → IsCoherent drv v s.fat
      → SameTable drv v s.fat (ask drv b v q s).fat
  ask-SameTable q s h = ask-Same s.fat q s (SameTable-refl drv v h)
