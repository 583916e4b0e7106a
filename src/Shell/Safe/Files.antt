-- ===== src/Shell/Safe/Files.antt =====
-- The commands on directories, files and the disk: the cache of the FAT stays in order.
use seolsem.Base.{ℕ, zero, suc, ◌∙◌, sym, Bool, Option, Str}
use seolsem.Act.{Act}
use seolsem.Act.Keeps.{Keeps, Keeps-modify}
use seolsem.Dir.{FsDir}
use seolsem.Dir.Sectors.{IsModest}
use seolsem.Fat.{Drive, Volume}
use seolsem.Fat.Entry.{Covers}
use seolsem.Fat.Geometry.{IsInOrder}
use seolsem.Fat.Mount.{Bpb}
use seolsem.Fat.Write.{IsSized}
use seolsem.Fs
use seolsem.Shell.{Machine, Shell}
use seolsem.Shell.Files.{
  ls_loop, run_ls, run_pwd, cd_done, cd_to, run_cd, run_cat, run_write, run_rm, run_rmdir,
  run_mkdir, run_sync, identified, run_diskinfo,
}
use seolsem.Shell.Safe
use seolsem.Shell.Safe.{InFiles, InAccounts, InShell}
use seolsem.Shell.Safe.Programs.{
  run_edit-Kept, run_calc-Kept, run_hello-Kept, run_load-Kept, run_program-Kept, run_exec-Kept,
}
use seolsem.User.Session.{set_env}

module _ (drv : Drive) (b : Bpb) (v : Volume) (hw : Machine drv) (ord : IsInOrder b v)
    (covers : Covers v) (modest : IsModest b v) (sized : IsSized v) where
  open drv use {Disk}

  abbrev Holds : {A : Type 0} → Act (Shell Disk) A → Type 0
  Holds m = Keeps (InShell drv v) m

  ls_loop-Kept : (left : ℕ) (dir : FsDir) → Holds (ls_loop drv b v hw left dir)
  unfolding ls_loop
  ls_loop-Kept zero dir = search Safe.shell_rules depth 12
  ls_loop-Kept (suc left) dir =
      let rest = λ (dir' : FsDir). ls_loop-Kept left dir' in
      search (Safe.shell_rules, rest) depth 12

  pub run_ls-Kept : (path : Option Str) → Holds (run_ls drv b v hw path)
  unfolding run_ls
  run_ls-Kept path = search (Safe.shell_rules, ls_loop-Kept) depth 12

  pub run_pwd-Kept : Holds (run_pwd drv b v hw)
  unfolding run_pwd
  run_pwd-Kept = search Safe.shell_rules depth 12

  pub set_env-Kept : (name value : Str) → Keeps (InAccounts drv v) (set_env drv b v name value)
  unfolding set_env
  set_env-Kept name value = Keeps-modify _ λ a h. h

  cd_done-Kept : (old : Str) (swap : Bool) → Holds (cd_done drv b v hw old swap)
  unfolding cd_done
  cd_done-Kept old swap =
      let kept = λ (s : Shell Disk) (h : InShell drv v s). h in
      search (Safe.shell_rules, set_env-Kept, run_pwd-Kept, kept) depth 16

  cd_to-Kept : (old : Str) (goal : Str × Bool) → Holds (cd_to drv b v hw old goal)
  unfolding cd_to
  cd_to-Kept old (path, swap) = search (Safe.shell_rules, cd_done-Kept) depth 16

  pub run_cd-Kept : (path : Option Str) → Holds (run_cd drv b v hw path)
  unfolding run_cd
  run_cd-Kept path = search (Safe.shell_rules, cd_to-Kept) depth 16

  pub run_cat-Kept : (name : Str) → Holds (run_cat drv b v hw name)
  unfolding run_cat
  run_cat-Kept name = search Safe.shell_rules depth 12

  pub run_write-Kept : (name text : Str) → Holds (run_write drv b v hw name text)
  unfolding run_write
  run_write-Kept name text = search Safe.shell_rules depth 12

  pub run_rm-Kept : (name : Str) → Holds (run_rm drv b v hw name)
  unfolding run_rm
  run_rm-Kept name = search Safe.shell_rules depth 12

  pub run_rmdir-Kept : (name : Str) → Holds (run_rmdir drv b v hw name)
  unfolding run_rmdir
  run_rmdir-Kept name = search Safe.shell_rules depth 12

  pub run_mkdir-Kept : (name : Str) → Holds (run_mkdir drv b v hw name)
  unfolding run_mkdir
  run_mkdir-Kept name = search Safe.shell_rules depth 12

  pub run_sync-Kept : Holds (run_sync drv b v hw)
  unfolding run_sync
  run_sync-Kept = search Safe.shell_rules depth 12

  -- IDENTIFY leaves the sectors, so the cached sector agrees with the disk as before.
  identified-Kept :
      (s : Fs.Session Disk) → InFiles drv v s → InFiles drv v (identified drv b v hw s).1
  unfolding identified
  identified-Kept s h = record {
    inside = h.inside;
    clean = λ not_dirty some_sector o.
        h.clean not_dirty some_sector o ∙ sym (hw.identify_keeps s.fat.disk s.fat.cur_lba o);
    loaded = h.loaded;
    octets = h.octets;
  }

  pub run_diskinfo-Kept : Holds (run_diskinfo drv b v hw)
  unfolding run_diskinfo
  run_diskinfo-Kept = search (Safe.shell_rules, identified-Kept) depth 16

  pub ruleset file_command_rules = (
    run_ls-Kept, run_cd-Kept, run_pwd-Kept, run_cat-Kept, run_write-Kept, run_rm-Kept,
    run_rmdir-Kept, run_mkdir-Kept, run_sync-Kept, run_diskinfo-Kept, run_edit-Kept, run_calc-Kept,
    run_hello-Kept, run_load-Kept, run_program-Kept, run_exec-Kept,
  )
