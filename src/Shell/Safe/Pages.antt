-- ===== src/Shell/Safe/Pages.antt =====
-- The manual: the cache of the FAT stays in order, since it only prints.
use seolsem.Base.{ℕ, zero, suc, Bool, true, false, Option, none, some, List, [], ◌∷◌, Str}
use seolsem.Act.{Act}
use seolsem.Act.Keeps.{Keeps, Keeps-call, keeps_rules}
use seolsem.Dir.Sectors.{IsModest}
use seolsem.Fat.{Drive, Volume}
use seolsem.Fat.Entry.{Covers}
use seolsem.Fat.Geometry.{IsInOrder}
use seolsem.Fat.Mount.{Bpb}
use seolsem.Fat.Write.{IsSized}
use seolsem.Shell.{Machine, Shell}
use seolsem.Shell.Manual.{
  key_loop, man_wait_next, page_loop, man_show_page, man_print_whatis_entry, run_man_topic,
  run_man_with_section, run_man_whatis, apropos_loop, run_man_apropos,
}
use seolsem.Shell.Safe
use seolsem.Shell.Safe.{InFiles, InAccounts, InShell}

module _ (drv : Drive) (b : Bpb) (v : Volume) (hw : Machine drv) (ord : IsInOrder b v)
    (covers : Covers v) (modest : IsModest b v) (sized : IsSized v) where
  open drv use {Disk}

  abbrev Holds : {A : Type 0} → Act (Shell Disk) A → Type 0
  Holds m = Keeps (InShell drv v) m

  man_wait_next-Kept : Holds man_wait_next
  unfolding man_wait_next key_loop
  man_wait_next-Kept = Keeps-call _ λ s h. waited (key_loop s.keys) s h
    where
      waited :
          (o : Option (Bool × List ℕ)) (s : Shell Disk)
          → InShell drv v s
          → InShell drv v
              (elim o as (λ x. Bool × Shell Disk) [
                | none ↦ (false, record s { keys = []; waits = true })
                | some (more, keys) ↦ (more, record s { keys = keys })
              ]).1
      waited none s h = h
      waited (some (more, keys)) s h = h

  page_loop-Kept :
      (rounds : ℕ) (title : Str) (lines : List Str) → Holds (page_loop rounds title lines)
  unfolding page_loop
  page_loop-Kept zero title lines = search keeps_rules
  page_loop-Kept (suc rounds) title [] = search keeps_rules
  page_loop-Kept (suc rounds) title (line ∷ lines) =
      let rest = λ (left : List Str). page_loop-Kept rounds title left in
      search (Safe.shell_rules, man_wait_next-Kept, rest) depth 20

  man_show_page-Kept : (title : Str) (lines : List Str) → Holds (man_show_page title lines)
  unfolding man_show_page
  man_show_page-Kept title lines = page_loop-Kept _ title lines

  pub run_man_topic-Kept : (topic : Str) → Holds (run_man_topic topic)
  unfolding run_man_topic
  run_man_topic-Kept topic = search (Safe.shell_rules, man_show_page-Kept) depth 16

  pub run_man_with_section-Kept : (section topic : Str) → Holds (run_man_with_section section topic)
  unfolding run_man_with_section
  run_man_with_section-Kept section topic = search (Safe.shell_rules, run_man_topic-Kept) depth 12

  whatis_entry-Kept : (name : Str) (section : ℕ) → Holds (man_print_whatis_entry name section)
  unfolding man_print_whatis_entry
  whatis_entry-Kept name section = search Safe.shell_rules

  pub run_man_whatis-Kept : (topic : Str) → Holds (run_man_whatis topic)
  unfolding run_man_whatis
  run_man_whatis-Kept [] = search keeps_rules
  run_man_whatis-Kept (c ∷ topic) = search (Safe.shell_rules, whatis_entry-Kept)

  apropos_loop-Kept :
      (keyword : Str) (section : ℕ) (found : Bool) (names : List Str)
      → Holds (apropos_loop keyword section found names)
  unfolding apropos_loop
  apropos_loop-Kept keyword section found [] = search keeps_rules
  apropos_loop-Kept keyword section found (name ∷ names) =
      let rest = λ (seen : Bool). apropos_loop-Kept keyword section seen names in
      search (Safe.shell_rules, whatis_entry-Kept, rest)

  pub run_man_apropos-Kept : (keyword : Str) → Holds (run_man_apropos keyword)
  unfolding run_man_apropos
  run_man_apropos-Kept [] = search keeps_rules
  run_man_apropos-Kept (c ∷ keyword) = search (Safe.shell_rules, apropos_loop-Kept)
