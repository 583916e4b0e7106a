-- ===== src/Shell/Safe/Lines.antt =====
-- The commands, and any line typed at the shell: the cache of the FAT stays in order.
use seolsem.Base.{true, Option, none, some, List, [], ◌∷◌, Str}
use seolsem.Act.{Act}
use seolsem.Act.Keeps.{Keeps, Keeps-call, Keeps-bind, keeps_rules}
use seolsem.Dir.Sectors.{IsModest}
use seolsem.Fat.{Drive, Volume}
use seolsem.Fat.Entry.{Covers}
use seolsem.Fat.Geometry.{IsInOrder}
use seolsem.Fat.Mount.{Bpb}
use seolsem.Fat.Write.{IsSized}
use seolsem.Shell.{Machine, Shell}
use seolsem.Shell.Manual.{run_help, run_ver}
use seolsem.Shell.Users.{
  run_whoami, run_id, run_users, run_useradd, wait_prompt_masked, answered, passwd_with, run_passwd,
  run_logout,
}
use seolsem.Shell.Dispatch.{
  wrong_command_usage, run_write_words, man_command, user_commands, program_commands, file_commands,
  text_commands, run_words, run_buffer,
}
use seolsem.Shell.Safe
use seolsem.Shell.Safe.{InFiles, InAccounts, InShell}
use seolsem.Shell.Safe.Files
use seolsem.Shell.Safe.Files.{run_write-Kept}
use seolsem.Shell.Safe.Pages.{
  run_man_topic-Kept, run_man_with_section-Kept, run_man_whatis-Kept, run_man_apropos-Kept,
}
use seolsem.Shell.Safe.Users.{user_add-Kept, user_change_password-Kept, user_logout-Kept}

module _ (drv : Drive) (b : Bpb) (v : Volume) (hw : Machine drv) (ord : IsInOrder b v)
    (covers : Covers v) (modest : IsModest b v) (sized : IsSized v) where
  open drv use {Disk}

  abbrev Holds : {A : Type 0} → Act (Shell Disk) A → Type 0
  Holds m = Keeps (InShell drv v) m

  pub wait_prompt_masked-Kept : (prompt : Str) → Holds (wait_prompt_masked drv b v prompt)
  unfolding wait_prompt_masked
  wait_prompt_masked-Kept prompt =
      Keeps-bind _ _ (Safe.show-Kept drv b v hw ord covers modest sized _)
        λ u. Keeps-call _ λ s h. taken s.answers s h
    where
      taken :
          (l : List Str) (s : Shell Disk)
          → InShell drv v s
          → InShell drv v
              (elim l as (λ x. Option Str × Shell Disk) [
                | [] ↦ (none, record s { waits = true })
                | answer ∷ answers ↦ (some answer, record s { answers = answers })
              ]).1
      taken [] s h = h
      taken (answer ∷ answers) s h = h

  answered-Kept :
      (prompt : Str) (rest : Str → Act (Shell Disk) Unit)
      → ((answer : Str) → Holds (rest answer))
      → Holds (answered drv b v prompt rest)
  unfolding answered
  answered-Kept prompt rest h = search (keeps_rules, wait_prompt_masked-Kept) depth 12

  passwd_with-Kept : (old new confirm : Str) → Holds (passwd_with drv b v old new confirm)
  unfolding passwd_with
  passwd_with-Kept old new confirm = search (Safe.shell_rules, user_change_password-Kept) depth 12

  run_passwd-Kept : Holds (run_passwd drv b v)
  unfolding run_passwd
  run_passwd-Kept = search (answered-Kept, passwd_with-Kept)

  run_useradd-Kept : (name password : Str) → Holds (run_useradd drv b v name password)
  unfolding run_useradd
  run_useradd-Kept name password = search (Safe.shell_rules, user_add-Kept) depth 12

  run_logout-Kept : Holds (run_logout drv b v)
  unfolding run_logout
  run_logout-Kept = search (Safe.shell_rules, user_logout-Kept)

  run_whoami-Kept : Holds (run_whoami drv b v)
  unfolding run_whoami
  run_whoami-Kept = search Safe.shell_rules

  run_id-Kept : Holds (run_id drv b v)
  unfolding run_id
  run_id-Kept = search Safe.shell_rules

  run_users-Kept : Holds (run_users drv b v)
  unfolding run_users
  run_users-Kept = search Safe.shell_rules

  user_commands-Kept :
      (buffer word : Str) (args : List Str) → Holds (user_commands drv b v hw buffer word args)
  unfolding user_commands wrong_command_usage
  user_commands-Kept buffer word args =
      search
        (
          Safe.shell_rules, run_whoami-Kept, run_id-Kept, run_users-Kept, run_useradd-Kept,
          run_passwd-Kept, run_logout-Kept,
        )
        depth 20

  program_commands-Kept :
      (buffer word : Str) (args : List Str) → Holds (program_commands drv b v hw buffer word args)
  unfolding program_commands
  program_commands-Kept buffer word args =
      search (keeps_rules, Files.file_command_rules, user_commands-Kept) depth 20

  run_write_words-Kept : (args : List Str) → Holds (run_write_words drv b v hw args)
  unfolding run_write_words
  run_write_words-Kept args = search (Safe.shell_rules, run_write-Kept)

  file_commands-Kept :
      (buffer word : Str) (args : List Str) → Holds (file_commands drv b v hw buffer word args)
  unfolding file_commands wrong_command_usage
  file_commands-Kept buffer word args =
      search
        (Safe.shell_rules, Files.file_command_rules, run_write_words-Kept, program_commands-Kept)
        depth 30

  man_command-Kept : (buffer : Str) (args : List Str) → Holds (man_command drv b v hw buffer args)
  unfolding man_command wrong_command_usage
  man_command-Kept buffer args =
      search
        (
          Safe.shell_rules, run_man_topic-Kept, run_man_with_section-Kept, run_man_whatis-Kept,
          run_man_apropos-Kept,
        )
        depth 12

  text_commands-Kept :
      (buffer word : Str) (args : List Str) → Holds (text_commands drv b v hw buffer word args)
  unfolding text_commands wrong_command_usage run_ver run_help
  text_commands-Kept buffer word args =
      search (Safe.shell_rules, man_command-Kept, file_commands-Kept) depth 16

  run_words-Kept : (buffer : Str) (words : List Str) → Holds (run_words drv b v hw buffer words)
  unfolding run_words
  run_words-Kept buffer [] = search keeps_rules
  run_words-Kept buffer ([] ∷ args) = search keeps_rules
  run_words-Kept buffer ((c ∷ word) ∷ args) = text_commands-Kept buffer (c ∷ word) args

  pub run_buffer-Kept : (buffer : Str) → Holds (run_buffer drv b v hw buffer)
  unfolding run_buffer
  run_buffer-Kept buffer = search (keeps_rules, run_words-Kept)
