-- ===== src/Shell/Dispatch.antt =====
-- kernel/commands.c, `run_buffer`: a line is split into words, and the first word names the command. The
-- chain of comparisons is cut into four, each of which goes on to the next where none fits.
use seolsem.Base.{
  ℕ, suc, Bool, true, false, ◌&&◌, ◌||◌, none, some, List, [], ◌∷◌, leb, ◌==◌, if◌then◌else◌, drop,
  get_or, length, Str, codes,
}
use seolsem.Act.{Act, fail}
use seolsem.Fat.{Drive, Volume}
use seolsem.Fat.Mount.{Bpb}
use seolsem.File.{is_nil}
use seolsem.Mem.Copying.{strcpy, strcat}
use seolsem.Mem.Comparing.{str_eq}
use seolsem.Shell.{
  Machine, Shell, message_max, text_of, print_message, print_simple, clear_screen, parse_argv,
}
use seolsem.Shell.Manual.{
  run_man_topic, run_man_with_section, run_man_whatis, run_man_apropos, run_help, run_ver,
}
use seolsem.Shell.Files.{
  run_ls, run_pwd, run_cd, run_cat, run_write, run_rm, run_rmdir, run_mkdir, run_sync, run_diskinfo,
}
use seolsem.Shell.Programs.{run_edit, run_load, run_program, run_exec, run_calc, run_hello}
use seolsem.Shell.Users.{run_whoami, run_id, run_users, run_useradd, run_passwd, run_logout}

-- The words that the last test of `run_buffer` names.
abbrev pub commands : List Str
commands =
    codes "help"
    ∷ codes "man"
    ∷ codes "cls"
    ∷ codes "ls"
    ∷ codes "cd"
    ∷ codes "pwd"
    ∷ codes "cat"
    ∷ codes "write"
    ∷ codes "edit"
    ∷ codes "rm"
    ∷ codes "rmdir"
    ∷ codes "mkdir"
    ∷ codes "load"
    ∷ codes "run"
    ∷ codes "exec"
    ∷ codes "sync"
    ∷ codes "diskinfo"
    ∷ codes "calc"
    ∷ codes "hello"
    ∷ codes "whoami"
    ∷ codes "users"
    ∷ codes "useradd"
    ∷ codes "id"
    ∷ codes "passwd"
    ∷ codes "logout"
    ∷ []

unfoldable pub among : Str → List Str → Bool
among word [] = false
among word (name ∷ names) = str_eq word name || among word names

-- message_buffer after one step of the loop that joins the words of `write`.
abbrev pub with_text : Str × Bool → Str → Str × Bool
with_text (out, false) text = (out, false)
with_text (out, true) text = strcat message_max out text

-- The words of `write` from the third on joined by spaces; the flag says that they fit.
unfoldable pub join_loop : Bool → Str × Bool → List Str → Str × Bool
join_loop first state [] = state
join_loop first state (word ∷ words) =
    join_loop false (with_text (if first then state else with_text state (codes " ")) word) words

module _ (drv : Drive) (b : Bpb) (v : Volume) (hw : Machine drv) where
  open drv use {Disk}

  unfoldable pub wrong_command_usage : Str → Act (Shell Disk) Unit
  unfolding text_of
  wrong_command_usage buffer =
      print_message (text_of 128 (codes "Wrong command usage: " ∷ buffer ∷ []))

  -- The words behind the command: the first and the second, and how many `argc` counts in all.
  abbrev first_arg : List Str → Str
  first_arg args = get_or args 0 []

  abbrev second_arg : List Str → Str
  second_arg args = get_or args 1 []

  abbrev argc : List Str → ℕ
  argc args = suc (length args)

  unfoldable pub run_write_words : List Str → Act (Shell Disk) Unit
  unfolding join_loop
  run_write_words args =
      let (text, fits) = join_loop true ([], true) (drop 1 args) in
      if fits
      then run_write drv b v hw (first_arg args) text
      else print_simple (codes "Write data too long.")

  unfoldable pub man_command : Str → List Str → Act (Shell Disk) Unit
  man_command buffer args =
      if argc args == 1
      then run_man_topic []
      else if argc args == 2
      then if str_eq (first_arg args) (codes "-h") || str_eq (first_arg args) (codes "--help")
        then run_man_topic []
        else if str_eq (first_arg args) (codes "-k") || str_eq (first_arg args) (codes "-f")
        then wrong_command_usage buffer
        else run_man_topic (first_arg args)
      else if argc args == 3
      then if str_eq (first_arg args) (codes "-k")
        then run_man_apropos (second_arg args)
        else if str_eq (first_arg args) (codes "-f")
        then run_man_whatis (second_arg args)
        else run_man_with_section (first_arg args) (second_arg args)
      else wrong_command_usage buffer

  -- The tests behind those of `text_commands`, of `file_commands` and of `program_commands`.
  unfoldable pub user_commands : Str → Str → List Str → Act (Shell Disk) Unit
  unfolding among
  user_commands buffer word args =
      if str_eq word (codes "whoami") && argc args == 1
      then run_whoami drv b v
      else if str_eq word (codes "users") && argc args == 1
      then run_users drv b v
      else if str_eq word (codes "useradd")
      then if argc args == 2
        then run_useradd drv b v (first_arg args) (first_arg args)
        else if argc args == 3
        then run_useradd drv b v (first_arg args) (second_arg args)
        else wrong_command_usage buffer
      else if str_eq word (codes "id") && argc args == 1
      then run_id drv b v
      else if str_eq word (codes "passwd") && argc args == 1
      then run_passwd drv b v
      else if str_eq word (codes "logout") && argc args == 1
      then run_logout drv b v
      else if among word commands
      then wrong_command_usage buffer
      else fail

  unfoldable pub program_commands : Str → Str → List Str → Act (Shell Disk) Unit
  unfolding user_commands
  program_commands buffer word args =
      if str_eq word (codes "load") && argc args == 2
      then run_load drv b v hw (first_arg args)
      else if str_eq word (codes "run") && argc args == 1
      then run_program drv b v hw
      else if str_eq word (codes "exec") && argc args == 2
      then run_exec drv b v hw (first_arg args)
      else if str_eq word (codes "sync") && argc args == 1
      then run_sync drv b v hw
      else if str_eq word (codes "diskinfo") && argc args == 1
      then run_diskinfo drv b v hw
      else if str_eq word (codes "calc") && argc args == 1
      then run_calc drv b v hw
      else if str_eq word (codes "hello") && argc args == 1
      then run_hello drv b v hw
      else user_commands buffer word args

  unfoldable pub file_commands : Str → Str → List Str → Act (Shell Disk) Unit
  unfolding program_commands run_write_words
  file_commands buffer word args =
      if str_eq word (codes "ls")
      then if argc args == 1
        then run_ls drv b v hw none
        else if argc args == 2
        then run_ls drv b v hw (some (first_arg args))
        else wrong_command_usage buffer
      else if str_eq word (codes "cd")
      then if argc args == 1
        then run_cd drv b v hw none
        else if argc args == 2
        then run_cd drv b v hw (some (first_arg args))
        else wrong_command_usage buffer
      else if str_eq word (codes "pwd") && argc args == 1
      then run_pwd drv b v hw
      else if str_eq word (codes "cat") && argc args == 2
      then run_cat drv b v hw (first_arg args)
      else if str_eq word (codes "write") && leb 3 (argc args)
      then run_write_words args
      else if str_eq word (codes "edit")
      then if argc args == 1
        then run_edit drv b v hw none
        else if argc args == 2
        then run_edit drv b v hw (some (first_arg args))
        else wrong_command_usage buffer
      else if str_eq word (codes "rm") && argc args == 2
      then run_rm drv b v hw (first_arg args)
      else if str_eq word (codes "rmdir") && argc args == 2
      then run_rmdir drv b v hw (first_arg args)
      else if str_eq word (codes "mkdir") && argc args == 2
      then run_mkdir drv b v hw (first_arg args)
      else program_commands buffer word args

  unfoldable pub text_commands : Str → Str → List Str → Act (Shell Disk) Unit
  unfolding file_commands man_command
  text_commands buffer word args =
      if str_eq word (codes "ver")
      then if argc args == 1 then run_ver else wrong_command_usage buffer
      else if str_eq word (codes "help")
      then if argc args == 1
        then run_help
        else if argc args == 2
        then print_message (text_of message_max (codes "Use: man " ∷ first_arg args ∷ []))
        else wrong_command_usage buffer
      else if str_eq word (codes "man")
      then man_command buffer args
      else if str_eq word (codes "cls") && argc args == 1
      then clear_screen
      else file_commands buffer word args

  -- `run_buffer` on the words of the line.
  unfoldable pub run_words : Str → List Str → Act (Shell Disk) Unit
  unfolding text_commands
  run_words buffer [] = fail
  run_words buffer ([] ∷ args) = fail
  run_words buffer ((c ∷ word) ∷ args) = text_commands buffer (c ∷ word) args

  -- The line is copied into argv_buffer, as much of it as fits.
  unfoldable pub run_buffer : Str → Act (Shell Disk) Unit
  unfolding run_words
  run_buffer buffer =
      if is_nil buffer then fail else run_words buffer (parse_argv (strcpy 64 buffer).0 16)
