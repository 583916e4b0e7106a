-- ===== src/Shell/Manual.antt =====
-- kernel/commands.c, the manual: the pages, the look-up of a topic, and `man -k` and `man -f`. A string
-- pointer is not NULL; no topic is the empty text.
use seolsem.Base.{
  ℕ, zero, suc, ◌+◌, ◌-◌, Bool, true, false, ◌&&◌, ◌||◌, Option, none, some, List, [], ◌∷◌, leb,
  ◌==◌, if◌then◌else◌, length, take, drop, u8, Str, codes,
}
use seolsem.Act.{Act, cases, pure, fail, call, ◌>>=◌, ◌>>◌}
use seolsem.File.{is_nil}
use seolsem.Mem.Text.{find_str}
use seolsem.Shell.{
  Shell, message_max, text_of, print_message, print_simple, print_all, clear_screen,
}

unfoldable pub man_upper : ℕ → ℕ
man_upper ch = if leb b'a' ch && leb ch b'z' then u8 (ch - b'a' + b'A') else ch

unfoldable pub man_topic_eq : Str → Str → Bool
unfolding man_upper
man_topic_eq [] [] = true
man_topic_eq [] (d ∷ rhs) = false
man_topic_eq (c ∷ lhs) [] = false
man_topic_eq (c ∷ lhs) (d ∷ rhs) = man_upper c == man_upper d && man_topic_eq lhs rhs

unfoldable pub man_parse_section : Str → Option ℕ
man_parse_section [] = none
man_parse_section (c ∷ d ∷ text) = none
man_parse_section (c ∷ []) = if c == b'1' then some 1 else if c == b'7' then some 7 else none

abbrev pub man_command_names : List Str
man_command_names =
    codes "ver"
    ∷ codes "help"
    ∷ codes "man"
    ∷ codes "cls"
    ∷ codes "ls"
    ∷ codes "cd"
    ∷ codes "pwd"
    ∷ codes "cat"
    ∷ codes "write"
    ∷ codes "edit"
    ∷ codes "rm"
    ∷ codes "rmdir"
    ∷ codes "mkdir"
    ∷ codes "load"
    ∷ codes "run"
    ∷ codes "exec"
    ∷ codes "sync"
    ∷ codes "diskinfo"
    ∷ codes "calc"
    ∷ codes "hello"
    ∷ codes "whoami"
    ∷ codes "id"
    ∷ codes "users"
    ∷ codes "useradd"
    ∷ codes "passwd"
    ∷ codes "logout"
    ∷ []

abbrev pub man_topic_names : List Str
man_topic_names =
    codes "system" ∷ codes "fs" ∷ codes "exec" ∷ codes "user" ∷ codes "display" ∷ codes "tools" ∷ []

-- The entry of a table that a topic names.
unfoldable pub entry_of : Str → List Str → Option Str
unfolding man_topic_eq
entry_of topic [] = none
entry_of topic (name ∷ names) = if man_topic_eq topic name then some name else entry_of topic names

unfoldable pub man_in_table : Str → List Str → Bool
unfolding entry_of
man_in_table topic table = elim (entry_of topic table) [ none ↦ false | some name ↦ true ]

-- The name and the section.
unfoldable pub man_lookup : Str → Option (Str × ℕ)
unfolding entry_of
man_lookup topic = if is_nil topic then none else elim (entry_of topic man_command_names) [
  | some name ↦ some (name, 1)
  | none ↦ elim (entry_of topic man_topic_names) [ some name ↦ some (name, 7) | none ↦ none ]
]

-- The keys up to one that answers, and whether it goes on; `none` if there is no such key.
unfoldable pub key_loop : List ℕ → Option (Bool × List ℕ)
key_loop [] = none
key_loop (key ∷ keys) =
    let ascii = u8 key in
    if ascii == b'q' || ascii == b'Q' || ascii == 27
    then some (false, keys)
    else if ascii == b' ' || ascii == 13
    then some (true, keys)
    else key_loop keys

abbrev pub body_lines : ℕ
body_lines = 18

abbrev is_nil_of : List Str → Bool
is_nil_of [] = true
is_nil_of (l ∷ ls) = false

abbrev pub any_of : Str → List Str → Bool
any_of topic [] = false
any_of topic (name ∷ names) = man_topic_eq topic name || any_of topic names

module _ {Disk : Type 0} where
  unfoldable pub man_wait_next : Act (Shell Disk) Bool
  unfolding key_loop
  man_wait_next = call λ (s : Shell Disk). elim (key_loop s.keys) as (λ o. Bool × Shell Disk) [
    | none ↦ (false, record s { keys = []; waits = true })
    | some (more, keys) ↦ (more, record s { keys = keys })
  ]

  -- The loop of `man_show_page` on the lines left; each round shows one at least.
  unfoldable pub page_loop : ℕ → Str → List Str → Act (Shell Disk) Unit
  page_loop zero title lines = pure tt
  page_loop (suc rounds) title [] = pure tt
  page_loop (suc rounds) title (line ∷ lines) = do
    clear_screen
    print_message (codes "Seolsem Manual")
    print_message title
    print_message []
    print_all (take body_lines (line ∷ lines))
    if is_nil_of (drop body_lines (line ∷ lines)) then pure tt else do
      print_message []
      print_message (codes "[SPACE/ENTER] next  [Q/ESC] quit")
      more ← man_wait_next
      if more then page_loop rounds title (drop body_lines (line ∷ lines)) else pure tt

  unfoldable pub man_show_page : Str → List Str → Act (Shell Disk) Unit
  unfolding page_loop
  man_show_page title lines = page_loop (length lines) title lines

  unfoldable pub man_print_whatis_entry : Str → ℕ → Act (Shell Disk) Unit
  man_print_whatis_entry name section = print_message (
      text_of message_max (
        name
        ∷ codes " ("
        ∷ (if section == 7 then codes "7" else codes "1")
        ∷ codes ") - "
        ∷ (if section == 7 then codes "topic" else codes "command")
        ∷ []))

  abbrev index_page : Act (Shell Disk) Unit
  index_page = man_show_page (codes "Index") (
      codes "man [section] <topic>"
      ∷ codes "man -k <key> | man -f <name>"
      ∷ codes "sections: 1=cmd, 7=topic"
      ∷ codes "ex: man 1 ls"
      ∷ [])

  unfoldable pub run_man_topic : Str → Act (Shell Disk) Unit
  unfolding man_topic_eq
  run_man_topic topic =
      if is_nil topic
      then index_page
      else if man_topic_eq topic (codes "INDEX")
      then index_page
      else if any_of topic
          (codes "SYSTEM" ∷ codes "VER" ∷ codes "HELP" ∷ codes "MAN" ∷ codes "DISKINFO" ∷ [])
      then man_show_page (codes "System") (codes "system: ver help man diskinfo" ∷ [])
      else if any_of topic (
          codes "FS"
          ∷ codes "LS"
          ∷ codes "PWD"
          ∷ codes "CAT"
          ∷ codes "WRITE"
          ∷ codes "EDIT"
          ∷ codes "RM"
          ∷ codes "RMDIR"
          ∷ codes "MKDIR"
          ∷ codes "SYNC"
          ∷ [])
      then man_show_page (codes "Filesystem")
          (codes "fs: ls cd pwd cat write edit rm rmdir mkdir sync" ∷ [])
      else if man_topic_eq topic (codes "CD")
      then man_show_page (codes "cd") (codes "cd: [path] | / | - | (HOME)" ∷ [])
      else if any_of topic (codes "EXEC" ∷ codes "LOAD" ∷ codes "RUN" ∷ [])
      then man_show_page (codes "Program Execution")
          (codes "exec: load <f> | run | exec <f>" ∷ codes "single active process only" ∷ [])
      else if any_of topic (
          codes "USER"
          ∷ codes "WHOAMI"
          ∷ codes "ID"
          ∷ codes "USERS"
          ∷ codes "USERADD"
          ∷ codes "PASSWD"
          ∷ codes "LOGOUT"
          ∷ [])
      then man_show_page (codes "User")
          (codes "user: whoami id users useradd passwd logout" ∷ codes "useradd: root only" ∷ [])
      else if any_of topic (codes "DISPLAY" ∷ codes "CLS" ∷ [])
      then man_show_page (codes "Display") (codes "display: cls" ∷ [])
      else if any_of topic (codes "TOOLS" ∷ codes "CALC" ∷ [])
      then man_show_page (codes "Calculator")
          (codes "calc: a+ s- d* f/ g% h& j| k^ l<< ;>>" ∷ codes "q/ESC quit" ∷ [])
      else if man_topic_eq topic (codes "HELLO")
      then man_show_page (codes "Hello") (codes "hello: run HELLO.XEF from PATH" ∷ [])
      else print_simple (codes "No manual entry.")

  unfoldable pub run_man_with_section : Str → Str → Act (Shell Disk) Unit
  unfolding man_in_table man_parse_section run_man_topic
  run_man_with_section section topic =
      cases (man_parse_section section) (print_simple (codes "Supported sections: 1, 7")) λ sec.
        if sec == 1
        then if man_in_table topic man_topic_names
          then print_simple (codes "No manual entry.")
          else run_man_topic topic
        else if man_in_table topic man_topic_names
        then run_man_topic topic
        else print_simple (codes "No manual entry.")

  unfoldable pub run_man_whatis : Str → Act (Shell Disk) Unit
  unfolding man_lookup man_print_whatis_entry
  run_man_whatis [] = fail
  run_man_whatis (c ∷ topic) =
      cases (man_lookup (c ∷ topic)) (print_simple (codes "No manual entry."))
        λ (name, section). man_print_whatis_entry name section

  -- The entries of a table that hold the keyword; whether there was one.
  unfoldable pub apropos_loop : Str → ℕ → Bool → List Str → Act (Shell Disk) Bool
  unfolding man_print_whatis_entry
  apropos_loop keyword section found [] = pure found
  apropos_loop keyword section found (name ∷ names) =
      cases (find_str name keyword) (apropos_loop keyword section found names)
        λ rest. man_print_whatis_entry name section >> apropos_loop keyword section true names

  unfoldable pub run_man_apropos : Str → Act (Shell Disk) Unit
  unfolding apropos_loop
  run_man_apropos [] = fail
  run_man_apropos (c ∷ keyword) = do
    in_commands ← apropos_loop (c ∷ keyword) 1 false man_command_names
    found ← apropos_loop (c ∷ keyword) 7 in_commands man_topic_names
    if found then pure tt else print_simple (codes "Nothing appropriate.")

  unfoldable pub run_help : Act (Shell Disk) Unit
  run_help = print_all (
      codes "commands:"
      ∷ codes "  ver help man cls ls cd pwd cat write edit rm rmdir mkdir"
      ∷ codes "  load run exec sync diskinfo calc hello whoami id users useradd"
      ∷ codes "  passwd logout"
      ∷ [])

  unfoldable pub run_ver : Act (Shell Disk) Unit
  run_ver = print_message (codes "Seolsem OS Version 1.1. All Rights Reserved.")
