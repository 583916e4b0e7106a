-- ===== src/Shell.antt =====
-- kernel/commands.c, the shell: the state that commands work on, what they print, and the splitting of
-- a line into words (`parse_argv`). A command is an action (Act) over that state whose failure is
-- the result FALSE, "no such command". What is printed is kept in order; what is typed at a prompt
-- or pressed at a page of the manual is taken from lists in the state. message_buffer,
-- wrong_command_message and argv_buffer are cleared before each use, so they are local values.
pub mod Manual
pub mod Files
pub mod Programs
pub mod Users
pub mod Dispatch
pub mod Safe
pub mod Denied
pub mod Quoting
use seolsem.Base.{
  ℕ, zero, suc, ◌≡◌, Bool, true, false, not, ◌&&◌, ◌||◌, Option, none, some, List, [], ◌∷◌, ◌++◌,
  ◌==◌, if◌then◌else◌, Str, codes,
}
use seolsem.Act.{Act, cases, pure, modify, gets, ◌>>=◌, ◌>>◌}
use seolsem.Conv.{sima_utoa}
use seolsem.Env.{env_get}
use seolsem.Fat.{Drive}
use seolsem.FilePath.{is_separator}
use seolsem.Mem.Block.{Memory}
use seolsem.Mem.Copying.{strcpy, strcat}
use seolsem.Perm.{Context, perm_allow_path}
use seolsem.Program
use seolsem.User.Session.{Accounts}

-- What the shell asks of the rest of the machine: the size of the disk as ATA IDENTIFY gives it, which
-- leaves the sectors alone; the import wrappers and the entry of a program; and where a word of
-- the command line lies in memory, for the argument of a program.
pub record Machine (drv : Drive) : Type 0 where
  pub identify : drv.Disk → Option ℕ × drv.Disk
  pub identify_keeps :
      (d : drv.Disk) (l o : ℕ) → drv.contents (identify d).1 l o ≡ drv.contents d l o
  pub wrapper : ℕ → ℕ
  pub call_entry : ℕ → ℕ → ℕ → Memory → ℕ × Memory
  pub place : Str → ℕ

-- What appears on the screen.
pub data Shown : Type 0 where
  cleared : Shown
  message prompted : Str → Shown

-- g_program_slot, the heap, the memory, and below them the users, the environment and the files;
-- g_loaded_handle; prev_path and has_prev of `run_cd`; what will be typed at the prompts, at masked
-- ones, and the keys that will be pressed; whether one of these ran out, so that the shell waits; the screen.
pub record Shell (Disk : Type 0) : Type 0 where
  pub loader : Program.State (Accounts Disk)
  pub loaded_handle : ℕ
  pub prev_path : Str
  pub has_prev : Bool
  pub lines : List Str
  pub answers : List Str
  pub keys : List ℕ
  pub waits : Bool
  pub screen : List Shown

abbrev pub message_max : ℕ
message_max = 160

-- The texts appended to what a buffer holds, each as far as it fits.
unfoldable pub appended : ℕ → Str → List Str → Str
appended cap out [] = out
appended cap out (s ∷ texts) = appended cap (strcat cap out s).0 texts

-- A cleared buffer after `sima_strcpy` of the first text and `sima_strcat` of the others.
unfoldable pub text_of : ℕ → List Str → Str
unfolding appended
text_of cap [] = []
text_of cap (s ∷ texts) = appended cap (strcpy cap s).0 texts

-- The decimal text of a number in a cleared buffer.
unfoldable pub decimal : ℕ → ℕ → Str
decimal n cap = elim (sima_utoa n cap 10).0 [ none ↦ [] | some s ↦ s ]

unfoldable pub is_space_char : ℕ → Bool
is_space_char ch = ch == b' ' || ch == 9 || ch == 13 || ch == 10

-- The characters that a backslash escapes.
unfoldable pub is_escaped : ℕ → Bool
is_escaped next = next == b' ' || next == 9 || next == b'\\' || next == b'"' || next == b'\''

unfoldable pub skip_spaces : Str → Str
unfolding is_space_char
skip_spaces [] = []
skip_spaces (ch ∷ src) = if is_space_char ch then skip_spaces src else ch ∷ src

-- A byte stored at `*dst++`.
abbrev pub stored : ℕ → Str × Str → Str × Str
stored ch (word, rest) = (ch ∷ word, rest)

-- The inner loop of `parse_argv`: the word that it stores, and what is left behind its delimiter.
unfoldable pub word_loop : Bool → Bool → Str → Str × Str
unfolding is_space_char is_escaped
word_loop in_single in_double [] = ([], [])
word_loop in_single in_double (ch ∷ []) =
    let kept : Str × Str = (ch ∷ [], []) in
    if not in_single && not in_double && is_space_char ch
    then ([], [])
    else if not in_double && ch == b'\''
    then ([], [])
    else if not in_single && ch == b'"'
    then ([], [])
    else kept
word_loop in_single in_double (ch ∷ next ∷ src) =
    let single = word_loop (not in_single) in_double (next ∷ src) in
    let double = word_loop in_single (not in_double) (next ∷ src) in
    let escaped = stored next (word_loop in_single in_double src) in
    let plain = stored ch (word_loop in_single in_double (next ∷ src)) in
    if not in_single && not in_double && is_space_char ch
    then ([], next ∷ src)
    else if not in_double && ch == b'\''
    then single
    else if not in_single && ch == b'"'
    then double
    else if not in_single && ch == b'\\' && is_escaped next
    then escaped
    else plain

-- The outer loop, with `left` places in `argv`.
unfoldable pub words_loop : ℕ → Str → List Str
unfolding word_loop skip_spaces
words_loop zero src = []
words_loop (suc left) src = elim (skip_spaces src) [
  | [] ↦ []
  | ch ∷ rest ↦ let (word, src') = word_loop false false (ch ∷ rest) in word ∷ words_loop left src'
]

-- The words that the entries of `argv` point to.
unfoldable pub parse_argv : Str → ℕ → List Str
unfolding words_loop
parse_argv line argv_cap = words_loop argv_cap line

unfoldable pub has_path_separator : Str → Bool
unfolding is_separator
has_path_separator [] = false
has_path_separator (c ∷ path) = is_separator c || has_path_separator path

module _ {Disk : Type 0} where
  unfoldable pub show : Shown → Act (Shell Disk) Unit
  show shown = modify (λ s. record s { screen = s.screen ++ shown ∷ [] })

  unfoldable pub print_message : Str → Act (Shell Disk) Unit
  unfolding show
  print_message text = show (message text)

  unfoldable pub print_simple : Str → Act (Shell Disk) Unit
  unfolding print_message
  print_simple text = print_message (strcpy message_max text).0

  abbrev pub clear_screen : Act (Shell Disk) Unit
  clear_screen = show cleared

  -- The lines one after the other.
  unfoldable pub print_all : List Str → Act (Shell Disk) Unit
  print_all [] = pure tt
  print_all (line ∷ lines) = print_message line >> print_all lines

  -- An operation on the users, the environment and the files.
  unfoldable pub on_accounts : {A : Type 0} → Act (Accounts Disk) A → Act (Shell Disk) A
  on_accounts m s =
      let (r, fs) = m s.loader.fs in (r, record s { loader = record s.loader { fs = fs } })

  abbrev pub of_accounts : {A : Type 0} → (Accounts Disk → A) → Act (Shell Disk) A
  of_accounts f = gets (λ s. f s.loader.fs)

  -- What the permissions are decided on.
  unfoldable pub context : Accounts Disk → Context
  context a = record {
    user =
        if a.current.used
        then some (record { used = a.current.used; uid = a.current.uid })
        else none;
    home = env_get a.env (some (codes "HOME"));
    cwd = a.files.cwd_path;
    ready = a.files.ready;
  }

  unfoldable pub deny_if_forbidden : Str → Bool → Act (Shell Disk) Bool
  unfolding context
  deny_if_forbidden path allow_bin = do
    allowed ← of_accounts (λ a. perm_allow_path (context a) (some path) allow_bin)
    if allowed then pure false else do print_simple (codes "Permission denied."); pure true

  -- `if (deny_if_forbidden(path, allow_bin)) return TRUE;` before the rest of a command.
  unfoldable pub guarded : Str → Bool → Act (Shell Disk) Unit → Act (Shell Disk) Unit
  guarded path allow_bin rest = do
    denied ← deny_if_forbidden path allow_bin
    if denied then pure tt else rest

  -- `if (!m()) { print_simple(bad); return TRUE; }` before the rest, which may use the result.
  unfoldable pub or_say :
      {A : Type 0}
      → Act (Shell Disk) (Option A)
      → Str
      → (A → Act (Shell Disk) Unit)
      → Act (Shell Disk) Unit
  or_say m bad rest = do r ← m; cases r (print_simple bad) rest
