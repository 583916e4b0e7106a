-- ===== src/Kernel.antt =====
-- kernel/kernel.c: the prompt, the login, and the loop that reads a line and runs it. What
-- `fs_init` returned is the field `ready` of the files. enable_irq, disable_irq and sync_ds are left
-- out.
pub mod Login
pub mod Prompt
pub mod Safe
use seolsem.Base.{
  ℕ, zero, suc, ◌+◌, ◌-◌, Bool, true, false, not, ◌&&◌, ◌||◌, Option, none, some, List, [], ◌∷◌,
  ltb, ◌==◌, if◌then◌else◌, drop, length, Str, codes,
}
use seolsem.Act.{Act, pure, modify, call, gets, attempt, cases, ◌>>=◌, ◌>>◌}
use seolsem.Env.{env_get, env_init}
use seolsem.Fat.{Drive, Volume}
use seolsem.Fat.Mount.{Bpb}
use seolsem.File.{is_nil}
use seolsem.FilePath.{is_separator, path_max}
use seolsem.Fs.{fs_get_cwd, fs_read}
use seolsem.Mem.Copying.{strcpy, strcat}
use seolsem.Mem.Comparing.{str_eq}
use seolsem.Shell.{
  Machine, Shell, prompted, text_of, print_message, clear_screen, show, on_accounts, of_accounts,
}
use seolsem.Shell.Users.{wait_prompt_masked}
use seolsem.Shell.Dispatch.{run_buffer}
use seolsem.User.Session.{Accounts, on_files, user_init, user_login}

abbrev pub prompt_path_max : ℕ
prompt_path_max = 48

abbrev pub current_path_max : ℕ
current_path_max = 128

-- What is left of the path behind HOME, if it begins with HOME.
unfoldable pub behind_home : Str → Str → Option Str
behind_home [] path = some path
behind_home (h ∷ home) [] = none
behind_home (h ∷ home) (c ∷ path) = if h == c then behind_home home path else none

abbrev starts_segment : Str → Bool
starts_segment [] = true
starts_segment (c ∷ rest) = is_separator c

-- Where display_ptr points, with the string there: to `cwd`, or to `out`, which has HOME as ~.
pub data Display : Type 0 where
  in_cwd in_out : Str → Display

unfoldable pub shortened : Option Str → Str → ℕ → Display
unfolding behind_home
shortened none cwd out_cap = in_cwd cwd
shortened (some home) cwd out_cap =
    if is_nil home || str_eq home (codes "/") then in_cwd cwd else elim (behind_home home cwd) [
      | none ↦ in_cwd cwd
      | some rest ↦
          if starts_segment rest
          then in_out (strcat out_cap (strcpy out_cap (codes "~")).0 rest).0
          else in_cwd cwd
    ]

-- `cwd` after it was cleared and the three dots were stored; NULs follow them.
abbrev pub dots : Str
dots = (strcpy path_max (codes "...")).0

-- What is shown of the path. The dots are stored before the end of a long path is read, so that a
-- display_ptr to `cwd` then reads from them.
unfoldable pub displayed : Display → Str
displayed (in_cwd path) =
    if ltb prompt_path_max (length path)
    then (strcat path_max dots (drop (length path - (prompt_path_max - 3)) dots)).0
    else path
displayed (in_out path) =
    if ltb prompt_path_max (length path)
    then (strcat path_max dots (drop (length path - (prompt_path_max - 3)) path)).0
    else path

abbrev pub user_shown : Option Str → Str
user_shown none = codes "ROOT"
user_shown (some user) = if is_nil user then codes "ROOT" else user

-- `build_prompt` of a path, HOME and USER.
unfoldable pub prompt_text : Str → Option Str → Option Str → ℕ → Str
unfolding shortened displayed text_of
prompt_text cwd home user out_cap = text_of out_cap (
    codes "["
    ∷ user_shown user
    ∷ codes "@"
    ∷ displayed (shortened home cwd out_cap)
    ∷ codes "]$ "
    ∷ [])

module _ (drv : Drive) (b : Bpb) (v : Volume) (hw : Machine drv) where
  open drv use {Disk}

  unfoldable pub build_prompt : ℕ → Accounts Disk → Str
  unfolding prompt_text
  build_prompt out_cap a =
      prompt_text (fs_get_cwd drv b v path_max a.files) (env_get a.env (some (codes "HOME")))
        (env_get a.env (some (codes "USER"))) out_cap

  unfoldable pub show_shell_banner : Act (Shell Disk) Unit
  show_shell_banner = do
    clear_screen
    print_message (codes "Seolsem OS Version 1.1")
    print_message (codes "Type HELP to see available commands.")
    print_message []

  -- `wait_prompt`; `none` if nothing more is typed.
  unfoldable pub wait_prompt : Str → Act (Shell Disk) (Option Str)
  unfolding show
  wait_prompt prompt = do
    show (prompted prompt)
    call λ (s : Shell Disk). elim s.lines as (λ l. Option Str × Shell Disk) [
      | [] ↦ (none, record s { waits = true })
      | line ∷ lines ↦ (some line, record s { lines = lines })
    ]

  -- The inner loop of `login_screen`: each round takes a line.
  unfoldable pub login_loop : ℕ → Act (Shell Disk) Unit
  unfolding wait_prompt wait_prompt_masked show_shell_banner
  login_loop zero = modify (λ s. record s { waits = true })
  login_loop (suc rounds) = do
    o ← wait_prompt (codes "login: ")
    cases o (pure tt) λ name.
        if is_nil name
        then print_message (codes "Login name required.") >> login_loop rounds
        else (do
          p ← wait_prompt_masked drv b v (codes "password: ")
          cases p (pure tt) λ password. do
            entered ← attempt (on_accounts (user_login drv b v name password))
            cases entered (print_message (codes "Login incorrect.") >> login_loop rounds)
                λ u. show_shell_banner)

  unfoldable pub login_screen : Act (Shell Disk) Unit
  unfolding login_loop
  login_screen = do
    clear_screen
    print_message (codes "Seolsem OS Version 1.1")
    print_message (codes "Login required.")
    print_message []
    rounds ← gets (λ s. suc (length s.lines))
    login_loop rounds

  -- `login_screen` where no user is logged in.
  unfoldable pub ensure_login : Act (Shell Disk) Unit
  unfolding login_screen
  ensure_login = do
    current ← of_accounts (λ a. a.current)
    if current.used then pure tt else login_screen

  -- A line that is not empty.
  unfoldable pub run_line : Str → Act (Shell Disk) Unit
  run_line buffer = do
    known ← attempt (run_buffer drv b v hw buffer)
    cases known
        (print_message (text_of current_path_max (codes "Command not found: " ∷ buffer ∷ []))) pure

  -- A round of the loop of `kernel_main`, with a user logged in.
  unfoldable pub prompt_round : Act (Shell Disk) Unit
  unfolding build_prompt wait_prompt run_line
  prompt_round = do
    prompt ← of_accounts (build_prompt current_path_max)
    o ← wait_prompt prompt
    cases o (pure tt) λ buffer. if is_nil buffer then pure tt else run_line buffer

  -- The loop of `kernel_main`: each round takes a line, or waits for one.
  unfoldable pub kernel_loop : ℕ → Act (Shell Disk) Unit
  unfolding ensure_login prompt_round
  kernel_loop zero = pure tt
  kernel_loop (suc rounds) = do
    ensure_login
    waits ← gets (λ s. s.waits)
    if waits then pure tt else prompt_round >> kernel_loop rounds

  -- `kernel_main` from the call of `env_init` on.
  unfoldable pub kernel_main : ℕ → Act (Shell Disk) Unit
  unfolding show_shell_banner kernel_loop
  kernel_main rounds = do
    show_shell_banner
    ready ← of_accounts (λ a. a.files.ready)
    (if ready then pure tt else print_message (codes "Filesystem init failed."))
    file ← on_accounts (attempt (on_files drv b v (fs_read drv b v (codes "/XENV.ENV") 512)))
    on_accounts (modify (λ a. record a { env = env_init file }))
    (if ready
        then pure tt
        else print_message (codes "Login database fallback: in-memory ROOT only."))
    on_accounts (attempt (user_init drv b v))
    kernel_loop rounds
