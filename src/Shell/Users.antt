-- ===== src/Shell/Users.antt =====
-- kernel/commands.c, the commands on users: `whoami`, `id`, `users`, `useradd`, `passwd`, `logout`, with
-- `user_at` and `user_current` of sima_user.c. What is typed at a masked prompt is shorter than the
-- buffer that takes it: `run_passwd` has room for eight characters, and a longer answer would be
-- written past the buffer.
use seolsem.Base.{
  ℕ, zero, suc, ◌+◌, true, not, Option, none, some, List, [], ◌∷◌, if◌then◌else◌, Str, codes,
}
use seolsem.Act.{Act, cases, pure, fail, call, attempt, ◌>>=◌, ◌>>◌}
use seolsem.Fat.{Drive, Volume}
use seolsem.Fat.Mount.{Bpb}
use seolsem.File.{is_nil}
use seolsem.Mem.Comparing.{str_eq}
use seolsem.Perm.{perm_is_root}
use seolsem.Shell.{
  Shell, prompted, text_of, decimal, print_message, print_simple, print_all, on_accounts,
  of_accounts, context, or_say, show,
}
use seolsem.User.{User, user_max}
use seolsem.User.Session.{user_add, user_change_password, user_logout}

unfoldable pub user_at : List User → ℕ → Option User
user_at [] index = none
user_at (u ∷ users) zero = if u.used then some u else user_at users zero
user_at (u ∷ users) (suc index) = if u.used then user_at users index else user_at users (suc index)

unfoldable pub user_line : User → Str
unfolding text_of decimal
user_line u =
    text_of 128
      (codes "  " ∷ u.name ∷ codes " uid=" ∷ decimal u.uid 8 ∷ codes " home=" ∷ u.home ∷ [])

-- The lines of `run_users` from index `i` on.
unfoldable pub users_loop : ℕ → ℕ → List User → List Str
unfolding user_at user_line
users_loop zero i users = []
users_loop (suc left) i users = elim (user_at users i) [
  | none ↦ []
  | some u ↦ user_line u ∷ users_loop left (i + 1) users
]

module _ (drv : Drive) (b : Bpb) (v : Volume) where
  open drv use {Disk}

  unfoldable pub run_whoami : Act (Shell Disk) Unit
  run_whoami = do
    u ← of_accounts (λ a. a.current)
    if u.used then print_message u.name else print_simple (codes "ROOT")

  unfoldable pub run_id : Act (Shell Disk) Unit
  unfolding text_of decimal
  run_id = do
    u ← of_accounts (λ a. a.current)
    print_message (text_of 64 (codes "uid=" ∷ decimal (if u.used then u.uid else 0) 8 ∷ []))

  unfoldable pub run_users : Act (Shell Disk) Unit
  unfolding users_loop
  run_users = do
    print_message (codes "Users:")
    users ← of_accounts (λ a. a.users)
    print_all (users_loop (user_max + 1) 0 users)

  unfoldable pub run_useradd : Str → Str → Act (Shell Disk) Unit
  run_useradd name password = if is_nil name then fail else do
    root ← of_accounts (λ a. perm_is_root (context a))
    if not root
        then print_simple (codes "Permission denied. Only root can add users.")
        else or_say (attempt (on_accounts (user_add drv b v name password)))
            (codes "Unable to add user.") λ u. print_simple (codes "User added.")

  -- `wait_prompt_masked`; `none` if nothing more is typed.
  unfoldable pub wait_prompt_masked : Str → Act (Shell Disk) (Option Str)
  unfolding show
  wait_prompt_masked prompt = do
    show (prompted prompt)
    call λ (s : Shell Disk). elim s.answers as (λ l. Option Str × Shell Disk) [
      | [] ↦ (none, record s { waits = true })
      | answer ∷ answers ↦ (some answer, record s { answers = answers })
    ]

  -- The rest of a command, with what was typed.
  unfoldable pub answered : Str → (Str → Act (Shell Disk) Unit) → Act (Shell Disk) Unit
  unfolding wait_prompt_masked
  answered prompt rest = do o ← wait_prompt_masked prompt; cases o (pure tt) rest

  -- `run_passwd` once the three answers are there.
  unfoldable pub passwd_with : Str → Str → Str → Act (Shell Disk) Unit
  passwd_with old new confirm =
      if is_nil new
      then print_simple (codes "New password cannot be empty.")
      else if not (str_eq new confirm)
      then print_simple (codes "New password confirmation mismatch.")
      else or_say (attempt (on_accounts (user_change_password drv b v old new)))
          (codes "Unable to update password.") λ u. print_simple (codes "Password updated.")

  unfoldable pub run_passwd : Act (Shell Disk) Unit
  unfolding answered passwd_with
  run_passwd = answered (codes "current password: ") λ old.
      answered (codes "new password: ")
        λ new. answered (codes "confirm new password: ") λ confirm. passwd_with old new confirm

  unfoldable pub run_logout : Act (Shell Disk) Unit
  run_logout = do on_accounts (user_logout drv b v); print_simple (codes "Logged out.")
