-- ===== src/User/Session.antt =====
-- kernel/sima_user.c, the functions that use the file system and the environment: reading and
-- writing /ETC/PASSWD, logging in and out, new users and new passwords.
use seolsem.Base.{
  ℕ, Bool, true, false, not, ◌&&◌, Option, none, some, List, [], ◌∷◌, ◌++◌, if◌then◌else◌, Str,
  codes,
}
use seolsem.Fat.{Drive, Volume}
use seolsem.Fat.Mount.{Bpb}
use seolsem.FilePath.{path_max}
use seolsem.Mem.Copying.{strcpy, strcat}
use seolsem.Mem.Comparing.{str_eq}
use seolsem.Act.{Act, pure, lift, gets, modify, require, attempt, rescue, ◌>>=◌, ◌>>◌}
use seolsem.Env.{Table, env_set}
use seolsem.Fs
use seolsem.Fs.{fs_cd, fs_get_cwd, fs_is_dir, fs_read}
use seolsem.Fs.Change.{fs_create_dir, fs_write}
use seolsem.User.{
  User, no_user, no_users, user_name_max, user_home_max, user_pass_max, is_nil, user_copy_password,
  user_normalize_name, user_find, user_add_entry, lines_loop, sync_loop, next_uid,
}

-- g_users, g_current, the environment and the file system.
pub record Accounts (Disk : Type 0) : Type 0 where
  pub users : List User
  pub current : User
  pub env : Table
  pub files : Fs.Session Disk

abbrev pub passwd_path : Str
passwd_path = codes "/ETC/PASSWD"

abbrev pub home_base : Str
home_base = codes "/HOME"

-- g_users after a file was read: `none` if it was not.
unfoldable pub users_of : Option (List ℕ) → List User
unfolding lines_loop user_add_entry
users_of none = user_add_entry no_users (codes "ROOT") 0 (codes "/") []
users_of (some bytes) = lines_loop no_users [] (bytes ++ 0 ∷ [])

-- The table with another password for the first user of a name.
unfoldable pub with_pass : List User → Str → Str → List User
with_pass [] name pass = []
with_pass (u ∷ users) name pass =
    let rest = u ∷ with_pass users name pass in
    if u.used && str_eq u.name name then record u { pass = pass } ∷ users else rest

-- The test of `user_login` and `user_change_password` on a password.
unfoldable pub pass_fits : Str → Str → Bool
pass_fits pass password =
    not (not (is_nil pass) && not (str_eq pass password))
    && not (is_nil pass && not (is_nil password))

module _ (drv : Drive) (b : Bpb) (v : Volume) where
  open drv use {Disk}

  -- An operation of the file system.
  unfoldable pub on_files : {A : Type 0} → Act (Fs.Session Disk) A → Act (Accounts Disk) A
  on_files m s = let (r, files) = m s.files in (r, record s { files = files })

  -- `(void)m();`
  unfoldable pub best_effort : {A : Type 0} → Act (Accounts Disk) A → Act (Accounts Disk) Unit
  best_effort m = attempt m >>= λ r. pure tt

  unfoldable pub set_env : Str → Str → Act (Accounts Disk) Unit
  set_env name value = modify (λ s. record s { env = env_set s.env name value })

  unfoldable pub set_users : (List User → List User) → Act (Accounts Disk) Unit
  set_users f = modify (λ s. record s { users = f s.users })

  unfoldable pub set_current : User → Act (Accounts Disk) Unit
  set_current u = modify (λ s. record s { current = u })

  abbrev pub the_users : Act (Accounts Disk) (List User)
  the_users = gets (λ s. s.users)

  unfoldable pub ensure_dir : Str → Act (Accounts Disk) Unit
  ensure_dir path =
      rescue (on_files (fs_is_dir drv b v path)) (on_files (fs_create_dir drv b v path))

  unfoldable pub user_set_current : User → Act (Accounts Disk) Unit
  user_set_current u = do
    require u.used
    set_current u
    set_env (codes "USER") u.name
    set_env (codes "HOME") u.home
    best_effort (rescue (on_files (fs_cd drv b v u.home)) (on_files (fs_cd drv b v (codes "/"))))
    cwd ← gets (λ (s : Accounts Disk). fs_get_cwd drv b v path_max s.files)
    set_env (codes "PWD") cwd
    set_env (codes "OLDPWD") cwd

  -- Whether the file was read.
  unfoldable pub user_load_passwd : Act (Accounts Disk) Bool
  user_load_passwd = do
    bytes ← attempt (on_files (fs_read drv b v passwd_path 512))
    set_users (λ users. users_of bytes)
    pure (elim bytes [ none ↦ false | some read ↦ true ])

  unfoldable pub user_sync_passwd : Act (Accounts Disk) Unit
  user_sync_passwd = do
    users ← the_users
    text ← lift (sync_loop users [])
    on_files (fs_write drv b v passwd_path text)

  unfoldable pub user_logout : Act (Accounts Disk) Unit
  user_logout = do
    set_current no_user
    set_env (codes "USER") []
    set_env (codes "HOME") (codes "/")
    set_env (codes "PWD") (codes "/")
    set_env (codes "OLDPWD") (codes "/")
    best_effort (on_files (fs_cd drv b v (codes "/")))

  -- ROOT is added if the file has no such user; whether it was there.
  unfoldable pub add_root : Option User → Act (Accounts Disk) Bool
  add_root (some u) = pure true
  add_root none = do
    set_users (λ users. user_add_entry users (codes "ROOT") 0 (codes "/") [])
    pure false

  unfoldable pub user_init : Act (Accounts Disk) Unit
  user_init = do
    set_current no_user
    read ← user_load_passwd
    users ← the_users
    had_root ← add_root (user_find users (codes "ROOT"))
    best_effort (ensure_dir (codes "/ETC"))
    best_effort (ensure_dir home_base)
    if read && had_root then pure tt else best_effort user_sync_passwd
    user_logout

  abbrev absent : Option User → Bool
  absent none = true
  absent (some u) = false

  -- `home` of `user_add`.
  unfoldable pub home_of : Str → Str
  unfolding strcpy strcat
  home_of name =
      let home = (strcpy user_home_max home_base).0 in
      (strcat user_home_max (strcat user_home_max home (codes "/")).0 name).0

  unfoldable pub user_add : Str → Str → Act (Accounts Disk) Unit
  user_add name password = do
    name_norm ← lift (user_normalize_name name user_name_max)
    pass_norm ←
        lift
          (user_copy_password (if is_nil password then name_norm else password) user_pass_max false)
    user_load_passwd
    users ← the_users
    require (absent (user_find users name_norm))
    ensure_dir (codes "/ETC")
    ensure_dir home_base
    ensure_dir (home_of name_norm)
    set_users
        (λ table. user_add_entry table name_norm (next_uid users) (home_of name_norm) pass_norm)
    user_sync_passwd

  unfoldable pub user_login : Str → Str → Act (Accounts Disk) Unit
  user_login name password = do
    name_norm ← lift (user_normalize_name name user_name_max)
    user_load_passwd
    users ← the_users
    u ← lift (user_find users name_norm)
    require (pass_fits u.pass password)
    user_set_current u

  abbrev named : List User → Str → Option User
  named [] name = none
  named (u ∷ users) name = if u.used && str_eq u.name name then some u else named users name

  unfoldable pub user_change_password : Str → Str → Act (Accounts Disk) Unit
  user_change_password old_password new_password = do
    current ← gets (λ (s : Accounts Disk). s.current)
    require current.used
    old_norm ← lift (user_copy_password old_password user_pass_max true)
    new_norm ← lift (user_copy_password new_password user_pass_max false)
    user_load_passwd
    users ← the_users
    target ← lift (named users current.name)
    require (pass_fits target.pass old_norm)
    set_users (λ table. with_pass table current.name new_norm)
    user_sync_passwd
    user_set_current (record target { pass = new_norm })
