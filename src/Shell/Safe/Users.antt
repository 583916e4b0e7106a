-- ===== src/Shell/Safe/Users.antt =====
-- The functions of sima_user.c that use the files, in the shell: the cache of the FAT stays in order.
use seolsem.Base.{Option, none, some, List, Str}
use seolsem.Act.{Act}
use seolsem.Act.Keeps.{Keeps, Keeps-modify, keeps_rules}
use seolsem.Fat.{Drive, Volume}
use seolsem.Fat.Entry.{Covers}
use seolsem.Fat.Geometry.{IsInOrder}
use seolsem.Fat.Mount.{Bpb}
use seolsem.Fat.Write.{IsSized}
use seolsem.Dir.Sectors.{IsModest}
use seolsem.Shell.{Machine}
use seolsem.Shell.Safe
use seolsem.Shell.Safe.{InAccounts}
use seolsem.User.{User}
use seolsem.User.Session.{
  Accounts, set_env, set_users, set_current, best_effort, ensure_dir, user_set_current,
  user_load_passwd, user_sync_passwd, user_logout, add_root, user_init, user_add, user_login,
  user_change_password,
}

module _ (drv : Drive) (b : Bpb) (v : Volume) (hw : Machine drv) (ord : IsInOrder b v)
    (covers : Covers v) (modest : IsModest b v) (sized : IsSized v) where
  open drv use {Disk}

  abbrev Holds : {A : Type 0} → Act (Accounts Disk) A → Type 0
  Holds m = Keeps (InAccounts drv v) m

  set_env-Kept : (name value : Str) → Holds (set_env drv b v name value)
  unfolding set_env
  set_env-Kept name value = Keeps-modify _ λ a h. h

  set_users-Kept : (f : List User → List User) → Holds (set_users drv b v f)
  unfolding set_users
  set_users-Kept f = Keeps-modify _ λ a h. h

  set_current-Kept : (u : User) → Holds (set_current drv b v u)
  unfolding set_current
  set_current-Kept u = Keeps-modify _ λ a h. h

  ensure_dir-Kept : (path : Str) → Holds (ensure_dir drv b v path)
  unfolding ensure_dir
  ensure_dir-Kept path = search Safe.fs_rules

  best_effort-Kept :
      {A : Type 0} (m : Act (Accounts Disk) A) → Holds m → Holds (best_effort drv b v m)
  unfolding best_effort
  best_effort-Kept m h = search keeps_rules

  ruleset account_rules = (
    Safe.fs_rules, set_env-Kept, set_users-Kept, set_current-Kept, ensure_dir-Kept,
    best_effort-Kept,
  )

  user_set_current-Kept : (u : User) → Holds (user_set_current drv b v u)
  unfolding user_set_current
  user_set_current-Kept u = search account_rules depth 20

  user_load_passwd-Kept : Holds (user_load_passwd drv b v)
  unfolding user_load_passwd
  user_load_passwd-Kept = search account_rules depth 12

  user_sync_passwd-Kept : Holds (user_sync_passwd drv b v)
  unfolding user_sync_passwd
  user_sync_passwd-Kept = search account_rules depth 12

  pub user_logout-Kept : Holds (user_logout drv b v)
  unfolding user_logout
  user_logout-Kept = search account_rules depth 20

  ruleset passwd_rules =
      (account_rules, user_set_current-Kept, user_load_passwd-Kept, user_sync_passwd-Kept)

  add_root-Kept : (o : Option User) → Holds (add_root drv b v o)
  unfolding add_root
  add_root-Kept none = search account_rules
  add_root-Kept (some u) = search account_rules

  pub user_init-Kept : Holds (user_init drv b v)
  unfolding user_init
  user_init-Kept = search (passwd_rules, add_root-Kept, user_logout-Kept) depth 24

  pub user_add-Kept : (name password : Str) → Holds (user_add drv b v name password)
  unfolding user_add
  user_add-Kept name password = search passwd_rules depth 24

  pub user_login-Kept : (name password : Str) → Holds (user_login drv b v name password)
  unfolding user_login
  user_login-Kept name password = search passwd_rules depth 24

  pub user_change_password-Kept : (old new : Str) → Holds (user_change_password drv b v old new)
  unfolding user_change_password
  user_change_password-Kept old new = search passwd_rules depth 24
