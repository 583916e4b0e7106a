-- ===== src/Examples/Users.antt =====
-- Witnesses for the accounts.
use seolsem.Base.{ℕ, ◌≤◌, ◌<◌, ◌≡◌, ◌↔◌, true, false, some, [], ◌∷◌, arith, codes, All}
use seolsem.Env.{env_clear}
use seolsem.User.{User, no_users, next_uid}
use seolsem.User.Login.{MayLogin, user_login_iff}
use seolsem.User.Session.{Accounts, user_load_passwd, user_login}
use seolsem.User.Uids.{IsBelow, HasUid, next_uid-Wraps}
use seolsem.Examples.Disk.{ram_disk, volume}
use seolsem.Examples.Files.{bpb, session}

abbrev pub ann : User
ann = record {
  used = true;
  name = codes "ANN";
  uid = 65535;
  home = codes "/HOME/ANN";
  pass = codes "secret";
}

abbrev gone : User
gone = record { used = false; name = []; uid = 0; home = []; pass = [] }

next_uid-Wraps_example :
    (HasUid 65535 (ann ∷ gone ∷ []) → next_uid (ann ∷ gone ∷ []) ≡ 0)
    × (All (IsBelow 65534) (ann ∷ gone ∷ [])
        → (1000 ≤ next_uid (ann ∷ gone ∷ []))
          × ((n : ℕ) → HasUid n (ann ∷ gone ∷ []) → n < next_uid (ann ∷ gone ∷ [])))
next_uid-Wraps_example = next_uid-Wraps (ann ∷ gone ∷ []) (λ e. omega arith, (λ e. omega arith, tt))

abbrev pub accounts : Accounts (ℕ → ℕ → ℕ)
accounts = record { users = no_users; current = ann; env = env_clear; files = session }

user_login_iff_example :
    ((user_login ram_disk bpb volume (codes "root") [] accounts).0 ≡ some tt)
    ↔ MayLogin ram_disk bpb volume
        (user_load_passwd ram_disk bpb volume accounts).1.users
        (codes "root")
        []
user_login_iff_example = user_login_iff ram_disk bpb volume (codes "root") [] accounts
