-- ===== src/Kernel/Login.antt =====
-- `login_screen` of kernel.c: nobody gets to the prompt of the shell without a login.
use seolsem.Base.{
  ℕ, zero, suc, ◌≡◌, ◌⊎◌, inl, inr, refl, Bool, true, false, Option, none, some, List, [], ◌∷◌, Str,
  if_rule, codes, ◌++◌,
}
use seolsem.Act.{Act, pure, attempt, gets, require, continue, cases, succeeds, ◌>>=◌, ◌>>◌}
use seolsem.Act.Keeps.{Keeps, Keeps-modify, keeps_rules}
use seolsem.Fat.{Drive, Volume}
use seolsem.Fat.Mount.{Bpb}
use seolsem.Fs.{Session}
use seolsem.Shell.{
  Machine, Shell, Shown, message, cleared, prompted, show, print_message, clear_screen, on_accounts,
}
use seolsem.Shell.Users.{wait_prompt_masked}
use seolsem.File.{is_nil}
use seolsem.User.{User}
use seolsem.User.Session.{
  Accounts, on_files, best_effort, set_env, set_current, user_set_current, user_login,
}
use seolsem.Kernel.{show_shell_banner, wait_prompt, login_loop, login_screen, ensure_login}

module _ {S : Type 0} (Q : S → Type 0) where
  -- Where the operation returns TRUE, `Q` holds afterwards.
  Leads : Act S Unit → Type 0
  Leads m = (s : S) → (m s).0 ≡ some tt → Q (m s).1

  Leads-bind :
      {A : Type 0} (m : Act S A) (f : A → Act S Unit) → ((a : A) → Leads (f a)) → Leads (m >>= f)
  unfolding Leads ◌>>=◌
  Leads-bind {A} m f h s = continued (m s).0 (m s).1
    where
      continued : (o : Option A) (s' : S) → (continue o f s').0 ≡ some tt → Q (continue o f s').1
      continued none s' e = cc
      continued (some a) s' e = h a s' e

  Leads-require :
      (t : Bool) (f : Unit {0} → Act S Unit) → (t ≡ true → Leads (f tt)) → Leads (require t >>= f)
  unfolding Leads ◌>>=◌ succeeds
  Leads-require true f h s e = h refl s e
  Leads-require false f h s e = cc

  Leads-set :
      {A : Type 0} (m : Act S A) (f : A → Act S Unit)
      → ((s : S) → Q (m s).1)
      → ((a : A) → Keeps Q (f a))
      → Leads (m >>= f)
  unfolding Leads ◌>>=◌
  Leads-set {A} m f sets kept = go
    where
      continued : (o : Option A) (s : S) → Q s → Q (continue o f s).1
      continued none s q = q
      continued (some a) s q = (kept a).at s q

      go : Leads (m >>= f)
      go s e = continued (m s).0 (m s).1 (sets s)

  -- What was typed is there, or the shell waits.
  HasAsked : (S → Type 0) → Option (Option Str) × S → Type 0
  HasAsked W r = ((r.0 ≡ some none) × W r.1) ⊎ ((x : Str) × (r.0 ≡ some (some x)))

  asked :
      (W : S → Type 0) (m : Act S (Option Str)) (f : Str → Act S Unit)
      → ((s : S) → W s → Q s)
      → ((s : S) → HasAsked W (m s))
      → ((x : Str) (s : S) → Q (f x s).1)
      → (s : S) → Q ((m >>= λ o. cases o (pure tt) f) s).1
  unfolding HasAsked ◌>>=◌
  asked W m f ends has later s = go (m s).0 (m s).1 (has s)
    where
      go :
          (o : Option (Option Str)) (s' : S)
          → ((o ≡ some none) × W s') ⊎ ((x : Str) × (o ≡ some (some x)))
          → Q (continue o (λ o'. cases o' (pure tt) f) s').1
      go o s' (inl (e, w)) = rw e (ends s' w)
      go o s' (inr (x, e)) = rw e (later x s')

module _ (drv : Drive) (b : Bpb) (v : Volume) (hw : Machine drv) where
  open drv use {Disk}

  -- A user is logged in.
  abbrev pub IsUsed : Accounts Disk → Type 0
  IsUsed a = a.current.used ≡ true

  set_env-Used : (name value : Str) → Keeps IsUsed (set_env drv b v name value)
  unfolding set_env
  set_env-Used name value = Keeps-modify _ λ a h. h

  on_files-Used : {A : Type 0} (m : Act (Session Disk) A) → Keeps IsUsed (on_files drv b v m)
  unfolding on_files
  on_files-Used m = record { at = λ a h. h }

  best_effort-Used :
      {A : Type 0} (m : Act (Accounts Disk) A)
      → Keeps IsUsed m
      → Keeps IsUsed (best_effort drv b v m)
  unfolding best_effort
  best_effort-Used m h = search keeps_rules

  set_current-Used :
      (u : User) → u.used ≡ true → (s : Accounts Disk) → IsUsed (set_current drv b v u s).1
  unfolding set_current ◌>>=◌ succeeds
  set_current-Used u used s = used

  user_set_current-Used : (u : User) → Leads IsUsed (user_set_current drv b v u)
  unfolding user_set_current
  user_set_current-Used u = Leads-require IsUsed _ _ λ used.
      Leads-set IsUsed (set_current drv b v u) _ (set_current-Used u used)
        λ x. search (keeps_rules, set_env-Used, on_files-Used, best_effort-Used) depth 20

  user_login-Used : (name password : Str) → Leads IsUsed (user_login drv b v name password)
  unfolding user_login
  user_login-Used name password = Leads-bind IsUsed _ _ λ n. Leads-bind IsUsed _ _ λ l.
      Leads-bind IsUsed _ _
        λ users. Leads-bind IsUsed _ _ λ u. Leads-bind IsUsed _ _ λ t. user_set_current-Used u

  -- The shell waits for more to be typed, or a user is logged in.
  unfoldable pub IsEntered : Shell Disk → Type 0
  IsEntered s = (s.waits ≡ true) ⊎ (s.loader.fs.current.used ≡ true)

  show-Entered : (x : Shown) → Keeps IsEntered (show x)
  unfolding show IsEntered
  show-Entered x = Keeps-modify _ λ s h. h

  print_message-Entered : (text : Str) → Keeps IsEntered (print_message text)
  unfolding print_message
  print_message-Entered text = show-Entered _

  banner-Entered : Keeps IsEntered (show_shell_banner drv b v hw)
  unfolding show_shell_banner
  banner-Entered = search (keeps_rules, show-Entered, print_message-Entered) depth 12

  Waits : Shell Disk → Type 0
  Waits s = s.waits ≡ true

  wait_prompt-Asks :
      (prompt : Str) (s : Shell Disk) → HasAsked IsEntered Waits (wait_prompt drv b v hw prompt s)
  unfolding wait_prompt HasAsked ◌>>=◌ succeeds show Waits
  wait_prompt-Asks prompt s = taken s.lines (record s { screen = s.screen ++ prompted prompt ∷ [] })
    where
      taken :
          (l : List Str) (s' : Shell Disk)
          → let r = elim l as (λ x. Option Str × Shell Disk) [
            | [] ↦ (none, record s' { waits = true })
            | line ∷ lines ↦ (some line, record s' { lines = lines })
          ] in
            ((some r.0 ≡ some none) × (r.1.waits ≡ true)) ⊎ ((x : Str) × (some r.0 ≡ some (some x)))
      taken [] s' = inl (refl, refl)
      taken (line ∷ lines) s' = inr (line, refl)

  wait_prompt_masked-Asks :
      (prompt : Str) (s : Shell Disk)
      → HasAsked IsEntered Waits (wait_prompt_masked drv b v prompt s)
  unfolding wait_prompt_masked HasAsked ◌>>=◌ succeeds show Waits
  wait_prompt_masked-Asks prompt s =
      taken s.answers (record s { screen = s.screen ++ prompted prompt ∷ [] })
    where
      taken :
          (l : List Str) (s' : Shell Disk)
          → let r = elim l as (λ x. Option Str × Shell Disk) [
            | [] ↦ (none, record s' { waits = true })
            | answer ∷ answers ↦ (some answer, record s' { answers = answers })
          ] in
            ((some r.0 ≡ some none) × (r.1.waits ≡ true)) ⊎ ((x : Str) × (some r.0 ≡ some (some x)))
      taken [] s' = inl (refl, refl)
      taken (answer ∷ answers) s' = inr (answer, refl)

  waits_entered : (s : Shell Disk) → Waits s → IsEntered s
  unfolding Waits IsEntered
  waits_entered s w = inl w

  entered :
      (name password : Str) (s : Shell Disk)
      → (user_login drv b v name password s.loader.fs).0 ≡ some tt
      → IsEntered (record s {
        loader = record s.loader { fs = (user_login drv b v name password s.loader.fs).1 };
      })
  unfolding IsEntered Leads
  entered name password s e = inr (user_login-Used name password s.loader.fs e)

  after_message :
      (text : Str) (n : Act (Shell Disk) Unit) (s : Shell Disk)
      → ((s' : Shell Disk) → IsEntered (n s').1)
      → IsEntered ((print_message text >> n) s).1
  unfolding print_message show ◌>>=◌ succeeds
  after_message text n s h = h (record s { screen = s.screen ++ message text ∷ [] })

  -- An attempt to log in: the banner where it succeeds, another round where it does not.
  logged_in :
      (name password : Str) (again : Act (Shell Disk) Unit) (s : Shell Disk)
      → ((s' : Shell Disk) → IsEntered (again s').1)
      → IsEntered
          ((attempt (on_accounts (user_login drv b v name password)) >>= λ o.
              cases o
                (print_message (codes "Login incorrect.") >> again)
                λ u. show_shell_banner drv b v hw)
            s).1
  unfolding ◌>>=◌ on_accounts
  logged_in name password again s h =
      by_result (user_login drv b v name password s.loader.fs).0
        (record s {
          loader = record s.loader { fs = (user_login drv b v name password s.loader.fs).1 };
        })
        (entered name password s)
    where
      by_result :
          (o : Option (Unit {0})) (s' : Shell Disk)
          → (o ≡ some tt → IsEntered s')
          → IsEntered
              (cases o
                (print_message (codes "Login incorrect.") >> again)
                (λ u. show_shell_banner drv b v hw)
                s').1
      by_result none s' used = after_message (codes "Login incorrect.") again s' h
      by_result (some u) s' used = banner-Entered.at s' (used refl)

  login_loop-Entered : (rounds : ℕ) (s : Shell Disk) → IsEntered (login_loop drv b v hw rounds s).1
  unfolding login_loop ◌>>=◌ succeeds IsEntered
  login_loop-Entered zero s = inl refl
  login_loop-Entered (suc rounds) s =
      asked IsEntered Waits _ _ waits_entered (wait_prompt-Asks (codes "login: "))
        (λ name s'.
          if_rule (λ (m : Act (Shell Disk) Unit). IsEntered (m s').1) (is_nil name) _ _
            (λ e.
              after_message (codes "Login name required.") (login_loop drv b v hw rounds) s'
                (login_loop-Entered rounds))
            λ e.
              asked IsEntered Waits _ _ waits_entered (wait_prompt_masked-Asks (codes "password: "))
                (λ password s''.
                  logged_in name password (login_loop drv b v hw rounds) s''
                    (login_loop-Entered rounds))
                s')
        s

  after_clear :
      (n : Act (Shell Disk) Unit) (s : Shell Disk)
      → ((s' : Shell Disk) → IsEntered (n s').1)
      → IsEntered ((clear_screen >> n) s).1
  unfolding show ◌>>=◌ succeeds
  after_clear n s h = h (record s { screen = s.screen ++ cleared ∷ [] })

  after_gets :
      (f : Shell Disk → ℕ) (n : ℕ → Act (Shell Disk) Unit) (s : Shell Disk)
      → ((k : ℕ) (s' : Shell Disk) → IsEntered (n k s').1)
      → IsEntered ((gets f >>= n) s).1
  unfolding ◌>>=◌ succeeds
  after_gets f n s h = h (f s) s

  login_screen-Entered : (s : Shell Disk) → IsEntered (login_screen drv b v hw s).1
  unfolding login_screen
  login_screen-Entered s = after_clear _ s λ s₁. after_message _ _ s₁ λ s₂.
      after_message _ _ s₂
        λ s₃. after_message _ _ s₃ λ s₄. after_gets _ _ s₄ λ rounds s₅. login_loop-Entered rounds s₅

  -- ensure_login of kernel_main's loop, from any state, with any files and whatever is typed: a
  -- user is logged in afterwards, or the shell still waits for something to be typed; and where a
  -- user was logged in before, nothing is asked and nothing changes.
  pub ensure_login-IsEntered :
      (s : Shell Disk)
      → IsEntered (ensure_login drv b v hw s).1
        × (s.loader.fs.current.used ≡ true → ensure_login drv b v hw s ≡ (some tt, s))
  unfolding ensure_login ◌>>=◌ succeeds IsEntered
  ensure_login-IsEntered s = (
    if_rule (λ (m : Act (Shell Disk) Unit). IsEntered (m s).1) s.loader.fs.current.used
        (λ s'. (some tt, s')) (login_screen drv b v hw) (λ e. inr e) (λ e. login_screen-Entered s),
    λ e. rw e refl,
  )
