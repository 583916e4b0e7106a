-- ===== src/User/Login.antt =====
-- kernel/sima_user.c, who may log in.
use mathlib.Core.Option.{some-injective}
use mathlib.Core.Path.{subst}
use seolsem.Base.{
  ℕ, inl, inr, ◌+◌, ◌≤◌, ◌<◌, leb, not, if_rule, Bool-cases, ◌⊎◌, length, ◌≡◌, ◌↔◌, refl, sym, ap,
  ◌∙◌, Bool, true, false, ◌&&◌, Option, none, some, List, [], ◌∷◌, if◌then◌else◌, Str, arith,
}
use seolsem.Fat.{Drive, Volume}
use seolsem.Fat.Mount.{Bpb}
use seolsem.Act.{Act, continue, ◌>>=◌, ◌>>◌, require, succeeds}
use seolsem.Mem.Comparing.{str_eq, str_eq_sound, str_eq_refl}
use seolsem.User.{
  is_nil, cons_to, User, user_name_max, user_normalize_name, user_is_name_char, user_to_upper,
  name_loop, find_loop, user_find,
}
use seolsem.User.Session.{
  Accounts, pass_fits, on_files, best_effort, set_env, set_current, set_users, user_load_passwd,
  user_set_current, user_login,
}

-- A password passes exactly if it is the one of the user.
pass_fits_iff : (pass password : Str) → (pass_fits pass password ≡ true) ↔ (pass ≡ password)
unfolding pass_fits
pass_fits_iff [] [] = (λ h. refl, λ h. refl)
pass_fits_iff [] (d ∷ password) = (λ h. cc, λ h. cc)
pass_fits_iff (c ∷ pass) password = (
  λ h. str_eq_sound (c ∷ pass) password (ground arith),
  λ e. subst (λ x. pass_fits (c ∷ pass) x ≡ true) e (rw (str_eq_refl (c ∷ pass)) refl),
)

find_loop-used :
    (users : List User) (name : Str) (u : User) → find_loop users name ≡ some u → u.used ≡ true
unfolding find_loop
find_loop-used [] name u = cc
find_loop-used (x ∷ users) name u =
    by_test (x.used && str_eq x.name name) refl (find_loop-used users name u)
  where
    by_test :
        (t : Bool)
        → (x.used && str_eq x.name name) ≡ t
        → (find_loop users name ≡ some u → u.used ≡ true)
        → (if t then some x else find_loop users name) ≡ some u
        → u.used ≡ true
    by_test true e later q =
        subst (λ (y : User). y.used ≡ true) (some-injective x u q) (ground arith)
    by_test false e later q = later q

user_find-used :
    (users : List User) (name : Str) (u : User) → user_find users name ≡ some u → u.used ≡ true
unfolding user_find
user_find-used users [] u = cc
user_find-used users (c ∷ name) u = find_loop-used users (c ∷ name) u

-- The character `d` that stands in a name of the table for `c`, a letter, a digit or _.
abbrev pub IsCapitalOf : ℕ → ℕ → Type 0
IsCapitalOf d c =
    ((b'a' ≤ c) × (c ≤ b'z') × (d + 32 ≡ c))
    ⊎ ((b'A' ≤ c) × (c ≤ b'Z') ⊎ (b'0' ≤ c) × (c ≤ b'9') ⊎ (c ≡ b'_')) × (d ≡ c)

-- `n` is the name in upper case, of name characters only.
pub data IsUpperOf : Str → Str → Type 0 where
  nothing : IsUpperOf [] []
  then_char :
      (d c : ℕ) (n name : Str) → IsCapitalOf d c → IsUpperOf n name → IsUpperOf (d ∷ n) (c ∷ name)

name_char_sound : (c : ℕ) → user_is_name_char c ≡ true → IsCapitalOf (user_to_upper c) c
unfolding user_is_name_char user_to_upper
name_char_sound c e = ground arith

name_char_complete :
    (d c : ℕ) → IsCapitalOf d c → (user_is_name_char c ≡ true) × (user_to_upper c ≡ d)
unfolding user_is_name_char user_to_upper
name_char_complete d c h = (ground (arith, h), ground (arith, h))

name_loop_complete :
    (len : ℕ) (n name : Str)
    → IsUpperOf n name
    → len + length name ≤ 8
    → name_loop 9 len name ≡ some n
unfolding name_loop
name_loop_complete len _ _ nothing l = refl
name_loop_complete len _ _ (then_char d c _ _ h nothing) l =
    let (ok, cap) = name_char_complete d c h in
    let small : leb 9 (len + 1) ≡ false = ground arith in
    rw (ok, cap, small)
      (if_rule (λ o. cons_to d o ≡ some (d ∷ [])) (leb 8 (len + 1)) (some []) (some []) (λ e. refl)
        λ e. refl)
name_loop_complete len _ _ (then_char d c n name h (then_char d' c' n' name' h' up)) l =
    let (ok, cap) = name_char_complete d c h in
    let small : leb 9 (len + 1) ≡ false = ground arith in
    let more : leb 8 (len + 1) ≡ false = ground arith in
    let again =
      name_loop_complete (len + 1) (d' ∷ n') (c' ∷ name') (then_char d' c' n' name' h' up)
        (omega arith) in
    rw (ok, cap, small, more) (ap (cons_to d) again)

-- What a round that gives a name has passed.
passed_tests :
    (ok big : Bool) (x : ℕ) (o : Option Str) (n : Str)
    → (if not ok then none else if big then none else cons_to x o) ≡ some n
    → (ok ≡ true) × (big ≡ false) × (m : Str) × (o ≡ some m) × (n ≡ x ∷ m)
passed_tests false big x o n e = cc
passed_tests true true x o n e = cc
passed_tests true false x none n e = cc
passed_tests true false x (some m) n e = (refl, refl, m, refl, sym (some-injective (x ∷ m) n e))

name_ended :
    (name m : Str) → (if is_nil name then some [] else none) ≡ some m → (name ≡ []) × (m ≡ [])
name_ended [] m e = (refl, sym (some-injective [] m e))
name_ended (c ∷ name) m e = cc

name_loop_sound :
    (len : ℕ) (n name : Str)
    → len ≤ 8
    → name_loop 9 len name ≡ some n
    → IsUpperOf n name × (len + length name ≤ 8)
unfolding name_loop
name_loop_sound len n [] l e =
    (subst (λ x. IsUpperOf x []) (some-injective [] n e) nothing, omega arith)
name_loop_sound len n (c ∷ name) l e =
    let (ok, big, m, rest, same) =
      passed_tests (user_is_name_char c) (leb 9 (len + 1)) (user_to_upper c)
        (if leb 8 (len + 1)
          then if is_nil name then some [] else none
          else name_loop 9 (len + 1) name)
        n e in
    let (up, fits) =
      if_rule (λ o. o ≡ some m → IsUpperOf m name × (len + 1 + length name ≤ 8)) (leb 8 (len + 1))
        (if is_nil name then some [] else none) (name_loop 9 (len + 1) name)
        (λ q r.
          let (no_more, done) = name_ended name m r in rw (no_more, done) (nothing, ground arith))
        (λ q r. name_loop_sound (len + 1) m name (ground arith) r) rest in
    (rw same (then_char (user_to_upper c) c m name (name_char_sound c ok) up), omega arith)

-- A login name of 1 to 8 characters, and that name in upper case.
abbrev pub IsLoginName : Str → Str → Type 0
IsLoginName n name = IsUpperOf n name × (0 < length name) × (length name ≤ 8)

normalize_iff :
    (name n : Str) → (user_normalize_name name user_name_max ≡ some n) ↔ IsLoginName n name
unfolding user_normalize_name
normalize_iff [] n = (λ e. cc, λ h. absurd (omega (arith, h.1)))
normalize_iff (c ∷ name) n = (
  λ e.
      let (up, l) = name_loop_sound 0 n (c ∷ name) (omega arith) e in
      (up, omega arith, omega (arith, l)),
  λ h. name_loop_complete 0 n (c ∷ name) h.0 (omega (arith, h.2)),
)

abbrev has_name : User → Str → Bool
has_name w n = w.used && str_eq w.name n

has_name_refl : (w : User) (n : Str) → w.used ≡ true → w.name ≡ n → has_name w n ≡ true
has_name_refl w n used name = rw (used, name, str_eq_refl n) refl

refuted : false ≡ true → ⊥
refuted e = cc

-- The first user of the table that is in use and has the name.
pub data IsFirstNamed (n : Str) (u : User) : List User → Type 0 where
  here : (users : List User) → u.used ≡ true → u.name ≡ n → IsFirstNamed n u (u ∷ users)
  later :
      (w : User) (users : List User)
      → ¬ ((w.used ≡ true) × (w.name ≡ n))
      → IsFirstNamed n u users
      → IsFirstNamed n u (w ∷ users)

find_loop_complete :
    (n : Str) (u : User) (users : List User) → IsFirstNamed n u users → find_loop users n ≡ some u
unfolding find_loop
find_loop_complete n u _ (here users used name) = rw (used, name, str_eq_refl n) refl
find_loop_complete n u _ (later w users other first) = elim (Bool-cases (has_name w n)) [
  | inl e ↦ absurd (other (ground arith, str_eq_sound w.name n (ground arith)))
  | inr e ↦ rw e (find_loop_complete n u users first)
]

find_loop_sound :
    (users : List User) (n : Str) (u : User) → find_loop users n ≡ some u → IsFirstNamed n u users
unfolding find_loop
find_loop_sound [] n u e = cc
find_loop_sound (w ∷ users) n u e =
    if_rule (λ o. o ≡ some u → IsFirstNamed n u (w ∷ users)) (has_name w n) (some w)
      (find_loop users n)
      (λ t q.
        subst (λ x. IsFirstNamed n x (w ∷ users)) (some-injective w u q)
          (here users (ground arith) (str_eq_sound w.name n (ground arith))))
      (λ t q.
        later w users (λ h. refuted (sym t ∙ has_name_refl w n h.0 h.1))
          (find_loop_sound users n u q))
      e

user_find_sound :
    (users : List User) (n : Str) (u : User) → user_find users n ≡ some u → IsFirstNamed n u users
unfolding user_find
user_find_sound users [] u e = cc
user_find_sound users (c ∷ n) u e = find_loop_sound users (c ∷ n) u e

user_find_complete :
    (users : List User) (n : Str) (u : User)
    → 0 < length n
    → IsFirstNamed n u users
    → user_find users n ≡ some u
unfolding user_find
user_find_complete users [] u l first = absurd (omega (arith, l))
user_find_complete users (c ∷ n) u l first = find_loop_complete (c ∷ n) u users first

longer : (n name : Str) → IsUpperOf n name → 0 < length name → 0 < length n
longer _ _ nothing l = l
longer _ _ (then_char d c n name h up) l = omega arith

none-some : {A : Type 0} {a : A} → ◌≡◌ {A = Option A} none (some a) → ⊥
none-some e = cc

module _ (drv : Drive) (b : Bpb) (v : Volume) where
  open drv use {Disk}

  user_set_current-true :
      (u : User) (s : Accounts Disk) → u.used ≡ true → (user_set_current drv b v u s).0 ≡ some tt
  unfolding user_set_current best_effort set_env set_current on_files ◌>>=◌ succeeds
  user_set_current-true u s e = rw e refl

  abbrev MayFind : List User → Str → Str → Type 0
  MayFind users name password =
      (n : Str) × (u : User) × (user_normalize_name name user_name_max ≡ some n)
      × (user_find users n ≡ some u)
      × (u.pass ≡ password)

  -- Who may log in with the users of a table.
  abbrev pub MayLogin : List User → Str → Str → Type 0
  MayLogin users name password =
      (n : Str) × (u : User) × IsLoginName n name × IsFirstNamed n u users × (u.pass ≡ password)

  -- From the user that was found on.
  entered : Str → User → Act (Accounts Disk) Unit
  entered password u = do require (pass_fits u.pass password); user_set_current drv b v u

  require_iff :
      (t : Bool) (u : User) (s : Accounts Disk)
      → u.used ≡ true
      → ((require t >> user_set_current drv b v u) s).0 ≡ some tt ↔ (t ≡ true)
  unfolding ◌>>=◌ succeeds
  require_iff true u s used = (λ h. refl, λ e. user_set_current-true u s used)
  require_iff false u s used = (λ h. cc, λ e. cc)

  found_iff :
      (o : Option User) (password : Str) (s : Accounts Disk)
      → ((u : User) → o ≡ some u → u.used ≡ true)
      → ((continue o (entered password) s).0 ≡ some tt)
        ↔ ((u : User) × (o ≡ some u) × (u.pass ≡ password))
  unfolding entered
  found_iff none password s used = (λ h. cc, λ h. cc)
  found_iff (some u) password s used =
      let passed = require_iff (pass_fits u.pass password) u s (used u refl) in
      (
        λ h. (u, refl, (pass_fits_iff u.pass password).0 (passed.0 h)),
        λ found.
            let (w, e, q) = found in
            passed.1 (
              (pass_fits_iff u.pass password).1
                (ap (λ (x : User). x.pass) (some-injective u w e) ∙ q)),
      )

  refused :
      (name password : Str) (s : Accounts Disk)
      → user_normalize_name name user_name_max ≡ none
      → (user_login drv b v name password s).0 ≡ none
  unfolding user_login ◌>>=◌
  refused name password s e = rw e refl

  looked_up :
      (name password n : Str) (s : Accounts Disk)
      → user_normalize_name name user_name_max ≡ some n
      → (user_login drv b v name password s).0
        ≡ (continue
            (user_find (user_load_passwd drv b v s).1.users n)
            (entered password)
            (user_load_passwd drv b v s).1).0
  unfolding user_login user_load_passwd set_users on_files entered ◌>>=◌ succeeds
  looked_up name password n s e = rw e refl

  user_login-finds :
      (name password : Str) (s : Accounts Disk)
      → ((user_login drv b v name password s).0 ≡ some tt)
        ↔ MayFind (user_load_passwd drv b v s).1.users name password
  user_login-finds name password s = normalized (user_normalize_name name user_name_max) refl
    where
      users : List User
      users = (user_load_passwd drv b v s).1.users

      normalized :
          (o : Option Str)
          → user_normalize_name name user_name_max ≡ o
          → ((user_login drv b v name password s).0 ≡ some tt) ↔ MayFind users name password
      normalized none e = (
        λ h. absurd (none-some (sym (refused name password s e) ∙ h)),
        λ may. absurd (none-some (sym e ∙ may.2)),
      )
      normalized (some n) e =
          let found =
            found_iff (user_find users n) password (user_load_passwd drv b v s).1
              (user_find-used users n) in
          let same = looked_up name password n s e in
          (
            λ h. let (u, q, p) = found.0 (sym same ∙ h) in (n, u, e, q, p),
            λ may.
                let (m, u, f, q, p) = may in
                let q' =
                  subst (λ x. user_find users x ≡ some u) (some-injective m n (sym f ∙ e)) q in
                same ∙ found.1 (u, q', p),
          )

  may_iff :
      (users : List User) (name password : Str)
      → MayFind users name password ↔ MayLogin users name password
  may_iff users name password = (
    λ may.
        let (n, u, e, found, same) = may in
        (n, u, (normalize_iff name n).0 e, user_find_sound users n u found, same),
    λ may.
        let (n, u, named, first, same) = may in
        (
          n,
          u,
          (normalize_iff name n).1 named,
          user_find_complete users n u (longer n name named.0 named.1) first,
          same,
        ),
  )

  -- user_login, from any state: it returns TRUE exactly if the name has 1 to 8 letters, digits or
  -- _, and the first user in use whose name is that one in upper case, in the table that
  -- user_load_passwd leaves, has the password.
  pub user_login_iff :
      (name password : Str) (s : Accounts Disk)
      → ((user_login drv b v name password s).0 ≡ some tt)
        ↔ MayLogin (user_load_passwd drv b v s).1.users name password
  user_login_iff name password s =
      let users = (user_load_passwd drv b v s).1.users in
      let found = user_login-finds name password s in
      let may = may_iff users name password in (λ h. may.0 (found.0 h), λ m. found.1 (may.1 m))
