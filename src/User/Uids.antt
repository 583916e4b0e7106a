-- ===== src/User/Uids.antt =====
-- kernel/sima_user.c, the numbers of users: what `user_add` gives to a new one.
use seolsem.Base.{ℕ, ◌≤◌, ◌<◌, ◌≡◌, true, ltb, ◌&&◌, if◌then◌else◌, List, [], ◌∷◌, arith, All}
use seolsem.User.{User, max_uid, next_uid}

-- The number of a user in use is at most `n`.
abbrev pub IsBelow : ℕ → User → Type 0
IsBelow n u = u.used ≡ true → u.uid ≤ n

-- A user in use has the number `n`.
pub data HasUid (n : ℕ) : List User → Type 0 where
  here : (u : User) (users : List User) → u.used ≡ true → u.uid ≡ n → HasUid n (u ∷ users)
  there : (u : User) (users : List User) → HasUid n users → HasUid n (u ∷ users)

raised : ℕ → User → ℕ
raised highest u = if u.used && ltb highest u.uid then u.uid else highest

raised-le : (highest : ℕ) (u : User) → highest ≤ raised highest u
unfolding raised
raised-le highest u = ground arith

raised-below : (highest : ℕ) (u : User) → u.used ≡ true → u.uid ≤ raised highest u
unfolding raised
raised-below highest u e = ground arith

raised-fits : (highest n : ℕ) (u : User) → highest ≤ n → IsBelow n u → raised highest u ≤ n
unfolding raised
raised-fits highest n u l h = ground (arith, h)

le-max_uid : (highest : ℕ) (users : List User) → highest ≤ max_uid highest users
unfolding max_uid raised
le-max_uid highest [] = omega arith
le-max_uid highest (u ∷ users) =
    omega (arith, le-max_uid (raised highest u) users, raised-le highest u)

max_uid-fits :
    (highest n : ℕ) (users : List User)
    → highest ≤ n
    → All (IsBelow n) users
    → max_uid highest users ≤ n
unfolding max_uid raised
max_uid-fits highest n [] l h = l
max_uid-fits highest n (u ∷ users) l (below, h) =
    max_uid-fits (raised highest u) n users (raised-fits highest n u l below) h

HasUid-le-max_uid : (highest n : ℕ) (users : List User) → HasUid n users → n ≤ max_uid highest users
unfolding max_uid raised
HasUid-le-max_uid highest n [] x = elim x [ ]
HasUid-le-max_uid highest n (u ∷ users) (here _ _ e q) =
    omega (arith, le-max_uid (raised highest u) users, raised-below highest u e, q)
HasUid-le-max_uid highest n (u ∷ users) (there _ _ h) =
    HasUid-le-max_uid (raised highest u) n users h

-- The number that user_add gives, in any table whose numbers fit 16 bits: it is 0, the number of
-- ROOT, if a user in use has the number 65535; if all numbers in use are below that, it is from
-- 1000 on, and above the number of every user in use.
pub next_uid-Wraps :
    (users : List User)
    → All (IsBelow 65535) users
    → (HasUid 65535 users → next_uid users ≡ 0)
      × (All (IsBelow 65534) users
          → (1000 ≤ next_uid users) × ((n : ℕ) → HasUid n users → n < next_uid users))
unfolding next_uid
next_uid-Wraps users h = (
  λ top.
      omega (
        arith,
        HasUid-le-max_uid 999 65535 users top,
        max_uid-fits 999 65535 users (omega arith) h,
      ),
  λ below.
      let fits = max_uid-fits 999 65534 users (omega arith) below in
      (
        omega (arith, le-max_uid 999 users, fits),
        λ n has. omega (arith, HasUid-le-max_uid 999 n users has, fits),
      ),
)
