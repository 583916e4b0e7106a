-- ===== src/User.antt =====
-- kernel/sima_user.c, the accounts: the table of eight users, the text of /ETC/PASSWD, and the current
-- user. An array of a record is the string that it holds; a record that is not used is cleared. A
-- string pointer is not NULL. The functions that use the file system are in User/Session.
pub mod Session
pub mod Login
pub mod Uids
use seolsem.Base.{
  ℕ, zero, suc, ◌+◌, ◌-◌, Bool, true, false, not, ◌&&◌, ◌||◌, Option, none, some, List, [], ◌∷◌,
  ◌++◌, ltb, leb, ◌==◌, if◌then◌else◌, replicate, u8, u16, Str, codes,
}
use seolsem.Conv.{sima_atoi, sima_utoa}
use seolsem.Mem.Copying.{strcpy, strcat}
use seolsem.Mem.Comparing.{str_eq}

abbrev pub user_max : ℕ
user_max = 8

abbrev pub user_name_max : ℕ
user_name_max = 9

abbrev pub user_home_max : ℕ
user_home_max = 64

abbrev pub user_pass_max : ℕ
user_pass_max = 9

-- SIMA_USER
pub record User : Type 0 where
  pub used : Bool
  pub name : Str
  pub uid : ℕ
  pub home : Str
  pub pass : Str

abbrev pub no_user : User
no_user = record { used = false; name = []; uid = 0; home = []; pass = [] }

-- g_users, cleared
abbrev pub no_users : List User
no_users = replicate user_max no_user

abbrev pub is_nil : Str → Bool
is_nil [] = true
is_nil (c ∷ s) = false

unfoldable pub user_to_upper : ℕ → ℕ
user_to_upper ch = if leb b'a' ch && leb ch b'z' then u8 (ch - b'a' + b'A') else ch

unfoldable pub user_is_name_char : ℕ → Bool
user_is_name_char ch =
    leb b'a' ch && leb ch b'z'
    || leb b'A' ch && leb ch b'Z'
    || leb b'0' ch && leb ch b'9'
    || ch == b'_'

abbrev pub cons_to : ℕ → Option Str → Option Str
cons_to c none = none
cons_to c (some s) = some (c ∷ s)

unfoldable pub is_password_char : ℕ → Bool
is_password_char ch = not (ltb ch 32 || ch == 127 || ch == b':' || ch == 13 || ch == 10)

-- The loop of `user_copy_password`.
unfoldable pub password_loop : ℕ → ℕ → Str → Option Str
unfolding is_password_char
password_loop out_cap len [] = some []
password_loop out_cap len (ch ∷ in_) =
    let rest = password_loop out_cap (len + 1) in_ in
    if not (is_password_char ch)
    then none
    else if leb out_cap (len + 1)
    then none
    else cons_to ch rest

unfoldable pub user_copy_password : Str → ℕ → Bool → Option Str
unfolding password_loop
user_copy_password in_ out_cap allow_empty =
    if out_cap == 0 || is_nil in_ && not allow_empty then none else password_loop out_cap 0 in_

-- The loop of `user_normalize_name`, and the test after it that the name has ended.
unfoldable pub name_loop : ℕ → ℕ → Str → Option Str
unfolding user_is_name_char user_to_upper
name_loop out_cap len [] = some []
name_loop out_cap len (ch ∷ in_) =
    let rest = name_loop out_cap (len + 1) in_ in
    let at_end = if is_nil in_ then some [] else none in
    if not (user_is_name_char ch)
    then none
    else if leb out_cap (len + 1)
    then none
    else cons_to (user_to_upper ch) (if leb 8 (len + 1) then at_end else rest)

unfoldable pub user_normalize_name : Str → ℕ → Option Str
unfolding name_loop
user_normalize_name in_ out_cap =
    if out_cap == 0 || is_nil in_ then none else name_loop out_cap 0 in_

unfoldable pub find_loop : List User → Str → Option User
find_loop [] name = none
find_loop (u ∷ users) name = if u.used && str_eq u.name name then some u else find_loop users name

unfoldable pub user_find : List User → Str → Option User
unfolding find_loop
user_find users name = if is_nil name then none else find_loop users name

unfoldable pub user_add_entry : List User → Str → ℕ → Str → Str → List User
user_add_entry [] name uid home pass = []
user_add_entry (u ∷ users) name uid home pass =
    let rest = u ∷ user_add_entry users name uid home pass in
    let entry : User = record {
      used = true;
      name = (strcpy user_name_max name).0;
      uid = uid;
      home = (strcpy user_home_max home).0;
      pass = (strcpy user_pass_max pass).0;
    } in
    if u.used then rest else entry ∷ users

-- `sima_strchr(s, c)` and the NUL stored there: what is before it and behind it.
unfoldable pub cut : ℕ → Str → Option (Str × Str)
cut c [] = none
cut c (d ∷ s) =
    if d == c
    then some ([], s)
    else elim (cut c s) [ none ↦ none | some (before, behind) ↦ some (d ∷ before, behind) ]

unfoldable pub skip_blanks : Str → Str
skip_blanks [] = []
skip_blanks (c ∷ line) = if c == b' ' || c == 9 then skip_blanks line else c ∷ line

-- The fields of a line: the name, the number, the home and the password.
unfoldable pub fields_of : Str → Option (Str × Str × Str × Str)
unfolding cut
fields_of line = elim (cut b':' line) [
  | none ↦ none
  | some (name, rest) ↦ elim (cut b':' rest) [
    | none ↦ none
    | some (uid_s, home) ↦ elim (cut b':' home) [
      | none ↦ some (name, uid_s, home, [])
      | some (home', pass) ↦ some (name, uid_s, home', pass)
    ]
  ]
]

-- The end of `user_parse_line`: the checks on the fields, and the new entry.
unfoldable pub add_fields : List User → Option Str → Option ℕ → Str → Option Str → List User
unfolding user_find user_add_entry
add_fields users none uid home pass = users
add_fields users (some name) none home pass = users
add_fields users (some name) (some uid) home none = users
add_fields users (some name) (some uid) home (some pass) = elim (user_find users name) [
  | some u ↦ users
  | none ↦ user_add_entry users name uid (if is_nil home then codes "/" else home) pass
]

unfoldable pub parse_fields : List User → Option (Str × Str × Str × Str) → List User
unfolding user_normalize_name user_copy_password add_fields
parse_fields users none = users
parse_fields users (some (name, uid_s, home, pass)) =
    add_fields users (user_normalize_name name user_name_max) (sima_atoi (some uid_s)) home
      (user_copy_password pass user_pass_max true)

abbrev pub is_comment : Str → Bool
is_comment [] = true
is_comment (c ∷ line) = c == b'#'

unfoldable pub user_parse_line : List User → Str → List User
unfolding skip_blanks parse_fields fields_of
user_parse_line users line =
    let line' = skip_blanks line in
    if is_comment line' then users else parse_fields users (fields_of line')

abbrev pub ends_line : ℕ → Bool
ends_line ch = ch == 13 || ch == 10 || ch == 0

-- The loop of `user_load_passwd` over the bytes of the file and the NUL behind them; `line` is what
-- was seen of the line.
unfoldable pub lines_loop : List User → Str → List ℕ → List User
unfolding user_parse_line
lines_loop users line [] = users
lines_loop users line (ch ∷ bytes) =
    let users' = if ends_line ch && not (is_nil line) then user_parse_line users line else users in
    let line' = if ends_line ch then [] else line ++ ch ∷ [] in lines_loop users' line' bytes

-- Texts appended one after the other; `none` at the first that does not fit.
unfoldable pub append_all : ℕ → Str → List Str → Option Str
append_all cap out [] = some out
append_all cap out (s ∷ texts) =
    let (out', fits) = strcat cap out s in
    let rest = append_all cap out' texts in if fits then rest else none

-- The text of a user in `user_sync_passwd`, as the pieces that are appended.
unfoldable pub pieces_of : User → Str → List Str
pieces_of u uid_s =
    u.name ∷ codes ":" ∷ uid_s ∷ codes ":" ∷ u.home ∷ codes ":" ∷ u.pass ∷ (13 ∷ 10 ∷ []) ∷ []

unfoldable pub append_user : User → Option Str × Bool → Str → Option Str
unfolding append_all pieces_of
append_user u (some uid_s, true) out = append_all 512 out (pieces_of u uid_s)
append_user u (some uid_s, false) out = none
append_user u (none, done) out = none

-- The loop of `user_sync_passwd` over the table.
unfoldable pub sync_loop : List User → Str → Option Str
unfolding append_user
sync_loop [] out = some out
sync_loop (u ∷ users) out = elim u.used [
  | false ↦ sync_loop users out
  | true ↦ elim (append_user u (sima_utoa u.uid 8 10) out) [
    | none ↦ none
    | some out' ↦ sync_loop users out'
  ]
]

-- The loop of `user_add` over the numbers in use, and the number after the highest.
unfoldable pub max_uid : ℕ → List User → ℕ
max_uid highest [] = highest
max_uid highest (u ∷ users) = max_uid (if u.used && ltb highest u.uid then u.uid else highest) users

unfoldable pub next_uid : List User → ℕ
unfolding max_uid
next_uid users = u16 (max_uid 999 users + 1)
