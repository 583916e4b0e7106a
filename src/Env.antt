-- ===== src/Env.antt =====
-- kernel/sima_env.c, the environment: a table of eight variables, and the file /XENV.ENV that fills
-- it. A buffer is the list of its bytes; an entry's arrays are the strings that they hold. What
-- `fs_read` of the file returned is an argument.
pub mod Variables
pub mod PathValue
use seolsem.Base.{
  ℕ, zero, suc, ◌+◌, ◌*◌, Bool, true, false, not, ◌&&◌, ◌||◌, Option, none, some, List, [], ◌∷◌,
  ◌++◌, ltb, ◌==◌, if◌then◌else◌, take, drop, set, get_or, length, replicate, Str, codes,
}
use seolsem.Mem.Copying.{c_str, strcpy, strcat}
use seolsem.Mem.Comparing.{str_eq}

abbrev pub env_max_vars : ℕ
env_max_vars = 8

abbrev pub env_name_max : ℕ
env_name_max = 12

abbrev pub env_value_max : ℕ
env_value_max = 64

abbrev pub path_name : Str
path_name = codes "PATH"

-- ENV_ENTRY
pub record Entry : Type 0 where
  pub used : Bool
  pub name : Str
  pub value : Str

-- env_table
abbrev pub Table : Type 0
Table = List Entry

abbrev pub env_clear : Table
env_clear = replicate env_max_vars (record { used = false; name = []; value = [] })

unfoldable pub is_named : Entry → Str → Bool
is_named e name = e.used && str_eq e.name name

-- The loop of `env_set` from entry `i` on: the slot, and whether it appends to PATH.
unfoldable pub slot_loop : Table → ℕ → Str → ℕ → ℕ × Bool
unfolding is_named
slot_loop [] i name slot = (slot, false)
slot_loop (e ∷ table) i name slot =
    let slot' = if not e.used && slot == env_max_vars then i else slot in
    let rest = slot_loop table (i + 1) name slot' in
    if is_named e name then (i, str_eq name path_name) else rest

-- Entry `i` of the table, and a table with another entry there.
abbrev pub nth_entry : Table → ℕ → Entry
nth_entry table i = get_or table i (record { used = false; name = []; value = [] })

-- The appending branch of `env_set`: what `merged` comes to, if it fits.
unfoldable pub merge : Str → Str → Option Str
merge old value =
    let (merged, ok) = strcpy env_value_max old in
    let (merged', ok') =
      if str_eq merged []
      then (merged, ok)
      else if ok
      then strcat env_value_max merged (codes ";")
      else (merged, ok) in
    let (merged'', ok'') = strcat env_value_max merged' value in
    if ok' && ok'' then some merged'' else none

unfoldable pub store_merged : Table → ℕ → Option Str → Table
store_merged table slot none = table
store_merged table slot (some merged) =
    set table slot (record (nth_entry table slot) { value = (strcpy env_value_max merged).0 })

unfoldable pub env_append : Table → ℕ → Str → Table
unfolding merge store_merged
env_append table slot value = store_merged table slot (merge (nth_entry table slot).value value)

unfoldable pub env_store : Table → ℕ → Str → Str → Table
env_store table slot name value = set table slot (record {
  used = true;
  name = (strcpy env_name_max name).0;
  value = (strcpy env_value_max value).0;
})

unfoldable pub env_set : Table → Str → Str → Table
unfolding slot_loop env_append env_store
env_set table name value =
    let (slot, append_path) = slot_loop table 0 name env_max_vars in
    if str_eq name []
    then table
    else if slot == env_max_vars
    then table
    else if append_path
    then env_append table slot value
    else env_store table slot name value

-- `env_set_public`; `none` is NULL.
unfoldable pub env_set_public : Table → Option Str → Option Str → Bool × Table
env_set_public table none value = (false, table)
env_set_public table (some name) none = (false, table)
env_set_public table (some name) (some value) = (true, env_set table name value)

unfoldable pub get_loop : Table → Str → Option Str
get_loop [] name = none
get_loop (e ∷ table) name = if is_named e name then some e.value else get_loop table name

unfoldable pub env_get : Table → Option Str → Option Str
unfolding get_loop
env_get table none = none
env_get table (some name) = get_loop table name

abbrev pub is_blank : ℕ → Bool
is_blank c = c == 32 || c == 9

-- How far `env_trim_left` moves the pointer.
unfoldable pub env_trim_left : List ℕ → ℕ
env_trim_left [] = 0
env_trim_left (c ∷ text) = if is_blank c then suc (env_trim_left text) else 0

-- The loop of `env_trim_right` on the string at `text` with `len` bytes left.
unfoldable pub trim_loop : ℕ → ℕ → List ℕ → List ℕ
trim_loop zero text buffer = buffer
trim_loop (suc len) text buffer =
    let rest = trim_loop len text (set buffer (text + len) 0) in
    if is_blank (get_or buffer (text + len) 0) then rest else buffer

unfoldable pub env_trim_right : ℕ → List ℕ → List ℕ
unfolding trim_loop
env_trim_right text buffer = trim_loop (length (c_str (drop text buffer))) text buffer

-- `sima_strchr(name, '=')` as an offset.
unfoldable pub find_eq : Str → Option ℕ
find_eq [] = none
find_eq (c ∷ s) = elim (find_eq s) as (λ x. Option ℕ) [
  | none ↦ if c == 61 then some 0 else none
  | some k ↦ if c == 61 then some 0 else some (suc k)
]

-- The end of `env_parse_line`, with the '=' at `eq`.
unfoldable pub parse_at : List ℕ → ℕ → ℕ → Table → List ℕ × Table
unfolding env_trim_left env_trim_right env_set
parse_at buffer name eq table =
    let cut = set buffer eq 0 in
    let value = suc eq + env_trim_left (drop (suc eq) cut) in
    let trimmed = env_trim_right value (env_trim_right name cut) in
    if str_eq (c_str (drop name trimmed)) []
    then (trimmed, table)
    else (trimmed, env_set table (c_str (drop name trimmed)) (c_str (drop value trimmed)))

-- `env_parse_line` on the line at offset `line` of the buffer.
unfoldable pub env_parse_line : List ℕ → ℕ → Table → List ℕ × Table
unfolding find_eq parse_at env_trim_left
env_parse_line buffer line table =
    let name = line + env_trim_left (drop line buffer) in
    let text = c_str (drop name buffer) in
    let parsed : List ℕ × Table = elim (find_eq text) [
      | none ↦ (buffer, table)
      | some k ↦ parse_at buffer name (name + k) table
    ] in
    if str_eq text [] || get_or text 0 0 == 35 then (buffer, table) else parsed

-- The loop of `env_init` with `left` bytes to go.
unfoldable pub line_loop : ℕ → ℕ → ℕ → List ℕ → Table → Table
unfolding env_parse_line
line_loop zero i start buffer table = table
line_loop (suc left) i start buffer table =
    let buffer₁ = if get_or buffer i 0 == 13 then set buffer i 0 else buffer in
    let c = get_or buffer₁ i 0 in
    let (buffer₂, table₂) =
      if c == 10 || c == 0 then env_parse_line buffer₁ start table else (buffer₁, table) in
    line_loop left (i + 1) (if c == 10 || c == 0 then i + 1 else start) buffer₂ table₂

-- `env_init`; the file is the bytes that `fs_read` gave, at most 512, or `none` if it failed.
unfoldable pub env_init : Option (List ℕ) → Table
unfolding line_loop
env_init file =
    let defaults =
      env_set (env_set env_clear path_name (codes "/BIN")) (codes "HOME") (codes "/") in
    elim file [
      | none ↦ defaults
      | some bytes ↦ line_loop (suc (length bytes)) 0 0 (bytes ++ 0 ∷ []) defaults
    ]
