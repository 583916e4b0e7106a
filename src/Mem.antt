-- ===== src/Mem.antt =====
-- kernel/sima_mem.c, the functions on NUL-terminated buffers. A `char *` is the list of the
-- bytes from it to the end of its object, `none` is NULL, and a returned pointer into a string is
-- the rest of that list. The outer Option of a result is `none` where the code would read or
-- write past the end of an object. UINT16 counters are cast where the source casts them.
pub mod Copying
pub mod Text
pub mod Comparing
pub mod Block
pub mod Split
use mathlib.Core.Option
use seolsem.Base.{
  ℕ, zero, suc, ◌+◌, ◌-◌, Bool, true, false, not, ◌&&◌, Option, none, some, List, [], ◌∷◌, ◌++◌,
  ltb, leb, ◌==◌, if◌then◌else◌, u16, take, drop, set,
}

abbrev pub Ptr : Type 0
Ptr = Option (List ℕ)

-- The loop of `sima_strcpy` from index `i` on, and the store of the NUL after it.
pub copy_loop : ℕ → ℕ → List ℕ → List ℕ → Option (List ℕ × Bool)
copy_loop i cap [] src = none
copy_loop i cap (d ∷ dest) [] = none
copy_loop i cap (d ∷ dest) (c ∷ src) =
    if ltb (u16 (i + 1)) cap && not (c == 0)
    then Option.map (λ r. (c ∷ r.0, r.1)) (copy_loop (i + 1) cap dest src)
    else some (0 ∷ dest, c == 0)

-- A result about the object of `dest`, as a result about the pointer.
abbrev pub at_dest : Option (List ℕ × Bool) → Option (Ptr × Bool)
at_dest r = Option.map (λ p. (some p.0, p.1)) r

pub sima_strcpy : Ptr → ℕ → Ptr → Option (Ptr × Bool)
sima_strcpy none cap src = some (none, false)
sima_strcpy (some dest) cap none = some (some dest, false)
sima_strcpy (some dest) cap (some src) =
    if cap == 0 then some (some dest, false) else at_dest (copy_loop 0 cap dest src)

-- `while (dest_len < dest_cap && dest[dest_len] != '\0') ++dest_len`
pub find_nul : ℕ → ℕ → List ℕ → Option ℕ
find_nul n cap [] = if ltb n cap then none else some n
find_nul n cap (c ∷ cs) = if ltb n cap && not (c == 0) then find_nul (n + 1) cap cs else some n

-- The second loop of `sima_strcat`, on the bytes from `dest[dest_len]` on.
pub append_loop : ℕ → ℕ → List ℕ → List ℕ → Option (List ℕ × Bool)
append_loop i avail [] src = none
append_loop i avail (d ∷ dest) [] = none
append_loop i avail (d ∷ dest) (c ∷ src) =
    if ltb i avail && not (c == 0)
    then Option.map (λ r. (c ∷ r.0, r.1)) (append_loop (i + 1) avail dest src)
    else some (0 ∷ dest, c == 0)

abbrev append_at : List ℕ → ℕ → List ℕ → ℕ → Option (List ℕ × Bool)
append_at dest cap src dest_len =
    if leb cap dest_len
    then some (set dest (cap - 1) 0, false)
    else Option.map (λ r. (take dest_len dest ++ r.0, r.1))
        (append_loop 0 (cap - dest_len - 1) (drop dest_len dest) src)

pub sima_strcat : Ptr → ℕ → Ptr → Option (Ptr × Bool)
sima_strcat none cap src = some (none, false)
sima_strcat (some dest) cap none = some (some dest, false)
sima_strcat (some dest) cap (some src) =
    if cap == 0
    then some (some dest, false)
    else elim (find_nul 0 cap dest) [ none ↦ none | some n ↦ at_dest (append_at dest cap src n) ]

-- STRC
pub data Strc : Type 0 where
  same diff error : Strc

pub compare_loop : List ℕ → List ℕ → Option Strc
compare_loop [] s2 = none
compare_loop (a ∷ s1) [] = none
compare_loop (a ∷ s1) (b ∷ s2) =
    if not (a == b) then some diff else if a == 0 then some same else compare_loop s1 s2

pub sima_strcmp : Ptr → Ptr → Option Strc
sima_strcmp none s2 = some error
sima_strcmp (some s1) none = some error
sima_strcmp (some s1) (some s2) = compare_loop s1 s2

-- The loop of `sima_strncmp` with `n` rounds left.
pub compare_n_loop : ℕ → List ℕ → List ℕ → Option Strc
compare_n_loop zero s1 s2 = some same
compare_n_loop (suc n) [] s2 = none
compare_n_loop (suc n) (a ∷ s1) [] = none
compare_n_loop (suc n) (a ∷ s1) (b ∷ s2) =
    if not (a == b) then some diff else if a == 0 then some same else compare_n_loop n s1 s2

pub sima_strncmp : Ptr → Ptr → ℕ → Option Strc
sima_strncmp s1 s2 zero = some same
sima_strncmp none s2 (suc n) = some error
sima_strncmp (some s1) none (suc n) = some error
sima_strncmp (some s1) (some s2) (suc n) = compare_n_loop (suc n) s1 s2

pub strlen_loop : ℕ → List ℕ → Option ℕ
strlen_loop n [] = none
strlen_loop n (c ∷ s) = if c == 0 then some n else strlen_loop (u16 (n + 1)) s

pub sima_strlen : Ptr → Option ℕ
sima_strlen none = some 0
sima_strlen (some s) = strlen_loop 0 s

pub chr_loop : List ℕ → ℕ → Option Ptr
chr_loop [] target = none
chr_loop (c ∷ s) target =
    if c == 0
    then some (if target == 0 then some (c ∷ s) else none)
    else if c == target
    then some (some (c ∷ s))
    else chr_loop s target

pub sima_strchr : Ptr → ℕ → Option Ptr
sima_strchr none ch = some none
sima_strchr (some s) ch = chr_loop s ch

-- The inner loop of `sima_strstr`: does `pat` match at the head of `s`?
pub match_loop : List ℕ → List ℕ → Option Bool
match_loop s [] = none
match_loop [] (p ∷ pat) = if p == 0 then some true else none
match_loop (c ∷ s) (p ∷ pat) =
    if p == 0
    then some true
    else if c == 0
    then some false
    else if not (c == p)
    then some false
    else match_loop s pat

pub str_loop : List ℕ → ℕ → List ℕ → Option Ptr
str_loop [] p pat = none
str_loop (c ∷ s) p pat =
    if c == 0
    then some none
    else if c == p
    then elim (match_loop (c ∷ s) (p ∷ pat)) [
      | none ↦ none
      | some found ↦ if found then some (some (c ∷ s)) else str_loop s p pat
    ]
    else str_loop s p pat

pub sima_strstr : Ptr → Ptr → Option Ptr
sima_strstr none pat = some none
sima_strstr (some s) none = some none
sima_strstr (some s) (some []) = none
sima_strstr (some s) (some (p ∷ pat)) = if p == 0 then some (some s) else str_loop s p pat
