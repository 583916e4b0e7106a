-- ===== src/Fat/Name.antt =====
-- kernel/sima_fs.c, 8.3 names: `fat_build_83`, and the comparison with the name of a directory entry
-- in `fat_names_equal`. A name of 11 bytes is a list.
use seolsem.Base.{
  ℕ, ◌+◌, ◌≡◌, ◌≢◌, refl, Bool, true, false, ◌&&◌, Option, none, some, List, [], ◌∷◌, ◌++◌, leb,
  ◌==◌, if◌then◌else◌, set, replicate, Str, All, arith,
}
use seolsem.FilePath.{to_upper, upper, is_separator, is_dot, is_dotdot}

-- The loop of `fat_build_83`.
unfoldable pub build_loop : ℕ → ℕ → Bool → List ℕ → Str → Option (List ℕ)
unfolding to_upper is_separator
build_loop base_len ext_len in_ext out [] = some out
build_loop base_len ext_len in_ext out (ch ∷ input) =
    let to_ext = build_loop base_len ext_len true out input in
    let to_base = build_loop (base_len + 1) ext_len in_ext (set out base_len (to_upper ch)) input in
    let more_ext =
      build_loop base_len (ext_len + 1) in_ext (set out (8 + ext_len) (to_upper ch)) input in
    if is_separator ch
    then none
    else if ch == b'.'
    then if in_ext then none else to_ext
    else if in_ext
    then if leb 3 ext_len then none else more_ext
    else if leb 8 base_len
    then none
    else to_base

abbrev spaces : List ℕ
spaces = replicate 11 b' '

unfoldable pub fat_build_83 : Str → Option (List ℕ)
unfolding build_loop is_dot is_dotdot
fat_build_83 [] = none
fat_build_83 (c ∷ input) =
    if is_dot (c ∷ input)
    then some (set spaces 0 b'.')
    else if is_dotdot (c ∷ input)
    then some (set (set spaces 0 b'.') 1 b'.')
    else build_loop 0 0 false spaces (c ∷ input)

-- The two loops of `fat_names_equal` over the 11 bytes of an entry's name and extension.
unfoldable pub same_upper : List ℕ → List ℕ → Bool
unfolding to_upper
same_upper [] [] = true
same_upper [] (b ∷ name83) = false
same_upper (a ∷ raw) [] = false
same_upper (a ∷ raw) (b ∷ name83) = to_upper a == b && same_upper raw name83

unfoldable pub fat_names_equal : List ℕ → Str → Bool
unfolding fat_build_83 same_upper
fat_names_equal raw input = elim (fat_build_83 input) [
  | none ↦ false
  | some name83 ↦ same_upper raw name83
]

to_upper-to_upper : (c : ℕ) → to_upper (to_upper c) ≡ to_upper c
unfolding to_upper
to_upper-to_upper c = ground arith

is_separator-to_upper : (c : ℕ) → is_separator (to_upper c) ≡ is_separator c
unfolding to_upper is_separator
is_separator-to_upper c = ground arith

dot-to_upper : (c : ℕ) → (to_upper c == b'.') ≡ (c == b'.')
unfolding to_upper
dot-to_upper c = ground arith

build_loop-upper :
    (b e : ℕ) (x : Bool) (out : List ℕ) (s : Str)
    → build_loop b e x out (upper s) ≡ build_loop b e x out s
unfolding build_loop
build_loop-upper b e x out [] = refl
build_loop-upper b e x out (c ∷ s) = rw (
  is_separator-to_upper c,
  dot-to_upper c,
  to_upper-to_upper c,
  build_loop-upper b e true out s,
  build_loop-upper (b + 1) e x (set out b (to_upper c)) s,
  build_loop-upper b (e + 1) x (set out (8 + e) (to_upper c)) s,
)

-- fat_build_83 does not see the case of a name: it gives the same 11 bytes, or the same refusal,
-- for a name and for the name in upper case.
pub fat_build_83-upper : (s : Str) → fat_build_83 (upper s) ≡ fat_build_83 s
unfolding fat_build_83
fat_build_83-upper [] = refl
fat_build_83-upper (c ∷ []) = ground (arith, build_loop-upper 0 0 false spaces (c ∷ []))
fat_build_83-upper (c ∷ d ∷ []) = ground (arith, build_loop-upper 0 0 false spaces (c ∷ d ∷ []))
fat_build_83-upper (c ∷ d ∷ e ∷ s) = build_loop-upper 0 0 false spaces (c ∷ d ∷ e ∷ s)

-- A name's base: no dot in it.
abbrev pub NoDot : Str → Type 0
NoDot s = All (λ c. c ≢ b'.') s

build_loop-dot :
    (b : ℕ) (out : List ℕ) (s : Str)
    → NoDot s
    → build_loop b 0 false out (s ++ b'.' ∷ []) ≡ build_loop b 0 false out s
unfolding build_loop
build_loop-dot b out [] h = refl
build_loop-dot b out (c ∷ s) h =
    ground (arith, build_loop-dot (b + 1) (set out b (to_upper c)) s h.1)

-- A name with a dot behind it is the name without, for every name that has no dot.
pub fat_build_83-dot :
    (c : ℕ) (s : Str) → NoDot (c ∷ s) → fat_build_83 (c ∷ s ++ b'.' ∷ []) ≡ fat_build_83 (c ∷ s)
unfolding fat_build_83
fat_build_83-dot c [] h = ground (arith, build_loop-dot 0 spaces (c ∷ []) h)
fat_build_83-dot c (d ∷ []) h = ground (arith, build_loop-dot 0 spaces (c ∷ d ∷ []) h)
fat_build_83-dot c (d ∷ e ∷ s) h = ground (arith, build_loop-dot 0 spaces (c ∷ d ∷ e ∷ s) h)
