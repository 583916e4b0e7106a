-- ===== src/FilePath/Canonical.antt =====
-- The segments that `fs_normalize_path` keeps of an absolute path.
use seolsem.Base.{
  ℕ, suc, ◌+◌, ◌≤◌, ◌<◌, ◌≡◌, ◌⊎◌, inl, inr, refl, ap, ◌∙◌, false, Option, none, some, [], ◌∷◌, leb,
  length, Str, All, arith, if_rule, Bool-cases,
}
use seolsem.FilePath.{
  to_upper, upper, is_separator, fat_skip_separators, take_segment, fat_next_segment, is_dot,
  is_dotdot, name_max,
}

-- A byte that may stand in a canonical segment.
abbrev pub IsPlain : ℕ → Type 0
IsPlain c = (is_separator c ≡ false) × (to_upper c ≡ c)

-- A canonical segment: a name of at most 12 bytes in upper case, other than `.` and `..`.
pub record IsSegment (s : Str) : Type 0 where
  pub not_empty : 0 < length s
  pub short : length s < name_max
  pub plain : All IsPlain s
  pub not_dot : is_dot s ≡ false
  pub not_dotdot : is_dotdot s ≡ false

to_upper_twice : (c : ℕ) → to_upper (to_upper c) ≡ to_upper c
unfolding to_upper
to_upper_twice c = ground arith

is_separator-to_upper : (c : ℕ) → is_separator (to_upper c) ≡ is_separator c
unfolding to_upper is_separator
is_separator-to_upper c = ground arith

pub upper-plain : (s : Str) → All (λ c. is_separator c ≡ false) s → All IsPlain (upper s)
upper-plain [] h = tt
upper-plain (c ∷ s) h = ((is_separator-to_upper c ∙ h.0, to_upper_twice c), upper-plain s h.1)

pub length-upper : (s : Str) → length (upper s) ≡ length s
length-upper [] = refl
length-upper (c ∷ s) = ap suc (length-upper s)

pub is_dot-upper : (s : Str) → is_dot (upper s) ≡ is_dot s
unfolding is_dot to_upper
is_dot-upper [] = refl
is_dot-upper (c ∷ []) = ground arith
is_dot-upper (c ∷ d ∷ s) = refl

pub is_dotdot-upper : (s : Str) → is_dotdot (upper s) ≡ is_dotdot s
unfolding is_dotdot to_upper
is_dotdot-upper [] = refl
is_dotdot-upper (c ∷ []) = refl
is_dotdot-upper (c ∷ d ∷ []) = ground arith
is_dotdot-upper (c ∷ d ∷ e ∷ s) = refl

-- What `take_segment` promises of a segment and the cursor behind it.
abbrev Taken : ℕ → ℕ → Str → Option (Str × Str) → Type 0
Taken cap len cursor none = Unit {0}
Taken cap len cursor (some (s, rest)) =
    All (λ c. is_separator c ≡ false) s
    × ((length s ≡ 0) ⊎ (len + length s < cap))
    × (length s + length rest ≡ length cursor)

cons_taken : ℕ → Option (Str × Str) → Option (Str × Str)
cons_taken c o = elim o [ none ↦ none | some (s, rest) ↦ some (c ∷ s, rest) ]

Taken-cons :
    (cap len c : ℕ) (cursor : Str) (o : Option (Str × Str))
    → is_separator c ≡ false
    → len + 1 < cap
    → Taken cap (len + 1) cursor o
    → Taken cap len (c ∷ cursor) (cons_taken c o)
unfolding cons_taken
Taken-cons cap len c cursor none sep room h = tt
Taken-cons cap len c cursor (some (s, rest)) sep room (a, b, l) =
    ((sep, a), inr (ground arith), omega arith)

take_segment-Taken :
    (cap len : ℕ) (cursor : Str) → Taken cap len cursor (take_segment cap len cursor)
unfolding take_segment cons_taken
take_segment-Taken cap len [] = (tt, inl refl, omega arith)
take_segment-Taken cap len (c ∷ cursor) = elim (Bool-cases (is_separator c)) [
  | inl e ↦ rw e (tt, inl refl, omega arith)
  | inr n ↦ rw n (
      if_rule (Taken cap len (c ∷ cursor)) (leb cap (len + 1)) none
        (cons_taken c (take_segment cap (len + 1) cursor)) (λ e. tt)
        λ m.
          Taken-cons cap len c cursor (take_segment cap (len + 1) cursor) n (ground arith)
            (take_segment-Taken cap (len + 1) cursor))
]

pub skip-length : (cursor : Str) → length (fat_skip_separators cursor) ≤ length cursor
unfolding fat_skip_separators
skip-length [] = omega arith
skip-length (c ∷ cursor) = ground (arith, skip-length cursor)

-- What `fat_next_segment` promises with the capacity of a name.
abbrev pub Next : Str → Option (Str × Str) → Type 0
Next cursor none = Unit {0}
Next cursor (some (s, rest)) =
    All (λ c. is_separator c ≡ false) s
    × (0 < length s)
    × (length s < name_max)
    × (length rest < length cursor)

HeadOk : Str → Type 0
HeadOk [] = Unit {0}
HeadOk (c ∷ cs) = is_separator c ≡ false

skip-HeadOk : (cursor : Str) → HeadOk (fat_skip_separators cursor)
unfolding fat_skip_separators HeadOk
skip-HeadOk [] = tt
skip-HeadOk (c ∷ cursor) = elim (Bool-cases (is_separator c)) [
  | inl e ↦ rw e (skip-HeadOk cursor)
  | inr n ↦ rw n n
]

Next-of-cons :
    (c : ℕ) (cursor whole : Str) (o : Option (Str × Str))
    → is_separator c ≡ false
    → length cursor < length whole
    → Taken name_max 1 cursor o
    → Next whole (cons_taken c o)
unfolding cons_taken
Next-of-cons c cursor whole none sep l h = tt
Next-of-cons c cursor whole (some (s, rest)) sep l (a, b, e) =
    ((sep, a), omega arith, ground arith, omega arith)

pub fat_next_segment-Next : (cursor : Str) → Next cursor (fat_next_segment cursor name_max)
unfolding fat_next_segment
fat_next_segment-Next cursor =
    after (fat_skip_separators cursor) (skip-HeadOk cursor) (skip-length cursor)
  where
    after :
        (skipped : Str)
        → HeadOk skipped
        → length skipped ≤ length cursor
        → Next cursor (elim skipped as (λ x. Option (Str × Str)) [
          | [] ↦ none
          | c ∷ cs ↦ take_segment name_max 0 (c ∷ cs)
        ])
    after [] h l = tt
    after (c ∷ cs) h l =
        unfold take_segment HeadOk cons_taken in
        rw h (
          Next-of-cons c cs cursor (take_segment name_max 1 cs) h l
            (take_segment-Taken name_max 1 cs))
