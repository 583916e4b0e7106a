-- ===== src/Mem/Text.antt =====
-- `sima_strlen`, `sima_strchr` and `sima_strstr` on C strings.
use seolsem.Base.{
  ℕ, suc, ◌+◌, ◌≤◌, ◌<◌, ◌≡◌, ◌≢◌, refl, ap, ◌&&◌, none, some, [], ◌∷◌, ◌++◌, arith, ◌==◌,
  Bool-cases, ==_iff, inl, inr, length, All, Str, Bool, Option, true, false, if◌then◌else◌,
}
use seolsem.Mem.{
  Ptr, strlen_loop, sima_strlen, chr_loop, sima_strchr, match_loop, str_loop, sima_strstr,
}
use seolsem.Mem.Copying.{NulFree}

strlen_loop-eq :
    (n : ℕ) (s tail : Str)
    → NulFree s
    → n + length s < 65536
    → strlen_loop n (s ++ 0 ∷ tail) ≡ some (n + length s)
unfolding strlen_loop
strlen_loop-eq n [] tail h l = ground arith
strlen_loop-eq n (c ∷ s) tail h l = ground (arith, strlen_loop-eq (n + 1) s tail h.1 (omega arith))

-- No byte of `s` is `ch`.
abbrev pub Lacks : ℕ → Str → Type 0
Lacks ch s = All (λ c. c ≢ ch) s

-- The value of `sima_strchr` on a string: the bytes before the first `ch`, and those after it.
unfoldable pub split_at : ℕ → Str → Option (Str × Str)
split_at ch [] = none
split_at ch (c ∷ s) =
    if c == ch
    then some ([], s)
    else elim (split_at ch s) [ none ↦ none | some (p, q) ↦ some (c ∷ p, q) ]

abbrev pub chr_pointer : ℕ → Str → Option (Str × Str) → Ptr
chr_pointer ch tail none = none
chr_pointer ch tail (some (p, q)) = some (ch ∷ q ++ 0 ∷ tail)

sima_strchr-split_at :
    (ch : ℕ) (s tail : Str)
    → ch ≢ 0
    → NulFree s
    → sima_strchr (some (s ++ 0 ∷ tail)) ch ≡ some (chr_pointer ch tail (split_at ch s))
unfolding sima_strchr chr_loop split_at
sima_strchr-split_at ch [] tail nz h = ground arith
sima_strchr-split_at ch (c ∷ s) tail nz h = ground (arith, sima_strchr-split_at ch s tail nz h.1)

-- What `split_at` promises: the parts around the first `ch`, or that there is none.
abbrev pub Splits : ℕ → Str → Option (Str × Str) → Type 0
Splits ch s none = Lacks ch s
Splits ch s (some (p, q)) = (s ≡ p ++ ch ∷ q) × Lacks ch p

cons_split : ℕ → Option (Str × Str) → Option (Str × Str)
cons_split c o = elim o [ none ↦ none | some (p, q) ↦ some (c ∷ p, q) ]

Splits-cons :
    (ch c : ℕ) (s : Str) (o : Option (Str × Str))
    → c ≢ ch
    → Splits ch s o
    → Splits ch (c ∷ s) (cons_split c o)
unfolding cons_split
Splits-cons ch c s none ne h = (ne, h)
Splits-cons ch c s (some (p, q)) ne h = (ap (λ t. c ∷ t) h.0, (ne, h.1))

pub split_at-Splits : (ch : ℕ) (s : Str) → Splits ch s (split_at ch s)
unfolding split_at cons_split
split_at-Splits ch [] = tt
split_at-Splits ch (c ∷ s) = elim (Bool-cases (c == ch)) [
  | inl e ↦ rw e (ap (λ t. t ∷ s) ((==_iff c ch).0 e), tt)
  | inr n ↦ rw n (Splits-cons ch c s (split_at ch s) (ground arith) (split_at-Splits ch s))
]

-- The text begins with the pattern.
unfoldable pub starts_with : Str → Str → Bool
starts_with s [] = true
starts_with [] (p ∷ pat) = false
starts_with (c ∷ s) (p ∷ pat) = c == p && starts_with s pat

-- The value of `sima_strstr` on strings: the rest of `s` from the first place where `pat` occurs.
unfoldable pub find_str : Str → Str → Option Str
find_str [] pat = none
find_str (c ∷ s) pat = if starts_with (c ∷ s) pat then some (c ∷ s) else find_str s pat

match_loop-eq :
    (s pat u v : Str)
    → NulFree s
    → NulFree pat
    → match_loop (s ++ 0 ∷ u) (pat ++ 0 ∷ v) ≡ some (starts_with s pat)
unfolding match_loop starts_with
match_loop-eq [] [] u v h k = refl
match_loop-eq [] (p ∷ pat) u v h k = ground arith
match_loop-eq (c ∷ s) [] u v h k = refl
match_loop-eq (c ∷ s) (p ∷ pat) u v h k = ground (arith, match_loop-eq s pat u v h.1 k.1)

abbrev pub str_pointer : Str → Option Str → Ptr
str_pointer tail none = none
str_pointer tail (some r) = some (r ++ 0 ∷ tail)

str_loop-eq :
    (s : Str) (p : ℕ) (pat u v : Str)
    → NulFree s
    → NulFree (p ∷ pat)
    → str_loop (s ++ 0 ∷ u) p (pat ++ 0 ∷ v) ≡ some (str_pointer u (find_str s (p ∷ pat)))
unfolding str_loop find_str starts_with
str_loop-eq [] p pat u v h k = refl
str_loop-eq (c ∷ s) p pat u v h k =
    ground (arith, match_loop-eq (c ∷ s) (p ∷ pat) u v h k, str_loop-eq s p pat u v h.1 k)

starts_with-true : (s pat : Str) → starts_with s pat ≡ true → (v : Str) × (s ≡ pat ++ v)
unfolding starts_with
starts_with-true s [] h = (s, refl)
starts_with-true [] (p ∷ pat) h = cc
starts_with-true (c ∷ s) (p ∷ pat) h =
    let (v, e) = starts_with-true s pat (ground arith) in (v, ground arith)

starts_with-append : (pat v : Str) → starts_with (pat ++ v) pat ≡ true
unfolding starts_with
starts_with-append [] [] = refl
starts_with-append [] (x ∷ v) = refl
starts_with-append (p ∷ pat) v = ground (arith, starts_with-append pat v)

-- `o` is the first place of `s` where `pat` stands, or `none` if it stands nowhere in `s`.
abbrev pub FindsFirst : Str → Str → Option Str → Type 0
FindsFirst pat s none = (u v : Str) → s ≢ u ++ (pat ++ v)
FindsFirst pat s (some r) =
    ((v : Str) × (r ≡ pat ++ v))
    × ((u : Str) × (s ≡ u ++ r) × ((u' v' : Str) → s ≡ u' ++ (pat ++ v') → length u ≤ length u'))

FindsFirst-cons :
    (c : ℕ) (pat s : Str) (o : Option Str)
    → starts_with (c ∷ s) pat ≡ false
    → FindsFirst pat s o
    → FindsFirst pat (c ∷ s) o
FindsFirst-cons c pat s none off h = miss
  where
    miss : (u v : Str) → c ∷ s ≢ u ++ (pat ++ v)
    miss [] v e = cc (off, ap (λ t. starts_with t pat) e, starts_with-append pat v)
    miss (x ∷ u) v e = h u v (cc)
FindsFirst-cons c pat s (some r) off h = (h.0, (c ∷ h.1.0, ap (λ t. c ∷ t) h.1.1, first))
  where
    first : (u' v' : Str) → c ∷ s ≡ u' ++ (pat ++ v') → suc (length h.1.0) ≤ length u'
    first [] v' e = absurd (cc (off, ap (λ t. starts_with t pat) e, starts_with-append pat v'))
    first (x ∷ u') v' e = omega (arith, h.1.2 u' v' (cc))

find_str-FindsFirst : (s : Str) (p : ℕ) (pat : Str) → FindsFirst (p ∷ pat) s (find_str s (p ∷ pat))
unfolding find_str
find_str-FindsFirst [] p pat = miss
  where
    miss : (u v : Str) → [] ≢ u ++ (p ∷ pat ++ v)
    miss [] v e = cc
    miss (x ∷ u) v e = cc
find_str-FindsFirst (c ∷ s) p pat = elim (Bool-cases (starts_with (c ∷ s) (p ∷ pat))) [
  | inl e ↦ rw e (starts_with-true (c ∷ s) (p ∷ pat) e, ([], refl, λ u' v' q. omega arith))
  | inr n ↦
      rw n (FindsFirst-cons c (p ∷ pat) s (find_str s (p ∷ pat)) n (find_str-FindsFirst s p pat))
]

-- sima_strstr on C strings with a pattern that is not empty reads nothing outside them, and points
-- to the first place where the pattern stands, or is NULL if it stands nowhere.
pub sima_strstr-FindsFirst :
    (s : Str) (p : ℕ) (pat u v : Str)
    → NulFree s
    → NulFree (p ∷ pat)
    → (sima_strstr (some (s ++ 0 ∷ u)) (some (p ∷ pat ++ 0 ∷ v))
        ≡ some (str_pointer u (find_str s (p ∷ pat))))
      × FindsFirst (p ∷ pat) s (find_str s (p ∷ pat))
unfolding sima_strstr
sima_strstr-FindsFirst s p pat u v h k =
    (ground (arith, str_loop-eq s p pat u v h k), find_str-FindsFirst s p pat)

-- sima_strchr on a C string, for a byte other than NUL, points to its first occurrence, or is NULL
-- if there is none; sima_strlen of a string shorter than 64 KiB is its length.
pub sima_strchr-Splits :
    (ch : ℕ) (s tail : Str)
    → ch ≢ 0
    → NulFree s
    → length s < 65536
    → (sima_strchr (some (s ++ 0 ∷ tail)) ch ≡ some (chr_pointer ch tail (split_at ch s)))
      × Splits ch s (split_at ch s)
      × (sima_strlen (some (s ++ 0 ∷ tail)) ≡ some (length s))
unfolding sima_strlen
sima_strchr-Splits ch s tail nz h small = (
  sima_strchr-split_at ch s tail nz h,
  split_at-Splits ch s,
  ground (arith, strlen_loop-eq 0 s tail h),
)
