-- ===== src/Perm/Mode.antt =====
-- kernel/sima_perm.c: permission modes as octal text and as letters.
use native.Mathlib.Nat.{one-le-pow}
use seolsem.Base.{
  ℕ, ◌+◌, ◌-◌, ◌*◌, ◌/◌, ◌%◌, ◌^◌, ◌≢◌, zero, suc, ◌≤◌, ◌<◌, ◌≡◌, refl, ap, ◌∙◌, some, [], ◌∷◌,
  ◌==◌, bit_or, bit_and, u16, Str, arith, if◌then◌else◌, ◌↔◌, if_rule, not,
}
use seolsem.Base.Bits.{or_fields_high, and_high, and_mask}
use seolsem.Perm.{octal_loop, perm_parse_mode, perm_format_mode, flag, place, has}

pub IsOctal : Str → Type 0
IsOctal [] = Unit
IsOctal (c ∷ str) = (b'0' ≤ c) × (c ≤ b'7') × IsOctal str

-- The number that octal digits spell, behind the digits that were read before.
pub octal : ℕ → Str → ℕ
octal n [] = n
octal n (c ∷ str) = octal (n * 8 + (c - b'0')) str

-- One digit joined to a 16-bit number.
digit_joined :
    (mode c : ℕ)
    → (b'0' ≤ c)
    → (c ≤ b'7')
    → bit_or (u16 (mode * 8)) (u16 (c - b'0')) ≡ u16 (u16 (mode * 8) + (c - b'0'))
digit_joined mode c h k =
    let split : u16 (mode * 8) ≡ mode % 8192 * 8 = omega arith in
    let small : u16 (c - b'0') ≡ c - b'0' = omega arith in
    rw (split, small, or_fields_high 3 (c - b'0') (mode % 8192) (omega arith)) (omega arith)

octal_loop-octal :
    (n : ℕ) (str : Str) → IsOctal str → octal_loop (u16 n) str ≡ some (u16 (octal n str))
unfolding octal_loop octal IsOctal
octal_loop-octal n [] h = refl
octal_loop-octal n (c ∷ str) (lo, hi, hs) =
    let next : bit_or (u16 (u16 n * 8)) (u16 (c - b'0')) ≡ u16 (n * 8 + (c - b'0')) =
      digit_joined (u16 n) c lo hi ∙ omega arith in
    rw next (ground (arith, lo, hi, octal_loop-octal (n * 8 + (c - b'0')) str hs))

octal_loop-IsOctal : (n mode : ℕ) (str : Str) → octal_loop n str ≡ some mode → IsOctal str
unfolding octal_loop IsOctal
octal_loop-IsOctal n mode [] h = ground arith
octal_loop-IsOctal n mode (c ∷ str) h =
    ground (arith, octal_loop-IsOctal (bit_or (u16 (n * 8)) (u16 (c - b'0'))) mode str)

octal_loop_iff :
    (mode : ℕ) (str : Str)
    → (octal_loop 0 str ≡ some mode) ↔ (IsOctal str × (mode ≡ u16 (octal 0 str)))
octal_loop_iff mode str = ground (arith, octal_loop-octal 0 str, octal_loop-IsOctal 0 mode str)

leading_zero :
    (c : ℕ) (str : Str) (mode : ℕ)
    → c ≡ b'0'
    → (octal_loop 0 str ≡ some mode) ↔ (IsOctal (c ∷ str) × (mode ≡ u16 (octal 0 (c ∷ str))))
unfolding IsOctal octal
leading_zero c str mode e = rw e (ground (arith, octal_loop_iff mode str))

-- For every text: perm_parse_mode succeeds exactly on the texts whose characters are octal digits
-- all (the empty text is one), with the number they spell modulo 2^16.
pub perm_parse_mode_iff :
    (str : Str) (mode : ℕ)
    → (perm_parse_mode (some str) ≡ some mode) ↔ (IsOctal str × (mode ≡ u16 (octal 0 str)))
unfolding perm_parse_mode
perm_parse_mode_iff [] mode = octal_loop_iff mode []
perm_parse_mode_iff (c ∷ str) mode =
    if_rule (λ o. (o ≡ some mode) ↔ (IsOctal (c ∷ str) × (mode ≡ u16 (octal 0 (c ∷ str)))))
      (c == b'0') (octal_loop 0 str) (octal_loop 0 (c ∷ str))
      (λ h. leading_zero c str mode (ground (arith, h))) (λ h. octal_loop_iff mode (c ∷ str))

-- The number a text of nine letters stands for: a letter's bit, and a special bit for s, S, t and T.
plain : ℕ → ℕ → ℕ
plain bit c = if c == b'-' then 0 else bit

special : ℕ → ℕ → ℕ → ℕ → ℕ → ℕ
special bit exec both only c =
    if c == both then bit + exec else if c == only then bit else if c == b'x' then exec else 0

pub mode_of : Str → ℕ
unfolding plain special
mode_of (a ∷ b ∷ c ∷ d ∷ e ∷ f ∷ g ∷ h ∷ i ∷ []) =
    plain 0x0100 a
    + plain 0x0080 b
    + special 0x0800 0x0040 b's' b'S' c
    + plain 0x0020 d
    + plain 0x0010 e
    + special 0x0400 0x0008 b's' b'S' f
    + plain 0x0004 g
    + plain 0x0002 h
    + special 0x0200 0x0001 b't' b'T' i
mode_of str = 0

-- A one-bit mask leaves that bit.
bit_at : (k a : ℕ) → bit_and a (2 ^ k) ≡ a / 2 ^ k % 2 * 2 ^ k
bit_at k a =
    ap (bit_and a) (omega arith) ∙ and_high k a 1 ∙ ap (λ b. b * 2 ^ k) (and_mask 1 (a / 2 ^ k))

module _ (mode bit d : ℕ) (masked : bit_and mode bit ≡ d * bit) (digit : d ≤ 1)
    (positive : 0 < bit) where
  has-digit : has mode bit ≡ (d == 1)
  has-digit = rw masked (go d digit)
    where
      go : (d : ℕ) → d ≤ 1 → not (d * bit == 0) ≡ (d == 1)
      go zero k = ground arith
      go (suc zero) k = ground (arith, positive)
      go (suc (suc d)) k = ground (arith, k)

  plain-flag : (shown : ℕ) → shown ≢ b'-' → plain bit (flag mode bit shown) ≡ d * bit
  unfolding plain
  plain-flag shown n = rw has-digit (ground (arith, n, digit))

abbrev Distinct : ℕ → ℕ → Type 0
Distinct both only = (both ≢ only) × (both ≢ b'x') × (only ≢ b'x') × (both ≢ b'-') × (only ≢ b'-')

module _ (mode bit d exec e both only : ℕ) (masked : bit_and mode bit ≡ d * bit) (digit : d ≤ 1)
    (positive : 0 < bit) (masked_exec : bit_and mode exec ≡ e * exec) (digit_exec : e ≤ 1)
    (positive_exec : 0 < exec) where
  special-place :
      Distinct both only
      → special bit exec both only (place mode bit exec both only) ≡ d * bit + e * exec
  unfolding special
  special-place (n, n2, n3, n4, n5) =
      rw
        (
          has-digit mode bit d masked digit positive,
          has-digit mode exec e masked_exec digit_exec positive_exec,
        )
        (ground (arith, n, n2, n3, n4, n5, digit, digit_exec))

module _ (mode : ℕ) where
  plain_bit :
      (k shown : ℕ)
      → shown ≢ b'-'
      → plain (2 ^ k) (flag mode (2 ^ k) shown) ≡ mode / 2 ^ k % 2 * 2 ^ k
  plain_bit k shown n =
      plain-flag mode (2 ^ k) (mode / 2 ^ k % 2) (bit_at k mode) (omega arith)
        (one-le-pow k 2 (omega arith)) shown n

  special_bits :
      (k j both only : ℕ)
      → Distinct both only
      → special (2 ^ k) (2 ^ j) both only (place mode (2 ^ k) (2 ^ j) both only)
        ≡ mode / 2 ^ k % 2 * 2 ^ k + mode / 2 ^ j % 2 * 2 ^ j
  special_bits k j both only h =
      special-place mode (2 ^ k) (mode / 2 ^ k % 2) (2 ^ j) (mode / 2 ^ j % 2) both only
        (bit_at k mode) (omega arith) (one-le-pow k 2 (omega arith)) (bit_at j mode) (omega arith)
        (one-le-pow j 2 (omega arith)) h

-- The nine letters of perm_format_mode give the mode back, for every mode of twelve bits.
pub mode_of-perm_format_mode : (mode : ℕ) → mode < 4096 → mode_of (perm_format_mode mode) ≡ mode
unfolding perm_format_mode mode_of
mode_of-perm_format_mode mode h = omega (
  arith,
  plain_bit mode 8 b'r' (ground arith),
  plain_bit mode 7 b'w' (ground arith),
  special_bits mode 11 6 b's' b'S' (ground arith),
  plain_bit mode 5 b'r' (ground arith),
  plain_bit mode 4 b'w' (ground arith),
  special_bits mode 10 3 b's' b'S' (ground arith),
  plain_bit mode 2 b'r' (ground arith),
  plain_bit mode 1 b'w' (ground arith),
  special_bits mode 9 0 b't' b'T' (ground arith),
)
