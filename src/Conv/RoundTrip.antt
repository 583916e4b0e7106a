-- ===== src/Conv/RoundTrip.antt =====
-- Numbers written by sima_conv.c read back as themselves.
use native.Mathlib.Nat.{pow-suc}
use seolsem.Base.{
  ℕ, zero, suc, ◌+◌, ◌*◌, ◌-◌, take_all, ◌/◌, ◌%◌, ◌^◌, ◌≤◌, ◌<◌, ◌≡◌, refl, ◌∙◌, true, some, [],
  ◌∷◌, ◌==◌, arith, length, All, replicate, u16, Str, ◌++◌, codes, Bool-cases, inl, inr, ap, ◌⊎◌,
  false,
}
use seolsem.Mem.Copying.{strcpy, strcat}
use seolsem.Conv.{
  sima_is_digit, sima_digit_value, digit_char, digit_loop, sima_utoa, prefixed, sima_itoh,
  skip_spaces, value_loop, parse_digits, sima_atoi, skip_hex_prefix, sima_atox,
}

-- The bases with a parser.
abbrev pub IsReadable : ℕ → Type 0
IsReadable base = (base ≡ 10) ⊎ (base ≡ 16)

digit_char-digit :
    (base d : ℕ) → IsReadable base → d < base → sima_is_digit (digit_char d) base ≡ true
unfolding sima_is_digit digit_char
digit_char-digit base d h l = ground arith

digit_value-char : (d : ℕ) → d < 16 → sima_digit_value (digit_char d) ≡ d
unfolding sima_digit_value digit_char
digit_value-char d l = ground arith

value_loop-digit :
    (base v d : ℕ) (s : Str)
    → IsReadable base
    → d < base
    → value_loop base v (digit_char d ∷ s) ≡ value_loop base (u16 (v * base + d)) s
unfolding value_loop
value_loop-digit base v d s h l =
    rw (digit_char-digit base d h l, digit_value-char d (ground arith)) refl

quotient_fits :
    (base left v : ℕ) → IsReadable base → v < 65536 → v < 2 ^ suc left → u16 (v / base) < 2 ^ left
quotient_fits base left v (inl e) small l = rw e (omega (arith, pow-suc 2 left))
quotient_fits base left v (inr e) small l = rw e (omega (arith, pow-suc 2 left))

quotient_and_rest :
    (base v : ℕ) → IsReadable base → v < 65536 → u16 (u16 (v / base) * base + u16 (v % base)) ≡ v
quotient_and_rest base v (inl e) small = rw e (omega arith)
quotient_and_rest base v (inr e) small = rw e (omega arith)

-- Reading what the loop leaves is going on from the number with what was there before.
value_loop-digit_loop :
    (base left v : ℕ) (temp : Str)
    → IsReadable base
    → v < 65536
    → v < 2 ^ left
    → value_loop base 0 (digit_loop left v base temp) ≡ value_loop base v temp
unfolding digit_loop
value_loop-digit_loop base zero v temp h small l = ap (λ n. value_loop base n temp) (omega arith)
value_loop-digit_loop base (suc left) v temp h small l = elim (Bool-cases (v == 0)) [
  | inl e ↦ rw e (ap (λ n. value_loop base n temp) (ground arith))
  | inr n ↦ rw n (
      value_loop-digit_loop base left (u16 (v / base)) (digit_char (u16 (v % base)) ∷ temp) h
        (omega arith) (quotient_fits base left v h small l)
      ∙ value_loop-digit base (u16 (v / base)) (u16 (v % base)) temp h (ground arith)
      ∙ ap (λ n. value_loop base n temp) (quotient_and_rest base v h small))
]

-- Every byte that the loop leaves is a digit.
digit_loop-digits :
    (base left v : ℕ) (temp : Str)
    → IsReadable base
    → All (λ c. sima_is_digit c base ≡ true) temp
    → All (λ c. sima_is_digit c base ≡ true) (digit_loop left v base temp)
unfolding digit_loop
digit_loop-digits base zero v temp h k = k
digit_loop-digits base (suc left) v temp h k = elim (Bool-cases (v == 0)) [
  | inl e ↦ rw e k
  | inr n ↦ rw n (
      digit_loop-digits base left (u16 (v / base)) (digit_char (u16 (v % base)) ∷ temp) h
        (digit_char-digit base (u16 (v % base)) h (ground arith), k))
]

-- It adds at most `left` of them, and at least one if there is room and the number is not 0.
digit_loop-length :
    (base left v : ℕ) (temp : Str)
    → (length temp ≤ length (digit_loop left v base temp))
      × (length (digit_loop left v base temp) ≤ length temp + left)
unfolding digit_loop
digit_loop-length base zero v temp = omega arith
digit_loop-length base (suc left) v temp =
    ground
      (arith, digit_loop-length base left (u16 (v / base)) (digit_char (u16 (v % base)) ∷ temp))

-- A number below a power of the base has no more digits than the exponent.
digit_loop-short :
    (base k left v : ℕ) (temp : Str)
    → IsReadable base
    → v < 65536
    → v < base ^ k
    → length (digit_loop left v base temp) ≤ length temp + k
unfolding digit_loop
digit_loop-short base k zero v temp h small l = omega arith
digit_loop-short base zero (suc left) v temp h small l = ground arith
digit_loop-short base (suc k) (suc left) v temp h small l = elim (Bool-cases (v == 0)) [
  | inl e ↦ rw e (omega arith)
  | inr n ↦ rw n (
      omega (
        arith,
        digit_loop-short base k left (u16 (v / base)) (digit_char (u16 (v % base)) ∷ temp) h
            (omega arith) (fewer base k v h small l),
      ))
]
  where
    fewer :
        (base k v : ℕ) → IsReadable base → v < 65536 → v < base ^ suc k → u16 (v / base) < base ^ k
    fewer base k v (inl e) small l = rw e (omega (arith, pow-suc 10 k, rw e at l))
    fewer base k v (inr e) small l = rw e (omega (arith, pow-suc 16 k, rw e at l))

-- A text of one to five digits that reads as `v`.
record IsNumeral (base v : ℕ) (s : Str) : Type 0 where
  digits : All (λ c. sima_is_digit c base ≡ true) s
  not_empty : 0 < length s
  short : length s ≤ 5
  reads : value_loop base 0 s ≡ v

small_power : (base v : ℕ) → IsReadable base → v < 65536 → v < base ^ 5
small_power base v (inl e) l = rw e (omega arith)
small_power base v (inr e) l = rw e (omega arith)

digit_loop-IsNumeral :
    (base v : ℕ)
    → IsReadable base
    → v < 65536
    → (v == 0) ≡ false
    → IsNumeral base v (digit_loop 16 v base [])
digit_loop-IsNumeral base v h small pos = record {
  digits = digit_loop-digits base 16 v [] h tt;
  not_empty =
      unfold digit_loop in
      rw pos (
        omega
          (arith, digit_loop-length base 15 (u16 (v / base)) (digit_char (u16 (v % base)) ∷ [])));
  short = digit_loop-short base 5 16 v [] h small (small_power base v h small);
  reads = value_loop-digit_loop base 16 v [] h small (omega arith) ∙ (unfold value_loop in refl);
}

zero-IsNumeral : (base : ℕ) → IsReadable base → IsNumeral base 0 (b'0' ∷ [])
unfolding value_loop sima_is_digit sima_digit_value
zero-IsNumeral base (inl e) =
    rw e
      (record { digits = (refl, tt); not_empty = omega arith; short = omega arith; reads = refl })
zero-IsNumeral base (inr e) =
    rw e
      (record { digits = (refl, tt); not_empty = omega arith; short = omega arith; reads = refl })

parse_digits-IsNumeral : (base v : ℕ) (s : Str) → IsNumeral base v s → parse_digits base s ≡ some v
unfolding parse_digits
parse_digits-IsNumeral base v [] n = absurd (omega (arith, n.not_empty))
parse_digits-IsNumeral base v (c ∷ s) n = rw n.digits.0 (ap some (rw n.digits.0 at n.reads))

skip_spaces-IsNumeral :
    (base v k : ℕ) (s : Str) → IsNumeral base v s → skip_spaces (replicate k b' ' ++ s) ≡ s
unfolding skip_spaces
skip_spaces-IsNumeral base v zero [] n = refl
skip_spaces-IsNumeral base v zero (c ∷ s) n = unfold sima_is_digit in ground (arith, n.digits)
skip_spaces-IsNumeral base v (suc k) s n = skip_spaces-IsNumeral base v k s n

sima_utoa-zero :
    (base v cap : ℕ)
    → IsReadable base
    → 6 ≤ cap
    → (v == 0) ≡ true
    → sima_utoa v cap base ≡ (some (b'0' ∷ []), true)
unfolding sima_utoa
sima_utoa-zero base v cap (inl e) room z = rw (e, z) (ground arith)
sima_utoa-zero base v cap (inr e) room z = rw (e, z) (ground arith)

sima_utoa-digits :
    (base v cap : ℕ)
    → IsReadable base
    → 6 ≤ cap
    → (v == 0) ≡ false
    → length (digit_loop 16 v base []) ≤ 5
    → sima_utoa v cap base ≡ (some (digit_loop 16 v base []), true)
unfolding sima_utoa
sima_utoa-digits base v cap h room n short = ground arith

-- `sima_itoh` puts its prefix before the digits, where both fit.
prefixed-fits :
    (cap : ℕ) (s : Str)
    → length s + 3 ≤ cap
    → prefixed cap (some s, true) ≡ (some (codes "0x" ++ s), true)
unfolding prefixed strcpy strcat
prefixed-fits cap s l =
    rw
      (
        take_all (cap - 1) (codes "0x") (omega arith),
        take_all (cap - length (codes "0x") - 1) s (omega arith),
      )
      (ground arith)

-- What `sima_utoa` gives of a number in a destination with room for five digits and the NUL.
sima_utoa-IsNumeral :
    (base v cap : ℕ)
    → IsReadable base
    → v < 65536
    → 6 ≤ cap
    → (s : Str) × (sima_utoa v cap base ≡ (some s, true)) × IsNumeral base v s
sima_utoa-IsNumeral base v cap h small room = elim (Bool-cases (v == 0)) [
  | inl e ↦ (b'0' ∷ [], sima_utoa-zero base v cap h room e, rw (zero_of e) (zero-IsNumeral base h))
  | inr n ↦
      let num = digit_loop-IsNumeral base v h small n in
      (digit_loop 16 v base [], sima_utoa-digits base v cap h room n num.short, num)
]
  where
    zero_of : (v == 0) ≡ true → v ≡ 0
    zero_of e = ground arith

-- Every 16-bit number: sima_utoa in base 10 into a destination of at least 6 bytes succeeds, and
-- sima_atoi reads what it wrote, with any number of spaces before it, as that number.
pub sima_atoi-sima_utoa :
    (v cap k : ℕ)
    → v < 65536
    → 6 ≤ cap
    → (s : Str) × (sima_utoa v cap 10 ≡ (some s, true))
      × (sima_atoi (some (replicate k b' ' ++ s)) ≡ some v)
unfolding sima_atoi
sima_atoi-sima_utoa v cap k small room =
    let (s, e, num) = sima_utoa-IsNumeral 10 v cap (inl refl) small room in
    (s, e, rw (skip_spaces-IsNumeral 10 v k s num) (parse_digits-IsNumeral 10 v s num))

-- Every 16-bit number: sima_itoh into a destination of at least 8 bytes succeeds, and sima_atox
-- reads what it wrote, prefix and all, as that number.
pub sima_atox-sima_itoh :
    (v cap : ℕ)
    → v < 65536
    → 8 ≤ cap
    → (s : Str) × (sima_itoh v cap ≡ (some s, true)) × (sima_atox (some s) ≡ some v)
unfolding sima_atox sima_itoh
sima_atox-sima_itoh v cap small room =
    let (s, e, num) = sima_utoa-IsNumeral 16 v 8 (inr refl) small (omega arith) in
    (
      codes "0x" ++ s,
      ground (arith, e, prefixed-fits cap s, num.short),
      unfold skip_spaces skip_hex_prefix in parse_digits-IsNumeral 16 v s num,
    )
