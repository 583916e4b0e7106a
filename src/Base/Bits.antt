-- ===== src/Base/Bits.antt =====
-- Masks, shifts and the joining of bit fields as arithmetic.
use Prim.Native.Nat.{
  ℕ, zero, suc, ◌+◌, ◌-◌, ◌*◌, ◌/◌, ◌%◌, ◌^◌, ◌≤◌, ◌<◌, min, max, bit_and, bit_or, digits, bitwise,
  bit_and-bitwise, bit_or-bitwise,
}
use mathlib.Core.Path.{◌≡◌, refl, ap, ◌∙◌}
use native.Mathlib.Nat.{
  pow-suc, one-le-pow, div-add-mod, mod-lt, div-div-eq-div-mul, mul-add-mod_self_left, mod-eq_of_lt,
}
use native.Mathlib.Omega.{arith}

-- The fuel of `digits` does not matter once there is enough.
fuel_free :
    (z : ℕ → ℕ) (f : ℕ → ℕ → ℕ) (j k a b : ℕ) → a ≤ j → a ≤ k → digits z f j a b ≡ digits z f k a b
fuel_free z f zero zero a b p q = refl
fuel_free z f zero (suc k) zero b p q = refl
fuel_free z f zero (suc k) (suc a) b p q = absurd (omega arith)
fuel_free z f (suc j) zero zero b p q = refl
fuel_free z f (suc j) zero (suc a) b p q = absurd (omega arith)
fuel_free z f (suc j) (suc k) zero b p q = refl
fuel_free z f (suc j) (suc k) (suc a) b p q =
    rw (fuel_free z f j k (suc a / 2) (b / 2) (omega arith) (omega arith))

low_digit :
    (z : ℕ → ℕ) (f : ℕ → ℕ → ℕ) (a b : ℕ)
    → bitwise z f (suc a) b ≡ bitwise z f (suc a / 2) (b / 2) * 2 + f (suc a % 2) (b % 2)
low_digit z f a b =
    omega (arith, fuel_free z f a (suc a / 2) (suc a / 2) (b / 2) (omega arith) (omega arith))

-- One equation for the lowest digit.
or_digit : (a b : ℕ) → bit_or a b ≡ bit_or (a / 2) (b / 2) * 2 + max (a % 2) (b % 2)
or_digit zero b = simp bit_or-bitwise (omega arith)
or_digit (suc a) b = simp bit_or-bitwise (low_digit (λ y. y) max a b)

and_digit : (a b : ℕ) → bit_and a b ≡ bit_and (a / 2) (b / 2) * 2 + min (a % 2) (b % 2)
and_digit zero b = simp bit_and-bitwise (omega arith)
and_digit (suc a) b = simp bit_and-bitwise (low_digit (λ y. 0) min a b)

or_zero_left : (b : ℕ) → bit_or 0 b ≡ b
or_zero_left b = simp bit_or-bitwise (refl)

double : (q k : ℕ) → q * 2 ^ suc k ≡ 2 * (q * 2 ^ k)
double q k = omega (arith, ap (λ (t : ℕ). q * t) (pow-suc 2 k))

-- A low field joined with a field shifted above it.
pub or_fields : (k a b : ℕ) → a < 2 ^ k → bit_or a (b * 2 ^ k) ≡ a + b * 2 ^ k
or_fields zero a b h = ground (arith, or_zero_left b)
or_fields (suc k) a b h = ground (
  arith,
  or_digit a (b * 2 ^ suc k),
  double b k,
  pow-suc 2 k,
  or_fields k (a / 2) b (omega (arith, pow-suc 2 k)),
)

or_zero_right_fuel : (n a : ℕ) → a ≤ n → bit_or a 0 ≡ a
or_zero_right_fuel zero zero h = refl
or_zero_right_fuel zero (suc a) h = absurd (omega arith)
or_zero_right_fuel (suc n) zero h = refl
or_zero_right_fuel (suc n) (suc a) h =
    omega (arith, or_digit (suc a) 0, or_zero_right_fuel n (suc a / 2) (omega arith))

-- The same, with the high field first.
pub or_fields_high : (k a b : ℕ) → a < 2 ^ k → bit_or (b * 2 ^ k) a ≡ b * 2 ^ k + a
or_fields_high zero a b h = ground (arith, or_zero_right_fuel b b (omega arith))
or_fields_high (suc k) a b h = ground (
  arith,
  or_digit (b * 2 ^ suc k) a,
  double b k,
  pow-suc 2 k,
  or_fields_high k (a / 2) b (omega (arith, pow-suc 2 k)),
)

and_zero_fuel : (n a : ℕ) → a ≤ n → bit_and a 0 ≡ 0
and_zero_fuel zero zero h = refl
and_zero_fuel zero (suc a) h = absurd (omega arith)
and_zero_fuel (suc n) zero h = refl
and_zero_fuel (suc n) (suc a) h =
    omega (arith, and_digit (suc a) 0, and_zero_fuel n (suc a / 2) (omega arith))

and_zero : (a : ℕ) → bit_and a 0 ≡ 0
and_zero a = and_zero_fuel a a (omega arith)

module _ (a k : ℕ) where
  abbrev quot : ℕ
  quot = a / 2 / 2 ^ k

  abbrev rest : ℕ
  rest = a / 2 % 2 ^ k * 2 + a % 2

  split_low : a ≡ 2 ^ suc k * quot + rest
  split_low = omega (arith, div-add-mod (a / 2) (2 ^ k), ap (λ (t : ℕ). t * quot) (pow-suc 2 k))

  rest-lt : rest < 2 ^ suc k
  rest-lt = omega (arith, pow-suc 2 k, mod-lt (a / 2) (one-le-pow k 2 (omega arith)))

  half_mod : a % 2 ^ suc k ≡ rest
  half_mod =
      ap (λ n. n % 2 ^ suc k) split_low
      ∙ mul-add-mod_self_left (2 ^ suc k) quot rest
      ∙ mod-eq_of_lt rest-lt

-- The mask of the `k` low bits is the remainder.
pub and_mask : (k a : ℕ) → bit_and a (2 ^ k - 1) ≡ a % 2 ^ k
and_mask zero a = omega (arith, and_zero a)
and_mask (suc k) a = ground (
  arith,
  and_digit a (2 ^ suc k - 1),
  pow-suc 2 k,
  one-le-pow k 2,
  and_mask k (a / 2),
  half_mod a k,
)

-- A mask of high bits clears the low ones.
pub and_high : (k a m : ℕ) → bit_and a (m * 2 ^ k) ≡ bit_and (a / 2 ^ k) m * 2 ^ k
and_high zero a m = ground arith
and_high (suc k) a m =
    let below : a / 2 ^ suc k ≡ a / 2 / 2 ^ k =
      rw div-div-eq-div-mul (ap (λ n. a / n) (omega (arith, pow-suc 2 k))) in
    ground (
      arith,
      below,
      and_digit a (m * 2 ^ suc k),
      double m k,
      and_high k (a / 2) m,
      double (bit_and (a / 2 / 2 ^ k) m) k,
    )
