-- ===== src/Fat/Bytes.antt =====
-- kernel/sima_fs.c, little-endian words in a buffer (`le16`, `le32`, `wr16`, `wr32`). A buffer is its
-- bytes by offset.
use seolsem.Base.{
  ℕ, ◌+◌, ◌*◌, ◌/◌, ◌%◌, ◌<◌, ◌≡◌, ◌≤◌, ◌⊎◌, arith, ◌==◌, if◌then◌else◌, bit_and, bit_or, u8, u16,
  u32,
}
use seolsem.Base.Bits.{or_fields, and_mask}

abbrev pub Buffer : Type 0
Buffer = ℕ → ℕ

abbrev pub IsBytes : Buffer → Type 0
IsBytes p = (o : ℕ) → p o < 256

unfoldable pub le16 : Buffer → ℕ → ℕ
le16 p o = u16 (bit_or (p o) (u16 (p (o + 1) * 256)))

unfoldable pub le32 : Buffer → ℕ → ℕ
le32 p o =
    bit_or (bit_or (bit_or (p o) (u32 (p (o + 1) * 256))) (u32 (p (o + 2) * 65536)))
      (u32 (p (o + 3) * 16777216))

abbrev put : ℕ → ℕ → Buffer → Buffer
put o b p i = if i == o then b else p i

unfoldable pub wr16 : Buffer → ℕ → ℕ → Buffer
wr16 p o n = put (o + 1) (u8 (bit_and (n / 256) 0xFF)) (put o (u8 (bit_and n 0xFF)) p)

unfoldable pub wr32 : Buffer → ℕ → ℕ → Buffer
wr32 p o n = put (o + 3) (u8 (bit_and (n / 16777216) 0xFF)) (
    put (o + 2) (u8 (bit_and (n / 65536) 0xFF))
      (put (o + 1) (u8 (bit_and (n / 256) 0xFF)) (put o (u8 (bit_and n 0xFF)) p)))

pub le16-sum : (p : Buffer) (o : ℕ) → p o < 256 → p (o + 1) < 256 → le16 p o ≡ p o + p (o + 1) * 256
unfolding le16
le16-sum p o a b = ground (arith, or_fields 8 (p o) (p (o + 1)) a)

pub le32-sum :
    (p : Buffer) (o : ℕ)
    → p o < 256
    → p (o + 1) < 256
    → p (o + 2) < 256
    → p (o + 3) < 256
    → le32 p o ≡ p o + p (o + 1) * 256 + p (o + 2) * 65536 + p (o + 3) * 16777216
unfolding le32
le32-sum p o a b c d = ground (
  arith,
  or_fields 8 (p o) (p (o + 1)) a,
  or_fields 16 (p o + p (o + 1) * 256) (p (o + 2)) (omega arith),
  or_fields 24 (p o + p (o + 1) * 256 + p (o + 2) * 65536) (p (o + 3)) (omega arith),
)

-- The bytes that `wr16` leaves.
pub wr16-at :
    (p : Buffer) (o n i : ℕ)
    → wr16 p o n i ≡ (if i == o + 1 then n / 256 % 256 else if i == o then n % 256 else p i)
unfolding wr16
wr16-at p o n i = ground (arith, and_mask 8 n, and_mask 8 (n / 256))

pub wr32-at :
    (p : Buffer) (o n i : ℕ)
    → wr32 p o n i ≡ (
        if i == o + 3
        then n / 16777216 % 256
        else if i == o + 2
        then n / 65536 % 256
        else if i == o + 1
        then n / 256 % 256
        else if i == o
        then n % 256
        else p i)
unfolding wr32
wr32-at p o n i =
    ground
      (arith, and_mask 8 n, and_mask 8 (n / 256), and_mask 8 (n / 65536), and_mask 8 (n / 16777216))

module _ (p : Buffer) (o n : ℕ) where
  wr16_bytes : (wr16 p o n o ≡ n % 256) × (wr16 p o n (o + 1) ≡ n / 256 % 256)
  wr16_bytes = (ground (arith, wr16-at p o n o), ground (arith, wr16-at p o n (o + 1)))

  wr32_bytes :
      (wr32 p o n o ≡ n % 256)
      × (wr32 p o n (o + 1) ≡ n / 256 % 256)
      × (wr32 p o n (o + 2) ≡ n / 65536 % 256)
      × (wr32 p o n (o + 3) ≡ n / 16777216 % 256)
  wr32_bytes = (
    ground (arith, wr32-at p o n o),
    ground (arith, wr32-at p o n (o + 1)),
    ground (arith, wr32-at p o n (o + 2)),
    ground (arith, wr32-at p o n (o + 3)),
  )

  pub le16-wr16 : le16 (wr16 p o n) o ≡ n % 65536
  le16-wr16 =
      let (e, f) = wr16_bytes in omega (arith, le16-sum (wr16 p o n) o (omega arith) (omega arith))

  pub le32-wr32 : le32 (wr32 p o n) o ≡ n % 4294967296
  le32-wr32 =
      let (e, f, g, h) = wr32_bytes in
      omega (arith, le32-sum (wr32 p o n) o (omega arith) (omega arith) (omega arith) (omega arith))

  -- What wr16 and wr32 store, le16 and le32 read back up to the width of the word, and no byte
  -- outside the word changes.
  pub le-wr :
      (le16 (wr16 p o n) o ≡ n % 65536)
      × (le32 (wr32 p o n) o ≡ n % 4294967296)
      × ((i : ℕ) → (i < o) ⊎ (o + 2 ≤ i) → wr16 p o n i ≡ p i)
      × ((i : ℕ) → (i < o) ⊎ (o + 4 ≤ i) → wr32 p o n i ≡ p i)
  le-wr = (
    le16-wr16,
    le32-wr32,
    λ i h. ground (arith, wr16-at p o n i),
    λ i h. ground (arith, wr32-at p o n i),
  )
