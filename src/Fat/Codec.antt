-- ===== src/Fat/Codec.antt =====
-- The encoding of FAT entries in bytes: what `fat_set_entry` stores, `fat_get_entry` reads back, and
-- the entries of the other clusters stay, also where two FAT12 entries share a byte.
use seolsem.Base.{
  ℕ, ◌+◌, ◌*◌, ◌/◌, ◌%◌, ◌<◌, ◌≡◌, ◌≢◌, ap, ◌∙◌, ◌==◌, if◌then◌else◌, arith, u16, bit_and, bit_or,
}
use seolsem.Base.Bits.{or_fields, or_fields_high, and_mask, and_high}
use seolsem.Fat.{FatType, unknown, fat12, fat16, fat32}
use seolsem.Fat.Bytes.{
  Buffer, IsBytes, le16, le32, wr16, wr32, le16-sum, le32-sum, wr16-at, wr32-at, le16-wr16,
  le32-wr32,
}
use seolsem.Fat.Table.{fat_offset, nibbles, widened, decode, merged, encode}

-- What is left of a value in an entry of each type.
unfoldable pub masked : FatType → ℕ → ℕ
masked fat12 value = value % 4096
masked fat16 value = widened (value % 65536)
masked fat32 value = value % 268435456
masked unknown value = value % 268435456

pub nibbles-eq : (c w : ℕ) → nibbles c w ≡ (if c % 2 == 0 then w % 4096 else w / 16)
unfolding nibbles
nibbles-eq c w = ground (arith, and_mask 1 c, and_mask 12 w)

merged-eq :
    (c w value : ℕ)
    → w < 65536
    → merged c w value
      ≡ (if c % 2 == 0 then w / 4096 * 4096 + value % 4096 else w % 16 + value % 4096 * 16)
unfolding merged
merged-eq c w value h = ground (
  arith,
  and_mask 1 c,
  and_mask 12 value,
  and_mask 4 w,
  and_high 12 w 15,
  and_mask 4 (w / 4096),
  or_fields_high 12 (value % 4096) (w / 4096) (omega arith),
  or_fields 4 (w % 16) (value % 4096) (omega arith),
)

-- The 32 bits of a FAT32 entry after the write: the four high bits stay.
joined-eq :
    (w value : ℕ)
    → w < 4294967296
    → bit_or (bit_and w 0xF0000000) (bit_and value 0x0FFFFFFF)
      ≡ w / 268435456 * 268435456 + value % 268435456
joined-eq w value h = ground (
  arith,
  and_mask 28 value,
  and_high 28 w 15,
  and_mask 4 (w / 268435456),
  or_fields_high 28 (value % 268435456) (w / 268435456) (omega arith),
)

module _ (c value o : ℕ) (p : Buffer) (bytes : IsBytes p) where
  le16-lt : le16 p o < 65536
  le16-lt = omega (arith, le16-sum p o (bytes o) (bytes (o + 1)), bytes o, bytes (o + 1))

  le32-lt : le32 p o < 4294967296
  le32-lt = omega (
    arith,
    le32-sum p o (bytes o) (bytes (o + 1)) (bytes (o + 2)) (bytes (o + 3)),
    bytes o,
    bytes (o + 1),
    bytes (o + 2),
    bytes (o + 3),
  )

  decode-encode_wide : decode fat32 c (encode fat32 c value p o) o ≡ value % 268435456
  unfolding decode encode
  decode-encode_wide = ground (
    arith,
    le32-wr32 p o (bit_or (bit_and (le32 p o) 0xF0000000) (bit_and value 0x0FFFFFFF)),
    joined-eq (le32 p o) value le32-lt,
    le32-lt,
    and_mask 28 (le32 p o / 268435456 * 268435456 + value % 268435456),
  )

  decode-encode_12 : decode fat12 c (encode fat12 c value p o) o ≡ value % 4096
  unfolding decode encode
  decode-encode_12 = ground (
    arith,
    le16-wr16 p o (merged c (le16 p o) value),
    merged-eq c (le16 p o) value le16-lt,
    le16-lt,
    nibbles-eq c (le16 (wr16 p o (merged c (le16 p o) value)) o),
  )

-- An entry written at an offset of a buffer of bytes reads back from there as what the type of the
-- FAT keeps of the value.
pub decode-encode :
    (t : FatType) (c value o : ℕ) (p : Buffer)
    → IsBytes p
    → decode t c (encode t c value p o) o ≡ masked t value
unfolding masked decode encode
decode-encode fat12 c value o p h = decode-encode_12 c value o p h
decode-encode fat16 c value o p h =
    ap widened {y = value % 65536} (le16-wr16 p o (u16 value) ∙ omega arith)
decode-encode fat32 c value o p h = decode-encode_wide c value o p h
decode-encode unknown c value o p h = decode-encode_wide c value o p h

-- Writing an entry keeps the buffer a buffer of bytes.
pub wr16-IsBytes : (p : Buffer) (o n : ℕ) → IsBytes p → IsBytes (wr16 p o n)
wr16-IsBytes p o n h i = ground (arith, wr16-at p o n i, h i)

pub wr32-IsBytes : (p : Buffer) (o n : ℕ) → IsBytes p → IsBytes (wr32 p o n)
wr32-IsBytes p o n h i = ground (arith, wr32-at p o n i, h i)

pub encode-IsBytes :
    (t : FatType) (c value o : ℕ) (p : Buffer) → IsBytes p → IsBytes (encode t c value p o)
unfolding encode
encode-IsBytes fat12 c value o p h = wr16-IsBytes p o (merged c (le16 p o) value) h
encode-IsBytes fat16 c value o p h = wr16-IsBytes p o (u16 value) h
encode-IsBytes fat32 c value o p h =
    wr32-IsBytes p o (bit_or (bit_and (le32 p o) 0xF0000000) (bit_and value 0x0FFFFFFF)) h
encode-IsBytes unknown c value o p h =
    wr32-IsBytes p o (bit_or (bit_and (le32 p o) 0xF0000000) (bit_and value 0x0FFFFFFF)) h

module _ (c c' : ℕ) (p : Buffer) (bytes : IsBytes p) (ne : c ≢ c') where
  wr16_other : (n : ℕ) → le16 (wr16 p (c * 2) n) (c' * 2) ≡ le16 p (c' * 2)
  unfolding le16
  wr16_other n = ground (arith, wr16-at p (c * 2) n (c' * 2), wr16-at p (c * 2) n (c' * 2 + 1))

  wr32_other : (n : ℕ) → le32 (wr32 p (c * 4) n) (c' * 4) ≡ le32 p (c' * 4)
  unfolding le32
  wr32_other n = ground (
    arith,
    wr32-at p (c * 4) n (c' * 4),
    wr32-at p (c * 4) n (c' * 4 + 1),
    wr32-at p (c * 4) n (c' * 4 + 2),
    wr32-at p (c * 4) n (c' * 4 + 3),
  )

  nibbles_other :
      (value : ℕ)
      → let o = c + c / 2 in
        let o' = c' + c' / 2 in
        nibbles c' (le16 (wr16 p o (merged c (le16 p o) value)) o') ≡ nibbles c' (le16 p o')
  nibbles_other value =
      let o = c + c / 2 in
      let o' = c' + c' / 2 in
      let n = merged c (le16 p o) value in
      let q = wr16-IsBytes p o n bytes in
      ground (
        arith,
        bytes o,
        bytes (o + 1),
        bytes o',
        bytes (o' + 1),
        wr16-at p o n o',
        wr16-at p o n (o' + 1),
        le16-sum p o (bytes o) (bytes (o + 1)),
        le16-sum p o' (bytes o') (bytes (o' + 1)),
        le16-sum (wr16 p o n) o' (q o') (q (o' + 1)),
        merged-eq c (le16 p o) value (le16-lt c value o p bytes),
        nibbles-eq c' (le16 p o'),
        nibbles-eq c' (le16 (wr16 p o n) o'),
      )

-- The byte offset without the wrap-around, for the cluster numbers of a FAT.
plain_offset : FatType → ℕ → ℕ
plain_offset fat12 c = c + c / 2
plain_offset fat16 c = c * 2
plain_offset fat32 c = c * 4
plain_offset unknown c = c * 4

fat_offset-plain : (t : FatType) (c : ℕ) → c < 268435456 → fat_offset t c ≡ plain_offset t c
unfolding fat_offset plain_offset
fat_offset-plain fat12 c h = omega arith
fat_offset-plain fat16 c h = omega arith
fat_offset-plain fat32 c h = omega arith
fat_offset-plain unknown c h = omega arith

other_plain :
    (t : FatType) (c c' value : ℕ) (p : Buffer)
    → IsBytes p
    → c ≢ c'
    → decode t c' (encode t c value p (plain_offset t c)) (plain_offset t c')
      ≡ decode t c' p (plain_offset t c')
unfolding decode encode plain_offset
other_plain fat12 c c' value p h ne = nibbles_other c c' p h ne value
other_plain fat16 c c' value p h ne = ap widened (wr16_other c c' p h ne (u16 value))
other_plain fat32 c c' value p h ne =
    ap (λ w. bit_and w 0x0FFFFFFF)
      (wr32_other c c' p h ne
        (bit_or (bit_and (le32 p (c * 4)) 0xF0000000) (bit_and value 0x0FFFFFFF)))
other_plain unknown c c' value p h ne =
    ap (λ w. bit_and w 0x0FFFFFFF)
      (wr32_other c c' p h ne
        (bit_or (bit_and (le32 p (c * 4)) 0xF0000000) (bit_and value 0x0FFFFFFF)))

-- Writing the entry of one cluster in a buffer of bytes leaves the entry of every other cluster as
-- it is, for cluster numbers below 2^28 and every type of FAT, also where two FAT12 entries share
-- a byte.
pub decode-encode_other :
    (t : FatType) (c c' value : ℕ) (p : Buffer)
    → IsBytes p
    → c < 268435456
    → c' < 268435456
    → c ≢ c'
    → decode t c' (encode t c value p (fat_offset t c)) (fat_offset t c')
      ≡ decode t c' p (fat_offset t c')
decode-encode_other t c c' value p h small small' ne =
    rw (fat_offset-plain t c small, fat_offset-plain t c' small') (other_plain t c c' value p h ne)
