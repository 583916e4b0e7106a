-- ===== src/Fat/Update.antt =====
-- `fat_set_entry` changes one entry of the table that the kernel sees.
use seolsem.Base.{
  ℕ, ◌+◌, ◌*◌, ◌/◌, ◌%◌, ◌≤◌, ◌<◌, ◌≡◌, ◌≢◌, ◌⊎◌, inl, inr, refl, sym, ◌∙◌, true, ◌==◌, arith, u16,
  bit_and, bit_or, Bool-cases,
}
use seolsem.Fat.{Drive, FatType, unknown, fat12, fat16, fat32, Volume, State}
use seolsem.Fat.Bytes.{Buffer, IsBytes, le16, le32, wr16, wr32, wr16-at, wr32-at}
use seolsem.Fat.Cache.{IsCoherent, fat_byte}
use seolsem.Fat.Table.{merged, encode}
use seolsem.Fat.Entry.{entry_width, entry_width_two, cached_byte}

-- Where `encode` stores nothing.
encode-outside :
    (t : FatType) (c value o i : ℕ) (p : Buffer)
    → (i < o) ⊎ (o + entry_width t ≤ i)
    → encode t c value p o i ≡ p i
unfolding encode
encode-outside fat12 c value o i p h = ground (arith, wr16-at p o (merged c (le16 p o) value) i)
encode-outside fat16 c value o i p h = ground (arith, wr16-at p o (u16 value) i)
encode-outside fat32 c value o i p h =
    ground
      (arith, wr32-at p o (bit_or (bit_and (le32 p o) 0xF0000000) (bit_and value 0x0FFFFFFF)) i)
encode-outside unknown c value o i p h =
    ground
      (arith, wr32-at p o (bit_or (bit_and (le32 p o) 0xF0000000) (bit_and value 0x0FFFFFFF)) i)

wr16-shift :
    (p q : Buffer) (o o' n i i' : ℕ) → i + o' ≡ i' + o → p i ≡ q i' → wr16 p o n i ≡ wr16 q o' n i'
wr16-shift p q o o' n i i' e h = ground (arith, wr16-at p o n i, wr16-at q o' n i')

wr32-shift :
    (p q : Buffer) (o o' n i i' : ℕ) → i + o' ≡ i' + o → p i ≡ q i' → wr32 p o n i ≡ wr32 q o' n i'
wr32-shift p q o o' n i i' e h = ground (arith, wr32-at p o n i, wr32-at q o' n i')

le32-agree :
    (p q : Buffer) (o o' : ℕ)
    → p o ≡ q o'
    → p (o + 1) ≡ q (o' + 1)
    → (p (o + 2) ≡ q (o' + 2)) × (p (o + 3) ≡ q (o' + 3))
    → le32 p o ≡ le32 q o'
unfolding le32
le32-agree p q o o' a b w = rw (a, b, w.0, w.1)

abbrev joined : ℕ → ℕ → ℕ
joined value w = bit_or (bit_and w 0xF0000000) (bit_and value 0x0FFFFFFF)

-- `encode` looks at the bytes of its entry only, so it may work in a part of the buffer.
encode-shift :
    (t : FatType) (c value : ℕ) (p q : Buffer) (o o' i i' : ℕ)
    → i + o' ≡ i' + o
    → p i ≡ q i'
    → p o ≡ q o'
    → p (o + 1) ≡ q (o' + 1)
    → (entry_width t ≡ 4 → (p (o + 2) ≡ q (o' + 2)) × (p (o + 3) ≡ q (o' + 3)))
    → encode t c value p o i ≡ encode t c value q o' i'
unfolding encode le16
encode-shift fat12 c value p q o o' i i' e h a b w =
    rw (a, b)
      (wr16-shift p q o o' (merged c (u16 (bit_or (q o') (u16 (q (o' + 1) * 256)))) value) i i' e h)
encode-shift fat16 c value p q o o' i i' e h a b w = wr16-shift p q o o' (u16 value) i i' e h
encode-shift fat32 c value p q o o' i i' e h a b w =
    rw (le32-agree p q o o' a b (w refl)) (wr32-shift p q o o' (joined value (le32 q o')) i i' e h)
encode-shift unknown c value p q o o' i i' e h a b w =
    rw (le32-agree p q o o' a b (w refl)) (wr32-shift p q o o' (joined value (le32 q o')) i i' e h)

module _ (drv : Drive) (v : Volume) where
  open drv use {Disk, contents_bytes}

  pub fat_byte-IsBytes : (st : State Disk) → IsCoherent drv v st → IsBytes (fat_byte drv v st)
  unfolding fat_byte
  fat_byte-IsBytes st h off = ground (
    arith,
    h.octets (off % 512),
    contents_bytes st.disk (v.fat_start_lba + off / 512) (off % 512),
  )

  -- The state after an entry at `off` is stored in the cached sector.
  abbrev pub stored : FatType → ℕ → ℕ → ℕ → State Disk → State Disk
  stored t c value off st = record st {
    fat_sector = encode t c value st.fat_sector (off % 512);
    dirty = true;
  }

  -- In the table that the kernel sees, the entry is stored at `off`.
  pub fat_byte-stored :
      (t : FatType) (c value off : ℕ) (st : State Disk) (x : ℕ)
      → st.cur_lba ≡ v.fat_start_lba + off / 512
      → off % 512 + entry_width t ≤ 512
      → fat_byte drv v (stored t c value off st) x ≡ encode t c value (fat_byte drv v st) off x
  fat_byte-stored t c value off st x cur one = elim (Bool-cases (x / 512 == off / 512)) [
    | inl e ↦
        sym (
          cached_byte drv v (stored t c value off st) off x (x % 512) cur (omega arith)
            (ground arith) refl)
        ∙ encode-shift t c value st.fat_sector (fat_byte drv v st) (off % 512) off (x % 512) x
            (ground arith)
            (cached_byte drv v st off x (x % 512) cur (omega arith) (ground arith) refl)
            (cached_byte drv v st off off (off % 512) cur (omega arith) refl refl)
            (cached_byte drv v st off (off + 1) (off % 512 + 1) cur
              (omega (arith, entry_width_two t)) (omega (arith, entry_width_two t))
              (omega (arith, entry_width_two t)))
            (λ w. (
              cached_byte drv v st off (off + 2) (off % 512 + 2) cur (omega arith) (omega arith)
                  (omega arith),
              cached_byte drv v st off (off + 3) (off % 512 + 3) cur (omega arith) (omega arith)
                  (omega arith),
            ))
    | inr n ↦
        elsewhere (ground arith)
        ∙ sym (encode-outside t c value off x (fat_byte drv v st) (ground arith))
  ]
    where
      elsewhere :
          x / 512 ≢ off / 512 → fat_byte drv v (stored t c value off st) x ≡ fat_byte drv v st x
      elsewhere ne = unfold fat_byte in ground arith
