-- ===== src/Fat/Partition.antt =====
-- kernel/sima_fs.c, what a mount reads before the geometry: `fat_calc_spc_shift` and
-- `mbr_find_partition_start`.
use native.Mathlib.Nat.{pow-suc, one-le-pow}
use seolsem.Base.{
  ℕ, zero, suc, ◌+◌, ◌*◌, ◌/◌, ◌%◌, ◌^◌, ◌≤◌, ◌<◌, ◌≡◌, ◌↔◌, ◌⊎◌, inl, inr, ap, sym, ◌∙◌, Bool, not,
  ◌&&◌, List, [], ◌∷◌, Option, none, some, ◌==◌, if◌then◌else◌, arith,
}
use seolsem.Base.Bits.{and_mask}
use seolsem.Fat.Bytes.{Buffer, le32}
use seolsem.Fat.Mount.{
  entry_at, partition_loop, has_signature, mbr_find_partition_start, shift_loop, fat_calc_spc_shift,
}

halved : (q s : ℕ) → q * 2 ^ (s + 1) ≡ q * 2 * 2 ^ s
halved q s =
    let e : s + 1 ≡ suc s = omega arith in ap (λ k. q * 2 ^ k) e ∙ grind (arith, pow-suc 2 s)

shift_loop-pow : (left n s k : ℕ) → shift_loop left n s ≡ some k → (n * 2 ^ s ≡ 2 ^ k) × (k ≤ 7)
unfolding shift_loop
shift_loop-pow zero n s k h = cc
shift_loop-pow (suc left) n s k h = elim (compare-cases n) [
  | inl even ↦
      let rest = shift_loop-pow left (n / 2) (s + 1) k (ground (arith, and_mask 1 n)) in
      (ap (λ (t : ℕ). t * 2 ^ s) (omega arith) ∙ sym (halved (n / 2) s) ∙ rest.0, rest.1)
  | inr odd ↦ (ground (arith, and_mask 1 n), ground (arith, and_mask 1 n))
]
  where
    compare-cases : (m : ℕ) → (m % 2 ≡ 0) ⊎ (m % 2 ≡ 1)
    compare-cases m = ground arith

shift_loop-shift : (left j s : ℕ) → j < left → s + j ≤ 7 → shift_loop left (2 ^ j) s ≡ some (s + j)
unfolding shift_loop
shift_loop-shift zero j s h b = absurd (omega arith)
shift_loop-shift (suc left) zero s h b = ground arith
shift_loop-shift (suc left) (suc j) s h b =
    let half : 2 ^ suc j / 2 ≡ 2 ^ j = omega (arith, pow-suc 2 j) in
    let moved : s + 1 + j ≡ s + suc j = omega arith in
    ground (
      arith,
      pow-suc 2 j,
      and_mask 1 (2 ^ suc j),
      ap (λ t. shift_loop left t (s + 1)) half
          ∙ shift_loop-shift left j (s + 1) (omega arith) (omega arith)
          ∙ ap some moved,
    )

-- fat_calc_spc_shift succeeds exactly on the powers of two from 1 to 128, with the exponent.
pub fat_calc_spc_shift_iff : (n k : ℕ) → (fat_calc_spc_shift n ≡ some k) ↔ ((n ≡ 2 ^ k) × (k ≤ 7))
unfolding fat_calc_spc_shift
fat_calc_spc_shift_iff n k = (there, back)
  where
    there : (if n == 0 then none else shift_loop 8 n 0) ≡ some k → (n ≡ 2 ^ k) × (k ≤ 7)
    there h = let found = shift_loop-pow 8 n 0 k (ground arith) in (omega (arith, found.0), found.1)

    back : (n ≡ 2 ^ k) × (k ≤ 7) → (if n == 0 then none else shift_loop 8 n 0) ≡ some k
    back h = ground (
      arith,
      one-le-pow k 2,
      h.0,
      ap (λ t. shift_loop 8 t 0) h.0
          ∙ shift_loop-shift 8 k 0 (omega (arith, h.1)) (omega (arith, h.1)),
    )

abbrev start_of : Buffer → ℕ → ℕ
start_of mbr i = le32 mbr (entry_at i + 8)

-- An entry of the partition table that names a partition, and one that is active too.
abbrev pub usable : Buffer → ℕ → Bool
usable mbr i = not (mbr (entry_at i + 4) == 0) && not (start_of mbr i == 0)

abbrev pub active : Buffer → ℕ → Bool
active mbr i = usable mbr i && mbr (entry_at i) == 0x80

-- The start of the first of some entries that passes a test.
pub first_start : (ℕ → Bool) → Buffer → List ℕ → Option ℕ
first_start ok mbr [] = none
first_start ok mbr (i ∷ entries) =
    if ok i then some (start_of mbr i) else first_start ok mbr entries

abbrev entries_from : ℕ → ℕ → List ℕ
entries_from zero i = []
entries_from (suc left) i = i ∷ entries_from left (i + 1)

last_usable : Buffer → ℕ → ℕ → ℕ → ℕ
last_usable mbr zero i fallback = fallback
last_usable mbr (suc left) i fallback =
    last_usable mbr left (i + 1) (if usable mbr i then start_of mbr i else fallback)

abbrev or_start : Option ℕ → Option ℕ → Option ℕ
or_start (some s) o = some s
or_start none o = o

partition_loop-eq :
    (mbr : Buffer) (left i fallback : ℕ)
    → partition_loop left mbr i fallback
      ≡ or_start (first_start (active mbr) mbr (entries_from left i)) (
          if last_usable mbr left i fallback == 0
          then none
          else some (last_usable mbr left i fallback))
unfolding partition_loop first_start last_usable
partition_loop-eq mbr zero i fallback = ground arith
partition_loop-eq mbr (suc left) i fallback = ground (
  arith,
  partition_loop-eq mbr left (i + 1) fallback,
  partition_loop-eq mbr left (i + 1) (start_of mbr i),
)

last_usable-first :
    (mbr : Buffer)
    → (if last_usable mbr 4 0 0 == 0 then none else some (last_usable mbr 4 0 0))
      ≡ first_start (usable mbr) mbr (3 ∷ 2 ∷ 1 ∷ 0 ∷ [])
unfolding first_start last_usable
last_usable-first mbr = ground arith

-- mbr_find_partition_start on every sector: without the signature it finds nothing; with it, it
-- gives the start of the first of the four entries that is active and not empty, and if there is
-- none, of the last one that is not empty.
pub mbr_find_partition_start-Chosen :
    (mbr : Buffer)
    → mbr_find_partition_start mbr ≡ (
        if has_signature mbr
        then elim (first_start (active mbr) mbr (0 ∷ 1 ∷ 2 ∷ 3 ∷ [])) [
          | some s ↦ some s
          | none ↦ first_start (usable mbr) mbr (3 ∷ 2 ∷ 1 ∷ 0 ∷ [])
        ]
        else none)
unfolding mbr_find_partition_start
mbr_find_partition_start-Chosen mbr =
    ground (arith, partition_loop-eq mbr 4 0 0, last_usable-first mbr)
