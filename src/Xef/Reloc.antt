-- ===== src/Xef/Reloc.antt =====
-- Where `xef_apply_relocs` writes, and what a second pass over a record does.
use seolsem.Base.{
  ℕ, zero, suc, ◌+◌, ◌*◌, ◌≤◌, ◌<◌, ◌≡◌, ◌⊎◌, refl, ◌∙◌, Bool, false, Option, none, some, List,
  arith, ltb, leb, ◌==◌, u16, get_or, if◌then◌else◌, if_rule,
}
use seolsem.Fat.Bytes.{le16, wr16, wr16-at, le16-wr16}
use seolsem.Mem.Block.{Memory}
use seolsem.Xef.{NativeMeta, reloc_base16, reloc_import16}
use seolsem.Xef.Image.{LoadArea, reloc_step, reloc_loop, xef_apply_relocs}

-- `m'` has the bytes of `m` outside `[lo, hi)`.
abbrev pub KeepsOutside : ℕ → ℕ → Memory → Memory → Type 0
KeepsOutside lo hi m m' = (a : ℕ) → (a < lo) ⊎ (hi ≤ a) → m' a ≡ m a

abbrev area_end : LoadArea → ℕ
area_end area = area.load_base + area.load_size

wr16-KeepsOutside :
    (lo hi w n : ℕ) (m : Memory) → lo ≤ w → w + 2 ≤ hi → KeepsOutside lo hi m (wr16 m w n)
wr16-KeepsOutside lo hi w n m h k a out = ground (arith, wr16-at m w n a)

module _ (area : LoadArea) (meta : NativeMeta) (import_addr : List ℕ) where
  -- The result of a step, if it is not FALSE, keeps what lies outside the area.
  abbrev StepKeeps : Memory → Option Memory → Type 0
  StepKeeps m none = Unit {0}
  StepKeeps m (some m') = KeepsOutside area.load_base (area_end area) m m'

  reloc_step-KeepsOutside :
      (rec : ℕ) (m : Memory) → StepKeeps m (reloc_step area meta import_addr rec m)
  unfolding reloc_step
  reloc_step-KeepsOutside rec m =
      let patch_off = le16 m rec in
      let word = area.load_base + patch_off in
      let cur = le16 m word in
      let moved = wr16 m word (u16 (cur + area.load_base)) in
      let bound = wr16 m word (get_or import_addr (m (rec + 3)) 0) in
      let keeps = wr16-KeepsOutside area.load_base (area_end area) word in
      if_rule (StepKeeps m) (ltb area.load_size (patch_off + 2)) none
        (if m (rec + 2) == reloc_base16
          then if ltb cur area.load_size then some moved else some m
          else if m (rec + 2) == reloc_import16
          then if leb meta.import_count (m (rec + 3)) then none else some bound
          else none)
        (λ e. tt)
        λ fits.
          if_rule (StepKeeps m) (m (rec + 2) == reloc_base16)
            (if ltb cur area.load_size then some moved else some m)
            (if m (rec + 2) == reloc_import16
              then if leb meta.import_count (m (rec + 3)) then none else some bound
              else none)
            (λ e.
              if_rule (StepKeeps m) (ltb cur area.load_size) (some moved) (some m)
                (λ _. keeps (u16 (cur + area.load_base)) m (omega arith) (ground arith))
                λ _ a out. refl)
            λ n.
              if_rule (StepKeeps m) (m (rec + 2) == reloc_import16)
                (if leb meta.import_count (m (rec + 3)) then none else some bound) none
                (λ e.
                  if_rule (StepKeeps m) (leb meta.import_count (m (rec + 3))) none (some bound)
                    (λ _. tt)
                    λ _. keeps (get_or import_addr (m (rec + 3)) 0) m (omega arith) (ground arith))
                λ _. tt

  loop_after :
      (image left i : ℕ) (m : Memory) (o : Option Memory)
      → StepKeeps m o
      → ((m' : Memory)
          → KeepsOutside area.load_base
              (area_end area)
              m'
              (reloc_loop area image meta import_addr left (i + 1) m').1)
      → KeepsOutside area.load_base
          (area_end area)
          m
          (elim o as (λ x. Bool × Memory) [
            | none ↦ (false, m)
            | some m' ↦ reloc_loop area image meta import_addr left (i + 1) m'
          ]).1
  loop_after image left i m none h k a out = refl
  loop_after image left i m (some m') h k a out = k m' a out ∙ h a out

  reloc_loop-KeepsOutside :
      (image left i : ℕ) (m : Memory)
      → KeepsOutside area.load_base
          (area_end area)
          m
          (reloc_loop area image meta import_addr left i m).1
  unfolding reloc_loop
  reloc_loop-KeepsOutside image zero i m = λ a out. refl
  reloc_loop-KeepsOutside image (suc left) i m =
      loop_after image left i m
        (reloc_step area meta import_addr (image + meta.reloc_off + u16 (i * 4)) m)
        (reloc_step-KeepsOutside (image + meta.reloc_off + u16 (i * 4)) m)
        (λ m'. reloc_loop-KeepsOutside image left (i + 1) m')

  -- xef_apply_relocs, whatever the relocation records and the import addresses and whether it
  -- succeeds or not, changes no byte of memory outside the load area that it is given.
  pub xef_apply_relocs-KeepsOutside :
      (image : ℕ) (m : Memory)
      → KeepsOutside area.load_base
          (area.load_base + area.load_size)
          m
          (xef_apply_relocs area image meta import_addr m).1
  unfolding xef_apply_relocs
  xef_apply_relocs-KeepsOutside image m = reloc_loop-KeepsOutside image meta.reloc_count 0 m

-- A record whose word the base was added to, with the record itself outside that word.
pub record IsRebased (area : LoadArea) (rec : ℕ) (m : Memory) : Type 0 where
  pub is_base : m (rec + 2) ≡ reloc_base16
  pub fits : le16 m rec + 2 ≤ area.load_size
  pub offset : le16 m (area.load_base + le16 m rec) < area.load_size
  pub apart : (rec + 4 ≤ area.load_base + le16 m rec) ⊎ (area.load_base + le16 m rec + 2 ≤ rec)

module _ (area : LoadArea) (meta : NativeMeta) (import_addr : List ℕ) (rec : ℕ) (m : Memory) where
  abbrev word : ℕ
  word = area.load_base + le16 m rec

  rebased : Memory
  rebased = wr16 m word (u16 (le16 m word + area.load_base))

  first_pass : IsRebased area rec m → reloc_step area meta import_addr rec m ≡ some rebased
  unfolding reloc_step rebased
  first_pass h = ground (arith, h.is_base, h.fits, h.offset)

  rebased-at : (a : ℕ) → IsRebased area rec m → rec ≤ a → a < rec + 4 → rebased a ≡ m a
  unfolding rebased
  rebased-at a h lo hi =
      let at = area.load_base + le16 m rec in
      ground (arith, wr16-at m at (u16 (le16 m at + area.load_base)) a, h.apart)

  rebased-record :
      IsRebased area rec m → (le16 rebased rec ≡ le16 m rec) × (rebased (rec + 2) ≡ reloc_base16)
  unfolding le16
  rebased-record h = (
    rw (
      rebased-at rec h (omega arith) (omega arith),
      rebased-at (rec + 1) h (omega arith) (omega arith),
    ),
    rebased-at (rec + 2) h (omega arith) (omega arith) ∙ h.is_base,
  )

  rebased-word : le16 rebased word ≡ u16 (le16 m word + area.load_base)
  unfolding rebased
  rebased-word = le16-wr16 m word (u16 (le16 m word + area.load_base)) ∙ omega arith

  second_pass :
      IsRebased area rec m
      → reloc_step area meta import_addr rec rebased ≡ (
          if ltb (u16 (le16 m word + area.load_base)) area.load_size
          then some (wr16 rebased word (u16 (u16 (le16 m word + area.load_base) + area.load_base)))
          else some rebased)
  unfolding reloc_step
  second_pass h =
      let (same, kind) = rebased-record h in rw (same, kind, rebased-word) (ground (arith, h.fits))

  -- A base relocation whose word lies in the load area, holds an offset below the size of the area
  -- and does not overlap the record: it adds the base to the word modulo 2^16. A second pass over
  -- the record changes nothing if the word is then at least the size of the area, and adds the
  -- base again if it is below.
  pub reloc_step-again :
      IsRebased area rec m
      → let at = area.load_base + le16 m rec in
        (m' : Memory) × (reloc_step area meta import_addr rec m ≡ some m')
        × (le16 m' at ≡ u16 (le16 m at + area.load_base))
        × (area.load_size ≤ le16 m' at → reloc_step area meta import_addr rec m' ≡ some m')
        × (le16 m' at < area.load_size
            → reloc_step area meta import_addr rec m'
              ≡ some (wr16 m' at (u16 (le16 m' at + area.load_base))))
  reloc_step-again h = (
    rebased,
    first_pass h,
    rebased-word,
    λ l. ground (arith, second_pass h, rebased-word, l),
    λ l. ground (arith, second_pass h, rebased-word, l),
  )
