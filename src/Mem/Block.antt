-- ===== src/Mem/Block.antt =====
-- kernel/sima_mem.c, the functions on blocks of bytes: `sima_memclr`, `sima_memset`,
-- `sima_memcpy`, `sima_memmove`, `sima_memcmp`. Blocks may overlap, so they live in one memory,
-- a byte for each address; a pointer is an address, or `none` for NULL. Objects do not wrap around
-- the end of the segment, so an address is a plain number.
use native.Mathlib.Nat.{add-zero}
use seolsem.Base.{
  ℕ, zero, suc, ◌+◌, ◌-◌, ◌≤◌, ◌<◌, ◌≡◌, ◌≢◌, ◌↔◌, ◌⊎◌, inl, refl, ap, Bool, true, false, ◌&&◌,
  ◌||◌, Option, none, some, arith, ltb, leb, ◌==◌, if◌then◌else◌,
}

abbrev pub Memory : Type 0
Memory = ℕ → ℕ

abbrev store : ℕ → ℕ → Memory → Memory
store a v m b = if a == b then v else m b

-- `for (i = 0; i < n; ++i) d[i] = value`, with `left` rounds to go.
set_loop : ℕ → ℕ → ℕ → Memory → Memory
set_loop zero d value m = m
set_loop (suc left) d value m = set_loop left (d + 1) value (store d value m)

pub sima_memset : Option ℕ → ℕ → ℕ → Memory → Memory × Bool
sima_memset none value n m = (m, false)
sima_memset (some d) value n m = (set_loop n d value m, true)

pub sima_memclr : Option ℕ → ℕ → Memory → Memory × Bool
sima_memclr none size m = (m, false)
sima_memclr (some buffer) size m = (set_loop size buffer 0 m, true)

-- `for (i = 0; i < n; ++i) d[i] = s[i]`
up_loop : ℕ → ℕ → ℕ → Memory → Memory
up_loop zero d s m = m
up_loop (suc left) d s m = up_loop left (d + 1) (s + 1) (store d (m s) m)

-- `for (i = n; i > 0; --i) d[i - 1] = s[i - 1]`
down_loop : ℕ → ℕ → ℕ → Memory → Memory
down_loop zero d s m = m
down_loop (suc i) d s m = down_loop i d s (store (d + i) (m (s + i)) m)

abbrev overlap : ℕ → ℕ → ℕ → Bool
overlap d s n = ltb d s && ltb s (d + n) || ltb s d && ltb d (s + n)

pub sima_memcpy : Option ℕ → Option ℕ → ℕ → Memory → Memory × Bool
sima_memcpy none src n m = (m, false)
sima_memcpy (some d) none n m = (m, false)
sima_memcpy (some d) (some s) n m = if overlap d s n then (m, false) else (up_loop n d s m, true)

pub sima_memmove : Option ℕ → Option ℕ → ℕ → Memory → Memory × Bool
sima_memmove none src n m = (m, false)
sima_memmove (some d) none n m = (m, false)
sima_memmove (some d) (some s) n m =
    if d == s || n == 0
    then (m, true)
    else if ltb d s
    then (up_loop n d s m, true)
    else (down_loop n d s m, true)

-- MEMC
pub data Memc : Type 0 where
  same diff error : Memc

memcmp_loop : ℕ → ℕ → ℕ → Memory → Memc
memcmp_loop zero a b m = same
memcmp_loop (suc left) a b m = if m a == m b then memcmp_loop left (a + 1) (b + 1) m else diff

pub sima_memcmp : Option ℕ → Option ℕ → ℕ → Memory → Memc
sima_memcmp a b zero m = same
sima_memcmp none b (suc n) m = error
sima_memcmp (some a) none (suc n) m = error
sima_memcmp (some a) (some b) (suc n) m = memcmp_loop (suc n) a b m

-- The memory in which `[d, d + n)` has the bytes that `[s, s + n)` had before.
abbrev pub moved : ℕ → ℕ → ℕ → Memory → Memory
moved d s n m a = if leb d a && ltb a (d + n) then m (s + (a - d)) else m a

up_loop-eq :
    (n d s : ℕ) (m : Memory) (a : ℕ) → (d ≤ s) ⊎ (s + n ≤ d) → up_loop n d s m a ≡ moved d s n m a
unfolding up_loop
up_loop-eq zero d s m a h = ground arith
up_loop-eq (suc n) d s m a h =
    let shift : d < a → m (s + 1 + (a - (d + 1))) ≡ m (s + (a - d)) = λ p. ap m (omega arith) in
    ground (arith, up_loop-eq n (d + 1) (s + 1) (store d (m s) m) a (grind arith), shift)

down_loop-eq : (n d s : ℕ) (m : Memory) (a : ℕ) → s ≤ d → down_loop n d s m a ≡ moved d s n m a
unfolding down_loop
down_loop-eq zero d s m a h = ground arith
down_loop-eq (suc n) d s m a h =
    let at_end : a ≡ d + n → m (s + n) ≡ m (s + (a - d)) = λ p. ap m (omega arith) in
    ground (arith, down_loop-eq n d s (store (d + n) (m (s + n)) m) a h, at_end)

-- sima_memmove of non-NULL blocks succeeds, gives the destination the bytes that the source had
-- before however the two overlap, and changes no byte outside the destination.
pub sima_memmove-moved :
    (d s n : ℕ) (m : Memory) (a : ℕ)
    → ((sima_memmove (some d) (some s) n m).0 a ≡ moved d s n m a)
      × ((sima_memmove (some d) (some s) n m).1 ≡ true)
unfolding sima_memmove
sima_memmove-moved d s n m a =
    let here : d ≤ a → d ≡ s → m a ≡ m (s + (a - d)) = λ p q. ap m (omega arith) in
    (
      ground (
        arith,
        here,
        λ (h : d ≤ s). up_loop-eq n d s m a (inl h),
        λ (h : s ≤ d). down_loop-eq n d s m a h,
      ),
      ground arith,
    )

-- sima_memcpy refuses two blocks at different addresses that share a byte, leaving the memory as
-- it was; if the addresses are equal or the blocks share no byte it leaves the memory that
-- sima_memmove leaves.
pub sima_memcpy-moved :
    (d s n : ℕ) (m : Memory) (a : ℕ)
    → ((d ≢ s) × (d < s + n) × (s < d + n) → sima_memcpy (some d) (some s) n m ≡ (m, false))
      × ((d ≡ s) ⊎ (s + n ≤ d) ⊎ (d + n ≤ s)
          → (sima_memcpy (some d) (some s) n m).0 a ≡ (sima_memmove (some d) (some s) n m).0 a)
unfolding sima_memcpy
sima_memcpy-moved d s n m a = (
  λ h. ground arith,
  λ h.
      ground (
        arith,
        sima_memmove-moved d s n m a,
        λ (p : (d ≤ s) ⊎ (s + n ≤ d)). up_loop-eq n d s m a p,
      ),
)

set_loop-eq :
    (n d v : ℕ) (m : Memory) (a : ℕ)
    → set_loop n d v m a ≡ (if leb d a && ltb a (d + n) then v else m a)
unfolding set_loop
set_loop-eq zero d v m a = ground arith
set_loop-eq (suc n) d v m a = ground (arith, set_loop-eq n (d + 1) v (store d v m) a)

-- `sima_memset` fills exactly `[d, d + n)`.
pub sima_memset-fills :
    (d v n : ℕ) (m : Memory) (a : ℕ)
    → (sima_memset (some d) v n m).0 a ≡ (if leb d a && ltb a (d + n) then v else m a)
unfolding sima_memset
sima_memset-fills d v n m a = set_loop-eq n d v m a

memcmp_loop-same :
    (n a b : ℕ) (m : Memory) → memcmp_loop n a b m ≡ same → (i : ℕ) → i < n → m (a + i) ≡ m (b + i)
unfolding memcmp_loop
memcmp_loop-same zero a b m h i l = absurd (omega arith)
memcmp_loop-same (suc n) a b m h zero l = rw (add-zero a, add-zero b) (ground arith)
memcmp_loop-same (suc n) a b m h (suc i) l =
    rw (← shift a, ← shift b) (memcmp_loop-same n (a + 1) (b + 1) m (ground arith) i (omega arith))
  where
    shift : (c : ℕ) → c + 1 + i ≡ c + suc i
    shift c = omega arith

memcmp_loop-agree :
    (n a b : ℕ) (m : Memory)
    → ((i : ℕ) → i < n → m (a + i) ≡ m (b + i))
    → memcmp_loop n a b m ≡ same
unfolding memcmp_loop
memcmp_loop-agree zero a b m h = refl
memcmp_loop-agree (suc n) a b m h =
    let head : m a ≡ m b = rw (← add-zero a, ← add-zero b) (h 0 (omega arith)) in
    ground (
      arith,
      head,
      memcmp_loop-agree n (a + 1) (b + 1) m
          (λ i l. rw (shift a i, shift b i) (h (suc i) (omega arith))),
    )
  where
    shift : (c i : ℕ) → c + 1 + i ≡ c + suc i
    shift c i = omega arith

-- sima_memcmp of two non-NULL blocks says MEMC_SAME exactly when they agree byte for byte.
pub sima_memcmp-same :
    (a b n : ℕ) (m : Memory)
    → (sima_memcmp (some a) (some b) n m ≡ same) ↔ ((i : ℕ) → i < n → m (a + i) ≡ m (b + i))
unfolding sima_memcmp
sima_memcmp-same a b zero m = (λ e i l. absurd (omega arith), λ h. refl)
sima_memcmp-same a b (suc n) m = (memcmp_loop-same (suc n) a b m, memcmp_loop-agree (suc n) a b m)
