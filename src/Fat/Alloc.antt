-- ===== src/Fat/Alloc.antt =====
-- kernel/sima_fs.c, the allocation of clusters: `fat_find_free_cluster`, `fat_free_chain`,
-- `fat_alloc_chain`. A loop over clusters is a recursion on the rounds left.
use seolsem.Base.{
  ℕ, zero, suc, ◌+◌, ◌-◌, Bool, true, false, ◌||◌, Option, none, some, ltb, leb, ◌==◌,
  if◌then◌else◌, u32,
}
use seolsem.Fat.{Drive, Volume, State}
use seolsem.Fat.Table.{
  fat_max_cluster, fat_get_entry, fat_set_entry, fat_next_cluster, fat_eoc_marker, is_fat12,
}

abbrev pub fat_free_cluster : ℕ
fat_free_cluster = 0

module _ (drv : Drive) (v : Volume) where
  open drv use {Disk}

  abbrev pub with_hint : ℕ → State Disk → State Disk
  with_hint n st = record st { alloc_hint = n }

  -- The hint after `cluster` was found.
  unfoldable pub next_hint : ℕ → ℕ
  next_hint cluster = if ltb (fat_max_cluster v) (u32 (cluster + 1)) then 2 else u32 (cluster + 1)

  -- One round of a scan: the entry of `cluster`, and what to do if it is taken.
  unfoldable pub look :
      ℕ → ℕ × State Disk → (State Disk → Option ℕ × State Disk) → Option ℕ × State Disk
  unfolding next_hint
  look cluster (val, st) next =
      if val == fat_free_cluster then (some cluster, with_hint (next_hint cluster) st) else next st

  unfoldable pub scan : ℕ → ℕ → State Disk → Option ℕ × State Disk
  unfolding look
  scan zero cluster st = (none, st)
  scan (suc left) cluster st =
      look cluster (fat_get_entry drv v cluster st) (λ st'. scan left (cluster + 1) st')

  -- The second loop is entered only if the first finds nothing.
  unfoldable pub or_else :
      Option ℕ × State Disk → (State Disk → Option ℕ × State Disk) → Option ℕ × State Disk
  or_else (some c, st) next = (some c, st)
  or_else (none, st) next = next st

  unfoldable pub scan_start : State Disk → ℕ
  scan_start st =
      if ltb st.alloc_hint 2 || ltb (fat_max_cluster v) st.alloc_hint then 2 else st.alloc_hint

  unfoldable pub fat_find_free_cluster : State Disk → Option ℕ × State Disk
  fat_find_free_cluster st =
      let max = fat_max_cluster v in
      let start = scan_start st in
      if ltb max 2
      then (none, st)
      else or_else (scan (max + 1 - start) start st) (λ st'. scan (start - 2) 2 st')

  -- The loop of `fat_free_chain`; `iter` never passes `max_iter`, which bounds the rounds.
  unfoldable pub free_loop : ℕ → ℕ → State Disk → Bool × State Disk
  free_loop zero cluster st = (true, st)
  free_loop (suc left) cluster st =
      let (next, st₁) = fat_next_cluster drv v cluster st in
      let (done, st₂) = fat_set_entry drv v cluster fat_free_cluster st₁ in
      let rest = free_loop left next st₂ in
      if ltb cluster 2 then (true, st) else if done then rest else (false, st₂)

  unfoldable pub fat_free_chain : ℕ → State Disk → Bool × State Disk
  unfolding free_loop
  fat_free_chain first_cluster st = free_loop (fat_max_cluster v + 1) first_cluster st

  -- `if (first >= 2) (void)fat_free_chain(first); return FALSE;`
  unfoldable pub give_up : ℕ → State Disk → Option ℕ × State Disk
  unfolding fat_free_chain
  give_up first st = if leb 2 first then (none, (fat_free_chain first st).1) else (none, st)

  unfoldable pub link : ℕ → ℕ → State Disk → Bool × State Disk
  link prev cluster st = if leb 2 prev then fat_set_entry drv v prev cluster st else (true, st)

  -- The loop of `fat_alloc_chain` with `left` clusters to go, and the store of the end mark.
  unfoldable pub alloc_loop : ℕ → ℕ → ℕ → State Disk → Option ℕ × State Disk
  unfolding give_up link fat_find_free_cluster
  alloc_loop zero first prev st =
      let (done, st₁) = link prev (fat_eoc_marker v) st in
      if done then (some first, st₁) else give_up first st₁
  alloc_loop (suc left) first prev st = elim (fat_find_free_cluster st).0 [
    | none ↦ give_up first (fat_find_free_cluster st).1
    | some cluster ↦
        let first' = if first == 0 then cluster else first in
        let (marked, st₂) =
          fat_set_entry drv v cluster (fat_eoc_marker v) (fat_find_free_cluster st).1 in
        let (linked, st₃) = link prev cluster st₂ in
        let rest = alloc_loop left first' cluster st₃ in
        if marked
        then if linked
          then rest
          else give_up first' (fat_set_entry drv v cluster fat_free_cluster st₃).1
        else give_up first' st₂
  ]

  -- The first cluster of a new chain, or `none` for FALSE; an empty chain begins at 0.
  unfoldable pub fat_alloc_chain : ℕ → State Disk → Option ℕ × State Disk
  unfolding alloc_loop
  fat_alloc_chain count st =
      if count == 0
      then (some 0, st)
      else if is_fat12 v.fat_type
      then (none, st)
      else alloc_loop count 0 0 st
