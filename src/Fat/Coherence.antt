-- ===== src/Fat/Coherence.antt =====
-- The operations that change the table keep the sector cache in order, whatever transfers fail:
-- `fat_set_entry`, `fat_free_chain` and `fat_alloc_chain`.
use mathlib.Core.Option.{some-injective}
use mathlib.Core.Path.{subst}
use seolsem.Base.{
  ℕ, zero, suc, ◌+◌, ◌≤◌, ◌<◌, ◌≡◌, ◌⊎◌, inl, inr, refl, Bool, true, false, Option, none, some, ltb,
  leb, ◌==◌, if◌then◌else◌, if_rule, Bool-cases, arith,
}
use seolsem.Fat.{Drive, Volume, State, fat_flush_fat_sector}
use seolsem.Fat.Cache.{IsLaidOut, IsCoherent, fat_flush_fat_sector-SameTable}
use seolsem.Fat.Table.{
  fat_cluster_is_valid, fat_max_cluster, fat_get_entry, fat_set_entry, fat_next_cluster,
  fat_eoc_marker, is_fat12,
}
use seolsem.Fat.Entry.{Covers, fat_get_entry-Gets}
use seolsem.Fat.Write.{IsSized, fat_set_entry-Sets}
use seolsem.Fat.Alloc.{
  fat_free_cluster, fat_find_free_cluster, free_loop, fat_free_chain, give_up, link, alloc_loop,
  fat_alloc_chain,
}
use seolsem.Fat.Free.{fat_find_free_cluster-Finds}

module _ (drv : Drive) (v : Volume) (laid : IsLaidOut v) (covers : Covers v)
    (sized : IsSized v) where
  open drv use {Disk}

  abbrev C : State Disk → Type 0
  C st = IsCoherent drv v st

  pub fat_flush_fat_sector-IsCoherent :
      (st : State Disk) → C st → C (fat_flush_fat_sector drv v st).1
  fat_flush_fat_sector-IsCoherent st h = (fat_flush_fat_sector-SameTable drv v laid st h).coherent

  pub fat_set_entry-IsCoherent :
      (c value : ℕ) (st : State Disk) → C st → C (fat_set_entry drv v c value st).1
  fat_set_entry-IsCoherent c value st h = elim (Bool-cases (fat_cluster_is_valid v c)) [
    | inl valid ↦ (fat_set_entry-Sets drv v laid covers sized c value st h valid).coherent
    | inr invalid ↦ unfold fat_set_entry in rw invalid h
  ]

  fat_get_entry-IsCoherent : (c : ℕ) (st : State Disk) → C st → C (fat_get_entry drv v c st).1
  fat_get_entry-IsCoherent c st h = elim (Bool-cases (fat_cluster_is_valid v c)) [
    | inl valid ↦ (fat_get_entry-Gets drv v laid c st covers h valid).same.coherent
    | inr invalid ↦ unfold fat_get_entry in rw invalid h
  ]

  fat_next_cluster-IsCoherent : (c : ℕ) (st : State Disk) → C st → C (fat_next_cluster drv v c st).1
  unfolding fat_next_cluster
  fat_next_cluster-IsCoherent c st h =
      if_rule (λ (r : ℕ × State Disk). C r.1) (fat_cluster_is_valid v c) _ _
        (λ e. fat_get_entry-IsCoherent c st h) λ e. fat_get_entry-IsCoherent c st h

  free_loop-IsCoherent : (left c : ℕ) (st : State Disk) → C st → C (free_loop drv v left c st).1
  unfolding free_loop
  free_loop-IsCoherent zero c st h = h
  free_loop-IsCoherent (suc left) c st h =
      let (next, st₁) = fat_next_cluster drv v c st in
      let (freed, st₂) = fat_set_entry drv v c fat_free_cluster st₁ in
      let h₂ =
        fat_set_entry-IsCoherent c fat_free_cluster st₁ (fat_next_cluster-IsCoherent c st h) in
      if_rule (λ (r : Bool × State Disk). C r.1) (ltb c 2) (true, st)
        (if freed then free_loop drv v left next st₂ else (false, st₂)) (λ e. h)
        λ e.
          if_rule (λ (r : Bool × State Disk). C r.1) freed (free_loop drv v left next st₂)
            (false, st₂) (λ e'. free_loop-IsCoherent left next st₂ h₂) λ e'. h₂

  pub fat_free_chain-IsCoherent : (c : ℕ) (st : State Disk) → C st → C (fat_free_chain drv v c st).1
  unfolding fat_free_chain
  fat_free_chain-IsCoherent c st h = free_loop-IsCoherent (fat_max_cluster v + 1) c st h

  -- A result of an allocation: the cache is in order, and a chain of a cluster or more begins at a
  -- cluster of the volume.
  pub record Allocates (r : Option ℕ × State Disk) : Type 0 where
    pub coherent : C r.1
    pub valid : (c : ℕ) → r.0 ≡ some c → fat_cluster_is_valid v c ≡ true

  give_up-Allocates : (first : ℕ) (st : State Disk) → C st → Allocates (give_up drv v first st)
  unfolding give_up
  give_up-Allocates first st h =
      if_rule Allocates (leb 2 first) _ _
        (λ e. record { coherent = fat_free_chain-IsCoherent first st h; valid = λ c. cc })
        λ e. record { coherent = h; valid = λ c. cc }

  link-IsCoherent : (prev value : ℕ) (st : State Disk) → C st → C (link drv v prev value st).1
  unfolding link
  link-IsCoherent prev value st h =
      if_rule (λ (r : Bool × State Disk). C r.1) (leb 2 prev) _ _
        (λ e. fat_set_entry-IsCoherent prev value st h) λ e. h

  valid_of_found : (c : ℕ) → 2 ≤ c → c < fat_max_cluster v + 1 → fat_cluster_is_valid v c ≡ true
  unfolding fat_cluster_is_valid
  valid_of_found c low high = ground arith

  -- `first` is 0 before the first cluster, and a cluster of the volume after it.
  First : ℕ → ℕ → Type 0
  First left first = ((first ≡ 0) × (0 < left)) ⊎ (fat_cluster_is_valid v first ≡ true)

  either_valid :
      (left first c : ℕ)
      → First left first
      → fat_cluster_is_valid v c ≡ true
      → fat_cluster_is_valid v (if first == 0 then c else first) ≡ true
  unfolding First
  either_valid left first c (inl (e, l)) valid = rw e valid
  either_valid left first c (inr e) valid =
      if_rule (λ n. fat_cluster_is_valid v n ≡ true) (first == 0) c first (λ z. valid) λ z. e

  alloc_loop-Allocates :
      (left first prev : ℕ) (st : State Disk)
      → First left first
      → C st
      → Allocates (alloc_loop drv v left first prev st)
  unfolding alloc_loop First
  alloc_loop-Allocates zero first prev st (inl (e, l)) h = absurd (omega arith)
  alloc_loop-Allocates zero first prev st (inr e) h =
      let h₁ = link-IsCoherent prev (fat_eoc_marker v) st h in
      let (linked, st₁) = link drv v prev (fat_eoc_marker v) st in
      if_rule Allocates linked (some first, st₁) (give_up drv v first st₁)
        (λ q. record {
          coherent = h₁;
          valid =
              λ c q'. subst (λ n. fat_cluster_is_valid v n ≡ true) (some-injective first c q') e;
        })
        λ q. give_up-Allocates first st₁ h₁
  alloc_loop-Allocates (suc left) first prev st f h =
      let finds = fat_find_free_cluster-Finds drv v laid covers st h in
      let (o, st₁) = fat_find_free_cluster drv v st in
      with_cluster o st₁ finds.same.coherent
        (λ c e. let (a, b, z, n) = finds.found c e in valid_of_found c a b)
        (alloc_loop-Allocates left)
    where
      with_cluster :
          (o : Option ℕ) (st₁ : State Disk)
          → C st₁
          → ((c : ℕ) → o ≡ some c → fat_cluster_is_valid v c ≡ true)
          → ((first' c : ℕ) (st : State Disk)
              → First left first'
              → C st
              → Allocates (alloc_loop drv v left first' c st))
          → Allocates (elim o as (λ x. Option ℕ × State Disk) [
            | none ↦ give_up drv v first st₁
            | some cluster ↦
                let first' = if first == 0 then cluster else first in
                let (marked, st₂) = fat_set_entry drv v cluster (fat_eoc_marker v) st₁ in
                let (linked, st₃) = link drv v prev cluster st₂ in
                let rest = alloc_loop drv v left first' cluster st₃ in
                if marked
                then if linked
                  then rest
                  else give_up drv v first' (fat_set_entry drv v cluster fat_free_cluster st₃).1
                else give_up drv v first' st₂
          ])
      with_cluster none st₁ h₁ valid again = give_up-Allocates first st₁ h₁
      with_cluster (some c) st₁ h₁ valid again =
          let first' = if first == 0 then c else first in
          let h₂ = fat_set_entry-IsCoherent c (fat_eoc_marker v) st₁ h₁ in
          let (marked, st₂) = fat_set_entry drv v c (fat_eoc_marker v) st₁ in
          let h₃ = link-IsCoherent prev c st₂ h₂ in
          let (linked, st₃) = link drv v prev c st₂ in
          let st₄ = (fat_set_entry drv v c fat_free_cluster st₃).1 in
          if_rule Allocates marked
            (if linked then alloc_loop drv v left first' c st₃ else give_up drv v first' st₄)
            (give_up drv v first' st₂)
            (λ q.
              if_rule Allocates linked (alloc_loop drv v left first' c st₃)
                (give_up drv v first' st₄)
                (λ q'.
                  again first' c st₃ (inr (either_valid (suc left) first c f (valid c refl))) h₃)
                λ q'.
                  give_up-Allocates first' st₄ (fat_set_entry-IsCoherent c fat_free_cluster st₃ h₃))
            λ q. give_up-Allocates first' st₂ h₂

  -- fat_alloc_chain for one cluster or more, on a laid-out volume whose FAT covers its clusters,
  -- at most as many as FAT32 allows, with a cache in order: it leaves the cache in order whatever
  -- transfers fail, and a chain that it returns begins at a cluster of the volume.
  pub fat_alloc_chain-Allocates :
      (count : ℕ) (st : State Disk) → 0 < count → C st → Allocates (fat_alloc_chain drv v count st)
  unfolding fat_alloc_chain First
  fat_alloc_chain-Allocates count st pos h =
      if_rule Allocates (count == 0) _ _ (λ e. absurd (ground arith))
        λ e.
          if_rule Allocates (is_fat12 v.fat_type) _ _
            (λ e'. record { coherent = h; valid = λ c. cc })
            λ e'. alloc_loop-Allocates count 0 0 st (inl (refl, pos)) h

  pub fat_alloc_chain-IsCoherent :
      (count : ℕ) (st : State Disk) → C st → C (fat_alloc_chain drv v count st).1
  fat_alloc_chain-IsCoherent zero st h = unfold fat_alloc_chain in h
  fat_alloc_chain-IsCoherent (suc n) st h =
      (fat_alloc_chain-Allocates (suc n) st (omega arith) h).coherent
