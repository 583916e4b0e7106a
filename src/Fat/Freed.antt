-- ===== src/Fat/Freed.antt =====
-- The freeing of a chain: every cluster of it is free afterwards, and no other entry changes.
use mathlib.Core.Path.{subst}
use seolsem.Base.{
  ℕ, zero, suc, ◌+◌, ◌≤◌, ◌<◌, ◌≡◌, ◌≢◌, inl, inr, refl, sym, ap, ◌∙◌, Bool, true, false, ltb, List,
  [], ◌∷◌, length, arith, if_rule, if◌then◌else◌, All,
}
use seolsem.Fat.{Drive, FatType, unknown, fat12, fat16, fat32, Volume, State}
use seolsem.Fat.Cache.{IsLaidOut, IsCoherent}
use seolsem.Fat.Load.{IsReliable}
use seolsem.Fat.Table.{
  fat_cluster_is_valid, fat_max_cluster, fat_set_entry, fat_next_cluster, next_of, eoc_min,
  is_fat12,
}
use seolsem.Fat.Entry.{Covers, table_entry}
use seolsem.Fat.Write.{IsSized, Sets, fat_set_entry-Sets}
use seolsem.Fat.Alloc.{fat_free_cluster, free_loop, fat_free_chain}
use seolsem.Fat.Chain.{Steps, fat_next_cluster-Steps, same_entry, masked_zero, two_of_valid}

-- The least end mark.
abbrev pub end_mark : FatType → ℕ
end_mark fat12 = 0xFF8
end_mark fat16 = 0xFFF8
end_mark fat32 = 0x0FFFFFF8
end_mark unknown = 0x0FFFFFF8

next_of-end : (v : Volume) (e : ℕ) → end_mark v.fat_type ≤ e → next_of v e ≡ 0
unfolding next_of eoc_min
next_of-end v e l = ends v.fat_type refl
  where
    ends : (t : FatType) → v.fat_type ≡ t → next_of v e ≡ 0
    ends fat12 q = let l' = subst (λ t. end_mark t ≤ e) q l in rw q (ground arith)
    ends fat16 q = let l' = subst (λ t. end_mark t ≤ e) q l in rw q (ground arith)
    ends fat32 q = let l' = subst (λ t. end_mark t ≤ e) q l in rw q (ground arith)
    ends unknown q = let l' = subst (λ t. end_mark t ≤ e) q l in rw q (ground arith)

next_of-cluster :
    (v : Volume) (e : ℕ)
    → IsSized v
    → fat_cluster_is_valid v e ≡ true
    → e < end_mark v.fat_type
    → next_of v e ≡ e
unfolding next_of eoc_min fat_cluster_is_valid fat_max_cluster
next_of-cluster v e sized valid l = goes v.fat_type refl
  where
    goes : (t : FatType) → v.fat_type ≡ t → next_of v e ≡ e
    goes fat12 q = let l' = subst (λ t. e < end_mark t) q l in rw q (ground arith)
    goes fat16 q = let l' = subst (λ t. e < end_mark t) q l in rw q (ground arith)
    goes fat32 q = let l' = subst (λ t. e < end_mark t) q l in rw q (ground arith)
    goes unknown q = let l' = subst (λ t. e < end_mark t) q l in rw q (ground arith)

module _ (drv : Drive) (v : Volume) where
  open drv use {Disk}

  -- The clusters of a chain in the table: the entry of each is the next one, that of the last is
  -- an end mark, and none comes twice.
  pub data Chain (st : State Disk) : ℕ → List ℕ → Type 0 where
    last :
        (c : ℕ)
        → fat_cluster_is_valid v c ≡ true
        → end_mark v.fat_type ≤ table_entry drv v st c
        → Chain st c (c ∷ [])
    link :
        (c d : ℕ) (cs : List ℕ)
        → fat_cluster_is_valid v c ≡ true
        → table_entry drv v st c ≡ d
        → fat_cluster_is_valid v d ≡ true
        → d < end_mark v.fat_type
        → All (λ x. x ≢ c) cs
        → Chain st d cs
        → Chain st c (c ∷ cs)

  Chain-kept :
      (st st' : State Disk) (c d : ℕ) (cs : List ℕ)
      → ((x : ℕ)
          → fat_cluster_is_valid v x ≡ true
          → c ≢ x
          → table_entry drv v st' x ≡ table_entry drv v st x)
      → Chain st d cs
      → All (λ x. x ≢ c) cs
      → Chain st' d cs
  Chain-kept st st' c _ _ kept (last x valid e) (ne, _) =
      last x valid (rw (kept x valid (λ q. ne (sym q))) e)
  Chain-kept st st' c _ _ kept (link x d cs valid e valid' l apart chain) (ne, rest) =
      link x d cs valid (kept x valid (λ q. ne (sym q)) ∙ e) valid' l apart
        (Chain-kept st st' c d cs kept chain rest)

  module _ (laid : IsLaidOut v) (covers : Covers v) (sized : IsSized v) where
    -- A result of the freeing of the chain of the clusters `cs`.
    pub record Freed (st : State Disk) (cs : List ℕ) (r : Bool × State Disk) : Type 0 where
      pub coherent : IsCoherent drv v r.1
      pub hint : r.1.alloc_hint ≡ st.alloc_hint
      pub others :
          (x : ℕ)
          → fat_cluster_is_valid v x ≡ true
          → All (λ c. c ≢ x) cs
          → table_entry drv v r.1 x ≡ table_entry drv v st x
      pub freed :
          IsReliable drv v laid
          → is_fat12 v.fat_type ≡ false
          → (r.0 ≡ true) × All (λ c. table_entry drv v r.1 c ≡ 0) cs

    free_loop-ended : (left : ℕ) (st : State Disk) → free_loop drv v left 0 st ≡ (true, st)
    unfolding free_loop
    free_loop-ended zero st = refl
    free_loop-ended (suc left) st = refl

    -- One round on a cluster of the volume, up to the call that follows the chain.
    module _ (st : State Disk) (c : ℕ) (h : IsCoherent drv v st)
        (valid : fat_cluster_is_valid v c ≡ true) where
      abbrev after_next : ℕ × State Disk
      after_next = fat_next_cluster drv v c st

      abbrev after_set : Bool × State Disk
      after_set = fat_set_entry drv v c fat_free_cluster after_next.1

      next_Steps : Steps drv v laid covers sized st c after_next
      next_Steps = fat_next_cluster-Steps drv v laid covers sized c st h valid

      set_Sets : Sets drv v laid covers sized after_next.1 c 0 after_set
      set_Sets =
          fat_set_entry-Sets drv v laid covers sized c 0 after_next.1 next_Steps.same.coherent valid

      set_others :
          (x : ℕ)
          → fat_cluster_is_valid v x ≡ true
          → c ≢ x
          → table_entry drv v after_set.1 x ≡ table_entry drv v st x
      set_others x ok ne =
          set_Sets.others x ok ne
          ∙ same_entry drv v laid covers sized st after_next.1 x next_Steps.same ok

      set_hint : after_set.1.alloc_hint ≡ st.alloc_hint
      set_hint = set_Sets.hint ∙ next_Steps.same.hint

      set_frees :
          IsReliable drv v laid
          → is_fat12 v.fat_type ≡ false
          → (after_set.0 ≡ true) × (table_entry drv v after_set.1 c ≡ 0)
      set_frees rel wide =
          let done = set_Sets.succeeds rel wide in
          (done, set_Sets.written done ∙ masked_zero v.fat_type)

      -- The loop goes on from the next cluster if the entry was set.
      loop_goes :
          (left : ℕ)
          → free_loop drv v (suc left) c st ≡ (
              if after_set.0
              then free_loop drv v left after_next.0 after_set.1
              else (false, after_set.1))
      unfolding free_loop
      loop_goes left =
          let two = two_of_valid drv v laid covers sized c valid in
          let big : ltb c 2 ≡ false = ground arith in rw big refl

      -- A round that is the last one.
      round_ends :
          (left : ℕ) (cs : List ℕ)
          → after_next.0 ≡ 0
          → (IsReliable drv v laid → cs ≡ [])
          → Freed st (c ∷ cs) (free_loop drv v (suc left) c st)
      round_ends left cs z alone = rw (loop_goes left) (
          if_rule (Freed st (c ∷ cs)) after_set.0 _ _
            (λ e. rw z (rw (free_loop-ended left after_set.1) (ended true (sym e))))
            λ e. ended false (sym e))
        where
          ended : (b : Bool) → b ≡ after_set.0 → Freed st (c ∷ cs) (b, after_set.1)
          ended b e = record {
            coherent = set_Sets.coherent;
            hint = set_hint;
            others = λ x ok ne. set_others x ok ne.0;
            freed = λ rel wide.
                let (done, zero_entry) = set_frees rel wide in
                (e ∙ done, rw (alone rel) (zero_entry, tt));
          }

      -- A round that another one follows.
      round_goes_on :
          (left : ℕ) (cs : List ℕ)
          → All (λ x. x ≢ c) cs
          → Freed after_set.1 cs (free_loop drv v left after_next.0 after_set.1)
          → Freed st (c ∷ cs) (free_loop drv v (suc left) c st)
      round_goes_on left cs apart rest = rw (loop_goes left) (
          if_rule (Freed st (c ∷ cs)) after_set.0 _ _
            (λ e. record {
              coherent = rest.coherent;
              hint = rest.hint ∙ set_hint;
              others = λ x ok ne. rest.others x ok ne.1 ∙ set_others x ok ne.0;
              freed = λ rel wide.
                  let (done, all_zero) = rest.freed rel wide in
                  (done, (rest.others c valid apart ∙ (set_frees rel wide).1, all_zero));
            })
            λ e. record {
              coherent = set_Sets.coherent;
              hint = set_hint;
              others = λ x ok ne. set_others x ok ne.0;
              freed = λ rel wide. absurd (untrue (sym e ∙ (set_frees rel wide).0));
            })
        where
          untrue : false ≡ true → ⊥
          untrue e = cc

    free_loop-Freed :
        (left c : ℕ) (cs : List ℕ) (st : State Disk)
        → Chain st c cs
        → IsCoherent drv v st
        → length cs ≤ left
        → Freed st cs (free_loop drv v left c st)
    free_loop-Freed zero _ _ st (last c valid e) h l = absurd (omega (arith, l))
    free_loop-Freed zero _ _ st (link c d cs valid e valid' l' apart chain) h l =
        absurd (omega (arith, l))
    free_loop-Freed (suc left) _ _ st (last c valid e) h l =
        round_ends st c h valid left []
          (elim (next_Steps st c h valid).next [
            | inl q ↦ q ∙ next_of-end v (table_entry drv v st c) e
            | inr (z, unreliable) ↦ z
          ])
          λ rel. refl
    free_loop-Freed (suc left) _ _ st (link c d cs valid e valid' l' apart chain) h l =
        elim (next_Steps st c h valid).next [
          | inr (z, unreliable) ↦ round_ends st c h valid left cs z λ rel. absurd (unreliable rel)
          | inl q ↦
              let next : (after_next st c h valid).0 ≡ d =
                q ∙ ap (next_of v) e ∙ next_of-cluster v d sized valid' l' in
              let st' = (after_set st c h valid).1 in
              let chain' = Chain-kept st st' c d cs (set_others st c h valid) chain apart in
              round_goes_on st c h valid left cs apart (
                rw next (
                  free_loop-Freed left d cs st' chain' (set_Sets st c h valid).coherent
                    (omega (arith, l))))
        ]

    -- fat_free_chain of a chain in the table, in which each entry is the next cluster, the last
    -- one is an end mark and no cluster comes twice, of at most as many clusters as the loop has
    -- rounds; on a laid-out volume whose FAT covers its clusters, at most as many as FAT32 allows,
    -- with a cache in order. Whatever transfers fail, the entries of all other clusters and the
    -- allocation hint stay, and the cache stays in order; on a reliable disk it returns TRUE and
    -- every cluster of the chain is free, unless the volume is FAT12.
    pub fat_free_chain-Freed :
        (first : ℕ) (cs : List ℕ) (st : State Disk)
        → Chain st first cs
        → IsCoherent drv v st
        → length cs ≤ fat_max_cluster v + 1
        → Freed st cs (fat_free_chain drv v first st)
    unfolding fat_free_chain
    fat_free_chain-Freed first cs st chain h l =
        free_loop-Freed (fat_max_cluster v + 1) first cs st chain h l
