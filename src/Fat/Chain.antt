-- ===== src/Fat/Chain.antt =====
-- The freeing of a chain: what `fat_free_chain` does to the table that the kernel sees.
use mathlib.Core.Path.{subst}
use seolsem.Base.{
  ℕ, zero, suc, ◌+◌, ◌≤◌, ◌≡◌, ◌⊎◌, inl, inr, refl, sym, ap, ◌∙◌, Bool, true, false, ltb, ◌==◌,
  arith, if_rule, Bool-cases, if◌then◌else◌,
}
use seolsem.Fat.{Drive, FatType, unknown, fat12, fat16, fat32, Volume, State}
use seolsem.Fat.Cache.{IsLaidOut, IsCoherent, SameTable}
use seolsem.Fat.Load.{IsReliable}
use seolsem.Fat.Codec.{masked}
use seolsem.Fat.Table.{
  fat_cluster_is_valid, fat_max_cluster, fat_get_entry, fat_set_entry, fat_next_cluster, next_of,
  fat_bad_cluster, eoc_min, widened,
}
use seolsem.Fat.Entry.{Covers, fat_get_entry-Gets, table_entry, table_entry-SameTable}
use seolsem.Fat.Write.{IsSized, Sets, fat_set_entry-Sets}
use seolsem.Fat.Alloc.{fat_free_cluster, free_loop, fat_free_chain}

pub masked_zero : (t : FatType) → masked t 0 ≡ 0
unfolding masked widened
masked_zero fat12 = refl
masked_zero fat16 = refl
masked_zero fat32 = refl
masked_zero unknown = refl

next_of-bad : (v : Volume) → next_of v fat_bad_cluster ≡ 0
unfolding next_of eoc_min
next_of-bad v = ground arith

next_of-zero : (v : Volume) → next_of v 0 ≡ 0
unfolding next_of eoc_min
next_of-zero v = ground arith

module _ (drv : Drive) (v : Volume) where
  open drv use {Disk}

  -- The clusters that the entries of the table lead to from `first` on.
  pub data OnChain (st : State Disk) (first : ℕ) : ℕ → Type 0 where
    at_first : OnChain st first first
    after : (c : ℕ) → OnChain st first c → OnChain st first (next_of v (table_entry drv v st c))

  -- A result of the freeing of the chain from `first`: the entry of each cluster is as before, or
  -- it is free and the cluster was on the chain.
  pub record Frees (st : State Disk) (first : ℕ) (r : Bool × State Disk) : Type 0 where
    pub coherent : IsCoherent drv v r.1
    pub hint : r.1.alloc_hint ≡ st.alloc_hint
    pub entries :
        (c : ℕ)
        → fat_cluster_is_valid v c ≡ true
        → (table_entry drv v r.1 c ≡ table_entry drv v st c)
          ⊎ ((table_entry drv v r.1 c ≡ 0) × OnChain st first c)

  module _ (laid : IsLaidOut v) (covers : Covers v) (sized : IsSized v) where
    pub same_entry :
        (st st' : State Disk) (c : ℕ)
        → SameTable drv v st st'
        → fat_cluster_is_valid v c ≡ true
        → table_entry drv v st' c ≡ table_entry drv v st c
    same_entry st st' c same valid = table_entry-SameTable drv v st st' c same (covers c valid)

    -- `fat_next_cluster` gives the next cluster of the table, or 0.
    pub record Steps (st : State Disk) (c : ℕ) (r : ℕ × State Disk) : Type 0 where
      pub same : SameTable drv v st r.1
      pub next : (r.0 ≡ next_of v (table_entry drv v st c)) ⊎ (r.0 ≡ 0) × ¬ (IsReliable drv v laid)

    pub fat_next_cluster-Steps :
        (c : ℕ) (st : State Disk)
        → IsCoherent drv v st
        → fat_cluster_is_valid v c ≡ true
        → Steps st c (fat_next_cluster drv v c st)
    unfolding fat_next_cluster
    fat_next_cluster-Steps c st h valid =
        let g = fat_get_entry-Gets drv v laid c st covers h valid in
        rw valid (record {
          same = g.same;
          next = elim g.value [
            | inl e ↦ inl (ap (next_of v) e)
            | inr (e, unreliable) ↦ inr (ap (next_of v) e ∙ next_of-bad v, unreliable)
          ];
        })

    Frees-refl :
        (st : State Disk) (first : ℕ) (b : Bool) → IsCoherent drv v st → Frees st first (b, st)
    Frees-refl st first b h = record { coherent = h; hint = refl; entries = λ c valid. inl refl }

    -- One round frees the cluster, or leaves the table as it is.
    module _ (st₀ st st₁ : State Disk) (first cluster : ℕ) (same : SameTable drv v st st₁)
        (on : OnChain st₀ first cluster) where
      freed :
          (c : ℕ) (b : Bool) (r : Bool × State Disk)
          → Frees st₀ first (b, st)
          → Sets drv v laid covers sized st₁ cluster 0 r
          → fat_cluster_is_valid v c ≡ true
          → (table_entry drv v r.1 c ≡ table_entry drv v st₀ c)
            ⊎ ((table_entry drv v r.1 c ≡ 0) × OnChain st₀ first c)
      freed c b (done, st₂) h w valid = elim (Bool-cases (cluster == c)) [
        | inr ne ↦ carried (w.others c valid (ground arith) ∙ before)
        | inl eq ↦
            let e : cluster ≡ c = ground arith in
            elim (Bool-cases done) [
              | inl d ↦ inr (
                ap (table_entry drv v st₂) (sym e) ∙ w.written d ∙ masked_zero v.fat_type,
                subst (λ k. OnChain st₀ first k) e on,
              )
              | inr d ↦ carried (same_entry st₁ st₂ c (w.refused d) valid ∙ before)
            ]
      ]
        where
          before : table_entry drv v st₁ c ≡ table_entry drv v st c
          before = same_entry st st₁ c same valid

          carried :
              table_entry drv v st₂ c ≡ table_entry drv v st c
              → (table_entry drv v st₂ c ≡ table_entry drv v st₀ c)
                ⊎ ((table_entry drv v st₂ c ≡ 0) × OnChain st₀ first c)
          carried q = elim (h.entries c valid) [ inl e ↦ inl (q ∙ e) | inr (z, o) ↦ inr (q ∙ z, o) ]

      round-Frees :
          (b : Bool) (r : Bool × State Disk)
          → Frees st₀ first (b, st)
          → Sets drv v laid covers sized st₁ cluster 0 r
          → Frees st₀ first r
      round-Frees b r h w = record {
        coherent = w.coherent;
        hint = w.hint ∙ same.hint ∙ h.hint;
        entries = λ c valid. freed c b r h w valid;
      }

    -- The next cluster lies on the chain too, unless the round saw a freed entry.
    next_on :
        (st₀ st : State Disk) (first cluster : ℕ) (b : Bool) (r : ℕ × State Disk)
        → Frees st₀ first (b, st)
        → Steps st cluster r
        → fat_cluster_is_valid v cluster ≡ true
        → OnChain st₀ first cluster
        → 2 ≤ r.0
        → OnChain st₀ first r.0
    next_on st₀ st first cluster b (n, st₁) h s valid on two = elim s.next [
      | inr (z, unreliable) ↦ absurd (omega (arith, z))
      | inl e ↦ elim (h.entries cluster valid) [
        | inl q ↦ subst (λ k. OnChain st₀ first k) (sym (e ∙ ap (next_of v) q)) (after cluster on)
        | inr (z, o) ↦ absurd (omega (arith, e ∙ ap (next_of v) z ∙ next_of-zero v))
      ]
    ]

    next_invalid :
        (c : ℕ) (st : State Disk)
        → fat_cluster_is_valid v c ≡ false
        → fat_next_cluster drv v c st ≡ (0, st)
    unfolding fat_next_cluster fat_get_entry
    next_invalid c st bad = rw bad refl

    set_invalid :
        (c value : ℕ) (st : State Disk)
        → fat_cluster_is_valid v c ≡ false
        → fat_set_entry drv v c value st ≡ (false, st)
    unfolding fat_set_entry
    set_invalid c value st bad = rw bad refl

    free_loop-Frees :
        (left cluster : ℕ) (first : ℕ) (st₀ st : State Disk) (b : Bool)
        → Frees st₀ first (b, st)
        → (2 ≤ cluster → OnChain st₀ first cluster)
        → Frees st₀ first (free_loop drv v left cluster st)
    unfolding free_loop
    free_loop-Frees zero cluster first st₀ st b h on = record {
      coherent = h.coherent;
      hint = h.hint;
      entries = h.entries;
    }
    free_loop-Frees (suc left) cluster first st₀ st b h on =
        let r₁ = fat_next_cluster drv v cluster st in
        let r₂ = fat_set_entry drv v cluster fat_free_cluster r₁.1 in
        let go_on = if r₂.0 then free_loop drv v left r₁.0 r₂.1 else (false, r₂.1) in
        if_rule (Frees st₀ first) (ltb cluster 2) (true, st) go_on
          (λ e. record { coherent = h.coherent; hint = h.hint; entries = h.entries })
          λ e. elim (Bool-cases (fat_cluster_is_valid v cluster)) [
            | inr bad ↦ rw (next_invalid cluster st bad) (
                rw (set_invalid cluster 0 st bad)
                  (record { coherent = h.coherent; hint = h.hint; entries = h.entries }))
            | inl valid ↦
                let two : 2 ≤ cluster = ground arith in
                let s = fat_next_cluster-Steps cluster st h.coherent valid in
                let w =
                  fat_set_entry-Sets drv v laid covers sized cluster 0 r₁.1 s.same.coherent valid in
                let h₂ = round-Frees st₀ st r₁.1 first cluster s.same (on two) b r₂ h w in
                if_rule (Frees st₀ first) r₂.0 (free_loop drv v left r₁.0 r₂.1) (false, r₂.1)
                  (λ d.
                    free_loop-Frees left r₁.0 first st₀ r₂.1 r₂.0 h₂
                      (next_on st₀ st first cluster b r₁ h s valid (on two)))
                  λ d. record { coherent = h₂.coherent; hint = h₂.hint; entries = h₂.entries }
          ]

    -- A free entry stays free.
    free_loop-zero :
        (left cluster c : ℕ) (st : State Disk)
        → IsCoherent drv v st
        → fat_cluster_is_valid v c ≡ true
        → table_entry drv v st c ≡ 0
        → table_entry drv v (free_loop drv v left cluster st).1 c ≡ 0
    free_loop-zero left cluster c st h valid z =
        let freed_all =
          free_loop-Frees left cluster cluster st st true (Frees-refl st cluster true h)
            λ l. at_first in
        elim (freed_all.entries c valid) [ inl e ↦ e ∙ z | inr (z', on) ↦ z' ]

    free_loop-first :
        (left first : ℕ) (st : State Disk)
        → IsCoherent drv v st
        → fat_cluster_is_valid v first ≡ true
        → 2 ≤ first
        → (free_loop drv v (suc left) first st).0 ≡ true
        → table_entry drv v (free_loop drv v (suc left) first st).1 first ≡ 0
    unfolding free_loop
    free_loop-first left first st h valid two done =
        let r₁ = fat_next_cluster drv v first st in
        let r₂ = fat_set_entry drv v first fat_free_cluster r₁.1 in
        let s = fat_next_cluster-Steps first st h valid in
        let w = fat_set_entry-Sets drv v laid covers sized first 0 r₁.1 s.same.coherent valid in
        let go_on = if r₂.0 then free_loop drv v left r₁.0 r₂.1 else (false, r₂.1) in
        if_rule Freed (ltb first 2) (true, st) go_on (λ e q. absurd (ground arith))
          (λ e.
            if_rule Freed r₂.0 (free_loop drv v left r₁.0 r₂.1) (false, r₂.1)
              (λ d q.
                free_loop-zero left r₁.0 first r₂.1 w.coherent valid
                  (w.written d ∙ masked_zero v.fat_type))
              λ d. cc)
          done
      where
        Freed : Bool × State Disk → Type 0
        Freed r = r.0 ≡ true → table_entry drv v r.1 first ≡ 0

    pub two_of_valid : (c : ℕ) → fat_cluster_is_valid v c ≡ true → 2 ≤ c
    unfolding fat_cluster_is_valid
    two_of_valid c valid = ground arith

    -- A result of the freeing of a whole chain.
    record FreesChain (st : State Disk) (first : ℕ) (r : Bool × State Disk) : Type 0 where
      frees : Frees st first r
      first_free :
          r.0 ≡ true → fat_cluster_is_valid v first ≡ true → table_entry drv v r.1 first ≡ 0

    -- fat_free_chain on a laid-out volume whose FAT covers its clusters, at most as many as FAT32
    -- allows, with a cache in order: whatever transfers fail, each entry of a cluster of the
    -- volume is afterwards as it was, or is free and belongs to a cluster that the entries lead to
    -- from the first; the allocation hint stays and the cache stays in order. If it returns TRUE
    -- for a first cluster of the volume, the entry of that cluster is free.
    fat_free_chain-FreesChain :
        (first : ℕ) (st : State Disk)
        → IsCoherent drv v st
        → FreesChain st first (fat_free_chain drv v first st)
    unfolding fat_free_chain
    fat_free_chain-FreesChain first st h = record {
      frees =
          free_loop-Frees (fat_max_cluster v + 1) first first st st true
            (Frees-refl st first true h) λ l. at_first;
      first_free = λ done valid.
          let rounds : suc (fat_max_cluster v) ≡ fat_max_cluster v + 1 = omega arith in
          subst (λ n. table_entry drv v (free_loop drv v n first st).1 first ≡ 0) rounds
            (free_loop-first (fat_max_cluster v) first st h valid (two_of_valid first valid)
              (subst (λ n. (free_loop drv v n first st).0 ≡ true) (sym rounds) done));
    }
