-- ===== src/Fat/Free.antt =====
-- The search for a free cluster.
use mathlib.Core.Option.{some-injective}
use mathlib.Core.Path.{subst}
use seolsem.Base.{
  ℕ, zero, suc, ◌+◌, ◌-◌, ◌≤◌, ◌<◌, ◌≡◌, ◌≢◌, inl, inr, refl, sym, ◌∙◌, true, Option, none, some,
  ltb, ◌==◌, arith, if_rule,
}
use seolsem.Fat.{Drive, Volume, State}
use seolsem.Fat.Cache.{IsLaidOut, IsCoherent, SameTable, SameTable-refl, SameTable-trans, fat_byte}
use seolsem.Fat.Load.{IsReliable}
use seolsem.Fat.Table.{fat_cluster_is_valid, fat_max_cluster, fat_get_entry}
use seolsem.Fat.Entry.{Covers, Gets, fat_get_entry-Gets, table_entry, table_entry-SameTable}
use seolsem.Fat.Alloc.{
  with_hint, next_hint, look, scan, or_else, scan_start, fat_find_free_cluster, fat_free_cluster,
}

module _ (drv : Drive) (v : Volume) (laid : IsLaidOut v) (covers : Covers v) where
  open drv use {Disk}

  -- A result of a search among the clusters from `lo` up to, but without, `hi`.
  pub record Finds (lo hi : ℕ) (st : State Disk) (r : Option ℕ × State Disk) : Type 0 where
    pub same : SameTable drv v (with_hint drv v r.1.alloc_hint st) r.1
    pub found :
        (c : ℕ)
        → r.0 ≡ some c
        → (lo ≤ c) × (c < hi) × (table_entry drv v st c ≡ 0) × (r.1.alloc_hint ≡ next_hint drv v c)
    pub none_free :
        r.0 ≡ none → IsReliable drv v laid → (c : ℕ) → lo ≤ c → c < hi → table_entry drv v st c ≢ 0

  with_hint-SameTable :
      (n : ℕ) (st st' : State Disk)
      → SameTable drv v st st'
      → SameTable drv v (with_hint drv v n st) (with_hint drv v n st')
  with_hint-SameTable n st st' h = record {
    coherent = record {
      inside = h.coherent.inside;
      clean = h.coherent.clean;
      loaded = h.coherent.loaded;
      octets = h.coherent.octets;
    };
    bytes = λ off l. unfold fat_byte in h.bytes off l;
    hint = refl;
  }

  valid_of_bounds : (c : ℕ) → 2 ≤ c → c < fat_max_cluster v + 1 → fat_cluster_is_valid v c ≡ true
  unfolding fat_cluster_is_valid
  valid_of_bounds c low high = ground arith

  -- What holds of a search in a later state, with the same table, holds in the earlier one.
  Finds-earlier :
      (lo hi : ℕ) (st st' : State Disk) (r : Option ℕ × State Disk)
      → 2 ≤ lo
      → hi ≤ fat_max_cluster v + 1
      → SameTable drv v st st'
      → Finds lo hi st' r
      → Finds lo hi st r
  Finds-earlier lo hi st st' r low high same h = record {
    same = SameTable-trans drv v (with_hint-SameTable r.1.alloc_hint st st' same) h.same;
    found = λ c e. let (a, b, z, n) = h.found c e in (a, b, sym (entry c a b) ∙ z, n);
    none_free = λ e rel c a b z. h.none_free e rel c a b (entry c a b ∙ z);
  }
    where
      entry : (c : ℕ) → lo ≤ c → c < hi → table_entry drv v st' c ≡ table_entry drv v st c
      entry c a b =
          table_entry-SameTable drv v st st' c same
            (covers c (valid_of_bounds c (omega arith) (omega arith)))

  look-Finds :
      (c hi : ℕ) (st : State Disk) (g : ℕ × State Disk) (next : State Disk → Option ℕ × State Disk)
      → 2 ≤ c
      → c < hi
      → hi ≤ fat_max_cluster v + 1
      → Gets drv v laid st (table_entry drv v st c) g
      → ((st' : State Disk) → IsCoherent drv v st' → Finds (c + 1) hi st' (next st'))
      → Finds c hi st (look drv v c g next)
  unfolding look
  look-Finds c hi st (val, st') next low below high g rest =
      if_rule (Finds c hi st) (val == fat_free_cluster)
        (some c, with_hint drv v (next_hint drv v c) st') (next st')
        (λ e. record {
          same = with_hint-SameTable (next_hint drv v c) st st' g.same;
          found = λ c' q.
              subst
                (λ k.
                  (c ≤ k)
                  × (k < hi)
                  × (table_entry drv v st k ≡ 0)
                  × (next_hint drv v c ≡ next_hint drv v k))
                (some-injective c c' q) (omega arith, below, entry_free e, refl);
          none_free = λ q. cc;
        })
        λ n.
          let later =
            Finds-earlier (c + 1) hi st st' (next st') (omega arith) high g.same
              (rest st' g.same.coherent) in
          record {
            same = later.same;
            found = λ c' q. let (a, b, z, m) = later.found c' q in (omega arith, b, z, m);
            none_free = λ q rel c' a b z. elim g.value [
              | inl p ↦ ground (arith, later.none_free q rel c')
              | inr (p, bad) ↦ absurd (bad rel)
            ];
          }
    where
      entry_free : (val == fat_free_cluster) ≡ true → table_entry drv v st c ≡ 0
      entry_free e = elim g.value [ inl p ↦ ground arith | inr (p, bad) ↦ absurd (ground arith) ]

  scan-Finds :
      (left c : ℕ) (st : State Disk)
      → 2 ≤ c
      → c + left ≤ fat_max_cluster v + 1
      → IsCoherent drv v st
      → Finds c (c + left) st (scan drv v left c st)
  unfolding scan
  scan-Finds zero c st low high h = record {
    same = SameTable-refl drv v h;
    found = λ c' q. cc;
    none_free = λ q rel c' a b z. omega arith;
  }
  scan-Finds (suc left) c st low high h =
      look-Finds c (c + suc left) st (fat_get_entry drv v c st) (λ st'. scan drv v left (c + 1) st')
        low (omega arith) high
        (fat_get_entry-Gets drv v laid c st covers h (valid_of_bounds c low (omega arith)))
        λ st' h'.
          subst (λ hi. Finds (c + 1) hi st' (scan drv v left (c + 1) st')) (shift c left)
            (scan-Finds left (c + 1) st' (omega arith) (omega arith) h')
    where
      shift : (a b : ℕ) → a + 1 + b ≡ a + suc b
      shift a b = omega arith

  Finds-hint :
      (lo hi n : ℕ) (st : State Disk) (r : Option ℕ × State Disk)
      → Finds lo hi (with_hint drv v n st) r
      → Finds lo hi st r
  unfolding table_entry fat_byte
  Finds-hint lo hi n st r h = record { same = h.same; found = h.found; none_free = h.none_free }

  -- A second search of the clusters below those of the first.
  or_else-Finds :
      (lo mid hi : ℕ) (st : State Disk) (r : Option ℕ × State Disk)
      (next : State Disk → Option ℕ × State Disk)
      → 2 ≤ lo
      → lo ≤ mid
      → mid ≤ hi
      → hi ≤ fat_max_cluster v + 1
      → Finds mid hi st r
      → ((st' : State Disk) → IsCoherent drv v st' → Finds lo mid st' (next st'))
      → Finds lo hi st (or_else drv v r next)
  unfolding or_else
  or_else-Finds lo mid hi st (some c, st') next low a b high h rest = record {
    same = h.same;
    found = λ c' q. let (x, y, z, n) = h.found c' q in (omega arith, y, z, n);
    none_free = λ q. cc;
  }
  or_else-Finds lo mid hi st (none, st') next low a b high h rest =
      let n = st'.alloc_hint in
      let later = Finds-hint lo mid n st (next st') (
        Finds-earlier lo mid (with_hint drv v n st) st' (next st') low (omega arith) h.same
          (rest st' h.same.coherent)) in
      record {
        same = later.same;
        found = λ c q. let (x, y, z, m) = later.found c q in (x, omega arith, z, m);
        none_free = λ q rel c x y z. ground (
          arith,
          λ (p : c < mid). later.none_free q rel c x p z,
          λ (p : mid ≤ c). h.none_free refl rel c p y z,
        );
      }

  scan_start_bounds :
      (st : State Disk)
      → 2 ≤ fat_max_cluster v
      → (2 ≤ scan_start drv v st) × (scan_start drv v st ≤ fat_max_cluster v)
  unfolding scan_start
  scan_start_bounds st h = ground arith

  -- A scan from `lo` up to, but without, `hi`.
  scan_range :
      (lo hi : ℕ) (st : State Disk)
      → 2 ≤ lo
      → lo ≤ hi
      → hi ≤ fat_max_cluster v + 1
      → IsCoherent drv v st
      → Finds lo hi st (scan drv v (hi - lo) lo st)
  scan_range lo hi st low up high h =
      let e : lo + (hi - lo) ≡ hi = omega arith in
      subst (λ k. Finds lo k st (scan drv v (hi - lo) lo st)) e
        (scan-Finds (hi - lo) lo st low (omega arith) h)

  pub fat_find_free_cluster-Finds :
      (st : State Disk)
      → IsCoherent drv v st
      → Finds 2 (fat_max_cluster v + 1) st (fat_find_free_cluster drv v st)
  unfolding fat_find_free_cluster
  fat_find_free_cluster-Finds st h =
      let max = fat_max_cluster v in
      let start = scan_start drv v st in
      if_rule (Finds 2 (max + 1) st) (ltb max 2) (none, st)
        (or_else drv v (scan drv v (max + 1 - start) start st)
          (λ st'. scan drv v (start - 2) 2 st'))
        (λ e. record {
          same = SameTable-refl drv v h;
          found = λ c q. cc;
          none_free = λ q rel c a b z. ground arith;
        })
        λ n.
          let bounds = scan_start_bounds st (ground arith) in
          or_else-Finds 2 start (max + 1) st (scan drv v (max + 1 - start) start st)
            (λ st'. scan drv v (start - 2) 2 st') (omega arith) bounds.0 (omega (arith, bounds))
            (omega arith)
            (scan_range start (max + 1) st bounds.0 (omega (arith, bounds)) (omega arith) h)
            λ st' h'. scan_range 2 start st' (omega arith) bounds.0 (omega (arith, bounds)) h'
