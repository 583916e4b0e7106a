-- ===== src/Dir/Ends.antt =====
-- kernel/sima_fs.c, the loops of `fat_dir_read_raw` and `fat_find_in_dir` end: every entry that is
-- read takes the iterator nearer to the end of the root directory, or to the limit on clusters.
use native.Mathlib.Nat.{mul-le-mul_right}
use seolsem.Base.{
  ℕ, zero, suc, ◌+◌, ◌-◌, ◌*◌, ◌≤◌, ◌<◌, ◌≡◌, refl, true, false, Option, none, some, ltb, leb, ◌==◌,
  if◌then◌else◌, not, if_rule, arith, u16, u32,
}
use seolsem.Fat.{Drive, Volume, State}
use seolsem.Fat.Bytes.{Buffer}
use seolsem.Fat.Mount.{Bpb}
use seolsem.Fat.Table.{fat_cluster_is_valid, fat_next_cluster}
use seolsem.Dir.{FsDir, cluster_bytes, fat_read_root_entry, fat_read_cluster_entry}
use seolsem.Dir.Find.{
  Verdict, end_of_dir, skipped, live, verdict, guard_limit, is_fixed, rounds, Outcome, entry_read,
  root_turn, cluster_turn, crossed, chain_turn, turn, judge, read_loop,
}

-- The fields of 16 bits, and clusters of at most 128 sectors.
pub record IsSmall (b : Bpb) (v : Volume) : Type 0 where
  pub entries : b.root_ents < 65536
  pub cluster : cluster_bytes v ≤ 65536

guard_limit-le : (v : Volume) → guard_limit v ≤ 64
unfolding guard_limit
guard_limit-le v = ground arith

module _ (b : Bpb) (v : Volume) where
  -- What is left of a directory for the iterator.
  pub measure : FsDir → ℕ
  measure dir =
      if is_fixed v dir
      then b.root_ents - dir.root_index
      else (guard_limit v + 1 - u32 (dir.guard_clusters + 1)) * (cluster_bytes v + 32)
        + (cluster_bytes v + 32 - dir.offset)

  pub measure-lt : (dir : FsDir) → measure dir < rounds b v
  unfolding measure rounds
  measure-lt dir =
      let below : guard_limit v + 1 - u32 (dir.guard_clusters + 1) ≤ guard_limit v + 1 =
        omega arith in
      ground (arith, mul-le-mul_right (cluster_bytes v + 32) below)

  measure_root : (dir : FsDir) → is_fixed v dir ≡ true → measure dir ≡ b.root_ents - dir.root_index
  unfolding measure
  measure_root dir e = rw e refl

  measure_chain :
      (dir : FsDir)
      → is_fixed v dir ≡ false
      → measure dir
        ≡ (guard_limit v + 1 - u32 (dir.guard_clusters + 1)) * (cluster_bytes v + 32)
          + (cluster_bytes v + 32 - dir.offset)
  unfolding measure
  measure_chain dir e = rw e refl

  -- The next entry of a root directory, the next one of a cluster, and the first of a new cluster.
  root_nearer :
      (dir : FsDir)
      → is_fixed v dir ≡ true
      → b.root_ents < 65536
      → leb b.root_ents dir.root_index ≡ false
      → measure (record dir { root_index = u16 (dir.root_index + 1) }) < measure dir
  unfolding is_fixed
  root_nearer dir e small below =
      rw (measure_root dir e, measure_root (record dir { root_index = u16 (dir.root_index + 1) }) e)
        (ground arith)

  entry_nearer :
      (dir : FsDir)
      → is_fixed v dir ≡ false
      → cluster_bytes v ≤ 65536
      → dir.offset < cluster_bytes v
      → measure (record dir { offset = u32 (dir.offset + 32) }) < measure dir
  unfolding is_fixed
  entry_nearer dir e small below =
      rw (measure_chain dir e, measure_chain (record dir { offset = u32 (dir.offset + 32) }) e)
        (omega arith)

  -- The iterator at the first entry of the next cluster.
  abbrev moved : FsDir → ℕ → FsDir
  moved dir next = record dir {
    cur_cluster = next;
    offset = 0;
    guard_clusters = u32 (dir.guard_clusters + 1);
  }

  cluster_nearer :
      (dir : FsDir) (next : ℕ)
      → is_fixed v dir ≡ false
      → u32 (dir.guard_clusters + 1) ≤ guard_limit v
      → measure (record (moved dir next) { offset = u32 (0 + 32) }) < measure dir
  unfolding is_fixed
  cluster_nearer dir next e below =
      let limit = guard_limit v in
      let at = u32 (dir.guard_clusters + 1) in
      let left : limit + 1 - at ≡ limit + 1 - u32 (at + 1) + 1 = omega (arith, guard_limit-le v) in
      rw
        (
          measure_chain dir e,
          measure_chain (record (moved dir next) { offset = u32 (0 + 32) }) e,
          left,
        )
        (grind arith)

module _ (drv : Drive) (b : Bpb) (v : Volume) (small : IsSmall b v) where
  open drv use {Disk}

  -- An entry that was read left the iterator less to go.
  abbrev pub Falls : FsDir → Outcome drv b v → Type 0
  Falls dir r = (raw : Buffer) → r.0.1 ≡ some raw → measure b v r.0.0 < measure b v dir

  entry_read-Falls :
      (dir next : FsDir) (r : Option Buffer × State Disk)
      → measure b v next < measure b v dir
      → Falls dir (entry_read drv b v dir next r)
  unfolding entry_read
  entry_read-Falls dir next (none, st) l = λ raw. cc
  entry_read-Falls dir next (some raw', st) l = λ raw e. l

  stop-Falls : (dir dir' : FsDir) (st : State Disk) → Falls dir ((dir', none), st)
  stop-Falls dir dir' st = λ raw. cc

  root_turn-Falls :
      (dir : FsDir) (st : State Disk) → is_fixed v dir ≡ true → Falls dir (root_turn drv b v dir st)
  unfolding root_turn
  root_turn-Falls dir st e =
      let next = record dir { root_index = u16 (dir.root_index + 1) } in
      let r = fat_read_root_entry drv b v dir.root_index st in
      if_rule (Falls dir) (leb b.root_ents dir.root_index) ((dir, none), st)
        (entry_read drv b v dir next r) (λ n. stop-Falls dir dir st)
        λ n. entry_read-Falls dir next r (root_nearer b v dir e small.entries n)

  -- The read of the entry at the iterator, from one that had more to go.
  cluster_turn-Falls :
      (dir here : FsDir) (st : State Disk)
      → measure b v (record here { offset = u32 (here.offset + 32) }) < measure b v dir
      → Falls dir (cluster_turn drv b v here st)
  unfolding cluster_turn entry_read
  cluster_turn-Falls dir here st l =
      after (fat_read_cluster_entry drv b v here.cur_cluster here.offset st)
    where
      next : FsDir
      next = record here { offset = u32 (here.offset + 32) }

      after : (r : Option Buffer × State Disk) → Falls dir (entry_read drv b v here next r)
      after (none, st') = λ raw. cc
      after (some raw', st') = λ raw e. l

  crossed-Falls :
      (dir : FsDir) (r : ℕ × State Disk)
      → is_fixed v dir ≡ false
      → Falls dir (crossed drv b v dir r)
  unfolding crossed
  crossed-Falls dir (next, st) e =
      let dir₀ = record dir { offset = 0 } in
      let dir₁ = moved b v dir next in
      if_rule (Falls dir) (ltb next 2) ((dir₀, none), st) _ (λ n. stop-Falls dir dir₀ st)
        λ n.
          if_rule (Falls dir) (next == dir.cur_cluster) ((record dir₀ { error = true }, none), st) _
            (λ m. stop-Falls dir (record dir₀ { error = true }) st)
            λ m.
              if_rule (Falls dir) (ltb (guard_limit v) dir₁.guard_clusters)
                ((record dir₁ { error = true }, none), st) (cluster_turn drv b v dir₁ st)
                (λ k. stop-Falls dir (record dir₁ { error = true }) st)
                λ k. cluster_turn-Falls dir dir₁ st (cluster_nearer b v dir next e (ground arith))

  pub turn-Falls : (dir : FsDir) (st : State Disk) → Falls dir (turn drv b v dir st)
  unfolding turn chain_turn
  turn-Falls dir st =
      if_rule (Falls dir) (is_fixed v dir) (root_turn drv b v dir st) (chain_turn drv b v dir st)
        (λ e. root_turn-Falls dir st e)
        λ e.
          if_rule (Falls dir) (not (fat_cluster_is_valid v dir.cur_cluster))
            ((record dir { error = true }, none), st) _
            (λ n. stop-Falls dir (record dir { error = true }) st)
            λ n.
              if_rule (Falls dir) (leb (cluster_bytes v) dir.offset)
                (crossed drv b v dir (fat_next_cluster drv v dir.cur_cluster st))
                (cluster_turn drv b v dir st)
                (λ m. crossed-Falls dir (fat_next_cluster drv v dir.cur_cluster st) e)
                λ m.
                  cluster_turn-Falls dir dir st
                    (entry_nearer b v dir e small.cluster (ground arith))

  -- Two continuations that agree on the iterators with less to go.
  judge-agree :
      (dir : FsDir) (r : Outcome drv b v) (next next' : FsDir → State Disk → Outcome drv b v)
      → Falls dir r
      → ((dir' : FsDir) (st : State Disk)
          → measure b v dir' < measure b v dir
          → next dir' st ≡ next' dir' st)
      → judge drv b v r next ≡ judge drv b v r next'
  unfolding judge
  judge-agree dir ((dir', none), st) next next' falls agree = refl
  judge-agree dir ((dir', some raw), st) next next' falls agree =
      by_verdict (verdict raw) (agree dir' st (falls raw refl))
    where
      by_verdict :
          (w : Verdict)
          → next dir' st ≡ next' dir' st
          → (elim w as (λ x. Outcome drv b v) [
            | end_of_dir ↦ ((dir', none), st)
            | skipped ↦ next dir' st
            | live ↦ ((dir', some raw), st)
          ])
            ≡ (elim w as (λ x. Outcome drv b v) [
              | end_of_dir ↦ ((dir', none), st)
              | skipped ↦ next' dir' st
              | live ↦ ((dir', some raw), st)
            ])
      by_verdict end_of_dir e = refl
      by_verdict skipped e = e
      by_verdict live e = refl

  read_loop-agree :
      (f g : ℕ) (dir : FsDir) (st : State Disk)
      → measure b v dir < f
      → measure b v dir < g
      → read_loop drv b v f dir st ≡ read_loop drv b v g dir st
  unfolding read_loop
  read_loop-agree zero g dir st l m = absurd (omega arith)
  read_loop-agree (suc f) zero dir st l m = absurd (omega arith)
  read_loop-agree (suc f) (suc g) dir st l m =
      judge-agree dir (turn drv b v dir st) (λ dir' st'. read_loop drv b v f dir' st')
        (λ dir' st'. read_loop drv b v g dir' st') (turn-Falls dir st)
        λ dir' st' n. read_loop-agree f g dir' st' (omega arith) (omega arith)

  -- The loop of fat_dir_read_raw on a volume whose fields fit 16 bits and whose clusters have at
  -- most 128 sectors, from any iterator and state: it ends within `rounds` rounds, since any number
  -- of rounds from there on gives the same entry, iterator and state.
  pub read_loop-rounds :
      (left : ℕ) (dir : FsDir) (st : State Disk)
      → rounds b v ≤ left
      → read_loop drv b v left dir st ≡ read_loop drv b v (rounds b v) dir st
  read_loop-rounds left dir st l =
      let lt = measure-lt b v dir in read_loop-agree left (rounds b v) dir st (omega arith) lt
