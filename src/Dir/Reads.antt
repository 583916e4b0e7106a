-- ===== src/Dir/Reads.antt =====
-- kernel/sima_fs.c, the operations on directories that only read: what they leave of the table that
-- the kernel sees.
use seolsem.Base.{
  ℕ, zero, suc, ◌+◌, ◌/◌, ◌%◌, ◌≡◌, refl, Bool, true, false, Option, none, some, Bool-cases, inl,
  inr, ltb, leb, ◌==◌, not, if_rule, Str, arith, u32,
}
use seolsem.Fat.{Drive, Volume, State, read_sector}
use seolsem.Fat.Bytes.{Buffer}
use seolsem.Fat.Cache.{IsLaidOut, SameTable, SameTable-trans, fat_byte}
use seolsem.Fat.Load.{read_sector_keeps}
use seolsem.Fat.Entry.{Covers, fat_get_entry-Gets}
use seolsem.Fat.Mount.{Bpb}
use seolsem.Fat.Name.{fat_names_equal}
use seolsem.Fat.Table.{fat_cluster_is_valid, fat_get_entry, fat_next_cluster}
use seolsem.Act.Keeps.{Keeps, keeps_rules}
use seolsem.Dir.{
  Loc, FsDir, name_of, load, fat_read_root_entry, fat_read_cluster_entry, fat_read_entry_at_loc,
  fat_dir_loc_next, cluster_bytes,
}
use seolsem.Dir.Find.{
  Verdict, end_of_dir, skipped, live, verdict, Outcome, entry_read, root_turn, cluster_turn,
  crossed, chain_turn, turn, judge, read_loop, fat_dir_read_raw, match_or, find_loop,
  fat_find_in_dir, is_fixed, guard_limit,
}

module _ (drv : Drive) (b : Bpb) (v : Volume) (laid : IsLaidOut v) (covers : Covers v)
    (st₀ : State drv.Disk) where
  open drv use {Disk, contents, contents_bytes}

  -- The state has the table of `st₀`, and a cache in order.
  abbrev pub Same : State Disk → Type 0
  Same st = SameTable drv v st₀ st

  -- A state that differs in the disk, where the sectors hold the same.
  with_disk-Same :
      (st : State Disk) (d : Disk)
      → ((l o : ℕ) → contents d l o ≡ contents st.disk l o)
      → Same st
      → Same (record st { disk = d })
  with_disk-Same st d keeps h = SameTable-trans drv v h (record {
    coherent = record {
      inside = h.coherent.inside;
      clean = λ e nz o. ground (arith, h.coherent.clean e nz o, keeps st.cur_lba o);
      loaded = h.coherent.loaded;
      octets = h.coherent.octets;
    };
    bytes =
        λ off l. unfold fat_byte in ground (arith, keeps (v.fat_start_lba + off / 512) (off % 512));
    hint = refl;
  })

  pub load-Same : (lba : ℕ) → Keeps Same (load drv b v lba)
  unfolding load
  load-Same lba = record {
    at = λ st h.
        with_disk-Same st (read_sector drv v lba st.disk).1 (read_sector_keeps drv v lba st.disk) h;
  }

  fat_get_entry-Same : (c : ℕ) (st : State Disk) → Same st → Same (fat_get_entry drv v c st).1
  fat_get_entry-Same c st h = elim (Bool-cases (fat_cluster_is_valid v c)) [
    | inl valid ↦
        SameTable-trans drv v h (fat_get_entry-Gets drv v laid c st covers h.coherent valid).same
    | inr invalid ↦ unfold fat_get_entry in rw invalid h
  ]

  pub fat_next_cluster-Same :
      (c : ℕ) (st : State Disk) → Same st → Same (fat_next_cluster drv v c st).1
  unfolding fat_next_cluster
  fat_next_cluster-Same c st h =
      let (val, st') = fat_get_entry drv v c st in
      if_rule (λ (r : ℕ × State Disk). Same r.1) (fat_cluster_is_valid v c) _ _
        (λ e. fat_get_entry-Same c st h) λ e. fat_get_entry-Same c st h

  pub ruleset same_rules = (keeps_rules, load-Same, fat_next_cluster-Same)

  pub fat_read_root_entry-Same : (i : ℕ) → Keeps Same (fat_read_root_entry drv b v i)
  unfolding fat_read_root_entry
  fat_read_root_entry-Same i = search same_rules

  pub fat_read_cluster_entry-Same : (c o : ℕ) → Keeps Same (fat_read_cluster_entry drv b v c o)
  unfolding fat_read_cluster_entry
  fat_read_cluster_entry-Same c o = search same_rules

  pub fat_read_entry_at_loc-Same : (loc : Loc) → Keeps Same (fat_read_entry_at_loc drv b v loc)
  unfolding fat_read_entry_at_loc
  fat_read_entry_at_loc-Same loc = search same_rules

  pub fat_dir_loc_next-Same : (loc : Loc) → Keeps Same (fat_dir_loc_next drv b v loc)
  unfolding fat_dir_loc_next
  fat_dir_loc_next-Same loc = search same_rules

  -- The outcome of a reading has the table.
  abbrev Kept : Outcome drv b v → Type 0
  Kept r = Same r.1

  entry_read-Same :
      (dir next : FsDir) (r : Option Buffer × State Disk)
      → Same r.1
      → Kept (entry_read drv b v dir next r)
  unfolding entry_read
  entry_read-Same dir next (none, st) h = h
  entry_read-Same dir next (some raw, st) h = h

  cluster_turn-Same : (dir : FsDir) (st : State Disk) → Same st → Kept (cluster_turn drv b v dir st)
  unfolding cluster_turn
  cluster_turn-Same dir st h =
      entry_read-Same dir _ _ ((fat_read_cluster_entry-Same dir.cur_cluster dir.offset).at st h)

  crossed-Same : (dir : FsDir) (r : ℕ × State Disk) → Same r.1 → Kept (crossed drv b v dir r)
  unfolding crossed
  crossed-Same dir (next, st) h =
      if_rule Kept (ltb next 2) _ _ (λ e. h)
        λ e.
          if_rule Kept (next == dir.cur_cluster) _ _ (λ e'. h)
            λ e'.
              let dir₁ = record dir {
                cur_cluster = next;
                offset = 0;
                guard_clusters = u32 (dir.guard_clusters + 1);
              } in
              if_rule Kept (ltb (guard_limit v) dir₁.guard_clusters)
                ((record dir₁ { error = true }, none), st) (cluster_turn drv b v dir₁ st) (λ e''. h)
                λ e''. cluster_turn-Same dir₁ st h

  chain_turn-Same : (dir : FsDir) (st : State Disk) → Same st → Kept (chain_turn drv b v dir st)
  unfolding chain_turn
  chain_turn-Same dir st h =
      if_rule Kept (not (fat_cluster_is_valid v dir.cur_cluster)) _ _ (λ e. h)
        λ e.
          if_rule Kept (leb (cluster_bytes v) dir.offset) _ _
            (λ e'.
              crossed-Same dir (fat_next_cluster drv v dir.cur_cluster st)
                (fat_next_cluster-Same dir.cur_cluster st h))
            λ e'. cluster_turn-Same dir st h

  turn-Same : (dir : FsDir) (st : State Disk) → Same st → Kept (turn drv b v dir st)
  unfolding turn root_turn
  turn-Same dir st h =
      if_rule Kept (is_fixed v dir) _ _
        (λ e.
          if_rule Kept (leb b.root_ents dir.root_index) _ _ (λ e'. h)
            λ e'. entry_read-Same dir _ _ ((fat_read_root_entry-Same dir.root_index).at st h))
        λ e. chain_turn-Same dir st h

  judge-Same :
      (r : Outcome drv b v) (next : FsDir → State Disk → Outcome drv b v)
      → Kept r
      → ((dir : FsDir) (st : State Disk) → Same st → Kept (next dir st))
      → Kept (judge drv b v r next)
  unfolding judge
  judge-Same ((dir, none), st) next h k = h
  judge-Same ((dir, some raw), st) next h k = by_verdict (verdict raw)
    where
      by_verdict :
          (w : Verdict)
          → Kept (elim w as (λ x. Outcome drv b v) [
            | end_of_dir ↦ ((dir, none), st)
            | skipped ↦ next dir st
            | live ↦ ((dir, some raw), st)
          ])
      by_verdict end_of_dir = h
      by_verdict skipped = k dir st h
      by_verdict live = h

  read_loop-Same :
      (left : ℕ) (dir : FsDir) (st : State Disk) → Same st → Kept (read_loop drv b v left dir st)
  unfolding read_loop
  read_loop-Same zero dir st h = h
  read_loop-Same (suc left) dir st h =
      judge-Same (turn drv b v dir st) (λ dir' st'. read_loop drv b v left dir' st')
        (turn-Same dir st h) (read_loop-Same left)

  -- fat_dir_read_raw on a laid-out volume whose FAT covers its clusters: from a state with a given
  -- table and a cache in order, it leaves that table and a cache in order, whatever transfers fail
  -- and whatever the iterator and the directory hold.
  pub fat_dir_read_raw-Same :
      (dir : FsDir) (st : State Disk) → Same st → Same (fat_dir_read_raw drv b v dir st).1
  unfolding fat_dir_read_raw
  fat_dir_read_raw-Same dir st h =
      if_rule Kept dir.error _ _ (λ e. h) λ e. read_loop-Same _ dir st h

  match_or-Same :
      (name : Str) (r : Outcome drv b v) (next : FsDir → State Disk → Option Buffer × State Disk)
      → Kept r
      → ((dir : FsDir) (st : State Disk) → Same st → Same (next dir st).1)
      → Same (match_or drv b v name r next).1
  unfolding match_or
  match_or-Same name ((dir, none), st) next h k = h
  match_or-Same name ((dir, some raw), st) next h k = by_name (fat_names_equal (name_of raw) name)
    where
      by_name :
          (w : Bool)
          → Same
              (elim w as (λ x. Option Buffer × State Disk) [
                | true ↦ (some raw, st)
                | false ↦ next dir st
              ]).1
      by_name true = h
      by_name false = k dir st h

  find_loop-Same :
      (left : ℕ) (name : Str) (dir : FsDir) (st : State Disk)
      → Same st
      → Same (find_loop drv b v left name dir st).1
  unfolding find_loop
  find_loop-Same zero name dir st h = h
  find_loop-Same (suc left) name dir st h =
      match_or-Same name (fat_dir_read_raw drv b v dir st)
        (λ dir' st'. find_loop drv b v left name dir' st') (fat_dir_read_raw-Same dir st h)
        (find_loop-Same left name)

  pub fat_find_in_dir-Same : (c : ℕ) (name : Str) → Keeps Same (fat_find_in_dir drv b v c name)
  unfolding fat_find_in_dir
  fat_find_in_dir-Same c name = record { at = find_loop-Same _ name _ }
