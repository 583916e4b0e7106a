-- ===== src/Dir/Found.antt =====
-- kernel/sima_fs.c, what `fat_dir_read_raw` and `fat_find_in_dir` return: an entry in use, with the
-- name that was asked for, after a search that ends.
use mathlib.Core.Option.{some-injective}
use mathlib.Core.Path.{subst}
use seolsem.Base.{
  ℕ, zero, suc, ◌≤◌, ◌<◌, ◌≡◌, refl, Bool, true, false, ◌≢◌, List, [], ◌∷◌, ◌==◌, Option, none,
  some, Str, arith, if_rule,
}
use seolsem.Fat.{Drive, Volume, State}
use seolsem.Fat.Bytes.{Buffer}
use seolsem.Fat.Mount.{Bpb}
use seolsem.Fat.Name.{fat_build_83, same_upper, fat_names_equal}
use seolsem.FilePath.{upper}
use seolsem.Dir.{FsDir, name_of}
use seolsem.Dir.Find.{
  Verdict, end_of_dir, skipped, live, verdict, rounds, Outcome, turn, judge, read_loop,
  fat_dir_read_raw, match_or, find_loop, start_of, fat_find_in_dir,
}
use seolsem.Dir.Ends.{IsSmall, measure, measure-lt, turn-Falls}

module _ (drv : Drive) (b : Bpb) (v : Volume) where
  open drv use {Disk}

  -- What a reading returned: an entry in use, from an iterator that then has less to go.
  pub record Reads (dir : FsDir) (r : Outcome drv b v) : Type 0 where
    pub in_use : (raw : Buffer) → r.0.1 ≡ some raw → verdict raw ≡ live
    pub nearer : (raw : Buffer) → r.0.1 ≡ some raw → measure b v r.0.0 < measure b v dir

  none-Reads : (dir dir' : FsDir) (st : State Disk) → Reads dir ((dir', none), st)
  none-Reads dir dir' st = record { in_use = λ raw. cc; nearer = λ raw. cc }

  judge-Reads :
      (dir : FsDir) (r : Outcome drv b v) (next : FsDir → State Disk → Outcome drv b v)
      → ((raw : Buffer) → r.0.1 ≡ some raw → measure b v r.0.0 < measure b v dir)
      → ((dir' : FsDir) (st : State Disk) → Reads dir' (next dir' st))
      → Reads dir (judge drv b v r next)
  unfolding judge
  judge-Reads dir ((dir', none), st) next falls later = none-Reads dir dir' st
  judge-Reads dir ((dir', some raw), st) next falls later = by_verdict (verdict raw) refl
    where
      less : measure b v dir' < measure b v dir
      less = falls raw refl

      by_verdict :
          (w : Verdict)
          → verdict raw ≡ w
          → Reads dir (elim w as (λ x. Outcome drv b v) [
            | end_of_dir ↦ ((dir', none), st)
            | skipped ↦ next dir' st
            | live ↦ ((dir', some raw), st)
          ])
      by_verdict end_of_dir e = none-Reads dir dir' st
      by_verdict skipped e = record {
        in_use = (later dir' st).in_use;
        nearer = λ raw' q. omega (arith, (later dir' st).nearer raw' q, less);
      }
      by_verdict live e = record {
        in_use = λ raw' q. subst (λ x. verdict x ≡ live) (some-injective raw raw' q) e;
        nearer = λ raw' q. less;
      }

  module _ (small : IsSmall b v) where
    read_loop-Reads :
        (left : ℕ) (dir : FsDir) (st : State Disk) → Reads dir (read_loop drv b v left dir st)
    unfolding read_loop
    read_loop-Reads zero dir st = none-Reads dir dir st
    read_loop-Reads (suc left) dir st =
        judge-Reads dir (turn drv b v dir st) (λ dir' st'. read_loop drv b v left dir' st')
          (turn-Falls drv b v small dir st) λ dir' st'. read_loop-Reads left dir' st'

    -- fat_dir_read_raw on a volume whose fields fit 16 bits and whose clusters have at most 128
    -- sectors: an entry that it returns is neither the end, nor deleted, nor part of a long name,
    -- and the iterator has less of the directory to go than before.
    pub fat_dir_read_raw-Reads :
        (dir : FsDir) (st : State Disk) → Reads dir (fat_dir_read_raw drv b v dir st)
    unfolding fat_dir_read_raw
    fat_dir_read_raw-Reads dir st =
        if_rule (Reads dir) dir.error ((dir, none), st) (read_loop drv b v (rounds b v) dir st)
          (λ e. none-Reads dir dir st) λ e. read_loop-Reads (rounds b v) dir st

    -- The entry has the name, and is in use.
    abbrev Found : Str → Option Buffer × State Disk → Type 0
    Found name r =
        (raw : Buffer)
        → r.0 ≡ some raw
        → (verdict raw ≡ live) × (fat_names_equal (name_of raw) name ≡ true)

    match_or-Found :
        (name : Str) (dir : FsDir) (r : Outcome drv b v)
        (next : FsDir → State Disk → Option Buffer × State Disk)
        → Reads dir r
        → ((dir' : FsDir) (st : State Disk) → Found name (next dir' st))
        → Found name (match_or drv b v name r next)
    unfolding match_or
    match_or-Found name dir ((dir', none), st) next h later = λ raw. cc
    match_or-Found name dir ((dir', some raw), st) next h later =
        by_name (fat_names_equal (name_of raw) name) refl
      where
        by_name :
            (w : Bool)
            → fat_names_equal (name_of raw) name ≡ w
            → Found name (elim w as (λ x. Option Buffer × State Disk) [
              | true ↦ (some raw, st)
              | false ↦ next dir' st
            ])
        by_name true e = λ raw' q.
            subst (λ x. (verdict x ≡ live) × (fat_names_equal (name_of x) name ≡ true))
              (some-injective raw raw' q) (h.in_use raw refl, e)
        by_name false e = later dir' st

    find_loop-Found :
        (left : ℕ) (name : Str) (dir : FsDir) (st : State Disk)
        → Found name (find_loop drv b v left name dir st)
    unfolding find_loop
    find_loop-Found zero name dir st = λ raw. cc
    find_loop-Found (suc left) name dir st =
        match_or-Found name dir (fat_dir_read_raw drv b v dir st)
          (λ dir' st'. find_loop drv b v left name dir' st') (fat_dir_read_raw-Reads dir st)
          λ dir' st'. find_loop-Found left name dir' st'

    -- The entry is in use, and its name is `name` in the form of a directory entry.
    pub record IsEntryOf (name : Str) (raw : Buffer) : Type 0 where
      pub some_entry : raw 0 ≢ 0
      pub not_deleted : raw 0 ≢ 0xE5
      pub not_long_name : raw 11 ≢ 0x0F
      pub built : List ℕ
      pub name83 : fat_build_83 name ≡ some built
      pub same :
          upper (
            raw 0
            ∷ raw 1
            ∷ raw 2
            ∷ raw 3
            ∷ raw 4
            ∷ raw 5
            ∷ raw 6
            ∷ raw 7
            ∷ raw 8
            ∷ raw 9
            ∷ raw 10
            ∷ [])
          ≡ built

    live-tests :
        (raw : Buffer)
        → verdict raw ≡ live
        → (raw 0 == 0 ≡ false) × (raw 0 == 0xE5 ≡ false) × (raw 11 == 0x0F ≡ false)
    unfolding verdict
    live-tests raw e = (ground (arith, e), ground (arith, e), ground (arith, e))

    same_upper_sound : (raw n : List ℕ) → same_upper raw n ≡ true → upper raw ≡ n
    unfolding same_upper
    same_upper_sound [] [] e = refl
    same_upper_sound [] (b ∷ n) e = cc
    same_upper_sound (a ∷ raw) [] e = cc
    same_upper_sound (a ∷ raw) (b ∷ n) e = ground (arith, same_upper_sound raw n, e)

    fat_names_equal_sound :
        (raw : List ℕ) (name : Str)
        → fat_names_equal raw name ≡ true
        → (n : List ℕ) × (fat_build_83 name ≡ some n) × (upper raw ≡ n)
    unfolding fat_names_equal
    fat_names_equal_sound raw name e = by_name (fat_build_83 name) refl e
      where
        by_name :
            (o : Option (List ℕ))
            → fat_build_83 name ≡ o
            → (elim o as (λ x. Bool) [ none ↦ false | some n ↦ same_upper raw n ]) ≡ true
            → (n : List ℕ) × (fat_build_83 name ≡ some n) × (upper raw ≡ n)
        by_name none q h = cc
        by_name (some n) q h = (n, q, same_upper_sound raw n h)

    IsEntryOf-Found :
        (name : Str) (raw : Buffer)
        → (verdict raw ≡ live) × (fat_names_equal (name_of raw) name ≡ true)
        → IsEntryOf name raw
    unfolding name_of
    IsEntryOf-Found name raw (used, equal) =
        let (a, b', c) = live-tests raw used in
        let (n, e, q) = fat_names_equal_sound (name_of raw) name equal in
        record {
          some_entry = ground arith;
          not_deleted = ground arith;
          not_long_name = ground arith;
          built = n;
          name83 = e;
          same = q;
        }

    -- fat_find_in_dir on a volume whose fields fit 16 bits and whose clusters have at most 128
    -- sectors, for any directory, name and state: an entry that it returns is in use (its first
    -- byte is neither 0 nor 0xE5, and its attribute byte is not 0x0F), and its first 11 bytes, in
    -- upper case, are those of the name that was asked for in the 8.3 form.
    pub fat_find_in_dir-Found :
        (dir_cluster : ℕ) (name : Str) (st : State Disk) (raw : Buffer)
        → (fat_find_in_dir drv b v dir_cluster name st).0 ≡ some raw
        → IsEntryOf name raw
    unfolding fat_find_in_dir
    fat_find_in_dir-Found dir_cluster name st raw e =
        IsEntryOf-Found name raw
          (find_loop-Found (rounds b v) name (start_of drv b v dir_cluster) st raw e)

    match_or-agree :
        (name : Str) (dir : FsDir) (r : Outcome drv b v)
        (next next' : FsDir → State Disk → Option Buffer × State Disk)
        → Reads dir r
        → ((dir' : FsDir) (st : State Disk)
            → measure b v dir' < measure b v dir
            → next dir' st ≡ next' dir' st)
        → match_or drv b v name r next ≡ match_or drv b v name r next'
    unfolding match_or
    match_or-agree name dir ((dir', none), st) next next' h agree = refl
    match_or-agree name dir ((dir', some raw), st) next next' h agree =
        by_name (fat_names_equal (name_of raw) name) (agree dir' st (h.nearer raw refl))
      where
        by_name :
            (w : Bool)
            → next dir' st ≡ next' dir' st
            → (elim w as (λ x. Option Buffer × State Disk) [
              | true ↦ (some raw, st)
              | false ↦ next dir' st
            ])
              ≡ (elim w as (λ x. Option Buffer × State Disk) [
                | true ↦ (some raw, st)
                | false ↦ next' dir' st
              ])
        by_name true e = refl
        by_name false e = e

    find_loop-agree :
        (f g : ℕ) (name : Str) (dir : FsDir) (st : State Disk)
        → measure b v dir < f
        → measure b v dir < g
        → find_loop drv b v f name dir st ≡ find_loop drv b v g name dir st
    unfolding find_loop
    find_loop-agree zero g name dir st l m = absurd (omega arith)
    find_loop-agree (suc f) zero name dir st l m = absurd (omega arith)
    find_loop-agree (suc f) (suc g) name dir st l m =
        match_or-agree name dir (fat_dir_read_raw drv b v dir st)
          (λ dir' st'. find_loop drv b v f name dir' st')
          (λ dir' st'. find_loop drv b v g name dir' st') (fat_dir_read_raw-Reads dir st)
          λ dir' st' n. find_loop-agree f g name dir' st' (omega arith) (omega arith)

    -- The loop of fat_find_in_dir on a volume whose fields fit 16 bits and whose clusters have at
    -- most 128 sectors, for any name, iterator and state: it ends within `rounds` readings, since
    -- any number of them from there on gives the same result and state.
    pub find_loop-rounds :
        (left : ℕ) (name : Str) (dir : FsDir) (st : State Disk)
        → rounds b v ≤ left
        → find_loop drv b v left name dir st ≡ find_loop drv b v (rounds b v) name dir st
    find_loop-rounds left name dir st l =
        let lt = measure-lt b v dir in
        find_loop-agree left (rounds b v) name dir st (omega arith) lt
