-- ===== src/Dir/Search.antt =====
-- kernel/sima_fs.c, the search for an entry and its place: `fat_find_in_dir_loc`.
use seolsem.Base.{
  ℕ, zero, suc, ◌+◌, ◌*◌, ◌/◌, Bool, true, false, not, ◌&&◌, Option, none, some, [], ◌∷◌, ltb, ◌==◌,
  if◌then◌else◌, Str,
}
use seolsem.Fat.{Drive, Volume, State}
use seolsem.Fat.Bytes.{Buffer}
use seolsem.Fat.Mount.{Bpb, is_fat32}
use seolsem.Fat.Name.{fat_names_equal}
use seolsem.Fat.Table.{fat_cluster_is_valid, fat_max_cluster, fat_next_cluster}
use seolsem.Act.{Act, pure, fail, lift, call, require, ◌>>=◌, ◌>>◌}
use seolsem.Dir.{Loc, name_of, cluster_bytes, fat_read_root_entry, fat_read_cluster_entry}
use seolsem.Dir.Find.{Verdict, end_of_dir, skipped, live, verdict}

-- `max_iter` of the loops over the clusters of a directory.
unfoldable pub max_iter : Volume → ℕ
max_iter v = if ltb 8192 (fat_max_cluster v) then 8192 else fat_max_cluster v

module _ (drv : Drive) (b : Bpb) (v : Volume) where
  open drv use {Disk}

  -- What the tests lead to in `fat_find_in_dir_loc`.
  unfoldable pub on_verdict :
      {A : Type 0} → Verdict → Act (State Disk) A → Act (State Disk) A → Act (State Disk) A
  on_verdict end_of_dir go_on found = fail
  on_verdict skipped go_on found = go_on
  on_verdict live go_on found = found

  -- `left` entries from the one of index `i`; `none` if none of them is the end or has the name.
  unfoldable pub search_loop :
      (ℕ → Act (State Disk) Buffer)
      → (ℕ → Loc)
      → Str
      → ℕ
      → ℕ
      → Act (State Disk) (Option (Buffer × Loc))
  unfolding on_verdict verdict
  search_loop read loc_of name zero i = pure none
  search_loop read loc_of name (suc left) i = do
    raw ← read i
    on_verdict (verdict raw) (search_loop read loc_of name left (i + 1)) (
        if fat_names_equal (name_of raw) name
        then pure (some (raw, loc_of i))
        else search_loop read loc_of name left (i + 1))

  abbrev pub root_loc : ℕ → Loc
  root_loc index = record { root = true; root_index = index; cluster = 0; offset = 0 }

  abbrev pub cluster_loc : ℕ → ℕ → Loc
  cluster_loc cluster offset = record {
    root = false;
    root_index = 0;
    cluster = cluster;
    offset = offset;
  }

  unfoldable pub search_cluster : Str → ℕ → Act (State Disk) (Option (Buffer × Loc))
  unfolding search_loop cluster_bytes
  search_cluster name cluster =
      search_loop (λ i. fat_read_cluster_entry drv b v cluster (i * 32))
        (λ i. cluster_loc cluster (i * 32)) name (cluster_bytes v / 32) 0

  -- The loop over clusters, with `left` of them to go.
  unfoldable pub or_next :
      ℕ
      → Option (Buffer × Loc)
      → (ℕ → Act (State Disk) (Buffer × Loc))
      → Act (State Disk) (Buffer × Loc)
  or_next cluster (some found) rest = pure found
  or_next cluster none rest = do next ← call (fat_next_cluster drv v cluster); rest next

  unfoldable pub search_chain : Str → ℕ → ℕ → Act (State Disk) (Buffer × Loc)
  unfolding search_cluster or_next
  search_chain name zero cluster = fail
  search_chain name (suc left) cluster = if not (fat_cluster_is_valid v cluster) then fail else do
    found ← search_cluster name cluster
    or_next cluster found (λ next. search_chain name left next)

  abbrev is_empty : Str → Bool
  is_empty [] = true
  is_empty (c ∷ s) = false

  unfoldable pub search_root : Str → Act (State Disk) (Buffer × Loc)
  unfolding search_loop
  search_root name = do
    found ← search_loop (λ i. fat_read_root_entry drv b v i) root_loc name b.root_ents 0
    lift found

  unfoldable pub fat_find_in_dir_loc : ℕ → Str → Act (State Disk) (Buffer × Loc)
  unfolding search_root search_chain max_iter
  fat_find_in_dir_loc dir_cluster name = do
    require (not (is_empty name))
    if not (is_fat32 v.fat_type) && dir_cluster == 0
        then search_root name
        else (search_chain name (max_iter v + 1) dir_cluster)
