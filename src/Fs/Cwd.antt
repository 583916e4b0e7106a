-- ===== src/Fs/Cwd.antt =====
-- kernel/sima_fs.c, the current directory: what `fs_cd` leaves of it where it fails, and where
-- `fat_resolve_dir` leads with a segment that is too long.
use mathlib.Core.Path.{subst}
use seolsem.Base.{
  ℕ, suc, ◌+◌, ◌≤◌, ◌<◌, ◌≡◌, refl, sym, Bool, true, false, Option, none, some, [], ◌∷◌, arith, leb,
  if◌then◌else◌, if_rule, length, Str, All, ◌||◌,
}
use seolsem.Fat.{Drive, Volume, State}
use seolsem.Fat.Mount.{Bpb}
use seolsem.FilePath.{
  is_separator, take_segment, fat_next_segment, fat_skip_separators, name_max, is_dot,
}
use seolsem.Act.{Act, done, continue, succeeds, ◌>>=◌}
use seolsem.Dir.Resolve.{dir_segment, dir_loop, fat_resolve_dir, start_dir}
use seolsem.File.{is_nil}
use seolsem.Fs.{Session, on_fat, fs_is_ready, set_cwd, new_path, is_root_path, fs_cd}

take_segment-none :
    (cap len : ℕ) (s : Str)
    → All (λ c. is_separator c ≡ false) s
    → len < cap
    → cap ≤ len + length s
    → take_segment cap len s ≡ none
unfolding take_segment
take_segment-none cap len [] h l m = absurd (omega arith)
take_segment-none cap len (c ∷ s) (sep, h) l m = rw sep (
    if_rule (λ r. r ≡ none) (leb cap (len + 1)) none _ (λ e. refl)
      λ e. rw (take_segment-none cap (len + 1) s h (ground arith) (omega arith)) refl)

fat_skip_separators-same :
    (c : ℕ) (path : Str) → is_separator c ≡ false → fat_skip_separators (c ∷ path) ≡ c ∷ path
unfolding fat_skip_separators
fat_skip_separators-same c path sep = rw sep refl

long-refused :
    (c : ℕ) (path : Str)
    → All (λ x. is_separator x ≡ false) (c ∷ path)
    → 12 ≤ length path
    → fat_next_segment (c ∷ path) name_max ≡ none
unfolding fat_next_segment
long-refused c path (sep, h) l =
    subst
      (λ (cursor : Str).
        (elim cursor as (λ x. Option (Str × Str)) [
          | [] ↦ none
          | d ∷ ds ↦ take_segment name_max 0 (d ∷ ds)
        ])
        ≡ none)
      (sym (fat_skip_separators-same c path sep))
      (take_segment-none name_max 0 (c ∷ path) (sep, h) (omega arith) (omega arith))

next_segment-none :
    (c : ℕ) (path : Str)
    → All (λ x. is_separator x ≡ false) (c ∷ path)
    → 12 ≤ length path
    → fat_next_segment (fat_skip_separators (c ∷ path)) name_max ≡ none
next_segment-none c path (sep, h) l =
    subst (λ cursor. fat_next_segment cursor name_max ≡ none)
      (sym (fat_skip_separators-same c path sep)) (long-refused c path (sep, h) l)

module _ (drv : Drive) (b : Bpb) (v : Volume) where
  open drv use {Disk}

  -- fat_resolve_dir of a path that is one segment of more than 12 bytes, with any current
  -- directory and state: it returns TRUE with the current directory, and touches neither the disk
  -- nor the cache.
  pub fat_resolve_dir-long :
      (cwd c : ℕ) (path : Str) (st : State Disk)
      → All (λ x. is_separator x ≡ false) (c ∷ path)
      → 12 ≤ length path
      → fat_resolve_dir drv b v cwd (c ∷ path) st ≡ (some cwd, st)
  unfolding fat_resolve_dir dir_loop dir_segment start_dir ◌>>=◌
  fat_resolve_dir-long cwd c path st (sep, h) l =
      let fuel : length path + 2 ≡ suc (suc (length path)) = omega arith in
      rw (fuel, next_segment-none c path (sep, h) l, sep) refl

  -- The result of a change of directory from `s`: a FALSE leaves the current directory.
  pub record Moves (s : Session Disk) (r : Option (Unit {0}) × Session Disk) : Type 0 where
    pub ready : r.1.ready ≡ s.ready
    pub cluster : r.0 ≡ none → r.1.cwd_cluster ≡ s.cwd_cluster
    pub path : r.0 ≡ none → r.1.cwd_path ≡ s.cwd_path

  moved-Moves :
      (path : Str) (s : Session Disk) (r : Option ℕ × State Disk)
      → Moves s (
          continue r.0
            (λ target. set_cwd drv b v target (λ base. new_path drv b v base path))
            (record s { fat = r.1 }))
  unfolding set_cwd succeeds
  moved-Moves path s (none, st) = record { ready = refl; cluster = λ e. refl; path = λ e. refl }
  moved-Moves path s (some c, st) = record { ready = refl; cluster = λ e. cc; path = λ e. cc }

  done-Moves :
      (t : Bool) (m : Act (Session Disk) Unit) (s : Session Disk)
      → Moves s (m s)
      → Moves s (continue (done t) (λ u. m) s)
  done-Moves true m s h = h
  done-Moves false m s h = record { ready = refl; cluster = λ e. refl; path = λ e. refl }

  if-Moves :
      (t : Bool) (m n : Act (Session Disk) Unit) (s : Session Disk)
      → Moves s (m s)
      → Moves s (n s)
      → Moves s ((if t then m else n) s)
  if-Moves true m n s h k = h
  if-Moves false m n s h k = k

  -- fs_cd, for any path, from any session: where it returns FALSE, be it that no volume is
  -- mounted, that a transfer failed or that the path leads nowhere, the current directory and its
  -- text are as before; g_fs_ready never changes.
  pub fs_cd-Moves : (path : Str) (s : Session Disk) → Moves s (fs_cd drv b v path s)
  unfolding fs_cd set_cwd fs_is_ready on_fat ◌>>=◌ succeeds
  fs_cd-Moves path s =
      let target = fat_resolve_dir drv b v s.cwd_cluster path s.fat in
      done-Moves s.ready _ s (
        if-Moves (is_nil path || is_dot path) _ _ s
          (record { ready = refl; cluster = λ e. cc; path = λ e. cc })
          (if-Moves (is_root_path path) _ _ s
            (record { ready = refl; cluster = λ e. cc; path = λ e. cc })
            (moved-Moves path s target)))
