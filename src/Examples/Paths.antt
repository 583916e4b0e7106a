-- ===== src/Examples/Paths.antt =====
-- The theorems on paths, names and permissions, at concrete ones.
use seolsem.Base.{◌+◌, ◌≡◌, ◌↔◌, ◌⊎◌, ℕ, refl, true, false, some, List, [], length, Str, codes}
use seolsem.FilePath.{
  is_separator, fs_make_abs_path, segments, walk_loop, fat_next_segment, name_max,
}
use seolsem.FilePath.Walk.{IsCanonical, segments-IsCanonical}
use seolsem.Fat.Name.{fat_names_equal}
use seolsem.Perm.{Context, absolute, perm_check, perm_is_root, op_write}
use seolsem.Perm.Access.{MayDo, perm_check_iff, perm_check-trailing_dot}

-- The user ann, in her home directory.
abbrev ann : Context
ann = record {
  user = some (record { used = true; uid = 1000 });
  home = some (codes "/HOME/ANN");
  cwd = codes "/HOME/ANN";
  ready = true;
}

segments-IsCanonical_example :
    ((segs : List Str) → segments (codes "/HOME") (codes "/a/../b") ≡ some segs → IsCanonical segs)
    × (walk_loop (length (codes "/a/../b") + 3) (codes "/a/../b") []
        ≡ segments (codes "/HOME") (codes "/a/../b"))
unfolding is_separator
segments-IsCanonical_example = segments-IsCanonical (codes "/HOME") (codes "/a/../b") 3 refl

perm_check_iff_example : (perm_check ann (some (codes "../../etc/passwd")) op_write ≡ true) ↔ (
    (perm_is_root ann ≡ true)
    ⊎ ((p : Str) × (some (codes "../../etc/passwd") ≡ some p)
        × (abs_path : Str) × (absolute ann (some (codes "../../etc/passwd")) ≡ some abs_path)
        × MayDo abs_path op_write))
perm_check_iff_example = perm_check_iff ann (some (codes "../../etc/passwd")) op_write

perm_check-trailing_dot_example :
    (perm_check ann (some (codes "/etc./passwd")) op_write ≡ true)
    × (perm_check ann (some (codes "/etc/passwd")) op_write ≡ false)
    × (fat_next_segment (codes "/ETC./PASSWD") name_max ≡ some (codes "ETC.", codes "/PASSWD"))
    × ((raw : List ℕ) → fat_names_equal raw (codes "ETC.") ≡ fat_names_equal raw (codes "ETC"))
unfolding fs_make_abs_path perm_is_root
perm_check-trailing_dot_example =
    perm_check-trailing_dot ann (codes "/etc./passwd") (codes "/etc/passwd") (codes "PASSWD")
      op_write refl refl refl refl
