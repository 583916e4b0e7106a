-- ===== src/Perm/Access.antt =====
-- kernel/sima_perm.c: the access policy that `perm_check` and `perm_allow_path` carry out.
use seolsem.Base.{
  ℕ, ◌≡◌, refl, ap, ◌∙◌, Bool, true, false, Option, none, some, List, [], ◌∷◌, ◌++◌, ◌==◌, ◌⊎◌, inl,
  inr, ◌↔◌, Str, codes, arith, Bool-cases, Option-cases,
}
use seolsem.FilePath.{is_separator, fat_skip_separators, take_segment, fat_next_segment, name_max}
use seolsem.Perm.{
  Context, absolute, op_write, op_exec, has, bin, sbin, root_paths, ends_segment, path_has_prefix,
  perm_is_root, is_home_path, any_prefix, is_system_path, perm_allow_path, check_abs, perm_check,
}
use seolsem.Fat.Name.{fat_build_83, same_upper, fat_names_equal, fat_build_83-dot}

-- The path is the directory `p` or lies in it.
unfoldable pub IsUnder : Str → Str → Type 0
IsUnder p path = (rest : Str) × (path ≡ p ++ rest) × (ends_segment rest ≡ true)

unfoldable pub IsUnderAny : List Str → Str → Type 0
IsUnderAny [] path = ⊥
IsUnderAny (p ∷ paths) path = IsUnder p path ⊎ IsUnderAny paths path

prefix-IsUnder : (p path : Str) → path_has_prefix path p ≡ true → IsUnder p path
unfolding IsUnder path_has_prefix
prefix-IsUnder [] path h = (path, refl, h)
prefix-IsUnder (x ∷ p) [] h = ground arith
prefix-IsUnder (x ∷ p) (c ∷ path) h = elim (Bool-cases (c == x)) [
  | inl e ↦
      let (rest, q, k) = prefix-IsUnder p path (ground (arith, e, h)) in
      (rest, ground (arith, e, q), k)
  | inr e ↦ ground (arith, e, h)
]

under-prefix : (p rest : Str) → ends_segment rest ≡ true → path_has_prefix (p ++ rest) p ≡ true
unfolding path_has_prefix
under-prefix [] rest h = h
under-prefix (x ∷ p) rest h = ground (arith, under-prefix p rest h)

prefix_iff : (p path : Str) → (path_has_prefix path p ≡ true) ↔ IsUnder p path
unfolding IsUnder
prefix_iff p path =
    (prefix-IsUnder p path, λ (rest, q, k). ap (λ s. path_has_prefix s p) q ∙ under-prefix p rest k)

any_iff : (paths : List Str) (path : Str) → (any_prefix path paths ≡ true) ↔ IsUnderAny paths path
unfolding any_prefix IsUnderAny
any_iff [] path = ground arith
any_iff (p ∷ paths) path = ground (arith, prefix_iff p path, any_iff paths path)

system_iff : (path : Str) → (is_system_path path ≡ true) ↔ IsUnderAny root_paths path
unfolding is_system_path
system_iff path = any_iff root_paths path

-- What a user who is not root may do at an absolute path.
pub MayDo : Str → ℕ → Type 0
MayDo path operation =
    ¬ IsUnderAny root_paths path
    ⊎ (has operation op_write ≡ false)
      × ((has operation op_exec ≡ true) → IsUnder bin path ⊎ IsUnder sbin path)

check_abs_iff :
    (ctx : Context) (path : Str) (operation : ℕ)
    → (check_abs ctx path operation ≡ true) ↔ MayDo path operation
unfolding check_abs MayDo
check_abs_iff ctx path operation =
    ground (arith, system_iff path, prefix_iff bin path, prefix_iff sbin path)

-- For every user and every path: perm_check says yes exactly when the user is root, or the path is
-- not NULL and resolves to an absolute path that lies outside /BIN, /SBIN, /ETC, /BOOT and /SYS,
-- or lies there while the operation has no write in it and has an exec only under /BIN or /SBIN.
pub perm_check_iff :
    (ctx : Context) (path : Option Str) (operation : ℕ)
    → (perm_check ctx path operation ≡ true) ↔ (
        (perm_is_root ctx ≡ true)
        ⊎ ((p : Str) × (path ≡ some p)
            × (abs_path : Str) × (absolute ctx path ≡ some abs_path)
            × MayDo abs_path operation))
unfolding perm_check
perm_check_iff ctx none operation = ground arith
perm_check_iff ctx (some p) operation = elim (Option-cases (absolute ctx (some p))) [
  | inl e ↦ rw e (ground (arith, e))
  | inr (a, e) ↦ rw e (ground (arith, e, check_abs_iff ctx a operation))
]

-- For every user and every path: perm_allow_path says yes exactly when the user is root, or the
-- path resolves and lies under HOME, or under /BIN where the caller allows reading it, or outside
-- /BIN, /SBIN, /ETC, /BOOT and /SYS.
pub perm_allow_path_iff :
    (ctx : Context) (path : Option Str) (allow_bin_read : Bool)
    → (perm_allow_path ctx path allow_bin_read ≡ true) ↔ (
        (perm_is_root ctx ≡ true)
        ⊎ ((abs_path : Str) × (absolute ctx path ≡ some abs_path)
            × ((is_home_path ctx abs_path ≡ true)
                ⊎ (allow_bin_read ≡ true) × IsUnder bin abs_path
                ⊎ ¬ IsUnderAny root_paths abs_path)))
unfolding perm_allow_path
perm_allow_path_iff ctx path allow = elim (Option-cases (absolute ctx path)) [
  | inl e ↦ rw e (ground (arith, e))
  | inr (a, e) ↦ rw e (ground (arith, e, system_iff a, prefix_iff bin a))
]

same_entries :
    (raw : List ℕ) (s t : Str)
    → fat_build_83 s ≡ fat_build_83 t
    → fat_names_equal raw s ≡ fat_names_equal raw t
unfolding fat_names_equal
same_entries raw s t e =
    ap (λ (o : Option (List ℕ)). elim o [ none ↦ false | some n ↦ same_upper raw n ]) e

-- For a user who is not root and an operation with a write in it: a path that resolves to "/ETC./"
-- and more passes perm_check, where one that resolves to "/ETC/" and the same does not, though the
-- segment that fat_next_segment takes off the former, "ETC.", is equal to the names of the same
-- directory entries as "ETC".
pub perm_check-trailing_dot :
    (ctx : Context) (path plain : Str) (rest : Str) (operation : ℕ)
    → perm_is_root ctx ≡ false
    → has operation op_write ≡ true
    → absolute ctx (some path) ≡ some (codes "/ETC./" ++ rest)
    → absolute ctx (some plain) ≡ some (codes "/ETC/" ++ rest)
    → (perm_check ctx (some path) operation ≡ true)
      × (perm_check ctx (some plain) operation ≡ false)
      × (fat_next_segment (codes "/ETC./" ++ rest) name_max
          ≡ some (codes "ETC.", codes "/" ++ rest))
      × ((raw : List ℕ) → fat_names_equal raw (codes "ETC.") ≡ fat_names_equal raw (codes "ETC"))
unfolding perm_check check_abs is_system_path path_has_prefix any_prefix is_separator
    fat_next_segment fat_skip_separators take_segment
perm_check-trailing_dot ctx path plain rest operation user writes h k = (
  rw h (ground arith),
  rw k (ground (arith, user, writes)),
  refl,
  λ raw.
      same_entries raw (codes "ETC.") (codes "ETC")
        (fat_build_83-dot b'E' (codes "TC") (ground arith)),
)
