-- ===== src/Perm.antt =====
-- kernel/sima_perm.c: who may access a path (`perm_check`, `perm_allow_path`), and permission modes as
-- text (`perm_parse_mode`, `perm_format_mode`). What these read from the other components is the
-- record `Context`: the current user, HOME, and the state of the file system that names paths.
pub mod Access
pub mod Mode
use seolsem.Base.{
  ℕ, ◌+◌, ◌-◌, ◌*◌, Bool, true, false, not, ◌&&◌, ◌||◌, Option, none, some, List, [], ◌∷◌, leb,
  ◌==◌, if◌then◌else◌, bit_and, bit_or, u16, Str, codes,
}
use seolsem.FilePath.{is_separator, fs_make_abs_path, path_max}

-- The fields of SIMA_USER that the checks read.
pub record User : Type 0 where
  pub used : Bool
  pub uid : ℕ

pub record Context : Type 0 where
  pub user : Option User
  pub home : Option Str
  pub cwd : Str
  pub ready : Bool

abbrev pub op_read : ℕ
op_read = 0x01

abbrev pub op_write : ℕ
op_write = 0x02

abbrev pub op_exec : ℕ
op_exec = 0x04

-- A flag of `operation` is set.
abbrev pub has : ℕ → ℕ → Bool
has operation flag = not (bit_and operation flag == 0)

abbrev pub bin : Str
bin = codes "/BIN"

abbrev pub sbin : Str
sbin = codes "/SBIN"

abbrev pub root_paths : List Str
root_paths = bin ∷ sbin ∷ codes "/ETC" ∷ codes "/BOOT" ∷ codes "/SYS" ∷ []

-- The path ends after the prefix, or a separator follows.
unfoldable pub ends_segment : Str → Bool
unfolding is_separator
ends_segment [] = true
ends_segment (c ∷ path) = is_separator c

unfoldable pub path_has_prefix : Str → Str → Bool
unfolding ends_segment
path_has_prefix path [] = ends_segment path
path_has_prefix [] (p ∷ prefix) = false
path_has_prefix (c ∷ path) (p ∷ prefix) = if c == p then path_has_prefix path prefix else false

unfoldable pub perm_is_root : Context → Bool
perm_is_root ctx = elim ctx.user [ none ↦ false | some u ↦ u.used && u.uid == 0 ]

abbrev pub absolute : Context → Option Str → Option Str
absolute ctx path = fs_make_abs_path ctx.ready ctx.cwd path path_max

unfoldable pub is_home_path : Context → Str → Bool
unfolding path_has_prefix
is_home_path ctx abs_path =
    let home : Str = elim ctx.home [
      | none ↦ codes "/"
      | some h ↦ elim h [ [] ↦ codes "/" | c ∷ s ↦ c ∷ s ]
    ] in
    elim (absolute ctx (some home)) [
      | none ↦ false
      | some home_abs ↦ path_has_prefix abs_path home_abs
    ]

any_prefix : Str → List Str → Bool
any_prefix abs_path [] = false
any_prefix abs_path (p ∷ paths) =
    if path_has_prefix abs_path p then true else any_prefix abs_path paths

unfoldable pub is_system_path : Str → Bool
unfolding path_has_prefix any_prefix
is_system_path abs_path = any_prefix abs_path root_paths

unfoldable pub perm_allow_path : Context → Option Str → Bool → Bool
perm_allow_path ctx path allow_bin_read =
    if perm_is_root ctx then true else elim (absolute ctx path) [
      | none ↦ false
      | some abs_path ↦
          if is_home_path ctx abs_path
          then true
          else if allow_bin_read && path_has_prefix abs_path bin
          then true
          else if is_system_path abs_path
          then false
          else true
    ]

-- `perm_check` on the absolute path of a user who is not root.
unfoldable pub check_abs : Context → Str → ℕ → Bool
check_abs ctx abs_path operation =
    if is_system_path abs_path
    then if has operation op_write
      then false
      else if has operation op_exec
      then if path_has_prefix abs_path bin || path_has_prefix abs_path sbin then true else false
      else true
    else if is_home_path ctx abs_path
    then true
    else true

unfoldable pub perm_check : Context → Option Str → ℕ → Bool
unfolding check_abs
perm_check ctx none operation = perm_is_root ctx
perm_check ctx (some path) operation =
    if perm_is_root ctx then true else elim (absolute ctx (some path)) [
      | none ↦ false
      | some abs_path ↦ check_abs ctx abs_path operation
    ]

-- The digits of `perm_parse_mode`.
pub octal_loop : ℕ → Str → Option ℕ
octal_loop mode [] = some mode
octal_loop mode (c ∷ str) =
    if leb b'0' c && leb c b'7'
    then octal_loop (bit_or (u16 (mode * 8)) (u16 (c - b'0'))) str
    else none

-- One leading zero is passed over.
unfoldable pub perm_parse_mode : Option Str → Option ℕ
unfolding octal_loop
perm_parse_mode none = none
perm_parse_mode (some []) = some 0
perm_parse_mode (some (c ∷ str)) = if c == b'0' then octal_loop 0 str else octal_loop 0 (c ∷ str)

abbrev flag : ℕ → ℕ → ℕ → ℕ
flag mode bit shown = if has mode bit then shown else b'-'

-- The x place of a class: the special bit turns it into a letter of its own.
abbrev place : ℕ → ℕ → ℕ → ℕ → ℕ → ℕ
place mode special exec both only =
    if has mode special then if has mode exec then both else only else flag mode exec b'x'

unfoldable pub perm_format_mode : ℕ → Str
perm_format_mode mode =
    flag mode 0x0100 b'r'
    ∷ flag mode 0x0080 b'w'
    ∷ place mode 0x0800 0x0040 b's' b'S'
    ∷ flag mode 0x0020 b'r'
    ∷ flag mode 0x0010 b'w'
    ∷ place mode 0x0400 0x0008 b's' b'S'
    ∷ flag mode 0x0004 b'r'
    ∷ flag mode 0x0002 b'w'
    ∷ place mode 0x0200 0x0001 b't' b'T'
    ∷ []
