-- ===== src/Shell/Denied.antt =====
-- The commands on a path that the user may not touch: `deny_if_forbidden` ends them.
use mathlib.Core.Path.{subst}
use seolsem.Base.{
  ℕ, ◌≡◌, refl, true, false, some, [], ◌∷◌, ◌++◌, Str, codes, Bool-cases, inl, inr, arith,
}
use seolsem.Act.{Act, ◌>>=◌, succeeds}
use seolsem.Fat.{Drive, Volume}
use seolsem.Fat.Mount.{Bpb}
use seolsem.Mem.Copying.{strcpy}
use seolsem.Perm.{Context, absolute, root_paths, perm_is_root, is_home_path, perm_allow_path}
use seolsem.Perm.Access.{IsUnderAny, perm_allow_path_iff}
use seolsem.Shell.{Machine, Shell, message, context, guarded, deny_if_forbidden, print_simple}
use seolsem.Shell.Files.{run_ls, run_cat, run_write, run_rm, run_rmdir, run_mkdir}
use seolsem.Shell.Programs.{run_edit}

-- The user is not root, and the path lies in a directory of the system but not under HOME.
pub record IsForbidden (ctx : Context) (path : Str) : Type 0 where
  pub abs_path : Str
  pub resolves : absolute ctx (some path) ≡ some abs_path
  pub not_root : perm_is_root ctx ≡ false
  pub not_home : is_home_path ctx abs_path ≡ false
  pub system : IsUnderAny root_paths abs_path

not_allowed :
    (ctx : Context) (path : Str)
    → IsForbidden ctx path
    → perm_allow_path ctx (some path) false ≡ true
    → ⊥
not_allowed ctx path f e = elim ((perm_allow_path_iff ctx (some path) false).0 e) [
  | inl root ↦ cc
  | inr (abs_path, same, inl home) ↦ ground (arith, f.resolves, f.not_home, same, home)
  | inr (abs_path, same, inr (inl bin)) ↦ cc
  | inr (abs_path, same, inr (inr outside)) ↦
      let e : f.abs_path ≡ abs_path = ground (arith, f.resolves, same) in
      outside (subst (λ p. IsUnderAny root_paths p) e f.system)
]

module _ {Disk : Type 0} where
  -- The state with the refusal on the screen, and nothing else changed.
  abbrev pub refused : Shell Disk → Shell Disk
  refused s = record s { screen = s.screen ++ message (codes "Permission denied.") ∷ [] }

  guarded-refused :
      (path : Str) (rest : Act (Shell Disk) Unit) (s : Shell Disk)
      → IsForbidden (context s.loader.fs) path
      → guarded path false rest s ≡ (some tt, refused s)
  unfolding guarded deny_if_forbidden print_simple ◌>>=◌ succeeds strcpy
  guarded-refused path rest s f =
      elim (Bool-cases (perm_allow_path (context s.loader.fs) (some path) false)) [
        | inl e ↦ absurd (not_allowed (context s.loader.fs) path f e)
        | inr e ↦ rw e refl
      ]

module _ (drv : Drive) (b : Bpb) (v : Volume) (hw : Machine drv) where
  open drv use {Disk}

  -- The command returns TRUE, prints the refusal and changes nothing else.
  abbrev pub Refuses : Act (Shell Disk) Unit → Shell Disk → Type 0
  Refuses command s = command s ≡ (some tt, refused s)

  -- For a user who is not root and a path, not empty, that resolves into /BIN, /SBIN, /ETC, /BOOT
  -- or /SYS and does not lie under HOME, in any state: ls, cat, write, edit, rm, rmdir and mkdir
  -- of it return TRUE, print "Permission denied." and change nothing else.
  pub commands-Refuses :
      (c : ℕ) (path text : Str) (s : Shell Disk)
      → IsForbidden (context s.loader.fs) (c ∷ path)
      → Refuses (run_ls drv b v hw (some (c ∷ path))) s
        × Refuses (run_cat drv b v hw (c ∷ path)) s
        × Refuses (run_write drv b v hw (c ∷ path) text) s
        × Refuses (run_edit drv b v hw (some (c ∷ path))) s
        × Refuses (run_rm drv b v hw (c ∷ path)) s
        × Refuses (run_rmdir drv b v hw (c ∷ path)) s
        × Refuses (run_mkdir drv b v hw (c ∷ path)) s
  unfolding run_ls run_cat run_write run_edit run_rm run_rmdir run_mkdir ◌>>=◌
  commands-Refuses c path text s f =
      let refuse = λ (rest : Act (Shell Disk) Unit). guarded-refused (c ∷ path) rest s f in
      (refuse _, refuse _, refuse _, refuse _, refuse _, refuse _, refuse _)
