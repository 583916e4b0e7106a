-- ===== src/Kernel/Safe.antt =====
-- The kernel from `env_init` on and the file allocation table: whatever is typed, the cache of the FAT
-- stays in order.
use seolsem.Base.{ℕ, zero, suc, true, Option, none, some, List, [], ◌∷◌, Str}
use seolsem.Act.{Act}
use seolsem.Act.Keeps.{Keeps, Keeps-modify, Keeps-call, Keeps-bind, keeps_rules}
use seolsem.Dir.Sectors.{IsModest}
use seolsem.Fat.{Drive, Volume}
use seolsem.Fat.Cache.{IsCoherent}
use seolsem.Fat.Entry.{Covers}
use seolsem.Fat.Geometry.{IsInOrder}
use seolsem.Fat.Mount.{Bpb}
use seolsem.Fat.Write.{IsSized}
use seolsem.Shell.{Machine, Shell}
use seolsem.Shell.Safe
use seolsem.Shell.Safe.{InAccounts, InShell}
use seolsem.Shell.Safe.Lines.{run_buffer-Kept, wait_prompt_masked-Kept}
use seolsem.Shell.Safe.Users.{user_login-Kept, user_init-Kept}
use seolsem.User.Session.{Accounts}
use seolsem.Kernel.{
  show_shell_banner, wait_prompt, login_loop, login_screen, ensure_login, run_line, prompt_round,
  kernel_loop, kernel_main,
}

module _ (drv : Drive) (b : Bpb) (v : Volume) (hw : Machine drv) (ord : IsInOrder b v)
    (covers : Covers v) (modest : IsModest b v) (sized : IsSized v) where
  open drv use {Disk}

  abbrev Holds : {A : Type 0} → Act (Shell Disk) A → Type 0
  Holds m = Keeps (InShell drv v) m

  banner-Kept : Holds (show_shell_banner drv b v hw)
  unfolding show_shell_banner
  banner-Kept = search Safe.shell_rules depth 12

  wait_prompt-Kept : (prompt : Str) → Holds (wait_prompt drv b v hw prompt)
  unfolding wait_prompt
  wait_prompt-Kept prompt =
      Keeps-bind _ _ (Safe.show-Kept drv b v hw ord covers modest sized _)
        λ u. Keeps-call _ λ s h. taken s.lines s h
    where
      taken :
          (l : List Str) (s : Shell Disk)
          → InShell drv v s
          → InShell drv v
              (elim l as (λ x. Option Str × Shell Disk) [
                | [] ↦ (none, record s { waits = true })
                | line ∷ lines ↦ (some line, record s { lines = lines })
              ]).1
      taken [] s h = h
      taken (line ∷ lines) s h = h

  login_loop-Kept : (rounds : ℕ) → Holds (login_loop drv b v hw rounds)
  unfolding login_loop
  login_loop-Kept zero = Keeps-modify _ λ s h. h
  login_loop-Kept (suc rounds) =
      let rest = λ (u : Unit {0}). login_loop-Kept rounds in
      search
        (
          Safe.shell_rules, wait_prompt-Kept, wait_prompt_masked-Kept, user_login-Kept, banner-Kept,
          rest,
        )
        depth 20

  login_screen-Kept : Holds (login_screen drv b v hw)
  unfolding login_screen
  login_screen-Kept = search (Safe.shell_rules, login_loop-Kept) depth 12

  ensure_login-Kept : Holds (ensure_login drv b v hw)
  unfolding ensure_login
  ensure_login-Kept = search (Safe.shell_rules, login_screen-Kept)

  run_line-Kept : (buffer : Str) → Holds (run_line drv b v hw buffer)
  unfolding run_line
  run_line-Kept buffer = search (Safe.shell_rules, run_buffer-Kept)

  prompt_round-Kept : Holds (prompt_round drv b v hw)
  unfolding prompt_round
  prompt_round-Kept = search (Safe.shell_rules, wait_prompt-Kept, run_line-Kept) depth 12

  kernel_loop-Kept : (rounds : ℕ) → Holds (kernel_loop drv b v hw rounds)
  unfolding kernel_loop
  kernel_loop-Kept zero = search keeps_rules
  kernel_loop-Kept (suc rounds) =
      let rest = λ (u : Unit {0}). kernel_loop-Kept rounds in
      search (Safe.shell_rules, ensure_login-Kept, prompt_round-Kept, rest) depth 12

  kernel_main-Kept : (rounds : ℕ) → Holds (kernel_main drv b v hw rounds)
  unfolding kernel_main
  kernel_main-Kept rounds =
      let kept = λ (a : Accounts Disk) (h : InAccounts drv v a). h in
      search (Safe.shell_rules, banner-Kept, kernel_loop-Kept, user_init-Kept, kept) depth 24

  -- kernel_main from env_init on, for any number of rounds, on a volume with its parts in order,
  -- that ends within the 2^28 sectors that an address tells apart, whose FAT covers its clusters,
  -- at most as many as FAT32 allows, and a machine whose IDENTIFY leaves the sectors alone:
  -- whatever is typed at the login, as command lines and at the prompts of the commands, whatever
  -- programs do to the memory, and whatever transfers fail, the cache of the FAT is in order
  -- afterwards if it was before.
  kernel_main-IsCoherent :
      (rounds : ℕ) (s : Shell Disk)
      → IsCoherent drv v s.loader.fs.files.fat
      → IsCoherent drv v (kernel_main drv b v hw rounds s).1.loader.fs.files.fat
  kernel_main-IsCoherent rounds = (kernel_main-Kept rounds).at
