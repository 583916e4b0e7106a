-- ===== src/Proc.antt =====
-- kernel/sima_proc.c: one program at a time, run to its end, and one slot for a status that waits to be
-- taken. `none` is FALSE.
pub mod Waiting
use seolsem.Base.{
  ℕ, Bool, true, false, not, ◌||◌, Option, none, some, [], ◌∷◌, ◌==◌, if◌then◌else◌, Str,
}
use seolsem.Mem.Block.{Memory}
use seolsem.Perm.{Context}
use seolsem.Program.{Result, is_ok, Files, State}
use seolsem.Program.Open.{program_loader_open, program_loader_exec, program_loader_close}

abbrev pub proc_pid_single : ℕ
proc_pid_single = 1

-- g_last_status, g_wait_pending, g_wait_status
pub record Status : Type 0 where
  pub last_status : ℕ
  pub wait_pending : Bool
  pub wait_status : ℕ

-- `proc_wait`
unfoldable pub proc_wait : ℕ → Status → Option ℕ × Status
proc_wait pid p =
    if not (pid == proc_pid_single) || not p.wait_pending
    then (none, p)
    else (some p.wait_status, record p { last_status = p.wait_status; wait_pending = false })

module _ (files : Files) (ctx : Context) (wrapper : ℕ → ℕ)
    (call_entry : ℕ → ℕ → ℕ → Memory → ℕ × Memory) where
  open files use {Fs}

  -- After the close; `rc` is the result of the run.
  unfoldable pub closed : Status → Result → ℕ → Result × State Fs → Option ℕ × Status × State Fs
  closed p rc status (closing, st) =
      if is_ok rc then (some status, record p { last_status = status }, st) else (none, p, st)

  -- After the run.
  unfoldable pub ran : Status → ℕ → Result × ℕ × State Fs → Option ℕ × Status × State Fs
  unfolding closed
  ran p handle (rc, status, st) = closed p rc status (program_loader_close files handle st)

  -- After the program is opened, or not.
  unfoldable pub opened : Status → ℕ → Result × ℕ × State Fs → Option ℕ × Status × State Fs
  unfolding ran
  opened p arg (rc, handle, st) =
      if is_ok rc
      then ran p handle (program_loader_exec files wrapper call_entry handle arg st)
      else (none, p, st)

  unfoldable pub proc_exec_image : Option Str → ℕ → Status → State Fs → Option ℕ × Status × State Fs
  unfolding opened
  proc_exec_image none arg p st = (none, p, st)
  proc_exec_image (some []) arg p st = (none, p, st)
  proc_exec_image (some (c ∷ path)) arg p st =
      opened p arg (program_loader_open files ctx (some (c ∷ path)) st)

  -- After the run of a child.
  unfoldable pub spawned : Option ℕ × Status × State Fs → Option ℕ × Status × State Fs
  spawned (none, p, st) = (none, p, st)
  spawned (some status, p, st) =
      (some proc_pid_single, record p { wait_status = status; wait_pending = true }, st)

  unfoldable pub proc_spawn : Option Str → ℕ → Status → State Fs → Option ℕ × Status × State Fs
  unfolding spawned proc_exec_image
  proc_spawn path arg p st =
      if p.wait_pending then (none, p, st) else spawned (proc_exec_image path arg p st)

  unfoldable pub proc_exec : Option Str → ℕ → Status → State Fs → Option ℕ × Status × State Fs
  unfolding proc_exec_image
  proc_exec path arg p st = proc_exec_image path arg (record p { wait_pending = false }) st
