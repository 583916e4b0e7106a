-- ===== src/Proc/Waiting.antt =====
-- kernel/sima_proc.c: a status is taken once, and no program stays loaded.
use mathlib.Core.Option.{some-injective}
use seolsem.Base.{
  ℕ, ◌≡◌, refl, ap, ◌∙◌, true, false, not, Option, none, some, [], ◌∷◌, Str, arith, if_rule,
}
use seolsem.Mem.Block.{Memory}
use seolsem.Perm.{Context}
use seolsem.Xef.{XefResult}
use seolsem.Xef.Image.{xef_native_exec_ctx}
use seolsem.Program.{Result, is_ok, Slot, Files, State, program_handle_valid}
use seolsem.Program.Open.{executed, program_loader_open, program_loader_exec, program_loader_close}
use seolsem.Program.Handles.{Opens, program_loader_open-Opens, is_ok→eq, not_ok}
use seolsem.Program.Slots.{IsSlot, no_handle}
use seolsem.Proc.{Status, proc_wait, closed, ran, opened, proc_exec_image, spawned, proc_spawn}

-- No program is loaded.
pub record IsIdle {Fs : Type 0} (st : State Fs) : Type 0 where
  pub sound : IsSlot st.slot
  pub none_valid : (h : ℕ) → program_handle_valid st.slot h ≡ false

module _ (files : Files) (ctx : Context) (wrapper : ℕ → ℕ)
    (call_entry : ℕ → ℕ → ℕ → Memory → ℕ × Memory) where
  open files use {Fs}

  close-IsIdle :
      (handle : ℕ) (st : State Fs)
      → IsSlot st.slot
      → program_handle_valid st.slot handle ≡ true
      → IsIdle (program_loader_close files handle st).1
  unfolding program_loader_close
  close-IsIdle handle st s valid = rw valid (record {
    sound = record { there = λ q. cc; fits = λ q. cc; octets = s.octets };
    none_valid = λ h.
        no_handle
          (record st.slot {
            base = 0;
            heap_mark = 0;
            capacity = 0;
            loaded = false;
            allocated = false;
            image_size = 0;
            last_exec_size = 0;
          })
          h refl;
  })

  -- A run keeps the slot and its handle.
  executed-keeps :
      (handle : ℕ) (st : State Fs) (r : XefResult × ℕ × Memory)
      → IsSlot st.slot
      → program_handle_valid st.slot handle ≡ true
      → IsSlot (executed files st r).2.slot
        × (program_handle_valid (executed files st r).2.slot handle ≡ true)
  unfolding executed program_handle_valid
  executed-keeps handle st (XefResult.ok, exit_code, m) s valid =
      (record { there = s.there; fits = s.fits; octets = s.octets }, valid)
  executed-keeps handle st (_, exit_code, m) s valid =
      (record { there = s.there; fits = s.fits; octets = s.octets }, valid)

  exec-keeps :
      (handle arg : ℕ) (st : State Fs)
      → IsSlot st.slot
      → program_handle_valid st.slot handle ≡ true
      → let r = program_loader_exec files wrapper call_entry handle arg st in
        IsSlot r.2.slot × (program_handle_valid r.2.slot handle ≡ true)
  unfolding program_loader_exec
  exec-keeps handle arg st s valid = rw valid (
      executed-keeps handle st
        (xef_native_exec_ctx wrapper call_entry
          (record {
            image = st.slot.base;
            image_size = st.slot.image_size;
            image_capacity = st.slot.capacity;
            arg = arg;
            stack_top = 0;
          })
          st.memory)
        s valid)

  closed-IsIdle :
      (p : Status) (rc : Result) (status : ℕ) (c : Result × State Fs)
      → IsIdle c.1
      → IsIdle (closed files ctx wrapper call_entry p rc status c).2
  unfolding closed
  closed-IsIdle p rc status (closing, st) h =
      if_rule (λ (r : Option ℕ × Status × State Fs). IsIdle r.2) (is_ok rc)
        (some status, record p { last_status = status }, st) (none, p, st) (λ e. h) λ e. h

  ran-IsIdle :
      (p : Status) (handle : ℕ) (r : Result × ℕ × State Fs)
      → IsSlot r.2.slot
      → program_handle_valid r.2.slot handle ≡ true
      → IsIdle (ran files ctx wrapper call_entry p handle r).2
  unfolding ran
  ran-IsIdle p handle (rc, status, st) s valid =
      closed-IsIdle p rc status (program_loader_close files handle st)
        (close-IsIdle handle st s valid)

  opened-IsIdle :
      (p : Status) (arg : ℕ) (slot : Slot) (r : Result × ℕ × State Fs)
      → Opens slot r
      → ((h : ℕ) → program_handle_valid slot h ≡ false)
      → IsIdle (opened files ctx wrapper call_entry p arg r).2
  unfolding opened
  opened-IsIdle p arg slot (rc, handle, st) o idle =
      let run = program_loader_exec files wrapper call_entry handle arg st in
      if_rule (λ (r : Option ℕ × Status × State Fs). IsIdle r.2) (is_ok rc)
        (ran files ctx wrapper call_entry p handle run) (none, p, st)
        (λ e.
          let valid = (o.fresh (is_ok→eq rc (ap not e))).0 in
          let after = exec-keeps handle arg st o.sound valid in
          ran-IsIdle p handle run after.0 after.1)
        λ e. record {
          sound = o.sound;
          none_valid = λ h. (o.kept λ q. not_ok rc q (ap not e)).1 h ∙ idle h;
        }

  proc_exec_image-IsIdle :
      (path : Option Str) (arg : ℕ) (p : Status) (st : State Fs)
      → IsIdle st
      → IsIdle (proc_exec_image files ctx wrapper call_entry path arg p st).2
  unfolding proc_exec_image
  proc_exec_image-IsIdle none arg p st h = h
  proc_exec_image-IsIdle (some []) arg p st h = h
  proc_exec_image-IsIdle (some (c ∷ path)) arg p st h =
      opened-IsIdle p arg st.slot (program_loader_open files ctx (some (c ∷ path)) st)
        (program_loader_open-Opens files ctx (some (c ∷ path)) st h.sound) h.none_valid

  -- The status that a run of the program gives: the program is opened, and then it runs.
  abbrev pub Runs : Option Str → ℕ → State Fs → ℕ → Type 0
  Runs path arg st status =
      let (rc, handle, st') = program_loader_open files ctx path st in
      (rc ≡ Result.ok)
      × ((program_loader_exec files wrapper call_entry handle arg st').0 ≡ Result.ok)
      × ((program_loader_exec files wrapper call_entry handle arg st').1 ≡ status)

  -- What a call of `proc_spawn` does.
  pub record Spawns (path : Option Str) (arg : ℕ) (p : Status) (st : State Fs)
      (r : Option ℕ × Status × State Fs) : Type 0 where
    pub idle : IsIdle r.2
    pub refuses : p.wait_pending ≡ true → (r.0 ≡ none) × (r.1 ≡ p)
    pub waits :
        (pid : ℕ)
        → r.0 ≡ some pid
        → (p.wait_pending ≡ false)
          × (status : ℕ) × Runs path arg st status
          × ((proc_wait pid r.1).0 ≡ some status)
          × ((proc_wait pid r.1).1.last_status ≡ status)
          × ((proc_wait pid (proc_wait pid r.1).1).0 ≡ none)

  closed-status :
      (p : Status) (rc : Result) (status s : ℕ) (c : Result × State Fs)
      → (closed files ctx wrapper call_entry p rc status c).0 ≡ some s
      → (rc ≡ Result.ok) × (status ≡ s)
  unfolding closed
  closed-status p rc status s (closing, st) =
      if_rule (λ (r : Option ℕ × Status × State Fs). r.0 ≡ some s → (rc ≡ Result.ok) × (status ≡ s))
        (is_ok rc) (some status, record p { last_status = status }, st) (none, p, st)
        (λ e q. (is_ok→eq rc (ap not e), some-injective status s q)) λ e. cc

  proc_exec_image-Runs :
      (path : Option Str) (arg : ℕ) (p : Status) (st : State Fs) (s : ℕ)
      → (proc_exec_image files ctx wrapper call_entry path arg p st).0 ≡ some s
      → Runs path arg st s
  unfolding proc_exec_image opened ran
  proc_exec_image-Runs none arg p st s = cc
  proc_exec_image-Runs (some []) arg p st s = cc
  proc_exec_image-Runs (some (c ∷ path)) arg p st s =
      let (rc, handle, st') = program_loader_open files ctx (some (c ∷ path)) st in
      let (rc', status, st'') = program_loader_exec files wrapper call_entry handle arg st' in
      if_rule
        (λ (r : Option ℕ × Status × State Fs).
          r.0 ≡ some s → (rc ≡ Result.ok) × (rc' ≡ Result.ok) × (status ≡ s))
        (is_ok rc)
        (closed files ctx wrapper call_entry p rc' status (program_loader_close files handle st''))
        (none, p, st')
        (λ e q.
          let (ran_ok, same) =
            closed-status p rc' status s (program_loader_close files handle st'') q in
          (is_ok→eq rc (ap not e), ran_ok, same))
        λ e. cc

  spawned-Spawns :
      (path : Option Str) (arg : ℕ) (p : Status) (st : State Fs) (r : Option ℕ × Status × State Fs)
      → p.wait_pending ≡ false
      → IsIdle r.2
      → ((s : ℕ) → r.0 ≡ some s → Runs path arg st s)
      → Spawns path arg p st (spawned files ctx wrapper call_entry r)
  unfolding spawned proc_wait
  spawned-Spawns path arg p st (none, p', st') free h runs = record {
    idle = h;
    refuses = λ q. ground arith;
    waits = λ pid. cc;
  }
  spawned-Spawns path arg p st (some status, p', st') free h runs = record {
    idle = h;
    refuses = λ q. ground arith;
    waits = λ pid e.
        let one : 1 ≡ pid = some-injective 1 pid e in
        (
          free,
          status,
          runs status refl,
          ground (arith, one),
          ground (arith, one),
          ground (arith, one),
        );
  }

  -- proc_spawn where no program is loaded, with any file system, permissions and program:
  -- afterwards no program is loaded. It refuses and changes nothing of its own if a status waits;
  -- if it succeeds none waited, the program was opened and run with the argument, a first
  -- proc_wait for the pid that it returned gives the status of that run and keeps it as the last
  -- one, and a second proc_wait is refused.
  pub proc_spawn-Spawns :
      (path : Option Str) (arg : ℕ) (p : Status) (st : State Fs)
      → IsIdle st
      → Spawns path arg p st (proc_spawn files ctx wrapper call_entry path arg p st)
  unfolding proc_spawn
  proc_spawn-Spawns path arg p st h =
      let run = proc_exec_image files ctx wrapper call_entry path arg p st in
      if_rule (Spawns path arg p st) p.wait_pending (none, p, st)
        (spawned files ctx wrapper call_entry run)
        (λ e. record { idle = h; refuses = λ q. (refl, refl); waits = λ pid. cc })
        λ e.
          spawned-Spawns path arg p st run e (proc_exec_image-IsIdle path arg p st h)
            λ s. proc_exec_image-Runs path arg p st s
