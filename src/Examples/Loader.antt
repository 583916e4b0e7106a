-- ===== src/Examples/Loader.antt =====
-- The theorems on opening and spawning programs, at a file system with one program.
use seolsem.Base.{ℕ, true, false, some, none, codes, take, arith}
use seolsem.Examples.Programs.{image_bytes, wrappers}
use seolsem.Mem.Block.{Memory}
use seolsem.Perm.{Context}
use seolsem.Proc.{Status, proc_spawn}
use seolsem.Proc.Waiting.{IsIdle, Spawns, proc_spawn-Spawns}
use seolsem.Program.{Files, State, program_handle_valid}
use seolsem.Program.Open.{program_loader_open}
use seolsem.Program.Handles.{Opens, program_loader_open-Opens}
use seolsem.Program.Slots.{IsSlot}

abbrev one_file : Files
one_file = record {
  Fs = ℕ;
  stat = λ target fs. (some (record { is_dir = false; size = 34 }), fs);
  is_executable = λ target fs. (true, fs);
  read = λ target cap fs. (true, take cap image_bytes, fs);
}

abbrev root : Context
root = record {
  user = some (record { used = true; uid = 0 });
  home = none;
  cwd = codes "/";
  ready = true;
}

abbrev booted : State ℕ
booted = record {
  slot = record {
    base = 0;
    heap_mark = 0;
    capacity = 0;
    image_size = 0;
    last_exec_size = 0;
    generation = 0;
    allocated = false;
    loaded = false;
  };
  heap = record { base_off = 4096; top_off = 0; cap = 16384 };
  memory = λ a. 0;
  fs = 0;
}

booted-IsSlot : IsSlot booted.slot
booted-IsSlot = record { there = λ e. cc; fits = λ e. cc; octets = omega arith }

program_loader_open-Opens_example :
    Opens booted.slot (program_loader_open one_file root (some (codes "/BIN/A.XEF")) booted)
program_loader_open-Opens_example =
    program_loader_open-Opens one_file root (some (codes "/BIN/A.XEF")) booted booted-IsSlot

booted-IsIdle : IsIdle booted
unfolding program_handle_valid
booted-IsIdle = record { sound = booted-IsSlot; none_valid = λ h. ground arith }

-- A program that returns 7 at once.
abbrev returns_seven : ℕ → ℕ → ℕ → Memory → ℕ × Memory
returns_seven entry arg stack_top m = (7, m)

abbrev quiet : Status
quiet = record { last_status = 0; wait_pending = false; wait_status = 0 }

proc_spawn-Spawns_example :
    Spawns one_file root wrappers returns_seven
      (some (codes "/BIN/A.XEF"))
      0
      quiet
      booted
      (proc_spawn one_file root wrappers returns_seven (some (codes "/BIN/A.XEF")) 0 quiet booted)
proc_spawn-Spawns_example =
    proc_spawn-Spawns one_file root wrappers returns_seven (some (codes "/BIN/A.XEF")) 0 quiet
      booted booted-IsIdle
