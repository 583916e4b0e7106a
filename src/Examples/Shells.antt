-- ===== src/Examples/Shells.antt =====
-- Witnesses for the shell and the kernel: a user who is not root, on the volume in memory.
use seolsem.Base.{ℕ, ◌≡◌, refl, true, false, some, [], ◌∷◌, arith, codes, inl, inr}
use seolsem.Env.{is_named, env_get}
use seolsem.FilePath.{fs_make_abs_path, is_separator}
use seolsem.Kernel.{current_path_max, prompt_text, ensure_login}
use seolsem.Kernel.Login.{IsEntered, ensure_login-IsEntered}
use seolsem.Kernel.Prompt.{Prompt, named, prompt_text-Prompt}
use seolsem.Perm.{perm_is_root, is_home_path, path_has_prefix}
use seolsem.Perm.Access.{IsUnder, IsUnderAny}
use seolsem.Program
use seolsem.Shell.{Machine, Shell, context, parse_argv}
use seolsem.Shell.Denied.{IsForbidden, Refuses, commands-Refuses}
use seolsem.Shell.Files.{run_ls, run_cat, run_write, run_rm, run_rmdir, run_mkdir}
use seolsem.Shell.Programs.{run_edit}
use seolsem.Shell.Quoting.{spelled, parse_argv-spelled}
use seolsem.User.Session.{Accounts}
use seolsem.Examples.Disk.{ram_disk, volume}
use seolsem.Examples.Files.{bpb}
use seolsem.Examples.Users.{ann, accounts}

abbrev machine : Machine ram_disk
machine = record {
  identify = λ d. (some 2000, d);
  identify_keeps = λ d l o. refl;
  wrapper = λ i. 256;
  call_entry = λ entry arg stack m. (0, m);
  place = λ word. 32768;
}

abbrev loader : Program.State (Accounts (ℕ → ℕ → ℕ))
loader = record {
  slot = record {
    base = 0;
    heap_mark = 0;
    capacity = 0;
    image_size = 0;
    last_exec_size = 0;
    generation = 0;
    allocated = false;
    loaded = false;
  };
  heap = record { base_off = 4096; top_off = 0; cap = 16384 };
  memory = λ a. 0;
  fs = accounts;
}

abbrev shell : Shell (ℕ → ℕ → ℕ)
shell = record {
  loader = loader;
  loaded_handle = 0;
  prev_path = [];
  has_prev = false;
  lines = codes "root" ∷ codes "mkdir DOC" ∷ codes "write DOC/A.TXT text" ∷ codes "logout" ∷ [];
  answers = [] ∷ [];
  keys = [];
  waits = false;
  screen = [];
}

abbrev stranger : Shell (ℕ → ℕ → ℕ)
stranger = record shell {
  loader = record loader { fs = record accounts { current = record ann { used = false } } };
  lines = codes "ann" ∷ codes "root" ∷ [];
  answers = codes "guess" ∷ [] ∷ [];
}

ensure_login-IsEntered_example :
    IsEntered ram_disk bpb volume machine (ensure_login ram_disk bpb volume machine stranger).1
    × (stranger.loader.fs.current.used ≡ true
        → ensure_login ram_disk bpb volume machine stranger ≡ (some tt, stranger))
ensure_login-IsEntered_example = ensure_login-IsEntered ram_disk bpb volume machine stranger

forbidden : IsForbidden (context accounts) (codes "/etc/passwd")
unfolding fs_make_abs_path perm_is_root is_home_path context env_get path_has_prefix IsUnderAny
    IsUnder is_separator is_named
forbidden = record {
  abs_path = codes "/ETC/PASSWD";
  resolves = refl;
  not_root = refl;
  not_home = refl;
  system = inr (inr (inl (codes "/PASSWD", refl, refl)));
}

commands-Refuses_example :
    Refuses ram_disk bpb volume machine
      (run_ls ram_disk bpb volume machine (some (codes "/etc/passwd")))
      shell
    × Refuses ram_disk bpb volume machine
        (run_cat ram_disk bpb volume machine (codes "/etc/passwd"))
        shell
    × Refuses ram_disk bpb volume machine
        (run_write ram_disk bpb volume machine (codes "/etc/passwd") (codes "x"))
        shell
    × Refuses ram_disk bpb volume machine
        (run_edit ram_disk bpb volume machine (some (codes "/etc/passwd")))
        shell
    × Refuses ram_disk bpb volume machine
        (run_rm ram_disk bpb volume machine (codes "/etc/passwd"))
        shell
    × Refuses ram_disk bpb volume machine
        (run_rmdir ram_disk bpb volume machine (codes "/etc/passwd"))
        shell
    × Refuses ram_disk bpb volume machine
        (run_mkdir ram_disk bpb volume machine (codes "/etc/passwd"))
        shell
commands-Refuses_example =
    commands-Refuses ram_disk bpb volume machine b'/' (codes "etc/passwd") (codes "x") shell
      forbidden

parse_argv-spelled_example :
    parse_argv (spelled (codes "write" ∷ codes "A B" ∷ [] ∷ [])) 16
    ≡ codes "write" ∷ codes "A B" ∷ [] ∷ []
parse_argv-spelled_example =
    parse_argv-spelled (codes "write" ∷ codes "A B" ∷ [] ∷ []) 16 (omega arith) (omega arith)

prompt_text-Prompt_example :
    Prompt (some (codes "/HOME/ANN")) (codes "/HOME/ANN/DOC") (codes "ANN") (
      prompt_text
        (codes "/HOME/ANN/DOC")
        (some (codes "/HOME/ANN"))
        (some (codes "ANN"))
        current_path_max)
prompt_text-Prompt_example =
    prompt_text-Prompt (codes "/HOME/ANN/DOC") (some (codes "/HOME/ANN")) (some (codes "ANN"))
      (codes "ANN") (named b'A' (codes "NN")) (omega arith) (omega arith)
