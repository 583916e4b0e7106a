-- ===== src/Program/Below.antt =====
-- kernel/sima_program.c: what opening and running a program leaves of the files below it. The calls of
-- the file system are the only ones that reach them.
use seolsem.Base.{
  ℕ, ◌+◌, Bool, not, ◌||◌, ◌&&◌, Option, none, some, List, [], ◌∷◌, ltb, leb, ◌==◌, if_rule, length,
  u16, Str,
}
use seolsem.Mem.Block.{Memory}
use seolsem.Perm.{Context, op_read, op_exec, perm_check}
use seolsem.FilePath.{path_max}
use seolsem.Xef.{XefResult, header_size}
use seolsem.Program.{
  Dirent, Files, Heap, Result, Slot, State, Target, at_path, in_dir, is_ok, program_handle_valid,
  program_loader_ensure_slot, program_required_capacity, store,
}
use seolsem.Program.Open.{
  commit, read_image, open_slot, open_file, open_found, program_loader_open_common,
  program_loader_open, program_loader_open_in_dir, program_build_dir_path, executed,
  program_loader_exec,
}

-- The calls of the file system keep `P`.
pub record FilesKeep (files : Files) (P : files.Fs → Type 0) : Type 0 where
  pub stat_keeps : (target : Target) (fs : files.Fs) → P fs → P (files.stat target fs).1
  pub is_executable_keeps :
      (target : Target) (fs : files.Fs) → P fs → P (files.is_executable target fs).1
  pub read_keeps :
      (target : Target) (cap : ℕ) (fs : files.Fs) → P fs → P (files.read target cap fs).2

module _ (files : Files) (P : files.Fs → Type 0) (keep : FilesKeep files P) where
  open files use {Fs}

  abbrev Left : Result × ℕ × State Fs → Type 0
  Left r = P r.2.fs

  commit-Left :
      (size need : ℕ) (st : State Fs) (r : Bool × List ℕ × Fs)
      → P r.2
      → Left (commit files size need st r)
  unfolding commit
  commit-Left size need st (done, bytes, fs) h =
      if_rule Left (done && length bytes == size) _ _ (λ e. h) λ e. h

  read_image-Left :
      (target : Target) (size need : ℕ) (st : State Fs) (r : Result × Slot × Heap)
      → P st.fs
      → Left (read_image files target size need st r)
  unfolding read_image
  read_image-Left target size need st (rc, slot, heap) h =
      if_rule Left (not (is_ok rc)) _ _ (λ e. h)
        λ e.
          if_rule Left (ltb slot.capacity need) _ _ (λ e'. h)
            λ e'.
              commit-Left size need (record st { slot = slot; heap = heap })
                (files.read target size st.fs) (keep.read_keeps target size st.fs h)

  open_slot-Left :
      (target : Target) (size : ℕ) (st : State Fs) (r : Bool × List ℕ × Fs)
      → P r.2
      → Left (open_slot files target size st r)
  unfolding open_slot
  open_slot-Left target size st (done, bytes, fs) h =
      if_rule Left (done && leb header_size (length bytes)) _ _
        (λ e.
          read_image-Left target size
            (program_required_capacity (store bytes 0 λ i. 0) (u16 (length bytes)) (u16 size))
            (record st { fs = fs }) (program_loader_ensure_slot st.slot st.heap) h)
        λ e. h

  open_file-Left :
      (target : Target) (size : ℕ) (st : State Fs) (r : Bool × Fs)
      → P r.1
      → Left (open_file files target size st r)
  unfolding open_file
  open_file-Left target size st (executable, fs) h =
      if_rule Left (not executable) _ _ (λ e. h)
        λ e.
          if_rule Left (size == 0 || ltb 65535 size) _ _ (λ e'. h)
            λ e'.
              open_slot-Left target size (record st { fs = fs }) (files.read target header_size fs)
                (keep.read_keeps target header_size fs h)

  open_found-Left :
      (target : Target) (st : State Fs) (r : Option Dirent × Fs)
      → P r.1
      → Left (open_found files target st r)
  unfolding open_found
  open_found-Left target st (none, fs) h = h
  open_found-Left target st (some ent, fs) h =
      if_rule Left ent.is_dir _ _ (λ e. h)
        λ e.
          open_file-Left target ent.size (record st { fs = fs }) (files.is_executable target fs)
            (keep.is_executable_keeps target fs h)

  common-Left :
      (ctx : Context) (path : Str) (target : Target) (st : State Fs)
      → P st.fs
      → Left (program_loader_open_common files ctx path target st)
  unfolding program_loader_open_common
  common-Left ctx [] target st h = h
  common-Left ctx (c ∷ path) target st h =
      if_rule Left (perm_check ctx (some (c ∷ path)) (op_read + op_exec)) _ _
        (λ e. open_found-Left target st (files.stat target st.fs) (keep.stat_keeps target st.fs h))
        λ e. h

  pub program_loader_open-Left :
      (ctx : Context) (path : Option Str) (st : State Fs)
      → P st.fs
      → P (program_loader_open files ctx path st).2.fs
  unfolding program_loader_open
  program_loader_open-Left ctx none st h = h
  program_loader_open-Left ctx (some path) st h = common-Left ctx path (at_path path) st h

  pub program_loader_open_in_dir-Left :
      (ctx : Context) (dir name : Str) (st : State Fs)
      → P st.fs
      → P (program_loader_open_in_dir files ctx dir name st).2.fs
  unfolding program_loader_open_in_dir
  program_loader_open_in_dir-Left ctx dir [] st h = h
  program_loader_open_in_dir-Left ctx dir (c ∷ name) st h =
      elim (program_build_dir_path dir (c ∷ name) path_max)
        as (λ (o : Option Str). Left (elim o as (λ x. Result × ℕ × State Fs) [
          | none ↦ (Result.err_invalid_arg, 0, st)
          | some path ↦ program_loader_open_common files ctx path (in_dir dir (c ∷ name)) st
        ])) [ none ↦ h | some path ↦ common-Left ctx path (in_dir dir (c ∷ name)) st h ]

  executed-Left :
      (st : State Fs) (r : XefResult × ℕ × Memory) → P st.fs → Left (executed files st r)
  unfolding executed
  executed-Left st (XefResult.ok, code, m) h = h
  executed-Left st (XefResult.err_bad_header, code, m) h = h
  executed-Left st (XefResult.err_image_too_large, code, m) h = h
  executed-Left st (XefResult.err_no_memory, code, m) h = h
  executed-Left st (XefResult.err_import, code, m) h = h
  executed-Left st (XefResult.err_reloc, code, m) h = h
  executed-Left st (XefResult.err_exec, code, m) h = h

  pub program_loader_exec-Left :
      (wrapper : ℕ → ℕ) (call_entry : ℕ → ℕ → ℕ → Memory → ℕ × Memory) (handle arg : ℕ)
      (st : State Fs)
      → P st.fs
      → P (program_loader_exec files wrapper call_entry handle arg st).2.fs
  unfolding program_loader_exec
  program_loader_exec-Left wrapper call_entry handle arg st h =
      if_rule Left (program_handle_valid st.slot handle) _ _ (λ e. executed-Left st _ h) λ e. h
