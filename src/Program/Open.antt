-- ===== src/Program/Open.antt =====
-- kernel/sima_program.c: opening, running and closing a program. `program_loader_open_common` is cut at
-- its calls of the file system: each part takes what the call before it gave.
use seolsem.Base.{
  ℕ, ◌+◌, ◌-◌, Bool, true, false, not, ◌&&◌, ◌||◌, Option, none, some, List, [], ◌∷◌, ltb, leb,
  ◌==◌, if◌then◌else◌, u16, get_or, length, Str, codes,
}
use seolsem.Mem.Block.{Memory}
use seolsem.Mem.Copying.{strcpy, strcat}
use seolsem.Perm.{Context, op_read, op_exec, perm_check}
use seolsem.FilePath.{path_max}
use seolsem.Xef.{XefResult, header_size}
use seolsem.Xef.Image.{xef_native_exec_ctx}
use seolsem.Program.{
  Dirent, Files, Heap, Result, Slot, State, Target, at_path, err_bad_format, err_bad_handle,
  err_file_too_large, err_invalid_arg, err_io, err_not_executable, err_not_found, err_permission,
  in_dir, is_ok, ok, program_from_xef_result, program_handle_valid, program_loader_commit,
  program_loader_ensure_slot, program_required_capacity, sima_heap_restore, store,
}

-- `program_build_dir_path`; `none` is FALSE.
unfoldable pub program_build_dir_path : Str → Str → ℕ → Option Str
program_build_dir_path dir_name name out_cap =
    let (path, ok₀) = strcpy out_cap dir_name in
    let last = get_or path (length path - 1) 0 in
    let (path', ok₁) =
      if not (last == b'/') && not (last == b'\\')
      then strcat out_cap path (codes "/")
      else (path, true) in
    let (path'', ok₂) = strcat out_cap path' name in
    if out_cap == 0
    then none
    else if not ok₀
    then none
    else if length path == 0
    then none
    else if ok₁ && ok₂
    then some path''
    else none

module _ (files : Files) where
  open files use {Fs, stat, is_executable, read}

  -- After the image is read.
  unfoldable pub commit : ℕ → ℕ → State Fs → Bool × List ℕ × Fs → Result × ℕ × State Fs
  unfolding store program_loader_commit
  commit size need_size st (done, bytes, fs) =
      let st₁ : State Fs = record st { memory = store bytes st.slot.base st.memory; fs = fs } in
      let (rc, handle, slot) = program_loader_commit (length bytes) need_size st.slot in
      if done && length bytes == size
      then (rc, handle, record st₁ { slot = slot })
      else (err_io, 0, st₁)

  -- After the slot is there, or not.
  unfoldable pub read_image :
      Target → ℕ → ℕ → State Fs → Result × Slot × Heap → Result × ℕ × State Fs
  unfolding commit
  read_image target size need_size st (rc, slot, heap) =
      let st₁ : State Fs = record st { slot = slot; heap = heap } in
      let read_it = commit size need_size st₁ (read target size st.fs) in
      if not (is_ok rc)
      then (rc, 0, st₁)
      else if ltb slot.capacity need_size
      then (err_file_too_large, 0, st₁)
      else read_it

  -- After the header is read, into a cleared buffer of its own.
  unfoldable pub open_slot : Target → ℕ → State Fs → Bool × List ℕ × Fs → Result × ℕ × State Fs
  unfolding read_image program_loader_ensure_slot program_required_capacity store
  open_slot target size st (done, bytes, fs) =
      let need_size =
        program_required_capacity (store bytes 0 λ i. 0) (u16 (length bytes)) (u16 size) in
      if done && leb header_size (length bytes)
      then read_image target size need_size (record st { fs = fs })
          (program_loader_ensure_slot st.slot st.heap)
      else (err_bad_format, 0, record st { fs = fs })

  -- After the test that the file is executable.
  unfoldable pub open_file : Target → ℕ → State Fs → Bool × Fs → Result × ℕ × State Fs
  unfolding open_slot
  open_file target size st (executable, fs) =
      let st₁ : State Fs = record st { fs = fs } in
      if not executable
      then (err_not_executable, 0, st₁)
      else if size == 0 || ltb 65535 size
      then (err_file_too_large, 0, st₁)
      else open_slot target size st₁ (read target header_size fs)

  -- After the look-up of the file.
  unfoldable pub open_found : Target → State Fs → Option Dirent × Fs → Result × ℕ × State Fs
  unfolding open_file
  open_found target st (none, fs) = (err_not_found, 0, record st { fs = fs })
  open_found target st (some ent, fs) =
      let st₁ : State Fs = record st { fs = fs } in
      if ent.is_dir
      then (err_not_executable, 0, st₁)
      else open_file target ent.size st₁ (is_executable target fs)

  -- `program_loader_open_common` with a place for the handle; the handle is 0 unless the result is
  -- `ok`.
  unfoldable pub program_loader_open_common :
      Context → Str → Target → State Fs → Result × ℕ × State Fs
  unfolding open_found
  program_loader_open_common ctx [] target st = (err_invalid_arg, 0, st)
  program_loader_open_common ctx (c ∷ path) target st =
      if perm_check ctx (some (c ∷ path)) (op_read + op_exec)
      then open_found target st (stat target st.fs)
      else (err_permission, 0, st)

  unfoldable pub program_loader_open : Context → Option Str → State Fs → Result × ℕ × State Fs
  unfolding program_loader_open_common
  program_loader_open ctx none st = (err_invalid_arg, 0, st)
  program_loader_open ctx (some path) st = program_loader_open_common ctx path (at_path path) st

  unfoldable pub program_loader_open_in_dir : Context → Str → Str → State Fs → Result × ℕ × State Fs
  unfolding program_loader_open_common program_build_dir_path
  program_loader_open_in_dir ctx dir_name [] st = (err_invalid_arg, 0, st)
  program_loader_open_in_dir ctx dir_name (c ∷ name) st =
      elim (program_build_dir_path dir_name (c ∷ name) path_max) [
        | none ↦ (err_invalid_arg, 0, st)
        | some path ↦ program_loader_open_common ctx path (in_dir dir_name (c ∷ name)) st
      ]

  unfoldable pub program_loader_close : ℕ → State Fs → Result × State Fs
  program_loader_close handle st =
      if program_handle_valid st.slot handle
      then (
        ok,
        record st {
          heap = sima_heap_restore st.slot.heap_mark st.heap;
          slot = record st.slot {
            base = 0;
            heap_mark = 0;
            capacity = 0;
            loaded = false;
            allocated = false;
            image_size = 0;
            last_exec_size = 0;
          };
        },
      )
      else (err_bad_handle, st)

  -- What is left of `program_loader_exec` after the run: the result, the exit code, the state.
  unfoldable pub executed : State Fs → XefResult × ℕ × Memory → Result × ℕ × State Fs
  unfolding program_from_xef_result
  executed st (XefResult.ok, exit_code, m) = (
    ok,
    exit_code,
    record st { memory = m; slot = record st.slot { last_exec_size = st.slot.image_size } },
  )
  executed st (e, exit_code, m) = (program_from_xef_result e, 1, record st { memory = m })

  unfoldable pub program_loader_exec :
      (ℕ → ℕ) → (ℕ → ℕ → ℕ → Memory → ℕ × Memory) → ℕ → ℕ → State Fs → Result × ℕ × State Fs
  unfolding executed
  program_loader_exec wrapper call_entry handle arg st =
      if program_handle_valid st.slot handle
      then executed st (
          xef_native_exec_ctx wrapper call_entry
            (record {
              image = st.slot.base;
              image_size = st.slot.image_size;
              image_capacity = st.slot.capacity;
              arg = arg;
              stack_top = 0;
            })
            st.memory)
      else (err_bad_handle, 1, st)
