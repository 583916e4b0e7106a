-- ===== src/Program.antt =====
-- kernel/sima_program.c: the slot that holds the one loaded program, and the handles on it; with the
-- heap of kernel/sima_heap.asm that the slot comes from. The state is the slot, the heap, the memory
-- of the segment and the file system. What the loader asks of the file system is the record `Files`;
-- its functions come in two forms, by path and by directory and name, which `Target` tells apart.
pub mod Open
pub mod Slots
pub mod Handles
pub mod Below
use seolsem.Base.{
  ℕ, zero, suc, ◌+◌, ◌-◌, ◌*◌, ◌≤◌, ◌≡◌, Bool, true, false, not, ◌&&◌, ◌||◌, Option, none, some,
  List, [], ◌∷◌, ltb, leb, ◌==◌, if◌then◌else◌, bit_and, u16, get_or, length, Str, codes,
}
use seolsem.Fat.Bytes.{le16}
use seolsem.Mem.Block.{Memory}
use seolsem.Mem.Copying.{strcpy, strcat}
use seolsem.Perm.{Context, op_read, op_exec, perm_check}
use seolsem.FilePath.{path_max}
use seolsem.Xef.{ExecContext, XefResult, header_size, version, has_magic}
use seolsem.Xef.Image.{xef_native_exec_ctx}

-- PROGRAM_RESULT
pub data Result : Type 0 where
  ok err_invalid_arg err_permission err_not_found err_not_executable err_file_too_large : Result
  err_no_memory err_io err_bad_format err_import err_reloc err_exec err_bad_handle : Result

abbrev pub is_ok : Result → Bool
is_ok rc = elim rc [ ok ↦ true | _ ↦ false ]

-- PROGRAM_SLOT; a base of 0 is NULL.
pub record Slot : Type 0 where
  pub base : ℕ
  pub heap_mark : ℕ
  pub capacity : ℕ
  pub image_size : ℕ
  pub last_exec_size : ℕ
  pub generation : ℕ
  pub allocated : Bool
  pub loaded : Bool

-- heap_base_off, heap_top_off and heap_cap of sima_heap.asm
pub record Heap : Type 0 where
  pub base_off : ℕ
  pub top_off : ℕ
  pub cap : ℕ

unfoldable pub sima_heap_remaining : Heap → ℕ
sima_heap_remaining h = u16 (h.cap + 65536 - h.top_off)

-- The offset of the block, 0 if there is no room.
unfoldable pub sima_malloc : ℕ → Heap → ℕ × Heap
unfolding sima_heap_remaining
sima_malloc size h =
    let need = bit_and (u16 (size + 1)) 0xFFFE in
    if ltb (sima_heap_remaining h) need
    then (0, h)
    else (u16 (h.base_off + h.top_off), record h { top_off = u16 (h.top_off + need) })

unfoldable pub sima_heap_restore : ℕ → Heap → Heap
sima_heap_restore mark h = record h { top_off = if leb mark h.cap then mark else h.cap }

-- The fields of FS_DIRENT that the loader reads.
pub record Dirent : Type 0 where
  pub is_dir : Bool
  pub size : ℕ

-- By path, or by directory and name.
pub data Target : Type 0 where
  at_path : Str → Target
  in_dir : Str → Str → Target

-- fs_stat, fs_is_executable and fs_read, and their forms with _in_dir. A read takes a capacity and
-- gives whether it succeeded and the bytes that it stored, which are as many as *out_size says if it
-- did.
pub record Files : Type 1 where
  pub Fs : Type 0
  pub stat : Target → Fs → Option Dirent × Fs
  pub is_executable : Target → Fs → Bool × Fs
  pub read : Target → ℕ → Fs → Bool × List ℕ × Fs

-- The bytes at an address after a list is stored there.
unfoldable pub store : List ℕ → ℕ → Memory → Memory
store [] a m = m
store (b ∷ bytes) a m = store bytes (a + 1) (λ i. if i == a then b else m i)

abbrev pub stack_reserve : ℕ
stack_reserve = 0

unfoldable pub program_required_capacity : Memory → ℕ → ℕ → ℕ
program_required_capacity header size file_size =
    let exec_size = le16 header 10 + le16 header 12 + le16 header 14 in
    if ltb size header_size
    then file_size
    else if not (has_magic header 0)
    then file_size
    else if not (le16 header 4 == version)
    then file_size
    else if exec_size == 0 || ltb 65535 exec_size
    then file_size
    else if leb exec_size file_size
    then file_size
    else exec_size

unfoldable pub program_next_generation : ℕ → ℕ
program_next_generation generation =
    if generation == 0 then 1 else if u16 (generation + 1) == 0 then 1 else u16 (generation + 1)

unfoldable pub program_handle_valid : Slot → ℕ → Bool
program_handle_valid slot handle =
    if handle == 0
    then false
    else if not slot.allocated || slot.base == 0
    then false
    else if not slot.loaded
    then false
    else handle == slot.generation

unfoldable pub program_from_xef_result : XefResult → Result
program_from_xef_result XefResult.ok = ok
program_from_xef_result XefResult.err_bad_header = err_bad_format
program_from_xef_result XefResult.err_image_too_large = err_file_too_large
program_from_xef_result XefResult.err_no_memory = err_no_memory
program_from_xef_result XefResult.err_import = err_import
program_from_xef_result XefResult.err_reloc = err_reloc
program_from_xef_result XefResult.err_exec = err_exec

-- The test at the head of `program_loader_ensure_slot` and in `program_loader_get_info`.
abbrev pub has_slot : Slot → Bool
has_slot slot = slot.allocated && not (slot.base == 0) && ltb 0 slot.capacity

unfoldable pub program_loader_ensure_slot : Slot → Heap → Result × Slot × Heap
program_loader_ensure_slot slot heap =
    let remain = sima_heap_remaining heap in
    let slot_size = bit_and (remain - stack_reserve) 0xFFFE in
    let (base, heap') = sima_malloc slot_size heap in
    let emptied : Slot = record slot {
      base = base;
      heap_mark = heap.top_off;
      capacity = 0;
      image_size = 0;
      last_exec_size = 0;
      loaded = false;
      allocated = false;
    } in
    if has_slot slot
    then (ok, slot, heap)
    else if leb remain (stack_reserve + header_size)
    then (err_no_memory, slot, heap)
    else if leb slot_size header_size
    then (err_no_memory, slot, heap)
    else if base == 0
    then (err_no_memory, emptied, sima_heap_restore heap.top_off heap')
    else (ok, record emptied { capacity = slot_size; allocated = true }, heap')

-- The state of the loader.
pub record State (Fs : Type 0) : Type 0 where
  pub slot : Slot
  pub heap : Heap
  pub memory : Memory
  pub fs : Fs

unfoldable pub program_loader_commit : ℕ → ℕ → Slot → Result × ℕ × Slot
program_loader_commit read_size need_size slot =
    let generation = program_next_generation slot.generation in
    if read_size == 0 || ltb slot.capacity read_size then (err_io, 0, slot) else (
      ok,
      generation,
      record slot {
        image_size = u16 read_size;
        last_exec_size = need_size;
        loaded = true;
        generation = generation;
      },
    )
