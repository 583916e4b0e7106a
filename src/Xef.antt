-- ===== src/Xef.antt =====
-- kernel/xef_loader.c: the loader of XEFN images. The image lies in the one memory of the segment, a
-- byte for each address, and is patched in place; an address is a plain number below 64 KiB. The
-- kernel is built for 16-bit integers, so a product of UINT16 values wraps at 16 bits before it is
-- widened. The addresses of the import wrappers, which the linker chooses, are the parameter
-- `wrapper`, and `call_entry` is xef_call_entry of kernel/xef_exec.asm, which runs the program. Pointers are not
-- NULL.
pub mod Image
pub mod Header
pub mod Reloc
pub mod Load
use seolsem.Base.{
  ℕ, zero, suc, ◌+◌, ◌-◌, ◌*◌, Bool, true, false, not, ◌&&◌, ◌||◌, Option, none, some, List, [],
  ◌∷◌, ltb, leb, ◌==◌, if◌then◌else◌, bit_and, u16, get_or, Str, codes, String,
}
use seolsem.Fat.Bytes.{le16, wr16}
use seolsem.Mem.Block.{Memory, sima_memmove, sima_memset}
use seolsem.Mem.Comparing.{str_eq}

pub record ExecContext : Type 0 where
  pub image : ℕ
  pub image_size : ℕ
  pub image_capacity : ℕ
  pub arg : ℕ
  pub stack_top : ℕ

pub record NativeMeta : Type 0 where
  pub entry : ℕ
  pub code_size : ℕ
  pub data_size : ℕ
  pub bss_size : ℕ
  pub import_off : ℕ
  pub import_count : ℕ
  pub reloc_off : ℕ
  pub reloc_count : ℕ
  pub str_off : ℕ
  pub str_size : ℕ

pub data XefResult : Type 0 where
  ok err_bad_header err_image_too_large err_no_memory err_import err_reloc err_exec : XefResult

abbrev pub header_size : ℕ
header_size = 28

abbrev pub version : ℕ
version = 1

abbrev pub reloc_base16 : ℕ
reloc_base16 = 1

abbrev pub reloc_import16 : ℕ
reloc_import16 = 2

unfoldable pub has_magic : Memory → ℕ → Bool
has_magic m image =
    m image == b'X' && m (image + 1) == b'E' && m (image + 2) == b'F' && m (image + 3) == b'N'

-- The ten words of the header from offset 8 on.
unfoldable pub read_meta : Memory → ℕ → NativeMeta
read_meta m image = record {
  entry = le16 m (image + 8);
  code_size = le16 m (image + 10);
  data_size = le16 m (image + 12);
  bss_size = le16 m (image + 14);
  import_off = le16 m (image + 16);
  import_count = le16 m (image + 18);
  reloc_off = le16 m (image + 20);
  reloc_count = le16 m (image + 22);
  str_off = le16 m (image + 24);
  str_size = le16 m (image + 26);
}

abbrev pub load_blob_end : NativeMeta → ℕ
load_blob_end meta = header_size + meta.code_size + meta.data_size

-- The tests of `xef_validate_header` on the import table and the strings.
unfoldable pub imports_fit : NativeMeta → ℕ → Bool
imports_fit meta image_size =
    if meta.import_count == 0
    then true
    else not (meta.str_size == 0)
      && leb (u16 (load_blob_end meta)) meta.import_off
      && leb (u16 (load_blob_end meta)) meta.str_off
      && leb (meta.import_off + u16 (meta.import_count * 2)) image_size
      && leb (meta.str_off + meta.str_size) image_size

-- Those on the relocation records.
unfoldable pub relocs_fit : NativeMeta → ℕ → Bool
relocs_fit meta image_size =
    if meta.reloc_count == 0
    then true
    else leb (u16 (load_blob_end meta)) meta.reloc_off
      && leb (meta.reloc_off + u16 (meta.reloc_count * 4)) image_size

unfoldable pub meta_is_valid : NativeMeta → ℕ → Bool
meta_is_valid meta image_size =
    not (meta.code_size == 0)
    && ltb meta.entry meta.code_size
    && leb (load_blob_end meta) image_size
    && imports_fit meta image_size
    && relocs_fit meta image_size

unfoldable pub xef_validate_header : Memory → ℕ → ℕ → Option NativeMeta
xef_validate_header m image image_size =
    if ltb image_size header_size
    then none
    else if not (has_magic m image)
    then none
    else if not (le16 m (image + 4) == version)
    then none
    else if meta_is_valid (read_meta m image) image_size
    then some (read_meta m image)
    else none

-- g_xef_import_names, in the order of their ids.
abbrev pub import_names : List String
import_names =
    "print" ∷ "print_num" ∷ "cls" ∷ "read_key" ∷ "write_char" ∷ "cursor_set" ∷ "cursor_show"
    ∷ "cursor_hide" ∷ "fs_write" ∷ "fs_read" ∷ []

-- The loop of `xef_read_import_name` with `left` bytes of the strings to go.
unfoldable pub name_loop : Memory → ℕ → ℕ → ℕ → ℕ → Option Str
name_loop m zero p j out_cap = none
name_loop m (suc left) p j out_cap =
    let more : Option Str = elim (name_loop m left (p + 1) (j + 1) out_cap) [
      | none ↦ none
      | some name ↦ some (m p ∷ name)
    ] in
    if m p == 0 then some [] else if leb out_cap (j + 1) then none else more

unfoldable pub xef_read_import_name : Memory → ℕ → NativeMeta → ℕ → ℕ → Option Str
unfolding name_loop
xef_read_import_name m image meta import_idx out_cap =
    let off = le16 m (image + meta.import_off + u16 (import_idx * 2)) in
    if leb meta.import_count import_idx
    then none
    else if leb meta.str_size off
    then none
    else name_loop m (meta.str_size - off) (image + meta.str_off + off) 0 out_cap

module _ (wrapper : ℕ → ℕ) where
  -- The search for the name from id `id` on, and the offset of what it finds.
  unfoldable pub resolve_from : ℕ → List String → Str → Option ℕ
  resolve_from id [] name = none
  resolve_from id (known ∷ names) name =
      if str_eq name (codes known) then some (wrapper id) else resolve_from (id + 1) names name

  unfoldable pub xef_resolve_import : Str → Option ℕ
  unfolding resolve_from
  xef_resolve_import name = resolve_from 0 import_names name

  -- The loop of `xef_build_import_addr_table` with `left` imports to go.
  unfoldable pub table_loop : Memory → ℕ → NativeMeta → ℕ → ℕ → Option (List ℕ)
  table_loop m image meta zero i = some []
  table_loop m image meta (suc left) i = elim (xef_read_import_name m image meta i 64) [
    | none ↦ none
    | some name ↦ elim (xef_resolve_import name) [
      | none ↦ none
      | some addr ↦ elim (table_loop m image meta left (i + 1)) [
        | none ↦ none
        | some addrs ↦ some (addr ∷ addrs)
      ]
    ]
  ]

  unfoldable pub xef_build_import_addr_table : Memory → ℕ → NativeMeta → ℕ → Option (List ℕ)
  unfolding table_loop
  xef_build_import_addr_table m image meta import_addr_cap =
      if meta.import_count == 0
      then some []
      else if ltb import_addr_cap meta.import_count
      then none
      else table_loop m image meta meta.import_count 0
