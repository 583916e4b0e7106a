-- ===== src/Examples/Programs.antt =====
-- The theorems on program images and program slots, at concrete ones.
use seolsem.Base.{ℕ, ◌+◌, ◌*◌, ◌<◌, ◌≡◌, refl, true, List, [], ◌∷◌, get_or, arith}
use seolsem.Fat.Bytes.{le16}
use seolsem.Mem.Block.{Memory}
use seolsem.Xef.{
  ExecContext, NativeMeta, has_magic, read_meta, meta_is_valid, imports_fit, relocs_fit,
  xef_validate_header,
}
use seolsem.Xef.Image.{LoadArea, xef_prepare, xef_apply_relocs}
use seolsem.Xef.Header.{IsHeader, IsInside, xef_validate_header-IsInside, meta_is_valid-wraps}
use seolsem.Xef.Reloc.{KeepsOutside, IsRebased, xef_apply_relocs-KeepsOutside}
use seolsem.Xef.Load.{IsPlaced, IsSafe, xef_prepare-IsSafe}

-- A program of two code bytes and four of BSS, with one relocation record.
abbrev pub image_bytes : List ℕ
image_bytes =
    b'X' ∷ b'E' ∷ b'F' ∷ b'N' ∷ 1 ∷ 0 ∷ 0 ∷ 0 ∷ 0 ∷ 0 ∷ 2 ∷ 0 ∷ 0 ∷ 0 ∷ 4 ∷ 0 ∷ 0 ∷ 0 ∷ 0 ∷ 0 ∷ 30
    ∷ 0 ∷ 1 ∷ 0 ∷ 0 ∷ 0 ∷ 0 ∷ 0 ∷ 1 ∷ 0 ∷ 0 ∷ 0 ∷ 1 ∷ 0 ∷ []

abbrev memory : Memory
memory a = get_or image_bytes a 0

abbrev context : ExecContext
context = record { image = 0; image_size = 34; image_capacity = 40; arg = 0; stack_top = 0 }

context-IsPlaced : IsPlaced context
context-IsPlaced = record {
  within = omega arith;
  in_segment = omega arith;
  below_wrap = omega arith;
}

abbrev pub wrappers : ℕ → ℕ
wrappers id = 4096 + id

abbrev header : NativeMeta
header = record {
  entry = 0;
  code_size = 2;
  data_size = 0;
  bss_size = 4;
  import_off = 0;
  import_count = 0;
  reloc_off = 30;
  reloc_count = 1;
  str_off = 0;
  str_size = 0;
}

xef_prepare-IsSafe_example :
    IsSafe wrappers context context-IsPlaced memory (xef_prepare wrappers context memory)
xef_prepare-IsSafe_example = xef_prepare-IsSafe wrappers context context-IsPlaced memory

xef_validate_header-IsInside_example : IsHeader memory 0 header × IsInside header 34
unfolding xef_validate_header has_magic read_meta meta_is_valid imports_fit relocs_fit le16
xef_validate_header-IsInside_example =
    xef_validate_header-IsInside memory 0 34 header (omega arith) refl

meta_is_valid-wraps_example :
    let longer : NativeMeta = record header { reloc_count = 16385 } in
    (meta_is_valid longer 34 ≡ true) × (34 < longer.reloc_off + longer.reloc_count * 4)
unfolding meta_is_valid imports_fit relocs_fit
meta_is_valid-wraps_example = meta_is_valid-wraps header 34 (omega arith) (omega arith) refl

abbrev area : LoadArea
area = record { load_base = 28; load_size = 6 }

xef_apply_relocs-KeepsOutside_example :
    KeepsOutside 28 34 memory (xef_apply_relocs area 0 header [] memory).1
xef_apply_relocs-KeepsOutside_example = xef_apply_relocs-KeepsOutside area header [] 0 memory

record-IsRebased : IsRebased area 30 memory
unfolding le16
record-IsRebased = record {
  is_base = refl;
  fits = omega arith;
  offset = omega arith;
  apart = omega arith;
}
