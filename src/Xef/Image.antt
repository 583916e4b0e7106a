-- ===== src/Xef/Image.antt =====
-- kernel/xef_loader.c: an image in its place, relocated and run (`xef_apply_relocs`,
-- `xef_pick_stack_top`, `xef_native_exec_ctx`).
use seolsem.Base.{
  ℕ, zero, suc, ◌+◌, ◌*◌, Bool, true, false, not, ◌||◌, Option, none, some, List, ltb, leb, ◌==◌,
  if◌then◌else◌, bit_and, u16, get_or,
}
use seolsem.Fat.Bytes.{le16, wr16}
use seolsem.Mem.Block.{Memory, sima_memmove, sima_memset}
use seolsem.Xef.{
  ExecContext, NativeMeta, XefResult, err_bad_header, err_exec, err_image_too_large, err_import,
  err_no_memory, err_reloc, header_size, ok, reloc_base16, reloc_import16,
  xef_build_import_addr_table, xef_validate_header,
}

-- Where the image is loaded, and the size that patches may reach into.
pub record LoadArea : Type 0 where
  pub load_base : ℕ
  pub load_size : ℕ

-- One relocation record at `rec`; `none` is the FALSE of `xef_apply_relocs`.
unfoldable pub reloc_step : LoadArea → NativeMeta → List ℕ → ℕ → Memory → Option Memory
reloc_step area meta import_addr rec m =
    let patch_off = le16 m rec in
    let kind = m (rec + 2) in
    let arg = m (rec + 3) in
    let cur = le16 m (area.load_base + patch_off) in
    if ltb area.load_size (patch_off + 2)
    then none
    else if kind == reloc_base16
    then if ltb cur area.load_size
      then some (wr16 m (area.load_base + patch_off) (u16 (cur + area.load_base)))
      else some m
    else if kind == reloc_import16
    then if leb meta.import_count arg
      then none
      else some (wr16 m (area.load_base + patch_off) (get_or import_addr arg 0))
    else none

-- The loop with `left` records to go; the memory as it is when the loop ends either way.
unfoldable pub reloc_loop : LoadArea → ℕ → NativeMeta → List ℕ → ℕ → ℕ → Memory → Bool × Memory
reloc_loop area image meta import_addr zero i m = (true, m)
reloc_loop area image meta import_addr (suc left) i m =
    elim (reloc_step area meta import_addr (image + meta.reloc_off + u16 (i * 4)) m) [
      | none ↦ (false, m)
      | some m' ↦ reloc_loop area image meta import_addr left (i + 1) m'
    ]

unfoldable pub xef_apply_relocs : LoadArea → ℕ → NativeMeta → List ℕ → Memory → Bool × Memory
unfolding reloc_loop
xef_apply_relocs area image meta import_addr m =
    reloc_loop area image meta import_addr meta.reloc_count 0 m

abbrev even_or_top : ℕ → ℕ
even_or_top top = if bit_and top 0xFFFE == 0 then 0xFFFE else bit_and top 0xFFFE

unfoldable pub xef_pick_stack_top : ExecContext → ℕ
xef_pick_stack_top ctx =
    let top32 = ctx.image + ctx.image_capacity in
    if not (ctx.stack_top == 0)
    then even_or_top ctx.stack_top
    else even_or_top (if ltb 0xFFFE top32 then 0xFFFE else top32)

-- The code stands at an address, or the load ends with an error.
pub data Placed : Type 0 where
  code_at : ℕ → Memory → Placed
  refused : XefResult → Memory → Placed

unfoldable pub after_move : ℕ → Memory × Bool → Placed
after_move load_base (m, true) = code_at load_base m
after_move load_base (m, false) = refused err_exec m

-- Where the code is to stand: in place behind the header, or moved to the start of the image if
-- the capacity holds the BSS only so.
unfoldable pub place_code : ExecContext → NativeMeta → ℕ → Memory → Placed
unfolding after_move
place_code ctx meta exec_size m =
    let in_place = ctx.image + header_size in
    if meta.bss_size == 0
    then code_at in_place m
    else if leb (u16 (header_size + exec_size)) ctx.image_capacity
    then code_at in_place m
    else if leb exec_size ctx.image_capacity
    then after_move ctx.image
        (sima_memmove (some ctx.image) (some in_place) (u16 (meta.code_size + meta.data_size)) m)
    else refused err_no_memory m

unfoldable pub clear_bss : NativeMeta → ℕ → Memory → Memory × Bool
clear_bss meta load_base m =
    if ltb 0 meta.bss_size
    then sima_memset (some (load_base + meta.code_size + meta.data_size)) 0 meta.bss_size m
    else (m, true)

-- What is left to do: nothing after an error, or the call of the entry with its stack.
pub data Outcome : Type 0 where
  failed : XefResult → Outcome
  ready : ℕ → ℕ → Outcome

module _ (ctx : ExecContext) (meta : NativeMeta) where
  -- After the BSS is cleared.
  unfoldable pub cleared : ℕ → Memory × Bool → Outcome × Memory
  cleared load_base (m, false) = (failed err_exec, m)
  cleared load_base (m, true) = (ready (u16 (load_base + meta.entry)) (xef_pick_stack_top ctx), m)

  -- After the relocations.
  unfoldable pub relocated : ℕ → Bool × Memory → Outcome × Memory
  unfolding clear_bss cleared
  relocated load_base (false, m) = (failed err_reloc, m)
  relocated load_base (true, m) = cleared load_base (clear_bss meta load_base m)

  -- After the code is placed.
  unfoldable pub placed : ℕ → List ℕ → Placed → Outcome × Memory
  unfolding relocated
  placed exec_size import_addr (refused e m) = (failed e, m)
  placed exec_size import_addr (code_at load_base m) = relocated load_base (
      xef_apply_relocs (record { load_base = load_base; load_size = exec_size }) ctx.image meta
        import_addr m)

  -- After the imports are resolved.
  unfoldable pub imported : ℕ → Memory → Option (List ℕ) → Outcome × Memory
  unfolding placed place_code
  imported exec_size m none = (failed err_import, m)
  imported exec_size m (some import_addr) =
      placed exec_size import_addr (place_code ctx meta exec_size m)

module _ (wrapper : ℕ → ℕ) where
  -- `xef_native_exec_ctx` with a valid header, up to the call.
  unfoldable pub load_image : ExecContext → NativeMeta → Memory → Outcome × Memory
  unfolding imported
  load_image ctx meta m =
      let exec_size = meta.code_size + meta.data_size + meta.bss_size in
      if exec_size == 0 || ltb 65535 exec_size
      then (failed err_image_too_large, m)
      else if ltb ctx.image_capacity exec_size
      then (failed err_no_memory, m)
      else if ltb 32 meta.import_count
      then (failed err_import, m)
      else imported ctx meta exec_size m (xef_build_import_addr_table wrapper m ctx.image meta 32)

  unfoldable pub xef_prepare : ExecContext → Memory → Outcome × Memory
  unfolding load_image
  xef_prepare ctx m = elim (xef_validate_header m ctx.image ctx.image_size) [
    | none ↦ (failed err_bad_header, m)
    | some meta ↦ load_image ctx meta m
  ]

  -- The result, the exit code and the memory behind.
  unfoldable pub finish :
      (ℕ → ℕ → ℕ → Memory → ℕ × Memory) → ℕ → Outcome × Memory → XefResult × ℕ × Memory
  finish call_entry arg (failed e, m) = (e, 1, m)
  finish call_entry arg (ready entry_off stack_top, m) =
      let (status, m') = call_entry entry_off arg stack_top m in (ok, status, m')

  unfoldable pub xef_native_exec_ctx :
      (ℕ → ℕ → ℕ → Memory → ℕ × Memory) → ExecContext → Memory → XefResult × ℕ × Memory
  unfolding xef_prepare finish
  xef_native_exec_ctx call_entry ctx m = finish call_entry ctx.arg (xef_prepare ctx m)
