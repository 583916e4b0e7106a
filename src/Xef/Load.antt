-- ===== src/Xef/Load.antt =====
-- What `xef_native_exec_ctx` has done when it calls the program.
use seolsem.Base.{
  ℕ, ◌+◌, ◌≤◌, ◌<◌, ◌≡◌, inl, inr, refl, ◌∙◌, Bool, true, false, ◌&&◌, ◌||◌, Option, none, some,
  List, arith, ltb, leb, ◌==◌, u16, if_rule, Option-cases, if◌then◌else◌,
}
use mathlib.Core.Path.{subst}
use seolsem.Mem.Block.{Memory, sima_memmove, sima_memmove-moved, sima_memset-fills}
use seolsem.Xef.{
  ExecContext, NativeMeta, XefResult, header_size, xef_validate_header, xef_build_import_addr_table,
  err_image_too_large, err_no_memory, err_import, err_bad_header,
}
use seolsem.Xef.Image.{
  LoadArea, Placed, code_at, refused, Outcome, failed, ready, after_move, place_code, clear_bss,
  cleared, relocated, placed, imported, load_image, xef_prepare, xef_apply_relocs,
  xef_pick_stack_top,
}
use seolsem.Xef.Header.{IsInside, xef_validate_header-IsInside}
use seolsem.Xef.Reloc.{KeepsOutside, xef_apply_relocs-KeepsOutside}

-- The image lies in its capacity, and that in the segment with room for a header behind it.
pub record IsPlaced (ctx : ExecContext) : Type 0 where
  pub within : ctx.image_size ≤ ctx.image_capacity
  pub in_segment : ctx.image + ctx.image_capacity ≤ 65536
  pub below_wrap : ctx.image_capacity + header_size < 65536

abbrev pub exec_size : NativeMeta → ℕ
exec_size meta = meta.code_size + meta.data_size + meta.bss_size

-- The program stands at `base` in its capacity with a clear BSS, and is entered at its entry.
pub record IsLoaded (ctx : ExecContext) (meta : NativeMeta) (entry_off stack_top : ℕ) (m : Memory)
    : Type 0 where
  pub base : ℕ
  pub low : ctx.image ≤ base
  pub high : base + exec_size meta ≤ ctx.image + ctx.image_capacity
  pub entry : entry_off ≡ base + meta.entry
  pub in_code : meta.entry < meta.code_size
  pub stack : stack_top ≡ xef_pick_stack_top ctx
  pub bss :
      (a : ℕ) → base + meta.code_size + meta.data_size ≤ a → a < base + exec_size meta → m a ≡ 0

-- After an error nothing is claimed but where the writes went.
abbrev pub Loaded : ExecContext → NativeMeta → Outcome → Memory → Type 0
Loaded ctx meta (failed e) m = Unit {0}
Loaded ctx meta (ready entry_off stack_top) m = IsLoaded ctx meta entry_off stack_top m

module _ (ctx : ExecContext) (meta : NativeMeta) (fits : IsPlaced ctx)
    (inside : IsInside meta ctx.image_size) (sized : exec_size meta ≤ ctx.image_capacity) where
  -- The writes stay in the capacity of the image.
  abbrev Keeps : Memory → Memory → Type 0
  Keeps m m' = KeepsOutside ctx.image (ctx.image + ctx.image_capacity) m m'

  abbrev Good : Memory → Outcome × Memory → Type 0
  Good m r = Keeps m r.1 × Loaded ctx meta r.0 r.1

  -- The two places that the code may have.
  abbrev IsBase : ℕ → Type 0
  IsBase b = (ctx.image ≤ b) × (b + exec_size meta ≤ ctx.image + ctx.image_capacity)

  clear_bss-fills :
      (b : ℕ) (m : Memory) (a : ℕ)
      → (clear_bss meta b m).0 a ≡ (
          if leb (b + meta.code_size + meta.data_size) a && ltb a (b + exec_size meta)
          then 0
          else m a)
  unfolding clear_bss
  clear_bss-fills b m a =
      ground (arith, sima_memset-fills (b + meta.code_size + meta.data_size) 0 meta.bss_size m a)

  cleared-Good :
      (b : ℕ) (m : Memory) (r : Memory × Bool)
      → IsBase b
      → ((a : ℕ)
          → r.0 a ≡ (
              if leb (b + meta.code_size + meta.data_size) a && ltb a (b + exec_size meta)
              then 0
              else m a))
      → Good m (cleared ctx meta b r)
  unfolding cleared
  cleared-Good b m (m', false) h fill = (λ a out. ground (arith, fill a), tt)
  cleared-Good b m (m', true) h fill = (
    λ a out. ground (arith, fill a),
    record {
      base = b;
      low = h.0;
      high = h.1;
      entry = omega (arith, inside.entry_in_code, fits.in_segment);
      in_code = inside.entry_in_code;
      stack = refl;
      bss = λ a lo hi. ground (arith, fill a);
    },
  )

  Good-trans : (m m' : Memory) (r : Outcome × Memory) → Keeps m m' → Good m' r → Good m r
  Good-trans m m' r k g = (λ a out. g.0 a out ∙ k a out, g.1)

  relocated-Good :
      (b : ℕ) (m : Memory) (r : Bool × Memory)
      → IsBase b
      → Keeps m r.1
      → Good m (relocated ctx meta b r)
  unfolding relocated
  relocated-Good b m (false, m') h k = (k, tt)
  relocated-Good b m (true, m') h k =
      Good-trans m m' (cleared ctx meta b (clear_bss meta b m')) k
        (cleared-Good b m' (clear_bss meta b m') h (clear_bss-fills b m'))

  abbrev PlacedWell : Memory → Placed → Type 0
  PlacedWell m (code_at b m') = IsBase b × Keeps m m'
  PlacedWell m (refused e m') = Keeps m m'

  placed-Good :
      (import_addr : List ℕ) (m : Memory) (p : Placed)
      → PlacedWell m p
      → Good m (placed ctx meta (exec_size meta) import_addr p)
  unfolding placed
  placed-Good import_addr m (refused e m') h = (h, tt)
  placed-Good import_addr m (code_at b m') (base, k) =
      let area : LoadArea = record { load_base = b; load_size = exec_size meta } in
      relocated-Good b m (xef_apply_relocs area ctx.image meta import_addr m') base (λ a out.
        xef_apply_relocs-KeepsOutside area meta import_addr ctx.image m' a (ground arith) ∙ k a out)

  after_move-PlacedWell :
      (m : Memory) (r : Memory × Bool) → Keeps m r.0 → PlacedWell m (after_move ctx.image r)
  unfolding after_move
  after_move-PlacedWell m (m', true) k = ((omega arith, omega arith), k)
  after_move-PlacedWell m (m', false) k = k

  moved_code-Keeps :
      (m : Memory)
      → Keeps m
          (sima_memmove
            (some ctx.image)
            (some (ctx.image + header_size))
            (u16 (meta.code_size + meta.data_size))
            m).0
  moved_code-Keeps m a out = ground (
    arith,
    sima_memmove-moved ctx.image (ctx.image + header_size) (u16 (meta.code_size + meta.data_size)) m
        a,
  )

  place_code-PlacedWell : (m : Memory) → PlacedWell m (place_code ctx meta (exec_size meta) m)
  unfolding place_code
  place_code-PlacedWell m =
      let in_place = ctx.image + header_size in
      let shifted =
        sima_memmove (some ctx.image) (some in_place) (u16 (meta.code_size + meta.data_size)) m in
      let otherwise =
        if leb (exec_size meta) ctx.image_capacity
        then after_move ctx.image shifted
        else refused err_no_memory m in
      if_rule (PlacedWell m) (meta.bss_size == 0) (code_at in_place m)
        (if leb (u16 (header_size + exec_size meta)) ctx.image_capacity
          then code_at in_place m
          else otherwise)
        (λ e. ((omega arith, ground (arith, e, inside.blob, fits.within)), λ a out. refl))
        λ _.
          if_rule (PlacedWell m) (leb (u16 (header_size + exec_size meta)) ctx.image_capacity)
            (code_at in_place m) otherwise
            (λ e. ((omega arith, ground (arith, e, sized, fits.below_wrap)), λ a out. refl))
            λ _.
              if_rule (PlacedWell m) (leb (exec_size meta) ctx.image_capacity)
                (after_move ctx.image shifted) (refused err_no_memory m)
                (λ _. after_move-PlacedWell m shifted (moved_code-Keeps m)) λ _ a out. refl

  imported-Good :
      (m : Memory) (o : Option (List ℕ)) → Good m (imported ctx meta (exec_size meta) m o)
  unfolding imported
  imported-Good m none = (λ a out. refl, tt)
  imported-Good m (some import_addr) =
      placed-Good import_addr m (place_code ctx meta (exec_size meta) m) (place_code-PlacedWell m)

module _ (wrapper : ℕ → ℕ) (ctx : ExecContext) (fits : IsPlaced ctx) where
  -- After an error, or with the program loaded from a header that was found valid, no byte outside
  -- the capacity of the image has changed.
  pub record IsSafe (m : Memory) (r : Outcome × Memory) : Type 0 where
    pub keeps : KeepsOutside ctx.image (ctx.image + ctx.image_capacity) m r.1
    pub loaded :
        (entry_off stack_top : ℕ)
        → r.0 ≡ ready entry_off stack_top
        → (meta : NativeMeta) × (xef_validate_header m ctx.image ctx.image_size ≡ some meta)
          × IsLoaded ctx meta entry_off stack_top r.1

  failed-IsSafe : (m : Memory) (e : XefResult) → IsSafe m (failed e, m)
  failed-IsSafe m e = record { keeps = λ a out. refl; loaded = λ a b c. cc }

  Good-IsSafe :
      (m : Memory) (meta : NativeMeta) (inside : IsInside meta ctx.image_size)
      (sized : exec_size meta ≤ ctx.image_capacity) (r : Outcome × Memory)
      → xef_validate_header m ctx.image ctx.image_size ≡ some meta
      → Good ctx meta fits inside sized m r
      → IsSafe m r
  Good-IsSafe m meta inside sized (failed e, m') h g = record { keeps = g.0; loaded = λ a b c. cc }
  Good-IsSafe m meta inside sized (ready entry_off stack_top, m') h g = record {
    keeps = g.0;
    loaded = λ a b c. (meta, h, subst (λ o. Loaded ctx meta o m') c g.1);
  }

  load_image-IsSafe :
      (m : Memory) (meta : NativeMeta)
      → xef_validate_header m ctx.image ctx.image_size ≡ some meta
      → IsInside meta ctx.image_size
      → IsSafe m (load_image wrapper ctx meta m)
  unfolding load_image
  load_image-IsSafe m meta h inside =
      let imports = xef_build_import_addr_table wrapper m ctx.image meta 32 in
      if_rule (IsSafe m) (exec_size meta == 0 || ltb 65535 (exec_size meta))
        (failed err_image_too_large, m)
        (if ltb ctx.image_capacity (exec_size meta)
          then (failed err_no_memory, m)
          else if ltb 32 meta.import_count
          then (failed err_import, m)
          else imported ctx meta (exec_size meta) m imports)
        (λ _. failed-IsSafe m err_image_too_large)
        λ _.
          if_rule (IsSafe m) (ltb ctx.image_capacity (exec_size meta)) (failed err_no_memory, m)
            (if ltb 32 meta.import_count
              then (failed err_import, m)
              else imported ctx meta (exec_size meta) m imports)
            (λ _. failed-IsSafe m err_no_memory)
            λ sized.
              if_rule (IsSafe m) (ltb 32 meta.import_count) (failed err_import, m)
                (imported ctx meta (exec_size meta) m imports) (λ _. failed-IsSafe m err_import)
                λ _.
                  Good-IsSafe m meta inside (ground arith)
                    (imported ctx meta (exec_size meta) m imports) h
                    (imported-Good ctx meta fits inside (ground arith) m imports)

  -- Loading any image whatever, with an image size within the capacity and a capacity that lies in
  -- the segment and leaves room for a header below 64 KiB: up to the call of the program,
  -- xef_native_exec_ctx changes no byte of memory outside the capacity of the image. If it comes
  -- to the call, the header was valid, the code, data and BSS lie within the capacity, the entry
  -- lies in the code, the BSS is zero, and the stack is the one that xef_pick_stack_top gives.
  pub xef_prepare-IsSafe : (m : Memory) → IsSafe m (xef_prepare wrapper ctx m)
  unfolding xef_prepare
  xef_prepare-IsSafe m = elim (Option-cases (xef_validate_header m ctx.image ctx.image_size)) [
    | inl e ↦ rw (e, xef_prepare) (failed-IsSafe m err_bad_header)
    | inr (meta, e) ↦
        rw (e, xef_prepare)
          (load_image-IsSafe m meta e
            (xef_validate_header-IsInside m ctx.image ctx.image_size meta
              (omega (arith, fits.within, fits.below_wrap)) e).1)
  ]
