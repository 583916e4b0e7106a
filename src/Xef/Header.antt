-- ===== src/Xef/Header.antt =====
-- What `xef_validate_header` guarantees of the tables of an image, and what it does not.
use seolsem.Base.{ℕ, ◌+◌, ◌*◌, ◌≤◌, ◌<◌, ◌≡◌, true, some, arith, ◌==◌, u16}
use seolsem.Fat.Bytes.{le16}
use seolsem.Mem.Block.{Memory}
use seolsem.Xef.{
  NativeMeta, header_size, version, has_magic, read_meta, load_blob_end, imports_fit, relocs_fit,
  meta_is_valid, xef_validate_header,
}

-- The tables of a header lie in the image: the code and data behind the header, the import table
-- and the strings behind these, and so the relocation records, each where the table is not empty
-- and its size in bytes is below 64 KiB.
pub record IsInside (meta : NativeMeta) (image_size : ℕ) : Type 0 where
  pub entry_in_code : meta.entry < meta.code_size
  pub blob : header_size + meta.code_size + meta.data_size ≤ image_size
  pub imports :
      0 < meta.import_count
      → meta.import_count < 32768
      → (load_blob_end meta ≤ meta.import_off)
        × (meta.import_off + meta.import_count * 2 ≤ image_size)
        × (load_blob_end meta ≤ meta.str_off)
        × (meta.str_off + meta.str_size ≤ image_size)
        × (0 < meta.str_size)
  pub relocs :
      0 < meta.reloc_count
      → meta.reloc_count < 16384
      → (load_blob_end meta ≤ meta.reloc_off) × (meta.reloc_off + meta.reloc_count * 4 ≤ image_size)

meta_is_valid-imports :
    (meta : NativeMeta) (image_size : ℕ)
    → image_size < 65536
    → load_blob_end meta ≤ image_size
    → imports_fit meta image_size ≡ true
    → 0 < meta.import_count
    → meta.import_count < 32768
    → (load_blob_end meta ≤ meta.import_off)
      × (meta.import_off + meta.import_count * 2 ≤ image_size)
      × (load_blob_end meta ≤ meta.str_off)
      × (meta.str_off + meta.str_size ≤ image_size)
      × (0 < meta.str_size)
unfolding imports_fit
meta_is_valid-imports meta image_size small blob h p q = ground arith

meta_is_valid-relocs :
    (meta : NativeMeta) (image_size : ℕ)
    → image_size < 65536
    → load_blob_end meta ≤ image_size
    → relocs_fit meta image_size ≡ true
    → 0 < meta.reloc_count
    → meta.reloc_count < 16384
    → (load_blob_end meta ≤ meta.reloc_off) × (meta.reloc_off + meta.reloc_count * 4 ≤ image_size)
unfolding relocs_fit
meta_is_valid-relocs meta image_size small blob h p q = ground arith

pub meta_is_valid-IsInside :
    (meta : NativeMeta) (image_size : ℕ)
    → image_size < 65536
    → meta_is_valid meta image_size ≡ true
    → IsInside meta image_size
meta_is_valid-IsInside meta image_size small h =
    let blob : load_blob_end meta ≤ image_size = unfold meta_is_valid in ground arith in
    record {
      entry_in_code = unfold meta_is_valid in ground arith;
      blob = blob;
      imports =
          meta_is_valid-imports meta image_size small blob (unfold meta_is_valid in ground arith);
      relocs =
          meta_is_valid-relocs meta image_size small blob (unfold meta_is_valid in ground arith);
    }

-- The magic, the version and the words of the header at `image`.
pub record IsHeader (m : Memory) (image : ℕ) (meta : NativeMeta) : Type 0 where
  pub magic : has_magic m image ≡ true
  pub versioned : le16 m (image + 4) ≡ version
  pub words : read_meta m image ≡ meta

validated :
    (m : Memory) (image image_size : ℕ) (meta : NativeMeta)
    → xef_validate_header m image image_size ≡ some meta
    → IsHeader m image meta × (meta_is_valid meta image_size ≡ true)
validated m image image_size meta h =
    let words : read_meta m image ≡ meta = unfold xef_validate_header in ground arith in
    (
      record {
        magic = unfold xef_validate_header in ground arith;
        versioned = unfold xef_validate_header in ground arith;
        words = words;
      },
      rw (← words) (unfold xef_validate_header in ground arith),
    )

-- An image of less than 64 KiB whose header xef_validate_header accepts, with the words it
-- returns: it has the magic and the version, its entry lies in its code, header, code and data lie
-- in the image, and so do, behind these, the import table and the strings if there are 1 to 32767
-- imports, and the relocation records if there are 1 to 16383.
pub xef_validate_header-IsInside :
    (m : Memory) (image image_size : ℕ) (meta : NativeMeta)
    → image_size < 65536
    → xef_validate_header m image image_size ≡ some meta
    → IsHeader m image meta × IsInside meta image_size
xef_validate_header-IsInside m image image_size meta small h =
    let (header, valid) = validated m image image_size meta h in
    (header, meta_is_valid-IsInside meta image_size small valid)

-- The size of the relocation table wraps at 16 bits: wherever the tests of xef_validate_header
-- accept a header with relocations, they accept the one with 16384 more of them, whose table
-- reaches beyond the end of the image.
pub meta_is_valid-wraps :
    (meta : NativeMeta) (image_size : ℕ)
    → image_size < 65536
    → 0 < meta.reloc_count
    → meta_is_valid meta image_size ≡ true
    → let longer : NativeMeta = record meta { reloc_count = meta.reloc_count + 16384 } in
      (meta_is_valid longer image_size ≡ true)
      × (image_size < longer.reloc_off + longer.reloc_count * 4)
meta_is_valid-wraps meta image_size small p h = (rw (relocs_fit-wraps) h, omega arith)
  where
    wrapped : (n : ℕ) → u16 ((n + 16384) * 4) ≡ u16 (n * 4)
    wrapped n = omega arith

    some_records : (meta.reloc_count + 16384 == 0) ≡ (meta.reloc_count == 0)
    some_records = ground arith

    relocs_fit-wraps :
        meta_is_valid (record meta { reloc_count = meta.reloc_count + 16384 }) image_size
        ≡ meta_is_valid meta image_size
    relocs_fit-wraps =
        unfold meta_is_valid imports_fit relocs_fit in rw (wrapped meta.reloc_count, some_records)
