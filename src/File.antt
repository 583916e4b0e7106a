-- ===== src/File.antt =====
-- kernel/sima_fs.c, the contents of files and new entries: `fat_read_file_entry`,
-- `fat_write_cluster_chain`, `fat_make_dir_entry`, `fat_format_name`, `fat_fill_dirent`,
-- `fat_is_exec_entry`. The data to write is a list, whose length is `size`; a read returns the bytes
-- that it stored in `out`, where it returns TRUE.
pub mod Write
pub mod Contents
pub mod Coherent
use seolsem.Base.{
  ℕ, zero, suc, ◌+◌, ◌-◌, ◌/◌, Bool, true, false, not, ◌&&◌, ◌||◌, Option, none, some, List, [],
  ◌∷◌, ◌++◌, ltb, leb, ◌==◌, if◌then◌else◌, bit_and, u16, u32, get_or, take, drop, length, Str,
  codes,
}
use seolsem.Fat.{Sector, Drive, Volume, State}
use seolsem.Fat.Bytes.{Buffer, wr16, wr32}
use seolsem.Fat.Mount.{Bpb}
use seolsem.Fat.Name.{fat_build_83}
use seolsem.Fat.Table.{fat_cluster_is_valid, fat_next_cluster}
use seolsem.FilePath.{to_upper, name_max}
use seolsem.Mem.Copying.{c_str, strcpy, strcat}
use seolsem.Act.{Act, pure, fail, call, require, ◌>>=◌, ◌>>◌}
use seolsem.Dir.{
  attr_of, fat_cluster_to_lba, fat_entry_cluster, size_of, cluster_bytes, load, store,
}

-- The bytes of a sector from offset `o` on.
unfoldable pub bytes_from : Sector → ℕ → ℕ → List ℕ
bytes_from s zero o = []
bytes_from s (suc n) o = s o ∷ bytes_from s n (o + 1)

-- A sector that begins with the first bytes of the data; the rest of it is zero.
unfoldable pub padded : List ℕ → Sector
padded bytes o = get_or (take 512 bytes) o 0

abbrev pub is_nil : List ℕ → Bool
is_nil [] = true
is_nil (c ∷ bytes) = false

module _ (drv : Drive) (b : Bpb) (v : Volume) where
  open drv use {Disk}

  -- The sectors of one cluster; what is left of the data.
  unfoldable pub write_sectors : ℕ → ℕ → ℕ → List ℕ → Act (State Disk) (List ℕ)
  unfolding store padded
  write_sectors lba zero k bytes = pure bytes
  write_sectors lba (suc left) k bytes = do
    store drv b v (u32 (lba + k)) (padded bytes)
    if is_nil (drop 512 bytes) then pure [] else write_sectors lba left (k + 1) (drop 512 bytes)

  unfoldable pub write_loop : ℕ → ℕ → List ℕ → Act (State Disk) Unit
  unfolding write_sectors fat_cluster_to_lba
  write_loop zero cluster bytes = fail
  write_loop (suc left) cluster bytes = if not (fat_cluster_is_valid v cluster) then fail else do
    rest ← write_sectors (fat_cluster_to_lba v cluster) b.sec_per_clus 0 bytes
    if is_nil rest
        then pure tt
        else do next ← call (fat_next_cluster drv v cluster); write_loop left next rest

  -- A cluster takes at least one byte, so the length bounds the rounds.
  unfoldable pub fat_write_cluster_chain : ℕ → List ℕ → Act (State Disk) Unit
  unfolding write_loop
  fat_write_cluster_chain first_cluster bytes =
      if is_nil bytes then pure tt else write_loop (length bytes) first_cluster bytes

  unfoldable pub read_sectors : ℕ → ℕ → ℕ → Act (State Disk) (List ℕ)
  unfolding load bytes_from
  read_sectors lba zero k = pure []
  read_sectors lba (suc left) k = do
    s ← load drv b v (u32 (lba + k))
    rest ← read_sectors lba left (k + 1)
    pure (bytes_from s 512 0 ++ rest)

  -- The bytes of a cluster that are wanted: of the file, and of the room left in `out`.
  unfoldable pub chunk_of : ℕ → ℕ → ℕ
  unfolding cluster_bytes
  chunk_of size room =
      let chunk = if ltb (cluster_bytes v) size then cluster_bytes v else size in
      if ltb room chunk then room else chunk

  -- `size` bytes of the file to go, and `room` bytes of `out`.
  unfoldable pub read_loop : ℕ → ℕ → ℕ → ℕ → Act (State Disk) (List ℕ)
  unfolding read_sectors chunk_of fat_cluster_to_lba
  read_loop zero cluster size room = pure []
  read_loop (suc left) cluster size room =
      let chunk = chunk_of size room in
      if size == 0 || not (fat_cluster_is_valid v cluster) || room == 0 || chunk == 0
      then pure []
      else do
        sectors ← read_sectors (fat_cluster_to_lba v cluster) ((chunk + 511) / 512) 0
        if ltb 0 (size - chunk) && ltb chunk (cluster_bytes v)
            then pure (take chunk sectors)
            else do
              next ← call (fat_next_cluster drv v cluster)
              rest ← read_loop left next (size - chunk) (room - chunk)
              pure (take chunk sectors ++ rest)

  unfoldable pub fat_read_file_entry : Buffer → ℕ → Act (State Disk) (List ℕ)
  unfolding read_loop fat_entry_cluster size_of
  fat_read_file_entry raw out_cap = do
    let size = size_of raw
    require (not (ltb 0 size && not (fat_cluster_is_valid v (fat_entry_cluster raw))))
    bytes ← read_loop (size + 1) (fat_entry_cluster raw) size out_cap
    require (not (leb size out_cap && ltb (length bytes) size))
    pure bytes

-- The name, the extension and the attributes; the other bytes are zero.
abbrev blank : List ℕ → ℕ → Buffer
blank name83 attr i = if ltb i 11 then get_or name83 i 0 else if i == 11 then attr else 0

unfoldable pub fat_make_dir_entry : Str → ℕ → ℕ → ℕ → Option Buffer
unfolding fat_build_83
fat_make_dir_entry name attr first_cluster size = elim (fat_build_83 name) [
  | none ↦ none
  | some name83 ↦
      let lo = u16 (bit_and first_cluster 0xFFFF) in
      let hi = u16 (bit_and (first_cluster / 65536) 0xFFFF) in
      some (wr32 (wr16 (wr16 (blank name83 attr) 26 lo) 20 hi) 28 size)
]

-- The loop that sets trailing spaces to NUL.
unfoldable pub strip : List ℕ → List ℕ
strip [] = []
strip (c ∷ name) = elim (strip name) [ [] ↦ if c == b' ' then [] else c ∷ [] | d ∷ ds ↦ c ∷ d ∷ ds ]

-- A field of a name as a string; one that begins with a space is empty.
unfoldable pub field_of : List ℕ → Str
unfolding strip c_str
field_of [] = []
field_of (c ∷ name) = if c == b' ' then [] else c_str (strip (c ∷ name))

unfoldable pub fat_format_name : Buffer → ℕ → Str
unfolding field_of strcpy strcat
fat_format_name raw out_cap =
    let name = field_of (bytes_from raw 8 0) in
    let ext = field_of (bytes_from raw 3 8) in
    let out = (strcpy out_cap name).0 in
    if is_nil name
    then []
    else if is_nil ext
    then out
    else (strcat out_cap (strcat out_cap out (codes ".")).0 ext).0

unfoldable pub fat_is_exec_entry : Buffer → Bool
unfolding to_upper
fat_is_exec_entry raw =
    to_upper (raw 8) == b'X' && to_upper (raw 9) == b'E' && to_upper (raw 10) == b'F'

-- FS_DIRENT
pub record Dirent : Type 0 where
  pub name : Str
  pub size : ℕ
  pub first_cluster : ℕ
  pub is_dir : Bool
  pub is_volume : Bool
  pub is_hidden : Bool
  pub is_system : Bool
  pub is_exec : Bool

abbrev has_attr : Buffer → ℕ → Bool
has_attr raw attr = not (bit_and (attr_of raw) attr == 0)

unfoldable pub fat_fill_dirent : Buffer → Dirent
unfolding fat_format_name fat_entry_cluster fat_is_exec_entry size_of
fat_fill_dirent raw = record {
  name = fat_format_name raw name_max;
  size = size_of raw;
  first_cluster = fat_entry_cluster raw;
  is_dir = has_attr raw 0x10;
  is_volume = has_attr raw 0x08;
  is_hidden = has_attr raw 0x02;
  is_system = has_attr raw 0x04;
  is_exec = fat_is_exec_entry raw;
}
