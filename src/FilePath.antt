-- ===== src/FilePath.antt =====
-- kernel/sima_fs.c, paths as text: `to_upper`, `fs_upper_inplace`, `fat_skip_separators`,
-- `fat_next_segment`, `fs_normalize_path`, `fs_make_abs_path`. A cursor is the rest of the path. The
-- segments found so far are a stack with the last one first, and its length is `depth`.
pub mod Canonical
pub mod Walk
use seolsem.Base.{
  ℕ, zero, suc, ◌+◌, ◌-◌, Bool, true, false, ◌&&◌, ◌||◌, Option, none, some, List, [], ◌∷◌, ◌++◌,
  map, ltb, leb, ◌==◌, if◌then◌else◌, length, u8, Str, codes,
}
use seolsem.Mem.Copying.{strcpy, strcat}

abbrev pub name_max : ℕ
name_max = 13

abbrev pub max_depth : ℕ
max_depth = 32

unfoldable pub to_upper : ℕ → ℕ
to_upper ch = if leb b'a' ch && leb ch b'z' then u8 (ch - b'a' + b'A') else ch

-- `fs_upper_inplace` on the string of its buffer.
abbrev pub upper : Str → Str
upper s = map to_upper s

unfoldable pub is_separator : ℕ → Bool
is_separator ch = ch == b'/' || ch == b'\\'

unfoldable pub fat_skip_separators : Str → Str
unfolding is_separator
fat_skip_separators [] = []
fat_skip_separators (c ∷ cursor) = if is_separator c then fat_skip_separators cursor else c ∷ cursor

-- The copying loop of `fat_next_segment`: the segment and the cursor behind it, or `none` if the
-- segment does not fit.
unfoldable pub take_segment : ℕ → ℕ → Str → Option (Str × Str)
unfolding is_separator
take_segment cap segment_len [] = some ([], [])
take_segment cap segment_len (c ∷ cursor) =
    if is_separator c
    then some ([], c ∷ cursor)
    else if leb cap (segment_len + 1)
    then none
    else elim (take_segment cap (segment_len + 1) cursor) [
      | none ↦ none
      | some (s, rest) ↦ some (c ∷ s, rest)
    ]

unfoldable pub fat_next_segment : Str → ℕ → Option (Str × Str)
unfolding take_segment
fat_next_segment cursor segment_cap = elim (fat_skip_separators cursor) [
  | [] ↦ none
  | c ∷ cs ↦ if segment_cap == 0 then none else take_segment segment_cap 0 (c ∷ cs)
]

unfoldable pub is_dot : Str → Bool
is_dot [] = false
is_dot (c ∷ []) = c == b'.'
is_dot (c ∷ d ∷ s) = false

unfoldable pub is_dotdot : Str → Bool
is_dotdot [] = false
is_dotdot (c ∷ []) = false
is_dotdot (c ∷ d ∷ []) = c == b'.' && d == b'.'
is_dotdot (c ∷ d ∷ e ∷ s) = false

-- `--depth` if it is above 0.
unfoldable pub pop : List Str → List Str
pop [] = []
pop (s ∷ segs) = segs

-- `segs[depth]` gets the segment in upper case; `none` is the FALSE at FS_MAX_DEPTH.
unfoldable pub push : Str → List Str → Option (List Str)
unfolding strcpy to_upper
push segment segs =
    if leb max_depth (length segs) then none else some (upper (strcpy name_max segment).0 ∷ segs)

-- The loop over the base path, on fuel: each round passes at least one byte, so a segment is
-- never empty.
unfoldable pub seed_loop : ℕ → Str → List Str → Option (List Str)
unfolding push fat_next_segment fat_skip_separators
seed_loop zero cursor segs = some segs
seed_loop (suc fuel) cursor segs = elim (fat_next_segment cursor name_max) [
  | none ↦ some segs
  | some (segment, rest) ↦ elim (push segment segs) [
    | none ↦ none
    | some segs' ↦ seed_loop fuel (fat_skip_separators rest) segs'
  ]
]

-- What one segment of the path does to the stack.
unfoldable pub enter : Str → List Str → Option (List Str)
unfolding push pop is_dot is_dotdot
enter segment segs =
    if is_dot segment
    then some segs
    else if is_dotdot segment
    then some (pop segs)
    else push segment segs

-- The loop over the path itself.
unfoldable pub walk_loop : ℕ → Str → List Str → Option (List Str)
unfolding enter fat_next_segment fat_skip_separators
walk_loop zero cursor segs = some segs
walk_loop (suc fuel) cursor segs = elim (fat_next_segment cursor name_max) [
  | none ↦ some segs
  | some (segment, rest) ↦ elim (enter segment segs) [
    | none ↦ none
    | some segs' ↦ walk_loop fuel (fat_skip_separators rest) segs'
  ]
]

-- `strcat` of the segments, with a slash between two; the first segment is the first of the list.
unfoldable pub build_loop : ℕ → Str → List Str → Str
unfolding strcat
build_loop cap out [] = out
build_loop cap out (s ∷ []) = (strcat cap out s).0
build_loop cap out (s ∷ t ∷ segs) =
    build_loop cap (strcat cap (strcat cap out s).0 (codes "/")).0 (t ∷ segs)

-- `segs[0]` first.
unfoldable pub in_order : List Str → List Str → List Str
in_order acc [] = acc
in_order acc (s ∷ segs) = in_order (s ∷ acc) segs

abbrev pub starts_absolute : Str → Bool
starts_absolute [] = false
starts_absolute (c ∷ path) = is_separator c

unfoldable pub or_root : ℕ → Str → Str
unfolding strcpy
or_root cap [] = (strcpy cap (codes "/")).0
or_root cap (c ∷ out) = c ∷ out

-- The canonical segments of a path, before they are put together.
unfoldable pub segments : Str → Str → Option (List Str)
unfolding seed_loop walk_loop is_separator
segments base path =
    if starts_absolute path
    then walk_loop (length path) path []
    else elim (seed_loop (length base) base []) [
      | none ↦ none
      | some segs ↦ walk_loop (length path) path segs
    ]

unfoldable pub fs_normalize_path : Str → Str → ℕ → Option Str
unfolding strcpy segments build_loop in_order or_root
fs_normalize_path base_abs [] out_cap =
    if out_cap == 0
    then none
    else some
        (or_root out_cap (strcpy out_cap (elim base_abs [ [] ↦ codes "/" | c ∷ b ↦ c ∷ b ])).0)
fs_normalize_path base_abs (c ∷ path) out_cap =
    if out_cap == 0
    then none
    else elim (segments (elim base_abs [ [] ↦ codes "/" | d ∷ b ↦ d ∷ b ]) (c ∷ path)) [
      | none ↦ none
      | some segs ↦
          some
            (or_root out_cap (build_loop out_cap (strcpy out_cap (codes "/")).0 (in_order [] segs)))
    ]

abbrev pub path_max : ℕ
path_max = 128

-- `fs_make_abs_path` with g_cwd_path; `none` is FALSE.
unfoldable pub fs_make_abs_path : Bool → Str → Option Str → ℕ → Option Str
unfolding fs_normalize_path
fs_make_abs_path ready cwd path out_cap =
    if ready
    then fs_normalize_path cwd
        (elim path [ none ↦ codes "." | some p ↦ elim p [ [] ↦ codes "." | c ∷ q ↦ c ∷ q ] ])
        out_cap
    else none
