-- ===== src/FilePath/Walk.antt =====
-- The loop of `fs_normalize_path` over a path keeps the stack canonical, and its fuel suffices.
use mathlib.Core.Option.{some-injective}
use mathlib.Core.Path.{subst}
use seolsem.Base.{
  ℕ, zero, suc, ◌+◌, ◌≤◌, ◌<◌, ◌≡◌, refl, true, false, Option, none, some, List, [], ◌∷◌, leb,
  if◌then◌else◌, length, Str, All, arith, if_rule, take_all,
}
use seolsem.Mem.Copying.{strcpy}
use seolsem.FilePath.{
  upper, is_separator, fat_skip_separators, fat_next_segment, is_dot, is_dotdot, pop, push, enter,
  walk_loop, segments, starts_absolute, name_max, max_depth,
}
use seolsem.FilePath.Canonical.{
  IsSegment, upper-plain, length-upper, is_dot-upper, is_dotdot-upper, skip-length, Next,
  fat_next_segment-Next,
}

-- A stack of canonical segments within FS_MAX_DEPTH.
abbrev pub IsCanonical : List Str → Type 0
IsCanonical segs = All IsSegment segs × (length segs ≤ max_depth)

abbrev Kept : Option (List Str) → Type 0
Kept none = Unit {0}
Kept (some segs) = IsCanonical segs

push-Kept :
    (s : Str) (segs : List Str)
    → All (λ c. is_separator c ≡ false) s
    → 0 < length s
    → length s < name_max
    → is_dot s ≡ false
    → is_dotdot s ≡ false
    → IsCanonical segs
    → Kept (push s segs)
unfolding push strcpy
push-Kept s segs sep pos short d dd h =
    if_rule Kept (leb max_depth (length segs)) none (some (upper (strcpy name_max s).0 ∷ segs))
      (λ e. tt)
      λ n. rw (take_all 12 s (omega arith)) (
        (
          record {
            not_empty = rw (length-upper s) pos;
            short = rw (length-upper s) short;
            plain = upper-plain s sep;
            not_dot = rw (is_dot-upper s) d;
            not_dotdot = rw (is_dotdot-upper s) dd;
          },
          h.0,
        ),
        ground arith,
      )

pop-IsCanonical : (segs : List Str) → IsCanonical segs → IsCanonical (pop segs)
unfolding pop
pop-IsCanonical [] h = h
pop-IsCanonical (s ∷ segs) h = (h.0.1, omega arith)

enter-Kept :
    (s : Str) (segs : List Str)
    → All (λ c. is_separator c ≡ false) s
    → 0 < length s
    → length s < name_max
    → IsCanonical segs
    → Kept (enter s segs)
unfolding enter
enter-Kept s segs sep pos short h =
    if_rule Kept (is_dot s) (some segs) (if is_dotdot s then some (pop segs) else push s segs)
      (λ e. h)
      λ n.
        if_rule Kept (is_dotdot s) (some (pop segs)) (push s segs) (λ e. pop-IsCanonical segs h)
          λ m. push-Kept s segs sep pos short n m h

-- The two matches of a round, with the rest of the loop as `next`.
abbrev entered : (Str → List Str → Option (List Str)) → Str → Option (List Str) → Option (List Str)
entered next rest o = elim o [ none ↦ none | some segs' ↦ next (fat_skip_separators rest) segs' ]

abbrev round :
    (Str → List Str → Option (List Str)) → List Str → Option (Str × Str) → Option (List Str)
round next segs o = elim o [ none ↦ some segs | some (s, rest) ↦ entered next rest (enter s segs) ]

entered-Kept :
    (next : Str → List Str → Option (List Str)) (rest : Str) (o : Option (List Str))
    → Kept o
    → ((c : Str) (segs : List Str) → IsCanonical segs → Kept (next c segs))
    → Kept (entered next rest o)
entered-Kept next rest none h k = tt
entered-Kept next rest (some segs) h k = k (fat_skip_separators rest) segs h

round-Kept :
    (next : Str → List Str → Option (List Str)) (cursor : Str) (segs : List Str)
    (o : Option (Str × Str))
    → Next cursor o
    → IsCanonical segs
    → ((c : Str) (segs : List Str) → IsCanonical segs → Kept (next c segs))
    → Kept (round next segs o)
round-Kept next cursor segs none n h k = h
round-Kept next cursor segs (some (s, rest)) (sep, pos, short, l) h k =
    entered-Kept next rest (enter s segs) (enter-Kept s segs sep pos short h) k

walk_loop-Kept :
    (fuel : ℕ) (cursor : Str) (segs : List Str)
    → IsCanonical segs
    → Kept (walk_loop fuel cursor segs)
unfolding walk_loop
walk_loop-Kept zero cursor segs h = h
walk_loop-Kept (suc fuel) cursor segs h =
    round-Kept (walk_loop fuel) cursor segs (fat_next_segment cursor name_max)
      (fat_next_segment-Next cursor) h (walk_loop-Kept fuel)

entered-fuel :
    (f g : Str → List Str → Option (List Str)) (rest : Str) (o : Option (List Str))
    → ((segs : List Str) → f (fat_skip_separators rest) segs ≡ g (fat_skip_separators rest) segs)
    → entered f rest o ≡ entered g rest o
entered-fuel f g rest none h = refl
entered-fuel f g rest (some segs) h = h segs

round-fuel :
    (f g : Str → List Str → Option (List Str)) (cursor : Str) (segs : List Str)
    (o : Option (Str × Str))
    → Next cursor o
    → ((c : Str) (segs : List Str) → length c < length cursor → f c segs ≡ g c segs)
    → round f segs o ≡ round g segs o
round-fuel f g cursor segs none n h = refl
round-fuel f g cursor segs (some (s, rest)) (sep, pos, short, l) h =
    entered-fuel f g rest (enter s segs)
      λ segs'. h (fat_skip_separators rest) segs' (omega (arith, skip-length rest))

-- No round is left out: any fuel from the length of the path on gives the same result.
walk_loop-fuel :
    (f g : ℕ) (cursor : Str) (segs : List Str)
    → length cursor ≤ f
    → length cursor ≤ g
    → walk_loop f cursor segs ≡ walk_loop g cursor segs
unfolding walk_loop
walk_loop-fuel zero zero cursor segs a b = refl
walk_loop-fuel zero (suc g) [] segs a b = unfold fat_next_segment fat_skip_separators in refl
walk_loop-fuel zero (suc g) (c ∷ cursor) segs a b = absurd (omega arith)
walk_loop-fuel (suc f) zero [] segs a b = unfold fat_next_segment fat_skip_separators in refl
walk_loop-fuel (suc f) zero (c ∷ cursor) segs a b = absurd (omega arith)
walk_loop-fuel (suc f) (suc g) cursor segs a b =
    round-fuel (walk_loop f) (walk_loop g) cursor segs (fat_next_segment cursor name_max)
      (fat_next_segment-Next cursor)
      λ c segs' l. walk_loop-fuel f g c segs' (omega arith) (omega arith)

-- An absolute path, whatever its dots, slashes and cases, and whatever the base: fs_normalize_path
-- reduces it to at most 32 segments, each a non-empty upper-case name of at most 12 bytes without
-- separators and other than . and .., or refuses it; and fuel for more rounds of its loop does not
-- change the result.
pub segments-IsCanonical :
    (base path : Str) (more : ℕ)
    → starts_absolute path ≡ true
    → ((segs : List Str) → segments base path ≡ some segs → IsCanonical segs)
      × (walk_loop (length path + more) path [] ≡ segments base path)
unfolding segments
segments-IsCanonical base path more absolute = rw absolute (
  λ segs e.
      of_Kept (walk_loop (length path) path []) segs
        (walk_loop-Kept (length path) path [] (tt, omega arith)) e,
  walk_loop-fuel (length path + more) (length path) path [] (omega arith) (omega arith),
)
  where
    of_Kept : (o : Option (List Str)) (segs : List Str) → Kept o → o ≡ some segs → IsCanonical segs
    of_Kept none segs h e = cc
    of_Kept (some segs') segs h e = subst IsCanonical (some-injective segs' segs e) h
