-- ===== src/Mem/Copying.antt =====
-- What `sima_strcpy` and `sima_strcat` leave in the destination, and the same two operations on C
-- strings as values, which the other components use.
use mathlib.Core.Path.{subst}
use native.Mathlib.Nat.{add-zero}
use seolsem.Base.{
  ℕ, zero, suc, ◌+◌, ◌-◌, ◌≤◌, ◌<◌, ◌≡◌, ◌≢◌, refl, ap, Bool, Option, some, List, [], ◌∷◌, ◌++◌,
  arith, ltb, leb, ◌==◌, if◌then◌else◌, take, drop, length, All, Str, length-append, take-append,
  drop-append, ◌∙◌, sym,
}
use seolsem.Mem.{Ptr, copy_loop, sima_strcpy, find_nul, append_loop, sima_strcat}

-- No byte of the string is NUL.
abbrev pub NulFree : Str → Type 0
NulFree s = All (λ c. c ≢ 0) s

-- The bytes up to the first NUL.
unfoldable pub c_str : List ℕ → Str
c_str [] = []
c_str (c ∷ cs) = if c == 0 then [] else c ∷ c_str cs

-- `sima_strcpy(dest, cap, s)` as a value: the string left in `dest`, and the result.
unfoldable pub strcpy : ℕ → Str → Str × Bool
strcpy cap s = (take (cap - 1) s, ltb (length s) cap)

-- `sima_strcat(dest, cap, s)` where `dest` holds `d`.
unfoldable pub strcat : ℕ → Str → Str → Str × Bool
strcat cap d s = (d ++ take (cap - length d - 1) s, leb (length d + length s + 1) cap)

-- The bytes of `dest` after at most `n` bytes of `s` and a NUL are stored at its start.
pub stored : List ℕ → List ℕ → ℕ → List ℕ
stored [] s n = []
stored (d ∷ dest) [] n = 0 ∷ dest
stored (d ∷ dest) (c ∷ s) zero = 0 ∷ dest
stored (d ∷ dest) (c ∷ s) (suc n) = c ∷ stored dest s n

copy_loop-eq :
    (i room : ℕ) (dest s tail : List ℕ)
    → NulFree s
    → i + room < 65535
    → room < length dest
    → copy_loop i (i + room + 1) dest (s ++ 0 ∷ tail)
      ≡ some (stored dest s room, leb (length s) room)
unfolding copy_loop stored
copy_loop-eq i room [] s tail h k l = absurd (omega arith)
copy_loop-eq i zero (d ∷ dest) [] tail h k l = ground arith
copy_loop-eq i (suc room) (d ∷ dest) [] tail h k l = ground arith
copy_loop-eq i zero (d ∷ dest) (c ∷ s) tail h k l = ground arith
copy_loop-eq i (suc room) (d ∷ dest) (c ∷ s) tail h k l =
    ground (arith, copy_loop-eq (i + 1) room dest s tail h.1 (omega arith) (omega arith))

c_str-append : (s tail : List ℕ) → NulFree s → c_str (s ++ 0 ∷ tail) ≡ s
unfolding c_str
c_str-append [] tail h = refl
c_str-append (c ∷ s) tail h = ground (arith, c_str-append s tail h.1)

length-stored : (dest s : List ℕ) (n : ℕ) → length (stored dest s n) ≡ length dest
unfolding stored
length-stored [] s n = refl
length-stored (d ∷ dest) [] n = refl
length-stored (d ∷ dest) (c ∷ s) zero = refl
length-stored (d ∷ dest) (c ∷ s) (suc n) = ap suc (length-stored dest s n)

drop-stored : (dest s : List ℕ) (n : ℕ) → drop (suc n) (stored dest s n) ≡ drop (suc n) dest
unfolding stored
drop-stored [] s n = refl
drop-stored (d ∷ dest) [] n = refl
drop-stored (d ∷ dest) (c ∷ s) zero = refl
drop-stored (d ∷ dest) (c ∷ s) (suc n) = drop-stored dest s n

c_str-stored :
    (dest s : List ℕ) (n : ℕ) → NulFree s → n < length dest → c_str (stored dest s n) ≡ take n s
unfolding stored c_str
c_str-stored [] s n h l = absurd (omega arith)
c_str-stored (d ∷ dest) [] zero h l = refl
c_str-stored (d ∷ dest) [] (suc n) h l = refl
c_str-stored (d ∷ dest) (c ∷ s) zero h l = refl
c_str-stored (d ∷ dest) (c ∷ s) (suc n) h l =
    ground (arith, c_str-stored dest s n h.1 (omega arith))

-- `run` ends normally, leaves `s` in the object of `dest` with the result `b`, and changes neither
-- the size of that object nor its bytes from `cap` on.
pub record Leaves (run : Option (Ptr × Bool)) (dest : List ℕ) (cap : ℕ) (s : Str) (b : Bool)
    : Type 0 where
  pub out : List ℕ
  pub returns : run ≡ some (some out, b)
  pub holds : c_str out ≡ s
  pub same_length : length out ≡ length dest
  pub beyond : drop cap out ≡ drop cap dest

-- sima_strcpy with a capacity from 1 to 65535 within the object: it leaves as much of the source
-- string as fits, reports whether all of it did, and leaves the bytes from the capacity on and the
-- size of the object alone.
pub sima_strcpy-Leaves :
    (cap : ℕ) (dest s tail : List ℕ)
    → NulFree s
    → 0 < cap
    → cap < 65536
    → cap ≤ length dest
    → Leaves
        (sima_strcpy (some dest) cap (some (s ++ 0 ∷ tail)))
        dest
        cap
        (strcpy cap s).0
        (strcpy cap s).1
unfolding sima_strcpy strcpy
sima_strcpy-Leaves zero dest s tail h pos small fits = absurd (omega arith)
sima_strcpy-Leaves (suc room) dest s tail h pos small fits = record {
  out = stored dest s room;
  returns = ground (arith, copy_loop-eq 0 room dest s tail h);
  holds = ground (arith, c_str-stored dest s room h);
  same_length = length-stored dest s room;
  beyond = drop-stored dest s room;
}

append_loop-eq :
    (i room : ℕ) (dest s tail : List ℕ)
    → NulFree s
    → room < length dest
    → append_loop i (i + room) dest (s ++ 0 ∷ tail) ≡ some (stored dest s room, leb (length s) room)
unfolding append_loop stored
append_loop-eq i room [] s tail h l = absurd (omega arith)
append_loop-eq i room (d ∷ dest) [] tail h l = ground arith
append_loop-eq i zero (d ∷ dest) (c ∷ s) tail h l = ground arith
append_loop-eq i (suc room) (d ∷ dest) (c ∷ s) tail h l =
    ground (arith, append_loop-eq (i + 1) room dest s tail h.1 (omega arith))

find_nul-eq :
    (n cap : ℕ) (d junk : List ℕ)
    → NulFree d
    → n + length d < cap
    → find_nul n cap (d ++ 0 ∷ junk) ≡ some (n + length d)
unfolding find_nul
find_nul-eq n cap [] junk h l = ground arith
find_nul-eq n cap (c ∷ d) junk h l =
    ground (arith, find_nul-eq (n + 1) cap d junk h.1 (omega arith))

c_str-append_free : (d x : List ℕ) → NulFree d → c_str (d ++ x) ≡ d ++ c_str x
unfolding c_str
c_str-append_free [] x h = refl
c_str-append_free (c ∷ d) x h = ground (arith, c_str-append_free d x h.1)

module _ (cap : ℕ) (d junk s tail : List ℕ) (free : NulFree d) (h : NulFree s)
    (below : length d < cap) (fits : cap ≤ length (d ++ 0 ∷ junk)) where
  abbrev room : ℕ
  room = cap - length d - 1

  cap_split : cap ≡ length d + suc room
  cap_split = omega arith

  room_fits : room < length {A = ℕ} (0 ∷ junk)
  room_fits = omega (arith, length-append d (0 ∷ junk))

  take_dest : take (length d) (d ++ 0 ∷ junk) ≡ d
  take_dest = take-append d (0 ∷ junk)

  drop_dest : drop (length d) (d ++ 0 ∷ junk) ≡ 0 ∷ junk
  drop_dest = rw (← add-zero (length d)) (drop-append d (0 ∷ junk) 0)

  pub strcat_returns :
      sima_strcat (some (d ++ 0 ∷ junk)) cap (some (s ++ 0 ∷ tail))
      ≡ some (some (d ++ stored (0 ∷ junk) s room), leb (length s) room)
  unfolding sima_strcat
  strcat_returns = ground (
    arith,
    find_nul-eq 0 cap d junk free,
    take_dest,
    drop_dest,
    append_loop-eq 0 room (0 ∷ junk) s tail h room_fits,
  )

  strcat_holds : c_str (d ++ stored (0 ∷ junk) s room) ≡ d ++ take room s
  strcat_holds =
      rw (c_str-append_free d (stored (0 ∷ junk) s room) free)
        (rw (c_str-stored (0 ∷ junk) s room h room_fits) refl)

  strcat_length : length (d ++ stored (0 ∷ junk) s room) ≡ length (d ++ 0 ∷ junk)
  strcat_length = ground (
    arith,
    length-append d (stored (0 ∷ junk) s room),
    length-append d (0 ∷ junk),
    length-stored (0 ∷ junk) s room,
  )

  strcat_beyond : drop cap (d ++ stored (0 ∷ junk) s room) ≡ drop cap (d ++ 0 ∷ junk)
  strcat_beyond =
      subst (λ n. drop n (d ++ stored (0 ∷ junk) s room) ≡ drop n (d ++ 0 ∷ junk)) (sym cap_split)
        (drop-append d (stored (0 ∷ junk) s room) (suc room)
          ∙ drop-stored (0 ∷ junk) s room
          ∙ sym (drop-append d (0 ∷ junk) (suc room)))

-- sima_strcat on a destination that holds a string shorter than the capacity, with the capacity
-- within the object: it appends as much of the source string as fits, reports whether all of it
-- did, and leaves the bytes from the capacity on and the size of the object alone.
pub sima_strcat-Leaves :
    (cap : ℕ) (d junk s tail : List ℕ)
    → NulFree d
    → NulFree s
    → length d < cap
    → cap ≤ length (d ++ 0 ∷ junk)
    → Leaves
        (sima_strcat (some (d ++ 0 ∷ junk)) cap (some (s ++ 0 ∷ tail)))
        (d ++ 0 ∷ junk)
        cap
        (strcat cap d s).0
        (strcat cap d s).1
unfolding strcat
sima_strcat-Leaves cap d junk s tail free h below fits = record {
  out = d ++ stored (0 ∷ junk) s (room cap d junk s tail free h below fits);
  returns = ground (arith, strcat_returns cap d junk s tail free h below fits);
  holds = strcat_holds cap d junk s tail free h below fits;
  same_length = strcat_length cap d junk s tail free h below fits;
  beyond = strcat_beyond cap d junk s tail free h below fits;
}
