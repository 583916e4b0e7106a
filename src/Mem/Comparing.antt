-- ===== src/Mem/Comparing.antt =====
-- `sima_strcmp` and `sima_strncmp` on C strings decide equality.
use seolsem.Base.{
  ℕ, zero, suc, ◌≡◌, ◌↔◌, Bool, true, false, ◌&&◌, some, [], ◌∷◌, ◌++◌, arith, ◌==◌, refl,
  if◌then◌else◌, take, Str,
}
use seolsem.Mem.{Strc, same, diff, compare_loop, sima_strcmp, compare_n_loop, sima_strncmp}
use seolsem.Mem.Copying.{NulFree}

-- Equality of C strings, the form of `sima_strcmp(s, t) == STRC_SAME` that the components use.
unfoldable pub str_eq : Str → Str → Bool
str_eq [] [] = true
str_eq [] (b ∷ t) = false
str_eq (a ∷ s) [] = false
str_eq (a ∷ s) (b ∷ t) = a == b && str_eq s t

pub str_eq_sound : (s t : Str) → str_eq s t ≡ true → s ≡ t
unfolding str_eq
str_eq_sound [] [] h = refl
str_eq_sound [] (b ∷ t) h = ground arith
str_eq_sound (a ∷ s) [] h = ground arith
str_eq_sound (a ∷ s) (b ∷ t) h = ground (arith, str_eq_sound s t)

pub str_eq_refl : (s : Str) → str_eq s s ≡ true
unfolding str_eq
str_eq_refl [] = refl
str_eq_refl (a ∷ s) = ground (arith, str_eq_refl s)

abbrev pub strc : Bool → Strc
strc b = if b then same else diff

compare_loop-eq :
    (s t u v : Str)
    → NulFree s
    → NulFree t
    → compare_loop (s ++ 0 ∷ u) (t ++ 0 ∷ v) ≡ some (strc (str_eq s t))
unfolding compare_loop str_eq
compare_loop-eq [] [] u v h k = refl
compare_loop-eq [] (b ∷ t) u v h k = ground arith
compare_loop-eq (a ∷ s) [] u v h k = ground arith
compare_loop-eq (a ∷ s) (b ∷ t) u v h k = ground (arith, compare_loop-eq s t u v h.1 k.1)

compare_n_loop-eq :
    (n : ℕ) (s t u v : Str)
    → NulFree s
    → NulFree t
    → compare_n_loop n (s ++ 0 ∷ u) (t ++ 0 ∷ v) ≡ some (strc (str_eq (take n s) (take n t)))
unfolding compare_n_loop str_eq
compare_n_loop-eq zero s t u v h k = refl
compare_n_loop-eq (suc n) [] [] u v h k = refl
compare_n_loop-eq (suc n) [] (b ∷ t) u v h k = ground arith
compare_n_loop-eq (suc n) (a ∷ s) [] u v h k = ground arith
compare_n_loop-eq (suc n) (a ∷ s) (b ∷ t) u v h k =
    ground (arith, compare_n_loop-eq n s t u v h.1 k.1)

-- On two C strings sima_strcmp reads nothing outside them, and says STRC_SAME if they are equal
-- and STRC_DIFF otherwise; sima_strncmp does so for their first n bytes.
pub sima_strcmp-str_eq :
    (s t u v : Str) (n : ℕ)
    → NulFree s
    → NulFree t
    → (sima_strcmp (some (s ++ 0 ∷ u)) (some (t ++ 0 ∷ v)) ≡ some (strc (str_eq s t)))
      × (sima_strncmp (some (s ++ 0 ∷ u)) (some (t ++ 0 ∷ v)) n
          ≡ some (strc (str_eq (take n s) (take n t))))
      × ((str_eq s t ≡ true) ↔ (s ≡ t))
unfolding sima_strcmp sima_strncmp
sima_strcmp-str_eq s t u v n h k =
    (compare_loop-eq s t u v h k, at_most n, (str_eq_sound s t, λ e. rw (← e) (str_eq_refl s)))
  where
    at_most :
        (m : ℕ)
        → sima_strncmp (some (s ++ 0 ∷ u)) (some (t ++ 0 ∷ v)) m
          ≡ some (strc (str_eq (take m s) (take m t)))
    at_most zero = unfold str_eq in refl
    at_most (suc m) = compare_n_loop-eq (suc m) s t u v h k
