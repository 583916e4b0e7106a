-- ===== src/Mem/Split.antt =====
-- kernel/sima_mem.c, `sima_strcspl`: a string is cut in place into tokens. A token is the string
-- that its `outv` pointer names after the call.
use seolsem.Base.{
  ℕ, zero, suc, ◌≤◌, ◌<◌, ◌≡◌, ◌≢◌, refl, ap, Bool-cases, inl, inr, Option, none, some, List, [],
  ◌∷◌, arith, ◌==◌, if◌then◌else◌, length, Str, take,
}

-- `while (*p == ch) ++p`
pub skip : ℕ → Str → Str
skip ch [] = []
skip ch (c ∷ p) = if c == ch then skip ch p else c ∷ p

-- `while (*p != '\0' && *p != ch) ++p`: the bytes passed over, and those left.
pub pass : ℕ → Str → Str × Str
pass ch [] = ([], [])
pass ch (c ∷ p) = if c == ch then ([], c ∷ p) else let (t, r) = pass ch p in (c ∷ t, r)

-- A token that ends the string is the last; after any other the loop goes on behind its delimiter.
after_token : (Str → List Str) → Str → Str → List Str
after_token next t [] = t ∷ []
after_token next t (d ∷ r) = t ∷ next r

-- The outer loop with `room` places left in `outv`, on fuel.
pub token_loop : ℕ → ℕ → ℕ → Str → List Str
token_loop zero ch room p = []
token_loop (suc fuel) ch room [] = []
token_loop (suc fuel) ch zero (c ∷ p) = []
token_loop (suc fuel) ch (suc room) (c ∷ p) =
    let (t, r) = pass ch (c ∷ p) in after_token (λ q. token_loop fuel ch room (skip ch q)) t r

pub sima_strcspl : Option Str → ℕ → ℕ → List Str
sima_strcspl none ch max_out = []
sima_strcspl (some s) ch max_out =
    if max_out == 0 then [] else token_loop (suc (length s)) ch max_out (skip ch s)

-- The fields between the delimiters, empty ones included.
add_byte : ℕ → List Str → List Str
add_byte c [] = []
add_byte c (f ∷ fs) = (c ∷ f) ∷ fs

pub fields : ℕ → Str → List Str
unfolding add_byte
fields ch [] = [] ∷ []
fields ch (c ∷ s) = if c == ch then [] ∷ fields ch s else add_byte c (fields ch s)

-- The fields that are not empty.
pub filled : List Str → List Str
filled [] = []
filled ([] ∷ fs) = filled fs
filled ((c ∷ f) ∷ fs) = (c ∷ f) ∷ filled fs

filled-skip : (ch : ℕ) (s : Str) → filled (fields ch (skip ch s)) ≡ filled (fields ch s)
unfolding fields skip filled
filled-skip ch [] = refl
filled-skip ch (c ∷ s) = ground (arith, filled-skip ch s)

abbrev HeadNot : ℕ → Str → Type 0
HeadNot ch [] = Unit {0}
HeadNot ch (c ∷ p) = c ≢ ch

skip-HeadNot : (ch : ℕ) (s : Str) → HeadNot ch (skip ch s)
unfolding skip
skip-HeadNot ch [] = tt
skip-HeadNot ch (c ∷ s) = elim (Bool-cases (c == ch)) [
  | inl e ↦ rw e (skip-HeadNot ch s)
  | inr n ↦ rw n (ground arith)
]

length-skip : (ch : ℕ) (s : Str) → length (skip ch s) ≤ length s
unfolding skip
length-skip ch [] = omega arith
length-skip ch (c ∷ s) = ground (arith, length-skip ch s)

length-pass : (ch : ℕ) (s : Str) → length (pass ch s).1 ≤ length s
unfolding pass
length-pass ch [] = omega arith
length-pass ch (c ∷ s) = ground (arith, length-pass ch s)

after_pass : ℕ → Str → Str → List Str
after_pass ch t [] = t ∷ []
after_pass ch t (d ∷ r) = t ∷ fields ch r

add_byte-after_pass :
    (ch c : ℕ) (t r : Str) → add_byte c (after_pass ch t r) ≡ after_pass ch (c ∷ t) r
unfolding add_byte after_pass
add_byte-after_pass ch c t [] = refl
add_byte-after_pass ch c t (d ∷ r) = refl

fields-pass : (ch : ℕ) (p : Str) → fields ch p ≡ after_pass ch (pass ch p).0 (pass ch p).1
unfolding fields pass
fields-pass ch [] = unfold after_pass in refl
fields-pass ch (c ∷ p) = elim (Bool-cases (c == ch)) [
  | inl e ↦ rw e (unfold after_pass in refl)
  | inr n ↦ rw n (rw (fields-pass ch p) (add_byte-after_pass ch c (pass ch p).0 (pass ch p).1))
]

pass-head : (ch c : ℕ) (p : Str) → c ≢ ch → pass ch (c ∷ p) ≡ (c ∷ (pass ch p).0, (pass ch p).1)
unfolding pass
pass-head ch c p ne = ground arith

after_token-fields :
    (ch room c : ℕ) (next : Str → List Str) (t r : Str)
    → ((q : Str) → length q < length r → next q ≡ take room (filled (fields ch q)))
    → after_token next (c ∷ t) r ≡ take (suc room) (filled (after_pass ch (c ∷ t) r))
unfolding after_token after_pass filled
after_token-fields ch zero c next t [] h = refl
after_token-fields ch (suc room) c next t [] h = refl
after_token-fields ch room c next t (d ∷ r) h = ap (λ fs. (c ∷ t) ∷ fs) (h r (omega arith))

token_loop-eq :
    (fuel ch room : ℕ) (p : Str)
    → length p < fuel
    → HeadNot ch p
    → token_loop fuel ch room p ≡ take room (filled (fields ch p))
unfolding token_loop
token_loop-eq zero ch room p l h = absurd (omega arith)
token_loop-eq (suc fuel) ch zero [] l h = refl
token_loop-eq (suc fuel) ch (suc room) [] l h = unfold fields filled in refl
token_loop-eq (suc fuel) ch zero (c ∷ p) l h = refl
token_loop-eq (suc fuel) ch (suc room) (c ∷ p) l h =
    rw (fields-pass ch (c ∷ p), pass-head ch c p h)
      (after_token-fields ch room c (λ q. token_loop fuel ch room (skip ch q)) (pass ch p).0
        (pass ch p).1
        λ q k. rw (← filled-skip ch q) (
          token_loop-eq fuel ch room (skip ch q) (omega (arith, length-skip ch q, length-pass ch p))
            (skip-HeadNot ch q)))

-- sima_strcspl gives the non-empty fields between the delimiters in order, as many as outv has
-- places for.
pub sima_strcspl-fields :
    (s : Str) (ch max_out : ℕ)
    → sima_strcspl (some s) ch max_out ≡ take max_out (filled (fields ch s))
unfolding sima_strcspl
sima_strcspl-fields s ch zero = refl
sima_strcspl-fields s ch (suc room) = ground (
  arith,
  token_loop-eq (suc (length s)) ch (suc room) (skip ch s),
  skip-HeadNot ch s,
  length-skip ch s,
  filled-skip ch s,
)
