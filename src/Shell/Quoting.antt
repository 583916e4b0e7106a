-- ===== src/Shell/Quoting.antt =====
-- `parse_argv` gives back words that were put in single quotes.
use mathlib.Core.List.{append-nil}
use seolsem.Base.{
  ℕ, zero, suc, ◌≤◌, ◌≡◌, ◌≢◌, refl, ◌∙◌, ap, true, false, List, [], ◌∷◌, ◌++◌, arith, length, All,
  Str,
}
use seolsem.Shell.{stored, word_loop, words_loop, parse_argv}

-- A word in single quotes, and words in single quotes with a space between them.
abbrev pub quoted : Str → Str → Str
quoted word rest = b'\'' ∷ (word ++ b'\'' ∷ rest)

abbrev pub spelled : List Str → Str
spelled [] = []
spelled (word ∷ []) = quoted word []
spelled (word ∷ next ∷ words) = quoted word (b' ' ∷ spelled (next ∷ words))

abbrev pub QuoteFree : Str → Type 0
QuoteFree word = All (λ c. c ≢ b'\'') word

opens : (rest : Str) → word_loop false false (b'\'' ∷ rest) ≡ word_loop true false rest
unfolding word_loop
opens [] = refl
opens (c ∷ rest) = refl

closes : (rest : Str) → word_loop true false (b'\'' ∷ rest) ≡ word_loop false false rest
unfolding word_loop
closes [] = refl
closes (c ∷ rest) = refl

passes :
    (c d : ℕ) (rest : Str)
    → c ≢ b'\''
    → word_loop true false (c ∷ d ∷ rest) ≡ stored c (word_loop true false (d ∷ rest))
unfolding word_loop
passes c d rest h = ground (arith, h)

-- The bytes of a word before what the loop gives for the rest.
abbrev before : Str → Str × Str → Str × Str
before word (w, rest) = (word ++ w, rest)

inside :
    (word rest : Str)
    → QuoteFree word
    → word_loop true false (word ++ b'\'' ∷ rest) ≡ before word (word_loop false false rest)
inside [] rest h = closes rest
inside (c ∷ []) rest h = passes c b'\'' rest h.0 ∙ ap (stored c) (closes rest)
inside (c ∷ d ∷ word) rest h =
    passes c d (word ++ b'\'' ∷ rest) h.0 ∙ ap (stored c) (inside (d ∷ word) rest h.1)

ends_at_space : (rest : Str) → word_loop false false (b' ' ∷ rest) ≡ ([], rest)
unfolding word_loop
ends_at_space [] = refl
ends_at_space (c ∷ rest) = refl

last_word : (word : Str) → QuoteFree word → word_loop false false (quoted word []) ≡ (word, [])
last_word word h =
    opens (word ++ b'\'' ∷ [])
    ∙ inside word [] h
    ∙ unfold word_loop in ap (λ w. (w, [])) (append-nil word)

first_word :
    (word rest : Str)
    → QuoteFree word
    → word_loop false false (quoted word (b' ' ∷ rest)) ≡ (word, rest)
first_word word rest h =
    opens (word ++ b'\'' ∷ b' ' ∷ rest)
    ∙ inside word (b' ' ∷ rest) h
    ∙ ap (before word) (ends_at_space rest)
    ∙ ap (λ w. (w, rest)) (append-nil word)

words_loop-nil : (left : ℕ) → words_loop left [] ≡ []
unfolding words_loop
words_loop-nil zero = refl
words_loop-nil (suc left) = refl

-- parse_argv of words put in single quotes with a space between them: any words without a single
-- quote, also empty ones and ones with spaces, double quotes or backslashes, at most as many as
-- argv has places, are given back.
pub parse_argv-spelled :
    (words : List Str) (argv_cap : ℕ)
    → All QuoteFree words
    → length words ≤ argv_cap
    → parse_argv (spelled words) argv_cap ≡ words
unfolding parse_argv words_loop
parse_argv-spelled [] argv_cap h l = words_loop-nil argv_cap
parse_argv-spelled (word ∷ words) zero h l = absurd (omega arith)
parse_argv-spelled (word ∷ []) (suc left) h l =
    rw (last_word word h.0) (ap (λ ws. word ∷ ws) (words_loop-nil left))
parse_argv-spelled (word ∷ next ∷ words) (suc left) h l =
    rw (first_word word (spelled (next ∷ words)) h.0)
      (ap (λ ws. word ∷ ws) (parse_argv-spelled (next ∷ words) left h.1 (omega arith)))
