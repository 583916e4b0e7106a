-- ===== src/Kernel/Prompt.antt =====
-- `build_prompt`: what it shows of the path, and that nothing of the prompt is cut off.
use seolsem.Base.{
  ℕ, zero, suc, ◌+◌, ◌-◌, ◌≤◌, ◌<◌, ◌≡◌, ◌≢◌, refl, sym, ap, ◌∙◌, Bool, true, false, ◌||◌, Option,
  none, some, List, [], ◌∷◌, ◌++◌, arith, lt→ltb, take_all, inl, inr, drop, length, length-append,
  length-drop, Str, codes, if_rule, ◌==◌, Option-cases, Bool-cases,
}
use mathlib.Core.Option.{some-injective}
use mathlib.Core.Path.{subst}
use seolsem.File.{is_nil}
use seolsem.FilePath.{path_max, is_separator}
use seolsem.Mem.Copying.{strcpy, strcat}
use seolsem.Mem.Comparing.{str_eq, str_eq_sound}
use seolsem.Shell.{appended, text_of}
use seolsem.Kernel.{
  current_path_max, Display, in_cwd, in_out, displayed, behind_home, starts_segment, shortened,
  user_shown, prompt_text,
}

strcat-fits : (cap : ℕ) (d s : Str) → length d + length s < cap → (strcat cap d s).0 ≡ d ++ s
unfolding strcat
strcat-fits cap d s h = rw (take_all (cap - length d - 1) s (omega arith)) refl

strcpy-fits : (cap : ℕ) (s : Str) → length s < cap → (strcpy cap s).0 ≡ s
unfolding strcpy
strcpy-fits cap s h = take_all (cap - 1) s (omega arith)

-- The last 45 bytes of a longer path.
abbrev pub ending : Str → Str
ending path = drop (length path - 45) path

length-ending : (path : Str) → 48 < length path → length (ending path) ≡ 45
length-ending path h = omega (arith, length-drop {0} (length path - 45) path)

displayed-in_out :
    (path : Str) → 48 < length path → displayed (in_out path) ≡ codes "..." ++ ending path
unfolding displayed
displayed-in_out path h = rw (lt→ltb 48 (length path) h) (
    rw (strcpy-fits path_max (codes "...") (omega arith))
      (strcat-fits path_max (codes "...") (ending path) (omega (arith, length-ending path h))))

drop_nil : (n : ℕ) → drop {A = ℕ} n [] ≡ []
drop_nil zero = refl
drop_nil (suc n) = refl

drop_dots : (n : ℕ) → drop (suc (suc (suc n))) (codes "...") ≡ []
drop_dots n = drop_nil n

displayed-in_cwd : (path : Str) → 48 < length path → displayed (in_cwd path) ≡ codes "..."
unfolding displayed
displayed-in_cwd path h =
    let behind : length path - 45 ≡ suc (suc (suc (length path - 48))) = omega arith in
    rw (lt→ltb 48 (length path) h) (
      rw (strcpy-fits path_max (codes "...") (omega arith)) (
        rw (behind, drop_dots (length path - 48))
          (strcat-fits path_max (codes "...") [] (omega arith))))

displayed-short :
    (path : Str)
    → length path ≤ 48
    → (displayed (in_cwd path) ≡ path) × (displayed (in_out path) ≡ path)
unfolding displayed
displayed-short path h = (ground arith, ground arith)

-- The cursor is at the end of the path, or at a separator.
pub data IsSegmentEnd : Str → Type 0 where
  at_end : IsSegmentEnd []
  at_slash : (rest : Str) → IsSegmentEnd (b'/' ∷ rest)
  at_backslash : (rest : Str) → IsSegmentEnd (b'\\' ∷ rest)

-- HOME is set, is not the root, and is the path up to `rest`, at the end of a segment.
pub record IsHomePath (home : Option Str) (cwd rest : Str) : Type 0 where
  pub name : Str
  pub set : home ≡ some name
  pub not_empty : name ≢ []
  pub not_root : name ≢ codes "/"
  pub path : cwd ≡ name ++ rest
  pub ends : IsSegmentEnd rest

behind_home-append : (name rest : Str) → behind_home name (name ++ rest) ≡ some rest
unfolding behind_home
behind_home-append [] rest = refl
behind_home-append (c ∷ name) rest = ground (arith, behind_home-append name rest)

behind_home_sound : (name cwd rest : Str) → behind_home name cwd ≡ some rest → cwd ≡ name ++ rest
unfolding behind_home
behind_home_sound [] cwd rest e = some-injective cwd rest e
behind_home_sound (h ∷ name) [] rest e = cc
behind_home_sound (h ∷ name) (c ∷ cwd) rest e = ground (arith, behind_home_sound name cwd rest, e)

starts_segment-true : (rest : Str) → IsSegmentEnd rest → starts_segment rest ≡ true
unfolding is_separator
starts_segment-true _ at_end = refl
starts_segment-true _ (at_slash rest) = refl
starts_segment-true _ (at_backslash rest) = refl

starts_segment-sound : (rest : Str) → starts_segment rest ≡ true → IsSegmentEnd rest
unfolding is_separator
starts_segment-sound [] h = at_end
starts_segment-sound (c ∷ rest) h = elim (Bool-cases (c == b'/')) [
  | inl e ↦ subst (λ x. IsSegmentEnd (x ∷ rest)) (sym (eq_of c b'/' e)) (at_slash rest)
  | inr e ↦
      let other : c ≡ b'\\' = ground arith in
      subst (λ x. IsSegmentEnd (x ∷ rest)) (sym other) (at_backslash rest)
]
  where
    eq_of : (n m : ℕ) → n == m ≡ true → n ≡ m
    eq_of n m e = ground arith

refuted : true ≡ false → ⊥
refuted e = cc

abbrev is_no_home : Str → Bool
is_no_home name = is_nil name || str_eq name (codes "/")

is_home : (name : Str) → name ≢ [] → name ≢ codes "/" → is_no_home name ≡ false
is_home [] ne root = absurd (ne refl)
is_home (c ∷ name) ne root = elim (Bool-cases (str_eq (c ∷ name) (codes "/"))) [
  | inl e ↦ absurd (root (str_eq_sound (c ∷ name) (codes "/") e))
  | inr e ↦ e
]

tilde :
    (rest : Str)
    → length rest < 127
    → (strcat current_path_max (strcpy current_path_max (codes "~")).0 rest).0 ≡ codes "~" ++ rest
tilde rest l =
    rw (strcpy-fits current_path_max (codes "~") (omega arith))
      (strcat-fits current_path_max (codes "~") rest (omega arith))

rest_shorter : (name rest : Str) → name ≢ [] → length (name ++ rest) < 128 → length rest < 127
rest_shorter [] rest ne l = absurd (ne refl)
rest_shorter (c ∷ name) rest ne l = omega (arith, length-append {0} (c ∷ name) rest)

shortened-name :
    (name rest : Str)
    → is_no_home name ≡ false
    → IsSegmentEnd rest
    → length rest < 127
    → shortened (some name) (name ++ rest) current_path_max ≡ in_out (codes "~" ++ rest)
unfolding shortened
shortened-name name rest e ends l = rw e (
    rw (behind_home-append name rest)
      (rw (starts_segment-true rest ends) (ap in_out (tilde rest l))))

shortened-home :
    (home : Option Str) (cwd rest : Str)
    → IsHomePath home cwd rest
    → length cwd < path_max
    → shortened home cwd current_path_max ≡ in_out (codes "~" ++ rest)
shortened-home home cwd rest h l =
    rw (h.set, h.path)
      (shortened-name h.name rest (is_home h.name h.not_empty h.not_root) h.ends
        (rest_shorter h.name rest h.not_empty (rw (← h.path) l)))

-- A path that is not under HOME is shown as it is.
shortened-other :
    (home : Option Str) (cwd : Str)
    → ((rest : Str) → ¬ IsHomePath home cwd rest)
    → shortened home cwd current_path_max ≡ in_cwd cwd
unfolding shortened str_eq
shortened-other none cwd h = refl
shortened-other (some name) cwd h = elim (Bool-cases (is_no_home name)) [
  | inl e ↦ rw e refl
  | inr e ↦ rw e (elim (Option-cases (behind_home name cwd)) [
    | inl q ↦ rw q refl
    | inr (rest, q) ↦ rw q (
        if_rule (λ d. d ≡ in_cwd cwd) (starts_segment rest) _ _
          (λ s. absurd (
            h rest (record {
              name = name;
              set = refl;
              not_empty = λ z. refuted (sym (ap is_no_home z) ∙ e);
              not_root = λ z. refuted (sym (ap is_no_home z) ∙ e);
              path = behind_home_sound name cwd rest q;
              ends = starts_segment-sound rest s;
            })))
          λ s. refl)
  ])
]

-- The texts one after the other.
abbrev pub joined : Str → List Str → Str
joined out [] = out
joined out (s ∷ texts) = joined (out ++ s) texts

abbrev total : List Str → ℕ
total [] = 0
total (s ∷ texts) = length s + total texts

appended-fits :
    (cap : ℕ) (out : Str) (texts : List Str)
    → length out + total texts < cap
    → (appended cap out texts ≡ joined out texts)
      × (length (joined out texts) ≡ length out + total texts)
unfolding appended
appended-fits cap out [] h = (refl, omega arith)
appended-fits cap out (s ∷ texts) h =
    let e = length-append {0} out s in
    let (same, len) = appended-fits cap (out ++ s) texts (omega arith) in
    (rw (strcat-fits cap out s (omega arith)) same, omega arith)

abbrev pub whole : Str → Str → Str
whole user path = joined (codes "[") (user ∷ codes "@" ∷ path ∷ codes "]$ " ∷ [])

-- Who the prompt names.
pub data IsShownUser : Option Str → Str → Type 0 where
  named : (c : ℕ) (user : Str) → IsShownUser (some (c ∷ user)) (c ∷ user)
  unset : IsShownUser none (codes "ROOT")
  empty : IsShownUser (some []) (codes "ROOT")

user_shown_sound : (user : Option Str) (u : Str) → IsShownUser user u → user_shown user ≡ u
user_shown_sound _ _ (named c user) = refl
user_shown_sound _ _ unset = refl
user_shown_sound _ _ empty = refl

-- What the prompt is.
pub record Prompt (home : Option Str) (cwd user : Str) (r : Str) : Type 0 where
  pub home_short :
      (rest : Str)
      → IsHomePath home cwd rest
      → length rest < 48
      → r ≡ whole user (codes "~" ++ rest)
  pub home_long :
      (rest : Str)
      → IsHomePath home cwd rest
      → 48 ≤ length rest
      → r ≡ whole user (codes "..." ++ ending rest)
  pub short : ((rest : Str) → ¬ IsHomePath home cwd rest) → length cwd ≤ 48 → r ≡ whole user cwd
  pub long :
      ((rest : Str) → ¬ IsHomePath home cwd rest) → 48 < length cwd → r ≡ whole user (codes "...")

appended-whole :
    (user path : Str)
    → length user < 64
    → length path ≤ 48
    → (text_of current_path_max (codes "[" ∷ user ∷ codes "@" ∷ path ∷ codes "]$ " ∷ [])
        ≡ whole user path)
unfolding text_of
appended-whole user path h l =
    let (same, len) =
      appended-fits 128 (codes "[") (user ∷ codes "@" ∷ path ∷ codes "]$ " ∷ []) (omega arith) in
    rw (strcpy-fits 128 (codes "[") (omega arith)) same

-- The prompt with what is shown of the path.
prompt_text-shows :
    (cwd : Str) (home user : Option Str) (u : Str) (d : Display) (path : Str)
    → IsShownUser user u
    → length u < 64
    → shortened home cwd current_path_max ≡ d
    → displayed d ≡ path
    → length path ≤ 48
    → prompt_text cwd home user current_path_max ≡ whole u path
unfolding prompt_text
prompt_text-shows cwd home user u d path shown l e q fits =
    rw (e, q, user_shown_sound user u shown) (appended-whole u path l fits)

ending-tilde : (rest : Str) → 48 ≤ length rest → ending (codes "~" ++ rest) ≡ ending rest
ending-tilde rest l =
    let behind : suc (length rest) - 45 ≡ suc (length rest - 45) = omega arith in rw behind refl

-- build_prompt into the 128 bytes of current_path, for a current directory of less than 128 bytes,
-- any HOME, and a USER of less than 64 bytes, ROOT where it is unset or empty; nothing is cut off.
-- Where HOME is set, neither empty nor the root, and the directory is HOME or begins with it and a
-- separator, the path is ~ and the rest, or three dots and the last 45 bytes of the rest if it has
-- 48 bytes or more. Elsewhere the path is the directory up to 48 bytes; a longer one is shown as
-- three dots and nothing else.
pub prompt_text-Prompt :
    (cwd : Str) (home user : Option Str) (u : Str)
    → IsShownUser user u
    → length u < 64
    → length cwd < path_max
    → Prompt home cwd u (prompt_text cwd home user current_path_max)
prompt_text-Prompt cwd home user u shown l room = record {
  home_short = λ rest h s.
      prompt_text-shows cwd home user u (in_out (codes "~" ++ rest)) (codes "~" ++ rest) shown l
        (shortened-home home cwd rest h room) (displayed-short (codes "~" ++ rest) (omega arith)).1
        (omega arith);
  home_long = λ rest h g.
      prompt_text-shows cwd home user u (in_out (codes "~" ++ rest)) (codes "..." ++ ending rest)
        shown l (shortened-home home cwd rest h room)
        (displayed-in_out (codes "~" ++ rest) (omega arith)
          ∙ ap (λ s. codes "..." ++ s) (ending-tilde rest g))
        (omega (arith, length-drop {0} (length rest - 45) rest));
  short = λ h s.
      prompt_text-shows cwd home user u (in_cwd cwd) cwd shown l (shortened-other home cwd h)
        (displayed-short cwd s).0 s;
  long = λ h g.
      prompt_text-shows cwd home user u (in_cwd cwd) (codes "...") shown l
        (shortened-other home cwd h) (displayed-in_cwd cwd g) (omega arith);
}
