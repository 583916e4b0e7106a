-- ===== src/Conv.antt =====
-- kernel/sima_conv.c: numbers as text (`sima_utoa`, `sima_itoh`) and text as numbers (`sima_atoi`,
-- `sima_atox`). A result about a destination is the string that it holds after the call, `none`
-- if the call has not written it, with the BOOL that is returned.
pub mod RoundTrip
use seolsem.Base.{
  ℕ, zero, suc, ◌+◌, ◌-◌, ◌*◌, ◌/◌, ◌%◌, Bool, true, false, not, ◌&&◌, ◌||◌, Option, none, some,
  List, [], ◌∷◌, ltb, leb, ◌==◌, if◌then◌else◌, length, u16, Str, codes,
}
use seolsem.Mem.Copying.{strcpy, strcat}

abbrev in_range : ℕ → ℕ → ℕ → Bool
in_range lo hi ch = leb lo ch && leb ch hi

unfoldable pub sima_is_digit : ℕ → ℕ → Bool
sima_is_digit ch base =
    if base == 10
    then in_range b'0' b'9' ch
    else if base == 16
    then in_range b'0' b'9' ch || in_range b'a' b'f' ch || in_range b'A' b'F' ch
    else false

unfoldable pub sima_digit_value : ℕ → ℕ
sima_digit_value ch =
    if in_range b'0' b'9' ch
    then u16 (ch - b'0')
    else if in_range b'a' b'f' ch
    then u16 (10 + ch - b'a')
    else if in_range b'A' b'F' ch
    then u16 (10 + ch - b'A')
    else 0

unfoldable pub digit_char : ℕ → ℕ
digit_char digit = if ltb digit 10 then b'0' + digit else b'A' + (digit - 10)

-- The loop that fills `temp`, with `left` places to go. The last digit stored is the first of the
-- list, which is the order in which the digits are copied out.
unfoldable pub digit_loop : ℕ → ℕ → ℕ → List ℕ → List ℕ
unfolding digit_char
digit_loop zero v base temp = temp
digit_loop (suc left) v base temp =
    let more = digit_loop left (u16 (v / base)) base (digit_char (u16 (v % base)) ∷ temp) in
    if v == 0 then temp else more

-- The bases that are served.
abbrev pub is_base : ℕ → Bool
is_base base = base == 2 || base == 10 || base == 16

abbrev temp_room : ℕ
temp_room = 16

unfoldable pub sima_utoa : ℕ → ℕ → ℕ → Option Str × Bool
sima_utoa v cap base =
    let temp = digit_loop temp_room v base [] in
    if cap == 0
    then (none, false)
    else if not (is_base base)
    then (none, false)
    else if v == 0
    then if ltb cap 2 then (none, false) else (some (b'0' ∷ []), true)
    else if ltb cap (u16 (length temp + 1))
    then (some [], false)
    else (some temp, true)

-- `sima_itoh` behind the conversion into `hex`, which is given as it holds it.
unfoldable pub prefixed : ℕ → Option Str × Bool → Option Str × Bool
unfolding strcpy strcat
prefixed cap (none, done) = (none, false)
prefixed cap (some hex, false) = (none, false)
prefixed cap (some hex, true) =
    let (start, copied) = strcpy cap (codes "0x") in
    let (whole, joined) = strcat cap start hex in
    if copied then (some whole, joined) else (some start, false)

unfoldable pub sima_itoh : ℕ → ℕ → Option Str × Bool
unfolding sima_utoa prefixed
sima_itoh v cap = if ltb cap 3 then (none, false) else prefixed cap (sima_utoa v 8 16)

unfoldable pub skip_spaces : Str → Str
skip_spaces [] = []
skip_spaces (c ∷ s) = if c == b' ' then skip_spaces s else c ∷ s

-- The digit loop of `sima_atoi` and `sima_atox`.
unfoldable pub value_loop : ℕ → ℕ → Str → ℕ
unfolding sima_is_digit sima_digit_value
value_loop base value [] = value
value_loop base value (c ∷ s) =
    let more = value_loop base (u16 (value * base + sima_digit_value c)) s in
    if sima_is_digit c base then more else value

-- The text must begin with a digit.
unfoldable pub parse_digits : ℕ → Str → Option ℕ
unfolding value_loop
parse_digits base [] = none
parse_digits base (c ∷ s) = if sima_is_digit c base then some (value_loop base 0 (c ∷ s)) else none

-- The number stored in `out`, or `none` for FALSE.
unfoldable pub sima_atoi : Option Str → Option ℕ
unfolding parse_digits skip_spaces
sima_atoi none = none
sima_atoi (some s) = parse_digits 10 (skip_spaces s)

unfoldable pub skip_hex_prefix : Str → Str
skip_hex_prefix [] = []
skip_hex_prefix (c ∷ []) = c ∷ []
skip_hex_prefix (c ∷ d ∷ s) = if c == b'0' && (d == b'x' || d == b'X') then s else c ∷ d ∷ s

unfoldable pub sima_atox : Option Str → Option ℕ
unfolding parse_digits skip_spaces skip_hex_prefix
sima_atox none = none
sima_atox (some s) = parse_digits 16 (skip_hex_prefix (skip_spaces s))
