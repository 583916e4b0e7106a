-- ===== src/Base/Words.antt =====
-- The integer types of sima_type.h (UINT8, UINT16, UINT32) as casts on numbers, shifts and the
-- bytes of a text literal.
use Prim.Native.Char.{code}
use Prim.Native.Nat.{ℕ, ◌%◌}
use Prim.Native.String.{String}
use mathlib.Core.List.{List, [], ◌∷◌}

abbrev pub u8 : ℕ → ℕ
u8 n = n % 256

abbrev pub u16 : ℕ → ℕ
u16 n = n % 65536

abbrev pub u32 : ℕ → ℕ
u32 n = n % 4294967296

-- A C string: its bytes, without the closing NUL.
abbrev pub Str : Type 0
Str = List ℕ

-- The bytes of an ASCII literal.
abbrev pub codes : String → Str
codes String.[] = []
codes (String.◌∷◌ c s) = code c ∷ codes s
