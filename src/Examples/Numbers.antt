-- ===== src/Examples/Numbers.antt =====
-- The theorems on numbers as text, at concrete ones.
use seolsem.Base.{◌≡◌, ◌++◌, true, some, Str, replicate, arith}
use seolsem.Conv.{sima_utoa, sima_atoi}
use seolsem.Conv.RoundTrip.{sima_atoi-sima_utoa}

sima_atoi-sima_utoa_example :
    (s : Str) × (sima_utoa 40961 6 10 ≡ (some s, true))
    × (sima_atoi (some (replicate 2 b' ' ++ s)) ≡ some 40961)
sima_atoi-sima_utoa_example = sima_atoi-sima_utoa 40961 6 2 (omega arith) (omega arith)
