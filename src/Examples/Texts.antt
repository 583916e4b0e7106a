-- ===== src/Examples/Texts.antt =====
-- The theorems on blocks and strings, at concrete ones.
use seolsem.Base.{ℕ, ◌+◌, ◌≡◌, ◌&&◌, some, List, leb, ltb, if◌then◌else◌, take, codes}
use seolsem.Mem.Block.{Memory, sima_memset, sima_memset-fills}
use seolsem.Mem.Split.{sima_strcspl, filled, fields, sima_strcspl-fields}

abbrev ramp : Memory
ramp a = a + 1

sima_memset-fills_example :
    (sima_memset (some 10) 7 5 ramp).0 12 ≡ (if leb 10 12 && ltb 12 15 then 7 else ramp 12)
sima_memset-fills_example = sima_memset-fills 10 7 5 ramp 12

abbrev buffer : List ℕ
buffer = codes "########"

sima_strcspl-fields_example :
    sima_strcspl (some (codes "::root:x:0")) b':' 2
    ≡ take 2 (filled (fields b':' (codes "::root:x:0")))
sima_strcspl-fields_example = sima_strcspl-fields (codes "::root:x:0") b':' 2
