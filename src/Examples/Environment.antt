-- ===== src/Examples/Environment.antt =====
-- The theorems on the environment, at its defaults, and the file /XENV.ENV of the repository.
use seolsem.Base.{
  ℕ, ◌++◌, ◌∷◌, [], ◌≡◌, ◌≢◌, refl, ap, get_or, true, false, some, ltb, if◌then◌else◌, codes, Str,
  arith,
}
use seolsem.Mem.Copying.{c_str, strcpy, strcat}
use seolsem.Mem.Comparing.{str_eq}
use seolsem.Env.{
  Table, Entry, path_name, env_set, env_get, env_init, get_loop, is_named, slot_loop, merge,
  store_merged, env_append, env_store, line_loop, env_parse_line, parse_at, find_eq, env_trim_left,
  env_trim_right, trim_loop,
}
use seolsem.Env.Variables.{Updates, env_set-Updates}
use seolsem.Env.PathValue.{env_set-appends}

abbrev table : Table
table =
    record { used = true; name = path_name; value = codes "/BIN" }
    ∷ record { used = true; name = codes "HOME"; value = codes "/" }
    ∷ free
    ∷ free
    ∷ free
    ∷ free
    ∷ free
    ∷ free
    ∷ []
  where
    free : Entry
    free = record { used = false; name = []; value = [] }

home_is_not_path : codes "HOME" ≢ path_name
home_is_not_path e = let first : ◌≡◌ {A = ℕ} 72 80 = ap (λ (s : Str). get_or s 0 0) e in omega arith

env_set-Updates_example :
    Updates table (env_set table (codes "HOME") (codes "/USER")) (codes "HOME") (codes "/USER")
env_set-Updates_example =
    env_set-Updates table (codes "HOME") (codes "/USER") refl (λ e. cc) (omega arith)
      home_is_not_path

path_found : env_get table (some path_name) ≡ some (codes "/BIN")
unfolding env_get get_loop is_named str_eq
path_found = refl

env_set-appends_example :
    ((n : Str)
      → n ≢ path_name
      → env_get (env_set table path_name (codes "/SBIN")) (some n) ≡ env_get table (some n))
    × (env_get (env_set table path_name (codes "/SBIN")) (some path_name)
        ≡ some (if ltb 10 64 then codes "/BIN;/SBIN" else codes "/BIN"))
env_set-appends_example =
    env_set-appends (codes "/BIN") (codes "/SBIN") (λ e. cc) (omega arith) table refl path_found

-- With the file of the repository, HOME has a line feed in it.
env_init_home :
    env_get
      (env_init (some (codes "PATH=/BIN" ++ 10 ∷ codes "HOME=/" ++ 10 ∷ [])))
      (some (codes "HOME"))
    ≡ some (codes "/" ++ 10 ∷ [])
unfolding env_get get_loop is_named str_eq env_init env_set slot_loop env_append merge store_merged
    env_store line_loop env_parse_line parse_at find_eq env_trim_left env_trim_right trim_loop c_str
    strcpy strcat
env_init_home = refl
