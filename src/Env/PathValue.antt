-- ===== src/Env/PathValue.antt =====
-- kernel/sima_env.c, the values that `env_set` appends to PATH.
use mathlib.Core.List.{append_assoc}
use mathlib.Core.Option.{some-injective}
use seolsem.Base.{
  ℕ, ◌+◌, ◌-◌, ◌≤◌, ◌<◌, ◌≡◌, ◌≢◌, inl, inr, refl, sym, ap, ◌∙◌, Bool, true, false, none, some, [],
  ◌∷◌, ◌++◌, ltb, if◌then◌else◌, take, set, length, length-append, ltb→lt, Str, codes, arith,
  Bool-cases, take_all,
}
use seolsem.Mem.Copying.{strcpy, strcat}
use seolsem.Mem.Comparing.{str_eq, str_eq_refl}
use seolsem.Env.{
  Entry, Table, env_max_vars, env_value_max, path_name, nth_entry, is_named, slot_loop, merge,
  env_append, store_merged, env_set, get_loop, env_get,
}
use seolsem.Env.Variables.{
  str_eq_ne, holds_alone, get_loop-set_other, get_loop-set_first, FirstAt, first-cases,
  slot_loop-first,
}

-- A value appended to PATH, after a semicolon, if the result leaves room for the NUL.
module _ (old value : Str) (some_old : old ≢ []) (short : length old < 64) where
  fits_whole : strcpy env_value_max old ≡ (old, true)
  unfolding strcpy
  fits_whole = rw (take_all 63 old (omega arith)) (ground arith)

  semicolon_fits : length old < 63 → strcat env_value_max old (codes ";") ≡ (old ++ 59 ∷ [], true)
  unfolding strcat
  semicolon_fits h =
      rw (take_all {A = ℕ} (64 - length old - 1) (59 ∷ []) (omega arith)) (ground arith)

  semicolon_left : length old ≡ 63 → (strcat env_value_max old (codes ";")).1 ≡ false
  unfolding strcat
  semicolon_left h = ground arith

  value_fits :
      length old + 1 + length value < 64
      → strcat env_value_max (old ++ 59 ∷ []) value ≡ (old ++ 59 ∷ value, true)
  unfolding strcat
  value_fits h = rw (length-append old (59 ∷ [])) (
      rw (take_all (64 - (length old + 1) - 1) value (omega arith))
        (rw (append_assoc old (59 ∷ []) value) (ground arith)))

  value_left :
      64 ≤ length old + 1 + length value → (strcat env_value_max (old ++ 59 ∷ []) value).1 ≡ false
  unfolding strcat
  value_left h = ground (arith, length-append old (59 ∷ []))

  merge-eq :
      merge old value
      ≡ (if ltb (length old + 1 + length value) 64 then some (old ++ 59 ∷ value) else none)
  unfolding merge
  merge-eq = rw fits_whole (
      rw (str_eq_ne old [] some_old) (elim (Bool-cases (ltb (length old) 63)) [
        | inl h ↦
            rw (semicolon_fits (ground arith))
              (elim (Bool-cases (ltb (length old + 1 + length value) 64)) [
                | inl fits ↦ rw (value_fits (ground arith)) (ground arith)
                | inr left ↦ ground (arith, value_left (ground arith))
              ])
        | inr h ↦ ground (arith, semicolon_left (ground arith))
      ]))

  not_found : {s : Str} → none ≢ some s
  not_found e = cc

  module _ (table : Table) (eight : length table ≡ 8) where
    module _ (j : ℕ) (f : FirstAt table path_name j) (here : (nth_entry table j).value ≡ old) where
      abbrev longer : Entry
      longer = record (nth_entry table j) { value = take 63 (old ++ 59 ∷ value) }

      env_set-append :
          env_set table path_name value
          ≡ store_merged table j (merge (nth_entry table j).value value)
      unfolding env_set env_append str_eq
      env_set-append =
          let e : 0 + j ≡ j = omega arith in
          let slot : slot_loop table 0 path_name env_max_vars ≡ (j, true) =
            slot_loop-first table 0 path_name env_max_vars j f.inside f.here f.before
            ∙ ap (λ b. (0 + j, b)) (str_eq_refl path_name)
            ∙ ap (λ k. (k, true)) e in
          rw slot (ground (arith, f.inside, eight))

      store_merged-if :
          (b : Bool)
          → store_merged table j (if b then some (old ++ 59 ∷ value) else none)
            ≡ (if b then set table j longer else table)
      unfolding store_merged strcpy
      store_merged-if true = refl
      store_merged-if false = refl

      appended :
          env_set table path_name value
          ≡ (if ltb (length old + 1 + length value) 64 then set table j longer else table)
      appended =
          env_set-append
          ∙ ap (store_merged table j) (ap (λ o. merge o value) here ∙ merge-eq)
          ∙ store_merged-if (ltb (length old + 1 + length value) 64)

      longer-is_named : (n : Str) → is_named longer n ≡ is_named (nth_entry table j) n
      unfolding is_named
      longer-is_named n = refl

      appended-others :
          (n : Str) → n ≢ path_name → get_loop (env_set table path_name value) n ≡ get_loop table n
      appended-others n ne =
          let alone = holds_alone (nth_entry table j) path_name n f.here ne in
          rw appended
            (ground (arith, get_loop-set_other table j longer n alone (longer-is_named n ∙ alone)))

      appended-shown :
          get_loop (env_set table path_name value) path_name
          ≡ some (if ltb (length old + 1 + length value) 64 then old ++ 59 ∷ value else old)
      appended-shown = rw appended (elim (Bool-cases (ltb (length old + 1 + length value) 64)) [
        | inl h ↦ rw h (
            get_loop-set_first table j longer path_name f.inside f.before
              (longer-is_named path_name ∙ f.here)
            ∙ ap some (
                take_all 63 (old ++ 59 ∷ value) (
                  omega (
                    arith,
                    length-append old (59 ∷ value),
                    ltb→lt (length old + 1 + length value) 64 h,
                  ))))
        | inr h ↦ rw h (f.shown ∙ ap some here)
      ])

    -- env_set of PATH in a table of eight entries where PATH has a value that is neither empty nor
    -- longer than 63 bytes: the other names keep their values, and PATH becomes the old value, a
    -- semicolon and the new value if these are less than 64 bytes, and stays as it is otherwise.
    pub env_set-appends :
        env_get table (some path_name) ≡ some old
        → ((n : Str)
            → n ≢ path_name
            → env_get (env_set table path_name value) (some n) ≡ env_get table (some n))
          × (env_get (env_set table path_name value) (some path_name)
              ≡ some (if ltb (length old + 1 + length value) 64 then old ++ 59 ∷ value else old))
    unfolding env_get
    env_set-appends found = elim (first-cases table path_name) [
      | inl absent ↦ absurd (not_found (sym absent.hidden ∙ found))
      | inr (j, f) ↦
          let here = some-injective (nth_entry table j).value old (sym f.shown ∙ found) in
          (appended-others j f here, appended-shown j f here)
    ]
