-- ===== src/Env/Variables.antt =====
-- kernel/sima_env.c, what the table promises: `env_set` and `env_get`.
use mathlib.Core.Path.{subst}
use seolsem.Base.{
  ℕ, zero, suc, ◌+◌, ◌≤◌, ◌<◌, ◌≡◌, ◌≢◌, ◌⊎◌, inl, inr, refl, sym, ap, ◌∙◌, true, false, not, ◌&&◌,
  none, some, [], ◌∷◌, ◌==◌, if◌then◌else◌, take, set, length, All, Str, arith, Bool-cases,
  take_all,
}
use seolsem.Mem.Copying.{strcpy}
use seolsem.Mem.Comparing.{str_eq, str_eq_sound, str_eq_refl}
use seolsem.Env.{
  Entry, Table, env_max_vars, path_name, nth_entry, is_named, slot_loop, env_store, env_set,
  get_loop, env_get,
}

pub str_eq_ne : (s t : Str) → s ≢ t → str_eq s t ≡ false
str_eq_ne s t h = elim (Bool-cases (str_eq s t)) [
  | inl e ↦ absurd (h (str_eq_sound s t e))
  | inr e ↦ e
]

pub holds_alone : (e : Entry) (n n' : Str) → is_named e n ≡ true → n' ≢ n → is_named e n' ≡ false
unfolding is_named
holds_alone e n n' h ne = ground (
  arith,
  str_eq_sound e.name n,
  str_eq_ne e.name n',
  λ (q : e.name ≡ n) (r : e.name ≡ n'). ne (sym r ∙ q),
)

holds_unused : (e : Entry) (n : Str) → e.used ≡ false → is_named e n ≡ false
unfolding is_named
holds_unused e n h = rw h refl

-- A change of an entry that is_named `n` neither before nor after does not show under `n`.
pub get_loop-set_other :
    (table : Table) (j : ℕ) (e : Entry) (n : Str)
    → is_named (nth_entry table j) n ≡ false
    → is_named e n ≡ false
    → get_loop (set table j e) n ≡ get_loop table n
unfolding get_loop
get_loop-set_other [] j e n h k = refl
get_loop-set_other (x ∷ table) zero e n h k = ground arith
get_loop-set_other (x ∷ table) (suc j) e n h k = ground (arith, get_loop-set_other table j e n h k)

-- The first entry that is_named the name shows.
pub get_loop-set_first :
    (table : Table) (j : ℕ) (e : Entry) (n : Str)
    → j < length table
    → ((k : ℕ) → k < j → is_named (nth_entry table k) n ≡ false)
    → is_named e n ≡ true
    → get_loop (set table j e) n ≡ some e.value
unfolding get_loop
get_loop-set_first [] j e n h f k = absurd (omega arith)
get_loop-set_first (x ∷ table) zero e n h f k = ground arith
get_loop-set_first (x ∷ table) (suc j) e n h f k = ground (
  arith,
  f 0 (omega arith),
  get_loop-set_first table j e n (omega arith) (λ m l. f (suc m) (omega arith)) k,
)

-- Where the first entry that is_named a name stands.
pub record FirstAt (table : Table) (n : Str) (j : ℕ) : Type 0 where
  pub inside : j < length table
  pub here : is_named (nth_entry table j) n ≡ true
  pub before : (k : ℕ) → k < j → is_named (nth_entry table k) n ≡ false
  pub shown : get_loop table n ≡ some (nth_entry table j).value

pub record Nowhere (table : Table) (n : Str) : Type 0 where
  pub missing : (k : ℕ) → is_named (nth_entry table k) n ≡ false
  pub hidden : get_loop table n ≡ none

cons_missing :
    (x : Entry) (table : Table) (n : Str) (b : ℕ)
    → is_named x n ≡ false
    → ((k : ℕ) → k < b → is_named (nth_entry table k) n ≡ false)
    → (k : ℕ) → k < suc b
    → is_named (nth_entry (x ∷ table) k) n ≡ false
cons_missing x table n b e f zero l = e
cons_missing x table n b e f (suc k) l = f k (omega arith)

pub first-cases : (table : Table) (n : Str) → Nowhere table n ⊎ ((j : ℕ) × FirstAt table n j)
unfolding get_loop is_named
first-cases [] n = inl (record { missing = λ k. refl; hidden = refl })
first-cases (x ∷ table) n = elim (Bool-cases (is_named x n)) [
  | inl e ↦ inr (
    0,
    record {
      inside = omega arith;
      here = e;
      before = λ k l. absurd (omega arith);
      shown = ground arith;
    },
  )
  | inr e ↦ elim (first-cases table n) [
    | inl none_there ↦ inl (record {
      missing = λ k. cons_missing x table n (suc k) e (λ m l. none_there.missing m) k (omega arith);
      hidden = ground (arith, none_there.hidden);
    })
    | inr (j, f) ↦ inr (
      suc j,
      record {
        inside = omega (arith, f.inside);
        here = f.here;
        before = cons_missing x table n j e f.before;
        shown = ground (arith, f.shown);
      },
    )
  ]
]

pub slot_loop-first :
    (table : Table) (i : ℕ) (n : Str) (slot j : ℕ)
    → j < length table
    → is_named (nth_entry table j) n ≡ true
    → ((k : ℕ) → k < j → is_named (nth_entry table k) n ≡ false)
    → slot_loop table i n slot ≡ (i + j, str_eq n path_name)
unfolding slot_loop
slot_loop-first [] i n slot j l h f = absurd (omega arith)
slot_loop-first (x ∷ table) i n slot zero l h f = ground (arith, h)
slot_loop-first (x ∷ table) i n slot (suc j) l h f =
    let slot' = if not x.used && slot == env_max_vars then i else slot in
    let moved : i + 1 + j ≡ i + suc j = omega arith in
    ground (
      arith,
      f 0 (omega arith),
      slot_loop-first table (i + 1) n slot' j (omega arith) h (λ k q. f (suc k) (omega arith))
          ∙ ap (λ k. (k, str_eq n path_name)) moved,
    )

slot_loop-kept :
    (table : Table) (i : ℕ) (n : Str) (slot : ℕ)
    → ((k : ℕ) → is_named (nth_entry table k) n ≡ false)
    → slot ≢ env_max_vars
    → slot_loop table i n slot ≡ (slot, false)
unfolding slot_loop
slot_loop-kept [] i n slot f ne = refl
slot_loop-kept (x ∷ table) i n slot f ne =
    ground (arith, f 0, slot_loop-kept table (i + 1) n slot (λ k. f (suc k)) ne)

-- A name that no entry is_named gets the first free nth_entry, if there is one.
slot_loop-free :
    (table : Table) (i : ℕ) (n : Str)
    → ((k : ℕ) → is_named (nth_entry table k) n ≡ false)
    → i + length table ≤ env_max_vars
    → ((slot_loop table i n env_max_vars ≡ (env_max_vars, false)) × All (λ e. e.used ≡ true) table)
      ⊎ ((j : ℕ) × (j < length table)
          × ((nth_entry table j).used ≡ false)
          × (slot_loop table i n env_max_vars ≡ (i + j, false)))
unfolding slot_loop
slot_loop-free [] i n f fits = inl (refl, tt)
slot_loop-free (x ∷ table) i n f fits = elim (Bool-cases x.used) [
  | inr e ↦ inr (
    0,
    omega arith,
    e,
    ground (arith, f 0, slot_loop-kept table (i + 1) n i (λ k. f (suc k)) (omega arith)),
  )
  | inl e ↦ elim (slot_loop-free table (i + 1) n (λ k. f (suc k)) (omega arith)) [
    | inl (r, all) ↦ inl (ground (arith, f 0, r), (e, all))
    | inr (j, l, u, r) ↦
        let moved : i + 1 + j ≡ i + suc j = omega arith in
        inr (suc j, omega arith, u, ground (arith, f 0, r ∙ ap (λ k. (k, false)) moved))
  ]
]

-- What a call of `env_set` for a name other than PATH does.
pub record Updates (table table' : Table) (name value : Str) : Type 0 where
  pub others : (n : Str) → n ≢ name → env_get table' (some n) ≡ env_get table (some n)
  pub stored :
      (env_get table' (some name) ≡ some (take 63 value))
      ⊎ ((table' ≡ table) × (env_get table (some name) ≡ none) × All (λ e. e.used ≡ true) table)

module _ (table : Table) (name value : Str) (eight : length table ≡ 8) (some_name : name ≢ [])
    (short : length name < 12) where
  abbrev fresh : Entry
  fresh = record { used = true; name = take 11 name; value = take 63 value }

  fresh-is_named : (n : Str) → is_named fresh n ≡ str_eq name n
  unfolding is_named
  fresh-is_named n = rw (take_all 11 name (omega arith)) refl

  -- The entry taken held the name, or nothing.
  env_store-Updates :
      (j : ℕ)
      → j < length table
      → ((n : Str) → n ≢ name → is_named (nth_entry table j) n ≡ false)
      → ((k : ℕ) → k < j → is_named (nth_entry table k) name ≡ false)
      → Updates table (env_store table j name value) name value
  unfolding env_store strcpy env_get
  env_store-Updates j l alone before = record {
    others = λ n ne.
        get_loop-set_other table j fresh n (alone n ne)
          (fresh-is_named n ∙ str_eq_ne name n (λ e. ne (sym e)));
    stored =
        inl
          (get_loop-set_first table j fresh name l before (fresh-is_named name ∙ str_eq_refl name));
  }

  env_set-kept : slot_loop table 0 name env_max_vars ≡ (8, false) → env_set table name value ≡ table
  unfolding env_set
  env_set-kept e = rw (str_eq_ne name [] some_name) (rw e refl)

  env_set-stores :
      (j : ℕ)
      → j < 8
      → slot_loop table 0 name env_max_vars ≡ (j, false)
      → env_set table name value ≡ env_store table j name value
  unfolding env_set
  env_set-stores j l e = rw (str_eq_ne name [] some_name) (rw e (ground arith))

  -- env_set in a table of eight entries, for a name of 1 to 11 bytes other than PATH: it changes
  -- the value of no other name, and gives the name the first 63 bytes of the value, unless the
  -- name has no value and all eight entries are used: then the table is as before.
  pub env_set-Updates : name ≢ path_name → Updates table (env_set table name value) name value
  unfolding env_get
  env_set-Updates other = elim (first-cases table name) [
    | inr (j, f) ↦
        let slot : slot_loop table 0 name env_max_vars ≡ (j, false) =
          slot_loop-first table 0 name env_max_vars j f.inside f.here f.before
          ∙ ground (arith, str_eq_ne name path_name other) in
        subst (λ t. Updates table t name value)
          (sym (env_set-stores j (omega (arith, f.inside, eight)) slot))
          (env_store-Updates j f.inside (λ n ne. holds_alone (nth_entry table j) name n f.here ne)
            f.before)
    | inl absent ↦ elim (slot_loop-free table 0 name absent.missing (omega arith)) [
      | inl (slot, full) ↦
          subst (λ t. Updates table t name value) (sym (env_set-kept slot))
            (record { others = λ n ne. refl; stored = inr (refl, absent.hidden, full) })
      | inr (j, l, free, slot) ↦
          subst (λ t. Updates table t name value)
            (sym (env_set-stores j (omega arith) (slot ∙ ap (λ k. (k, false)) (omega arith))))
            (env_store-Updates j l (λ n ne. holds_unused (nth_entry table j) n free)
              λ k q. absent.missing k)
    ]
  ]
