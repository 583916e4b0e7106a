-- ===== src/Act/Keeps.antt =====
-- Invariants of operations, one rule for each way to build one.
use seolsem.Base.{◌≡◌, refl, Bool, true, false, if◌then◌else◌, Option, none, some}
use seolsem.Act.{
  Act, pure, fail, lift, attempt, rescue, call, gets, modify, continue, cases, ◌>>=◌, require,
  check, ignore, succeeds,
}

-- `op` keeps `P`, whether it returns TRUE or FALSE.
pub record Keeps {ℓ} {S A : Type ℓ} (P : S → Type ℓ) (op : Act S A) : Type ℓ where
  pub at : (st : S) (p : P st) → P (op st).1

module _ {ℓ} {S A : Type ℓ} {P : S → Type ℓ} where
  pub Keeps-call : (f : S → A × S) → ((s : S) → P s → P (f s).1) → Keeps P (call f)
  unfolding call
  Keeps-call f h = record { at = h }

  pub Keeps-attempt : (m : Act S A) → Keeps P m → Keeps P (attempt m)
  unfolding attempt
  Keeps-attempt m h = record { at = h.at }

  rescued-Keeps :
      (n : Act S A) (o : Option A)
      → Keeps P n
      → (s : S) → P s
      → P (elim o as (λ x. Option A × S) [ some a ↦ (some a, s) | none ↦ n s ]).1
  rescued-Keeps n (some a) h s p = p
  rescued-Keeps n none h s p = h.at s p

  pub Keeps-rescue : (m n : Act S A) → Keeps P m → Keeps P n → Keeps P (rescue m n)
  unfolding rescue
  Keeps-rescue m n km kn = record {
    at = λ s p. let (r, s') = m s in rescued-Keeps n r kn s' (km.at s p);
  }

  pub Keeps-lift : (o : Option A) → Keeps P (lift o)
  unfolding lift
  Keeps-lift o = record { at = λ st p. p }

  pub Keeps-fail : Keeps P (fail {A = A})
  unfolding fail
  Keeps-fail = record { at = λ st p. p }

  pub Keeps-gets : (f : S → A) → Keeps P (gets f)
  unfolding gets
  Keeps-gets f = record { at = λ st p. p }

  pub Keeps-pure : (x : A) → Keeps P (pure x)
  unfolding pure
  Keeps-pure x = record { at = λ st p. p }

module _ {ℓ} {S A B : Type ℓ} {P : S → Type ℓ} where
  -- The rest of a block, from the state that its first operation left.
  continue-Keeps :
      (rest : A → Act S B)
      → ((x : A) → Keeps P (rest x))
      → (st : S) → P st
      → (got : Option A) → P (continue got rest st).1
  continue-Keeps rest kept st p none = p
  continue-Keeps rest kept st p (some x) = (kept x).at st p

  pub Keeps-bind :
      (first : Act S A) (rest : A → Act S B)
      → Keeps P first
      → ((x : A) → Keeps P (rest x))
      → Keeps P (first >>= rest)
  unfolding ◌>>=◌
  Keeps-bind first rest kept later = record {
    at = λ st p. continue-Keeps rest later (first st).1 (kept.at st p) (first st).0;
  }

module _ {ℓ} {S A B : Type ℓ} {P : S → Type ℓ} where
  -- What follows a computed value may use what the value is.
  pub Keeps-bind-lift :
      (o : Option A) (f : A → Act S B)
      → ((a : A) → o ≡ some a → Keeps P (f a))
      → Keeps P (lift o >>= f)
  unfolding ◌>>=◌
  Keeps-bind-lift (some a) f h = h a refl
  Keeps-bind-lift none f h = Keeps-fail

  -- What follows an operation may use what it promises of its result.
  pub Keeps-bind-result :
      (Q : A → Type ℓ) (m : Act S A) (f : A → Act S B)
      → Keeps P m
      → ((s : S) (a : A) → P s → (m s).0 ≡ some a → Q a)
      → ((a : A) → Q a → Keeps P (f a))
      → Keeps P (m >>= f)
  unfolding ◌>>=◌
  Keeps-bind-result Q m f km gives kf = record {
    at = λ s h. let (r, s') = m s in continued r s' (km.at s h) (λ a. gives s a h);
  }
    where
      continued : (r : Option A) (s : S) → P s → ((a : A) → r ≡ some a → Q a) → P (continue r f s).1
      continued (some a) s h q = (kf a (q a refl)).at s h
      continued none s h q = h

-- Either branch of a conditional may use how the test came out.
pub Keeps-if {ℓ} :
    {S A : Type ℓ} {P : S → Type ℓ} (test : Bool) (then_op else_op : Act S A)
    → (test ≡ true → Keeps P then_op)
    → (test ≡ false → Keeps P else_op)
    → Keeps P (if test then then_op else else_op)
Keeps-if false then_op else_op kept_yes kept_no = kept_no refl
Keeps-if true then_op else_op kept_yes kept_no = kept_yes refl

-- Either case of an option.
pub Keeps-cases {ℓ} :
    {S A B : Type ℓ} {P : S → Type ℓ} (o : Option A) (on_none : Act S B) (on_some : A → Act S B)
    → Keeps P on_none
    → ((a : A) → Keeps P (on_some a))
    → Keeps P (cases o on_none on_some)
unfolding cases
Keeps-cases none on_none on_some h k = h
Keeps-cases (some a) on_none on_some h k = k a

module _ {S : Type 0} {P : S → Type 0} where
  -- What follows a test may use that it was passed.
  pub Keeps-bind-require :
      {B : Type 0} (b : Bool) (f : Unit → Act S B)
      → (b ≡ true → Keeps P (f tt))
      → Keeps P (require b >>= f)
  unfolding ◌>>=◌ require
  Keeps-bind-require true f h = record { at = (h refl).at }
  Keeps-bind-require false f h = record { at = λ s p. p }

  pub Keeps-require : (b : Bool) → Keeps P (require b)
  unfolding require
  Keeps-require b = record { at = λ s h. h }

  pub Keeps-check : (f : S → Bool × S) → ((s : S) → P s → P (f s).1) → Keeps P (check f)
  unfolding check
  Keeps-check f h = record { at = h }

  pub Keeps-ignore : (f : S → Bool × S) → ((s : S) → P s → P (f s).1) → Keeps P (ignore f)
  unfolding ignore
  Keeps-ignore f h = record { at = h }

  pub Keeps-modify : (f : S → S) → ((s : S) → P s → P (f s)) → Keeps P (modify f)
  unfolding modify
  Keeps-modify f h = record { at = h }

  pub Keeps-succeeds : (m : Act S Unit) → Keeps P m → (s : S) → P s → P (succeeds m s).1
  unfolding succeeds
  Keeps-succeeds m h = h.at

pub ruleset keeps_rules = (
  Keeps-pure, Keeps-fail, Keeps-lift, Keeps-attempt, Keeps-rescue, Keeps-call, Keeps-if,
  Keeps-cases, Keeps-bind-require, Keeps-bind-lift, Keeps-bind, Keeps-require, Keeps-check,
  Keeps-ignore, Keeps-gets, Keeps-modify,
)
