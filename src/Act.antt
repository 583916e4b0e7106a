-- ===== src/Act.antt =====
-- Operations of the file system that may return FALSE: what was done before stays done, so the new
-- state comes back beside a failure too.
pub mod Keeps
use seolsem.Base.{◌≡◌, refl, Bool, true, false, Option, none, some}

abbrev pub Act {ℓ} : Type ℓ → Type ℓ → Type ℓ
Act S A = S → Option A × S

module _ {ℓ} {S A : Type ℓ} where
  pub pure : A → Act S A
  pure a s = (some a, s)

  -- `return FALSE;`
  pub fail : Act S A
  fail s = (none, s)

  -- `if (!o) return FALSE;` on a computed value
  pub lift : Option A → Act S A
  lift o s = (o, s)

  -- The result as a value, FALSE included.
  pub attempt : Act S A → Act S (Option A)
  attempt m s = let (r, s') = m s in (some r, s')

  -- `if (!m()) { n }` where `n` ends in a return.
  pub rescue : Act S A → Act S A → Act S A
  rescue m n s = let (r, s') = m s in elim r [ some a ↦ (some a, s') | none ↦ n s' ]

  -- An operation that always returns.
  pub call : (S → A × S) → Act S A
  call f s = let (a, s') = f s in (some a, s')

  pub gets : (S → A) → Act S A
  gets f s = (some (f s), s)

module _ {ℓ} {S A B : Type ℓ} where
  -- One operation for a value that is there, another where there is none.
  pub cases : Option A → Act S B → (A → Act S B) → Act S B
  cases none m f = m
  cases (some a) m f = f a

  abbrev pub continue : Option A → (A → Act S B) → Act S B
  continue (some a) f s = f a s
  continue none f s = (none, s)

  infixl 10 ◌>>=◌ ◌>>◌
  -- opening this opens the ways to build an action too
  unfoldable pub ◌>>=◌ : Act S A → (A → Act S B) → Act S B
  unfolding pure fail lift attempt rescue call gets cases
  ◌>>=◌ m f s = let (r, s') = m s in continue r f s'

  abbrev pub ◌>>◌ : Act S A → Act S B → Act S B
  m >> n = m >>= λ _. n

abbrev pub done : Bool → Option (Unit {0})
done true = some tt
done false = none

pub true_of_done : (b : Bool) → done b ≡ some tt → b ≡ true
true_of_done true e = refl
true_of_done false e = cc

module _ {S : Type 0} where
  -- `if (!b) return FALSE;`
  pub require : Bool → Act S Unit
  require b s = (done b, s)

  -- `if (!f()) return FALSE;`
  pub check : (S → Bool × S) → Act S Unit
  check f s = let (b, s') = f s in (done b, s')

  -- `(void)f();`
  pub ignore : (S → Bool × S) → Act S Unit
  ignore f s = (some tt, (f s).1)

  pub modify : (S → S) → Act S Unit
  modify f s = (some tt, f s)

  -- TRUE or FALSE of an operation, and its state.
  unfoldable pub succeeds : Act S Unit → S → Bool × S
  unfolding require check ignore modify
  succeeds m s = let (r, s') = m s in (elim r [ some u ↦ true | none ↦ false ], s')
