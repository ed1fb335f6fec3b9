-- ===== src/Effect.antt =====
-- A method of an object: what it returns, and the object as it leaves it. The writes before an error
-- are not undone, so there is an object to go on with in either case.
pub mod Keeps
pub mod Runs
use distributed_configs_fs.Base.{Bool, Option}
use distributed_configs_fs.Core.Error.{Error, Result, ok, err, on_result, guard, required}

abbrev pub Exec : Type 0 → Type 0 → Type 0
Exec S A = S → Result A × S

module _ {S A : Type 0} where
  -- A method that changes nothing: `reads f` is `f` of the object.
  abbrev pub reads : (S → Result A) → Exec S A
  reads f s = (f s, s)

  abbrev pub lift : Result A → Exec S A
  lift r = reads (λ _. r)

  abbrev pub pure : A → Exec S A
  pure a = lift (ok a)

  abbrev pub gets : (S → A) → Exec S A
  gets f = reads (λ s. ok (f s))

  abbrev pub some_or : Error → Option A → Exec S A
  some_or code o = lift (required code o)

module _ {S : Type 0} where
  abbrev pub modify : (S → S) → Exec S (Unit {0})
  modify f s = (ok tt, f s)

  abbrev pub ensure : Bool → Error → Exec S (Unit {0})
  ensure test code = lift (guard test code)

module _ {S A B : Type 0} where
  -- The call that follows one with the given result, on the object that this one left.
  abbrev pub continue : Result A → (A → Exec S B) → Exec S B
  continue r next s = on_result (λ code. (err code, s)) (λ value. next value s) r

  infixl 10 ◌>>=◌ ◌>>◌
  unfoldable pub ◌>>=◌ : Exec S A → (A → Exec S B) → Exec S B
  ◌>>=◌ m next s = continue (m s).0 next (m s).1

  abbrev pub ◌>>◌ : Exec S A → Exec S B → Exec S B
  m >> next = m >>= λ _. next
