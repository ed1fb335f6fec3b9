-- ===== src/Effect/Keeps.antt =====
-- What is true of an object before a method and after it, on a return and on an error alike.
use distributed_configs_fs.Base.{inl, inr}
use distributed_configs_fs.Core.Error.{Result, Result-cases}
use distributed_configs_fs.Effect.{Exec, reads, modify, ◌>>=◌}

pub record Keeps {S A : Type 0} (P : S → Type 0) (m : Exec S A) : Type 0 where
  pub still : (s : S) → P s → P (m s).1

module _ {S : Type 0} {P : S → Type 0} where
  -- A method that only reads.
  pub Keeps-reads : {A : Type 0} (f : S → Result A) → Keeps P (reads f)
  Keeps-reads f = record { still = λ s before. before }

  pub Keeps-modify : (f : S → S) → ((s : S) → P s → P (f s)) → Keeps P (modify f)
  Keeps-modify f k = record { still = k }

module _ {S A B : Type 0} {P : S → Type 0} where
  -- One method and then another, whichever the result of the first asks for.
  pub Keeps-then :
      (m : Exec S A) (next : A → Exec S B)
      → Keeps P m
      → ((a : A) → Keeps P (next a))
      → Keeps P (m >>= next)
  unfolding ◌>>=◌
  Keeps-then m next k l = record {
    still = λ s before. elim (Result-cases (m s).0) [
      | inl (a, e) ↦ rw e ((l a).still (m s).1 (k.still s before))
      | inr (x, e) ↦ rw e (k.still s before)
    ];
  }
