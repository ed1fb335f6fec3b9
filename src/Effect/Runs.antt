-- ===== src/Effect/Runs.antt =====
-- What a method that starts in a good state guarantees: of its value and the object on a return, of
-- the object on an error.
use distributed_configs_fs.Base.{◌≡◌, inl, inr, subst}
use distributed_configs_fs.Core.Error.{Result, ok, err, Result-cases}
use distributed_configs_fs.Effect.{Exec, reads, modify, ◌>>=◌}

module _ {S A : Type 0} where
  abbrev pub Ends : (A → S → Type 0) → (S → Type 0) → Result A × S → Type 0
  Ends Q E (ok a, s) = Q a s
  Ends Q E (err code, s) = E s

  pub record Runs (P : S → Type 0) (m : Exec S A) (Q : A → S → Type 0) (E : S → Type 0)
      : Type 0 where
    pub ends : (s : S) → P s → Ends Q E (m s)

  pub Runs-pure :
      {P : S → Type 0} {Q : A → S → Type 0} {E : S → Type 0} (a : A)
      → ((s : S) → P s → Q a s)
      → Runs P (reads (λ _. ok a)) Q E
  Runs-pure a h = record { ends = h }

  -- A method that only reads, where an error guarantees less.
  pub Runs-tests :
      {P E : S → Type 0} (f : S → Result A) → ((s : S) → P s → E s) → Runs P (reads f) (λ a. P) E
  Runs-tests f g = record {
    ends = λ s h. elim (Result-cases (f s)) [ inl (a, e) ↦ rw e h | inr (x, e) ↦ rw e (g s h) ];
  }

  pub end_both : (P : S → Type 0) (r : Result A × S) → Ends (λ a. P) P r → P r.1
  end_both P (ok a, s) h = h
  end_both P (err code, s) h = h

  pub end_any : (P : S → Type 0) (r : Result A × S) → P r.1 → Ends (λ a. P) P r
  end_any P (ok a, s) h = h
  end_any P (err code, s) h = h

  -- The guarantee of a return, for a call that is known to return.
  pub end_ok :
      (Q : A → S → Type 0) (E : S → Type 0) (r : Result A × S) (a : A)
      → r.0 ≡ ok a
      → Ends Q E r
      → Q a r.1
  end_ok Q E (ok b, s) a e h = let same : b ≡ a = cc in subst (λ x. Q x s) same h
  end_ok Q E (err x, s) a e h = cc

  end_pair :
      (Q R : A → S → Type 0) (E F : S → Type 0) (r : Result A × S)
      → Ends Q E r
      → Ends R F r
      → Ends (λ a s. Q a s × R a s) (λ s. E s × F s) r
  end_pair Q R E F (ok a, s) h k = (h, k)
  end_pair Q R E F (err code, s) h k = (h, k)

  -- Two guarantees at once.
  pub Runs-both :
      {P O : S → Type 0} {Q R : A → S → Type 0} {E F : S → Type 0} (m : Exec S A)
      → Runs P m Q E
      → Runs O m R F
      → Runs (λ s. P s × O s) m (λ a s. Q a s × R a s) (λ s. E s × F s)
  Runs-both {Q = Q} {R = R} {E = E} {F = F} m k l = record {
    ends = λ s h. end_pair Q R E F (m s) (k.ends s h.0) (l.ends s h.1);
  }

  -- A method that only reads.
  pub Runs-reads : {P : S → Type 0} (f : S → Result A) → Runs P (reads f) (λ a. P) P
  Runs-reads f = record {
    ends = λ s h. elim (Result-cases (f s)) [ inl (a, e) ↦ rw e h | inr (x, e) ↦ rw e h ];
  }

  -- A weaker guarantee.
  pub Runs-weaken :
      {P : S → Type 0} {Q R : A → S → Type 0} {E F : S → Type 0} (m : Exec S A)
      → ((a : A) (s : S) → Q a s → R a s)
      → ((s : S) → E s → F s)
      → Runs P m Q E
      → Runs P m R F
  Runs-weaken m f g r = record {
    ends = λ s h.
        let k = r.ends s h in
        elim (Result-cases (m s).0) [
          | inl (a, e) ↦ rw e (f a (m s).1 (rw e at k))
          | inr (x, e) ↦ rw e (g (m s).1 (rw e at k))
        ];
  }

module _ {S : Type 0} where
  pub Runs-modify :
      {P Q E : S → Type 0} (f : S → S) → ((s : S) → P s → Q (f s)) → Runs P (modify f) (λ u. Q) E
  Runs-modify f k = record { ends = k }

module _ {S A B : Type 0} where
  pub Runs-then :
      {P : S → Type 0} {Q : A → S → Type 0} {R : B → S → Type 0} {E : S → Type 0} (m : Exec S A)
      (next : A → Exec S B)
      → Runs P m Q E
      → ((a : A) → Runs (Q a) (next a) R E)
      → Runs P (m >>= next) R E
  unfolding ◌>>=◌
  Runs-then m next k l = record {
    ends = λ s h.
        let j = k.ends s h in
        elim (Result-cases (m s).0) [
          | inl (a, e) ↦ rw e ((l a).ends (m s).1 (rw e at j))
          | inr (x, e) ↦ rw e (rw e at j)
        ];
  }
