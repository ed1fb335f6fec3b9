-- ===== src/Tests/Digest.antt =====
-- Digests at concrete tables.
use distributed_configs_fs.Base.{
  ◌≡◌, refl, sym, inl, inr, true, false, ℤ, pos, Text, codes, ◌==◌, text_eq, nat_eq, [], ◌∷◌,
  Bool-cases, arith,
}
use native.Mathlib.Decide.{ℕ_discrete}
use distributed_configs_fs.Core.Error.{ok}
use distributed_configs_fs.Core.Entry.{zero_meta}
use distributed_configs_fs.Store.State.{EntryRow, Db, empty_db, row_of}
use distributed_configs_fs.Store.Table.{take_row}
use distributed_configs_fs.Store.Table.Keys.{UniqueKeys}
use distributed_configs_fs.Store.Ops.{at_path, digest}
use distributed_configs_fs.Store.Sorted.{replicated}
use distributed_configs_fs.Store.Agree.{compared, digest_agrees}
use distributed_configs_fs.Tests.Node.{sum}

abbrev row : Text → ℤ → EntryRow
row path seq = record (row_of (record zero_meta { path = path; hash = codes "01" })) { seq = seq }

-- The same two rows, as two nodes have come by them.
abbrev here : Db
here = record empty_db { entries = row (codes "a") (pos 1) ∷ row (codes "b") (pos 2) ∷ []; seq = 2 }

abbrev there : Db
there = record empty_db {
  entries = row (codes "b") (pos 4) ∷ row (codes "a") (pos 7) ∷ [];
  seq = 7;
}

here_unique : UniqueKeys (λ (r : EntryRow). r.path) here.entries
unfolding take_row row_of text_eq ℕ_discrete
here_unique = (refl, (refl, tt))

there_unique : UniqueKeys (λ (r : EntryRow). r.path) there.entries
unfolding take_row row_of text_eq ℕ_discrete
there_unique = (refl, (refl, tt))

distinct : (p : Text) → codes "a" == p ≡ true → codes "b" == p ≡ false
unfolding text_eq ℕ_discrete
distinct p h = let same : codes "a" ≡ p = ground (arith, h) in rw (sym same) refl

same_lookups :
    (p : Text)
    → replicated (take_row (at_path p) here.entries)
      ≡ replicated (take_row (at_path p) there.entries)
unfolding take_row row_of
same_lookups p = elim (Bool-cases (codes "a" == p)) [
  | inl e ↦ rw (e, distinct p e) refl
  | inr e ↦ elim (Bool-cases (codes "b" == p)) [ inl f ↦ rw (e, f) refl | inr f ↦ rw (e, f) refl ]
]

digest_agrees_example :
    (d : Text × ℤ) × (compared (digest sum here).0 ≡ ok d) × (compared (digest sum there).0 ≡ ok d)
digest_agrees_example = digest_agrees sum here there here_unique there_unique refl refl same_lookups
