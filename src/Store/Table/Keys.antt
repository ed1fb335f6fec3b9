-- ===== src/Store/Table/Keys.antt =====
-- Looking a key up in a table after the statements that change the table.
use distributed_configs_fs.Base.{
  ◌≡◌, refl, Bool, true, false, Option, none, some, List, [], ◌∷◌, arith, ltb, length, ◌==◌, Eq,
  if◌then◌else◌, Bool-cases, inl, inr,
}
use distributed_configs_fs.Store.Table.{select, take_row, upsert, upsert_all, insert_new}

abbrev pub is_some {ℓ} : {A : Type ℓ} → Option A → Bool
is_some none = false
is_some (some a) = true

abbrev pub or_else {ℓ} : {A : Type ℓ} → Option A → Option A → Option A
or_else none d = d
or_else (some a) d = some a

abbrev pub keep_if {ℓ} : {A : Type ℓ} → (A → Bool) → Option A → Option A
keep_if test none = none
keep_if test (some a) = if test a then some a else none

module _ {R : Type 0} where
  -- A count is positive exactly if there is a row.
  pub count-is_some :
      (test : R → Bool) (rows : List R)
      → ltb 0 (length (select test rows)) ≡ is_some (take_row test rows)
  unfolding select take_row
  count-is_some test [] = refl
  count-is_some test (r ∷ rows) = ground (arith, count-is_some test rows)

module _ {R K : Type 0} ⦃e : Eq K⦄ (key : R → K) where
  abbrev pub at : K → R → Bool
  at k r = key r == k

  abbrev pub same : R → R → Bool
  same r q = key q == key r

  -- No two rows have the same key.
  abbrev pub UniqueKeys : List R → Type 0
  UniqueKeys [] = Unit
  UniqueKeys (r ∷ rows) = (take_row (at (key r)) rows ≡ none) × UniqueKeys rows

  pub take_row-upsert :
      (k : K) (r : R) (rows : List R)
      → take_row (at k) (upsert same r rows) ≡ (if key r == k then some r else take_row (at k) rows)
  unfolding take_row upsert
  take_row-upsert k r [] = refl
  take_row-upsert k r (q ∷ rows) = ground (arith, take_row-upsert k r rows)

  pub take_row-insert_new :
      (k : K) (r : R) (rows : List R)
      → take_row (at k) (insert_new same r rows)
        ≡ or_else (take_row (at k) rows) (if key r == k then some r else none)
  unfolding take_row insert_new
  take_row-insert_new k r [] = ground arith
  take_row-insert_new k r (q ∷ rows) = ground (arith, take_row-insert_new k r rows)

  pub key-take_row : (k : K) (rows : List R) {r : R} → take_row (at k) rows ≡ some r → key r ≡ k
  unfolding take_row
  key-take_row k [] h = cc
  key-take_row k (q ∷ rows) {r} h = ground (arith, key-take_row k rows {r = r})

  take_row-select-none :
      (test : R → Bool) (k : K) (rows : List R)
      → take_row (at k) rows ≡ none
      → take_row (at k) (select test rows) ≡ none
  unfolding take_row select
  take_row-select-none test k [] h = refl
  take_row-select-none test k (q ∷ rows) h = ground (arith, take_row-select-none test k rows)

  -- A row survives a DELETE of the rows that fail a test exactly if it passes the test.
  pub take_row-select :
      (test : R → Bool) (k : K) (rows : List R)
      → UniqueKeys rows
      → take_row (at k) (select test rows) ≡ keep_if test (take_row (at k) rows)
  unfolding take_row select
  take_row-select test k [] u = refl
  take_row-select test k (q ∷ rows) u =
      ground (arith, take_row-select test k rows u.1, take_row-select-none test k rows)

  pub select-UniqueKeys :
      (test : R → Bool) (rows : List R) → UniqueKeys rows → UniqueKeys (select test rows)
  unfolding select
  select-UniqueKeys test [] u = tt
  select-UniqueKeys test (q ∷ rows) u = elim (Bool-cases (test q)) [
    | inl p ↦ rw p (take_row-select-none test (key q) rows u.0, select-UniqueKeys test rows u.1)
    | inr p ↦ rw p (select-UniqueKeys test rows u.1)
  ]

  pub upsert-UniqueKeys :
      (r : R) (rows : List R) → UniqueKeys rows → UniqueKeys (upsert same r rows)
  unfolding upsert take_row
  upsert-UniqueKeys r [] u = (refl, tt)
  upsert-UniqueKeys r (q ∷ rows) u =
      ground (arith, take_row-upsert (key q) r rows, upsert-UniqueKeys r rows u.1)

  pub insert_new-UniqueKeys :
      (r : R) (rows : List R) → UniqueKeys rows → UniqueKeys (insert_new same r rows)
  unfolding insert_new take_row
  insert_new-UniqueKeys r [] u = (refl, tt)
  insert_new-UniqueKeys r (q ∷ rows) u =
      ground (arith, take_row-insert_new (key q) r rows, insert_new-UniqueKeys r rows u.1)

  pub upsert_all-UniqueKeys :
      (rs rows : List R) → UniqueKeys rows → UniqueKeys (upsert_all same rs rows)
  unfolding upsert_all
  upsert_all-UniqueKeys [] rows u = u
  upsert_all-UniqueKeys (r ∷ rs) rows u =
      upsert_all-UniqueKeys rs (upsert same r rows) (upsert-UniqueKeys r rows u)

  -- The last row of a list that has the key.
  abbrev pub last_at : K → List R → Option R
  last_at k [] = none
  last_at k (r ∷ rs) = or_else (last_at k rs) (if key r == k then some r else none)

  -- After an INSERT of several rows a key holds the last of them that has it, and if none has it,
  -- the row that it held.
  pub take_row-upsert_all :
      (k : K) (rs rows : List R)
      → take_row (at k) (upsert_all same rs rows) ≡ or_else (last_at k rs) (take_row (at k) rows)
  unfolding upsert_all
  take_row-upsert_all k [] rows = refl
  take_row-upsert_all k (r ∷ rs) rows =
      rw (take_row-upsert_all k rs (upsert same r rows), take_row-upsert k r rows) (ground arith)
