-- ===== src/Store/Table.antt =====
-- The statements of SQL that internal/store/store.go issues, over a table as a list of rows: WHERE
-- as a Boolean test on a row, ORDER BY as a sort by insertion, and the two forms of ON CONFLICT.
pub mod Keys
pub mod Every
use distributed_configs_fs.Base.{
  ℕ, suc, Bool, true, false, not, Option, none, some, List, [], ◌∷◌, if◌then◌else◌, ◌≡◌, refl,
  arith,
}

module _ {ℓ} {R : Type ℓ} where
  -- SELECT … WHERE test
  unfoldable pub select : (R → Bool) → List R → List R
  select test [] = []
  select test (r ∷ rows) = let rest = select test rows in if test r then r ∷ rest else rest

  -- SELECT … WHERE key = ? LIMIT 1
  unfoldable pub take_row : (R → Bool) → List R → Option R
  take_row test [] = none
  take_row test (r ∷ rows) = if test r then some r else take_row test rows

  unfoldable pub insert_by : (R → R → Bool) → R → List R → List R
  insert_by before r [] = r ∷ []
  insert_by before r (q ∷ rows) =
      let rest = insert_by before r rows in if before q r then q ∷ rest else r ∷ q ∷ rows

  -- ORDER BY
  unfoldable pub order_by : (R → R → Bool) → List R → List R
  unfolding insert_by
  order_by before [] = []
  order_by before (r ∷ rows) = insert_by before r (order_by before rows)

  -- INSERT … ON CONFLICT (key) DO UPDATE, every column; `same` compares the keys.
  unfoldable pub upsert : (R → R → Bool) → R → List R → List R
  upsert same r [] = r ∷ []
  upsert same r (q ∷ rows) = if same r q then r ∷ rows else q ∷ upsert same r rows

  -- An INSERT of several rows puts them in one after another.
  unfoldable pub upsert_all : (R → R → Bool) → List R → List R → List R
  unfolding upsert
  upsert_all same [] rows = rows
  upsert_all same (r ∷ rs) rows = upsert_all same rs (upsert same r rows)

  -- INSERT … ON CONFLICT DO NOTHING
  unfoldable pub insert_new : (R → R → Bool) → R → List R → List R
  insert_new same r [] = r ∷ []
  insert_new same r (q ∷ rows) = if same r q then q ∷ rows else q ∷ insert_new same r rows
