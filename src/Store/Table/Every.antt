-- ===== src/Store/Table/Every.antt =====
-- What holds of every row of a table, after the statements that change the table.
use distributed_configs_fs.Base.{Bool, Bool-cases, inl, inr, List, [], ◌∷◌, All}
use distributed_configs_fs.Store.Table.{select, upsert, insert_by, order_by}

module _ {R : Type 0} (P : R → Type 0) where
  pub All-select : (test : R → Bool) (rows : List R) → All P rows → All P (select test rows)
  unfolding select
  All-select test [] h = tt
  All-select test (r ∷ rows) h = elim (Bool-cases (test r)) [
    | inl p ↦ rw p (h.0, All-select test rows h.1)
    | inr p ↦ rw p (All-select test rows h.1)
  ]

  pub All-upsert :
      (same : R → R → Bool) (r : R) (rows : List R) → P r → All P rows → All P (upsert same r rows)
  unfolding upsert
  All-upsert same r [] p h = (p, tt)
  All-upsert same r (q ∷ rows) p h = elim (Bool-cases (same r q)) [
    | inl e ↦ rw e (p, h.1)
    | inr e ↦ rw e (h.0, All-upsert same r rows p h.1)
  ]

  All-insert_by :
      (before : R → R → Bool) (r : R) (rows : List R)
      → P r
      → All P rows
      → All P (insert_by before r rows)
  unfolding insert_by
  All-insert_by before r [] p h = (p, tt)
  All-insert_by before r (q ∷ rows) p h = elim (Bool-cases (before q r)) [
    | inl e ↦ rw e (h.0, All-insert_by before r rows p h.1)
    | inr e ↦ rw e (p, h)
  ]

  pub All-order_by :
      (before : R → R → Bool) (rows : List R) → All P rows → All P (order_by before rows)
  unfolding order_by
  All-order_by before [] h = tt
  All-order_by before (r ∷ rows) h =
      All-insert_by before r (order_by before rows) h.0 (All-order_by before rows h.1)
