-- ===== src/Store/Feed.antt =====
-- The changes feed: the rows past a position, in the order of their positions.
use distributed_configs_fs.Base.{
  ◌≡◌, refl, ◌≢◌, ℤ, ◌≤ℤ◌, ◌<ℤ◌, ltz, List, [], ◌∷◌, All, ◌==◌, arith, int_eq, if◌then◌else◌, none,
  Bool-cases, inl, inr, eq_of_parts,
}
use distributed_configs_fs.Store.State.{EntryRow}
use distributed_configs_fs.Store.Table.{take_row, select, insert_by, order_by}
use distributed_configs_fs.Store.Table.Keys.{UniqueKeys}
use distributed_configs_fs.Store.Ops.{by_seq, is_since}

abbrev pub AllPast : ℤ → List EntryRow → Type 0
AllPast z = All (λ r. z <ℤ r.seq)

-- Each position is strictly below those after it.
abbrev pub Ascending : List EntryRow → Type 0
Ascending [] = Unit
Ascending (r ∷ rows) = AllPast r.seq rows × Ascending rows

module _ (P : EntryRow → Type 0) where
  All-insert_by :
      (r : EntryRow) (rows : List EntryRow) → P r → All P rows → All P (insert_by by_seq r rows)
  unfolding insert_by
  All-insert_by r [] p h = (p, tt)
  All-insert_by r (q ∷ rows) p h = elim (Bool-cases (ltz q.seq r.seq)) [
    | inl e ↦ rw e (h.0, All-insert_by r rows p h.1)
    | inr e ↦ rw e (p, h)
  ]

  All-order_by : (rows : List EntryRow) → All P rows → All P (order_by by_seq rows)
  unfolding order_by
  All-order_by [] h = tt
  All-order_by (r ∷ rows) h = All-insert_by r _ h.0 (All-order_by rows h.1)

pub AllPast-mono : (y z : ℤ) (rows : List EntryRow) → y ≤ℤ z → AllPast z rows → AllPast y rows
AllPast-mono y z [] h a = tt
AllPast-mono y z (r ∷ rows) h a = (omega arith, AllPast-mono y z rows h a.1)

absent_positions :
    (z : ℤ) (rows : List EntryRow)
    → take_row (λ r. r.seq == z) rows ≡ none
    → All (λ r. r.seq ≢ z) rows
unfolding take_row
absent_positions z [] h = tt
absent_positions z (r ∷ rows) h = (ground arith, absent_positions z rows (ground arith))

insert_by-Ascending :
    (r : EntryRow) (rows : List EntryRow)
    → All (λ q. q.seq ≢ r.seq) rows
    → Ascending rows
    → Ascending (insert_by by_seq r rows)
unfolding insert_by
insert_by-Ascending r [] n a = (tt, tt)
insert_by-Ascending r (q ∷ rows) n a = elim (Bool-cases (ltz q.seq r.seq)) [
  | inl e ↦ rw e (
    All-insert_by (λ p. q.seq <ℤ p.seq) r rows (ground arith) a.0,
    insert_by-Ascending r rows n.1 a.1,
  )
  | inr e ↦
      let below : r.seq <ℤ q.seq = ground (arith, n.0, eq_of_parts q.seq r.seq) in
      rw e ((below, AllPast-mono r.seq q.seq rows (omega arith) a.0), (a.0, a.1))
]

-- Sorted by position, a table whose positions are distinct ascends.
pub order_by-Ascending :
    (rows : List EntryRow)
    → UniqueKeys (λ (r : EntryRow). r.seq) rows
    → Ascending (order_by by_seq rows)
unfolding order_by
order_by-Ascending [] u = tt
order_by-Ascending (r ∷ rows) u =
    insert_by-Ascending r _
      (All-order_by (λ q. q.seq ≢ r.seq) rows (absent_positions r.seq rows u.0))
      (order_by-Ascending rows u.1)

insert_by_least :
    (r : EntryRow) (rows : List EntryRow) → AllPast r.seq rows → insert_by by_seq r rows ≡ r ∷ rows
unfolding insert_by
insert_by_least r [] h = refl
insert_by_least r (q ∷ rows) h = ground arith

module _ (z : ℤ) where
  pub AllPast-select :
      (y : ℤ) (rows : List EntryRow) → AllPast y rows → AllPast y (select (is_since z) rows)
  unfolding select
  AllPast-select y [] h = tt
  AllPast-select y (r ∷ rows) h = elim (Bool-cases (ltz z r.seq)) [
    | inl e ↦ rw e (h.0, AllPast-select y rows h.1)
    | inr e ↦ rw e (AllPast-select y rows h.1)
  ]

  select-insert_by :
      (r : EntryRow) (rows : List EntryRow)
      → All (λ q. q.seq ≢ r.seq) rows
      → Ascending rows
      → select (is_since z) (insert_by by_seq r rows) ≡ (
          if ltz z r.seq
          then insert_by by_seq r (select (is_since z) rows)
          else select (is_since z) rows)
  unfolding select insert_by
  select-insert_by r [] n a = refl
  select-insert_by r (q ∷ rows) n a = elim (Bool-cases (ltz q.seq r.seq)) [
    | inl e ↦ ground (arith, select-insert_by r rows n.1 a.1)
    | inr e ↦
        let below : r.seq <ℤ q.seq = ground (arith, n.0, eq_of_parts q.seq r.seq) in
        let rest : AllPast r.seq (select (is_since z) rows) =
          AllPast-select r.seq rows (AllPast-mono r.seq q.seq rows (omega arith) a.0) in
        ground (arith, insert_by_least r (select (is_since z) rows) rest)
  ]

  -- Selecting and sorting commute.
  pub order_by-select :
      (rows : List EntryRow)
      → UniqueKeys (λ (r : EntryRow). r.seq) rows
      → order_by by_seq (select (is_since z) rows) ≡ select (is_since z) (order_by by_seq rows)
  unfolding order_by select
  order_by-select [] u = refl
  order_by-select (r ∷ rows) u =
      let free : All (λ q. q.seq ≢ r.seq) (order_by by_seq rows) =
        All-order_by (λ q. q.seq ≢ r.seq) rows (absent_positions r.seq rows u.0) in
      ground (
        arith,
        order_by-select rows u.1,
        select-insert_by r (order_by by_seq rows) free (order_by-Ascending rows u.1),
      )
