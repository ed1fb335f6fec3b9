-- ===== src/Transport/Server/Pages.antt =====
-- The feed of the store, page by page.
use distributed_configs_fs.Base.{
  ℕ, zero, suc, ◌≡◌, refl, sym, ap, ◌∙◌, ℤ, ◌≤ℤ◌, ltz, List, [], ◌∷◌, map, take, drop, arith,
  int_eq, Bool-cases, inl, inr,
}
use distributed_configs_fs.Store.State.{EntryRow, Db, meta}
use distributed_configs_fs.Store.Table.{select, order_by}
use distributed_configs_fs.Store.Table.Keys.{UniqueKeys}
use distributed_configs_fs.Store.Ops.{feed, by_seq, is_since}
use distributed_configs_fs.Store.Feed.{
  AllPast, Ascending, AllPast-select, order_by-Ascending, order_by-select,
}
use distributed_configs_fs.Transport.Server.{last_seq}

-- The position of the last row, or `z`.
pub last_position : ℤ → List EntryRow → ℤ
last_position z [] = z
last_position z (r ∷ rows) = last_position r.seq rows

le-last_position :
    (z : ℤ) (n : ℕ) (rows : List EntryRow)
    → AllPast z rows
    → Ascending rows
    → z ≤ℤ last_position z (take n rows)
unfolding last_position
le-last_position z zero rows h a = omega arith
le-last_position z (suc n) [] h a = omega arith
le-last_position z (suc n) (r ∷ rows) h a =
    omega (arith, le-last_position r.seq n rows a.0 a.1, h.0)

select_all : (z : ℤ) (rows : List EntryRow) → AllPast z rows → select (is_since z) rows ≡ rows
unfolding select
select_all z [] h = refl
select_all z (r ∷ rows) h = ground (arith, select_all z rows h.1)

select_past_page :
    (z : ℤ) (n : ℕ) (rows : List EntryRow)
    → AllPast z rows
    → Ascending rows
    → select (is_since (last_position z (take n rows))) rows ≡ drop n rows
unfolding last_position select
select_past_page z zero rows h a = select_all z rows h
select_past_page z (suc n) [] h a = refl
select_past_page z (suc n) (r ∷ rows) h a =
    ground (arith, le-last_position r.seq n rows a.0 a.1, select_past_page r.seq n rows a.0 a.1)

select-select :
    (y z : ℤ) (rows : List EntryRow)
    → y ≤ℤ z
    → select (is_since z) (select (is_since y) rows) ≡ select (is_since z) rows
unfolding select
select-select y z [] h = refl
select-select y z (r ∷ rows) h = ground (arith, select-select y z rows h)

select-AllPast : (z : ℤ) (rows : List EntryRow) → AllPast z (select (is_since z) rows)
unfolding select
select-AllPast z [] = tt
select-AllPast z (r ∷ rows) = elim (Bool-cases (ltz z r.seq)) [
  | inl e ↦ rw e (ground arith, select-AllPast z rows)
  | inr e ↦ rw e (select-AllPast z rows)
]

select-Ascending :
    (z : ℤ) (rows : List EntryRow) → Ascending rows → Ascending (select (is_since z) rows)
unfolding select
select-Ascending z [] a = tt
select-Ascending z (r ∷ rows) a = elim (Bool-cases (ltz z r.seq)) [
  | inl e ↦ rw e (AllPast-select z r.seq rows a.0, select-Ascending z rows a.1)
  | inr e ↦ rw e (select-Ascending z rows a.1)
]

take-map : (n : ℕ) (rows : List EntryRow) → take n (map meta rows) ≡ map meta (take n rows)
take-map zero rows = refl
take-map (suc n) [] = refl
take-map (suc n) (r ∷ rows) = ap (λ l. meta r ∷ l) (take-map n rows)

drop-map : (n : ℕ) (rows : List EntryRow) → drop n (map meta rows) ≡ map meta (drop n rows)
drop-map zero rows = refl
drop-map (suc n) [] = refl
drop-map (suc n) (r ∷ rows) = drop-map n rows

last_seq-map : (z : ℤ) (rows : List EntryRow) → last_seq z (map meta rows) ≡ last_position z rows
unfolding last_seq last_position meta
last_seq-map z [] = refl
last_seq-map z (r ∷ rows) = last_seq-map r.seq rows

-- After a page of the feed, what is left of it is the feed after the page's last position.
pub feed-last_seq :
    (n : ℕ) (z : ℤ) (db : Db)
    → UniqueKeys (λ (r : EntryRow). r.seq) db.entries
    → feed (last_seq z (take n (feed z db))) db ≡ drop n (feed z db)
unfolding feed
feed-last_seq n z db u =
    let sorted : List EntryRow = order_by by_seq db.entries in
    let rows : List EntryRow = select (is_since z) sorted in
    let up : Ascending rows = select-Ascending z sorted (order_by-Ascending db.entries u) in
    let past : AllPast z rows = select-AllPast z sorted in
    let h : ℤ = last_position z (take n rows) in
    let at : last_seq z (take n (map meta rows)) ≡ h =
      ap (last_seq z) (take-map n rows) ∙ last_seq-map z (take n rows) in
    let left : select (is_since h) sorted ≡ drop n rows =
      sym (select-select z h sorted (le-last_position z n rows past up))
      ∙ select_past_page z n rows past up in
    rw (order_by-select z db.entries u, at, order_by-select h db.entries u, left)
      (sym (drop-map n rows))
