-- ===== src/Store/Invariant/Rows.antt =====
-- internal/store/store.go: the rows of entries and of blobs under the statements that change them.
use distributed_configs_fs.Base.{
  ℕ, ◌+◌, ◌≡◌, refl, ◌≢◌, ◌≤◌, ℤ, pos, ◌≤ℤ◌, ◌<ℤ◌, Text, List, [], ◌∷◌, length, All, ◌==◌, arith,
  text_eq, int_eq, none, Bool-cases, inl, inr,
}
use distributed_configs_fs.Core.Entry.{Meta, hash_content}
use distributed_configs_fs.Store.State.{EntryRow, BlobRow, row_of}
use distributed_configs_fs.Store.Table.{take_row, upsert, upsert_all, insert_new}
use distributed_configs_fs.Store.Table.Keys.{UniqueKeys, upsert-UniqueKeys}
use distributed_configs_fs.Store.Ops.{stamp, same_path, same_hash}
use distributed_configs_fs.Store.Table.Every.{All-upsert}

-- Every row has a feed position between 1 and the counter.
abbrev pub InFeed : ℕ → EntryRow → Type 0
InFeed n r = (pos 0 <ℤ r.seq) × (r.seq ≤ℤ pos n)

abbrev pub IsAddressed : (Text → Text) → BlobRow → Type 0
IsAddressed sum256 b = b.hash ≡ hash_content sum256 b.content

InFeed-mono : (m n : ℕ) (rows : List EntryRow) → m ≤ n → All (InFeed m) rows → All (InFeed n) rows
InFeed-mono m n [] h a = tt
InFeed-mono m n (r ∷ rows) h a = (omega arith, InFeed-mono m n rows h a.1)

-- A position past all those of the table is free.
free_position :
    (n : ℕ) (z : ℤ) (rows : List EntryRow)
    → pos n <ℤ z
    → All (InFeed n) rows
    → take_row (λ r. r.seq == z) rows ≡ none
unfolding take_row
free_position n z [] h a = refl
free_position n z (r ∷ rows) h a = ground (arith, free_position n z rows h a.1)

-- An upsert at a free position brings in no other position.
absent_upsert :
    (z : ℤ) (r : EntryRow) (rows : List EntryRow)
    → r.seq ≢ z
    → take_row (λ q. q.seq == z) rows ≡ none
    → take_row (λ q. q.seq == z) (upsert same_path r rows) ≡ none
unfolding take_row upsert
absent_upsert z r [] n h = ground arith
absent_upsert z r (q ∷ rows) n h = ground (arith, absent_upsert z r rows n)

upsert-positions :
    (r : EntryRow) (rows : List EntryRow)
    → take_row (λ q. q.seq == r.seq) rows ≡ none
    → UniqueKeys (λ (q : EntryRow). q.seq) rows
    → UniqueKeys (λ (q : EntryRow). q.seq) (upsert same_path r rows)
unfolding take_row upsert
upsert-positions r [] h u = (refl, tt)
upsert-positions r (q ∷ rows) h u =
    ground (arith, absent_upsert q.seq r rows, upsert-positions r rows, u.0, u.1)

-- The table of entries, against the counter.
pub record IsTable (n : ℕ) (rows : List EntryRow) : Type 0 where
  pub paths : UniqueKeys (λ (r : EntryRow). r.path) rows
  pub in_feed : All (InFeed n) rows
  pub positions : UniqueKeys (λ (r : EntryRow). r.seq) rows

upsert-IsTable :
    (n : ℕ) (r : EntryRow) (rows : List EntryRow)
    → r.seq ≡ pos (n + 1)
    → IsTable n rows
    → IsTable (n + 1) (upsert same_path r rows)
upsert-IsTable n r rows e t =
    let up : InFeed (n + 1) r = rw e (omega arith, omega arith) in
    record {
      paths = upsert-UniqueKeys (λ (q : EntryRow). q.path) r rows t.paths;
      in_feed =
          All-upsert (InFeed (n + 1)) same_path r rows up
            (InFeed-mono n (n + 1) rows (omega arith) t.in_feed);
      positions =
          upsert-positions r rows (free_position n r.seq rows (rw e (omega arith)) t.in_feed)
            t.positions;
    }

pub stamp-IsTable :
    (n : ℕ) (metas : List Meta) (rows : List EntryRow)
    → IsTable n rows
    → IsTable (n + length metas) (upsert_all same_path (stamp n metas) rows)
unfolding stamp upsert_all
stamp-IsTable n [] rows t = let e : n + 0 ≡ n = omega arith in rw e t
stamp-IsTable n (m ∷ ms) rows t =
    let e : n + length (m ∷ ms) ≡ n + 1 + length ms = omega arith in
    rw e (
      stamp-IsTable (n + 1) ms _
        (upsert-IsTable n (record (row_of m) { seq = pos (n + 1) }) rows refl t))

pub insert_new-IsAddressed :
    (sum256 : Text → Text) (b : BlobRow) (rows : List BlobRow)
    → IsAddressed sum256 b
    → All (IsAddressed sum256) rows
    → All (IsAddressed sum256) (insert_new same_hash b rows)
unfolding insert_new
insert_new-IsAddressed sum256 b [] a h = (a, tt)
insert_new-IsAddressed sum256 b (c ∷ rows) a h = elim (Bool-cases (c.hash == b.hash)) [
  | inl e ↦ rw e h
  | inr e ↦ rw e (h.0, insert_new-IsAddressed sum256 b rows a h.1)
]
