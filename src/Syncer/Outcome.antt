-- ===== src/Syncer/Outcome.antt =====
-- The outcomes of the steps of a write: reading the current entry, storing the content, `commit`.
use distributed_configs_fs.Base.{
  ◌+◌, ◌≡◌, refl, ◌⊎◌, inl, inr, Bool, true, false, pos, Text, List, [], ◌∷◌, length, Option, none,
  some, if◌then◌else◌, text_eq, Bool-cases,
}
use distributed_configs_fs.Core.Error.{ok, err, database}
use distributed_configs_fs.Core.Entry.{Meta, zero_meta, hash_content}
use distributed_configs_fs.Effect.{◌>>=◌}
use distributed_configs_fs.Store.State.{EntryRow, Db, sql, meta}
use distributed_configs_fs.Store.Table.{take_row, insert_new}
use distributed_configs_fs.Store.Ops.{at_path, same_hash, put_blob, get}
use distributed_configs_fs.Store.Outcome.{
  with_faults, sql-cases, sql_succeeds, written, apply-cases,
}
use distributed_configs_fs.Syncer.State.{Config, Service, notify, announce}
use distributed_configs_fs.Syncer.Local.{lookup, commit}

abbrev pub in_db : Db → Service → Service
in_db db s = record s { db = db }

-- What the store holds at a path, as `lookup` hands it on.
abbrev pub current : Option EntryRow → Meta × Bool
current none = (zero_meta, false)
current (some r) = (meta r, true)

lookup_row :
    (o : Option EntryRow) (path : Text) (s : Service) (fs : List Bool)
    → sql s.db ≡ (ok tt, with_faults fs s.db)
    → take_row (at_path path) s.db.entries ≡ o
    → lookup path s ≡ (ok (current o), in_db (with_faults fs s.db) s)
unfolding lookup get ◌>>=◌
lookup_row none path s fs e f = rw (e, f)
lookup_row (some r) path s fs e f = rw (e, f)

lookup_fails :
    (path : Text) (s : Service) (fs : List Bool)
    → sql s.db ≡ (err database, with_faults fs s.db)
    → lookup path s ≡ (err database, in_db (with_faults fs s.db) s)
unfolding lookup get ◌>>=◌
lookup_fails path s fs e = rw e

-- `lookup` fails with the database, or reports the row of the path.
pub lookup-cases :
    (path : Text) (s : Service)
    → ((fs : List Bool) × (lookup path s ≡ (err database, in_db (with_faults fs s.db) s)))
      ⊎ ((fs : List Bool) × (lookup path s
            ≡ (ok (current (take_row (at_path path) s.db.entries)), in_db (with_faults fs s.db) s)))
lookup-cases path s = elim (sql-cases s.db) [
  | inl (fs, e) ↦ inl (fs, lookup_fails path s fs e)
  | inr (fs, e) ↦ inr (fs, lookup_row _ path s fs e refl)
]

-- Where no statement is to fail, it does, and changes nothing.
pub lookup_succeeds :
    (path : Text) (s : Service)
    → s.db.faults ≡ []
    → lookup path s ≡ (ok (current (take_row (at_path path) s.db.entries)), s)
lookup_succeeds path s h = lookup_row _ path s s.db.faults (sql_succeeds s.db h) refl

-- The tables with a blob for the content.
abbrev pub with_blob : (Text → Text) → Text → Db → Db
with_blob sum256 content db = record db {
  blobs =
      insert_new same_hash
        (record {
          hash = hash_content sum256 content;
          size = pos (length content);
          content = content;
        })
        db.blobs;
}

pub put_blob-cases :
    (sum256 : Text → Text) (content : Text) (db : Db)
    → ((fs : List Bool) × (put_blob sum256 content db ≡ (err database, with_faults fs db)))
      ⊎ ((fs : List Bool) × (put_blob sum256 content db
            ≡ (ok (hash_content sum256 content), with_blob sum256 content (with_faults fs db))))
unfolding put_blob ◌>>=◌
put_blob-cases sum256 content db = elim (sql-cases db) [
  | inl (fs, e) ↦ inl (fs, rw e)
  | inr (fs, e) ↦ inr (fs, rw e)
]

-- The state after a commit: the batch stored, every subscriber woken, the new head gossiped.
abbrev pub committed : Config → List Meta → List Bool → Service → Service
committed cfg metas fs s =
    (if cfg.has_peers then announce (pos (s.db.seq + length metas)) else (λ t. t))
      (notify (in_db (written metas fs s.db) s))

module _ (cfg : Config) (m : Meta) (ms : List Meta) where
  -- A commit fails with the database, and then stores nothing, wakes nobody and announces nothing;
  -- or it stores the whole batch, and then wakes the subscribers and announces the new head.
  pub commit-cases :
      (s : Service)
      → ((fs : List Bool) × (commit cfg (m ∷ ms) s ≡ (err database, in_db (with_faults fs s.db) s)))
        ⊎ ((fs : List Bool) × (commit cfg (m ∷ ms) s ≡ (ok tt, committed cfg (m ∷ ms) fs s)))
  unfolding commit ◌>>=◌
  commit-cases s = elim (apply-cases m ms s.db) [
    | inl (fs, e) ↦ inl (fs, rw e)
    | inr (fs, e) ↦ inr (fs, rw e)
  ]

  -- Committing changes the tables as storing does, whatever the peers.
  pub db-committed :
      (fs : List Bool) (s : Service) → (committed cfg (m ∷ ms) fs s).db ≡ written (m ∷ ms) fs s.db
  unfolding notify
  db-committed fs s = elim (Bool-cases cfg.has_peers) [ inl e ↦ rw e | inr e ↦ rw e ]

  pub clock-committed :
      (fs : List Bool) (s : Service) → (committed cfg (m ∷ ms) fs s).clock ≡ s.clock
  unfolding notify
  clock-committed fs s = elim (Bool-cases cfg.has_peers) [ inl e ↦ rw e | inr e ↦ rw e ]
