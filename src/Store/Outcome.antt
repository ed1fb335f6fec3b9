-- ===== src/Store/Outcome.antt =====
-- The two outcomes of a statement, of a read, and of `Apply`.
use distributed_configs_fs.Base.{
  ◌+◌, ◌-◌, ◌≡◌, refl, ◌⊎◌, inl, inr, Bool, true, false, pos, List, [], ◌∷◌, length, arith,
}
use distributed_configs_fs.Core.Error.{ok, err, database}
use distributed_configs_fs.Core.Entry.{Meta}
use distributed_configs_fs.Effect.{◌>>=◌}
use distributed_configs_fs.Store.State.{Db, sql, transaction, outcome}
use distributed_configs_fs.Store.Table.{upsert_all}
use distributed_configs_fs.Store.Ops.{stamp, same_path, apply_batch, apply}

-- The tables as they were, with other outcomes to come.
abbrev pub with_faults : List Bool → Db → Db
with_faults fs db = record db { faults = fs }

outcome-cases :
    (l : List Bool) (db : Db)
    → ((fs : List Bool) × (outcome l db ≡ (err database, with_faults fs db)))
      ⊎ ((fs : List Bool) × (outcome l db ≡ (ok tt, with_faults fs db)))
outcome-cases [] db = inr (db.faults, refl)
outcome-cases (true ∷ fs) db = inl (fs, refl)
outcome-cases (false ∷ fs) db = inr (fs, refl)

-- A statement fails or succeeds; it does not touch the tables itself.
pub sql-cases :
    (db : Db)
    → ((fs : List Bool) × (sql db ≡ (err database, with_faults fs db)))
      ⊎ ((fs : List Bool) × (sql db ≡ (ok tt, with_faults fs db)))
unfolding sql
sql-cases db = outcome-cases db.faults db

-- Where no statement is to fail, a statement changes nothing.
pub sql_succeeds : (db : Db) → db.faults ≡ [] → sql db ≡ (ok tt, db)
unfolding sql
sql_succeeds db h = rw h

-- The tables after a batch has been stored.
abbrev pub written : List Meta → List Bool → Db → Db
written metas fs db = record db {
  entries = upsert_all same_path (stamp db.seq metas) db.entries;
  seq = db.seq + length metas;
  faults = fs;
}

module _ (m : Meta) (ms : List Meta) where
  -- `Apply` of a batch that is not empty stores all of it under the next positions, or nothing.
  pub apply-cases :
      (db : Db)
      → ((fs : List Bool) × (apply (m ∷ ms) db ≡ (err database, with_faults fs db)))
        ⊎ ((fs : List Bool) × (apply (m ∷ ms) db
              ≡ (ok (pos (db.seq + length (m ∷ ms))), written (m ∷ ms) fs db)))
  unfolding apply transaction apply_batch ◌>>=◌
  apply-cases db = elim (sql-cases db) [
    | inl (fs, e) ↦ inl (fs, rw e)
    | inr (fs, e) ↦ elim (sql-cases (record db { seq = db.seq + length (m ∷ ms); faults = fs })) [
      | inl (gs, f) ↦ inl (gs, rw (e, f))
      | inr (gs, f) ↦
          let back : db.seq + length (m ∷ ms) - length (m ∷ ms) ≡ db.seq = omega arith in
          inr (gs, rw (e, f, back))
    ]
  ]
