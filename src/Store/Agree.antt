-- ===== src/Store/Agree.antt =====
-- Two nodes with the same rows have the same digest: `Digest` of internal/store/store.go does not
-- depend on the order of the rows, nor on their positions in the node's own feed.
use distributed_configs_fs.Base.{
  ◌≡◌, refl, sym, ◌∙◌, ap, ℤ, pos, Text, text_eq, List, [], ◌∷◌, ◌++◌, length, map, arith,
}
use distributed_configs_fs.Core.Error.{Result, ok, err}
use distributed_configs_fs.Core.Entry.{hex_encode}
use distributed_configs_fs.Effect.{◌>>=◌}
use distributed_configs_fs.Store.State.{EntryRow, Db, meta}
use distributed_configs_fs.Store.Table.{take_row, order_by}
use distributed_configs_fs.Store.Table.Keys.{UniqueKeys}
use distributed_configs_fs.Store.Outcome.{sql_succeeds}
use distributed_configs_fs.Store.Ops.{
  Summary, at_path, by_path, all, digest, digest_line, digest_text,
}
use distributed_configs_fs.Store.Sorted.{
  replicated, order_by-lookup, order_by-IsSorted, Agree, same_rows,
}

-- What the digest of an entry covers.
line : EntryRow → Text
unfolding meta
line r = digest_line (meta r)

line-unnumbered : (r : EntryRow) → line (record r { seq = pos 0 }) ≡ line r
unfolding line digest_line
line-unnumbered r = refl

joined : List Text → Text
joined [] = []
joined (t ∷ ts) = t ++ joined ts

digest_text-lines : (rows : List EntryRow) → digest_text (map meta rows) ≡ joined (map line rows)
unfolding digest_text joined line
digest_text-lines [] = refl
digest_text-lines (r ∷ rows) = ap (λ t. line r ++ t) (digest_text-lines rows)

length-lines : (rows : List EntryRow) → length (map meta rows) ≡ length (map line rows)
length-lines [] = refl
length-lines (r ∷ rows) = ground (arith, length-lines rows)

-- The digest and the count of an answer; the head is of the node's own feed.
abbrev pub compared : Result Summary → Result (Text × ℤ)
compared (ok d) = ok (d.digest, d.entries)
compared (err x) = err x

module _ (sum256 : Text → Text) where
  abbrev answer : List EntryRow → Text × ℤ
  answer rows =
      let sorted = order_by by_path rows in
      (hex_encode (sum256 (joined (map line sorted))), pos (length (map line sorted)))

  digest_answer :
      (db : Db) → db.faults ≡ [] → compared (digest sum256 db).0 ≡ ok (answer db.entries)
  unfolding digest all ◌>>=◌
  digest_answer db f = rw (sql_succeeds db f) (
      rw
        (
          digest_text-lines (order_by by_path db.entries),
          length-lines (order_by by_path db.entries),
        )
        refl)

  -- Two databases that do not fail, each with one row for a path, and for every path the same row
  -- but for its position in the feed: `digest` succeeds on both, with the same digest and the same
  -- number of entries, in whatever order the rows stand.
  pub digest_agrees :
      (a b : Db)
      → UniqueKeys (λ (r : EntryRow). r.path) a.entries
      → UniqueKeys (λ (r : EntryRow). r.path) b.entries
      → a.faults ≡ []
      → b.faults ≡ []
      → ((p : Text)
          → replicated (take_row (at_path p) a.entries)
            ≡ replicated (take_row (at_path p) b.entries))
      → (d : Text × ℤ) × (compared (digest sum256 a).0 ≡ ok d)
        × (compared (digest sum256 b).0 ≡ ok d)
  unfolding Agree
  digest_agrees a b u v f g e =
      let same =
        same_rows line line-unnumbered (order_by by_path a.entries) (order_by by_path b.entries)
          (order_by-IsSorted a.entries u) (order_by-IsSorted b.entries v)
          (λ p.
            ap replicated (order_by-lookup p a.entries u)
            ∙ e p
            ∙ sym (ap replicated (order_by-lookup p b.entries v))) in
      (answer a.entries, digest_answer a f, rw (digest_answer b g) (rw same refl))
