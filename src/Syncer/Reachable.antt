-- ===== src/Syncer/Reachable.antt =====
-- The operations of a node in any order, from a node that starts with an empty store.
use distributed_configs_fs.Base.{
  ℕ, zero, suc, ◌≡◌, inl, inr, Bool, true, false, not, ℤ, pos, maxz, ltz, Text, List, [], ◌∷◌, All,
  All-map, ◌==◌, text_eq, nat_eq, if◌then◌else◌, arith,
}
use distributed_configs_fs.Core.Error.{Result, ok, err}
use distributed_configs_fs.Core.Entry.{Meta}
use distributed_configs_fs.Effect.{Exec}
use distributed_configs_fs.Effect.Keeps.{Keeps, Keeps-then, Keeps-modify, Keeps-reads}
use distributed_configs_fs.Store.State.{EntryRow, Db, meta, empty_db, sql}
use distributed_configs_fs.Store.Table.{select}
use distributed_configs_fs.Store.Table.Every.{All-select}
use distributed_configs_fs.Store.Outcome.{sql-cases}
use distributed_configs_fs.Store.Collect.{kept_blob, referenced}
use distributed_configs_fs.Store.Ops
use distributed_configs_fs.Store.Ops.{is_expired, is_referenced, has_hash}
use distributed_configs_fs.Syncer.State.{
  Config, ManifestResponse, Service, PeerClient, new_service, on_db, request, attempt, time_now,
}
use distributed_configs_fs.Syncer.Local.{put_file, put_dir, set_attr, delete}
use distributed_configs_fs.Syncer.Pull.{
  apply_remote, store_page, sync_pages, sync_peer, collect, collect_blobs,
}
use distributed_configs_fs.Syncer.Pull.Servable.{IsVerified, apply_remote-IsServable}
use distributed_configs_fs.Syncer.Servable.{
  put_file-IsServable, put_dir-IsServable, set_attr-IsServable, delete-IsServable,
}
use distributed_configs_fs.Syncer.Content.{HasContent, has_content, IsServable}

pub sql-IsServable : Keeps IsServable sql
sql-IsServable = record {
  still = λ db w. elim (sql-cases db) [ inl (fs, e) ↦ rw e w | inr (fs, e) ↦ rw e w ];
}

gc_tombstones-IsServable : (before : ℤ) → Keeps IsServable (Ops.gc_tombstones before)
unfolding Ops.gc_tombstones
gc_tombstones-IsServable before = Keeps-then _ _ sql-IsServable λ _.
    Keeps-then _ _ (Keeps-reads _) λ _.
      Keeps-then _ _
        (Keeps-modify _ λ db w. All-select _ (λ r. not (is_expired before r)) db.entries w)
        λ _. Keeps-reads _

referenced_content :
    (db : Db) (r : EntryRow)
    → (not (r.hash == []) ≡ true → is_referenced db.entries r.hash ≡ true)
    → HasContent db (meta r)
    → has_content (select (λ b. is_referenced db.entries b.hash) db.blobs) (meta r) ≡ true
unfolding meta
referenced_content db r h k = ground (arith, kept_blob db.entries r.hash db.blobs)

both : {A : Type 0} (P Q : A → Type 0) (xs : List A) → All P xs → All Q xs → All (λ a. P a × Q a) xs
both P Q [] p q = tt
both P Q (x ∷ xs) p q = ((p.0, q.0), both P Q xs p.1 q.1)

gc_blobs-IsServable : Keeps IsServable Ops.gc_blobs
unfolding Ops.gc_blobs
gc_blobs-IsServable = Keeps-then _ _ sql-IsServable λ _. Keeps-then _ _ (Keeps-reads _) λ _.
    Keeps-then _ _
      (Keeps-modify _ λ db w.
        All-map db.entries (λ r h. referenced_content db r h.0 h.1)
          (both _ _ db.entries (referenced db.entries) w))
      λ _. Keeps-reads _

-- The entries of a node can be served.
abbrev pub Serves : Service → Type 0
Serves s = IsServable s.db

Keeps-on_db : {A : Type 0} (m : Exec Db A) → Keeps IsServable m → Keeps Serves (on_db m)
Keeps-on_db m k = record { still = λ s h. k.still s.db h }

Keeps-request : {A : Type 0} (f : ℕ → Result A) → Keeps Serves (request f)
Keeps-request f = record { still = λ s h. h }

Keeps-attempt : {A : Type 0} (m : Exec Service A) → Keeps Serves m → Keeps Serves (attempt m)
Keeps-attempt m k = record { still = λ s h. k.still s h }

Keeps-time_now : Keeps Serves time_now
unfolding time_now
Keeps-time_now = record { still = λ s h. h }

collect_blobs-Serves : (cfg : Config) (r : Result ℕ) → Keeps Serves (collect_blobs cfg r)
unfolding collect_blobs
collect_blobs-Serves cfg (ok n) =
    Keeps-then _ _ (Keeps-attempt _ (Keeps-on_db _ gc_blobs-IsServable)) λ _. Keeps-reads _
collect_blobs-Serves cfg (err e) = Keeps-reads _

collect-Serves : (cfg : Config) → Keeps Serves (collect cfg)
unfolding collect
collect-Serves cfg = Keeps-then _ _ Keeps-time_now λ now.
    Keeps-then _ _ (Keeps-attempt _ (Keeps-on_db _ (gc_tombstones-IsServable _)))
      λ r. collect_blobs-Serves cfg r

set_peer_seq-Serves :
    (node addr : Text) (seq seen_at : ℤ)
    → Keeps Serves (on_db (Ops.set_peer_seq node addr seq seen_at))
unfolding Ops.set_peer_seq
set_peer_seq-Serves node addr seq seen_at =
    Keeps-on_db _ (Keeps-then _ _ sql-IsServable λ _. Keeps-modify _ λ db w. w)

peer_seq-Serves : (node : Text) → Keeps Serves (on_db (Ops.peer_seq node))
unfolding Ops.peer_seq
peer_seq-Serves node = Keeps-on_db _ (Keeps-then _ _ sql-IsServable λ _. Keeps-reads _)

digest-Serves : (sum256 : Text → Text) → Keeps Serves (on_db (Ops.digest sum256))
unfolding Ops.digest Ops.all
digest-Serves sum256 =
    Keeps-on_db _
      (Keeps-then _ _ (Keeps-then _ _ sql-IsServable λ _. Keeps-reads _) λ _. Keeps-reads _)

if_Keeps :
    {A : Type 0} (b : Bool) {m n : Exec Service A}
    → Keeps Serves m
    → Keeps Serves n
    → Keeps Serves (if b then m else n)
if_Keeps true k l = k
if_Keeps false k l = l

module _ (sum256 : Text → Text) (cfg : Config) (peer : PeerClient)
    (v : IsVerified sum256 peer) where
  apply_remote-Serves :
      (addr : Text) (entries : List Meta) → Keeps Serves (apply_remote sum256 cfg peer addr entries)
  apply_remote-Serves addr entries = record {
    still = apply_remote-IsServable sum256 cfg peer v addr entries;
  }

  store_page-Serves :
      (next : ℤ → ℤ → Exec Service Bool) (node addr : Text) (bookmark : ℤ) (page : ManifestResponse)
      (entries : List Meta)
      → ((cursor mark : ℤ) → Keeps Serves (next cursor mark))
      → Keeps Serves (store_page sum256 cfg peer next node addr bookmark page entries)
  unfolding store_page
  store_page-Serves next node addr bookmark page [] k = Keeps-reads _
  store_page-Serves next node addr bookmark page (m ∷ ms) k =
      Keeps-then _ _ (apply_remote-Serves addr (m ∷ ms)) λ safe.
        Keeps-then _ _ Keeps-time_now λ now.
          Keeps-then _ _ (set_peer_seq-Serves node addr _ now)
            λ _. if_Keeps page.more (k page.head (maxz bookmark safe)) (Keeps-reads _)

  sync_pages-Serves :
      (fuel : ℕ) (node addr : Text) (cursor bookmark : ℤ)
      → Keeps Serves (sync_pages sum256 cfg peer fuel node addr cursor bookmark)
  unfolding sync_pages
  sync_pages-Serves zero node addr cursor bookmark = Keeps-reads _
  sync_pages-Serves (suc fuel) node addr cursor bookmark = Keeps-then _ _ (Keeps-request _) λ page.
      store_page-Serves _ node addr bookmark page page.entries (sync_pages-Serves fuel node addr)

  sync_peer-Serves :
      (fuel : ℕ) (node addr : Text) → Keeps Serves (sync_peer sum256 cfg peer fuel node addr)
  unfolding sync_peer
  sync_peer-Serves fuel node addr = Keeps-then _ _ (Keeps-request _) λ remote.
      Keeps-then _ _ (digest-Serves sum256) λ local.
        if_Keeps (local.digest == remote.digest)
          (Keeps-then _ _ Keeps-time_now λ now.
            Keeps-then _ _ (set_peer_seq-Serves node addr remote.head now) λ _. Keeps-reads _)
          (Keeps-then _ _ (peer_seq-Serves node) λ since.
            sync_pages-Serves fuel node addr (if ltz remote.head since then pos 0 else since)
              (if ltz remote.head since then pos 0 else since))

-- What can happen to a node: a write of its own, a pull from a peer at an address with fuel for the pages of its feed, or
-- a round of the janitor.
pub data Act : Type 0 where
  put_file_act : (path content : Text) (mode uid gid : ℕ) → Act
  put_dir_act : (path : Text) (mode uid gid : ℕ) → Act
  set_attr_act : (path : Text) (mode uid gid : ℕ) → Act
  delete_act : Text → Act
  sync_act : (fuel : ℕ) (node addr : Text) → Act
  collect_act : Act

module _ (sum256 : Text → Text) (cfg : Config) (peer : PeerClient) where
  pub run_act : Act → Service → Service
  run_act (put_file_act path content mode uid gid) s =
      (put_file sum256 cfg path content mode uid gid s).1
  run_act (put_dir_act path mode uid gid) s = (put_dir cfg path mode uid gid s).1
  run_act (set_attr_act path mode uid gid) s = (set_attr cfg path mode uid gid s).1
  run_act (delete_act path) s = (delete cfg path s).1
  run_act (sync_act fuel node addr) s = (sync_peer sum256 cfg peer fuel node addr s).1
  run_act collect_act s = (collect cfg s).1

  pub run_acts : List Act → Service → Service
  run_acts [] s = s
  run_acts (act ∷ acts) s = run_acts acts (run_act act s)

  run_act-Serves :
      (act : Act) (s : Service) → IsVerified sum256 peer → Serves s → Serves (run_act act s)
  unfolding run_act
  run_act-Serves (put_file_act path content mode uid gid) s v h =
      put_file-IsServable sum256 cfg path content mode uid gid s h
  run_act-Serves (put_dir_act path mode uid gid) s v h =
      put_dir-IsServable cfg path mode uid gid s h
  run_act-Serves (set_attr_act path mode uid gid) s v h =
      set_attr-IsServable cfg path mode uid gid s h
  run_act-Serves (delete_act path) s v h = delete-IsServable cfg path s h
  run_act-Serves (sync_act fuel node addr) s v h =
      (sync_peer-Serves sum256 cfg peer v fuel node addr).still s h
  run_act-Serves collect_act s v h = (collect-Serves cfg).still s h

  run_from-Serves :
      (acts : List Act) (s : Service) → IsVerified sum256 peer → Serves s → Serves (run_acts acts s)
  unfolding run_acts
  run_from-Serves [] s v h = h
  run_from-Serves (act ∷ acts) s v h =
      run_from-Serves acts (run_act act s) v (run_act-Serves act s v h)

  -- A node that starts with an empty store, whose database may fail any statements to come, then
  -- carries out any writes, pulls and collections in any order, failed ones included: whatever the
  -- peers answer, as long as the blobs that they hand over have been checked against their hashes,
  -- every live file with a hash has its blob in the store.
  pub run_acts-Serves :
      (acts : List Act) (faults : List Bool) (now : ℕ → ℤ)
      → IsVerified sum256 peer
      → Serves (run_acts acts (new_service (record empty_db { faults = faults }) now))
  unfolding new_service
  run_acts-Serves acts faults now v = run_from-Serves acts _ v tt
