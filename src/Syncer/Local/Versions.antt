-- ===== src/Syncer/Local/Versions.antt =====
-- PutFile of internal/syncer/syncer.go: the versions of the entry before and after a write.
use distributed_configs_fs.Base.{
  ℕ, ◌≡◌, refl, ap, ◌≢◌, ◌⊎◌, inl, inr, Bool, true, ℤ, pos, ◌<ℤ◌, int_eq, Text, List, arith,
  text_eq,
}
use distributed_configs_fs.Core.Error.{Result, ok}
use distributed_configs_fs.Core.Entry.{Timestamp, Version, compare_time, after}
use distributed_configs_fs.Core.Clock.{tick, new_clock}
use distributed_configs_fs.Core.Clock.Advance.{HasRoom, tick_advances}
use distributed_configs_fs.Store.State.{Db, row_of, meta}
use distributed_configs_fs.Syncer.State.{Config, Service, new_service}
use distributed_configs_fs.Syncer.Local.{put_file}
use distributed_configs_fs.Syncer.Local.Ends.{
  current_at, FileEnd, failed, unchanged, half, stored, put_file-FileEnd,
}
use distributed_configs_fs.Syncer.Local.Writes.{
  HoldsFile, held_file, put_file-accepts, final, row_of_final,
}

later_than_earlier :
    (a b c : Timestamp)
    → compare_time a b ≡ pos 1
    → compare_time c b ≢ pos 1
    → compare_time a c ≡ pos 1
unfolding compare_time
later_than_earlier a b c h k = ground arith

after_of_later : (u v : Version) → compare_time u.hlc v.hlc ≡ pos 1 → after u v ≡ true
unfolding after int_eq
after_of_later u v h = rw h

module _ (sum256 : Text → Text) (cfg : Config) (path content : Text) (mode uid gid : ℕ)
    (s : Service) where
  -- What a write stores has the reading that the clock returned.
  final_entry :
      (fs gs : List Bool)
      → let t = final sum256 cfg path content mode uid gid s fs gs in
        (current_at path t).0.version ≡ record { hlc = (tick s.clock).0; origin = cfg.node }
  unfolding row_of meta
  final_entry fs gs =
      rw (row_of_final sum256 cfg path content mode uid gid s fs gs path) (ground arith)

  -- The entry at the path is as before, or of a version that wins over the one before.
  abbrev Supersedes : Service → Type 0
  Supersedes t =
      ((current_at path t).0 ≡ (current_at path s).0)
      ⊎ (after (current_at path t).0.version (current_at path s).0.version ≡ true)

  end-Supersedes :
      (end : Result (Unit {0}) × Service)
      → HasRoom s.clock.last
      → compare_time (current_at path s).0.version.hlc s.clock.last ≢ pos 1
      → FileEnd sum256 cfg path content mode uid gid s end
      → Supersedes end.1
  end-Supersedes end room known (failed fs e) = rw e (inl refl)
  end-Supersedes end room known (half fs gs e) = rw e (inl refl)
  end-Supersedes end room known (unchanged fs held e) = rw e (inl refl)
  end-Supersedes end room known (stored fs gs e) =
      let t : Service = final sum256 cfg path content mode uid gid s fs gs in
      let later : compare_time (tick s.clock).0 (current_at path s).0.version.hlc ≡ pos 1 =
        later_than_earlier (tick s.clock).0 s.clock.last _ (tick_advances s.clock room) known in
      let wins : after (current_at path t).0.version (current_at path s).0.version ≡ true =
        rw (final_entry fs gs) (after_of_later _ _ later) in
      rw e (inr wins)

-- Where the stored version is not ahead of the clock's last reading and the counter is not about to
-- wrap, a local write that succeeds leaves the entry as it was or replaces it by one that wins over
-- it.
pub put_file_supersedes :
    (sum256 : Text → Text) (cfg : Config) (path content : Text) (mode uid gid : ℕ) (s : Service)
    → (put_file sum256 cfg path content mode uid gid s).0 ≡ ok tt
    → HasRoom s.clock.last
    → compare_time (current_at path s).0.version.hlc s.clock.last ≢ pos 1
    → let t = (put_file sum256 cfg path content mode uid gid s).1 in
      ((current_at path t).0 ≡ (current_at path s).0)
      ⊎ (after (current_at path t).0.version (current_at path s).0.version ≡ true)
put_file_supersedes sum256 cfg path content mode uid gid s h room known =
    let (clean, small) = put_file-accepts sum256 cfg path content mode uid gid s h in
    end-Supersedes sum256 cfg path content mode uid gid s _ room known
      (put_file-FileEnd sum256 cfg path content mode uid gid s clean small)

tick_of_new :
    (now : ℕ → ℤ) → pos 0 <ℤ now 0 → (tick (new_clock now)).0 ≡ record { wall = now 0; counter = 0 }
unfolding tick new_clock
tick_of_new now h = ground arith

behind :
    (t : Timestamp) (origin : Text) (v : Version)
    → t.wall <ℤ v.hlc.wall
    → after v (record { hlc = t; origin = origin }) ≡ true
unfolding after int_eq
behind t origin v h = ground arith

end-regress :
    (sum256 : Text → Text) (cfg : Config) (path content : Text) (mode uid gid : ℕ) (db : Db)
    (now : ℕ → ℤ) (end : Result (Unit {0}) × Service)
    → let s = new_service db now in
      pos 0 <ℤ now 0
      → now 0 <ℤ (current_at path s).0.version.hlc.wall
      → (HoldsFile sum256 path content mode uid gid s → ⊥)
      → FileEnd sum256 cfg path content mode uid gid s end
      → end.0 ≡ ok tt
      → after (current_at path s).0.version (current_at path end.1).0.version ≡ true
unfolding new_service
end-regress sum256 cfg path content mode uid gid db now end p ahead differs (failed fs e) h =
    cc (ap (λ r. r.0) e)
end-regress sum256 cfg path content mode uid gid db now end p ahead differs (half fs gs e) h =
    cc (ap (λ r. r.0) e)
end-regress sum256 cfg path content mode uid gid db now end p ahead differs (unchanged fs held e)
      h =
    absurd (differs (held_file _ _ _ _ _ _ held))
end-regress sum256 cfg path content mode uid gid db now end p ahead differs (stored fs gs e) h =
    let s : Service = new_service db now in
    rw e (
      rw (final_entry sum256 cfg path content mode uid gid s fs gs, tick_of_new now p)
        (behind (record { wall = now 0; counter = 0 }) cfg.node (current_at path s).0.version
          ahead))

-- The clock of a node that has just been started knows nothing of the stored versions: if the
-- version of an entry is ahead of the physical clock, a local write that changes this entry and
-- succeeds stores a version that loses to the one it has replaced.
pub put_file-after_restart :
    (sum256 : Text → Text) (cfg : Config) (path content : Text) (mode uid gid : ℕ) (db : Db)
    (now : ℕ → ℤ)
    → let s = new_service db now in
      let end = put_file sum256 cfg path content mode uid gid s in
      end.0 ≡ ok tt
      → pos 0 <ℤ now 0
      → now 0 <ℤ (current_at path s).0.version.hlc.wall
      → (HoldsFile sum256 path content mode uid gid s → ⊥)
      → after (current_at path s).0.version (current_at path end.1).0.version ≡ true
put_file-after_restart sum256 cfg path content mode uid gid db now h p ahead differs =
    let s : Service = new_service db now in
    let (clean, small) = put_file-accepts sum256 cfg path content mode uid gid s h in
    end-regress sum256 cfg path content mode uid gid db now _ p ahead differs
      (put_file-FileEnd sum256 cfg path content mode uid gid s clean small) h
