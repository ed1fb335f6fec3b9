-- ===== src/Mirror/Loop/Keeps.antt =====
-- internal/mirror: what its steps keep true of the tree, if the calls of the tree that they make
-- keep it true.
use distributed_configs_fs.Base.{
  ℕ, ltz, ◌||◌, Bool, true, false, Text, List, [], ◌∷◌, if◌then◌else◌, ◌==◌, nat_eq,
}
use distributed_configs_fs.Core.Error.{Result, ok, err, not_exist}
use distributed_configs_fs.Core.Entry.{Meta, kind_dir, kind_file}
use distributed_configs_fs.Effect.{Exec}
use distributed_configs_fs.Effect.Keeps.{Keeps, Keeps-reads, Keeps-modify, Keeps-then}
use distributed_configs_fs.Store.Ops.{get, live, blob}
use distributed_configs_fs.Syncer.State.{Config, on_db}
use distributed_configs_fs.Syncer.Local.{put_file, put_dir, delete}
use distributed_configs_fs.Mirror.Disk.{Inode, Disk, remove, read_file, is_dir, is_regular}
use distributed_configs_fs.Mirror.State.{
  Mirror, on_disk, on_tree, result_of, logged, stored, live_entries,
}
use distributed_configs_fs.Mirror.Render.{
  apply_meta, after_chown, render_dir, write_file, render_file, render_entry, render_entries,
  is_doomed, find_doomed, remove_paths, remove_tombstoned, render,
}
use distributed_configs_fs.Mirror.Scan.{
  size_of, perm, offer_file, offer, promote_info, promote, promote_all, scan, delete_local,
}
use distributed_configs_fs.Mirror.Watch.{
  Event, apply_changed, apply_removed, apply_event, apply_all,
}

module _ (P : Mirror → Type 0) where
  -- What changes of the directory, a failed chown and the calls that only read the tree keep.
  pub record ReadsKeep : Type 0 where
    pub moved : (m : Mirror) (d : Disk) → P m → P (record m { disk = d })
    pub downgraded : (m : Mirror) → P m → P (record m { can_chown = false; warned_chown = true })
    pub got : (p : Text) → Keeps P (on_tree (on_db (get p)))
    pub listed : Keeps P (on_tree (on_db live))
    pub loaded : (hash : Text) → Keeps P (on_tree (on_db (blob hash)))

  pub result_of-Keeps : {A : Type 0} (m : Exec Mirror A) → Keeps P m → Keeps P (result_of m)
  result_of-Keeps m k = record { still = λ s h. k.still s h }

  pub logged-Keeps : {A : Type 0} (m : Exec Mirror A) → Keeps P m → Keeps P (logged m)
  logged-Keeps m k = record { still = λ s h. k.still s h }

  pub if_Keeps :
      {A : Type 0} (b : Bool) (m n : Exec Mirror A)
      → Keeps P m
      → Keeps P n
      → Keeps P (if b then m else n)
  if_Keeps true m n k l = k
  if_Keeps false m n k l = l

  module _ (r : ReadsKeep) where
    on_disk-Keeps : {A : Type 0} (m : Exec Disk A) → Keeps P (on_disk m)
    on_disk-Keeps m = record { still = λ s h. r.moved s (m s.disk).1 h }

    stored-Keeps : (p : Text) → Keeps P (stored p)
    unfolding stored
    stored-Keeps p = record { still = λ s h. (r.got p).still s h }

    apply_meta-Keeps : (e : Meta) → Keeps P (apply_meta e)
    unfolding apply_meta
    apply_meta-Keeps e = Keeps-then _ _ (on_disk-Keeps _) λ u. Keeps-then _ _ (Keeps-reads _) λ can.
        Keeps-then _ _ (if_Keeps can _ _ (result_of-Keeps _ (on_disk-Keeps _)) (Keeps-reads _))
          λ c. Keeps-modify _ (chown-Keeps c)
      where
        chown-Keeps : (c : Result (Unit {0})) (m : Mirror) → P m → P (after_chown c m)
        chown-Keeps (ok u) m h = h
        chown-Keeps (err x) m h = r.downgraded m h

    write_file-Keeps : (e : Meta) → Keeps P (write_file e)
    unfolding write_file
    write_file-Keeps e =
        Keeps-then _ _ (r.loaded e.hash)
          λ c. Keeps-then _ _ (on_disk-Keeps _) λ u. apply_meta-Keeps e

    render_file-Keeps : (sum256 : Text → Text) (e : Meta) → Keeps P (render_file sum256 e)
    unfolding render_file
    render_file-Keeps sum256 e = Keeps-then _ _ (result_of-Keeps _ (on_disk-Keeps _)) λ local.
        if_Keeps _ _ _ (apply_meta-Keeps e) (Keeps-then _ _ (Keeps-reads _) λ u. write_file-Keeps e)

    render_dir-Keeps : (e : Meta) → Keeps P (render_dir e)
    unfolding render_dir
    render_dir-Keeps e = Keeps-then _ _ (on_disk-Keeps _) λ u. apply_meta-Keeps e

    render_entry-Keeps : (sum256 : Text → Text) (e : Meta) → Keeps P (render_entry sum256 e)
    unfolding render_entry
    render_entry-Keeps sum256 e = Keeps-then _ _ (Keeps-reads _) λ busy.
        if_Keeps busy _ _ (Keeps-reads _) (
          if_Keeps (e.kind == kind_dir) _ _ (logged-Keeps _ (render_dir-Keeps e)) (
            if_Keeps (e.kind == kind_file) _ _ (logged-Keeps _ (render_file-Keeps sum256 e))
              (Keeps-reads (λ m. ok tt))))

    render_entries-Keeps :
        (sum256 : Text → Text) (es : List Meta) → Keeps P (render_entries sum256 es)
    unfolding render_entries
    render_entries-Keeps sum256 [] = Keeps-reads _
    render_entries-Keeps sum256 (e ∷ es) =
        Keeps-then _ _ (render_entry-Keeps sum256 e) λ u. render_entries-Keeps sum256 es

    is_doomed-Keeps : (keep : List Text) (p : Text) → Keeps P (is_doomed keep p)
    unfolding is_doomed
    is_doomed-Keeps keep p = Keeps-then _ _ (Keeps-reads _) λ busy.
        if_Keeps busy _ _ (Keeps-reads _) (Keeps-then _ _ (stored-Keeps p) λ x. Keeps-reads _)

    find_doomed-Keeps : (keep : List Text) (ns : List Inode) → Keeps P (find_doomed keep ns)
    unfolding find_doomed
    find_doomed-Keeps keep [] = Keeps-reads _
    find_doomed-Keeps keep (n ∷ ns) =
        Keeps-then _ _ (is_doomed-Keeps keep n.path)
          λ b. Keeps-then _ _ (find_doomed-Keeps keep ns) λ ps. Keeps-reads _

    remove_paths-Keeps : (ps : List Text) → Keeps P (remove_paths ps)
    unfolding remove_paths
    remove_paths-Keeps [] = Keeps-reads _
    remove_paths-Keeps (p ∷ ps) =
        Keeps-then _ _ (logged-Keeps _ (on_disk-Keeps (remove p))) λ u. remove_paths-Keeps ps

    pub render-Keeps : (sum256 : Text → Text) → Keeps P (render sum256)
    unfolding render remove_tombstoned live_entries
    render-Keeps sum256 = Keeps-then _ _ r.listed λ es.
        Keeps-then _ _ (render_entries-Keeps sum256 _) λ u. Keeps-then _ _ r.listed λ live.
          Keeps-then _ _ (Keeps-reads _)
            λ ns. Keeps-then _ _ (find_doomed-Keeps _ ns) λ ps. remove_paths-Keeps _

    -- What the writes of a promotion keep.
    pub record WritesKeep (sum256 : Text → Text) (cfg : Config) : Type 0 where
      pub filed :
          (p content : Text) (mode uid gid : ℕ)
          → Keeps P (on_tree (put_file sum256 cfg p content mode uid gid))
      pub made : (p : Text) (mode uid gid : ℕ) → Keeps P (on_tree (put_dir cfg p mode uid gid))

    module _ (sum256 : Text → Text) (cfg : Config) (w : WritesKeep sum256 cfg) where
      offer_file-Keeps :
          (p : Text) (info : Inode) (uid gid : ℕ) → Keeps P (offer_file sum256 cfg p info uid gid)
      unfolding offer_file
      offer_file-Keeps p info uid gid =
          if_Keeps (ltz cfg.max_file_size (size_of info)) _ _ (Keeps-reads (λ s. ok tt)) (
            Keeps-then _ _ (on_disk-Keeps (read_file p))
              λ content. w.filed p content (perm info.mode) uid gid)

      offer-Keeps :
          (p : Text) (as_dir : Bool) (info : Inode) (owner : ℕ × ℕ)
          → Keeps P (offer sum256 cfg p as_dir info owner)
      unfolding offer
      offer-Keeps p as_dir info (uid, gid) =
          if_Keeps as_dir _ _ (w.made p (perm info.mode) uid gid) (offer_file-Keeps p info uid gid)

      pub promote-Keeps : (p : Text) (as_dir : Bool) → Keeps P (promote sum256 cfg p as_dir)
      unfolding promote promote_info
      promote-Keeps p as_dir = logged-Keeps _ (
          Keeps-then _ _ (on_disk-Keeps _) λ info. Keeps-then _ _ (stored-Keeps p) λ x.
            Keeps-then _ _ (Keeps-reads _)
              λ can. if_Keeps _ _ _ (offer-Keeps p as_dir info _) (Keeps-reads (λ s. ok tt)))

      promote_all-Keeps : (ns : List Inode) → Keeps P (promote_all sum256 cfg ns)
      unfolding promote_all
      promote_all-Keeps [] = Keeps-reads _
      promote_all-Keeps (n ∷ ns) = Keeps-then _ _ (promote-Keeps n.path _) λ u. promote_all-Keeps ns

      pub scan-Keeps : Keeps P (scan sum256 cfg)
      unfolding scan
      scan-Keeps = Keeps-then _ _ (Keeps-reads _) λ ns. promote_all-Keeps ns

      -- What a removal keeps.
      module _ (d : (p : Text) → Keeps P (on_tree (delete cfg p))) where
        delete_local-Keeps : (p : Text) → Keeps P (delete_local cfg p)
        unfolding delete_local
        delete_local-Keeps p = logged-Keeps _ (d p)

        apply_changed-Keeps :
            (p : Text) (info : Result Inode) → Keeps P (apply_changed sum256 cfg p info)
        unfolding apply_changed
        apply_changed-Keeps p (ok info) =
            if_Keeps (is_dir info.kind || is_regular info.kind) _ _
              (promote-Keeps p (is_dir info.kind)) (Keeps-reads (λ s. ok tt))
        apply_changed-Keeps p (err not_exist) = delete_local-Keeps p
        apply_changed-Keeps p (err e) = Keeps-reads _

        apply_removed-Keeps :
            (p : Text) (info : Result Inode) → Keeps P (apply_removed sum256 cfg p info)
        unfolding apply_removed
        apply_removed-Keeps p (ok info) = promote-Keeps p false
        apply_removed-Keeps p (err e) = delete_local-Keeps p

        apply_event-Keeps : (ev : Event) → Keeps P (apply_event sum256 cfg ev)
        unfolding apply_event
        apply_event-Keeps ev = Keeps-then _ _ (result_of-Keeps _ (on_disk-Keeps _)) λ info.
            if_Keeps ev.removed _ _ (apply_removed-Keeps ev.path info)
              (apply_changed-Keeps ev.path info)

        pub apply_all-Keeps : (evs : List Event) → Keeps P (apply_all sum256 cfg evs)
        unfolding apply_all
        apply_all-Keeps [] = Keeps-reads _
        apply_all-Keeps (ev ∷ evs) = Keeps-then _ _ (apply_event-Keeps ev) λ u. apply_all-Keeps evs
