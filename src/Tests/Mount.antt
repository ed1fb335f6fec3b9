-- ===== src/Tests/Mount.antt =====
-- A handle of the mount over the node of the other tests.
use distributed_configs_fs.Base.{
  ◌+◌, max, ◌≡◌, ◌≢◌, ◌⊎◌, ◌↔◌, List, [], ◌∷◌, refl, true, pos, codes, length, drop, take, ◌++◌,
  ◌-◌, arith,
}
use distributed_configs_fs.Syncer.Local.Writes.{HoldsFile}
use distributed_configs_fs.Fuse.State.{done}
use distributed_configs_fs.Fuse.Handles.{WriteHandle, write, read_buffer, flush}
use distributed_configs_fs.Fuse.Handles.Buffer.{zeros, write-read, flush_outcome}
use distributed_configs_fs.Core.Entry.{Meta, zero_meta}
use distributed_configs_fs.Fuse.Nodes.{direct_children}
use distributed_configs_fs.Fuse.Nodes.Listing.{Lists, HasChild, direct_children_exact}
use distributed_configs_fs.Tests.Node.{cfg, sum, fresh, a_path}

abbrev handle : WriteHandle
handle = record { path = a_path; buf = codes "hello"; mode = 420; uid = 0; gid = 0; dirty = true }

-- The write begins in the buffer and ends past it.
write-read_example :
    let r = write cfg (codes "p me!") 3 handle in
    (r.0 ≡ done 5)
    × (r.1.dirty ≡ true)
    × (read_buffer r.1 5 (pos 3) ≡ codes "p me!")
    × (take 3 r.1.buf ≡ take 3 handle.buf ++ zeros (3 - length handle.buf))
    × (drop (3 + 5) r.1.buf ≡ drop (3 + 5) handle.buf)
    × (length r.1.buf ≡ max (length handle.buf) (3 + 5))
write-read_example = write-read cfg (codes "p me!") 3 handle (omega arith) (omega arith) refl

flush_outcome_example :
    let (reply, g, t) = flush sum cfg handle fresh in
    ((reply ≡ done tt)
      × (flush sum cfg g t ≡ (done tt, g, t))
      × HoldsFile sum handle.path handle.buf handle.mode handle.uid handle.gid t)
    ⊎ ((reply ≢ done tt) × (g ≡ handle) × (t.db.entries ≡ fresh.db.entries))
flush_outcome_example = flush_outcome sum cfg handle fresh refl

abbrev tree : List Meta
tree =
    record zero_meta { path = codes "etc" }
    ∷ record zero_meta { path = codes "etc/app" }
    ∷ record zero_meta { path = codes "etc/app/conf" }
    ∷ []

direct_children_exact_example :
    Lists (codes "app") (direct_children (codes "etc/") tree)
    ↔ HasChild (codes "etc/") (codes "app") tree
direct_children_exact_example = direct_children_exact (codes "etc/") (codes "app") tree
