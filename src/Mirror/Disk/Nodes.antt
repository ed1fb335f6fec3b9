-- ===== src/Mirror/Disk/Nodes.antt =====
-- What stands at a path after a node has been put or dropped.
use distributed_configs_fs.Base.{
  ◌≡◌, ◌≢◌, not, Text, text_eq, List, [], ◌∷◌, ◌==◌, none, some, if◌then◌else◌, arith,
}
use distributed_configs_fs.Store.Table.{select, take_row}
use distributed_configs_fs.Store.Table.Keys.{take_row-upsert}
use distributed_configs_fs.Mirror.Disk.{Inode, Disk, at_node, node_at, put_node, drop_node}

pub node_at-put_node :
    (q p : Text) (n : Inode) (d : Disk)
    → node_at q (put_node p n d) ≡ (if p == q then some (record n { path = p }) else node_at q d)
unfolding node_at put_node
node_at-put_node q p n d = take_row-upsert (λ (m : Inode). m.path) q (record n { path = p }) d.nodes

pub node_at-put_other :
    (q p : Text) (n : Inode) (d : Disk) → p ≢ q → node_at q (put_node p n d) ≡ node_at q d
node_at-put_other q p n d h = rw (node_at-put_node q p n d) (ground arith)

pub node_at-put_same :
    (p : Text) (n : Inode) (d : Disk) → node_at p (put_node p n d) ≡ some (record n { path = p })
node_at-put_same p n d = rw (node_at-put_node p p n d) (ground arith)

take_row-dropped :
    (q p : Text) (ns : List Inode)
    → take_row (at_node q) (select (λ n. not (n.path == p)) ns)
      ≡ (if p == q then none else take_row (at_node q) ns)
unfolding take_row select
take_row-dropped q p [] = ground arith
take_row-dropped q p (n ∷ ns) = ground (arith, take_row-dropped q p ns)

pub node_at-drop_node :
    (q p : Text) (d : Disk) → node_at q (drop_node p d) ≡ (if p == q then none else node_at q d)
unfolding node_at drop_node
node_at-drop_node q p d = take_row-dropped q p d.nodes

pub node_at-drop_other : (q p : Text) (d : Disk) → p ≢ q → node_at q (drop_node p d) ≡ node_at q d
node_at-drop_other q p d h = rw (node_at-drop_node q p d) (ground arith)
