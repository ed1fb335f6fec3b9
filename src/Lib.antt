-- ===== src/Lib.antt =====
-- A model of distributed-configs-fs: a directory of configuration files that every node of a
-- cluster holds in full. Each node may write at any time; nodes pull each other's changes and let
-- the last writer win.
--
-- The parts, and how they meet. internal/fusefs mounts the tree: its nodes and handles turn calls
-- of the kernel into PutFile, PutDir, SetAttr and Delete of internal/syncer. The syncer is the only
-- writer of internal/store, a SQLite database of entries, blobs and peers: it stamps each write with
-- the hybrid logical clock of internal/core, stores it, wakes the subscribers and gossips the new
-- position of the changes feed. A peer that hears of it pulls: internal/transport carries the digest
-- of the tree, the pages of the feed and the blobs, signed and sealed. What is pulled goes through
-- the checks and the resolution of conflicts in the syncer, its content before its metadata.
-- internal/cluster brings the events of gossip that start a pull. internal/mirror keeps a plain
-- directory in step with the tree in both directions: it renders the tree to disk and promotes what
-- changes on disk into the tree.
--
-- Base: the libraries' names, integers (an int64 is a value of ℤ, brought back by wrap64 where a
--   sum may overflow), strings of Go as lists of bytes, Boolean tests.
-- Effect: methods that change an object and may fail; what was changed before an error stays.
-- Core.Error: the errors that the code tells apart.
-- Core.Entry, Core.Order: internal/core/entry.go and the types of hlc.go: Meta, Version, After.
-- Core.Clock: internal/core/hlc.go: Now is tick, Observe is observe. The physical clock is a
--   function from the number of the reading. A uint32 counter wraps.
-- Core.Paths: internal/core/path.go, with path.Clean and path.Base written out.
-- Store: internal/store/store.go: Store.Table has the statements of SQL over lists of rows,
--   Store.State the tables, Store.Ops one function for each method. A list of outcomes says which
--   of the statements to come the database fails; a transaction that fails is rolled back.
-- Syncer.State, Syncer.Local: internal/syncer/syncer.go. Syncer.Resolve: resolve.go. Syncer.Pull:
--   antientropy.go: applyRemote is apply_remote, one round of its loop apply_entry; syncPeer is
--   sync_peer, with fuel for the number of pages that are asked for: the loop of the code has no
--   bound of its own and ends when a page is empty or the peer says that there is no more.
--   The peer's answers are a parameter, indexed by the number of the request. Syncer.Reachable puts
--   these operations together in any order.
-- Transport: internal/transport: Auth, Envelope, Server and Client are auth.go, envelope.go,
--   server.go and client.go; Number has parseSeq of status.go. HMAC, AES-GCM, SHA-256 and the
--   network are parameters; IsAead says what is relied on of AES-GCM.
-- Fuse: internal/fusefs/fusefs.go: Fuse.Nodes and Fuse.Changes have the operations on nodes, a node
--   being its path; Fuse.Handles has those on open files.
-- Mirror: internal/mirror. Mirror.Disk is the directory behind os.Root: nodes by path, and a list
--   of outcomes that says which of the system calls to come fail, a failing write after as many
--   bytes as it says. Mirror.Write is writeAtomic, Mirror.Render is render and what it calls,
--   Mirror.Scan is scan and promote, Mirror.Walk is walk, Mirror.Watch is watch.go: the pump turns
--   what fsnotify reports into batches, applyEvents is apply_events. Mirror.State holds the
--   directory, the syncer as its Tree and the claims of Mirror.inflight. Mirror.Loop is Run: the run
--   loop, the pump, the user of the directory and the syncer as steps in any order.
-- Cluster: internal/cluster/cluster.go: the channel of events with room for 256, the hints and the
--   calls of memberlist, what these carry being a parameter of the call.
-- Syncer.Loop: Run of internal/syncer/antientropy.go: an event, a tick or the end of a pull is a step;
--   the pulls in flight are listed beside the service.
-- Tests: runs at concrete inputs.
--
-- A method of the syncer that holds the lock is one step, and so is a pull and one round of the
-- mirror's run loop. In the directory a link is followed at the end of a path by the calls that
-- follow links, and not in the middle of one; new files get the mode that is asked for as with a
-- umask of 0, and a walk lists a directory at one moment. What
-- is not modelled: the start of memberlist and the bytes that it gossips, the set of directories that
-- the mirror watches, the time of the last pull for the status page, key derivation, opening and
-- migrating the database, JSON, HTTP routing, logging, cancellation, the process in cmd/dcfs.
pub mod Base
pub mod Core
pub mod Effect
pub mod Store
pub mod Syncer
pub mod Transport
pub mod Fuse
pub mod Mirror
pub mod Cluster
pub mod Tests
