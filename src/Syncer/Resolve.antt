-- ===== src/Syncer/Resolve.antt =====
-- internal/syncer/resolve.go: the fate of a remote entry against the local one.
pub mod Exact
pub mod Converge
use distributed_configs_fs.Base.{Bool, true, false, not, ◌==◌, text_eq, [], if◌then◌else◌}
use distributed_configs_fs.Core.Entry.{Meta, after, equal}

pub data Decision : Type 0 where
  skip accept conflict : Decision

-- The switch of `resolve`: the remote write wins; does the local content deserve preserving?
pub preserve : Meta → Meta → Decision
preserve local remote =
    if local.deleted
    then accept
    else if local.hash == []
    then accept
    else if remote.prev_hash == local.hash
    then accept
    else if remote.hash == local.hash
    then accept
    else conflict

unfoldable pub resolve : Meta → Bool → Meta → Decision
unfolding preserve
resolve local have remote =
    if not have
    then accept
    else if equal local.version remote.version
    then skip
    else if after local.version remote.version
    then skip
    else preserve local remote
