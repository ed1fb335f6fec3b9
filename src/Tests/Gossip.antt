-- ===== src/Tests/Gossip.antt =====
-- Gossip, pulls in flight, a pull from an honest peer, and a signed request.
use distributed_configs_fs.Base.{
  ◌≡◌, refl, ◌≢◌, false, pos, Text, codes, text_eq, int_eq, List, [], ◌∷◌, none, some, arith,
  if◌then◌else◌,
}
use distributed_configs_fs.Core.Error.{ok, err, network}
use distributed_configs_fs.Store.State.{EntryRow, empty_db}
use distributed_configs_fs.Store.Table.{take_row}
use distributed_configs_fs.Store.Table.Keys.{UniqueKeys}
use distributed_configs_fs.Syncer.State.{PeerClient, new_service}
use distributed_configs_fs.Syncer.Pull.{sync_peer}
use distributed_configs_fs.Syncer.Pull.Terminates.{received, sync_peer_terminates}
use distributed_configs_fs.Syncer.Loop.{event_step, sync_step, pull_step, Step, sync_rounds}
use distributed_configs_fs.Syncer.Loop.Single.{IsSingle, sync_rounds-IsSingle}
use distributed_configs_fs.Cluster.{hint_event, join_event, Hint, PeerNode, new_cluster}
use distributed_configs_fs.Cluster.Queue.{
  Call, msg_call, join_call, take_call, run_calls, IsSound, run_calls-IsSound,
}
use distributed_configs_fs.Transport.Server.{manifest_page, max_manifest_page}
use distributed_configs_fs.Transport.Auth.{authorize, verify}
use distributed_configs_fs.Transport.Auth.Credential.{is_skewed, verify-authorize}
use distributed_configs_fs.Tests.Node.{cfg, sum, fresh, counting}
use distributed_configs_fs.Tests.Mirror.{a_db}

abbrev beta : PeerNode
beta = record { name = codes "beta"; api = some (codes "beta:7947") }

abbrev a_hint : Hint
a_hint = record { node = codes "beta"; addr = codes "beta:7947"; seq = pos 4 }

abbrev some_calls : List Call
some_calls = join_call beta ∷ msg_call (some a_hint) ∷ msg_call none ∷ take_call ∷ []

run_calls-IsSound_example :
    IsSound
      (codes "alpha")
      (run_calls some_calls (new_cluster (codes "alpha") (codes "alpha:7947")))
run_calls-IsSound_example = run_calls-IsSound (codes "alpha") (codes "alpha:7947") some_calls

-- A peer that serves the tables of another test, without blobs.
abbrev honest : PeerClient
honest = record {
  digest = λ n addr. err network;
  manifest = λ n addr since. received (manifest_page max_manifest_page since a_db).0;
  blob = λ n addr hash. err network;
}

abbrev some_rounds : List Step
some_rounds =
    event_step (record { kind = hint_event; node = codes "beta"; addr = codes "b:1"; seq = pos 4 })
    ∷ event_step
        (record { kind = join_event; node = codes "beta"; addr = codes "b:2"; seq = pos 0 })
    ∷ pull_step (codes "beta")
    ∷ sync_step (record { node = codes "beta"; addr = codes "b:1"; is_self = false } ∷ [])
    ∷ []

sync_rounds-IsSingle_example : IsSingle cfg.node (
    sync_rounds sum cfg honest 9 some_rounds
      (record { service = new_service empty_db counting; pulls = []; last_error = none }))
sync_rounds-IsSingle_example = sync_rounds-IsSingle cfg sum honest 9 some_rounds empty_db counting

one_position : UniqueKeys (λ (r : EntryRow). r.seq) a_db.entries
unfolding take_row
one_position = (refl, tt)

sync_peer_terminates_example :
    (sync_peer sum cfg honest 2 (codes "beta") (codes "b:1") fresh).0 ≢ ok false
sync_peer_terminates_example =
    sync_peer_terminates sum cfg honest (codes "beta") (codes "b:1") a_db 2 fresh (λ n since. refl)
      refl one_position (omega arith)

abbrev a_mac : Text → Text → Text
a_mac key message = codes "s"

verify-authorize_example :
    verify a_mac (codes "k") (pos 7) (record {
      method = codes "GET";
      uri = codes "/v1/digest";
      authorization =
          authorize a_mac
            (codes "k")
            (codes "GET")
            (codes "/v1/digest")
            (codes "n")
            (pos 7)
            (1 ∷ 2 ∷ []);
    })
    ≡ (if is_skewed (pos 7) (pos 7) then none else some (codes "n"))
verify-authorize_example =
    verify-authorize a_mac (codes "k") (codes "GET") (codes "/v1/digest") (codes "n") (1 ∷ 2 ∷ []) 7
      (pos 7) ((λ e. omega arith), tt) (λ e. cc) (λ e. cc) (omega arith)
      (λ k m. ((λ e. omega arith), tt))
