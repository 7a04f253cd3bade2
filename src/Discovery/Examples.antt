-- ===== src/Discovery/Examples.antt =====
-- Concrete runs of agent_peer/discovery.py.
use hermes_walkie_talkie.Prelude.{
  ◌⊎◌, ◌≡◌, refl, ◌↔◌, true, false, none, some, List, [], ◌∷◌, str_eq, All,
}
use hermes_walkie_talkie.Errors.{ok}
use hermes_walkie_talkie.Models.{envelope, peer_identity, check_hops, pos}
use hermes_walkie_talkie.Models.Kinds
use hermes_walkie_talkie.Models.Presences
use hermes_walkie_talkie.Models.ReceiptStates
use hermes_walkie_talkie.Models.Uuid.{uuid_match, require_uuid}
use hermes_walkie_talkie.Models.Peers.{PeerRecord, peer_record, make_envelope}
use hermes_walkie_talkie.Registry.{
  File, get, unregister, remove_file, read_path, read_entry, read_file, construct, readable,
  registry_file_for, register, replace_file, written, list_peers, read_all,
}
use hermes_walkie_talkie.Registry.Examples.{json, second_id, first_peer, second_peer, two_files}
use hermes_walkie_talkie.Runtime.Replies.{Answering, dispatch, reply, reply_alive, identity_of}
use hermes_walkie_talkie.Discovery.Records.{
  Paths, node, parse_record, check_record, check_contained, check_stat, check_node, same_record,
}
use hermes_walkie_talkie.Discovery.Probe.{
  Challenge, probe_once, cached_probe, discover_request, read_alive, read_claims, proves,
  probe_cached, probe_missed, remember,
}
use hermes_walkie_talkie.Discovery.Challenge.{claims_of, to_option}
use hermes_walkie_talkie.Discovery.Listing.{
  Service, View, list_live_peers, live_of, probe_listed, keep_live, snapshot, parse_all,
}
use hermes_walkie_talkie.Discovery.Live.{
  IsLive, IsSession, list_live_peers-IsLive, resolve_agent-IsSession,
}
use hermes_walkie_talkie.Discovery.Resolve.{
  found, resolve_name, pick_session, resolve_agent, probe_all,
}
use hermes_walkie_talkie.Discovery.Resolution.{meant, IsPick, resolve_name_iff, pick_session_iff}
use hermes_walkie_talkie.Discovery.Repair.{
  Observed, SocketStat, fenced_remove, remove_fenced, fence, fence_fresh, fence_inodes,
  challenge_dead, unlink_dead,
}
use hermes_walkie_talkie.Discovery.Repairs.{IsKept, IsRemoved, fenced_remove-IsRemoved}

abbrev answering : Answering
answering = record { new_id = second_id; now = 5; dumps = λ i. "identity" }

abbrev held : List PeerRecord
held = first_peer ∷ []

resolve_name_iff_example :
    (resolve_name (λ s. s) "alice~1111" (first_peer ∷ second_peer ∷ []) ≡ found first_peer)
    ↔ (meant "alice~1111" (first_peer ∷ second_peer ∷ []) ≡ first_peer ∷ [])
resolve_name_iff_example =
    resolve_name_iff (λ s. s) "alice~1111" (first_peer ∷ second_peer ∷ []) first_peer

pick_session_iff_example :
    (pick_session (some second_id) (first_peer ∷ second_peer ∷ []) ≡ ok second_peer)
    ↔ IsPick (some second_id) (first_peer ∷ second_peer ∷ []) second_peer
pick_session_iff_example =
    pick_session_iff (some second_id) (first_peer ∷ second_peer ∷ []) second_peer

-- The network with one supervisor, which holds `q`.
abbrev network : PeerRecord → Challenge
network q = record {
  nonce = "n";
  probe_id = second_id;
  now = 5;
  exchange = λ path e. to_option (dispatch answering (q ∷ []) [] e e.kind);
  loads = λ s. some (claims_of (identity_of "n" q));
}

abbrev paths : Paths
paths = record {
  contains = λ s. some true;
  socket_path_for = λ p i. "/run/a.sock";
  same_path = str_eq;
  lstat =
      λ s. node (record { is_socket = true; is_owner_only = true; uid = pos 1000; inode = pos 7 });
}

abbrev service : PeerRecord → Service PeerRecord
service q = record {
  json = json;
  paths = paths;
  challenge = network q;
  casefold = λ s. s;
  sep = "/";
}

abbrev view : View PeerRecord
view = record { snapshot = two_files; reread = two_files }

listed_eq : (list_live_peers (service first_peer) view [] []).0 ≡ ok (first_peer ∷ [])
unfolding list_live_peers live_of probe_listed keep_live snapshot parse_all parse_record
    check_record check_contained check_stat check_node same_record get read_path read_entry
    read_file construct readable peer_record require_uuid uuid_match Presences.of_value
    registry_file_for register replace_file written cached_probe probe_cached probe_missed remember
    probe_once discover_request read_alive read_claims proves envelope peer_identity check_hops
    Kinds.of_value Kinds.value dispatch reply_alive make_envelope identity_of reply
    ReceiptStates.value
listed_eq = refl

list_live_peers-IsLive_example : All (IsLive (service first_peer) view []) (first_peer ∷ [])
list_live_peers-IsLive_example =
    list_live_peers-IsLive (service first_peer) view [] [] (first_peer ∷ []) tt listed_eq

-- A session of an agent.
abbrev session : PeerRecord
session = record first_peer { agent_id = second_id }

abbrev session_files : List (File PeerRecord)
session_files = register json "t1" session []

resolved_eq :
    (resolve_agent (service session) second_id none (some second_id) session_files []).0
    ≡ ok session
unfolding resolve_agent probe_all pick_session list_peers read_all read_file construct readable
    peer_record require_uuid uuid_match Presences.of_value registry_file_for register replace_file
    written cached_probe probe_cached probe_missed remember probe_once discover_request read_alive
    read_claims proves envelope peer_identity check_hops Kinds.of_value Kinds.value dispatch
    reply_alive make_envelope identity_of reply ReceiptStates.value
resolved_eq = refl

resolve_agent-IsSession_example :
    IsSession (service session) second_id (some second_id) session_files session
resolve_agent-IsSession_example =
    resolve_agent-IsSession (service session) second_id none (some second_id) session_files []
      session tt resolved_eq

abbrev observed : Observed PeerRecord
observed = record {
  inode_before = some 3;
  inode_again = some 3;
  socket = SocketStat.absent;
  files = two_files;
  bound = false;
}

removed_eq : (fenced_remove (service first_peer) observed second_peer []).removed ≡ ok true
unfolding fenced_remove remove_fenced fence fence_fresh fence_inodes challenge_dead unlink_dead
    unregister remove_file get read_path read_entry read_file construct readable peer_record
    require_uuid uuid_match Presences.of_value registry_file_for register replace_file written
    cached_probe probe_cached probe_missed remember probe_once discover_request read_alive
    read_claims proves envelope peer_identity check_hops Kinds.of_value Kinds.value dispatch
    reply_alive make_envelope identity_of reply ReceiptStates.value
removed_eq = refl

fenced_remove-IsRemoved_example :
    IsKept
      (service first_peer)
      observed
      (fenced_remove (service first_peer) observed second_peer [])
    ⊎ IsRemoved
        (service first_peer)
        observed
        second_peer
        []
        (fenced_remove (service first_peer) observed second_peer [])
fenced_remove-IsRemoved_example =
    fenced_remove-IsRemoved (service first_peer) observed second_peer []
