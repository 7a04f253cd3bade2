-- ===== src/Registry/Examples.antt =====
-- Concrete runs of agent_peer/registry.py: a directory of two peers, one stale and dead.
use hermes_walkie_talkie.Prelude.{
  String, ◌≡◌, refl, ◌⊎◌, inl, inr, Bool, true, false, Option, none, some, List, [], ◌∷◌, arith,
  str_eq, if◌then◌else◌, All,
}
use hermes_walkie_talkie.Table.{first_where}
use hermes_walkie_talkie.Errors.{Result, ok}
use hermes_walkie_talkie.Models.{ℤ, pos}
use hermes_walkie_talkie.Models.Peers.{PeerRecord, peer_record}
use hermes_walkie_talkie.Models.Presences
use hermes_walkie_talkie.Models.Uuid.{require_uuid, uuid_match}
use hermes_walkie_talkie.Registry.{
  read_path, read_entry, construct, readable, read_all, replace_file, File, Json, Moment, aware,
  is_named, registry_file_for, read_file, written, Authority, authority_of, same_authority,
  register, get, seen_recently, answers, prune, stale_candidates, stale_of, list_peers, recent,
}
use hermes_walkie_talkie.Registry.Calls.{FencedCall, removes, run}
use hermes_walkie_talkie.Registry.Invariant.{IsRegistry, IsRoundTrip, register-IsRegistry}
use hermes_walkie_talkie.Registry.Fence.{run_foreign}
use hermes_walkie_talkie.Registry.Identity.{
  Update, presences, beats, KeepsIdentity, run_updates, run_updates_identity, get-register_same,
}
use hermes_walkie_talkie.Registry.Pruning.{prune-keeps, prune-settles}

-- A record as its own JSON text.
abbrev pub json : Json PeerRecord
json = record { dumps = λ r. r; loads = λ r. some r; size = λ r. 700 }

pub json-IsRoundTrip : IsRoundTrip json
json-IsRoundTrip r = refl

abbrev pub first_id : String
first_id = "11111111-1111-4111-8111-111111111111"

abbrev pub second_id : String
second_id = "22222222-2222-4222-8222-222222222222"

abbrev pub peer : String → String → PeerRecord
peer id seen = record {
  peer_id = id;
  instance_id = "33333333-3333-4333-8333-333333333333";
  session_id = "s1";
  name = "alice";
  profile = "default";
  agent_id = "";
  protocols = "agent-peer/1" ∷ [];
  capabilities = [];
  surface = "cli";
  host_target = "";
  pid = pos 41;
  cwd = "/home";
  git_repo_root = "";
  git_branch = "";
  started_at = "t0";
  last_seen = seen;
  status = "idle";
  current_activity = "";
  socket_path = "/run/a.sock";
  socket_uid = pos 1000;
  socket_inode = pos 7;
  protocol = "agent-peer/1";
}

abbrev pub first_peer : PeerRecord
first_peer = peer first_id "old"

abbrev pub second_peer : PeerRecord
second_peer = peer second_id "new"

abbrev pub two_files : List (File PeerRecord)
two_files = register json "t1" second_peer (register json "t1" first_peer [])

empty-IsRegistry : IsRegistry json []
empty-IsRegistry = record { distinct = tt; filed = tt }

pub two_files-IsRegistry : IsRegistry json two_files
two_files-IsRegistry =
    register-IsRegistry json json-IsRoundTrip "t1" second_peer (register json "t1" first_peer [])
      (register-IsRegistry json json-IsRoundTrip "t1" first_peer [] empty-IsRegistry)

peer_valid : peer_record first_peer ≡ ok first_peer
unfolding peer_record require_uuid uuid_match Presences.of_value
peer_valid = refl

first_got : get json first_id two_files ≡ some first_peer
unfolding get read_path read_entry read_file construct readable peer_record require_uuid uuid_match
    Presences.of_value registry_file_for register replace_file written
first_got = refl

-- Another instance, which took over the socket.
abbrev other_authority : Authority
other_authority = record {
  instance_id = "44444444-4444-4444-8444-444444444444";
  socket_path = "/run/a.sock";
  socket_uid = pos 1000;
  socket_inode = pos 8;
}

other_differs : same_authority (authority_of first_peer) other_authority ≡ false
unfolding same_authority authority_of
other_differs = refl

abbrev foreign_calls : List FencedCall
foreign_calls = removes first_id other_authority ∷ removes second_id (authority_of second_peer) ∷ []

run_foreign_example :
    first_where (is_named (registry_file_for first_id)) (run json foreign_calls two_files)
    ≡ first_where (is_named (registry_file_for first_id)) two_files
run_foreign_example =
    run_foreign json first_id first_peer foreign_calls two_files json-IsRoundTrip
      two_files-IsRegistry first_got (inr other_differs, (inl refl, tt))

abbrev two_updates : List Update
two_updates =
    presences "t2" first_id Presences.working (some "note") none ∷ beats "t3" first_id none ∷ []

run_updates_identity_example :
    IsRegistry json (run_updates json two_updates two_files)
    × KeepsIdentity first_peer (get json first_id (run_updates json two_updates two_files))
run_updates_identity_example =
    run_updates_identity json first_id two_updates first_peer two_files json-IsRoundTrip
      two_files-IsRegistry first_got

get-register_same_example : get json first_id (register json "t1" first_peer []) ≡ some first_peer
unfolding written
get-register_same_example =
    get-register_same json "t1" first_peer [] json-IsRoundTrip peer_valid (ground arith)

abbrev parse : String → Option Moment
parse s = if str_eq s "old" then some (aware 0) else some (aware 90000000)

-- Only the process 41 answers, and only as another instance.
abbrev handshake : ℤ → String → Result Bool
handshake pid instance_id = ok (str_eq instance_id "55555555-5555-4555-8555-555555555555")

second_found :
    first_where (is_named (registry_file_for second_id)) two_files
    ≡ some (written json second_id second_peer)
unfolding register replace_file written registry_file_for
second_found = refl

second_read : read_file json (written json second_id second_peer) ≡ some second_peer
unfolding read_file construct readable peer_record require_uuid uuid_match Presences.of_value
    written
second_read = refl

second_fresh : seen_recently 100000000 (parse second_peer.last_seen) ≡ ok true
unfolding seen_recently recent
second_fresh = refl

prune-keeps_example :
    first_where
      (is_named (registry_file_for second_id))
      (prune json parse 100000000 (some handshake) two_files).1
    ≡ some (written json second_id second_peer)
unfolding written
prune-keeps_example =
    prune-keeps json parse handshake 100000000 two_files (written json second_id second_peer)
      second_peer two_files-IsRegistry second_found second_read (inl second_fresh)

stale_first : stale_candidates json parse 100000000 two_files ≡ ok (first_peer ∷ [])
unfolding stale_candidates stale_of list_peers seen_recently recent read_all read_file construct
    readable peer_record require_uuid uuid_match Presences.of_value registry_file_for register
    replace_file written
stale_first = refl

prune-settles_example :
    All
      (λ r.
        (answers handshake r ≡ true)
        ⊎ (get json r.peer_id (prune json parse 100000000 (some handshake) two_files).1 ≡ none))
      (first_peer ∷ [])
prune-settles_example =
    prune-settles json parse handshake 100000000 two_files (first_peer ∷ []) stale_first
