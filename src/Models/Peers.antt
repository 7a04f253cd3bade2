-- ===== src/Models/Peers.antt =====
-- `PeerRecord`, `Surface` and `make_envelope` of agent_peer/models.py.
use hermes_walkie_talkie.Prelude.{
  ℕ, ◌+◌, ◌-◌, String, Bool, true, ◌&&◌, ◌||◌, Option, List, [], ◌∷◌, str_eq, if◌then◌else◌,
  or_else,
}
use hermes_walkie_talkie.Errors.{Result, ok, validation_error, ◌>>=◌, ◌>>◌, guard}
use hermes_walkie_talkie.Models.{
  ℤ, pos, negsuc, PeerIdentity, Envelope, envelope, protocol_id, protocol_id_v2,
}
use hermes_walkie_talkie.Models.Uuid.{require_uuid}
use hermes_walkie_talkie.Models.Kinds
use hermes_walkie_talkie.Models.Kinds.{Kind}
use hermes_walkie_talkie.Models.Presences

pub data Surface : Type 0 where
  cli tui gateway desktop : Surface

abbrev pub surface_value : Surface → String
surface_value cli = "cli"
surface_value tui = "tui"
surface_value gateway = "gateway"
surface_value desktop = "desktop"

-- An entry of the capabilities dict: the flag, and whether its value is True.
pub record Capability : Type 0 where
  pub flag : String
  pub is_true : Bool

pub record PeerRecord : Type 0 where
  pub peer_id : String
  pub instance_id : String
  pub session_id : String
  pub name : String
  pub profile : String
  pub agent_id : String
  pub protocols : List String
  pub capabilities : List Capability
  pub surface : String
  pub host_target : String
  pub pid : ℤ
  pub cwd : String
  pub git_repo_root : String
  pub git_branch : String
  pub started_at : String
  pub last_seen : String
  pub status : String
  pub current_activity : String
  pub socket_path : String
  pub socket_uid : ℤ
  pub socket_inode : ℤ
  pub protocol : String

abbrev pub is_known : String → Bool
is_known p = str_eq p protocol_id || str_eq p protocol_id_v2

abbrev pub all_known : List String → Bool
all_known [] = true
all_known (p ∷ ps) = is_known p && all_known ps

abbrev pub or_default : List String → List String
or_default [] = protocol_id ∷ []
or_default ps = ps

-- `PeerRecord.__post_init__`, in its order.
unfoldable pub peer_record : PeerRecord → Result PeerRecord
peer_record r = do
  require_uuid r.peer_id
  require_uuid r.instance_id
  (if str_eq r.agent_id "" then ok tt else require_uuid r.agent_id)
  guard (all_known (or_default r.protocols)) validation_error
  Presences.of_value r.status >>= λ status. guard (is_known r.protocol) validation_error
  ok (record r { protocols = or_default r.protocols })

-- `now + timedelta(seconds=ttl)`, in the unit of the instants.
abbrev pub after : ℕ → ℤ → ℕ
after now (pos n) = now + n
after now (negsuc n) = now - (n + 1)

-- `make_envelope`; an empty or missing message id is replaced by the new one.
unfoldable pub make_envelope :
    String
    → ℕ
    → Option String
    → PeerIdentity
    → String
    → Kind
    → String
    → Option String
    → Option String
    → ℤ
    → ℤ
    → Result Envelope
make_envelope new_id now message_id sender recipient kind content reply_to conversation_id hops
      ttl =
    let mid = or_else message_id "" in
    envelope (record {
      protocol = protocol_id;
      message_id = if str_eq mid "" then new_id else mid;
      created_at = now;
      expires_at = after now ttl;
      sender = sender;
      recipient_peer_id = recipient;
      kind = Kinds.value kind;
      content = content;
      reply_to = reply_to;
      conversation_id = conversation_id;
      hop_count = hops;
    })
