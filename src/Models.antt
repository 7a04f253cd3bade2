-- ===== src/Models.antt =====
-- agent_peer/models.py: the enumerations of the protocol, the envelope and its validation. Values of
-- a wrong Python type are not modelled: the fields are typed here, but for those that the code parses.
pub mod Uuid
pub mod Kinds
pub mod ReceiptStates
pub mod Presences
pub mod Validation
pub mod Peers
pub mod Examples
use Prim.Native.String.{len}
use hermes_walkie_talkie.Prelude.{
  ℕ, zero, suc, ◌+◌, ◌-◌, ◌*◌, ◌/◌, ◌%◌, ◌^◌, ◌≤◌, ◌<◌, min, String, ◌≡◌, refl, sym, ap, ◌∙◌, ◌≢◌,
  ◌↔◌, ◌⊎◌, inl, inr, Bool, true, false, ◌&&◌, ◌||◌, not, Option, none, some, List, [], ◌∷◌, ◌++◌,
  map, arith, str_eq, eq_iff, eq_refl, ltb, leb, ◌==◌, str_lt, if◌then◌else◌, ltb→lt, lt→ltb,
  leb→le, ==_iff, Bool-cases, Option-cases, is_some, or_else, length, take, drop, length-append,
  length-take, length-drop, All, All-append, All-imp, All-take, All-drop,
}
use hermes_walkie_talkie.Errors.{Error, Result, ok, err, validation_error, ◌>>=◌, ◌>>◌, guard}
use Uuid.{require_uuid}
use Kinds.{Kind}
use ReceiptStates.{ReceiptState}

pub data Policy : Type 0 where
  accept hold refuse : Policy

-- A Python `int`: `negsuc n` is -(n + 1).
pub data ℤ : Type 0 where
  pos : ℕ → ℤ
  negsuc : ℕ → ℤ

-- constants.py
abbrev pub protocol_id : String
protocol_id = "agent-peer/1"

abbrev pub protocol_id_v2 : String
protocol_id_v2 = "agent-peer/2"

abbrev pub max_content_bytes : ℕ
max_content_bytes = 32768

abbrev pub max_hop_count : ℕ
max_hop_count = 4

pub record PeerIdentity : Type 0 where
  pub peer_id : String
  pub name : String
  pub profile : String

-- `PeerIdentity.__post_init__`.
unfoldable pub peer_identity : PeerIdentity → Result PeerIdentity
peer_identity p = do require_uuid p.peer_id; ok p

-- The arguments of `Envelope(...)`; datetimes are instants in UTC.
pub record RawEnvelope : Type 0 where
  pub protocol : String
  pub message_id : String
  pub created_at : ℕ
  pub expires_at : ℕ
  pub sender : PeerIdentity
  pub recipient_peer_id : String
  pub kind : String
  pub content : String
  pub reply_to : Option String
  pub conversation_id : Option String
  pub hop_count : ℤ

pub record Envelope : Type 0 where
  pub protocol : String
  pub message_id : String
  pub created_at : ℕ
  pub expires_at : ℕ
  pub sender : PeerIdentity
  pub recipient_peer_id : String
  pub kind : Kind
  pub content : String
  pub reply_to : Option String
  pub conversation_id : Option String
  pub hop_count : ℕ

-- `0..MAX_HOP_COUNT`
unfoldable pub check_hops : ℤ → Result ℕ
check_hops (pos n) = if ltb max_hop_count n then err validation_error else ok n
check_hops (negsuc n) = err validation_error

abbrev pub require_optional : Option String → Result (Unit {0})
require_optional none = ok tt
require_optional (some v) = require_uuid v

-- `Envelope.__post_init__`, in its order. `Kind(text)` is `of_value`, its ValueError a ValidationError.
unfoldable pub envelope : RawEnvelope → Result Envelope
envelope e = do
  guard (str_eq e.protocol protocol_id || str_eq e.protocol protocol_id_v2) validation_error
  require_uuid e.message_id
  guard (ltb e.created_at e.expires_at) validation_error
  require_uuid e.recipient_peer_id
  kind ← Kinds.of_value e.kind
  guard (leb (len e.content) max_content_bytes) validation_error
  require_optional e.reply_to
  hops ← check_hops e.hop_count
  ok (record {
    protocol = e.protocol;
    message_id = e.message_id;
    created_at = e.created_at;
    expires_at = e.expires_at;
    sender = e.sender;
    recipient_peer_id = e.recipient_peer_id;
    kind = kind;
    content = e.content;
    reply_to = e.reply_to;
    conversation_id = e.conversation_id;
    hop_count = hops;
  })

-- `Envelope.is_expired`.
abbrev pub is_expired : Envelope → ℕ → Bool
is_expired e now = leb e.expires_at now

pub record Receipt : Type 0 where
  pub message_id : String
  pub state : ReceiptState
  pub recipient_peer_id : String
  pub detail : String
  pub delivered_at : String

-- `Receipt.__post_init__`.
unfoldable pub receipt : Receipt → Result Receipt
receipt r = do require_uuid r.message_id; require_uuid r.recipient_peer_id; ok r
