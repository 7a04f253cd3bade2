-- ===== src/Runtime/Replies.antt =====
-- `_dispatch`, `_reply` and `_reply_alive` of agent_peer/runtime.py: the answer to one envelope.
use hermes_walkie_talkie.Prelude.{
  ℕ, String, Bool, Option, none, some, List, str_eq, if◌then◌else◌, or_else,
}
use hermes_walkie_talkie.Table.{first_where}
use hermes_walkie_talkie.Errors.{Result, ok, err, ◌>>=◌}
use hermes_walkie_talkie.Models.{peer_identity, Envelope, pos}
use hermes_walkie_talkie.Models.Kinds
use hermes_walkie_talkie.Models.Kinds.{Kind}
use hermes_walkie_talkie.Models.ReceiptStates
use hermes_walkie_talkie.Models.ReceiptStates.{ReceiptState}
use hermes_walkie_talkie.Models.Peers.{PeerRecord, Capability, make_envelope}

-- What a message handler returns: a state, or text.
pub data Outcome : Type 0 where
  state : ReceiptState → Outcome
  other : String → Outcome

-- An entry of `_handlers`; an exception of the callback is an `err`.
pub record Handler : Type 0 where
  pub peer_id : String
  pub on_message : Envelope → Result Outcome

-- The dict of an ALIVE answer.
pub record Identity : Type 0 where
  pub nonce : String
  pub peer_id : String
  pub instance_id : String
  pub session_id : String
  pub agent_id : String
  pub protocols : List String
  pub capabilities : List Capability
  pub protocol : String
  pub status : String

-- What the answer takes from outside: `str(uuid.uuid4())`, the clock, and json.dumps of an identity.
pub record Answering : Type 0 where
  pub new_id : String
  pub now : ℕ
  pub dumps : Identity → String

abbrev pub zero_id : String
zero_id = "00000000-0000-0000-0000-000000000000"

abbrev pub default_ttl : ℕ
default_ttl = 300000000

abbrev pub is_record : String → PeerRecord → Bool
is_record p r = str_eq r.peer_id p

abbrev pub is_handler : String → Handler → Bool
is_handler p h = str_eq h.peer_id p

abbrev pub reply_kind : String → Kind
reply_kind content = if str_eq content "pong" then Kinds.pong else Kinds.receipt

-- The envelope of `_reply`; no connection has a peer id, so the recipient is zero.
unfoldable pub reply : Answering → String → Result Envelope
reply a content =
    peer_identity (record { peer_id = zero_id; name = "agent-peer"; profile = "" }) >>= λ sender.
    make_envelope a.new_id a.now none sender zero_id (reply_kind content) content none none (pos 0)
      (pos default_ttl)

unfoldable pub outcome_text : Outcome → String
outcome_text (state s) = ReceiptStates.value s
outcome_text (other t) = t

-- `state_name not in {s.value for s in ReceiptState}`
unfoldable pub known_or_invalid : String → Result ReceiptState → String
known_or_invalid t (ok s) = t
known_or_invalid t (err e) = ReceiptStates.value ReceiptStates.invalid

-- The content of the reply to what the handler did.
unfoldable pub receipt_text : Result Outcome → String
receipt_text (err e) = ReceiptStates.value ReceiptStates.invalid
receipt_text (ok o) = known_or_invalid (outcome_text o) (ReceiptStates.of_value (outcome_text o))

-- `_handlers.get(recipient)` and what follows.
unfoldable pub handle : Option Handler → Envelope → String
handle none e = ReceiptStates.value ReceiptStates.unreachable
handle (some h) e = receipt_text (h.on_message e)

unfoldable pub identity_of : String → PeerRecord → Identity
identity_of nonce r = record {
  nonce = nonce;
  peer_id = r.peer_id;
  instance_id = r.instance_id;
  session_id = r.session_id;
  agent_id = r.agent_id;
  protocols = r.protocols;
  capabilities = r.capabilities;
  protocol = r.protocol;
  status = r.status;
}

abbrev pub or_zero : String → String
or_zero p = if str_eq p "" then zero_id else p

-- `_reply_alive` for the record that `_peers` holds.
unfoldable pub reply_alive : Answering → Option PeerRecord → Envelope → Result Envelope
reply_alive a none request = reply a (ReceiptStates.value ReceiptStates.unreachable)
reply_alive a (some r) request =
    peer_identity (record { peer_id = r.peer_id; name = r.name; profile = r.profile }) >>= λ sender.
    make_envelope a.new_id a.now none sender (or_zero request.sender.peer_id) Kinds.alive
      (a.dumps (identity_of (or_else request.conversation_id "") r)) none
      (some (or_else request.conversation_id "")) (pos 0) (pos default_ttl)

-- `_dispatch`: the envelope that is put on the connection; `err` is an exception that leaves it.
unfoldable pub dispatch :
    Answering → List PeerRecord → List Handler → Envelope → Kind → Result Envelope
dispatch a peers handlers e Kind.ping = reply a "pong"
dispatch a peers handlers e Kind.discover =
    reply_alive a (first_where (is_record e.recipient_peer_id) peers) e
dispatch a peers handlers e _ =
    reply a (handle (first_where (is_handler e.recipient_peer_id) handlers) e)
