-- ===== src/Delivery/Deliver.antt =====
-- `DeliveryAdapter.deliver` of hermes_peer/delivery.py.
use hermes_walkie_talkie.Prelude.{
  ℕ, String, Bool, true, false, Option, none, some, List, str_eq, if◌then◌else◌,
}
use hermes_walkie_talkie.Errors.{Result, ok, err}
use hermes_walkie_talkie.Models.{Envelope}
use hermes_walkie_talkie.Models.Kinds
use hermes_walkie_talkie.Models.ReceiptStates
use hermes_walkie_talkie.Models.Uuid.{codes}
use hermes_walkie_talkie.Models.Peers.{PeerRecord}
use hermes_walkie_talkie.Store.{Message, get, record_row, transition}
use hermes_walkie_talkie.Delivery.Boundary.{peer_message_marker}

-- What a delivery takes from outside: does the host have the seam, the session manager's
-- resolve_peer, inject_message for a text and a target session, isoformat, and the text of the time.
pub record Host : Type 0 where
  pub supported : Bool
  pub resolve_peer : String → Option PeerRecord
  pub inject_message : List ℕ → String → Result Bool
  pub isoformat : ℕ → String
  pub now : String

-- What `deliver` returns, the text that was injected, and the store.
pub record Delivered : Type 0 where
  pub accepted : Bool
  pub injected : Option (List ℕ)
  pub messages : List Message

-- The row of a message that was not stored; the protocol column has its default.
unfoldable pub row_of : Host → Envelope → Message
row_of h e = record {
  message_id = e.message_id;
  recipient_peer_id = e.recipient_peer_id;
  sender_peer_id = e.sender.peer_id;
  kind = Kinds.value e.kind;
  content = e.content;
  state = ReceiptStates.value ReceiptStates.queued;
  created_at = h.isoformat e.created_at;
  expires_at = h.isoformat e.expires_at;
  reply_to = e.reply_to;
  conversation_id = e.conversation_id;
  delivered_at = none;
  hop_count = e.hop_count;
  protocol = "agent-peer/1";
}

abbrev pub or_unknown : String → String
or_unknown name = if str_eq name "" then "unknown" else name

unfoldable pub wrap : Envelope → List ℕ
wrap e =
    peer_message_marker (codes e.content) (codes (or_unknown e.sender.name))
      (codes e.sender.peer_id) (codes e.message_id)

-- `bool(inject_message(...))`, where an exception counts as a refusal.
unfoldable pub is_accepted : Result Bool → Bool
is_accepted (ok b) = b
is_accepted (err x) = false

-- The end of `deliver`: was the message stored before, and did the host accept it?
unfoldable pub settle : Host → Envelope → Bool → Bool → List Message → List Message
settle h e existed false ms =
    (transition e.message_id (ReceiptStates.value ReceiptStates.held) h.now ms).1
settle h e false true ms = ms
settle h e true true ms =
    (transition e.message_id (ReceiptStates.value ReceiptStates.queued) h.now ms).1

unfoldable pub inject : Host → Envelope → PeerRecord → Bool → List Message → Delivered
inject h e r existed ms =
    let accepted = is_accepted (h.inject_message (wrap e) r.host_target) in
    record {
      accepted = accepted;
      injected = some (wrap e);
      messages = settle h e existed accepted ms;
    }

-- The part after the recipient is known and the row was read; no lock is held between this read and
-- the write, so that `ms` may have changed since.
unfoldable pub deliver_to :
    Host → Envelope → Bool → PeerRecord → Option Message → List Message → Delivered
deliver_to h e force r none ms = inject h e r false (record_row (row_of h e) ms).1
deliver_to h e force r (some m) ms =
    let again = inject h e r true ms in
    if force then again else record { accepted = false; injected = none; messages = ms }

unfoldable pub deliver_resolved :
    Host → Envelope → Bool → Option PeerRecord → List Message → Delivered
deliver_resolved h e force none ms = record { accepted = false; injected = none; messages = ms }
deliver_resolved h e force (some r) ms =
    let sent = deliver_to h e force r (get e.message_id ms) ms in
    if str_eq r.host_target ""
    then record { accepted = false; injected = none; messages = ms }
    else sent

-- `deliver`, when no other call comes between its read of the row and its writes.
unfoldable pub deliver : Host → Envelope → Bool → List Message → Delivered
deliver h e force ms =
    let sent = deliver_resolved h e force (h.resolve_peer e.recipient_peer_id) ms in
    if h.supported then sent else record { accepted = false; injected = none; messages = ms }
