-- ===== src/Runtime/Answers.antt =====
-- What the answers of agent_peer/runtime.py hold.
use hermes_walkie_talkie.Prelude.{
  ℕ, ◌+◌, String, ◌≡◌, refl, ap, ◌∙◌, ◌≢◌, true, Option, none, some, List, arith, ltb,
}
use hermes_walkie_talkie.Errors.{Result, ok, err}
use hermes_walkie_talkie.Models.{Envelope, envelope, peer_identity, check_hops, protocol_id}
use hermes_walkie_talkie.Models.Uuid.{require_uuid, uuid_match}
use hermes_walkie_talkie.Models.Kinds
use hermes_walkie_talkie.Models.Kinds.{Kind}
use hermes_walkie_talkie.Models.ReceiptStates
use hermes_walkie_talkie.Models.ReceiptStates.{ReceiptState}
use hermes_walkie_talkie.Models.Peers.{PeerRecord, make_envelope}
use hermes_walkie_talkie.Table.{first_where}
use hermes_walkie_talkie.Runtime.Replies.{
  Outcome, Handler, Answering, zero_id, default_ttl, is_handler, reply, outcome_text,
  known_or_invalid, receipt_text, handle, dispatch,
}

-- A receipt that answers with state `s`.
abbrev pub receipt_of : Answering → ReceiptState → Envelope
receipt_of a s = record {
  protocol = protocol_id;
  message_id = a.new_id;
  created_at = a.now;
  expires_at = a.now + default_ttl;
  sender = record { peer_id = zero_id; name = "agent-peer"; profile = "" };
  recipient_peer_id = zero_id;
  kind = Kinds.receipt;
  content = ReceiptStates.value s;
  reply_to = none;
  conversation_id = none;
  hop_count = 0;
}

receipt_of_known :
    (t : String) (o : Result ReceiptState)
    → ReceiptStates.of_value t ≡ o
    → (s : ReceiptState) × (known_or_invalid t o ≡ ReceiptStates.value s)
unfolding known_or_invalid
receipt_of_known t (ok s) h = (s, (ReceiptStates.of_value_iff t s).0 h)
receipt_of_known t (err e) h = (ReceiptStates.invalid, refl)

receipt_text-state :
    (o : Result Outcome) → (s : ReceiptState) × (receipt_text o ≡ ReceiptStates.value s)
unfolding receipt_text
receipt_text-state (err e) = (ReceiptStates.invalid, refl)
receipt_text-state (ok o) =
    receipt_of_known (outcome_text o) (ReceiptStates.of_value (outcome_text o)) refl

handle-state :
    (h : Option Handler) (e : Envelope) → (s : ReceiptState) × (handle h e ≡ ReceiptStates.value s)
unfolding handle
handle-state none e = (ReceiptStates.unreachable, refl)
handle-state (some h) e = receipt_text-state (h.on_message e)

sent_later : (now : ℕ) → ltb now (now + default_ttl) ≡ true
sent_later now = ground arith

zero_valid : require_uuid zero_id ≡ ok tt
unfolding require_uuid uuid_match
zero_valid = refl

new_id_valid : (a : Answering) → uuid_match a.new_id ≡ true → require_uuid a.new_id ≡ ok tt
unfolding require_uuid
new_id_valid a h = rw h refl

pub reply-ok :
    (a : Answering) (s : ReceiptState)
    → uuid_match a.new_id ≡ true
    → reply a (ReceiptStates.value s) ≡ ok (receipt_of a s)
unfolding reply make_envelope envelope peer_identity check_hops ReceiptStates.value Kinds.value
    Kinds.of_value
reply-ok a ReceiptStates.queued h = rw (new_id_valid a h, zero_valid, sent_later a.now) refl
reply-ok a _ h = rw (new_id_valid a h, zero_valid, sent_later a.now) refl

answer-ok :
    (a : Answering) (h : Option Handler) (e : Envelope)
    → uuid_match a.new_id ≡ true
    → (s : ReceiptState) × (reply a (handle h e) ≡ ok (receipt_of a s))
answer-ok a h e v = let (s, same) = handle-state h e in (s, ap (reply a) same ∙ reply-ok a s v)

-- The answer to any envelope but a ping and a discovery challenge is one receipt, whose content is
-- the value of a receipt state, whatever the handler returns or raises, if the new id is a UUID.
pub dispatch_receipt :
    (a : Answering) (peers : List PeerRecord) (handlers : List Handler) (e : Envelope) (k : Kind)
    → uuid_match a.new_id ≡ true
    → k ≢ Kinds.ping
    → k ≢ Kinds.discover
    → (s : ReceiptState) × (dispatch a peers handlers e k ≡ ok (receipt_of a s))
unfolding dispatch
dispatch_receipt a peers handlers e Kind.ping h np nd = absurd (np refl)
dispatch_receipt a peers handlers e Kind.discover h np nd = absurd (nd refl)
dispatch_receipt a peers handlers e _ h np nd =
    answer-ok a (first_where (is_handler e.recipient_peer_id) handlers) e h
