-- ===== src/Runtime/Sending.antt =====
-- `send`, `_authenticate_sender`, `_stamp_sender` and `_receipt` of agent_peer/runtime.py.
use hermes_walkie_talkie.Prelude.{ℕ, String, Option, none, some, List, str_eq, if◌then◌else◌}
use Prim.Native.String.{◌++◌ as text_append}
use hermes_walkie_talkie.Table.{first_where}
use hermes_walkie_talkie.Errors.{
  Error, Result, ok, err, ◌>>=◌, validation_error, unsupported_version, frame_error, oversized,
  unreachable, timeout,
}
use hermes_walkie_talkie.Codec.{
  Json, null, integer, text, object, field, end_fields, Library, decode_envelope,
}
use hermes_walkie_talkie.Models.{pos, peer_identity, Envelope, envelope, Receipt, receipt}
use hermes_walkie_talkie.Models.Validation.{to_raw}
use hermes_walkie_talkie.Models.Kinds
use hermes_walkie_talkie.Models.Kinds.{Kind}
use hermes_walkie_talkie.Models.ReceiptStates
use hermes_walkie_talkie.Models.ReceiptStates.{ReceiptState}
use hermes_walkie_talkie.Models.Peers.{PeerRecord}
use hermes_walkie_talkie.Runtime.Replies.{is_record}

-- What `send` takes from outside: the libraries of the codec and the clock that it reads, json.dumps
-- with sorted keys, the text of a UTC time, the backend's request to an endpoint, the text of an
-- exception, and the text of the time.
pub record Transport : Type 0 where
  pub library : Library
  pub clock : ℕ
  pub dumps : Json → String
  pub rfc3339 : ℕ → String
  pub request : String → List ℕ → Result (List ℕ)
  pub message : Error → String
  pub now : String

abbrev pub text_or_null : Option String → Json
text_or_null none = null
text_or_null (some s) = text s

-- `_envelope_to_dict`
unfoldable pub envelope_to_dict : Transport → Envelope → Json
envelope_to_dict t e = object (
    field "protocol" (text e.protocol) (
      field "message_id" (text e.message_id) (
        field "created_at" (text (t.rfc3339 e.created_at)) (
          field "expires_at" (text (t.rfc3339 e.expires_at)) (
            field "sender"
              (object (
                field "peer_id" (text e.sender.peer_id) (
                  field "name" (text e.sender.name)
                    (field "profile" (text e.sender.profile) end_fields))))
              (field "recipient_peer_id" (text e.recipient_peer_id) (
                field "kind" (text (Kinds.value e.kind)) (
                  field "content" (text e.content) (
                    field "reply_to" (text_or_null e.reply_to) (
                      field "conversation_id" (text_or_null e.conversation_id)
                        (field "hop_count" (integer (pos e.hop_count)) end_fields)))))))))))

-- `encode_envelope`
unfoldable pub encode_envelope : Transport → Envelope → String
encode_envelope t e = t.dumps (envelope_to_dict t e)

-- The `try` of `send`: the request with the encoded envelope, and the reply decoded.
unfoldable pub exchange : Transport → String → Envelope → Result Envelope
exchange t path e =
    t.request path (t.library.encode (encode_envelope t e)) >>= decode_envelope t.library t.clock

-- The receipt of a call, and the envelope that was handed to the transport.
pub record Sending : Type 0 where
  pub answer : Result Receipt
  pub handed : Option Envelope

unfoldable pub authenticate_sender : List PeerRecord → Envelope → Option PeerRecord
authenticate_sender peers e = first_where (is_record e.sender.peer_id) peers

-- The constructors of PeerIdentity and Envelope check their arguments again.
unfoldable pub stamp_sender : Envelope → PeerRecord → Result Envelope
stamp_sender e r =
    peer_identity (record { peer_id = r.peer_id; name = r.name; profile = r.profile }) >>= λ sender.
    envelope (to_raw (record e { sender = sender }))

-- `_receipt`
unfoldable pub make_receipt : Transport → Envelope → ReceiptState → String → Result Receipt
make_receipt t e s detail = receipt (record {
  message_id = e.message_id;
  state = s;
  recipient_peer_id = e.recipient_peer_id;
  detail = detail;
  delivered_at = t.now;
})

-- `except ValueError` after `Receipt(... ReceiptState(reply.content) ...)`
unfoldable pub or_bad_receipt : Transport → Envelope → String → Result Receipt → Result Receipt
or_bad_receipt t e content (ok r) = ok r
or_bad_receipt t e content (err x) =
    make_receipt t e ReceiptStates.invalid (text_append "bad receipt " content)

-- The receipt for the reply that came back.
unfoldable pub read_reply : Transport → Envelope → Envelope → Kind → Result Receipt
read_reply t e reply Kind.receipt = or_bad_receipt t e reply.content (
    ReceiptStates.of_value reply.content >>= λ s.
    make_receipt t e s (text_append "reply: " reply.content))
read_reply t e reply Kind.pong = make_receipt t e ReceiptStates.queued "pong"
read_reply t e reply _ =
    make_receipt t e ReceiptStates.invalid
      (text_append "unexpected reply kind " (Kinds.value reply.kind))

-- The exceptions of the exchange that are caught; another one leaves `send`.
unfoldable pub read_error : Transport → Envelope → Error → Result Receipt
read_error t e unreachable = make_receipt t e ReceiptStates.unreachable (t.message unreachable)
read_error t e timeout =
    make_receipt t e ReceiptStates.unreachable (text_append "timeout: " (t.message timeout))
read_error t e validation_error =
    make_receipt t e ReceiptStates.invalid (t.message validation_error)
read_error t e unsupported_version =
    make_receipt t e ReceiptStates.invalid (t.message unsupported_version)
read_error t e frame_error = make_receipt t e ReceiptStates.invalid (t.message frame_error)
read_error t e oversized = make_receipt t e ReceiptStates.invalid (t.message oversized)
read_error t e x = err x

unfoldable pub read_exchange : Transport → Envelope → Result Envelope → Result Receipt
read_exchange t e (ok reply) = read_reply t e reply reply.kind
read_exchange t e (err x) = read_error t e x

-- The part of `send` for the recipient's record in the registry.
unfoldable pub send_to : Transport → Envelope → Option PeerRecord → Sending
send_to t e none = record {
  answer = make_receipt t e ReceiptStates.unreachable "no registry record";
  handed = none;
}
send_to t e (some r) =
    if str_eq r.socket_path ""
    then record {
      answer = make_receipt t e ReceiptStates.unreachable "no registry record";
      handed = none;
    }
    else record { answer = read_exchange t e (exchange t r.socket_path e); handed = some e }

-- The part of `send` for the stamped envelope; `get` is the registry's.
unfoldable pub send_stamped : Transport → (String → Option PeerRecord) → Result Envelope → Sending
send_stamped t get (err x) = record { answer = err x; handed = none }
send_stamped t get (ok e) = send_to t e (get e.recipient_peer_id)

unfoldable pub send_as :
    Transport → (String → Option PeerRecord) → Envelope → Option PeerRecord → Sending
send_as t get e none = record {
  answer = make_receipt t e ReceiptStates.invalid "sender not registered in this runtime";
  handed = none;
}
send_as t get e (some r) = send_stamped t get (stamp_sender e r)

unfoldable pub send :
    Transport → (String → Option PeerRecord) → List PeerRecord → Envelope → Sending
send t get peers e = send_as t get e (authenticate_sender peers e)
