-- ===== src/Runtime/Examples.antt =====
-- Concrete runs of agent_peer/runtime.py.
use hermes_walkie_talkie.Prelude.{
  String, ◌≡◌, refl, inl, true, false, Option, none, some, List, [], ◌∷◌, ◌++◌, arith, str_eq,
  if◌then◌else◌, is_some,
}
use hermes_walkie_talkie.Errors.{ok, unsupported_version}
use hermes_walkie_talkie.Table.{first_where}
use hermes_walkie_talkie.Models.{Envelope, envelope, peer_identity, check_hops, protocol_id}
use hermes_walkie_talkie.Models.Uuid.{uuid_match, require_uuid}
use hermes_walkie_talkie.Models.Validation.{IsWellFormed}
use hermes_walkie_talkie.Models.Kinds
use hermes_walkie_talkie.Models.ReceiptStates
use hermes_walkie_talkie.Models.ReceiptStates.{ReceiptState}
use hermes_walkie_talkie.Models.Peers.{PeerRecord}
use hermes_walkie_talkie.Registry.Examples.{first_id, second_id, first_peer, second_peer}
use hermes_walkie_talkie.Codec.{
  text, object, field, end_fields, Library, Fed, feed, decode_envelope, feed_loop, turn, fresh,
}
use hermes_walkie_talkie.Runtime.Replies.{Outcome, Handler, Answering, dispatch, is_record}
use hermes_walkie_talkie.Runtime.Answers.{receipt_of, dispatch_receipt}
use hermes_walkie_talkie.Runtime.Service.{
  Connection, Sent, chunk, Supervisor, Event, readable, run_loop, flush,
}
use hermes_walkie_talkie.Runtime.Supervision.{flush-append, run_loop-stops}
use hermes_walkie_talkie.Runtime.Sending.{
  Transport, send, authenticate_sender, send_as, send_stamped, send_to, stamp_sender,
}
use hermes_walkie_talkie.Runtime.Receipts.{stamped, send-stamped}

abbrev answering : Answering
answering = record { new_id = second_id; now = 5; dumps = λ i. i.nonce }

abbrev holds : Handler
holds = record { peer_id = second_id; on_message = λ e. ok (Outcome.state ReceiptStates.held) }

abbrev pub hello : Envelope
hello = record {
  protocol = protocol_id;
  message_id = "6ba7b811-9dad-11d1-80b4-00c04fd430c8";
  created_at = 10;
  expires_at = 20;
  sender = record { peer_id = first_id; name = "mallory"; profile = "p" };
  recipient_peer_id = second_id;
  kind = Kinds.message;
  content = "hello";
  reply_to = none;
  conversation_id = none;
  hop_count = 0;
}

id_match : uuid_match second_id ≡ true
unfolding uuid_match
id_match = refl

first_match : uuid_match first_id ≡ true
unfolding uuid_match
first_match = refl

hello_match : uuid_match hello.message_id ≡ true
unfolding uuid_match
hello_match = refl

hello-IsWellFormed : IsWellFormed hello
hello-IsWellFormed = record {
  protocol = inl refl;
  message_id = hello_match;
  lifetime = ground arith;
  recipient = id_match;
  content = ground arith;
  reply_to = tt;
  hops = ground arith;
}

dispatch_receipt_example :
    (s : ReceiptState) × (dispatch answering [] (holds ∷ []) hello Kinds.message
      ≡ ok (receipt_of answering s))
dispatch_receipt_example =
    dispatch_receipt answering [] (holds ∷ []) hello Kinds.message id_match (λ e. cc) (λ e. cc)

-- A frame of two bytes, whose JSON is an envelope of an unknown protocol.
abbrev foreign : Library
foreign = record {
  encode = λ s. 7 ∷ 8 ∷ [];
  decode = λ bs. some "";
  loads = λ s. some (object (field "protocol" (text "agent-peer/9") end_fields));
  fromisoformat = λ s. some 10;
}

abbrev wire : Transport
wire = record {
  library = foreign;
  clock = 11;
  dumps = λ j. "";
  rfc3339 = λ n. "t";
  request = λ path bs. ok (7 ∷ 8 ∷ []);
  message = λ e. "error";
  now = "now";
}

abbrev lookup_second : String → Option PeerRecord
lookup_second p = if str_eq p second_id then some second_peer else none

handed_eq :
    (send wire lookup_second (first_peer ∷ []) hello).handed ≡ some (stamped hello first_peer)
unfolding send authenticate_sender send_as send_stamped send_to stamp_sender peer_identity envelope
    check_hops require_uuid uuid_match Kinds.of_value
handed_eq = refl

send-stamped_example :
    (r : PeerRecord) × (first_where (is_record hello.sender.peer_id) (first_peer ∷ []) ≡ some r)
    × (stamped hello first_peer ≡ stamped hello r)
send-stamped_example =
    send-stamped wire lookup_second (first_peer ∷ []) hello (stamped hello first_peer)
      hello-IsWellFormed handed_eq

abbrev supervisor : Supervisor
supervisor = record {
  library = foreign;
  now = 11;
  frames = λ e. ok (1 ∷ []);
  answering = answering;
  peers = [];
  handlers = holds ∷ [];
}

abbrev idle : Connection
idle = record { decoder = fresh; out_buffer = []; closed = false }

abbrev fed : Fed
fed = record { envelopes = []; raised = some unsupported_version; decoder = fresh }

fed_eq : feed foreign 11 (0 ∷ 0 ∷ 0 ∷ 2 ∷ 7 ∷ 8 ∷ []) fresh ≡ some fed
unfolding feed feed_loop turn decode_envelope
fed_eq = refl

abbrev events : List Event
events = readable 0 (chunk (0 ∷ 0 ∷ 0 ∷ 2 ∷ 7 ∷ 8 ∷ [])) ∷ readable 1 (chunk (0 ∷ [])) ∷ []

run_loop-stops_example :
    (is_some (run_loop supervisor events none (λ i. idle)).stopped ≡ true)
    × (run_loop supervisor events none (λ i. idle)
        ≡ run_loop supervisor
            (readable 0 (chunk (0 ∷ 0 ∷ 0 ∷ 2 ∷ 7 ∷ 8 ∷ [])) ∷ [])
            none
            (λ i. idle))
run_loop-stops_example =
    run_loop-stops supervisor 0 0 (0 ∷ 0 ∷ 2 ∷ 7 ∷ 8 ∷ []) (readable 1 (chunk (0 ∷ [])) ∷ [])
      (λ i. idle) fed unsupported_version refl fed_eq refl refl

abbrev queued : Connection
queued = record { decoder = fresh; out_buffer = 1 ∷ 2 ∷ 3 ∷ []; closed = false }

flush-append_example :
    (flush (Sent.taken 2 ∷ Sent.blocked ∷ []) queued).0
      ++ (flush (Sent.taken 2 ∷ Sent.blocked ∷ []) queued).1.out_buffer
    ≡ 1 ∷ 2 ∷ 3 ∷ []
flush-append_example = flush-append (Sent.taken 2 ∷ Sent.blocked ∷ []) queued
