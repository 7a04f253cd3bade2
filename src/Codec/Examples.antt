-- ===== src/Codec/Examples.antt =====
-- Concrete uses of agent_peer/codec.py.
use hermes_walkie_talkie.Prelude.{
  String, ◌≡◌, refl, none, some, [], ◌∷◌, ◌++◌, str_eq, if◌then◌else◌,
}
use hermes_walkie_talkie.Errors.{ok}
use hermes_walkie_talkie.Models.{Envelope, envelope, peer_identity, check_hops, protocol_id}
use hermes_walkie_talkie.Models.Kinds
use hermes_walkie_talkie.Models.Kinds.{Kind}
use hermes_walkie_talkie.Models.Uuid.{require_uuid, uuid_match, at_dollar}
use hermes_walkie_talkie.Codec.{
  text, object, field, end_fields, Fields, Library, encode_frame, decode_envelope, dict_to_envelope,
  parse_rfc3339, fresh, turn, Fed, feed, feed_loop,
}
use hermes_walkie_talkie.Codec.Chunks.{join, feed-append}
use hermes_walkie_talkie.Codec.Streams.{AreFrames, feed_total, feed_frames}

abbrev peer : String
peer = "6ba7b811-9dad-11d1-80b4-00c04fd430c8"

abbrev fields : Fields
fields = field "sender" (object (field "peer_id" (text peer) end_fields)) (
    field "protocol" (text protocol_id) (
      field "message_id" (text peer) (
        field "created_at" (text "a") (
          field "expires_at" (text "b") (
            field "recipient_peer_id" (text peer)
              (field "kind" (text "message") (field "content" (text "hello") end_fields)))))))

-- A library with one text, of two bytes.
abbrev lib : Library
lib = record {
  encode = λ s. 7 ∷ 8 ∷ [];
  decode = λ bs. some "";
  loads = λ s. some (object fields);
  fromisoformat = λ s. if str_eq s "a" then some 10 else some 20;
}

abbrev hello : Envelope
hello = record {
  protocol = protocol_id;
  message_id = peer;
  created_at = 10;
  expires_at = 20;
  sender = record { peer_id = peer; name = ""; profile = "" };
  recipient_peer_id = peer;
  kind = Kind.message;
  content = "hello";
  reply_to = none;
  conversation_id = none;
  hop_count = 0;
}

encoded_eq : encode_frame lib "" ≡ ok (0 ∷ 0 ∷ 0 ∷ 2 ∷ 7 ∷ 8 ∷ [])
unfolding encode_frame
encoded_eq = refl

decoded_eq : decode_envelope lib 11 (7 ∷ 8 ∷ []) ≡ ok hello
unfolding decode_envelope dict_to_envelope parse_rfc3339 peer_identity envelope check_hops
    require_uuid uuid_match at_dollar Kinds.of_value
decoded_eq = refl

two_frames :
    AreFrames lib 11
      ("" ∷ "" ∷ [])
      (0 ∷ 0 ∷ 0 ∷ 2 ∷ 7 ∷ 8 ∷ 0 ∷ 0 ∷ 0 ∷ 2 ∷ 7 ∷ 8 ∷ [])
      (hello ∷ hello ∷ [])
two_frames = (
  _,
  _,
  _,
  _,
  encoded_eq,
  decoded_eq,
  refl,
  refl,
  (_, _, _, _, encoded_eq, decoded_eq, refl, refl, (refl, refl)),
)

feed_frames_example :
    feed lib 11 (0 ∷ 0 ∷ 0 ∷ 2 ∷ 7 ∷ 8 ∷ 0 ∷ 0 ∷ 0 ∷ 2 ∷ 7 ∷ 8 ∷ []) fresh
    ≡ some (record { envelopes = hello ∷ hello ∷ []; raised = none; decoder = fresh })
feed_frames_example =
    feed_frames lib 11 ("" ∷ "" ∷ []) (0 ∷ 0 ∷ 0 ∷ 2 ∷ 7 ∷ 8 ∷ 0 ∷ 0 ∷ 0 ∷ 2 ∷ 7 ∷ 8 ∷ [])
      (hello ∷ hello ∷ []) two_frames

feed_total_example : (r : Fed) × (feed lib 11 (0 ∷ 0 ∷ []) fresh ≡ some r)
feed_total_example = feed_total lib 11 (0 ∷ 0 ∷ []) fresh

-- The decoder after the first three bytes of a frame.
abbrev part : Fed
part = record {
  envelopes = [];
  raised = none;
  decoder = record { buffer = 0 ∷ 0 ∷ 0 ∷ []; expected = none };
}

abbrev whole : Fed
whole = record { envelopes = hello ∷ []; raised = none; decoder = fresh }

part_eq : feed lib 11 (0 ∷ 0 ∷ 0 ∷ []) fresh ≡ some part
unfolding feed feed_loop turn
part_eq = refl

rest_eq : feed lib 11 (2 ∷ 7 ∷ 8 ∷ []) part.decoder ≡ some whole
unfolding feed
rest_eq =
    feed_frames lib 11 ("" ∷ []) (0 ∷ 0 ∷ 0 ∷ 2 ∷ 7 ∷ 8 ∷ []) (hello ∷ [])
      (_, _, _, _, encoded_eq, decoded_eq, refl, refl, (refl, refl))

feed-append_example :
    feed lib 11 ((0 ∷ 0 ∷ 0 ∷ []) ++ (2 ∷ 7 ∷ 8 ∷ [])) fresh ≡ some (join part whole)
feed-append_example =
    feed-append lib 11 (0 ∷ 0 ∷ 0 ∷ []) (2 ∷ 7 ∷ 8 ∷ []) fresh part whole part_eq refl rest_eq
