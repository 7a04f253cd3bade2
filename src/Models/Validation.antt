-- ===== src/Models/Validation.antt =====
-- What `Envelope.__post_init__` accepts.
use Prim.Native.String.{len}
use hermes_walkie_talkie.Prelude.{
  ◌≤◌, ◌<◌, String, ◌≡◌, refl, ◌↔◌, ◌⊎◌, true, Option, none, some, arith, eq_iff,
}
use hermes_walkie_talkie.Errors.{ok}
use hermes_walkie_talkie.Models.{
  pos, RawEnvelope, Envelope, envelope, check_hops, protocol_id, protocol_id_v2, max_content_bytes,
  max_hop_count,
}
use hermes_walkie_talkie.Models.Uuid.{require_uuid, uuid_match}
use hermes_walkie_talkie.Models.Kinds
use hermes_walkie_talkie.Models.Kinds.{of_value_iff}

abbrev IsUuid? : Option String → Type 0
IsUuid? none = Unit
IsUuid? (some v) = uuid_match v ≡ true

-- The tests of the constructor; the ids fit the pattern of `_UUID_RE`, and the sender has been
-- tested by its own constructor.
pub record IsWellFormed (e : Envelope) : Type 0 where
  pub protocol : (e.protocol ≡ protocol_id) ⊎ (e.protocol ≡ protocol_id_v2)
  pub message_id : uuid_match e.message_id ≡ true
  pub lifetime : e.created_at < e.expires_at
  pub recipient : uuid_match e.recipient_peer_id ≡ true
  pub content : len e.content ≤ max_content_bytes
  pub reply_to : IsUuid? e.reply_to
  pub hops : e.hop_count ≤ max_hop_count

-- The arguments that give an envelope.
abbrev pub to_raw : Envelope → RawEnvelope
to_raw e = record {
  protocol = e.protocol;
  message_id = e.message_id;
  created_at = e.created_at;
  expires_at = e.expires_at;
  sender = e.sender;
  recipient_peer_id = e.recipient_peer_id;
  kind = Kinds.value e.kind;
  content = e.content;
  reply_to = e.reply_to;
  conversation_id = e.conversation_id;
  hop_count = pos e.hop_count;
}

envelope-IsWellFormed : (w : RawEnvelope) (e : Envelope) → envelope w ≡ ok e → IsWellFormed e
unfolding envelope require_uuid check_hops
envelope-IsWellFormed w e h =
    ground (arith, eq_iff w.protocol protocol_id, eq_iff w.protocol protocol_id_v2)

envelope-eq-raw : (w : RawEnvelope) (e : Envelope) → envelope w ≡ ok e → w ≡ to_raw e
unfolding envelope require_uuid check_hops
envelope-eq-raw w e h = ground (arith, (of_value_iff w.kind e.kind).0)

envelope-to_raw : (e : Envelope) → IsWellFormed e → envelope (to_raw e) ≡ ok e
unfolding envelope require_uuid check_hops
envelope-to_raw e h = ground (
  arith,
  eq_iff e.protocol protocol_id,
  eq_iff e.protocol protocol_id_v2,
  (of_value_iff (Kinds.value e.kind) e.kind).1 refl,
)

-- The constructor accepts exactly the arguments of a well-formed envelope, with the kind given by
-- its text, and the envelope that it builds has those arguments as its fields.
pub envelope_iff :
    (w : RawEnvelope) (e : Envelope) → (envelope w ≡ ok e) ↔ ((w ≡ to_raw e) × IsWellFormed e)
envelope_iff w e =
    (λ h. (envelope-eq-raw w e h, envelope-IsWellFormed w e h), λ h. rw h.0 (envelope-to_raw e h.1))
