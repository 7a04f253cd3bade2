-- ===== src/Models/Examples.antt =====
-- Concrete uses of agent_peer/models.py.
use hermes_walkie_talkie.Prelude.{String, ◌≡◌, refl, none}
use hermes_walkie_talkie.Errors.{ok}
use hermes_walkie_talkie.Models.{Envelope, envelope, check_hops, protocol_id}
use hermes_walkie_talkie.Models.Uuid.{uuid_match, require_uuid}
use hermes_walkie_talkie.Models.Kinds
use hermes_walkie_talkie.Models.Kinds.{Kind}
use hermes_walkie_talkie.Models.Validation.{to_raw}

abbrev peer : String
peer = "6ba7b811-9dad-11d1-80b4-00c04fd430c8"

abbrev ping : Envelope
ping = record {
  protocol = protocol_id;
  message_id = peer;
  created_at = 10;
  expires_at = 20;
  sender = record { peer_id = peer; name = "a"; profile = "p" };
  recipient_peer_id = peer;
  kind = Kind.message;
  content = "hello";
  reply_to = none;
  conversation_id = none;
  hop_count = 0;
}

accepted : envelope (to_raw ping) ≡ ok ping
unfolding envelope require_uuid uuid_match check_hops Kinds.of_value Kinds.value
accepted = refl
