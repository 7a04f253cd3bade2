-- ===== src/Discovery/Challenge.antt =====
-- The challenge of agent_peer/discovery.py against the answer of agent_peer/runtime.py.
use hermes_walkie_talkie.Prelude.{◌+◌, String, Bool, ◌&&◌, Option, none, some, str_eq}
use hermes_walkie_talkie.Errors.{Result, ok, err}
use hermes_walkie_talkie.Models.{Envelope, protocol_id}
use hermes_walkie_talkie.Models.Kinds
use hermes_walkie_talkie.Models.Peers.{PeerRecord}
use hermes_walkie_talkie.Discovery.Records.{texts_eq}
use hermes_walkie_talkie.Discovery.Probe.{Claims, Challenge}
use hermes_walkie_talkie.Runtime.Replies.{Answering, Identity, zero_id, default_ttl, identity_of}

-- The dict that json.loads makes of an identity.
abbrev pub claims_of : Identity → Claims
claims_of i = record {
  nonce = some i.nonce;
  peer_id = some i.peer_id;
  instance_id = some i.instance_id;
  session_id = some i.session_id;
  agent_id = some i.agent_id;
  protocols = some i.protocols;
  protocol = some i.protocol;
  status = some i.status;
}

-- Does a listener's record have the identity that the registry's record promises?
abbrev pub agrees : PeerRecord → PeerRecord → Bool
agrees q r =
    str_eq q.instance_id r.instance_id
    && str_eq q.session_id r.session_id
    && str_eq q.agent_id r.agent_id
    && texts_eq q.protocols r.protocols
    && str_eq q.protocol r.protocol
    && str_eq q.status r.status

abbrev pub to_option : Result Envelope → Option Envelope
to_option (ok e) = some e
to_option (err x) = none

abbrev request : Challenge → PeerRecord → Envelope
request ch r = record {
  protocol = protocol_id;
  message_id = ch.probe_id;
  created_at = ch.now;
  expires_at = ch.now + 30000000;
  sender = record { peer_id = zero_id; name = "discovery"; profile = "" };
  recipient_peer_id = r.peer_id;
  kind = Kinds.discover;
  content = "discover";
  reply_to = none;
  conversation_id = some ch.nonce;
  hop_count = 0;
}

abbrev answer : Challenge → Answering → PeerRecord → Envelope
answer ch a q = record {
  protocol = protocol_id;
  message_id = a.new_id;
  created_at = a.now;
  expires_at = a.now + default_ttl;
  sender = record { peer_id = q.peer_id; name = q.name; profile = q.profile };
  recipient_peer_id = zero_id;
  kind = Kinds.alive;
  content = a.dumps (identity_of ch.nonce q);
  reply_to = none;
  conversation_id = some ch.nonce;
  hop_count = 0;
}
