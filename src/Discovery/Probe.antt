-- ===== src/Discovery/Probe.antt =====
-- `_probe_once` and `_cached_probe` of agent_peer/discovery.py: the DISCOVER challenge.
use hermes_walkie_talkie.Prelude.{
  ℕ, ◌+◌, ◌-◌, String, Bool, true, false, ◌&&◌, ◌||◌, not, Option, none, some, List, [], ◌∷◌,
  str_eq, ltb, if◌then◌else◌, or_else, length,
}
use Prim.Native.String.{◌++◌ as text_append}
use hermes_walkie_talkie.Errors.{Result, ok, err, ◌>>=◌}
use hermes_walkie_talkie.Models.{Envelope, envelope, peer_identity, pos, protocol_id}
use hermes_walkie_talkie.Models.Kinds
use hermes_walkie_talkie.Models.Kinds.{Kind}
use hermes_walkie_talkie.Models.Peers.{PeerRecord}
use hermes_walkie_talkie.Discovery.Records.{texts_eq}
use hermes_walkie_talkie.Runtime.Replies.{zero_id}

-- The dict in an ALIVE reply as `get` reads it; `none` is a missing key.
pub record Claims : Type 0 where
  pub nonce : Option String
  pub peer_id : Option String
  pub instance_id : Option String
  pub session_id : Option String
  pub agent_id : Option String
  pub protocols : Option (List String)
  pub protocol : Option String
  pub status : Option String

-- What a probe takes from outside: the nonce and message id it makes up, the clock, the exchange
-- with the listener at a socket path (`none` is an OSError or an AgentPeerError), and json.loads
-- (`none` where the text is no JSON, or no dict).
pub record Challenge : Type 0 where
  pub nonce : String
  pub probe_id : String
  pub now : ℕ
  pub exchange : String → Envelope → Option Envelope
  pub loads : String → Option Claims

-- `value == expected` for a value that may be missing
abbrev pub equals : Option String → String → Bool
equals none t = false
equals (some s) t = str_eq s t

-- The comparisons with the record.
unfoldable pub proves : String → PeerRecord → Claims → Bool
proves nonce r c =
    equals c.nonce nonce
    && equals c.peer_id r.peer_id
    && equals c.instance_id r.instance_id
    && equals c.session_id r.session_id
    && equals c.agent_id r.agent_id
    && texts_eq (or_else c.protocols []) r.protocols
    && equals c.protocol r.protocol
    && equals c.status r.status

unfoldable pub read_claims : String → PeerRecord → Option Claims → Option Claims
read_claims nonce r none = none
read_claims nonce r (some c) = if proves nonce r c then some c else none

abbrev pub is_alive : Kind → Bool
is_alive Kind.alive = true
is_alive _ = false

unfoldable pub read_alive : Challenge → PeerRecord → Option Envelope → Option Claims
read_alive ch r none = none
read_alive ch r (some reply) =
    if not (is_alive reply.kind)
    then none
    else if not (equals reply.conversation_id ch.nonce)
        || not (str_eq reply.sender.peer_id r.peer_id)
    then none
    else read_claims ch.nonce r (ch.loads reply.content)

-- The DISCOVER envelope, which lives for 30 seconds.
unfoldable pub discover_request : Challenge → PeerRecord → Result Envelope
discover_request ch r =
    peer_identity (record { peer_id = zero_id; name = "discovery"; profile = "" }) >>= λ sender.
    envelope (record {
      protocol = protocol_id;
      message_id = ch.probe_id;
      created_at = ch.now;
      expires_at = ch.now + 30000000;
      sender = sender;
      recipient_peer_id = r.peer_id;
      kind = Kinds.value Kinds.discover;
      content = "discover";
      reply_to = none;
      conversation_id = some ch.nonce;
      hop_count = pos 0;
    })

-- `_probe_once`; an exception of the Envelope's constructor leaves it.
unfoldable pub probe_once : Challenge → PeerRecord → Result (Option Claims)
probe_once ch r =
    let asked = discover_request ch r >>= λ e. ok (read_alive ch r (ch.exchange r.socket_path e)) in
    if str_eq r.socket_path "" then ok none else asked

-- An entry of the probe cache.
pub record Entry : Type 0 where
  pub key : String
  pub at : ℕ
  pub found : Option Claims

abbrev pub probe_ttl : ℕ
probe_ttl = 2000000

abbrev pub max_cache : ℕ
max_cache = 256

-- The key of a record; `sep` is the NUL character.
abbrev pub cache_key : String → PeerRecord → String
cache_key sep r =
    text_append r.peer_id
      (text_append sep (text_append r.socket_path (text_append sep r.last_seen)))

-- `cache.get(key)`
abbrev pub cached : String → List Entry → Option Entry
cached k [] = none
cached k (e ∷ es) = if str_eq e.key k then some e else cached k es

-- `now - at < ttl`
abbrev pub is_young : ℕ → Entry → Bool
is_young now e = ltb (now - e.at) probe_ttl

abbrev pub keep_young : ℕ → List Entry → List Entry
keep_young now [] = []
keep_young now (e ∷ es) = let rest = keep_young now es in if is_young now e then e ∷ rest else rest

abbrev pub store_entry : Entry → List Entry → List Entry
store_entry e [] = e ∷ []
store_entry e (d ∷ ds) =
    let rest = store_entry e ds in if str_eq d.key e.key then e ∷ ds else d ∷ rest

-- The end of `_cached_probe`: a large cache drops its old entries first.
unfoldable pub remember : ℕ → Entry → List Entry → List Entry
remember now e cache =
    store_entry e (if ltb max_cache (length cache) then keep_young now cache else cache)

unfoldable pub probe_missed :
    Challenge
    → String
    → PeerRecord
    → List Entry
    → Result (Option Claims)
    → Result (Option Claims) × List Entry
probe_missed ch k r cache (err x) = (err x, cache)
probe_missed ch k r cache (ok found) =
    (ok found, remember ch.now (record { key = k; at = ch.now; found = found }) cache)

unfoldable pub probe_cached :
    Challenge
    → String
    → PeerRecord
    → List Entry
    → Option Entry
    → Result (Option Claims) × List Entry
probe_cached ch k r cache none = probe_missed ch k r cache (probe_once ch r)
probe_cached ch k r cache (some e) =
    let again = probe_missed ch k r cache (probe_once ch r) in
    if is_young ch.now e then (ok e.found, cache) else again

-- `_cached_probe`
unfoldable pub cached_probe :
    Challenge → String → PeerRecord → List Entry → Result (Option Claims) × List Entry
cached_probe ch sep r cache =
    probe_cached ch (cache_key sep r) r cache (cached (cache_key sep r) cache)
