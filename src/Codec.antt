-- ===== src/Codec.antt =====
-- agent_peer/codec.py: decoding of an envelope and length-prefixed frames. Bytes are numbers. UTF-8,
-- the JSON parser and the parser of timestamps are parameters; the clock is an argument, read once for a whole `feed`.
pub mod Frames
pub mod Streams
pub mod Turns
pub mod Chunks
pub mod Examples
use hermes_walkie_talkie.Prelude.{
  ℕ, zero, suc, ◌+◌, ◌-◌, ◌*◌, ◌/◌, ◌%◌, ◌^◌, ◌≤◌, ◌<◌, min, String, ◌≡◌, refl, sym, ap, ◌∙◌, ◌≢◌,
  ◌↔◌, ◌⊎◌, inl, inr, Bool, true, false, ◌&&◌, ◌||◌, not, Option, none, some, List, [], ◌∷◌, ◌++◌,
  map, arith, str_eq, eq_iff, eq_refl, ltb, leb, ◌==◌, str_lt, if◌then◌else◌, ltb→lt, lt→ltb,
  leb→le, ==_iff, Bool-cases, Option-cases, is_some, or_else, length, take, drop, length-append,
  length-take, length-drop, All, All-append, All-imp, All-take, All-drop,
}
use Prim.Native.Char.{code}
use hermes_walkie_talkie.Errors.{
  Error, Result, ok, err, validation_error, unsupported_version, frame_error, oversized,
  attribute_error, ◌>>=◌, ◌>>◌, guard,
}
use hermes_walkie_talkie.Models.{
  PeerIdentity, peer_identity, RawEnvelope, Envelope, envelope, is_expired, ℤ, pos, protocol_id,
  protocol_id_v2,
}

-- What `json.loads` returns; a float is its text.
mutual
  pub data Json : Type 0 where
    null : Json
    boolean : Bool → Json
    integer : ℤ → Json
    float : String → Json
    text : String → Json
    array : Items → Json
    object : Fields → Json

  pub data Items : Type 0 where
    end : Items
    item : Json → Items → Items

  -- A dict: its keys differ.
  pub data Fields : Type 0 where
    end_fields : Fields
    field : String → Json → Fields → Fields

-- `fromisoformat(text).astimezone(UTC)`; `none` is an exception of the library.
pub record Library : Type 0 where
  pub encode : String → List ℕ
  pub decode : List ℕ → Option String
  pub loads : String → Option Json
  pub fromisoformat : String → Option ℕ

abbrev pub max_frame_bytes : ℕ
max_frame_bytes = 65536

-- `data.get(key)`
abbrev pub lookup : String → Fields → Option Json
lookup k end_fields = none
lookup k (field j v fs) = if str_eq j k then some v else lookup k fs

abbrev pub or_raise : {A : Type 0} → Error → Option A → Result A
or_raise e none = err e
or_raise e (some a) = ok a

-- `data[key]`, whose KeyError becomes a ValidationError.
abbrev pub required : String → Fields → Result Json
required k fs = or_raise validation_error (lookup k fs)

-- A value that has to be a string.
abbrev pub as_text : Json → Result String
as_text (text s) = ok s
as_text _ = err validation_error

-- `get(key, "")` of a value that has to be a string.
abbrev pub text_or_empty : Option Json → Result String
text_or_empty none = ok ""
text_or_empty (some v) = as_text v

-- A value that has to be a string or None.
abbrev pub optional_text : Option Json → Result (Option String)
optional_text none = ok none
optional_text (some null) = ok none
optional_text (some v) = do s ← as_text v; ok (some s)

-- `get("hop_count", 0)`; a bool is refused.
abbrev pub hops_of : Option Json → Result ℤ
hops_of none = ok (pos 0)
hops_of (some (integer n)) = ok n
hops_of (some _) = err validation_error

-- A dict, or the exception that the caller raises for another value.
abbrev pub as_object : Error → Json → Result Fields
as_object e (object fs) = ok fs
as_object e _ = err e

-- `value[:-1] + "+00:00" if value.endswith("Z") else value`
abbrev pub offset_of_zulu : String → String
offset_of_zulu String.[] = ""
offset_of_zulu (String.◌∷◌ c String.[]) =
    if code c == b'Z' then "+00:00" else String.◌∷◌ c String.[]
offset_of_zulu (String.◌∷◌ c (String.◌∷◌ d s)) = String.◌∷◌ c (offset_of_zulu (String.◌∷◌ d s))

-- `_parse_rfc3339`: a value that is not a string has no `endswith`, and the AttributeError is not
-- caught. The ValueError of the library becomes a ValidationError.
unfoldable pub parse_rfc3339 : Library → Json → Result ℕ
parse_rfc3339 lib (text s) = or_raise validation_error (lib.fromisoformat (offset_of_zulu s))
parse_rfc3339 lib _ = err attribute_error

abbrev pub sender_of : Fields → Result PeerIdentity
sender_of fs = do
  peer_id ← required "peer_id" fs
  peer ← as_text peer_id
  name ← text_or_empty (lookup "name" fs)
  profile ← text_or_empty (lookup "profile" fs)
  peer_identity (record { peer_id = peer; name = name; profile = profile })

-- `_dict_to_envelope`
unfoldable pub dict_to_envelope : Library → ℕ → Fields → Result Envelope
dict_to_envelope lib now fs = do
  sender_raw ← required "sender" fs
  sender_fields ← as_object validation_error sender_raw
  sender ← sender_of sender_fields
  protocol ← required "protocol" fs
  message_id ← required "message_id" fs
  created ← required "created_at" fs
  created_at ← parse_rfc3339 lib created
  expires ← required "expires_at" fs
  expires_at ← parse_rfc3339 lib expires
  recipient ← required "recipient_peer_id" fs
  kind ← required "kind" fs
  content ← required "content" fs
  protocol' ← as_text protocol
  message_id' ← as_text message_id
  recipient' ← as_text recipient
  kind' ← as_text kind
  content' ← as_text content
  reply_to ← optional_text (lookup "reply_to" fs)
  conversation_id ← optional_text (lookup "conversation_id" fs)
  hop_count ← hops_of (lookup "hop_count" fs)
  env ← envelope (record {
    protocol = protocol';
    message_id = message_id';
    created_at = created_at;
    expires_at = expires_at;
    sender = sender;
    recipient_peer_id = recipient';
    kind = kind';
    content = content';
    reply_to = reply_to;
    conversation_id = conversation_id;
    hop_count = hop_count;
  })
  guard (not (is_expired env now)) validation_error
  ok env

-- `protocol not in (PROTOCOL_ID, PROTOCOL_ID_V2)`
abbrev pub is_supported : Option Json → Bool
is_supported (some (text s)) = str_eq s protocol_id || str_eq s protocol_id_v2
is_supported _ = false

unfoldable pub decode_envelope : Library → ℕ → List ℕ → Result Envelope
decode_envelope lib now payload = do
  s ← or_raise frame_error (lib.decode payload)
  json ← or_raise frame_error (lib.loads s)
  fs ← as_object frame_error json
  guard (is_supported (lookup "protocol" fs)) unsupported_version
  dict_to_envelope lib now fs

-- `len(body).to_bytes(4, "big")`
abbrev pub to_bytes : ℕ → List ℕ
to_bytes n = n / 16777216 % 256 ∷ n / 65536 % 256 ∷ n / 256 % 256 ∷ n % 256 ∷ []

-- `int.from_bytes(raw_len, "big")`
abbrev pub from_bytes : ℕ → ℕ → ℕ → ℕ → ℕ
from_bytes a b c d = a * 16777216 + b * 65536 + c * 256 + d

unfoldable pub encode_frame : Library → String → Result (List ℕ)
encode_frame lib payload =
    let body = lib.encode payload in
    if ltb max_frame_bytes (length body) then err oversized else ok (to_bytes (length body) ++ body)

pub record FrameDecoder : Type 0 where
  pub buffer : List ℕ
  pub expected : Option ℕ

abbrev pub fresh : FrameDecoder
fresh = record { buffer = []; expected = none }

-- One turn of the loop of `feed`, up to the decoding of a complete payload.
pub data Turn : Type 0 where
  waits : FrameDecoder → Turn
  fails : Error → FrameDecoder → Turn
  frame : List ℕ → FrameDecoder → Turn

abbrev pub take_payload : ℕ → List ℕ → Turn
take_payload n buf =
    if ltb (length buf) n
    then waits (record { buffer = buf; expected = some n })
    else frame (take n buf) (record { buffer = drop n buf; expected = none })

abbrev pub take_length : ℕ → List ℕ → List ℕ → Turn
take_length n buf rest =
    if ltb max_frame_bytes n
    then fails oversized (record { buffer = buf; expected = none })
    else take_payload n rest

abbrev pub read_length : List ℕ → Turn
read_length (a ∷ b ∷ c ∷ d ∷ rest) = take_length (from_bytes a b c d) (a ∷ b ∷ c ∷ d ∷ rest) rest
read_length buf = waits (record { buffer = buf; expected = none })

abbrev pub turn_of : Option ℕ → List ℕ → Turn
turn_of none buf = read_length buf
turn_of (some n) buf = take_payload n buf

unfoldable pub turn : FrameDecoder → Turn
turn s = turn_of s.expected s.buffer

-- What the caller of `feed` has read when the generator ends, or raises.
pub record Fed : Type 0 where
  pub envelopes : List Envelope
  pub raised : Option Error
  pub decoder : FrameDecoder

-- `except ValidationError as exc: raise FrameError`
abbrev pub as_frame_error : Error → Error
as_frame_error validation_error = frame_error
as_frame_error e = e

abbrev pub yield_envelope : Result Envelope → FrameDecoder → Option Fed → Option Fed
yield_envelope (err e) s rest =
    some (record { envelopes = []; raised = some (as_frame_error e); decoder = s })
yield_envelope (ok env) s none = none
yield_envelope (ok env) s (some r) = some (record r { envelopes = env ∷ r.envelopes })

unfoldable pub feed_loop : Library → ℕ → ℕ → FrameDecoder → Option Fed
feed_loop lib now zero s = none
feed_loop lib now (suc f) s = elim (turn s) [
  | waits s' ↦ some (record { envelopes = []; raised = none; decoder = s' })
  | fails e s' ↦ some (record { envelopes = []; raised = some e; decoder = s' })
  | frame payload s' ↦ yield_envelope (decode_envelope lib now payload) s' (feed_loop lib now f s')
]

-- `feed`; two more turns than there are bytes are enough.
unfoldable pub feed : Library → ℕ → List ℕ → FrameDecoder → Option Fed
feed lib now bytes s =
    let buf = s.buffer ++ bytes in feed_loop lib now (length buf + 2) (record s { buffer = buf })
