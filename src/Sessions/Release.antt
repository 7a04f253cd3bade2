-- ===== src/Sessions/Release.antt =====
-- `release_message` and `refuse_message` of hermes_peer/sessions.py.
use hermes_walkie_talkie.Prelude.{
  ℕ, String, ◌≡◌, refl, ◌⊎◌, inl, inr, Bool, true, false, Option, none, some, List, [], ◌∷◌, str_eq,
  eq_iff, if◌then◌else◌, Bool-cases,
}
use hermes_walkie_talkie.Errors.{Result, ok, err, value_error, ◌>>=◌}
use hermes_walkie_talkie.Models.{Envelope, peer_identity, pos}
use hermes_walkie_talkie.Models.Kinds
use hermes_walkie_talkie.Models.ReceiptStates
use hermes_walkie_talkie.Models.ReceiptStates.{ReceiptState}
use hermes_walkie_talkie.Models.Peers.{PeerRecord, make_envelope}
use hermes_walkie_talkie.Policy.{second}
use hermes_walkie_talkie.Store.{Message, get, transition}
use hermes_walkie_talkie.Delivery.Deliver.{Host, deliver}

-- The dict of the active sessions, in insertion order.
abbrev pub Sessions : Type 0
Sessions = List (String × PeerRecord)

abbrev pub session : String → Sessions → Option PeerRecord
session sid [] = none
session sid ((k, r) ∷ ps) = if str_eq k sid then some r else session sid ps

abbrev required : Option PeerRecord → Result PeerRecord
required none = err value_error
required (some r) = ok r

-- `_require_session`
unfoldable pub require_session : String → Sessions → Result PeerRecord
require_session sid ps = required (session sid ps)

-- The session of a call without a session id is the only active one.
unfoldable pub choose_session : Option String → Sessions → Result PeerRecord
choose_session (some sid) ps = require_session sid ps
choose_session none ((k, r) ∷ []) = require_session k ((k, r) ∷ [])
choose_session none [] = err value_error
choose_session none (p ∷ q ∷ ps) = err value_error

-- `_envelope_from_row`; fromisoformat is a parameter, and its second is that of the limiter.
unfoldable pub envelope_from_row : (String → Result ℕ) → String → Message → Result Envelope
envelope_from_row fromisoformat new_id row = do
  sender ← peer_identity (record { peer_id = row.sender_peer_id; name = "peer"; profile = "" })
  kind ← Kinds.of_value row.kind
  now ← fromisoformat row.created_at
  make_envelope new_id now (some row.message_id) sender row.recipient_peer_id kind row.content
      row.reply_to row.conversation_id (pos row.hop_count) (pos second)

-- What a call returns, the text that it injected, and the store after it.
pub record Released : Type 0 where
  pub answer : Result Bool
  pub injected : Option (List ℕ)
  pub messages : List Message

abbrev pub untouched : Result Bool → List Message → Released
untouched answer ms = record { answer = answer; injected = none; messages = ms }

unfoldable pub delivered : Host → List Message → Result Envelope → Released
delivered h ms (err x) = untouched (ok false) ms
delivered h ms (ok e) =
    let d = deliver h e true ms in
    record { answer = ok d.accepted; injected = d.injected; messages = d.messages }

-- What `refuse_message` does with the row.
unfoldable pub refused : Host → String → List Message → Released
refused h mid ms =
    let (changed, ms') = transition mid (ReceiptStates.value ReceiptState.refused) h.now ms in
    record { answer = ok changed; injected = none; messages = ms' }

-- The tests that both calls make before they act on a row.
unfoldable pub on_held :
    PeerRecord → Option Message → (Message → Released) → List Message → Released
on_held rec none f ms = untouched (ok false) ms
on_held rec (some row) f ms =
    if str_eq row.state (ReceiptStates.value ReceiptState.held)
    then if str_eq row.recipient_peer_id rec.peer_id then f row else untouched (ok false) ms
    else untouched (ok false) ms

abbrev on_session : Result PeerRecord → String → (Message → Released) → List Message → Released
on_session (err x) mid f ms = untouched (err x) ms
on_session (ok rec) mid f ms = on_held rec (get mid ms) f ms

unfoldable pub release_message :
    Host
    → (String → Result ℕ)
    → String
    → String
    → Option String
    → Sessions
    → List Message
    → Released
release_message h fromisoformat new_id mid sid ps ms =
    on_session (choose_session sid ps) mid
      (λ row. delivered h ms (envelope_from_row fromisoformat new_id row)) ms

unfoldable pub refuse_message : Host → String → Option String → Sessions → List Message → Released
refuse_message h mid sid ps ms = on_session (choose_session sid ps) mid (λ row. refused h mid ms) ms

-- The message is held for the session that the call chooses.
abbrev pub IsOwn : String → Option String → Sessions → List Message → Type 0
IsOwn mid sid ps ms =
    (rec : PeerRecord) × (row : Message) × (choose_session sid ps ≡ ok rec)
    × (get mid ms ≡ some row)
    × (row.state ≡ ReceiptStates.value ReceiptState.held)
    × (row.recipient_peer_id ≡ rec.peer_id)

abbrev pub IsUntouched : List Message → Released → Type 0
IsUntouched ms r = (r.messages ≡ ms) × (r.injected ≡ none)

held_or :
    (mid : String) (sid : Option String) (ps : Sessions) (rec : PeerRecord) (o : Option Message)
    (f : Message → Released) (ms : List Message)
    → choose_session sid ps ≡ ok rec
    → get mid ms ≡ o
    → IsOwn mid sid ps ms ⊎ IsUntouched ms (on_held rec o f ms)
unfolding on_held
held_or mid sid ps rec none f ms c g = inr (refl, refl)
held_or mid sid ps rec (some row) f ms c g =
    elim (Bool-cases (str_eq row.state (ReceiptStates.value ReceiptState.held))) [
      | inr a ↦ rw a (inr (refl, refl))
      | inl a ↦ elim (Bool-cases (str_eq row.recipient_peer_id rec.peer_id)) [
        | inr b ↦ rw (a, b) (inr (refl, refl))
        | inl b ↦ inl (
          rec,
          row,
          c,
          g,
          (eq_iff row.state (ReceiptStates.value ReceiptState.held)).0 a,
          (eq_iff row.recipient_peer_id rec.peer_id).0 b,
        )
      ]
    ]

session_or :
    (mid : String) (sid : Option String) (ps : Sessions) (o : Result PeerRecord)
    (f : Message → Released) (ms : List Message)
    → choose_session sid ps ≡ o
    → IsOwn mid sid ps ms ⊎ IsUntouched ms (on_session o mid f ms)
session_or mid sid ps (err x) f ms c = inr (refl, refl)
session_or mid sid ps (ok rec) f ms c = held_or mid sid ps rec (get mid ms) f ms c refl

-- A release and a refusal change the store, or inject a text, only when the message is stored as held
-- and its recipient is exactly the peer of the chosen session; else the store stays as it is and
-- nothing is injected.
pub release_message-IsOwn :
    (h : Host) (fromisoformat : String → Result ℕ) (new_id mid : String) (sid : Option String)
    (ps : Sessions) (ms : List Message)
    → (IsOwn mid sid ps ms ⊎ IsUntouched ms (release_message h fromisoformat new_id mid sid ps ms))
      × (IsOwn mid sid ps ms ⊎ IsUntouched ms (refuse_message h mid sid ps ms))
unfolding release_message refuse_message
release_message-IsOwn h fromisoformat new_id mid sid ps ms = (
  session_or mid sid ps (choose_session sid ps)
      (λ row. delivered h ms (envelope_from_row fromisoformat new_id row)) ms refl,
  session_or mid sid ps (choose_session sid ps) (λ row. refused h mid ms) ms refl,
)
