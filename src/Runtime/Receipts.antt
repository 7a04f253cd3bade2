-- ===== src/Runtime/Receipts.antt =====
-- What `send` of agent_peer/runtime.py hands to the transport.
use hermes_walkie_talkie.Prelude.{
  String, ◌≡◌, refl, sym, ap, ◌∙◌, inl, inr, Option, none, some, List, str_eq, Bool-cases,
}
use hermes_walkie_talkie.Table.{first_where}
use hermes_walkie_talkie.Errors.{Result, ok, err}
use hermes_walkie_talkie.Models.{PeerIdentity, peer_identity, Envelope, envelope}
use hermes_walkie_talkie.Models.Uuid.{require_uuid}
use hermes_walkie_talkie.Models.Validation.{to_raw, IsWellFormed, envelope_iff}
use hermes_walkie_talkie.Models.Peers.{PeerRecord}
use hermes_walkie_talkie.Registry.Constructor.{bind_ok, ok-injective}
use hermes_walkie_talkie.Runtime.Replies.{is_record}
use hermes_walkie_talkie.Runtime.Sending.{
  Transport, authenticate_sender, stamp_sender, send_to, send_stamped, send_as, send,
}

-- The envelope with the registered peer's identity as its sender.
abbrev pub stamped : Envelope → PeerRecord → Envelope
stamped e r = record e {
  sender = record { peer_id = r.peer_id; name = r.name; profile = r.profile };
}

stamped-IsWellFormed : (e : Envelope) (r : PeerRecord) → IsWellFormed e → IsWellFormed (stamped e r)
stamped-IsWellFormed e r w = record {
  protocol = w.protocol;
  message_id = w.message_id;
  lifetime = w.lifetime;
  recipient = w.recipient;
  content = w.content;
  reply_to = w.reply_to;
  hops = w.hops;
}

stamped-envelope :
    (e : Envelope) (r : PeerRecord)
    → IsWellFormed e
    → envelope (to_raw (stamped e r)) ≡ ok (stamped e r)
stamped-envelope e r w =
    (envelope_iff (to_raw (stamped e r)) (stamped e r)).1 (refl, stamped-IsWellFormed e r w)

peer_identity-ok : (p q : PeerIdentity) → peer_identity p ≡ ok q → p ≡ q
unfolding peer_identity
peer_identity-ok p q h =
    let (u, k, same) = bind_ok (require_uuid p.peer_id) (λ _. ok p) q h in ok-injective p q same

stamp_sender-ok :
    (e w : Envelope) (r : PeerRecord) → IsWellFormed e → stamp_sender e r ≡ ok w → w ≡ stamped e r
unfolding stamp_sender
stamp_sender-ok e w r wf h =
    let p : PeerIdentity = record { peer_id = r.peer_id; name = r.name; profile = r.profile } in
    let (sender, k, made) =
      bind_ok (peer_identity p) (λ q. envelope (to_raw (record e { sender = q }))) w h in
    let same : p ≡ sender = peer_identity-ok p sender k in
    ok-injective w (stamped e r) (sym made ∙ rw (← same) (stamped-envelope e r wf))

handed_to :
    (t : Transport) (e w : Envelope) (o : Option PeerRecord)
    → (send_to t e o).handed ≡ some w
    → w ≡ e
unfolding send_to
handed_to t e w none h = cc
handed_to t e w (some r) h = elim (Bool-cases (str_eq r.socket_path "")) [
  | inl c ↦ let k : none ≡ some w = rw c at h in cc
  | inr c ↦ let k : some e ≡ some w = rw c at h in cc
]

handed_stamped :
    (t : Transport) (get : String → Option PeerRecord) (o : Result Envelope) (w : Envelope)
    → (send_stamped t get o).handed ≡ some w
    → o ≡ ok w
unfolding send_stamped
handed_stamped t get (err x) w h = cc
handed_stamped t get (ok e) w h = ap ok (sym (handed_to t e w (get e.recipient_peer_id) h))

handed_as :
    (t : Transport) (get : String → Option PeerRecord) (e w : Envelope) (o : Option PeerRecord)
    → IsWellFormed e
    → (send_as t get e o).handed ≡ some w
    → (r : PeerRecord) × (o ≡ some r) × (w ≡ stamped e r)
unfolding send_as
handed_as t get e w none wf h = cc
handed_as t get e w (some r) wf h =
    (r, refl, stamp_sender-ok e w r wf (handed_stamped t get (stamp_sender e r) w h))

-- Whatever envelope `send` hands to the transport, its sender is a peer that is registered in this
-- runtime under the sender's peer id, with that peer's name and profile, and nothing else of the
-- envelope is changed; the caller's envelope is one that the constructor accepts.
pub send-stamped :
    (t : Transport) (get : String → Option PeerRecord) (peers : List PeerRecord) (e w : Envelope)
    → IsWellFormed e
    → (send t get peers e).handed ≡ some w
    → (r : PeerRecord) × (first_where (is_record e.sender.peer_id) peers ≡ some r)
      × (w ≡ stamped e r)
unfolding send authenticate_sender
send-stamped t get peers e w wf h =
    handed_as t get e w (first_where (is_record e.sender.peer_id) peers) wf h
