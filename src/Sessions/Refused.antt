-- ===== src/Sessions/Refused.antt =====
-- A refused message of hermes_peer/sessions.py keeps no content.
use hermes_walkie_talkie.Prelude.{
  ℕ, String, ◌≡◌, refl, sym, ap, ◌≢◌, or_else, ◌∙◌, inl, inr, true, none, some, List, [], ◌∷◌, ◌++◌,
  leb, Bool-cases,
}
use hermes_walkie_talkie.Errors.{Result, ok, err}
use hermes_walkie_talkie.Models.{Envelope, Policy, is_expired}
use hermes_walkie_talkie.Models.ReceiptStates.{ReceiptState}
use hermes_walkie_talkie.Store.{Message, has_id, get, count_pending}
use hermes_walkie_talkie.Policy.{
  register_pending, Action, PolicyEngine, DeliveryDecision, allow, by_policy, evaluate,
}
use hermes_walkie_talkie.Delivery.Deliver.{Host, Delivered, row_of, deliver}
use hermes_walkie_talkie.Delivery.Once.{IsStored}
use hermes_walkie_talkie.Sessions.Inbound.{
  Manager, close, clear_content, forwarded, act, process, on_claim, on_inbound, decide,
  policy_engine_for,
}
use hermes_walkie_talkie.Sessions.Once.{IsStored-close}
use hermes_walkie_talkie.Sessions.Answers.{claim-own, IsStored-insert, first_where-update_own}

-- Only the action refuse has the state refused.
abbrev IsHonest : DeliveryDecision → Type 0
IsHonest d = d.state ≡ ReceiptState.refused → d.action ≡ Action.refuse

by_policy-IsHonest : (q : Policy) (e : Envelope) → IsHonest (by_policy q e)
by_policy-IsHonest Policy.hold e h = cc
by_policy-IsHonest Policy.refuse e h = refl
by_policy-IsHonest Policy.accept e h = cc

evaluate-IsHonest :
    (now tick : ℕ) (e : Envelope) (p : PolicyEngine) → IsHonest (evaluate now tick e p).0
unfolding evaluate
evaluate-IsHonest now tick e p = elim (Bool-cases (is_expired e now)) [
  | inl a ↦ rw a (λ h. cc)
  | inr a ↦ elim (Bool-cases (leb p.max_hop_count e.hop_count)) [
    | inl b ↦ rw (a, b) (λ h. cc)
    | inr b ↦ elim (Bool-cases (allow e.sender.peer_id e.recipient_peer_id tick p.limiter).0) [
      | inr c ↦ rw (a, b, c) (λ h. cc)
      | inl c ↦ elim (Bool-cases (leb p.capacity (p.pending e.recipient_peer_id))) [
        | inl d ↦ rw (a, b, c, d) (λ h. cc)
        | inr d ↦ rw (a, b, c, d) (by_policy-IsHonest p.policy e)
      ]
    ]
  ]
]

abbrev answer_or : ReceiptState → Result ReceiptState → ReceiptState
answer_or s (ok t) = t
answer_or s (err x) = s

abbrev IsCleared : String → List Message → Type 0
IsCleared mid ms = (r : Message) → get mid ms ≡ some r → r.content ≡ ""

clear_content-IsCleared :
    (mid : String) (ms : List Message) → IsStored mid ms → IsCleared mid (clear_content mid ms)
unfolding clear_content get
clear_content-IsCleared mid ms (x, h) = rw h λ r k.
    let own : some r ≡ some (record x { content = "" }) =
      sym k
      ∙ first_where-update_own (has_id mid) (λ m. record m { content = "" }) ms x (λ m. refl) h in
    ap (λ o. (or_else o (record x { content = "" })).content) own

forwarded-differs :
    (h : Host) (e : Envelope) (d : Delivered) → (forwarded h e d).state ≢ ReceiptState.refused
unfolding forwarded
forwarded-differs h e d = elim (Bool-cases d.accepted) [
  | inl c ↦ rw c (λ k. cc)
  | inr c ↦ rw c (λ k. cc)
]

act-IsCleared :
    (h : Host) (e : Envelope) (s : ReceiptState) (a : Action) (ms : List Message)
    → IsStored e.message_id ms
    → (s ≡ ReceiptState.refused → a ≡ Action.refuse)
    → (act h e s a ms).state ≡ ReceiptState.refused
    → IsCleared e.message_id (act h e s a ms).messages
unfolding act
act-IsCleared h e s Action.drop ms own f k = let bad : Action.drop ≡ Action.refuse = f k in cc
act-IsCleared h e s Action.refuse ms own f k =
    clear_content-IsCleared e.message_id (close h e ReceiptState.refused ms)
      (IsStored-close e.message_id h e ReceiptState.refused ms own)
act-IsCleared h e s Action.hold ms own f k = cc
act-IsCleared h e s Action.forward ms own f k =
    absurd (forwarded-differs h e (deliver h e true ms) k)

process-IsCleared :
    (h : Host) (now tick : ℕ) (e : Envelope) (m : Manager) (ms : List Message)
    → IsStored e.message_id ms
    → (process h now tick e m ms).answer ≡ ok ReceiptState.refused
    → IsCleared e.message_id (process h now tick e m ms).manager.messages
unfolding process decide
process-IsCleared h now tick e m ms own k =
    let d = (decide now tick e m ms).0 in
    act-IsCleared h e d.state d.action ms own
      (evaluate-IsHonest now tick e (
        register_pending e.recipient_peer_id (count_pending e.recipient_peer_id ms)
          (policy_engine_for e.recipient_peer_id m)))
      (ap (answer_or ReceiptState.refused) k)

-- When a message that was not stored is answered with refused, under whatever policy, the row that
-- is stored for it has no content.
pub on_inbound-IsCleared :
    (h : Host) (now tick : ℕ) (e : Envelope) (m : Manager) (r : Message)
    → get e.message_id m.messages ≡ none
    → (on_inbound h now tick e m).answer ≡ ok ReceiptState.refused
    → get e.message_id (on_inbound h now tick e m).manager.messages ≡ some r
    → r.content ≡ ""
unfolding on_inbound on_claim
on_inbound-IsCleared h now tick e m r n k g =
    let ms = m.messages ++ row_of h e ∷ [] in
    let same : on_inbound h now tick e m ≡ process h now tick e m ms =
      ap (on_claim h now tick e m) (claim-own h e m.messages none n) in
    process-IsCleared h now tick e m ms (IsStored-insert h e m.messages n)
      (sym (ap (λ i. i.answer) same) ∙ k) r
      (sym (ap (λ i. get e.message_id i.manager.messages) same) ∙ g)
