-- ===== src/Sessions/Answers.antt =====
-- The answer to an inbound message of hermes_peer/sessions.py is the state of its row.
use hermes_walkie_talkie.Prelude.{
  ℕ, String, ◌≡◌, refl, sym, ap, ◌∙◌, inl, inr, Bool, true, false, Option, none, some, List, [],
  ◌∷◌, ◌++◌, arith, eq_refl, str_eq, if◌then◌else◌, Bool-cases,
}
use mathlib.Core.Path.{subst}
use hermes_walkie_talkie.Errors.{ok}
use hermes_walkie_talkie.Table.{first_where, update_where}
use hermes_walkie_talkie.Table.Laws.{first_where-append_none, first_where-update}
use hermes_walkie_talkie.Models.{Envelope}
use hermes_walkie_talkie.Models.ReceiptStates
use hermes_walkie_talkie.Models.ReceiptStates.{ReceiptState}
use hermes_walkie_talkie.Models.Peers.{PeerRecord}
use hermes_walkie_talkie.Store.{Message, has_id, get, claim, transition}
use hermes_walkie_talkie.Store.Claims.{claim_spec, claim-eq-spec}
use hermes_walkie_talkie.Policy.{Action}
use hermes_walkie_talkie.Delivery.Deliver.{
  Host, Delivered, row_of, settle, inject, deliver_to, deliver_resolved, deliver,
}
use hermes_walkie_talkie.Delivery.Once.{IsStored, IsStored-settle, deliver-supported}
use hermes_walkie_talkie.Sessions.Inbound.{
  Manager, Inbound, close, clear_content, forwarded, act, process, on_claim, on_inbound, decide,
}

-- The row of message `mid` is in state `s`.
abbrev pub IsIn : String → ReceiptState → List Message → Type 0
IsIn mid s ms = (r : Message) × (get mid ms ≡ some r) × (r.state ≡ ReceiptStates.value s)

module _ {ℓ} {A : Type ℓ} where
  first_where-holds : (p : A → Bool) (xs : List A) (a : A) → first_where p xs ≡ some a → p a ≡ true
  first_where-holds p [] a h = cc
  first_where-holds p (x ∷ xs) a h = ground (arith, first_where-holds p xs a)

  -- An update of the rows that a test holds of, which leaves the test alone, is found again.
  pub first_where-update_own :
      (p : A → Bool) (f : A → A) (xs : List A) (a : A)
      → ((x : A) → p (f x) ≡ p x)
      → first_where p xs ≡ some a
      → first_where p (update_where p f xs) ≡ some (f a)
  first_where-update_own p f xs a k h =
      first_where-update p p f xs a k h
      ∙ ap (λ b. some (if b then f a else a)) (first_where-holds p xs a h)

transition-IsIn :
    (mid now : String) (s : ReceiptState) (ms : List Message)
    → IsStored mid ms
    → IsIn mid s (transition mid (ReceiptStates.value s) now ms).1
unfolding get transition
transition-IsIn mid now s ms (m, h) = (
  record m { state = ReceiptStates.value s; delivered_at = some now },
  first_where-update_own (has_id mid)
      (λ x. record x { state = ReceiptStates.value s; delivered_at = some now }) ms m (λ x. refl) h,
  refl,
)

-- What a forced delivery of a stored message does: nothing, or it settles the row.
pub data Forced (h : Host) (e : Envelope) (ms : List Message) (d : Delivered) : Type 0 where
  declined : d.accepted ≡ false → d.messages ≡ ms → Forced h e ms d
  settled : d.messages ≡ settle h e true d.accepted ms → Forced h e ms d

to_forced :
    (h : Host) (e : Envelope) (r : PeerRecord) (o : Option Message) (x : Message)
    (ms : List Message)
    → o ≡ some x
    → Forced h e ms (deliver_to h e true r o ms)
unfolding deliver_to inject
to_forced h e r none x ms k = cc
to_forced h e r (some m) x ms k = settled refl

resolved-Forced :
    (h : Host) (e : Envelope) (o : Option PeerRecord) (ms : List Message)
    → IsStored e.message_id ms
    → Forced h e ms (deliver_resolved h e true o ms)
unfolding deliver_resolved
resolved-Forced h e none ms s = declined refl refl
resolved-Forced h e (some r) ms (x, k) = elim (Bool-cases (str_eq r.host_target "")) [
  | inl c ↦ rw c (declined refl refl)
  | inr c ↦ rw c (to_forced h e r (get e.message_id ms) x ms k)
]

pub deliver-Forced :
    (h : Host) (e : Envelope) (ms : List Message)
    → IsStored e.message_id ms
    → Forced h e ms (deliver h e true ms)
unfolding deliver
deliver-Forced h e ms s = elim (Bool-cases h.supported) [
  | inl c ↦
      subst (Forced h e ms) (sym (deliver-supported h e true ms c))
        (resolved-Forced h e (h.resolve_peer e.recipient_peer_id) ms s)
  | inr c ↦ rw c (declined refl refl)
]

close-IsIn :
    (h : Host) (e : Envelope) (s : ReceiptState) (ms : List Message)
    → IsStored e.message_id ms
    → IsIn e.message_id s (close h e s ms)
close-IsIn h e s ms k = transition-IsIn e.message_id h.now s ms k

clear_content-IsIn :
    (mid : String) (s : ReceiptState) (ms : List Message)
    → IsIn mid s ms
    → IsIn mid s (clear_content mid ms)
unfolding clear_content get
clear_content-IsIn mid s ms (r, h, k) = rw h (
  record r { content = "" },
  first_where-update_own (has_id mid) (λ x. record x { content = "" }) ms r (λ x. refl) h,
  k,
)

forwarded-IsIn :
    (h : Host) (e : Envelope) (ms : List Message) (d : Delivered)
    → IsStored e.message_id ms
    → Forced h e ms d
    → IsIn e.message_id (forwarded h e d).state (forwarded h e d).messages
unfolding forwarded settle
forwarded-IsIn h e ms d k (declined c m) =
    rw c (close-IsIn h e ReceiptState.held d.messages (subst (IsStored e.message_id) (sym m) k))
forwarded-IsIn h e ms d k (settled m) = elim (Bool-cases d.accepted) [
  | inl c ↦ rw c (
      subst (IsIn e.message_id ReceiptState.queued) (sym (m ∙ ap (λ b. settle h e true b ms) c))
        (close-IsIn h e ReceiptState.queued ms k))
  | inr c ↦ rw c (
      close-IsIn h e ReceiptState.held d.messages (
        subst (IsStored e.message_id) (sym m)
          (IsStored-settle e.message_id h e true d.accepted ms k)))
]

act-IsIn :
    (h : Host) (e : Envelope) (s : ReceiptState) (a : Action) (ms : List Message)
    → IsStored e.message_id ms
    → IsIn e.message_id (act h e s a ms).state (act h e s a ms).messages
unfolding act
act-IsIn h e s Action.drop ms k = close-IsIn h e s ms k
act-IsIn h e s Action.refuse ms k =
    clear_content-IsIn e.message_id ReceiptState.refused (close h e ReceiptState.refused ms)
      (close-IsIn h e ReceiptState.refused ms k)
act-IsIn h e s Action.hold ms k = close-IsIn h e ReceiptState.held ms k
act-IsIn h e s Action.forward ms k =
    forwarded-IsIn h e ms (deliver h e true ms) k (deliver-Forced h e ms k)

-- The answer is a state, and the row of the message is in it.
abbrev pub Answers : String → Inbound → Type 0
Answers mid i = (s : ReceiptState) × (i.answer ≡ ok s) × IsIn mid s i.manager.messages

process-Answers :
    (h : Host) (now tick : ℕ) (e : Envelope) (m : Manager) (ms : List Message)
    → IsStored e.message_id ms
    → Answers e.message_id (process h now tick e m ms)
unfolding process
process-Answers h now tick e m ms k =
    let d = (decide now tick e m ms).0 in
    ((act h e d.state d.action ms).state, refl, act-IsIn h e d.state d.action ms k)

pub claim-own :
    (h : Host) (e : Envelope) (ms : List Message) (o : Option Message)
    → get e.message_id ms ≡ o
    → claim (row_of h e) ms ≡ claim_spec o (row_of h e) ms
unfolding row_of
claim-own h e ms o k = claim-eq-spec (row_of h e) ms ∙ ap (λ x. claim_spec x (row_of h e) ms) k

pub IsStored-insert :
    (h : Host) (e : Envelope) (ms : List Message)
    → get e.message_id ms ≡ none
    → IsStored e.message_id (ms ++ row_of h e ∷ [])
unfolding get row_of
IsStored-insert h e ms n = (
  row_of h e,
  first_where-append_none (has_id e.message_id) ms (row_of h e ∷ []) n
      ∙ rw (eq_refl e.message_id) refl,
)

-- A message id that is not stored is claimed, whatever the policy, the limits and the host say: the
-- caller gets a state, never an error, and the row of the message is stored in that state.
pub on_inbound-Answers :
    (h : Host) (now tick : ℕ) (e : Envelope) (m : Manager)
    → get e.message_id m.messages ≡ none
    → Answers e.message_id (on_inbound h now tick e m)
unfolding on_inbound on_claim
on_inbound-Answers h now tick e m n = rw (claim-own h e m.messages none n) (
    process-Answers h now tick e m (m.messages ++ row_of h e ∷ [])
      (IsStored-insert h e m.messages n))

-- An inbound message whose id is stored is answered with the state of the stored row; nothing is
-- injected, and the store, the engine and the session policies stay as they are.
pub on_inbound-duplicate :
    (h : Host) (now tick : ℕ) (e : Envelope) (m : Manager) (r : Message)
    → get e.message_id m.messages ≡ some r
    → on_inbound h now tick e m
      ≡ record { answer = ReceiptStates.of_value r.state; injected = none; manager = m }
unfolding on_inbound on_claim
on_inbound-duplicate h now tick e m r k = rw (claim-own h e m.messages (some r) k) refl
