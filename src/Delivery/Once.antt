-- ===== src/Delivery/Once.antt =====
-- A message of hermes_peer/delivery.py is injected at most once by calls without force that come one
-- after another.
use hermes_walkie_talkie.Prelude.{
  ℕ, ◌+◌, ◌≤◌, String, ◌≡◌, refl, sym, ap, ◌∙◌, inl, inr, Bool, true, false, Option, none, some,
  List, [], ◌∷◌, arith, str_eq, eq_iff, eq_refl, if◌then◌else◌, Bool-cases, Option-cases,
}
use mathlib.Core.Path.{subst}
use hermes_walkie_talkie.Table.{first_where}
use hermes_walkie_talkie.Table.Laws.{
  first_where-append, first_where-append_none, first_where-update,
}
use hermes_walkie_talkie.Models.{Envelope}
use hermes_walkie_talkie.Models.ReceiptStates
use hermes_walkie_talkie.Models.Peers.{PeerRecord}
use hermes_walkie_talkie.Store.{Message, has_id, get, record_row, transition}
use hermes_walkie_talkie.Delivery.Deliver.{
  Host, Delivered, row_of, wrap, is_accepted, settle, inject, deliver_to, deliver_resolved, deliver,
}

abbrev pub IsStored : String → List Message → Type 0
IsStored mid ms = (m : Message) × (get mid ms ≡ some m)

abbrev pub count_injected : Option (List ℕ) → ℕ
count_injected none = 0
count_injected (some t) = 1

-- How often the text of message `mid` is injected by calls of `deliver` without force.
abbrev pub injections : String → List (Host × Envelope) → List Message → ℕ
injections mid [] ms = 0
injections mid ((h, e) ∷ cs) ms =
    let rest = injections mid cs (deliver h e false ms).messages in
    if str_eq e.message_id mid then count_injected (deliver h e false ms).injected + rest else rest

pub IsStored-transition :
    (mid k s now : String) (ms : List Message)
    → IsStored mid ms
    → IsStored mid (transition k s now ms).1
unfolding get transition
IsStored-transition mid k s now ms (m, h) = (
  _,
  first_where-update (has_id mid) (has_id k) (λ x. record x { state = s; delivered_at = some now })
      ms m (λ x. refl) h,
)

pub IsStored-settle :
    (mid : String) (h : Host) (e : Envelope) (existed accepted : Bool) (ms : List Message)
    → IsStored mid ms
    → IsStored mid (settle h e existed accepted ms)
unfolding settle
IsStored-settle mid h e existed false ms s =
    IsStored-transition mid e.message_id (ReceiptStates.value ReceiptStates.held) h.now ms s
IsStored-settle mid h e false true ms s = s
IsStored-settle mid h e true true ms s =
    IsStored-transition mid e.message_id (ReceiptStates.value ReceiptStates.queued) h.now ms s

IsStored-record :
    (mid : String) (row : Message) (ms : List Message)
    → IsStored mid ms
    → IsStored mid (record_row row ms).1
unfolding get record_row
IsStored-record mid row ms (m, h) = elim (Option-cases (first_where (has_id row.message_id) ms)) [
  | inl e ↦ (m, rw e (first_where-append (has_id mid) ms (row ∷ []) m h))
  | inr (x, e) ↦ (m, rw e h)
]

record-IsStored :
    (row : Message) (ms : List Message) → IsStored row.message_id (record_row row ms).1
unfolding get record_row
record-IsStored row ms = elim (Option-cases (first_where (has_id row.message_id) ms)) [
  | inl e ↦ (
    row,
    rw e (
        first_where-append_none (has_id row.message_id) ms (row ∷ []) e
        ∙ rw (eq_refl row.message_id) refl),
  )
  | inr (x, e) ↦ (x, rw e e)
]

record_row-own :
    (h : Host) (e : Envelope) (ms : List Message)
    → IsStored e.message_id (record_row (row_of h e) ms).1
unfolding row_of
record_row-own h e ms = record-IsStored (row_of h e) ms

-- What a delivery without force does: nothing, or it injects a message that was not stored and is then.
pub data Outcome (mid : String) (e : Envelope) (ms : List Message) (d : Delivered) : Type 0 where
  idle : d.injected ≡ none → d.messages ≡ ms → Outcome mid e ms d
  sent :
      get e.message_id ms ≡ none
      → IsStored e.message_id d.messages
      → (IsStored mid ms → IsStored mid d.messages)
      → Outcome mid e ms d

to_outcome :
    (mid : String) (h : Host) (e : Envelope) (r : PeerRecord) (o : Option Message)
    (ms : List Message)
    → get e.message_id ms ≡ o
    → Outcome mid e ms (deliver_to h e false r o ms)
unfolding deliver_to inject
to_outcome mid h e r (some m) ms k = idle refl refl
to_outcome mid h e r none ms k =
    let accepted = is_accepted (h.inject_message (wrap e) r.host_target) in
    let stored = (record_row (row_of h e) ms).1 in
    sent k (IsStored-settle e.message_id h e false accepted stored (record_row-own h e ms))
      (λ s. IsStored-settle mid h e false accepted stored (IsStored-record mid (row_of h e) ms s))

resolved_outcome :
    (mid : String) (h : Host) (e : Envelope) (o : Option PeerRecord) (ms : List Message)
    → Outcome mid e ms (deliver_resolved h e false o ms)
unfolding deliver_resolved
resolved_outcome mid h e none ms = idle refl refl
resolved_outcome mid h e (some r) ms = elim (Bool-cases (str_eq r.host_target "")) [
  | inl c ↦ rw c (idle refl refl)
  | inr c ↦ rw c (to_outcome mid h e r (get e.message_id ms) ms refl)
]

pub deliver-supported :
    (h : Host) (e : Envelope) (force : Bool) (ms : List Message)
    → h.supported ≡ true
    → deliver h e force ms ≡ deliver_resolved h e force (h.resolve_peer e.recipient_peer_id) ms
unfolding deliver
deliver-supported h e force ms c =
    ap
      (λ b.
        if b
        then deliver_resolved h e force (h.resolve_peer e.recipient_peer_id) ms
        else record { accepted = false; injected = none; messages = ms })
      c

outcome :
    (mid : String) (h : Host) (e : Envelope) (ms : List Message)
    → Outcome mid e ms (deliver h e false ms)
unfolding deliver
outcome mid h e ms = elim (Bool-cases h.supported) [
  | inl c ↦
      subst (Outcome mid e ms) (sym (deliver-supported h e false ms c))
        (resolved_outcome mid h e (h.resolve_peer e.recipient_peer_id) ms)
  | inr c ↦ rw c (idle refl refl)
]

pub if_same : (b : Bool) → (if b then 0 + 0 else 0) ≡ 0
if_same true = refl
if_same false = refl

pub if_le : (b : Bool) (n : ℕ) → n ≤ 1 → (if b then 0 + n else n) ≤ 1
if_le true n h = omega (arith, h)
if_le false n h = h

pub absent-differs :
    (mid k : String) (ms : List Message) → IsStored mid ms → get k ms ≡ none → str_eq k mid ≡ false
absent-differs mid k ms (m, h) n = elim (Bool-cases (str_eq k mid)) [
  | inl e ↦ let k' : none ≡ some m = sym n ∙ ap (λ x. get x ms) ((eq_iff k mid).0 e) ∙ h in cc
  | inr e ↦ e
]

injections-stored :
    (mid : String) (cs : List (Host × Envelope)) (ms : List Message)
    → IsStored mid ms
    → injections mid cs ms ≡ 0
injections-stored mid [] ms s = refl
injections-stored mid ((h, e) ∷ cs) ms s = elim (outcome mid h e ms) [
  | idle i m ↦ rw (i, m) (rw (injections-stored mid cs ms s) (if_same (str_eq e.message_id mid)))
  | sent n a keep ↦
      rw (absent-differs mid e.message_id ms s n)
        (injections-stored mid cs (deliver h e false ms).messages (keep s))
]

pub count-le : (o : Option (List ℕ)) → count_injected o ≤ 1
count-le none = ground arith
count-le (some t) = ground arith

-- Calls of `deliver` without force, one after another, by whatever hosts and whether they accept or
-- not, inject the text of a message at most once.
pub injections-le :
    (mid : String) (cs : List (Host × Envelope)) (ms : List Message) → injections mid cs ms ≤ 1
injections-le mid [] ms = omega arith
injections-le mid ((h, e) ∷ cs) ms = elim (outcome mid h e ms) [
  | idle i m ↦
      rw (i, m) (if_le (str_eq e.message_id mid) (injections mid cs ms) (injections-le mid cs ms))
  | sent n a keep ↦ elim (Bool-cases (str_eq e.message_id mid)) [
    | inl same ↦
        let here : IsStored mid (deliver h e false ms).messages =
          subst (λ k. IsStored k (deliver h e false ms).messages) ((eq_iff e.message_id mid).0 same)
            a in
        rw (same, injections-stored mid cs (deliver h e false ms).messages here)
          (omega (arith, count-le (deliver h e false ms).injected))
    | inr other ↦ rw other (injections-le mid cs (deliver h e false ms).messages)
  ]
]
