-- ===== src/Sessions/Once.antt =====
-- An inbound message of hermes_peer/sessions.py is injected at most once.
use hermes_walkie_talkie.Prelude.{
  ℕ, ◌+◌, ◌≤◌, String, ◌≡◌, refl, sym, inl, inr, true, none, List, [], ◌∷◌, ◌++◌, arith, str_eq,
  eq_iff, if◌then◌else◌, Bool-cases, Option-cases,
}
use mathlib.Core.Path.{subst}
use hermes_walkie_talkie.Table.Laws.{first_where-append, first_where-update}
use hermes_walkie_talkie.Models.{Envelope}
use hermes_walkie_talkie.Models.ReceiptStates
use hermes_walkie_talkie.Models.ReceiptStates.{ReceiptState}
use hermes_walkie_talkie.Store.{Message, has_id, get}
use hermes_walkie_talkie.Policy.{Action}
use hermes_walkie_talkie.Delivery.Deliver.{Host, Delivered, row_of, deliver}
use hermes_walkie_talkie.Delivery.Once.{
  IsStored, IsStored-settle, IsStored-transition, if_same, if_le, absent-differs, count_injected,
  count-le,
}
use hermes_walkie_talkie.Sessions.Inbound.{
  Manager, close, clear_content, forwarded, act, process, on_claim, on_inbound, decide,
}
use hermes_walkie_talkie.Sessions.Answers.{
  Forced, declined, settled, deliver-Forced, claim-own, IsStored-insert, on_inbound-duplicate,
}

-- How often the text of message `mid` is injected by calls of `_on_inbound`.
abbrev pub inbound_injections : String → List (Host × ℕ × ℕ × Envelope) → Manager → ℕ
inbound_injections mid [] m = 0
inbound_injections mid ((h, now, tick, e) ∷ cs) m =
    let rest = inbound_injections mid cs (on_inbound h now tick e m).manager in
    if str_eq e.message_id mid
    then count_injected (on_inbound h now tick e m).injected + rest
    else rest

pub IsStored-close :
    (mid : String) (h : Host) (e : Envelope) (s : ReceiptState) (ms : List Message)
    → IsStored mid ms
    → IsStored mid (close h e s ms)
IsStored-close mid h e s ms k =
    IsStored-transition mid e.message_id (ReceiptStates.value s) h.now ms k

IsStored-clear :
    (mid k : String) (ms : List Message) → IsStored mid ms → IsStored mid (clear_content k ms)
unfolding clear_content get
IsStored-clear mid k ms (m, h) = elim (Option-cases (get k ms)) [
  | inl n ↦ rw n (m, h)
  | inr (x, n) ↦ rw n (
    _,
    first_where-update (has_id mid) (has_id k) (λ x. record x { content = "" }) ms m (λ x. refl) h,
  )
]

IsStored-forced :
    (mid : String) (h : Host) (e : Envelope) (ms : List Message) (d : Delivered)
    → Forced h e ms d
    → IsStored mid ms
    → IsStored mid d.messages
IsStored-forced mid h e ms d (declined c k) s = subst (IsStored mid) (sym k) s
IsStored-forced mid h e ms d (settled k) s =
    subst (IsStored mid) (sym k) (IsStored-settle mid h e true d.accepted ms s)

IsStored-forwarded :
    (mid : String) (h : Host) (e : Envelope) (d : Delivered)
    → IsStored mid d.messages
    → IsStored mid (forwarded h e d).messages
unfolding forwarded
IsStored-forwarded mid h e d s = elim (Bool-cases d.accepted) [
  | inl c ↦ rw c s
  | inr c ↦ rw c (IsStored-close mid h e ReceiptState.held d.messages s)
]

IsStored-act :
    (mid : String) (h : Host) (e : Envelope) (s : ReceiptState) (a : Action) (ms : List Message)
    → IsStored e.message_id ms
    → IsStored mid ms
    → IsStored mid (act h e s a ms).messages
unfolding act
IsStored-act mid h e s Action.drop ms own k = IsStored-close mid h e s ms k
IsStored-act mid h e s Action.refuse ms own k =
    IsStored-clear mid e.message_id (close h e ReceiptState.refused ms)
      (IsStored-close mid h e ReceiptState.refused ms k)
IsStored-act mid h e s Action.hold ms own k = IsStored-close mid h e ReceiptState.held ms k
IsStored-act mid h e s Action.forward ms own k =
    IsStored-forwarded mid h e (deliver h e true ms)
      (IsStored-forced mid h e ms (deliver h e true ms) (deliver-Forced h e ms own) k)

-- A claimed message stays stored, and so does every other one.
claimed-IsStored :
    (mid : String) (h : Host) (now tick : ℕ) (e : Envelope) (m : Manager)
    → get e.message_id m.messages ≡ none
    → IsStored mid (m.messages ++ row_of h e ∷ [])
    → IsStored mid (on_inbound h now tick e m).manager.messages
unfolding on_inbound on_claim process
claimed-IsStored mid h now tick e m n k =
    let ms = m.messages ++ row_of h e ∷ [] in
    let d = (decide now tick e m ms).0 in
    rw (claim-own h e m.messages none n)
      (IsStored-act mid h e d.state d.action ms (IsStored-insert h e m.messages n) k)

later-IsStored :
    (mid : String) (h : Host) (now tick : ℕ) (e : Envelope) (m : Manager)
    → get e.message_id m.messages ≡ none
    → IsStored mid m.messages
    → IsStored mid (on_inbound h now tick e m).manager.messages
unfolding get
later-IsStored mid h now tick e m n (x, k) =
    claimed-IsStored mid h now tick e m n
      (x, first_where-append (has_id mid) m.messages (row_of h e ∷ []) x k)

inbound_injections-stored :
    (mid : String) (cs : List (Host × ℕ × ℕ × Envelope)) (m : Manager)
    → IsStored mid m.messages
    → inbound_injections mid cs m ≡ 0
inbound_injections-stored mid [] m s = refl
inbound_injections-stored mid ((h, now, tick, e) ∷ cs) m s =
    elim (Option-cases (get e.message_id m.messages)) [
      | inr (r, k) ↦
          rw (on_inbound-duplicate h now tick e m r k, inbound_injections-stored mid cs m s)
            (if_same (str_eq e.message_id mid))
      | inl n ↦ rw (absent-differs mid e.message_id m.messages s n) (
          inbound_injections-stored mid cs (on_inbound h now tick e m).manager
            (later-IsStored mid h now tick e m n s))
    ]

-- However often a message comes in, between other messages, under whatever policies, clocks and
-- hosts, its text is injected at most once by `_on_inbound`.
pub inbound_injections-le :
    (mid : String) (cs : List (Host × ℕ × ℕ × Envelope)) (m : Manager)
    → inbound_injections mid cs m ≤ 1
inbound_injections-le mid [] m = omega arith
inbound_injections-le mid ((h, now, tick, e) ∷ cs) m =
    let next = (on_inbound h now tick e m).manager in
    elim (Option-cases (get e.message_id m.messages)) [
      | inr (r, k) ↦ rw (on_inbound-duplicate h now tick e m r k) (
          if_le (str_eq e.message_id mid) (inbound_injections mid cs m)
            (inbound_injections-le mid cs m))
      | inl n ↦ elim (Bool-cases (str_eq e.message_id mid)) [
        | inl same ↦
            let here : IsStored mid next.messages =
              subst (λ k. IsStored k next.messages) ((eq_iff e.message_id mid).0 same)
                (claimed-IsStored e.message_id h now tick e m n
                  (IsStored-insert h e m.messages n)) in
            rw (same, inbound_injections-stored mid cs next here)
              (omega (arith, count-le (on_inbound h now tick e m).injected))
        | inr other ↦ rw other (inbound_injections-le mid cs next)
      ]
    ]
