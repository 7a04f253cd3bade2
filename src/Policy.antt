-- ===== src/Policy.antt =====
-- agent_peer/policy.py: rate limits and delivery decisions. Times are whole microseconds: that of the
-- limiter from the monotonic clock, that of the envelope from the wall clock. A dict that is read
-- with a default is a function.
pub mod Deque
pub mod Window
pub mod Burst
pub mod Decisions
pub mod Examples
use hermes_walkie_talkie.Prelude.{
  ℕ, zero, suc, ◌+◌, ◌-◌, ◌*◌, ◌/◌, ◌%◌, ◌^◌, ◌≤◌, ◌<◌, min, String, ◌≡◌, refl, sym, ap, ◌∙◌, ◌≢◌,
  ◌↔◌, ◌⊎◌, inl, inr, Bool, true, false, ◌&&◌, ◌||◌, not, Option, none, some, List, [], ◌∷◌, ◌++◌,
  map, arith, str_eq, eq_iff, eq_refl, ltb, leb, ◌==◌, str_lt, if◌then◌else◌, ltb→lt, lt→ltb,
  leb→le, ==_iff, Bool-cases, Option-cases, is_some, or_else, length, take, length-append,
  length-take, length-drop, All, All-append, All-imp, All-take, All-drop,
}
use hermes_walkie_talkie.Models.{Envelope, Policy, is_expired}
use hermes_walkie_talkie.Models.ReceiptStates.{ReceiptState}

abbrev pub second : ℕ
second = 1000000

abbrev pub window_default : ℕ
window_default = 60000000

pub record RateLimiter : Type 0 where
  pub burst : ℕ
  pub sustained : ℕ
  pub window : ℕ
  pub events : String → String → List ℕ

-- `while events and events[0] <= now - self._window: events.popleft()`
unfoldable pub prune : ℕ → ℕ → List ℕ → List ℕ
prune window now [] = []
prune window now (t ∷ ts) =
    let rest = prune window now ts in if leb (t + window) now then rest else t ∷ ts

-- `len(events) >= self._burst and events and (now - events[0]) < 1.0`
abbrev pub burst_gate : ℕ → ℕ → List ℕ → Bool
burst_gate burst now [] = false
burst_gate burst now (t ∷ ts) = leb burst (length (t ∷ ts)) && ltb now (t + second)

-- The tests of `allow` on the pruned deque.
abbrev pub admits : RateLimiter → ℕ → List ℕ → Bool
admits l now events =
    if leb l.sustained (length events) then false else not (burst_gate l.burst now events)

abbrev pub set_events : String → String → List ℕ → RateLimiter → RateLimiter
set_events sender recipient events l = record l {
  events = λ s r. if str_eq s sender && str_eq r recipient then events else l.events s r;
}

unfoldable pub allow : String → String → ℕ → RateLimiter → Bool × RateLimiter
allow sender recipient now l =
    let events = prune l.window now (l.events sender recipient) in
    if admits l now events
    then (true, set_events sender recipient (events ++ now ∷ []) l)
    else (false, set_events sender recipient events l)

pub data Action : Type 0 where
  forward hold refuse drop : Action

pub record DeliveryDecision : Type 0 where
  pub message_id : String
  pub state : ReceiptState
  pub action : Action
  pub conversation_id : Option String

pub record PolicyEngine : Type 0 where
  pub policy : Policy
  pub limiter : RateLimiter
  pub capacity : ℕ
  pub max_hop_count : ℕ
  pub pending : String → ℕ

abbrev pub decision : Envelope → ReceiptState → Action → DeliveryDecision
decision e s a = record {
  message_id = e.message_id;
  state = s;
  action = a;
  conversation_id = e.conversation_id;
}

abbrev pub by_policy : Policy → Envelope → DeliveryDecision
by_policy Policy.hold e = decision e ReceiptState.held Action.hold
by_policy Policy.refuse e = decision e ReceiptState.refused Action.refuse
by_policy Policy.accept e = decision e ReceiptState.queued Action.forward

-- `register_pending`
abbrev pub register_pending : String → ℕ → PolicyEngine → PolicyEngine
register_pending recipient n p = record p {
  pending = λ r. if str_eq r recipient then n else p.pending r;
}

abbrev pub set_policy : Policy → PolicyEngine → PolicyEngine
set_policy q p = record p { policy = q }

-- `evaluate`: `now` is the wall clock, `tick` the monotonic one.
unfoldable pub evaluate : ℕ → ℕ → Envelope → PolicyEngine → DeliveryDecision × PolicyEngine
evaluate now tick e p =
    let (allowed, limiter) = allow e.sender.peer_id e.recipient_peer_id tick p.limiter in
    let p' = record p { limiter = limiter } in
    if is_expired e now
    then (decision e ReceiptState.expired Action.drop, p)
    else if leb p.max_hop_count e.hop_count
    then (decision e ReceiptState.invalid Action.drop, p)
    else if not allowed
    then (decision e ReceiptState.rate_limited Action.drop, p')
    else if leb p.capacity (p.pending e.recipient_peer_id)
    then (decision e ReceiptState.over_capacity Action.drop, p')
    else (by_policy p.policy e, p')
