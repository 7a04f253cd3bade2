-- ===== src/Sessions/Inbound.antt =====
-- `_on_inbound` of hermes_peer/sessions.py, without its metrics and published events.
use hermes_walkie_talkie.Prelude.{
  ℕ, String, Bool, true, false, Option, none, some, List, [], if◌then◌else◌,
}
use hermes_walkie_talkie.Errors.{Result, ok, err}
use hermes_walkie_talkie.Table.{update_where}
use hermes_walkie_talkie.Models.{Envelope, Policy, max_hop_count}
use hermes_walkie_talkie.Models.ReceiptStates
use hermes_walkie_talkie.Models.ReceiptStates.{ReceiptState}
use hermes_walkie_talkie.Store.{Message, has_id, get, claim, transition, count_pending}
use hermes_walkie_talkie.Policy.{
  Action, DeliveryDecision, PolicyEngine, window_default, register_pending, evaluate,
}
use hermes_walkie_talkie.Delivery.Deliver.{Host, Delivered, row_of, deliver}

-- The message store, the engine of the process, and the policies of sessions.
pub record Manager : Type 0 where
  pub messages : List Message
  pub policy : PolicyEngine
  pub session_policies : String → Option Policy

-- What a call answers, the text that it injected, and the manager after it.
pub record Inbound : Type 0 where
  pub answer : Result ReceiptState
  pub injected : Option (List ℕ)
  pub manager : Manager

-- `PolicyEngine(policy=...)` with the defaults of its constructor.
abbrev pub new_engine : Policy → PolicyEngine
new_engine q = record {
  policy = q;
  limiter = record { burst = 5; sustained = 20; window = window_default; events = λ s r. [] };
  capacity = 100;
  max_hop_count = max_hop_count;
  pending = λ r. 0;
}

abbrev engine_or : PolicyEngine → Option Policy → PolicyEngine
engine_or p none = p
engine_or p (some q) = new_engine q

-- `_policy_engine_for`
unfoldable pub policy_engine_for : String → Manager → PolicyEngine
policy_engine_for peer m = engine_or m.policy (m.session_policies peer)

abbrev kept : PolicyEngine → PolicyEngine → Option Policy → PolicyEngine
kept used p none = used
kept used p (some q) = p

-- The engine of the process keeps what a call did to it; a new engine is dropped after the call.
unfoldable pub keep_engine : String → PolicyEngine → Manager → Manager
keep_engine peer used m = record m { policy = kept used m.policy (m.session_policies peer) }

-- `self._store.transition(envelope.message_id, state)`
abbrev pub close : Host → Envelope → ReceiptState → List Message → List Message
close h e s ms = (transition e.message_id (ReceiptStates.value s) h.now ms).1

abbrev cleared : String → Option Message → List Message → List Message
cleared mid none ms = ms
cleared mid (some row) ms = update_where (has_id mid) (λ m. record m { content = "" }) ms

-- UPDATE messages SET content='' for a row that is there
unfoldable pub clear_content : String → List Message → List Message
clear_content mid ms = cleared mid (get mid ms) ms

-- What a decision leads to: the answered state, the injected text, and the store.
pub record Acted : Type 0 where
  pub state : ReceiptState
  pub injected : Option (List ℕ)
  pub messages : List Message

unfoldable pub forwarded : Host → Envelope → Delivered → Acted
forwarded h e d =
    if d.accepted
    then record { state = ReceiptState.queued; injected = d.injected; messages = d.messages }
    else record {
      state = ReceiptState.held;
      injected = d.injected;
      messages = close h e ReceiptState.held d.messages;
    }

unfoldable pub act : Host → Envelope → ReceiptState → Action → List Message → Acted
act h e s Action.drop ms = record { state = s; injected = none; messages = close h e s ms }
act h e s Action.refuse ms = record {
  state = ReceiptState.refused;
  injected = none;
  messages = clear_content e.message_id (close h e ReceiptState.refused ms);
}
act h e s Action.hold ms = record {
  state = ReceiptState.held;
  injected = none;
  messages = close h e ReceiptState.held ms;
}
act h e s Action.forward ms = forwarded h e (deliver h e true ms)

-- The decision on a message whose row is in `ms`.
unfoldable pub decide : ℕ → ℕ → Envelope → Manager → List Message → DeliveryDecision × PolicyEngine
decide now tick e m ms = evaluate now tick e (
    register_pending e.recipient_peer_id (count_pending e.recipient_peer_id ms)
      (policy_engine_for e.recipient_peer_id m))

-- The part after the claim was won.
unfoldable pub process : Host → ℕ → ℕ → Envelope → Manager → List Message → Inbound
process h now tick e m ms =
    let (d, engine) = decide now tick e m ms in
    let acted = act h e d.state d.action ms in
    record {
      answer = ok acted.state;
      injected = acted.injected;
      manager = record (keep_engine e.recipient_peer_id engine m) { messages = acted.messages };
    }

unfoldable pub on_claim :
    Host → ℕ → ℕ → Envelope → Manager → Result (Option Message × Bool) × List Message → Inbound
on_claim h now tick e m (err x, ms) = record {
  answer = err x;
  injected = none;
  manager = record m { messages = ms };
}
on_claim h now tick e m (ok (some row, false), ms) = record {
  answer = ReceiptStates.of_value row.state;
  injected = none;
  manager = record m { messages = ms };
}
on_claim h now tick e m (ok (some row, true), ms) = process h now tick e m ms
on_claim h now tick e m (ok (none, created), ms) = process h now tick e m ms

-- `_on_inbound` with the wall clock and the monotonic clock.
unfoldable pub on_inbound : Host → ℕ → ℕ → Envelope → Manager → Inbound
on_inbound h now tick e m = on_claim h now tick e m (claim (row_of h e) m.messages)
