-- ===== src/Policy/Examples.antt =====
-- Concrete uses of agent_peer/policy.py.
use hermes_walkie_talkie.Prelude.{◌≤◌, refl, none, List, [], ◌∷◌, arith}
use hermes_walkie_talkie.Table.{count_where}
use hermes_walkie_talkie.Models.{Envelope, Policy, protocol_id}
use hermes_walkie_talkie.Models.Kinds.{Kind}
use hermes_walkie_talkie.Policy.{RateLimiter, PolicyEngine, window_default}
use hermes_walkie_talkie.Policy.Deque.{in_window}
use hermes_walkie_talkie.Policy.Window.{Call, accepted, accepted_bounded}
use hermes_walkie_talkie.Policy.Burst.{call_at}

abbrev limiter : RateLimiter
limiter = record { burst = 2; sustained = 3; window = window_default; events = λ s r. [] }

abbrev calls : List Call
calls = call_at "a" "b" 5 ∷ call_at "a" "c" 6 ∷ call_at "a" "b" 2000000 ∷ []

accepted_bounded_example :
    count_where (in_window window_default 9) (accepted "a" "b" calls limiter) ≤ 3
accepted_bounded_example =
    accepted_bounded "a" "b" calls limiter 9 (omega arith, (omega arith, (omega arith, tt))) refl

abbrev used : RateLimiter
used = record limiter { events = λ s r. 0 ∷ [] }

abbrev message : Envelope
message = record {
  protocol = protocol_id;
  message_id = "m";
  created_at = 10;
  expires_at = 20;
  sender = record { peer_id = "a"; name = "a"; profile = "p" };
  recipient_peer_id = "b";
  kind = Kind.message;
  content = "hello";
  reply_to = none;
  conversation_id = none;
  hop_count = 0;
}

abbrev engine : PolicyEngine
engine = record {
  policy = Policy.accept;
  limiter = limiter;
  capacity = 4;
  max_hop_count = 4;
  pending = λ r. 0;
}
