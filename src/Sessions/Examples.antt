-- ===== src/Sessions/Examples.antt =====
-- Concrete runs of `_on_inbound` of hermes_peer/sessions.py.
use hermes_walkie_talkie.Prelude.{◌≤◌, ◌⊎◌, true, ◌≡◌, refl, none, some, List, [], ◌∷◌}
use hermes_walkie_talkie.Errors.{ok}
use hermes_walkie_talkie.Models.{Envelope, Policy, protocol_id}
use hermes_walkie_talkie.Models.Kinds
use hermes_walkie_talkie.Models.Kinds.{Kind}
use hermes_walkie_talkie.Models.ReceiptStates
use hermes_walkie_talkie.Store.{Message, get, claim, transition, count_pending}
use hermes_walkie_talkie.Policy.{prune, allow, evaluate}
use hermes_walkie_talkie.Delivery.Deliver.{Host, row_of}
use hermes_walkie_talkie.Registry.Examples.{first_peer}
use hermes_walkie_talkie.Sessions.Inbound.{
  Manager, new_engine, on_inbound, on_claim, process, act, decide, policy_engine_for, clear_content,
  keep_engine,
}
use hermes_walkie_talkie.Sessions.Answers.{Answers, on_inbound-Answers}
use hermes_walkie_talkie.Sessions.Once.{inbound_injections, inbound_injections-le}
use hermes_walkie_talkie.Sessions.Release.{
  Sessions, IsOwn, IsUntouched, release_message, refuse_message, release_message-IsOwn,
}
use hermes_walkie_talkie.Sessions.Refused.{on_inbound-IsCleared}

abbrev hello : Envelope
hello = record {
  protocol = protocol_id;
  message_id = "m";
  created_at = 10;
  expires_at = 20;
  sender = record { peer_id = "a"; name = "a"; profile = "p" };
  recipient_peer_id = "b";
  kind = Kind.message;
  content = "hello";
  reply_to = none;
  conversation_id = none;
  hop_count = 0;
}

abbrev host : Host
host = record {
  supported = true;
  resolve_peer = λ p. some (record first_peer { host_target = "session" });
  inject_message = λ t s. ok true;
  isoformat = λ n. "t";
  now = "t1";
}

-- The process accepts, every session refuses.
abbrev refusing : Manager
refusing = record {
  messages = [];
  policy = new_engine Policy.accept;
  session_policies = λ p. some Policy.refuse;
}

abbrev accepting : Manager
accepting = record refusing { session_policies = λ p. none }

on_inbound-Answers_example : Answers hello.message_id (on_inbound host 15 0 hello accepting)
unfolding get
on_inbound-Answers_example = on_inbound-Answers host 15 0 hello accepting refl

inbound_injections-le_example :
    inbound_injections hello.message_id ((host, 15, 0, hello) ∷ (host, 16, 1, hello) ∷ []) accepting
    ≤ 1
inbound_injections-le_example =
    inbound_injections-le hello.message_id ((host, 15, 0, hello) ∷ (host, 16, 1, hello) ∷ [])
      accepting

abbrev refused_row : Message
refused_row = record {
  message_id = hello.message_id;
  recipient_peer_id = hello.recipient_peer_id;
  sender_peer_id = hello.sender.peer_id;
  kind = "message";
  content = "";
  state = "refused";
  created_at = "t";
  expires_at = "t";
  reply_to = none;
  conversation_id = none;
  delivered_at = some "t1";
  hop_count = 0;
  protocol = "agent-peer/1";
}

on_inbound-IsCleared_example : refused_row.content ≡ ""
unfolding get on_inbound on_claim process act decide policy_engine_for claim transition
    clear_content evaluate allow prune count_pending ReceiptStates.value Kinds.value row_of
    keep_engine
on_inbound-IsCleared_example =
    on_inbound-IsCleared host 15 0 hello refusing refused_row refl refl refl

abbrev sessions : Sessions
sessions = ("s", record first_peer { peer_id = "b" }) ∷ []

abbrev held_rows : List Message
held_rows = record refused_row { state = "held"; content = "hello" } ∷ []

release_message-IsOwn_example :
    (IsOwn "m" (some "s") sessions held_rows
      ⊎ IsUntouched held_rows
          (release_message host (λ t. ok 10) "n" "m" (some "s") sessions held_rows))
    × (IsOwn "m" (some "s") sessions held_rows
        ⊎ IsUntouched held_rows (refuse_message host "m" (some "s") sessions held_rows))
release_message-IsOwn_example =
    release_message-IsOwn host (λ t. ok 10) "n" "m" (some "s") sessions held_rows
