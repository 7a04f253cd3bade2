-- ===== src/Events/Examples.antt =====
-- Concrete uses of agent_peer/events.py.
use hermes_walkie_talkie.Prelude.{ℕ, [], ◌∷◌, arith}
use hermes_walkie_talkie.Events.{EventBroker, new_broker}
use hermes_walkie_talkie.Events.Bounds.{IsBounded, subscribes, publishes, run, run-IsBounded}

abbrev broker : EventBroker ℕ
broker = new_broker 2 1

run-IsBounded_example :
    IsBounded (run (subscribes ∷ subscribes ∷ publishes 5 ∷ publishes 6 ∷ publishes 7 ∷ []) broker)
run-IsBounded_example =
    run-IsBounded (subscribes ∷ subscribes ∷ publishes 5 ∷ publishes 6 ∷ publishes 7 ∷ []) broker
      (record { clients = omega arith; queues = tt })

abbrev client : EventBroker ℕ
client = record broker { subscribers = record { sid = 1; queue = [] } ∷ []; next_id = 2 }
