-- ===== src/Events/Delivery.antt =====
-- What a client of the broker of agent_peer/events.py reads.
use hermes_walkie_talkie.Prelude.{ℕ, ◌-◌, List, [], ◌∷◌, length, drop}
use hermes_walkie_talkie.Events.{EventBroker, publish}

module _ {ℓ} {A : Type ℓ} where
  -- The last elements of a list, as many as the capacity at most.
  abbrev pub last : ℕ → List A → List A
  last n xs = drop (length xs - n) xs

  abbrev pub publish_all : List A → EventBroker A → EventBroker A
  publish_all [] b = b
  publish_all (e ∷ es) b = publish_all es (publish e b)
