-- ===== src/Models/Kinds.antt =====
-- `Kind` of agent_peer/models.py.
use hermes_walkie_talkie.Prelude.{String, ◌≡◌, refl, ◌↔◌, List, [], ◌∷◌}
use hermes_walkie_talkie.Errors.{Result, ok}
use hermes_walkie_talkie.Enums.{find_member, find_member-value}

pub data Kind : Type 0 where
  ping pong message receipt discover alive : Kind

-- The `.value` of the enumeration.
unfoldable pub value : Kind → String
value ping = "ping"
value pong = "pong"
value message = "message"
value receipt = "receipt"
value discover = "discover"
value alive = "alive"

abbrev pub members : List Kind
members = ping ∷ pong ∷ message ∷ receipt ∷ discover ∷ alive ∷ []

-- `Kind(text)`: the member with that value, or a ValueError.
unfoldable pub of_value : String → Result Kind
unfolding value
of_value = find_member value members

value-of_value : (t : String) (x : Kind) → of_value t ≡ ok x → t ≡ value x
unfolding of_value value
value-of_value t x h = find_member-value value members t x h

of_value-value : (x : Kind) → of_value (value x) ≡ ok x
unfolding of_value value
of_value-value ping = refl
of_value-value _ = refl

-- A text parses to a member exactly when it is the value of that member.
pub of_value_iff : (t : String) (x : Kind) → (of_value t ≡ ok x) ↔ (t ≡ value x)
of_value_iff t x = (λ h. value-of_value t x h, λ h. rw h (of_value-value x))
