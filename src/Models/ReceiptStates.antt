-- ===== src/Models/ReceiptStates.antt =====
-- `ReceiptState` of agent_peer/models.py.
use hermes_walkie_talkie.Prelude.{String, ◌≡◌, refl, ◌↔◌, List, [], ◌∷◌}
use hermes_walkie_talkie.Errors.{Result, ok}
use hermes_walkie_talkie.Enums.{find_member, find_member-value}

pub data ReceiptState : Type 0 where
  queued held refused unreachable expired invalid rate_limited over_capacity incompatible
        ambiguous :
      ReceiptState

-- The `.value` of the enumeration.
unfoldable pub value : ReceiptState → String
value queued = "queued"
value held = "held"
value refused = "refused"
value unreachable = "unreachable"
value expired = "expired"
value invalid = "invalid"
value rate_limited = "rate_limited"
value over_capacity = "over_capacity"
value incompatible = "incompatible"
value ambiguous = "ambiguous"

abbrev pub members : List ReceiptState
members =
    queued ∷ held ∷ refused ∷ unreachable ∷ expired ∷ invalid ∷ rate_limited ∷ over_capacity
    ∷ incompatible ∷ ambiguous ∷ []

-- `ReceiptState(text)`: the member with that value, or a ValueError.
unfoldable pub of_value : String → Result ReceiptState
unfolding value
of_value = find_member value members

value-of_value : (t : String) (x : ReceiptState) → of_value t ≡ ok x → t ≡ value x
unfolding of_value value
value-of_value t x h = find_member-value value members t x h

of_value-value : (x : ReceiptState) → of_value (value x) ≡ ok x
unfolding of_value value
of_value-value queued = refl
of_value-value _ = refl

-- A text parses to a member exactly when it is the value of that member.
pub of_value_iff : (t : String) (x : ReceiptState) → (of_value t ≡ ok x) ↔ (t ≡ value x)
of_value_iff t x = (λ h. value-of_value t x h, λ h. rw h (of_value-value x))
