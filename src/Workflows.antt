-- ===== src/Workflows.antt =====
-- agent_peer/workflows.py: the decision table of request states.
pub mod Diagram
pub mod Values
pub mod Examples
use hermes_walkie_talkie.Prelude.{
  ℕ, zero, suc, ◌+◌, ◌-◌, ◌*◌, ◌/◌, ◌%◌, ◌^◌, ◌≤◌, ◌<◌, min, String, ◌≡◌, refl, sym, ap, ◌∙◌, ◌≢◌,
  ◌↔◌, ◌⊎◌, inl, inr, Bool, true, false, ◌&&◌, ◌||◌, not, Option, none, some, List, [], ◌∷◌, ◌++◌,
  map, arith, str_eq, eq_iff, eq_refl, ltb, leb, ◌==◌, str_lt, if◌then◌else◌, ltb→lt, lt→ltb,
  leb→le, ==_iff, Bool-cases, Option-cases, is_some, or_else, length, take, drop, length-append,
  length-take, length-drop, All, All-append, All-take, All-drop,
}
use hermes_walkie_talkie.Errors.{Error, Result, ok, err, value_error, invalid_transition, ◌>>=◌}

pub data RequestState : Type 0 where
  created queued accepted in_progress completed failed refused cancelled expired : RequestState

-- The `.value` of the enumeration.
unfoldable pub value : RequestState → String
value created = "created"
value queued = "queued"
value accepted = "accepted"
value in_progress = "in_progress"
value completed = "completed"
value failed = "failed"
value refused = "refused"
value cancelled = "cancelled"
value expired = "expired"

-- `RequestState(text)`: the member with that value, or a ValueError.
unfoldable pub of_value : String → Result RequestState
of_value s =
    if str_eq s "created"
    then ok created
    else if str_eq s "queued"
    then ok queued
    else if str_eq s "accepted"
    then ok accepted
    else if str_eq s "in_progress"
    then ok in_progress
    else if str_eq s "completed"
    then ok completed
    else if str_eq s "failed"
    then ok failed
    else if str_eq s "refused"
    then ok refused
    else if str_eq s "cancelled"
    then ok cancelled
    else if str_eq s "expired"
    then ok expired
    else err value_error

-- `_TRANSITIONS.get((s, t))`.
unfoldable pub transitions : RequestState → RequestState → Option String
transitions created queued = some "enqueue"
transitions created cancelled = some "cancel_before_delivery"
transitions created expired = some "expiry"
transitions queued accepted = some "accept"
transitions queued refused = some "refuse"
transitions queued cancelled = some "cancel_before_accept"
transitions queued expired = some "expiry"
transitions accepted in_progress = some "progress"
transitions accepted cancelled = some "cancel_before_start"
transitions accepted failed = some "fail_before_start"
transitions accepted expired = some "expiry"
transitions in_progress completed = some "complete"
transitions in_progress failed = some "fail"
transitions in_progress cancelled = some "cancel_advisory"
transitions in_progress expired = some "expiry"
transitions _ _ = none

-- `_TERMINAL`.
unfoldable pub is_terminal : RequestState → Bool
is_terminal completed = true
is_terminal failed = true
is_terminal refused = true
is_terminal cancelled = true
is_terminal expired = true
is_terminal _ = false

unfoldable pub can_transition : RequestState → RequestState → Bool
unfolding transitions
can_transition s t = is_some (transitions s t)

unfoldable pub transition : RequestState → RequestState → Result RequestState
unfolding transitions
transition s t = if is_some (transitions s t) then ok t else err invalid_transition

-- `transition(state, target)` where the target is given by its text.
unfoldable pub transition_to : RequestState → String → Result RequestState
transition_to s target = do t ← of_value target; transition s t
