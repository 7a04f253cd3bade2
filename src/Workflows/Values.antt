-- ===== src/Workflows/Values.antt =====
-- The texts of the request states.
use hermes_walkie_talkie.Prelude.{String, ◌≡◌, refl, sym, ◌↔◌, arith, eq_iff}
use hermes_walkie_talkie.Prelude.{String, ◌≡◌, refl, sym, ◌↔◌, arith, eq_iff}
use mathlib.Core.Path.{subst}
use hermes_walkie_talkie.Errors.{Result, ok, err, ◌>>=◌}
use hermes_walkie_talkie.Workflows.{RequestState, value, of_value, transition, transition_to}

pub of_value-value : (s : RequestState) → of_value (value s) ≡ ok s
unfolding of_value value
of_value-value RequestState.created = refl
of_value-value _ = refl

-- A text parses to a state exactly when it is the value of that state.
value-of_value : (t : String) (s : RequestState) → of_value t ≡ ok s → t ≡ value s
unfolding of_value value
value-of_value t s h = ground (
  arith,
  eq_iff t "created",
  eq_iff t "queued",
  eq_iff t "accepted",
  eq_iff t "in_progress",
  eq_iff t "completed",
  eq_iff t "failed",
  eq_iff t "refused",
  eq_iff t "cancelled",
  eq_iff t "expired",
)

pub of_value_iff : (t : String) (s : RequestState) → (of_value t ≡ ok s) ↔ (t ≡ value s)
unfolding of_value value
of_value_iff t s =
    (λ h. value-of_value t s h, λ h. subst (λ u. of_value u ≡ ok s) (sym h) (of_value-value s))

transition-target : (s t u : RequestState) → transition s t ≡ ok u → u ≡ t
unfolding transition
transition-target s t u h = ground arith

-- A request of a target by its text is granted exactly when the text is that of a state that the
-- decision table allows next; the result is that state.
pub transition_to_iff :
    (s t : RequestState) (target : String)
    → (transition_to s target ≡ ok t) ↔ ((target ≡ value t) × (transition s t ≡ ok t))
unfolding transition_to
transition_to_iff s t target =
    (λ h. go (of_value target) refl h, λ h. rw ((of_value_iff target t).1 h.0) (h.1))
  where
    go :
        (r : Result RequestState)
        → of_value target ≡ r
        → (r >>= λ u. transition s u) ≡ ok t
        → (target ≡ value t) × (transition s t ≡ ok t)
    go (ok u) e h =
        let same : t ≡ u = transition-target s u t h in
        rw same ((of_value_iff target u).0 e, rw same at h)
    go (err x) e h = cc
