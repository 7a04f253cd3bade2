-- ===== src/Workflows/Examples.antt =====
-- Concrete uses of agent_peer/workflows.py.
use hermes_walkie_talkie.Prelude.{◌≡◌, ◌≤◌, ◌↔◌, refl, true, false}
use hermes_walkie_talkie.Errors.{ok}
use hermes_walkie_talkie.Workflows.{
  RequestState, created, queued, refused, transition, can_transition, is_terminal,
}
use hermes_walkie_talkie.Workflows.Diagram.{here, step, Steps-le, is_terminal_iff}

enqueued : transition created queued ≡ ok queued
unfolding transition
enqueued = refl

declined : transition queued refused ≡ ok refused
unfolding transition
declined = refl

Steps-le_example : 2 ≤ 4
Steps-le_example = Steps-le 2 created refused (step enqueued (step declined here))

is_terminal_iff_example :
    (is_terminal refused ≡ true) ↔ ((t : RequestState) → can_transition refused t ≡ false)
is_terminal_iff_example = is_terminal_iff refused
