-- ===== src/Requests/Examples.antt =====
-- Concrete runs of agent_peer/requests.py.
use hermes_walkie_talkie.Prelude.{◌⊎◌, ◌≡◌, refl, ap, true, some, List, [], ◌∷◌}
use hermes_walkie_talkie.Errors.{ok}
use hermes_walkie_talkie.Table.{first_where}
use hermes_walkie_talkie.Workflows.{
  created, cancelled, is_terminal, transition_to, of_value, transition,
}
use hermes_walkie_talkie.Requests.{
  has_idempotency, Row, Request, RequestStore, CreateArgs, empty, create, has_id, new_row,
  set_state, attempt, existing, validate, insert_new, row_to_request, advance,
}
use hermes_walkie_talkie.Requests
use hermes_walkie_talkie.Requests.Consistency.{IsConsistent, empty-IsConsistent}
use hermes_walkie_talkie.Requests.History.{Call, creates, transitions, run, run-IsConsistent}
use hermes_walkie_talkie.Requests.Frozen.{run_frozen}
use hermes_walkie_talkie.Requests.Creation.{create-IsConsistent}
use hermes_walkie_talkie.Requests.Transitions.{IsMoved, IsIgnored, transition_lem}
use hermes_walkie_talkie.Requests.Retry.{create_retry}

abbrev args : CreateArgs
args = record {
  sender_agent_id = "a";
  recipient_agent_id = "b";
  summary = "s";
  deadline = "2026-01-01";
  idempotency_key = "k";
  correlation_id = "";
  parent_request_id = "";
  payload = "{}";
}

abbrev no_sender : CreateArgs
no_sender = record args { sender_agent_id = "" }

abbrev row : Row
row = new_row "r" "t0" args

abbrev asked : Request
asked = record {
  request_id = "r";
  sender_agent_id = "a";
  recipient_agent_id = "b";
  state = created;
  summary = "s";
  created_at = "t0";
  deadline = "2026-01-01";
  idempotency_key = "k";
  correlation_id = "";
  parent_request_id = "";
  payload = "{}";
}

abbrev life : List Call
life =
    creates "r" "t0" "t0" args
    ∷ transitions "r" "queued" "" "t1"
    ∷ transitions "r" "cancelled" "" "t2"
    ∷ []

abbrev one_row : RequestStore
one_row = record {
  requests = row ∷ [];
  events =
      record { request_id = "r"; state = created; detail = "request created"; occurred_at = "t0" }
      ∷ [];
}

create-eq : (create "r" "t0" "t0" args empty) ≡ (ok asked, one_row)
unfolding create insert_new existing validate row_to_request
create-eq = refl

one_row-IsConsistent : IsConsistent one_row
one_row-IsConsistent =
    rw (← ap (λ x. x.1) create-eq) (create-IsConsistent "r" "t0" "t0" args empty empty-IsConsistent)

run-IsConsistent_example : IsConsistent (run life empty)
run-IsConsistent_example = run-IsConsistent life empty empty-IsConsistent

transition_lem_example :
    IsMoved "r" "queued" "" "t1" one_row row ⊎ IsIgnored "r" "queued" "" "t1" one_row row
transition_lem_example = transition_lem "r" "queued" "" "t1" one_row row refl

create_retry_example :
    let s' = run life (create "r" "t0" "t0" args empty).1 in
    (q : Row) × (first_where (has_idempotency "a" "k") s'.requests ≡ some q)
    × (create "r2" "t5" "t5" args s' ≡ (ok (record asked { state = q.state }), s'))
create_retry_example =
    create_retry "r" "t0" "t0" "r2" "t5" "t5" args args empty asked life empty-IsConsistent refl
      (ap (λ x. x.0) create-eq) refl refl

abbrev cancelled_store : RequestStore
cancelled_store = run life empty

cancelled_row : first_where (has_id "r") cancelled_store.requests ≡ some (set_state cancelled row)
unfolding create insert_new existing validate row_to_request Requests.transition attempt advance
    transition_to of_value transition Requests.transition_row is_terminal
cancelled_row = refl

cancelled_IsTerminal : is_terminal cancelled ≡ true
unfolding is_terminal
cancelled_IsTerminal = refl

run_frozen_example :
    first_where (has_id "r") (run life cancelled_store).requests ≡ some (set_state cancelled row)
run_frozen_example =
    run_frozen "r" (set_state cancelled row) life cancelled_store
      (run-IsConsistent life empty empty-IsConsistent) cancelled_IsTerminal cancelled_row
