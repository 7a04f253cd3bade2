-- ===== src/Requests.antt =====
-- agent_peer/requests.py and agent_peer/request_models.py: the requests and their event log, two
-- tables of the store. A method returns its result, or the exception that it raises, with the new
-- tables. New ids and the clock are arguments. A payload is its canonical JSON text.
pub mod Consistency
pub mod Creation
pub mod Transitions
pub mod History
pub mod Identity
pub mod Retry
pub mod Frozen
pub mod Expiry
pub mod Examples
use hermes_walkie_talkie.Prelude.{
  ℕ, ◌+◌, String, Bool, true, false, ◌&&◌, ◌||◌, Option, none, some, List, [], ◌∷◌, ◌++◌, map,
  str_eq, ltb, str_lt, if◌then◌else◌, is_some, or_else, length,
}
use hermes_walkie_talkie.Errors.{
  Result, ok, err, validation_error, integrity_error, type_error, ◌>>=◌,
}
use hermes_walkie_talkie.Table.{select_where, first_where, count_where, update_where, order_by}
use hermes_walkie_talkie.Workflows.{
  RequestState, created, queued, accepted, in_progress, expired, value, is_terminal, transition_to,
}

-- A row of `requests`; NULL is `none`. The state column holds the `.value` of a state.
pub record Row : Type 0 where
  pub request_id : String
  pub sender_agent_id : String
  pub recipient_agent_id : String
  pub state : RequestState
  pub summary : String
  pub created_at : String
  pub deadline : String
  pub idempotency_key : Option String
  pub correlation_id : String
  pub parent_request_id : String
  pub payload : String

-- A row of `request_events`; its event_id is its place in the table.
pub record RequestEvent : Type 0 where
  pub request_id : String
  pub state : RequestState
  pub detail : String
  pub occurred_at : String

pub record Request : Type 0 where
  pub request_id : String
  pub sender_agent_id : String
  pub recipient_agent_id : String
  pub state : RequestState
  pub summary : String
  pub created_at : String
  pub deadline : String
  pub idempotency_key : String
  pub correlation_id : String
  pub parent_request_id : String
  pub payload : String

pub record RequestStore : Type 0 where
  pub requests : List Row
  pub events : List RequestEvent

-- The keyword arguments of `create`.
pub record CreateArgs : Type 0 where
  pub sender_agent_id : String
  pub recipient_agent_id : String
  pub summary : String
  pub deadline : String
  pub idempotency_key : String
  pub correlation_id : String
  pub parent_request_id : String
  pub payload : String

abbrev pub empty : RequestStore
empty = record { requests = []; events = [] }

-- `Request.__post_init__`.
unfoldable pub validate : Request → Result Request
validate r =
    if str_eq r.request_id "" || str_eq r.sender_agent_id "" || str_eq r.recipient_agent_id ""
    then err validation_error
    else ok r

-- `_row_to_request`.
unfoldable pub row_to_request : Row → Result Request
unfolding validate
row_to_request r = validate (record {
  request_id = r.request_id;
  sender_agent_id = r.sender_agent_id;
  recipient_agent_id = r.recipient_agent_id;
  state = r.state;
  summary = r.summary;
  created_at = r.created_at;
  deadline = r.deadline;
  idempotency_key = or_else r.idempotency_key "";
  correlation_id = r.correlation_id;
  parent_request_id = r.parent_request_id;
  payload = r.payload;
})

abbrev pub has_id : String → Row → Bool
has_id rid r = str_eq r.request_id rid

abbrev key_is : Option String → String → Bool
key_is none k = false
key_is (some j) k = str_eq j k

-- WHERE sender_agent_id=? AND idempotency_key=?
abbrev pub has_idempotency : String → String → Row → Bool
has_idempotency sender k r = str_eq r.sender_agent_id sender && key_is r.idempotency_key k

abbrev pub is_active : RequestState → Bool
is_active created = true
is_active queued = true
is_active accepted = true
is_active in_progress = true
is_active _ = false

-- `_append_event`.
abbrev pub append_event : String → RequestState → String → String → RequestStore → RequestStore
append_event rid state detail now s = record s {
  events =
      s.events
      ++ record { request_id = rid; state = state; detail = detail; occurred_at = now } ∷ [];
}

-- The row that `create` inserts; an empty key is stored as NULL.
abbrev pub new_row : String → String → CreateArgs → Row
new_row rid ts a = record {
  request_id = rid;
  sender_agent_id = a.sender_agent_id;
  recipient_agent_id = a.recipient_agent_id;
  state = created;
  summary = a.summary;
  created_at = ts;
  deadline = a.deadline;
  idempotency_key = if str_eq a.idempotency_key "" then none else some a.idempotency_key;
  correlation_id = a.correlation_id;
  parent_request_id = a.parent_request_id;
  payload = a.payload;
}

-- SELECT * FROM requests WHERE sender_agent_id=? AND idempotency_key=?, if a key is given.
abbrev pub existing : CreateArgs → RequestStore → Option Row
existing a s =
    if str_eq a.idempotency_key ""
    then none
    else first_where (has_idempotency a.sender_agent_id a.idempotency_key) s.requests

-- `create` of a request that is not a retry: INSERT, event, commit, and the object that is returned.
unfoldable pub insert_new :
    String → String → String → CreateArgs → RequestStore → Result Request × RequestStore
unfolding row_to_request
insert_new rid ts now a s =
    if is_some (first_where (has_id rid) s.requests) then (err integrity_error, s) else (
      row_to_request (new_row rid ts a),
      append_event rid created "request created" now
          (record s { requests = s.requests ++ new_row rid ts a ∷ [] }),
    )

unfoldable pub create :
    String → String → String → CreateArgs → RequestStore → Result Request × RequestStore
create rid ts now a s = elim (existing a s) [
  | some row ↦ (row_to_request row, s)
  | none ↦ insert_new rid ts now a s
]

-- A row as `Request | None`.
abbrev pub found : Option Row → Result (Option Request)
found none = ok none
found (some r) = do q ← row_to_request r; ok (some q)

unfoldable pub get : String → RequestStore → Result (Option Request)
get rid s = found (first_where (has_id rid) s.requests)

-- [_row_to_request(r) for r in rows]
unfoldable pub rows_to_requests : List Row → Result (List Request)
rows_to_requests [] = ok []
rows_to_requests (r ∷ rs) =
    let rest = rows_to_requests rs in do q ← row_to_request r; qs ← rest; ok (q ∷ qs)

abbrev pub any_state : List String → RequestState → Bool
any_state [] s = false
any_state (t ∷ ts) s = str_eq (value s) t || any_state ts s

-- WHERE recipient_agent_id=? [AND state IN (...)]; no states, or an empty tuple, is no filter.
abbrev pub is_for : String → Option (List String) → Row → Bool
is_for who (some (t ∷ ts)) r = str_eq r.recipient_agent_id who && any_state (t ∷ ts) r.state
is_for who _ r = str_eq r.recipient_agent_id who

unfoldable pub list_for_recipient :
    String → Option (List String) → RequestStore → Result (List Request)
list_for_recipient who states s =
    rows_to_requests (order_by (λ r. r.created_at) (select_where (is_for who states) s.requests))

unfoldable pub events_of : String → RequestStore → List RequestEvent
events_of rid s = select_where (λ e. str_eq e.request_id rid) s.events

abbrev pub set_state : RequestState → Row → Row
set_state t r = record r { state = t }

-- UPDATE requests SET state=? WHERE request_id=?, and its event.
unfoldable pub advance : String → RequestState → String → String → RequestStore → RequestStore
advance rid t detail now s =
    append_event rid t detail now
      (record s { requests = update_where (has_id rid) (set_state t) s.requests })

-- The `try` of `transition`: a target that the table refuses, or no state, is a no-op.
unfoldable pub attempt :
    Result RequestState
    → Row
    → String
    → String
    → String
    → RequestStore
    → Result (Option Request) × RequestStore
attempt (ok t) row rid detail now s =
    (get rid (advance rid t detail now s), advance rid t detail now s)
attempt (err _) row rid detail now s = (found (some row), s)

unfoldable pub transition_row :
    Option Row
    → String
    → String
    → String
    → String
    → RequestStore
    → Result (Option Request) × RequestStore
transition_row none rid target detail now s = (ok none, s)
transition_row (some row) rid target detail now s =
    if is_terminal row.state
    then (found (some row), s)
    else attempt (transition_to row.state target) row rid detail now s

unfoldable pub transition :
    String → String → String → String → RequestStore → Result (Option Request) × RequestStore
transition rid target detail now s =
    transition_row (first_where (has_id rid) s.requests) rid target detail now s

-- WHERE state IN ('created','queued','accepted','in_progress') AND deadline < ?
abbrev pub is_overdue : String → Row → Bool
is_overdue ref r = is_active r.state && str_lt r.deadline ref

-- The loop of `expire_overdue` over the ids that its SELECT returned.
unfoldable pub expire_each : List String → String → RequestStore → RequestStore
expire_each [] now s = s
expire_each (rid ∷ rids) now s = expire_each rids now (advance rid expired "deadline passed" now s)

unfoldable pub expire_overdue : String → String → RequestStore → ℕ × RequestStore
unfolding expire_each
expire_overdue ref now s =
    let rows = select_where (is_overdue ref) s.requests in
    (length rows, expire_each (map (λ r. r.request_id) rows) now s)

unfoldable pub count_active : RequestStore → ℕ
count_active s = count_where (λ r. is_active r.state) s.requests

-- `Request.is_expired`, with the parser of the datetime library (`none` is a ValueError): a time
-- with an offset is an instant, one without is a reading of a clock.
pub data Time : Type 0 where
  aware naive : ℕ → Time

pub record Instants : Type 0 where
  pub fromisoformat : String → Option Time

-- `ref > deadline`; times of different kinds are not compared.
abbrev later : Time → Time → Result Bool
later (aware ref) (aware deadline) = ok (ltb deadline ref)
later (naive ref) (naive deadline) = ok (ltb deadline ref)
later (aware ref) (naive deadline) = err type_error
later (naive ref) (aware deadline) = err type_error

unfoldable pub is_expired : Instants → String → Request → Result Bool
is_expired lib now r = elim (lib.fromisoformat r.deadline) [
  | none ↦ ok false
  | some deadline ↦ elim (lib.fromisoformat now) [ none ↦ ok false | some ref ↦ later ref deadline ]
]
