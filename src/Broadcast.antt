-- ===== src/Broadcast.antt =====
-- agent_peer/broadcast.py: the broadcasts and their children, two tables of the store, and the
-- fan-out over the members of a group. `send` and `resolve` are the injected callables; what `send`
-- answers may depend on the attempt. The log lists the calls of `send` in member order.
pub mod Gate
pub mod Retries
pub mod Outcomes
pub mod Examples
use hermes_walkie_talkie.Prelude.{
  ℕ, zero, suc, ◌+◌, ◌-◌, ◌*◌, ◌/◌, ◌%◌, ◌^◌, ◌≤◌, ◌<◌, min, String, ◌≡◌, refl, sym, ap, ◌∙◌, ◌≢◌,
  ◌↔◌, ◌⊎◌, inl, inr, Bool, true, false, ◌&&◌, ◌||◌, not, Option, none, some, List, [], ◌∷◌, ◌++◌,
  map, arith, str_eq, eq_iff, eq_refl, ltb, leb, ◌==◌, str_lt, if◌then◌else◌, ltb→lt, lt→ltb,
  leb→le, ==_iff, Bool-cases, Option-cases, is_some, or_else, length, take, drop, length-append,
  length-take, length-drop, All, All-append, All-imp, All-take, All-drop,
}
use Prim.Native.String.{◌++◌ as text_append}
use hermes_walkie_talkie.Errors.{Result, ok, err, validation_error}
use hermes_walkie_talkie.Table.{select_where, first_where, count_where, update_where, order_by}
use hermes_walkie_talkie.Groups.{GroupMember, GroupStore, members}

pub record Broadcast : Type 0 where
  pub broadcast_id : String
  pub sender_agent_id : String
  pub group_id : String
  pub content : String
  pub created_at : String
  pub status : String

-- A row of `broadcast_children`; also an entry of `resolved` and of `results`.
pub record Child : Type 0 where
  pub broadcast_id : String
  pub agent_id : String
  pub peer_id : String
  pub child_message_id : String
  pub state : String
  pub detail : String

pub record BroadcastStore : Type 0 where
  pub broadcasts : List Broadcast
  pub broadcast_children : List Child

-- What one call of `send` does: it returns a receipt, whose keys may be missing, or it raises.
pub data Outcome : Type 0 where
  receipt : Option String → Option String → Outcome
  raises : String → Outcome

-- `uuid.uuid5` in the fixed namespace, and `str` of a number.
pub record Library : Type 0 where
  pub uuid5 : String → String
  pub str : ℕ → String

-- `send agent peer content child attempt`; `resolve agent pin` is the peer id of the record found.
pub record BroadcastEngine : Type 0 where
  pub lib : Library
  pub send : String → String → String → String → ℕ → Outcome
  pub resolve : String → Option String → Option String
  pub max_retries : ℕ

pub record Sent : Type 0 where
  pub agent_id : String
  pub peer_id : String
  pub child_message_id : String
  pub attempt : ℕ

pub record Summary : Type 0 where
  pub total : ℕ
  pub queued : ℕ
  pub held : ℕ
  pub skipped : ℕ
  pub unreachable : ℕ
  pub failures : List Child

pub record BroadcastResult : Type 0 where
  pub broadcast_id : String
  pub summary : Summary
  pub per_member : List Child

unfoldable pub deterministic_child_id : Library → String → String → String → String
deterministic_child_id lib bid agent peer =
    lib.uuid5 (text_append bid (text_append "|" (text_append agent (text_append "|" peer))))

abbrev pub has_id : String → Broadcast → Bool
has_id bid b = str_eq b.broadcast_id bid

abbrev pub of_broadcast : String → Child → Bool
of_broadcast bid c = str_eq c.broadcast_id bid

-- The primary key of `broadcast_children`.
abbrev pub same_child : Child → Child → Bool
same_child c d =
    str_eq d.broadcast_id c.broadcast_id
    && (str_eq d.agent_id c.agent_id && str_eq d.peer_id c.peer_id)

abbrev pub in_state : String → Child → Bool
in_state t c = str_eq c.state t

unfoldable pub create_broadcast :
    String → String → String → String → String → BroadcastStore → Result String × BroadcastStore
create_broadcast bid now sender group content s =
    if str_eq sender "" || str_eq group "" then (err validation_error, s) else (
      ok bid,
      record s {
        broadcasts =
            s.broadcasts
            ++ record {
              broadcast_id = bid;
              sender_agent_id = sender;
              group_id = group;
              content = content;
              created_at = now;
              status = "created";
            }
              ∷ [];
      },
    )

-- The atomic gate: UPDATE ... SET status='in_flight' WHERE broadcast_id=? AND status='created'.
abbrev pub is_open : String → Broadcast → Bool
is_open bid b = has_id bid b && str_eq b.status "created"

abbrev pub set_status : String → Broadcast → Broadcast
set_status t b = record b { status = t }

unfoldable pub gate : String → BroadcastStore → Bool × BroadcastStore
gate bid s = (
  count_where (is_open bid) s.broadcasts == 1,
  record s { broadcasts = update_where (is_open bid) (set_status "in_flight") s.broadcasts },
)

abbrev pub complete : String → BroadcastStore → BroadcastStore
complete bid s = record s {
  broadcasts = update_where (has_id bid) (set_status "completed") s.broadcasts;
}

-- The resolution of one member, before any send; an empty pin is None.
abbrev pub pin : String → Option String
pin p = if str_eq p "" then none else some p

abbrev pub unsent : Library → String → String → String → String → Child
unsent lib bid agent state detail = record {
  broadcast_id = bid;
  agent_id = agent;
  peer_id = "";
  child_message_id = deterministic_child_id lib bid agent "";
  state = state;
  detail = detail;
}

abbrev pub resolved_child : Library → String → String → Option String → Child
resolved_child lib bid agent none = unsent lib bid agent "unreachable" "no live session"
resolved_child lib bid agent (some peer) = record {
  broadcast_id = bid;
  agent_id = agent;
  peer_id = peer;
  child_message_id = deterministic_child_id lib bid agent peer;
  state = "queued";
  detail = "";
}

unfoldable pub resolve_member : BroadcastEngine → String → String → GroupMember → Child
resolve_member e bid sender m =
    if str_eq m.agent_id sender
    then unsent e.lib bid m.agent_id "skipped" "sender excluded"
    else resolved_child e.lib bid m.agent_id (e.resolve m.agent_id (pin m.peer_id))

-- INSERT OR IGNORE of each child.
abbrev pub insert_child : Child → List Child → List Child
insert_child c cs = if is_some (first_where (same_child c) cs) then cs else cs ++ c ∷ []

abbrev pub insert_children : List Child → List Child → List Child
insert_children [] cs = cs
insert_children (r ∷ rs) cs = insert_children rs (insert_child r cs)

-- `final_state in ("unreachable", "timeout")`
abbrev pub is_retried : String → Bool
is_retried t = str_eq t "unreachable" || str_eq t "timeout"

abbrev pub sent : Child → ℕ → Sent
sent c k = record {
  agent_id = c.agent_id;
  peer_id = c.peer_id;
  child_message_id = c.child_message_id;
  attempt = k;
}

-- The loop of `work` from attempt `k`, with the number of attempts left.
unfoldable pub attempts :
    BroadcastEngine → String → Child → ℕ → ℕ → String × String → (String × String) × List Sent
attempts e content c zero k final = (final, [])
attempts e content c (suc n) k final =
    let fails = λ (t : String). attempts e content c n (k + 1) ("unreachable", t) in
    let again = λ (t d : String). attempts e content c n (k + 1) (t, d) in
    elim (e.send c.agent_id c.peer_id content c.child_message_id k) [
      | raises exc ↦
          let rest =
            fails
              (text_append "attempt " (text_append (e.lib.str (k + 1)) (text_append ": " exc))) in
          (rest.0, sent c k ∷ rest.1)
      | receipt st dt ↦
          let t = or_else st "queued" in
          let d = or_else dt "" in
          let rest = again t d in
          if is_retried t then (rest.0, sent c k ∷ rest.1) else ((t, d), sent c k ∷ [])
    ]

abbrev pub set_outcome : String → String → Child → Child
set_outcome t d c = record c { state = t; detail = d }

-- `work`: only a queued child is sent; its row is updated with the final outcome.
unfoldable pub work : BroadcastEngine → String → Child → List Child → Child × List Child × List Sent
work e content c rows =
    let ((t, d), log) = attempts e content c (e.max_retries + 1) 0 ("queued", "") in
    if not (str_eq c.state "queued")
    then (c, rows, [])
    else (set_outcome t d c, update_where (same_child c) (set_outcome t d) rows, log)

-- The pool: each child is worked on once; the results stand in member order.
unfoldable pub work_all :
    BroadcastEngine → String → List Child → List Child → List Child × List Child × List Sent
work_all e content [] rows = ([], rows, [])
work_all e content (c ∷ cs) rows =
    let (r, rows', log) = work e content c rows in
    let (rs, rows'', logs) = work_all e content cs rows' in (r ∷ rs, rows'', log ++ logs)

abbrev pub is_delivered : Child → Bool
is_delivered c =
    in_state "queued" c
    || in_state "held" c
    || in_state "accepted" c
    || in_state "in_progress" c
    || in_state "completed" c

abbrev pub summary : (Child → Bool) → List Child → Summary
summary fails rs = record {
  total = length rs;
  queued = count_where (in_state "queued") rs;
  held = count_where (in_state "held") rs;
  skipped = count_where (in_state "skipped") rs;
  unreachable = count_where (in_state "unreachable") rs;
  failures = select_where fails rs;
}

-- `_results`: the recorded outcomes.
unfoldable pub recorded_results : String → BroadcastStore → BroadcastResult
recorded_results bid s =
    let rs = order_by (λ c. c.agent_id) (select_where (of_broadcast bid) s.broadcast_children) in
    record { broadcast_id = bid; summary = summary (in_state "unreachable") rs; per_member = rs }

abbrev pub Fan : Type 0
Fan = Result BroadcastResult × BroadcastStore × List Sent

-- The run of the caller that has won the gate.
unfoldable pub run_fan_out :
    BroadcastEngine → String → String → String → List GroupMember → BroadcastStore → Fan
run_fan_out e bid sender content ms s =
    let resolved = map (resolve_member e bid sender) ms in
    let (results, rows, log) =
      work_all e content resolved (insert_children resolved s.broadcast_children) in
    (
      ok (record {
        broadcast_id = bid;
        summary = summary (λ c. not (is_delivered c)) results;
        per_member = results;
      }),
      complete bid (record s { broadcast_children = rows }),
      log,
    )

abbrev pub is_other : Option String → String → Bool
is_other none sender = false
is_other (some a) sender = not (str_eq a sender)

-- The gate and what follows, for a parent that was read as `created`.
unfoldable pub gated :
    BroadcastEngine → String → Broadcast → List GroupMember → BroadcastStore → Fan
gated e bid parent [] s = (err validation_error, s, [])
gated e bid parent (m ∷ ms) s =
    let (won, s') = gate bid s in
    if won
    then run_fan_out e bid parent.sender_agent_id parent.content (m ∷ ms) s'
    else (ok (recorded_results bid s'), s', [])

abbrev pub fan_out_of :
    Option Broadcast → BroadcastEngine → GroupStore → String → Option String → BroadcastStore → Fan
fan_out_of none e g bid caller s = (err validation_error, s, [])
fan_out_of (some parent) e g bid caller s =
    if is_other caller parent.sender_agent_id
    then (err validation_error, s, [])
    else if not (str_eq parent.status "created")
    then (ok (recorded_results bid s), s, [])
    else gated e bid parent (members parent.group_id g) s

unfoldable pub fan_out :
    BroadcastEngine → GroupStore → String → Option String → BroadcastStore → Fan
fan_out e g bid caller s = fan_out_of (first_where (has_id bid) s.broadcasts) e g bid caller s
