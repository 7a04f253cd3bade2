-- ===== src/Broadcast/Examples.antt =====
-- Concrete runs of agent_peer/broadcast.py.
use hermes_walkie_talkie.Prelude.{
  ℕ, ◌+◌, ◌≤◌, ◌≡◌, refl, ap, true, none, some, [], ◌∷◌, ◌++◌, arith, ltb, if◌then◌else◌, length,
}
use hermes_walkie_talkie.Errors.{ok}
use hermes_walkie_talkie.Table.{count_where}
use hermes_walkie_talkie.Groups.{GroupMember, GroupStore, members}
use hermes_walkie_talkie.Groups.Uniqueness.{IsUnique}
use hermes_walkie_talkie.Broadcast.{
  Broadcast, BroadcastStore, BroadcastResult, BroadcastEngine, Library, Outcome, receipt, fan_out,
  gated, gate, run_fan_out, work_all, work, attempts, resolve_member,
}
use hermes_walkie_talkie.Broadcast.Gate.{fan_out_once}
use hermes_walkie_talkie.Broadcast.Retries.{is_to, count-sent-le}
use hermes_walkie_talkie.Broadcast.Outcomes.{InOrder, IsResult, run_fan_out_recorded}

abbrev lib : Library
lib = record { uuid5 = λ s. s; str = λ n. "n" }

-- The peer times out once, and then accepts.
abbrev answer : ℕ → Outcome
answer k = if ltb k 1 then receipt (some "timeout") none else receipt (some "accepted") none

abbrev engine : BroadcastEngine
engine = record {
  lib = lib;
  send = λ agent peer content child k. answer k;
  resolve = λ agent p. some "p";
  max_retries = 2;
}

abbrev member : GroupMember
member = record { group_id = "g"; agent_id = "b"; peer_id = "" }

abbrev groups : GroupStore
groups = record { groups = []; group_members = member ∷ []; cascades = true }

abbrev parent : Broadcast
parent = record {
  broadcast_id = "x";
  sender_agent_id = "a";
  group_id = "g";
  content = "hello";
  created_at = "t";
  status = "created";
}

abbrev store : BroadcastStore
store = record { broadcasts = parent ∷ []; broadcast_children = [] }

groups-IsUnique : IsUnique groups
groups-IsUnique = record { ids = tt; names = tt; members = λ g a. ground arith }

log_eq : length (fan_out engine groups "x" none store).2 ≡ 2
unfolding fan_out gated gate run_fan_out work_all work attempts resolve_member members
log_eq = refl

gated_eq : length (gated engine "x" parent (member ∷ []) store).2 ≡ 2
unfolding gated gate run_fan_out work_all work attempts resolve_member
gated_eq = refl

fan_out_once_example :
    let s' = (fan_out engine groups "x" none store).1 in
    ((fan_out engine groups "x" none s').1 ≡ s') × ((fan_out engine groups "x" none s').2 ≡ [])
fan_out_once_example =
    fan_out_once engine engine groups groups "x" none none store
      (λ e. omega (arith, ap length e, log_eq))

count-sent-le_example : count_where (is_to "b") (fan_out engine groups "x" none store).2 ≤ 2 + 1
count-sent-le_example = count-sent-le engine groups "x" "b" none store groups-IsUnique

run_fan_out_recorded_example :
    (r : BroadcastResult) × ((run_fan_out engine "x" "a" "hello" (member ∷ []) store).0 ≡ ok r)
    × ((run_fan_out engine "x" "a" "hello" (member ∷ []) store).1.broadcast_children
        ≡ [] ++ r.per_member)
    × InOrder (IsResult engine "x" "a" "hello") (member ∷ []) r.per_member
    × (r.summary.total ≡ 1)
run_fan_out_recorded_example =
    run_fan_out_recorded engine "x" "a" "hello" (member ∷ []) store (refl, tt)
