-- ===== src/Heartbeats/Examples.antt =====
-- Concrete runs of agent_peer/presence.py.
use hermes_walkie_talkie.Prelude.{◌+◌, ◌-◌, ◌*◌, ◌≤◌, List, [], ◌∷◌, arith}
use hermes_walkie_talkie.Registry.Examples.{json, two_files, first_id}
use hermes_walkie_talkie.Models.Peers.{PeerRecord}
use hermes_walkie_talkie.Heartbeats.{new_manager, heartbeat_interval}
use hermes_walkie_talkie.Heartbeats.Cadence.{Beat, writes, writes_bound}

abbrev beats : List (Beat PeerRecord)
beats =
    record { now = 5; stamp = "t2"; files = two_files }
    ∷ record { now = 9; stamp = "t3"; files = two_files }
    ∷ record { now = 15000005; stamp = "t4"; files = two_files }
    ∷ []

writes_bound_example :
    heartbeat_interval * writes json (new_manager first_id heartbeat_interval) beats
    ≤ heartbeat_interval + (20000000 - 0)
writes_bound_example =
    writes_bound json first_id heartbeat_interval 0 20000000 beats
      (ground arith, (ground arith, (ground arith, ground arith)))
