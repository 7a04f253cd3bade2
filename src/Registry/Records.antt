-- ===== src/Registry/Records.antt =====
-- Records of agent_peer/registry.py: authority, the fields that an update changes, and freshness.
use hermes_walkie_talkie.Prelude.{
  ℕ, ◌-◌, String, Bool, false, ◌&&◌, Option, none, some, str_eq, leb, ◌==◌, if◌then◌else◌, or_else,
}
use hermes_walkie_talkie.Errors.{Result, ok, err, type_error}
use hermes_walkie_talkie.Models.{ℤ, pos, negsuc}
use hermes_walkie_talkie.Models.Peers.{PeerRecord}

-- What `datetime.fromisoformat` returns: an instant, or a reading without an offset.
pub data Moment : Type 0 where
  naive : Moment
  aware : ℕ → Moment

-- The four fields that a bound listener has authority by.
pub record Authority : Type 0 where
  pub instance_id : String
  pub socket_path : String
  pub socket_uid : ℤ
  pub socket_inode : ℤ

-- The arguments of `update_if_current` that are written; `none` leaves the field unchanged.
pub record Changes : Type 0 where
  pub name : Option String
  pub status : Option String
  pub current_activity : Option String
  pub touch_last_seen : Bool

unfoldable pub authority_of : PeerRecord → Authority
authority_of r = record {
  instance_id = r.instance_id;
  socket_path = r.socket_path;
  socket_uid = r.socket_uid;
  socket_inode = r.socket_inode;
}

abbrev pub int_eq : ℤ → ℤ → Bool
int_eq (pos m) (pos n) = m == n
int_eq (negsuc m) (negsuc n) = m == n
int_eq _ _ = false

unfoldable pub same_authority : Authority → Authority → Bool
same_authority a b =
    str_eq a.instance_id b.instance_id
    && str_eq a.socket_path b.socket_path
    && int_eq a.socket_uid b.socket_uid
    && int_eq a.socket_inode b.socket_inode

-- `_authority_matches`
unfoldable pub authority_matches : Option PeerRecord → Authority → Bool
authority_matches none expected = false
authority_matches (some r) expected = same_authority (authority_of r) expected

-- `stamp or _now_iso()`
abbrev pub or_now : String → String → String
or_now stamp now = if str_eq stamp "" then now else stamp

-- The data that `register` writes.
abbrev pub stamped : String → PeerRecord → PeerRecord
stamped now r = record r {
  started_at = or_now r.started_at now;
  last_seen = or_now r.last_seen now;
}

-- `dataclasses.replace(record, **changes)` before the constructor checks it.
unfoldable pub changed : String → Changes → PeerRecord → PeerRecord
changed now c r = record r {
  name = or_else c.name r.name;
  status = or_else c.status r.status;
  current_activity = or_else c.current_activity r.current_activity;
  last_seen = if c.touch_last_seen then now else r.last_seen;
}

-- STALE_THRESHOLD, in microseconds
abbrev pub stale_threshold : ℕ
stale_threshold = 45000000

-- `now - seen <= timedelta(seconds=STALE_THRESHOLD)`; an aware and a naive reading do not subtract.
unfoldable pub recent : ℕ → Moment → Result Bool
recent now naive = err type_error
recent now (aware seen) = ok (leb (now - seen) stale_threshold)

-- `seen is not None and not older than the threshold`
unfoldable pub seen_recently : ℕ → Option Moment → Result Bool
seen_recently now none = ok false
seen_recently now (some seen) = recent now seen

-- The callback `handshake_alive`, whose exceptions count as a dead peer.
unfoldable pub answer : Result Bool → Bool
answer (ok b) = b
answer (err e) = false

unfoldable pub answers : (ℤ → String → Result Bool) → PeerRecord → Bool
answers handshake r = answer (handshake r.pid r.instance_id)
