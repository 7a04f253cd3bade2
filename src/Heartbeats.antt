-- ===== src/Heartbeats.antt =====
-- `PresenceManager` of agent_peer/presence.py, over the registry.
pub mod Cadence
pub mod Examples
use hermes_walkie_talkie.Prelude.{
  ℕ, zero, suc, ◌+◌, ◌-◌, ◌*◌, ◌/◌, ◌%◌, ◌^◌, ◌≤◌, ◌<◌, min, String, ◌≡◌, refl, sym, ap, ◌∙◌, ◌≢◌,
  ◌↔◌, ◌⊎◌, inl, inr, Bool, true, false, ◌&&◌, ◌||◌, not, Option, none, some, List, [], ◌∷◌, ◌++◌,
  map, arith, str_eq, eq_iff, eq_refl, ltb, leb, ◌==◌, str_lt, if◌then◌else◌, ltb→lt, lt→ltb,
  leb→le, ==_iff, Bool-cases, Option-cases, is_some, or_else, length, take, drop, length-append,
  length-take, length-drop, All, All-append, All-imp, All-take, All-drop,
}
use hermes_walkie_talkie.Errors.{Result, ok, err}
use hermes_walkie_talkie.Models.Presences
use hermes_walkie_talkie.Models.Presences.{Presence}
use hermes_walkie_talkie.Models.Peers.{PeerRecord}
use hermes_walkie_talkie.Registry
use hermes_walkie_talkie.Registry.{Json, File}

-- `last_write` is `none` for the initial -inf; instants and the interval are in microseconds.
pub record PresenceManager : Type 0 where
  pub peer_id : String
  pub interval : ℕ
  pub last_write : Option ℕ
  pub status : Presence

-- HEARTBEAT_INTERVAL
abbrev pub heartbeat_interval : ℕ
heartbeat_interval = 15000000

unfoldable pub new_manager : String → ℕ → PresenceManager
new_manager peer_id interval = record {
  peer_id = peer_id;
  interval = interval;
  last_write = none;
  status = Presences.idle;
}

-- `(now - last_write) < interval`
abbrev pub too_early : Option ℕ → ℕ → ℕ → Bool
too_early none now interval = false
too_early (some t) now interval = ltb (now - t) interval

abbrev pub same_status : Presence → Presence → Bool
same_status s t = str_eq (Presences.value s) (Presences.value t)

module _ {T : Type 0} (j : Json T) where
  -- What follows the registry's write, whose exception passes through.
  unfoldable pub after_beat :
      ℕ
      → PresenceManager
      → Result (Option PeerRecord) × List (File T)
      → Result Bool × PresenceManager × List (File T)
  after_beat now m (err e, fs) = (err e, m, fs)
  after_beat now m (ok r, fs) = (ok true, record m { last_write = some now }, fs)

  -- `heartbeat`, at the clock readings `now` (monotonic) and `stamp` (the text of the time).
  unfoldable pub heartbeat :
      ℕ
      → String
      → Bool
      → PresenceManager
      → List (File T)
      → Result Bool × PresenceManager × List (File T)
  heartbeat now stamp force m fs =
      let written = after_beat now m (Registry.heartbeat j stamp m.peer_id none fs) in
      if not force && too_early m.last_write now m.interval then (ok false, m, fs) else written

  -- What follows the registry's presence write.
  unfoldable pub after_status :
      ℕ
      → Presence
      → PresenceManager
      → Result (Option PeerRecord) × List (File T)
      → Result (Unit {0}) × PresenceManager × List (File T)
  after_status now s m (err e, fs) = (err e, m, fs)
  after_status now s m (ok none, fs) = (ok tt, m, fs)
  after_status now s m (ok (some r), fs) =
      (ok tt, record m { status = s; last_write = some now }, fs)

  unfoldable pub set_status :
      ℕ
      → String
      → Presence
      → Option String
      → PresenceManager
      → List (File T)
      → Result (Unit {0}) × PresenceManager × List (File T)
  set_status now stamp s activity m fs =
      let record_now = Registry.get j m.peer_id fs in
      let done =
        after_status now s m
          (Registry.update_presence j stamp m.peer_id s activity record_now fs) in
      if same_status s m.status && not (is_some activity) then (ok tt, m, fs) else done

  unfoldable pub mark_working :
      ℕ
      → String
      → Option String
      → PresenceManager
      → List (File T)
      → Result (Unit {0}) × PresenceManager × List (File T)
  mark_working now stamp activity m fs = set_status now stamp Presences.working activity m fs

  unfoldable pub mark_idle :
      ℕ
      → String
      → Option String
      → PresenceManager
      → List (File T)
      → Result (Unit {0}) × PresenceManager × List (File T)
  mark_idle now stamp activity m fs = set_status now stamp Presences.idle activity m fs

  unfoldable pub mark_closing :
      ℕ
      → String
      → PresenceManager
      → List (File T)
      → Result (Unit {0}) × PresenceManager × List (File T)
  mark_closing now stamp m fs = set_status now stamp Presences.closing none m fs

-- `stale_after()`
abbrev pub stale_after : ℕ
stale_after = Registry.stale_threshold
