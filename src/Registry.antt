-- ===== src/Registry.antt =====
-- `Registry` of agent_peer/registry.py: the directory of peer records as the list of its files.
pub mod Files
pub mod Records
pub mod Paths
pub mod Pruning
pub mod Calls
pub mod Constructor
pub mod Invariant
pub mod Examples
pub mod Fence
pub mod Freshness
pub mod Identity
unfoldable pub use Files.*
unfoldable pub use Records.*
use hermes_walkie_talkie.Prelude.{
  ℕ, String, Bool, true, false, Option, none, some, List, [], ◌∷◌, if◌then◌else◌,
}
use hermes_walkie_talkie.Errors.{Result, ok, err, ◌>>=◌}
use hermes_walkie_talkie.Models.{ℤ}
use hermes_walkie_talkie.Models.Presences
use hermes_walkie_talkie.Models.Peers.{PeerRecord, peer_record}

module _ {T : Type 0} (j : Json T) where
  -- `register`: the stamped record under the name of its peer
  unfoldable pub register : String → PeerRecord → List (File T) → List (File T)
  register now r fs = replace_file (written j r.peer_id (stamped now r)) fs

  unfoldable pub get : String → List (File T) → Option PeerRecord
  get peer_id fs = read_path j (registry_file_for peer_id) fs

  unfoldable pub unregister_if_current : String → Authority → List (File T) → Bool × List (File T)
  unregister_if_current peer_id expected fs =
      if authority_matches (get peer_id fs) expected then unregister peer_id fs else (false, fs)

  -- The write at the end of `update_if_current`.
  unfoldable pub store_updated :
      String → Result PeerRecord → List (File T) → Result (Option PeerRecord) × List (File T)
  store_updated now (err e) fs = (err e, fs)
  store_updated now (ok r) fs = (ok (some r), register now r fs)

  -- `update_if_current` for the record that `get` returned.
  unfoldable pub update_record :
      String
      → Authority
      → Changes
      → Option PeerRecord
      → List (File T)
      → Result (Option PeerRecord) × List (File T)
  update_record now expected c none fs = (ok none, fs)
  update_record now expected c (some r) fs =
      if authority_matches (some r) expected
      then store_updated now (peer_record (changed now c r)) fs
      else (ok none, fs)

  unfoldable pub update_if_current :
      String
      → String
      → Authority
      → Changes
      → List (File T)
      → Result (Option PeerRecord) × List (File T)
  update_if_current now peer_id expected c fs = update_record now expected c (get peer_id fs) fs

  -- `expected or self.get(peer_id)`
  unfoldable pub expected_or_current :
      String → Option PeerRecord → List (File T) → Option PeerRecord
  expected_or_current peer_id none fs = get peer_id fs
  expected_or_current peer_id (some r) fs = some r

  -- `update_if_current` under the authority of a record that may be missing.
  unfoldable pub update_as :
      String
      → String
      → Option PeerRecord
      → Changes
      → List (File T)
      → Result (Option PeerRecord) × List (File T)
  update_as now peer_id none c fs = (ok none, fs)
  update_as now peer_id (some r) c fs = update_if_current now peer_id (authority_of r) c fs

  unfoldable pub update_presence :
      String
      → String
      → Presences.Presence
      → Option String
      → Option PeerRecord
      → List (File T)
      → Result (Option PeerRecord) × List (File T)
  update_presence now peer_id status activity expected fs =
      update_as now peer_id (expected_or_current peer_id expected fs)
        (record {
          name = none;
          status = some (Presences.value status);
          current_activity = activity;
          touch_last_seen = true;
        })
        fs

  unfoldable pub heartbeat :
      String
      → String
      → Option PeerRecord
      → List (File T)
      → Result (Option PeerRecord) × List (File T)
  heartbeat now peer_id expected fs =
      update_as now peer_id (expected_or_current peer_id expected fs)
        (record { name = none; status = none; current_activity = none; touch_last_seen = true }) fs

  unfoldable pub list_peers : List (File T) → List PeerRecord
  list_peers fs = read_all j (sorted_files fs)

  module _ (parse_iso : String → Option Moment) where
    unfoldable pub fresh_record : ℕ → Option PeerRecord → Result Bool
    fresh_record now none = ok false
    fresh_record now (some r) = seen_recently now (parse_iso r.last_seen)

    unfoldable pub is_fresh : ℕ → String → List (File T) → Result Bool
    is_fresh now peer_id fs = fresh_record now (get peer_id fs)

    -- The loop of `stale_candidates`.
    unfoldable pub stale_of : ℕ → List PeerRecord → Result (List PeerRecord)
    stale_of now [] = ok []
    stale_of now (r ∷ rs) = seen_recently now (parse_iso r.last_seen) >>= λ fresh.
        stale_of now rs >>= λ rest. ok (if fresh then rest else r ∷ rest)

    unfoldable pub stale_candidates : ℕ → List (File T) → Result (List PeerRecord)
    stale_candidates now fs = stale_of now (list_peers fs)

    -- The loop of `prune`: what it removed, and the files it left.
    unfoldable pub prune_loop :
        (ℤ → String → Result Bool)
        → List PeerRecord
        → List (File T)
        → List PeerRecord × List (File T)
    prune_loop handshake [] fs = ([], fs)
    prune_loop handshake (r ∷ rs) fs =
        let gone = unregister r.peer_id fs in
        let kept = prune_loop handshake rs fs in
        let rest = prune_loop handshake rs gone.1 in
        if answers handshake r then kept else ((if gone.0 then r ∷ rest.0 else rest.0), rest.1)

    unfoldable pub prune_candidates :
        (ℤ → String → Result Bool)
        → Result (List PeerRecord)
        → List (File T)
        → Result (List PeerRecord) × List (File T)
    prune_candidates handshake (err e) fs = (err e, fs)
    prune_candidates handshake (ok rs) fs =
        let out = prune_loop handshake rs fs in (ok out.0, out.1)

    unfoldable pub prune :
        ℕ
        → Option (ℤ → String → Result Bool)
        → List (File T)
        → Result (List PeerRecord) × List (File T)
    prune now none fs = (ok [], fs)
    prune now (some handshake) fs = prune_candidates handshake (stale_candidates now fs) fs
