-- ===== src/Discovery/Repair.antt =====
-- `repair_stale` and `_fenced_remove` of agent_peer/discovery.py, on POSIX.
use hermes_walkie_talkie.Prelude.{
  ℕ, String, Bool, true, false, ◌&&◌, not, Option, none, some, List, [], ◌∷◌, str_eq, ◌==◌,
  if◌then◌else◌, is_some,
}
use hermes_walkie_talkie.Errors.{Result, ok, err, ◌>>=◌, os_error}
use hermes_walkie_talkie.Models.Peers.{PeerRecord}
use hermes_walkie_talkie.Registry.{Moment, File, get, unregister, seen_recently}
use hermes_walkie_talkie.Discovery.Probe.{Claims, Entry, cached_probe}
use hermes_walkie_talkie.Discovery.Listing.{Service, snapshot}

-- The socket node that a repair sees: none, one whose stat fails, or an inode and what the second
-- stat returns (`none` is an OSError).
pub data SocketStat : Type 0 where
  absent failing : SocketStat
  inode : ℕ → Option ℕ → SocketStat

-- What a repair of one record meets, other processes included: the inode of the registry file at
-- its two stats (`none` is an OSError), the socket, the files when the record is read again, and
-- whether a listener is bound to the socket path.
pub record Observed (T : Type 0) : Type 0 where
  pub inode_before : Option ℕ
  pub inode_again : Option ℕ
  pub socket : SocketStat
  pub files : List (File T)
  pub bound : Bool

abbrev pub first_stat : SocketStat → Bool
first_stat failing = false
first_stat _ = true

abbrev pub same_socket : SocketStat → Bool
same_socket (inode a (some b)) = a == b
same_socket (inode a none) = false
same_socket absent = true
same_socket failing = false

unfoldable pub fence_inodes : SocketStat → Option ℕ → Option ℕ → Result Bool
fence_inodes s a none = err os_error
fence_inodes s none (some b) = ok false
fence_inodes s (some a) (some b) = if a == b then ok (same_socket s) else ok false

-- One removal: was the record removed, the files, and the probe cache.
pub record Removal (T : Type 0) : Type 0 where
  pub removed : Result Bool
  pub files : List (File T)
  pub cache : List Entry

module _ {T : Type 0} (d : Service T) where
  -- The comparisons of the record that is read again.
  unfoldable pub fence_fresh : Observed T → PeerRecord → Option PeerRecord → Result Bool
  fence_fresh o r none = ok false
  fence_fresh o r (some fresh) =
      if not (str_eq fresh.instance_id r.instance_id)
      then ok false
      else if not (str_eq fresh.socket_path r.socket_path)
      then ok false
      else fence_inodes o.socket o.inode_before o.inode_again

  -- Everything before the last challenge: has nothing changed?
  unfoldable pub fence : Observed T → PeerRecord → Result Bool
  fence o r =
      if not (is_some o.inode_before)
      then ok false
      else if not (first_stat o.socket)
      then ok false
      else fence_fresh o r (get d.json r.peer_id o.files)

  -- The end: the last challenge found nothing, and nobody listens.
  unfoldable pub unlink_dead : Observed T → PeerRecord → Option Claims → List Entry → Removal T
  unlink_dead o r (some c) cache = record { removed = ok false; files = o.files; cache = cache }
  unlink_dead o r none cache =
      let gone = unregister r.peer_id o.files in
      if not (str_eq r.socket_path "") && o.bound
      then record { removed = ok false; files = o.files; cache = cache }
      else record { removed = ok gone.0; files = gone.1; cache = cache }

  unfoldable pub challenge_dead :
      Observed T → PeerRecord → Result (Option Claims) × List Entry → Removal T
  challenge_dead o r (err x, cache) = record { removed = err x; files = o.files; cache = cache }
  challenge_dead o r (ok c, cache) = unlink_dead o r c cache

  unfoldable pub remove_fenced : Observed T → PeerRecord → List Entry → Result Bool → Removal T
  remove_fenced o r cache (err x) = record { removed = err x; files = o.files; cache = cache }
  remove_fenced o r cache (ok false) = record { removed = ok false; files = o.files; cache = cache }
  remove_fenced o r cache (ok true) = challenge_dead o r (cached_probe d.challenge d.sep r cache)

  -- `_fenced_remove`
  unfoldable pub fenced_remove : Observed T → PeerRecord → List Entry → Removal T
  fenced_remove o r cache = remove_fenced o r cache (fence o r)

  -- `repair_stale`
  module _ (parse_iso : String → Option Moment)
      (observe : PeerRecord → List (File T) → Observed T) where
    abbrev pub keep_removed : PeerRecord → Bool → List PeerRecord → List PeerRecord
    keep_removed r false rs = rs
    keep_removed r true rs = r ∷ rs

    -- The probe is made for a recent record only.
    unfoldable pub is_live : PeerRecord → List Entry → Result Bool → Result Bool × List Entry
    is_live r cache (err x) = (err x, cache)
    is_live r cache (ok false) = (ok false, cache)
    is_live r cache (ok true) =
        let probed = cached_probe d.challenge d.sep r cache in
        (probed.0 >>= λ c. ok (is_some c), probed.1)

    unfoldable pub repair_one : PeerRecord → List (File T) → Result Bool × List Entry → Removal T
    repair_one r fs (err x, cache) = record { removed = err x; files = fs; cache = cache }
    repair_one r fs (ok true, cache) = record { removed = ok false; files = fs; cache = cache }
    repair_one r fs (ok false, cache) = fenced_remove (observe r fs) r cache

    -- What the removal of one record adds to the rest.
    abbrev pub rest_of :
        PeerRecord
        → Result (List PeerRecord) × List (File T)
        → Result Bool
        → List (File T)
        → Result (List PeerRecord) × List (File T)
    rest_of r rest (err x) fs = (err x, fs)
    rest_of r rest (ok b) fs = (rest.0 >>= λ rs. ok (keep_removed r b rs), rest.1)

    -- The loop over the records of the snapshot.
    unfoldable pub repair_all :
        ℕ → List PeerRecord → List (File T) → List Entry → Result (List PeerRecord) × List (File T)
    repair_all now [] fs cache = (ok [], fs)
    repair_all now (r ∷ rs) fs cache =
        let one = repair_one r fs (is_live r cache (seen_recently now (parse_iso r.last_seen))) in
        rest_of r (repair_all now rs one.files one.cache) one.removed one.files

    unfoldable pub repair_stale :
        ℕ → List (File T) → List Entry → Result (List PeerRecord) × List (File T)
    repair_stale now fs cache = repair_all now (snapshot d false fs) fs cache
