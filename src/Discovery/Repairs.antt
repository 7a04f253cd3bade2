-- ===== src/Discovery/Repairs.antt =====
-- What a repair of agent_peer/discovery.py may remove.
use hermes_walkie_talkie.Prelude.{
  ℕ, ◌≡◌, refl, ap, ◌≢◌, ◌⊎◌, inl, inr, Bool, true, false, Option, none, some, List, arith, str_eq,
  eq_iff, ◌==◌, ==_iff, Bool-cases, is_some,
}
use hermes_walkie_talkie.Errors.{Result, ok, err}
use hermes_walkie_talkie.Models.Peers.{PeerRecord}
use hermes_walkie_talkie.Registry.{get, unregister}
use hermes_walkie_talkie.Registry.Constructor.{ok-injective}
use hermes_walkie_talkie.Discovery.Probe.{Claims, Entry, cached_probe}
use hermes_walkie_talkie.Discovery.Listing.{Service}
use hermes_walkie_talkie.Discovery.Cache.{IsAnswer, cached_probe-IsAnswer}
use hermes_walkie_talkie.Discovery.Repair.{
  SocketStat, Observed, Removal, first_stat, same_socket, fence_inodes, fence_fresh, fence,
  unlink_dead, challenge_dead, remove_fenced, fenced_remove,
}

-- What the fence compared before a removal.
pub record IsUnchanged {T : Type 0} (d : Service T) (o : Observed T) (r fresh : PeerRecord)
    : Type 0 where
  pub reads : get d.json r.peer_id o.files ≡ some fresh
  pub instance_id : fresh.instance_id ≡ r.instance_id
  pub socket_path : fresh.socket_path ≡ r.socket_path
  pub inode : o.inode_before ≡ o.inode_again
  pub socket : same_socket o.socket ≡ true

never {ℓ} : {A : Type ℓ} → ok false ≡ ok true → A
never h = absurd (ground arith)

inodes-same :
    (s : SocketStat) (a b : Option ℕ)
    → fence_inodes s a b ≡ ok true
    → (a ≡ b) × (same_socket s ≡ true)
unfolding fence_inodes
inodes-same s a none h = cc
inodes-same s none (some b) h = never h
inodes-same s (some a) (some b) h = elim (Bool-cases (a == b)) [
  | inl e ↦ (ap some ((==_iff a b).0 e), ok-injective (same_socket s) true (rw e at h))
  | inr e ↦ never (rw e at h)
]

module _ {T : Type 0} (d : Service T) where
  fresh-IsUnchanged :
      (o : Observed T) (r : PeerRecord) (f : Option PeerRecord)
      → get d.json r.peer_id o.files ≡ f
      → fence_fresh d o r f ≡ ok true
      → (fresh : PeerRecord) × IsUnchanged d o r fresh
  unfolding fence_fresh
  fresh-IsUnchanged o r none g h = never h
  fresh-IsUnchanged o r (some fresh) g h =
      elim (Bool-cases (str_eq fresh.instance_id r.instance_id)) [
        | inr e ↦ never (rw e at h)
        | inl e ↦ elim (Bool-cases (str_eq fresh.socket_path r.socket_path)) [
          | inr k ↦ never (rw (e, k) at h)
          | inl k ↦
              let (inodes, socket) =
                inodes-same o.socket o.inode_before o.inode_again (rw (e, k) at h) in
              (
                fresh,
                record {
                  reads = g;
                  instance_id = (eq_iff fresh.instance_id r.instance_id).0 e;
                  socket_path = (eq_iff fresh.socket_path r.socket_path).0 k;
                  inode = inodes;
                  socket = socket;
                },
              )
        ]
      ]

  fence-IsUnchanged :
      (o : Observed T) (r : PeerRecord)
      → fence d o r ≡ ok true
      → (fresh : PeerRecord) × IsUnchanged d o r fresh
  unfolding fence
  fence-IsUnchanged o r h = elim (Bool-cases (is_some o.inode_before)) [
    | inr e ↦ never (rw e at h)
    | inl e ↦ elim (Bool-cases (first_stat o.socket)) [
      | inr k ↦ never (rw (e, k) at h)
      | inl k ↦ fresh-IsUnchanged o r (get d.json r.peer_id o.files) refl (rw (e, k) at h)
    ]
  ]

  -- Nobody listens at the socket path of the record, if it has one.
  abbrev pub IsUnbound : Observed T → PeerRecord → Type 0
  IsUnbound o r = (str_eq r.socket_path "" ≡ true) ⊎ (o.bound ≡ false)

  -- The record is kept: no file changes, and the repair does not count it as removed.
  abbrev pub IsKept : Observed T → Removal T → Type 0
  IsKept o m = (m.files ≡ o.files) × (m.removed ≢ ok true)

  -- The file of the peer is removed and no other, when nobody listens and the challenge has failed.
  abbrev IsCleared : Observed T → PeerRecord → Removal T → Type 0
  IsCleared o r m = IsUnbound o r × (m.files ≡ (unregister r.peer_id o.files).1)

  unlinked :
      (o : Observed T) (r : PeerRecord) (c : Option Claims) (cache : List Entry)
      → IsKept o (unlink_dead d o r c cache)
        ⊎ (c ≡ none) × IsCleared o r (unlink_dead d o r c cache)
  unfolding unlink_dead
  unlinked o r (some c) cache = inl (refl, λ h. never h)
  unlinked o r none cache = elim (Bool-cases (str_eq r.socket_path "")) [
    | inl e ↦ rw e (inr (refl, (inl refl, refl)))
    | inr e ↦ elim (Bool-cases o.bound) [
      | inl b ↦ rw (e, b) (inl (refl, λ h. never h))
      | inr b ↦ rw (e, b) (inr (refl, (inr refl, refl)))
    ]
  ]

  challenged :
      (o : Observed T) (r : PeerRecord) (p : Result (Option Claims) × List Entry)
      → IsKept o (challenge_dead d o r p) ⊎ (p.0 ≡ ok none) × IsCleared o r (challenge_dead d o r p)
  unfolding challenge_dead
  challenged o r (err x, cache) = inl (refl, λ h. cc)
  challenged o r (ok c, cache) = elim (unlinked o r c cache) [
    | inl kept ↦ inl kept
    | inr gone ↦ inr (ap ok gone.0, gone.1)
  ]

  -- The record that is read again is unchanged, the challenge of the peer fails now, or failed less
  -- than the lifetime of a cache entry ago, and its file is removed.
  abbrev pub IsRemoved : Observed T → PeerRecord → List Entry → Removal T → Type 0
  IsRemoved o r cache m =
      (fresh : PeerRecord) × IsUnchanged d o r fresh
      × IsAnswer d.challenge d.sep r cache none
      × IsUnbound o r
      × (m.files ≡ (unregister r.peer_id o.files).1)

  IsRemoved-fenced :
      (o : Observed T) (r : PeerRecord) (cache : List Entry) (f : Result Bool)
      → fence d o r ≡ f
      → IsKept o (remove_fenced d o r cache f) ⊎ IsRemoved o r cache (remove_fenced d o r cache f)
  unfolding remove_fenced
  IsRemoved-fenced o r cache (err x) e = inl (refl, λ h. cc)
  IsRemoved-fenced o r cache (ok false) e = inl (refl, λ h. never h)
  IsRemoved-fenced o r cache (ok true) e =
      elim (challenged o r (cached_probe d.challenge d.sep r cache)) [
        | inl kept ↦ inl kept
        | inr gone ↦
            let (fresh, same) = fence-IsUnchanged o r e in
            inr (
              fresh,
              same,
              cached_probe-IsAnswer d.challenge d.sep r cache none gone.0,
              gone.1.0,
              gone.1.1,
            )
      ]

-- A repair either changes no file and does not count the record as removed, or it removes the file of
-- that peer and no other; then, when the record is read again, the registry still holds a record with
-- the same instance and socket path, the inodes of the registry file and of the socket are the same as
-- before, the challenge of the peer fails, or failed when an entry of the probe cache was made that is
-- still young, and no listener is bound to the socket path, if there is one.
pub fenced_remove-IsRemoved :
    {T : Type 0} (d : Service T) (o : Observed T) (r : PeerRecord) (cache : List Entry)
    → IsKept d o (fenced_remove d o r cache) ⊎ IsRemoved d o r cache (fenced_remove d o r cache)
unfolding fenced_remove
fenced_remove-IsRemoved d o r cache = IsRemoved-fenced d o r cache (fence d o r) refl
