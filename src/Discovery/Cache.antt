-- ===== src/Discovery/Cache.antt =====
-- The probe cache of agent_peer/discovery.py.
use hermes_walkie_talkie.Prelude.{
  ℕ, String, ◌≡◌, refl, ap, ◌⊎◌, inl, inr, true, Option, none, some, List, [], ◌∷◌, str_eq, ltb,
  eq_iff, or_else, Bool-cases, length, All,
}
use mathlib.Core.Path.{subst}
use hermes_walkie_talkie.Errors.{Result, ok, err}
use hermes_walkie_talkie.Models.Peers.{PeerRecord}
use hermes_walkie_talkie.Discovery.Probe.{
  Claims, Challenge, Entry, probe_once, cache_key, cached, is_young, keep_young, store_entry,
  remember, max_cache, probe_missed, probe_cached, cached_probe,
}

module _ (ch : Challenge) (sep : String) where
  -- The answer of the challenge itself, or that of an entry for the record which is not too old.
  abbrev pub IsAnswer : PeerRecord → List Entry → Option Claims → Type 0
  IsAnswer r cache found =
      (probe_once ch r ≡ ok found)
      ⊎ (e : Entry) × (cached (cache_key sep r) cache ≡ some e)
        × (is_young ch.now e ≡ true)
        × (e.found ≡ found)

  missed_same :
      (k : String) (r : PeerRecord) (cache : List Entry) (p : Result (Option Claims))
      → (probe_missed ch k r cache p).0 ≡ p
  unfolding probe_missed
  missed_same k r cache (ok found) = refl
  missed_same k r cache (err x) = refl

  cached_or :
      (r : PeerRecord) (cache : List Entry) (found : Option Claims) (o : Option Entry)
      → cached (cache_key sep r) cache ≡ o
      → (probe_cached ch (cache_key sep r) r cache o).0 ≡ ok found
      → IsAnswer r cache found
  unfolding probe_cached
  cached_or r cache found none e h =
      inl (rw (missed_same (cache_key sep r) r cache (probe_once ch r)) at h)
  cached_or r cache found (some x) e h = elim (Bool-cases (is_young ch.now x)) [
    | inl y ↦ inr (x, e, y, ok-found (rw y at h))
    | inr y ↦ inl (rw (y, missed_same (cache_key sep r) r cache (probe_once ch r)) at h)
  ]
    where
      ok-found : ok x.found ≡ ok found → x.found ≡ found
      ok-found k = cc

  pub cached_probe-IsAnswer :
      (r : PeerRecord) (cache : List Entry) (found : Option Claims)
      → (cached_probe ch sep r cache).0 ≡ ok found
      → IsAnswer r cache found
  unfolding cached_probe
  cached_probe-IsAnswer r cache found h =
      cached_or r cache found (cached (cache_key sep r) cache) refl h

  -- A challenge of a record with this cache key (its peer id, socket path and heartbeat) was answered
  -- with these claims, and they prove that record.
  abbrev pub IsShown : String → Claims → Type 0
  IsShown k c = (q : PeerRecord) × (cache_key sep q ≡ k) × (probe_once ch q ≡ ok (some c))

  abbrev pub IsBacked : String → Option Claims → Type 0
  IsBacked k none = Unit
  IsBacked k (some c) = IsShown k c

  -- An entry that says that a peer is live is the answer to a challenge.
  abbrev pub IsHonest : Entry → Type 0
  IsHonest e = IsBacked e.key e.found

  abbrev pub IsBackedResult : String → Result (Option Claims) → Type 0
  IsBackedResult k (ok found) = IsBacked k found
  IsBackedResult k (err x) = Unit

  keep_young-IsHonest :
      (now : ℕ) (es : List Entry) → All IsHonest es → All IsHonest (keep_young now es)
  keep_young-IsHonest now [] h = tt
  keep_young-IsHonest now (e ∷ es) h = elim (Bool-cases (is_young now e)) [
    | inl y ↦ rw y (h.0, keep_young-IsHonest now es h.1)
    | inr y ↦ rw y (keep_young-IsHonest now es h.1)
  ]

  store_entry-IsHonest :
      (e : Entry) (es : List Entry) → IsHonest e → All IsHonest es → All IsHonest (store_entry e es)
  store_entry-IsHonest e [] k h = (k, tt)
  store_entry-IsHonest e (d ∷ ds) k h = elim (Bool-cases (str_eq d.key e.key)) [
    | inl y ↦ rw y (k, h.1)
    | inr y ↦ rw y (h.0, store_entry-IsHonest e ds k h.1)
  ]

  remember-IsHonest :
      (now : ℕ) (e : Entry) (es : List Entry)
      → IsHonest e
      → All IsHonest es
      → All IsHonest (remember now e es)
  unfolding remember
  remember-IsHonest now e es k h = elim (Bool-cases (ltb max_cache (length es))) [
    | inl y ↦ rw y (store_entry-IsHonest e (keep_young now es) k (keep_young-IsHonest now es h))
    | inr y ↦ rw y (store_entry-IsHonest e es k h)
  ]

  cached-IsHonest :
      (k : String) (es : List Entry) (e : Entry)
      → All IsHonest es
      → cached k es ≡ some e
      → IsBacked k e.found
  cached-IsHonest k [] e h c = cc
  cached-IsHonest k (d ∷ ds) e h c = elim (Bool-cases (str_eq d.key k)) [
    | inl y ↦
        let same : d ≡ e = ap (λ o. or_else o d) (rw y at c) in
        subst (λ x. IsBacked k x.found) same
          (subst (λ j. IsBacked j d.found) ((eq_iff d.key k).0 y) h.0)
    | inr y ↦ cached-IsHonest k ds e h.1 (rw y at c)
  ]

  once-IsBacked :
      (r : PeerRecord) (p : Result (Option Claims))
      → probe_once ch r ≡ p
      → IsBackedResult (cache_key sep r) p
  once-IsBacked r (ok none) h = tt
  once-IsBacked r (ok (some c)) h = (r, refl, h)
  once-IsBacked r (err x) h = tt

  missed-IsSound :
      (r : PeerRecord) (cache : List Entry) (p : Result (Option Claims))
      → IsBackedResult (cache_key sep r) p
      → All IsHonest cache
      → IsBackedResult (cache_key sep r) (probe_missed ch (cache_key sep r) r cache p).0
        × All IsHonest (probe_missed ch (cache_key sep r) r cache p).1
  unfolding probe_missed
  missed-IsSound r cache (err x) b h = (tt, h)
  missed-IsSound r cache (ok found) b h = (
    b,
    remember-IsHonest ch.now (record { key = cache_key sep r; at = ch.now; found = found }) cache b
        h,
  )

  probe_cached-IsSound :
      (r : PeerRecord) (cache : List Entry) (o : Option Entry)
      → cached (cache_key sep r) cache ≡ o
      → All IsHonest cache
      → IsBackedResult (cache_key sep r) (probe_cached ch (cache_key sep r) r cache o).0
        × All IsHonest (probe_cached ch (cache_key sep r) r cache o).1
  unfolding probe_cached
  probe_cached-IsSound r cache none e h =
      missed-IsSound r cache (probe_once ch r) (once-IsBacked r (probe_once ch r) refl) h
  probe_cached-IsSound r cache (some x) e h = elim (Bool-cases (is_young ch.now x)) [
    | inl y ↦ rw y (cached-IsHonest (cache_key sep r) cache x h e, h)
    | inr y ↦
        rw y (missed-IsSound r cache (probe_once ch r) (once-IsBacked r (probe_once ch r) refl) h)
  ]

  -- What a probe answers is backed, and it leaves a cache of honest entries.
  pub cached_probe-IsSound :
      (r : PeerRecord) (cache : List Entry)
      → All IsHonest cache
      → IsBackedResult (cache_key sep r) (cached_probe ch sep r cache).0
        × All IsHonest (cached_probe ch sep r cache).1
  unfolding cached_probe
  cached_probe-IsSound r cache h =
      probe_cached-IsSound r cache (cached (cache_key sep r) cache) refl h
