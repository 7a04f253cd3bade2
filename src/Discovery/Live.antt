-- ===== src/Discovery/Live.antt =====
-- What agent_peer/discovery.py lists, and what it resolves an agent to.
use hermes_walkie_talkie.Prelude.{
  String, ◌≡◌, ◌⊎◌, sym, inl, inr, Bool, true, false, Option, none, some, List, [], ◌∷◌, arith,
  str_eq, eq_iff, if◌then◌else◌, Bool-cases, is_some, or_else, All, All-imp, ◌≢◌,
}
use mathlib.Core.List.{Mem, mem-cons_self, mem-cons_of_mem}
use hermes_walkie_talkie.Table.Laws.{All-select}
use hermes_walkie_talkie.Table.{select_where}
use hermes_walkie_talkie.Registry.{File, list_peers}
use hermes_walkie_talkie.Registry.Constructor.{bind_ok}
use hermes_walkie_talkie.Discovery.Resolution.{IsPick, pick_session_iff, not_ok}
use hermes_walkie_talkie.Discovery.Resolve.{
  is_candidate, is_primary, pick_session, probe_all, resolve_agent,
}
use hermes_walkie_talkie.Errors.{discovery_error, Result, ok, err, ◌>>=◌}
use hermes_walkie_talkie.Models.Peers.{PeerRecord}
use hermes_walkie_talkie.Registry.Constructor.{ok-injective}
use hermes_walkie_talkie.Discovery.Records.{parse_record}
use hermes_walkie_talkie.Discovery.Probe.{Claims, Entry, cache_key, cached_probe}
use hermes_walkie_talkie.Discovery.Cache.{
  IsShown, IsBacked, IsHonest, IsBackedResult, cached_probe-IsSound,
}
use hermes_walkie_talkie.Discovery.Listing.{
  Service, View, mem_text, unchanged, key_lt, insert_record, sort_records, keep_live, probe_listed,
  live_of, list_live_peers, snapshot,
}

module _ {κ} (f : String → String) (P : PeerRecord → Type κ) where
  All-insert_record :
      (r : PeerRecord) (rs : List PeerRecord) → P r → All P rs → All P (insert_record f r rs)
  All-insert_record r [] h a = (h, tt)
  All-insert_record r (x ∷ xs) h a = elim (Bool-cases (key_lt f x r)) [
    | inl e ↦ rw e (a.0, All-insert_record r xs h a.1)
    | inr e ↦ rw e (h, a)
  ]

  All-sort_records : (rs : List PeerRecord) → All P rs → All P (sort_records f rs)
  All-sort_records [] a = tt
  All-sort_records (r ∷ rs) a =
      All-insert_record r (sort_records f rs) a.0 (All-sort_records rs a.1)

module _ {T : Type 0} (d : Service T) where
  -- A challenge of a record with the peer id, socket path and heartbeat of this one was answered with
  -- claims that prove it.
  abbrev pub IsProven : PeerRecord → Type 0
  IsProven r = (c : Claims) × IsShown d.challenge d.sep (cache_key d.sep r) c

  -- A listed peer is proven live and not excluded, and its record is the same after its probe.
  abbrev pub IsLive : View T → List String → PeerRecord → Type 0
  IsLive v excluded r =
      IsProven r
      × (mem_text r.peer_id excluded ≡ false)
      × (unchanged r (parse_record d.json d.paths true r.peer_id v.reread) ≡ true)

  -- The entries of the cache are answers to challenges.
  abbrev pub IsHonestCache : List Entry → Type 0
  IsHonestCache cache = All (IsHonest d.challenge d.sep) cache

  IsLive-keep :
      (v : View T) (excluded : List String) (r : PeerRecord) (c : Option Claims)
      (rest : List PeerRecord)
      → mem_text r.peer_id excluded ≡ false
      → IsBacked d.challenge d.sep (cache_key d.sep r) c
      → All (IsLive v excluded) rest
      → All (IsLive v excluded) (keep_live d v r c rest)
  unfolding keep_live
  IsLive-keep v excluded r none rest m b a = a
  IsLive-keep v excluded r (some c) rest m b a =
      elim (Bool-cases (unchanged r (parse_record d.json d.paths true r.peer_id v.reread))) [
        | inl e ↦ rw e (((c, b), m, e), a)
        | inr e ↦ rw e a
      ]

  -- What every list that a computation may return has.
  abbrev Returns : (PeerRecord → Type 0) → Result (List PeerRecord) → Type 0
  Returns P (ok rs) = All P rs
  Returns P (err x) = Unit

  Returns-bind :
      (P : PeerRecord → Type 0) (m : Result (List PeerRecord))
      (g : List PeerRecord → List PeerRecord)
      → ((rs : List PeerRecord) → All P rs → All P (g rs))
      → Returns P m
      → Returns P (m >>= λ rs. ok (g rs))
  Returns-bind P (ok rs) g h a = h rs a
  Returns-bind P (err x) g h a = tt

  Returns-probe :
      (v : View T) (excluded : List String) (r : PeerRecord)
      (p : Result (Option Claims) × List Entry)
      → (rest : List Entry → Result (List PeerRecord) × List Entry)
      → mem_text r.peer_id excluded ≡ false
      → IsBackedResult d.challenge d.sep (cache_key d.sep r) p.0 × IsHonestCache p.1
      → ((cache : List Entry) → IsHonestCache cache → Returns (IsLive v excluded) (rest cache).0)
      → Returns (IsLive v excluded) (probe_listed d v r p rest).0
  unfolding probe_listed
  Returns-probe v excluded r (err x, cache) rest m b h = tt
  Returns-probe v excluded r (ok c, cache) rest m b h =
      Returns-bind (IsLive v excluded) (rest cache).0 (keep_live d v r c)
        (λ rs. IsLive-keep v excluded r c rs m b.0) (h cache b.1)

  Returns-live_of :
      (v : View T) (excluded : List String) (rs : List PeerRecord) (cache : List Entry)
      → IsHonestCache cache
      → Returns (IsLive v excluded) (live_of d v excluded rs cache).0
  unfolding live_of
  Returns-live_of v excluded [] cache h = tt
  Returns-live_of v excluded (r ∷ rs) cache h = elim (Bool-cases (mem_text r.peer_id excluded)) [
    | inl e ↦ rw e (Returns-live_of v excluded rs cache h)
    | inr e ↦ rw e (
        Returns-probe v excluded r (cached_probe d.challenge d.sep r cache)
          (live_of d v excluded rs) e (cached_probe-IsSound d.challenge d.sep r cache h)
          (Returns-live_of v excluded rs))
  ]

  Returns-ok :
      (P : PeerRecord → Type 0) (m : Result (List PeerRecord)) (rs : List PeerRecord)
      → m ≡ ok rs
      → Returns P m
      → All P rs
  Returns-ok P (ok x) rs e a = rw (← ok-injective x rs e) a
  Returns-ok P (err x) rs e a = cc

-- Every peer that a listing returns has answered a challenge of a record with its peer id, socket
-- path and heartbeat with claims that prove that record, it is none of the excluded ones, and the
-- record that is parsed again after its probe is the one that was listed. The probe cache has to hold
-- answers to challenges, as an empty one does.
pub list_live_peers-IsLive :
    {T : Type 0} (d : Service T) (v : View T) (excluded : List String) (cache : List Entry)
    (rs : List PeerRecord)
    → IsHonestCache d cache
    → (list_live_peers d v excluded cache).0 ≡ ok rs
    → All (IsLive d v excluded) rs
unfolding list_live_peers
list_live_peers-IsLive d v excluded cache rs honest h = Returns-ok d (IsLive d v excluded) _ rs h (
    Returns-bind d (IsLive d v excluded) (live_of d v excluded (snapshot d true v.snapshot) cache).0
      (sort_records d.casefold) (λ xs. All-sort_records d.casefold (IsLive d v excluded) xs)
      (Returns-live_of d v excluded (snapshot d true v.snapshot) cache honest))

select-holds :
    (q : PeerRecord → Bool) (P : PeerRecord → Type 0) (xs : List PeerRecord)
    → All P xs
    → All (λ r. (q r ≡ true) × P r) (select_where q xs)
select-holds q P [] a = tt
select-holds q P (x ∷ xs) a = elim (Bool-cases (q x)) [
  | inl e ↦ rw e ((e, a.0), select-holds q P xs a.1)
  | inr e ↦ rw e (select-holds q P xs a.1)
]

All-Mem : (xs : List PeerRecord) → All (λ x. Mem x xs) xs
All-Mem [] = tt
All-Mem (x ∷ xs) = (
  mem-cons_self,
  All-imp (λ y. Mem y xs) (λ y. Mem y (x ∷ xs)) xs (λ y m. mem-cons_of_mem x m) (All-Mem xs),
)

single-All :
    (P : PeerRecord → Type 0) (xs : List PeerRecord) (r : PeerRecord) → xs ≡ r ∷ [] → All P xs → P r
single-All P xs r e a = let b : All P (r ∷ []) = rw e at a in b.0

IsPick-All :
    (P : PeerRecord → Type 0) (pinned : Option String) (live : List PeerRecord) (r : PeerRecord)
    → IsPick pinned live r
    → All P live
    → P r
IsPick-All P pinned live r h a = elim (Bool-cases (str_eq (or_else pinned "") "")) [
  | inl e ↦ elim (rw e at h) [
    | inl k ↦ single-All P (select_where is_primary live) r k (All-select P is_primary live a)
    | inr k ↦ single-All P live r (k.1) a
  ]
  | inr e ↦
      single-All P (select_where (λ x. str_eq x.peer_id (or_else pinned "")) live) r (rw e at h)
        (All-select P (λ x. str_eq x.peer_id (or_else pinned "")) live a)
]

module _ {T : Type 0} (d : Service T) where
  -- A live session of the candidates has what a candidate has, and is proven.
  probed :
      (P : PeerRecord → Type 0) (r : PeerRecord) (o : Result (Option Claims))
      (m : Result (List PeerRecord))
      → P r
      → IsBackedResult d.challenge d.sep (cache_key d.sep r) o
      → Returns d (λ x. IsProven d x × P x) m
      → Returns d
          (λ x. IsProven d x × P x)
          (o >>= λ c. m >>= λ live. ok (if is_some c then r ∷ live else live))
  probed P r (err x) m h b a = tt
  probed P r (ok none) m h b a =
      Returns-bind d (λ x. IsProven d x × P x) m (λ live. live) (λ rs k. k) a
  probed P r (ok (some c)) m h b a =
      Returns-bind d (λ x. IsProven d x × P x) m (λ live. r ∷ live) (λ rs k. (((c, b), h), k)) a

  Returns-probe_all :
      (P : PeerRecord → Type 0) (rs : List PeerRecord) (cache : List Entry)
      → IsHonestCache d cache
      → All P rs
      → Returns d (λ x. IsProven d x × P x) (probe_all d rs cache).0
  unfolding probe_all
  Returns-probe_all P [] cache h a = tt
  Returns-probe_all P (r ∷ rs) cache h a =
      let (backed, honest) = cached_probe-IsSound d.challenge d.sep r cache h in
      probed P r (cached_probe d.challenge d.sep r cache).0
        (probe_all d rs (cached_probe d.challenge d.sep r cache).1).0 a.0 backed
        (Returns-probe_all P rs (cached_probe d.challenge d.sep r cache).1 honest a.1)

  -- What a session has that `resolve_agent` returns.
  pub record IsSession (agent_id : String) (requester : Option String) (fs : List (File T))
      (r : PeerRecord) : Type 0 where
    pub named : str_eq agent_id "" ≡ false
    pub agent : r.agent_id ≡ agent_id
    pub other : (or_else requester "" ≡ "") ⊎ (r.peer_id ≢ or_else requester "")
    pub listed : Mem r (list_peers d.json fs)
    pub proven : IsProven d r

not_own :
    (agent_id : String) (requester : Option String) (r : PeerRecord)
    → is_candidate agent_id requester r ≡ true
    → (or_else requester "" ≡ "") ⊎ (r.peer_id ≢ or_else requester "")
not_own agent_id requester r h = elim (Bool-cases (str_eq (or_else requester "") "")) [
  | inl e ↦ inl ((eq_iff (or_else requester "") "").0 e)
  | inr e ↦ inr (λ same. ground (arith, (eq_iff (or_else requester "") r.peer_id).1 (sym same)))
]

-- The session that an agent's target resolves to is a record of the registry with that agent id,
-- which is not empty; it is not the requester's own, if a requester is named, and it has answered a challenge of a record with
-- its peer id, socket path and heartbeat. The probe cache has to hold answers to challenges.
pub resolve_agent-IsSession :
    {T : Type 0} (d : Service T) (agent_id : String) (pinned requester : Option String)
    → (fs : List (File T)) (cache : List Entry) (r : PeerRecord) → IsHonestCache d cache
    → (resolve_agent d agent_id pinned requester fs cache).0 ≡ ok r
    → IsSession d agent_id requester fs r
unfolding resolve_agent
resolve_agent-IsSession d agent_id pinned requester fs cache r honest h =
    elim (Bool-cases (str_eq agent_id "")) [
      | inl e ↦ absurd (not_ok discovery_error r (rw e at h))
      | inr e ↦
          let found = select_where (is_candidate agent_id requester) (list_peers d.json fs) in
          let (live, k, picked) =
            bind_ok (probe_all d found cache).0 (pick_session pinned) r (rw e at h) in
          let P : PeerRecord → Type 0 =
            λ x. (is_candidate agent_id requester x ≡ true) × Mem x (list_peers d.json fs) in
          let all =
            Returns-ok d (λ x. IsProven d x × P x) (probe_all d found cache).0 live k
              (Returns-probe_all d P found cache honest (
                select-holds (is_candidate agent_id requester) (λ x. Mem x (list_peers d.json fs))
                  (list_peers d.json fs) (All-Mem (list_peers d.json fs)))) in
          let (proven, candidate_listed) =
            IsPick-All (λ x. IsProven d x × P x) pinned live r
              ((pick_session_iff pinned live r).0 picked) all in
          record {
            named = e;
            agent = ground (arith, eq_iff r.agent_id agent_id, candidate_listed.0);
            other = not_own agent_id requester r candidate_listed.0;
            listed = candidate_listed.1;
            proven = proven;
          }
    ]
