-- ===== src/Discovery/Resolve.antt =====
-- `resolve_peer` and `resolve_agent` of agent_peer/discovery.py.
use hermes_walkie_talkie.Prelude.{
  ℕ, String, Bool, true, false, ◌&&◌, ◌||◌, not, Option, none, some, List, [], ◌∷◌, map, str_eq,
  ◌==◌, if◌then◌else◌, is_some, or_else, length,
}
use Prim.Native.Char.{code}
use Prim.Native.String.{slice, len}
use hermes_walkie_talkie.Table.{select_where, first_where}
use hermes_walkie_talkie.Errors.{Result, ok, err, ◌>>=◌, discovery_error, ambiguous_peer}
use hermes_walkie_talkie.Models.Uuid.{codes, uuid_match}
use hermes_walkie_talkie.Models.Peers.{PeerRecord, Capability}
use hermes_walkie_talkie.Registry.{list_peers, File}
use hermes_walkie_talkie.Discovery.Records.{parse_record}
use hermes_walkie_talkie.Discovery.Probe.{Claims, Entry, cached_probe}
use hermes_walkie_talkie.Discovery.Listing.{Service, View, list_live_peers, sort_records}

-- A row of the candidates of a collision.
pub record Candidate : Type 0 where
  pub name : String
  pub peer_id : String
  pub short_peer_id : String
  pub session_id : String
  pub profile : String
  pub surface : String
  pub cwd : String
  pub git_repo_root : String
  pub git_branch : String
  pub status : String

-- The dict of a failed resolution: which text its error has, and the candidates.
pub data Failure : Type 0 where
  empty_target : Failure
  no_peer_id no_match unreachable_name : String → Failure
  collision : String → ℕ → List Candidate → Failure

pub data Resolved : Type 0 where
  found : PeerRecord → Resolved
  failed : Failure → Resolved

unfoldable pub candidate : PeerRecord → Candidate
candidate r = record {
  name = r.name;
  peer_id = r.peer_id;
  short_peer_id = slice r.peer_id 0 8;
  session_id = r.session_id;
  profile = r.profile;
  surface = r.surface;
  cwd = r.cwd;
  git_repo_root = r.git_repo_root;
  git_branch = r.git_branch;
  status = r.status;
}

-- `_looks_like_uuid`: the whole text matches, without the newline that `$` would allow.
abbrev pub looks_like_uuid : String → Bool
looks_like_uuid s = uuid_match s && len s == 36

-- `"~" in target`
abbrev pub has_tilde : String → Bool
has_tilde String.[] = false
has_tilde (String.◌∷◌ c s) = code c == b'~' || has_tilde s

-- `target.partition("~")`
abbrev pub before_tilde : String → String
before_tilde String.[] = ""
before_tilde (String.◌∷◌ c s) =
    let rest = String.◌∷◌ c (before_tilde s) in if code c == b'~' then "" else rest

abbrev pub after_tilde : String → String
after_tilde String.[] = ""
after_tilde (String.◌∷◌ c s) = let rest = after_tilde s in if code c == b'~' then s else rest

-- `startswith`, on the codes of the characters
abbrev pub begins : List ℕ → List ℕ → Bool
begins [] ys = true
begins (x ∷ xs) [] = false
begins (x ∷ xs) (y ∷ ys) = x == y && begins xs ys

abbrev pub has_name : String → PeerRecord → Bool
has_name n r = str_eq r.name n

abbrev pub has_session : String → PeerRecord → Bool
has_session s r = str_eq r.session_id s

abbrev pub has_prefix : String → PeerRecord → Bool
has_prefix short r = begins (codes short) (codes r.peer_id)

-- `_collision_error`
unfoldable pub collision_error : (String → String) → String → List PeerRecord → Failure
collision_error casefold name candidates =
    collision name (length candidates) (map candidate (sort_records casefold candidates))

-- A target of the form `name~short`, for the candidates of that name.
unfoldable pub pick_exact :
    (String → String) → String → String → List PeerRecord → List PeerRecord → Resolved
pick_exact casefold target name candidates [] = failed (no_match target)
pick_exact casefold target name candidates (r ∷ []) = found r
pick_exact casefold target name candidates (r ∷ q ∷ rs) =
    failed (collision_error casefold name candidates)

-- A bare name, for the candidates of that name.
unfoldable pub pick_named : (String → String) → String → List PeerRecord → Resolved
pick_named casefold target [] = failed (unreachable_name target)
pick_named casefold target (r ∷ []) = found r
pick_named casefold target (r ∷ q ∷ rs) = failed (collision_error casefold target (r ∷ q ∷ rs))

unfoldable pub resolve_name : (String → String) → String → List PeerRecord → Resolved
resolve_name casefold target live =
    let named = select_where (has_name (before_tilde target)) live in
    if has_tilde target
    then pick_exact casefold target (before_tilde target) named
        (select_where (has_prefix (after_tilde target)) named)
    else pick_named casefold target (select_where (has_name target) live)

-- `requesting_peer_id` as the set of excluded ids
abbrev pub excluded_of : Option String → List String
excluded_of none = []
excluded_of (some p) = p ∷ []

-- Step 1, for the parsed record of the peer id and what its probe found.
unfoldable pub resolve_id : String → Option PeerRecord → Option Claims → Resolved
resolve_id target (some r) (some c) = found r
resolve_id target _ _ = failed (no_peer_id target)

-- `capabilities.get("primary") is True`
abbrev pub primary : List Capability → Bool
primary [] = false
primary (c ∷ cs) = if str_eq c.flag "primary" then c.is_true else primary cs

abbrev pub is_primary : PeerRecord → Bool
is_primary r = primary r.capabilities

-- The records of an agent other than the requester's.
abbrev pub is_candidate : String → Option String → PeerRecord → Bool
is_candidate agent_id requester r =
    str_eq r.agent_id agent_id
    && not (str_eq (or_else requester "") r.peer_id && not (str_eq (or_else requester "") ""))

-- `if len(xs) == 1: return xs[0]`
abbrev pub single_or : List PeerRecord → Result PeerRecord → Result PeerRecord
single_or (r ∷ []) rest = ok r
single_or [] rest = rest
single_or (r ∷ q ∷ rs) rest = rest

-- Steps 1 to 4 of `resolve_agent`, for the live sessions of the agent.
unfoldable pub pick_session : Option String → List PeerRecord → Result PeerRecord
pick_session pinned [] = err discovery_error
pick_session pinned (l ∷ ls) =
    let pin = or_else pinned "" in
    if not (str_eq pin "")
    then single_or (select_where (λ r. str_eq r.peer_id pin) (l ∷ ls)) (err ambiguous_peer)
    else single_or (select_where is_primary (l ∷ ls)) (single_or (l ∷ ls) (err ambiguous_peer))

module _ {T : Type 0} (d : Service T) where
  -- `[r for r in candidates if self._probe(r)]`
  unfoldable pub probe_all : List PeerRecord → List Entry → Result (List PeerRecord) × List Entry
  probe_all [] cache = (ok [], cache)
  probe_all (r ∷ rs) cache =
      let probed = cached_probe d.challenge d.sep r cache in
      let rest = probe_all rs probed.1 in
      (probed.0 >>= λ c. rest.0 >>= λ live. ok (if is_some c then r ∷ live else live), rest.1)

  unfoldable pub resolve_agent :
      String
      → Option String
      → Option String
      → List (File T)
      → List Entry
      → Result PeerRecord × List Entry
  resolve_agent agent_id pinned requester fs cache =
      let live =
        probe_all (select_where (is_candidate agent_id requester) (list_peers d.json fs)) cache in
      if str_eq agent_id ""
      then (err discovery_error, cache)
      else (live.0 >>= pick_session pinned, live.1)

  -- Step 1 with its probe.
  unfoldable pub probe_id : String → Option PeerRecord → List Entry → Result Resolved × List Entry
  probe_id target none cache = (ok (failed (no_peer_id target)), cache)
  probe_id target (some r) cache =
      let probed = cached_probe d.challenge d.sep r cache in
      (probed.0 >>= λ c. ok (resolve_id target (some r) c), probed.1)

  -- Steps 3 to 5, when the first listing has no such session: they list again.
  unfoldable pub resolve_second :
      String → List String → View T → Option PeerRecord → List Entry → Result Resolved × List Entry
  resolve_second target excluded w (some r) cache = (ok (found r), cache)
  resolve_second target excluded w none cache =
      let second = list_live_peers d w excluded cache in
      (second.0 >>= λ live. ok (resolve_name d.casefold target live), second.1)

  unfoldable pub resolve_first :
      String
      → List String
      → View T
      → Result (List PeerRecord) × List Entry
      → Result Resolved × List Entry
  resolve_first target excluded w (err x, cache) = (err x, cache)
  resolve_first target excluded w (ok live, cache) =
      resolve_second target excluded w (first_where (has_session target) live) cache

  -- `resolve_peer`; each listing has its own view of the directory.
  unfoldable pub resolve_peer :
      String → Option String → View T → View T → List Entry → Result Resolved × List Entry
  resolve_peer target requester v w cache =
      let excluded = excluded_of requester in
      let by_id = probe_id target (parse_record d.json d.paths true target v.snapshot) cache in
      let listed = resolve_first target excluded w (list_live_peers d v excluded cache) in
      if str_eq target ""
      then (ok (failed empty_target), cache)
      else if looks_like_uuid target
      then by_id
      else listed
