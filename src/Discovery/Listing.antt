-- ===== src/Discovery/Listing.antt =====
-- `list_live_peers` of agent_peer/discovery.py.
use hermes_walkie_talkie.Prelude.{
  ◌-◌, String, Bool, true, false, ◌||◌, Option, none, some, List, [], ◌∷◌, str_eq, str_lt,
  if◌then◌else◌,
}
use Prim.Native.String.{slice, len}
use hermes_walkie_talkie.Errors.{Result, ok, err, ◌>>=◌}
use hermes_walkie_talkie.Models.Peers.{PeerRecord}
use hermes_walkie_talkie.Registry.{Json, File, sorted_files}
use hermes_walkie_talkie.Discovery.Records.{Paths, parse_record, same_record}
use hermes_walkie_talkie.Discovery.Probe.{Claims, Challenge, Entry, cached_probe}

-- `path.stem` of a file of the directory: its name without ".json".
abbrev pub stem : String → String
stem name = slice name 0 (len name - 5)

abbrev pub mem_text : String → List String → Bool
mem_text t [] = false
mem_text t (x ∷ xs) = str_eq x t || mem_text t xs

-- `(name.casefold(), peer_id)` in the order of tuples of texts
abbrev pub key_lt : (String → String) → PeerRecord → PeerRecord → Bool
key_lt casefold a b =
    if str_eq (casefold a.name) (casefold b.name)
    then str_lt a.peer_id b.peer_id
    else str_lt (casefold a.name) (casefold b.name)

abbrev pub insert_record : (String → String) → PeerRecord → List PeerRecord → List PeerRecord
insert_record casefold r [] = r ∷ []
insert_record casefold r (x ∷ xs) =
    if key_lt casefold x r then x ∷ insert_record casefold r xs else r ∷ x ∷ xs

abbrev pub sort_records : (String → String) → List PeerRecord → List PeerRecord
sort_records casefold [] = []
sort_records casefold (r ∷ rs) = insert_record casefold r (sort_records casefold rs)

-- `fresh is None or fresh != record`
abbrev pub unchanged : PeerRecord → Option PeerRecord → Bool
unchanged r none = false
unchanged r (some fresh) = same_record fresh r

-- What a listing sees: the files of the directory, and the files when it reads them again.
pub record View (T : Type 0) : Type 0 where
  pub snapshot : List (File T)
  pub reread : List (File T)

-- What the service takes from outside; `sep` is the NUL character.
pub record Service (T : Type 0) : Type 0 where
  pub json : Json T
  pub paths : Paths
  pub challenge : Challenge
  pub casefold : String → String
  pub sep : String

module _ {T : Type 0} (d : Service T) where
  abbrev pub keep_parsed : Option PeerRecord → List PeerRecord → List PeerRecord
  keep_parsed none rs = rs
  keep_parsed (some r) rs = r ∷ rs

  -- The loop of `_snapshot`.
  unfoldable pub parse_all : Bool → List (File T) → List (File T) → List PeerRecord
  parse_all require_socket fs [] = []
  parse_all require_socket fs (g ∷ gs) =
      keep_parsed (parse_record d.json d.paths require_socket (stem g.name) fs)
        (parse_all require_socket fs gs)

  -- `_snapshot`
  unfoldable pub snapshot : Bool → List (File T) → List PeerRecord
  snapshot require_socket fs = parse_all require_socket fs (sorted_files fs)

  -- What a probe decides about one record of the listing.
  unfoldable pub keep_live : View T → PeerRecord → Option Claims → List PeerRecord → List PeerRecord
  keep_live v r none rest = rest
  keep_live v r (some c) rest =
      if unchanged r (parse_record d.json d.paths true r.peer_id v.reread) then r ∷ rest else rest

  unfoldable pub probe_listed :
      View T
      → PeerRecord
      → Result (Option Claims) × List Entry
      → (List Entry → Result (List PeerRecord) × List Entry)
      → Result (List PeerRecord) × List Entry
  probe_listed v r (err x, cache) rest = (err x, cache)
  probe_listed v r (ok found, cache) rest =
      ((rest cache).0 >>= λ rs. ok (keep_live v r found rs), (rest cache).1)

  -- The loop of `list_live_peers`, with the probe cache.
  unfoldable pub live_of :
      View T → List String → List PeerRecord → List Entry → Result (List PeerRecord) × List Entry
  live_of v excluded [] cache = (ok [], cache)
  live_of v excluded (r ∷ rs) cache =
      let rest = live_of v excluded rs in
      let probed = probe_listed v r (cached_probe d.challenge d.sep r cache) rest in
      if mem_text r.peer_id excluded then rest cache else probed

  -- `list_live_peers`, which writes neither the registry nor the sockets.
  unfoldable pub list_live_peers :
      View T → List String → List Entry → Result (List PeerRecord) × List Entry
  list_live_peers v excluded cache =
      let out = live_of v excluded (snapshot true v.snapshot) cache in
      (out.0 >>= λ rs. ok (sort_records d.casefold rs), out.1)
