-- ===== src/Registry/Files.antt =====
-- The files of a registry directory: `_read_file` and `_atomic_write` of agent_peer/registry.py.
use hermes_walkie_talkie.Prelude.{
  ℕ, String, Bool, true, not, Option, none, some, List, [], ◌∷◌, str_eq, ltb, if◌then◌else◌,
  is_some,
}
use hermes_walkie_talkie.Errors.{Result, ok, err}
use hermes_walkie_talkie.Models.Peers.{PeerRecord, peer_record}
use hermes_walkie_talkie.Table.{first_where, delete_where, order_by}
use Prim.Native.String.{◌++◌ as text_append}

-- Of a type T of texts: json.dumps and json.loads of a record's data, and the number of UTF-8 bytes. `loads` is
-- `none` where the bytes are no UTF-8 or no JSON, or the JSON does not name the record's fields.
pub record Json (T : Type 0) : Type 0 where
  pub dumps : PeerRecord → T
  pub loads : T → Option PeerRecord
  pub size : T → ℕ

-- A `*.json` entry of the directory: is it a regular file, does its owner alone have access, and
-- its text.
pub record File (T : Type 0) : Type 0 where
  pub name : String
  pub is_regular : Bool
  pub is_owner_only : Bool
  pub text : T

abbrev pub name_of : {T : Type 0} → File T → String
name_of f = f.name

abbrev pub is_named : {T : Type 0} → String → File T → Bool
is_named n f = str_eq f.name n

-- RuntimePaths.registry_file_for
unfoldable pub registry_file_for : String → String
registry_file_for peer_id = text_append peer_id ".json"

abbrev pub max_record_bytes : ℕ
max_record_bytes = 65536

-- Every exception of the constructor makes the file unreadable.
unfoldable pub readable : Result PeerRecord → Option PeerRecord
readable (ok r) = some r
readable (err e) = none

-- `PeerRecord(**data)`
unfoldable pub construct : Option PeerRecord → Option PeerRecord
construct none = none
construct (some raw) = readable (peer_record raw)

-- `if record is not None: records.append(record)`
abbrev pub keep_some : Option PeerRecord → List PeerRecord → List PeerRecord
keep_some none rs = rs
keep_some (some r) rs = r ∷ rs

-- `path.unlink()`, and whether there was such a file
unfoldable pub remove_file : {T : Type 0} → String → List (File T) → Bool × List (File T)
remove_file n fs = (is_some (first_where (is_named n) fs), delete_where (is_named n) fs)

unfoldable pub unregister : {T : Type 0} → String → List (File T) → Bool × List (File T)
unregister peer_id fs = remove_file (registry_file_for peer_id) fs

-- `os.replace` of the temporary file
unfoldable pub replace_file : {T : Type 0} → File T → List (File T) → List (File T)
replace_file f [] = f ∷ []
replace_file f (g ∷ gs) =
    let rest = replace_file f gs in if str_eq g.name f.name then f ∷ gs else g ∷ rest

abbrev pub sorted_files : {T : Type 0} → List (File T) → List (File T)
sorted_files = order_by name_of

module _ {T : Type 0} (j : Json T) where
  -- `_read_file` of an entry that can be opened
  unfoldable pub read_file : File T → Option PeerRecord
  read_file f =
      if not f.is_regular
      then none
      else if not f.is_owner_only
      then none
      else if ltb max_record_bytes (j.size f.text)
      then none
      else construct (j.loads f.text)

  -- `_read_file`, where opening a missing file fails
  unfoldable pub read_entry : Option (File T) → Option PeerRecord
  read_entry none = none
  read_entry (some f) = read_file f

  unfoldable pub read_path : String → List (File T) → Option PeerRecord
  read_path n fs = read_entry (first_where (is_named n) fs)

  -- The loop of `list_peers`.
  unfoldable pub read_all : List (File T) → List PeerRecord
  read_all [] = []
  read_all (f ∷ fs) = keep_some (read_file f) (read_all fs)

  -- The file that `_atomic_write` leaves.
  unfoldable pub written : String → PeerRecord → File T
  written peer_id r = record {
    name = registry_file_for peer_id;
    is_regular = true;
    is_owner_only = true;
    text = j.dumps r;
  }
