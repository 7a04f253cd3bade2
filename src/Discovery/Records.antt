-- ===== src/Discovery/Records.antt =====
-- `_parse_record` of agent_peer/discovery.py, on POSIX, and equality of records.
use hermes_walkie_talkie.Prelude.{
  String, Bool, true, false, ◌&&◌, ◌||◌, not, Option, none, some, List, [], ◌∷◌, str_eq,
  if◌then◌else◌,
}
use hermes_walkie_talkie.Models.{ℤ}
use hermes_walkie_talkie.Models.Peers.{PeerRecord, Capability}
use hermes_walkie_talkie.Registry.{Json, File, get, int_eq}

-- What `lstat` of a socket path finds.
pub record Node : Type 0 where
  pub is_socket : Bool
  pub is_owner_only : Bool
  pub uid : ℤ
  pub inode : ℤ

pub data Stat : Type 0 where
  missing unreadable : Stat
  node : Node → Stat

-- The file system as the checks see it: is a socket path below the runtime root (`none` is an
-- OSError), RuntimePaths.socket_path_for, equality of paths, and lstat.
pub record Paths : Type 0 where
  pub contains : String → Option Bool
  pub socket_path_for : String → String → String
  pub same_path : String → String → Bool
  pub lstat : String → Stat

-- The checks of the socket's node.
unfoldable pub check_node : PeerRecord → Node → Option PeerRecord
check_node r n =
    if not n.is_socket
    then none
    else if not n.is_owner_only
    then none
    else if not (int_eq r.socket_uid n.uid) || not (int_eq r.socket_inode n.inode)
    then none
    else some r

unfoldable pub check_stat : Bool → PeerRecord → Stat → Option PeerRecord
check_stat require_socket r missing = if require_socket then none else some r
check_stat require_socket r unreadable = none
check_stat require_socket r (node n) = check_node r n

unfoldable pub check_contained : Paths → Bool → PeerRecord → Option Bool → Option PeerRecord
check_contained p require_socket r none = none
check_contained p require_socket r (some false) = none
check_contained p require_socket r (some true) =
    if not (p.same_path r.socket_path (p.socket_path_for r.peer_id r.instance_id))
    then none
    else check_stat require_socket r (p.lstat r.socket_path)

-- The checks of a record that the registry returned for a file named after `peer_id`.
unfoldable pub check_record : Paths → Bool → String → Option PeerRecord → Option PeerRecord
check_record p require_socket peer_id none = none
check_record p require_socket peer_id (some r) =
    if not (str_eq r.peer_id peer_id)
    then none
    else if str_eq r.socket_path ""
    then some r
    else check_contained p require_socket r (p.contains r.socket_path)

abbrev pub texts_eq : List String → List String → Bool
texts_eq [] [] = true
texts_eq (x ∷ xs) (y ∷ ys) = str_eq x y && texts_eq xs ys
texts_eq _ _ = false

abbrev pub bool_eq : Bool → Bool → Bool
bool_eq true b = b
bool_eq false b = not b

abbrev pub capabilities_eq : List Capability → List Capability → Bool
capabilities_eq [] [] = true
capabilities_eq (x ∷ xs) (y ∷ ys) =
    str_eq x.flag y.flag && bool_eq x.is_true y.is_true && capabilities_eq xs ys
capabilities_eq _ _ = false

-- `fresh == record`, field by field
unfoldable pub same_record : PeerRecord → PeerRecord → Bool
same_record a b =
    str_eq a.peer_id b.peer_id
    && str_eq a.instance_id b.instance_id
    && str_eq a.session_id b.session_id
    && str_eq a.name b.name
    && str_eq a.profile b.profile
    && str_eq a.agent_id b.agent_id
    && texts_eq a.protocols b.protocols
    && capabilities_eq a.capabilities b.capabilities
    && str_eq a.surface b.surface
    && str_eq a.host_target b.host_target
    && int_eq a.pid b.pid
    && str_eq a.cwd b.cwd
    && str_eq a.git_repo_root b.git_repo_root
    && str_eq a.git_branch b.git_branch
    && str_eq a.started_at b.started_at
    && str_eq a.last_seen b.last_seen
    && str_eq a.status b.status
    && str_eq a.current_activity b.current_activity
    && str_eq a.socket_path b.socket_path
    && int_eq a.socket_uid b.socket_uid
    && int_eq a.socket_inode b.socket_inode
    && str_eq a.protocol b.protocol

module _ {T : Type 0} (j : Json T) (p : Paths) where
  -- `_parse_record` of the file that is named after `peer_id`
  unfoldable pub parse_record : Bool → String → List (File T) → Option PeerRecord
  parse_record require_socket peer_id fs = check_record p require_socket peer_id (get j peer_id fs)
