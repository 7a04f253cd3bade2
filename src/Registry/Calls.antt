-- ===== src/Registry/Calls.antt =====
-- The fenced calls of agent_peer/registry.py, and what each does to one file.
use hermes_walkie_talkie.Prelude.{String, ◌≡◌, ap, false, Option, List, [], ◌∷◌, str_eq}
use hermes_walkie_talkie.Table.{first_where}
use hermes_walkie_talkie.Models.Peers.{PeerRecord}
use hermes_walkie_talkie.Registry.{
  File, Json, is_named, registry_file_for, read_path, read_entry, unregister, remove_file, written,
  Authority, Changes, stamped, register, get, unregister_if_current, update_if_current,
}
use hermes_walkie_talkie.Registry.Paths.{
  registry_file_for-differs, first-replace_other, first-delete_other,
}

-- A call under the authority that the caller expects; updates carry the time of the call.
pub data FencedCall : Type 0 where
  updates : String → String → Authority → Changes → FencedCall
  removes : String → Authority → FencedCall

abbrev pub perform : {T : Type 0} → Json T → FencedCall → List (File T) → List (File T)
perform j (updates now p a c) fs = (update_if_current j now p a c fs).1
perform j (removes p a) fs = (unregister_if_current j p a fs).1

abbrev pub run : {T : Type 0} → Json T → List FencedCall → List (File T) → List (File T)
run j [] fs = fs
run j (c ∷ cs) fs = run j cs (perform j c fs)

abbrev pub peer_of : FencedCall → String
peer_of (updates now p a c) = p
peer_of (removes p a) = p

abbrev pub authority : FencedCall → Authority
authority (updates now p a c) = a
authority (removes p a) = a

-- The file of a peer.
abbrev pub entry : {T : Type 0} → String → List (File T) → Option (File T)
entry p fs = first_where (is_named (registry_file_for p)) fs

-- A record that can be read stands in a file.
pub get-eq :
    {T : Type 0} (j : Json T) (p : String) (fs gs : List (File T))
    → entry p gs ≡ entry p fs
    → get j p gs ≡ get j p fs
unfolding get read_path
get-eq j p fs gs h = ap (read_entry j) h

pub entry-register :
    {T : Type 0} (j : Json T) (now p : String) (r : PeerRecord) (fs : List (File T))
    → str_eq r.peer_id p ≡ false
    → entry p (register j now r fs) ≡ entry p fs
unfolding register written
entry-register j now p r fs h =
    first-replace_other (registry_file_for p) (written j r.peer_id (stamped now r)) fs
      (registry_file_for-differs r.peer_id p h)

pub entry-unregister :
    {T : Type 0} (p q : String) (fs : List (File T))
    → str_eq q p ≡ false
    → entry p (unregister q fs).1 ≡ entry p fs
unfolding unregister remove_file
entry-unregister p q fs h =
    first-delete_other (registry_file_for p) (registry_file_for q) fs
      (registry_file_for-differs q p h)
