-- ===== src/Registry/Invariant.antt =====
-- The invariant of the registry directory of agent_peer/registry.py.
use hermes_walkie_talkie.Prelude.{
  ◌≤◌, String, ◌≡◌, refl, sym, ap, ◌∙◌, inl, inr, false, Option, none, some, List, [], ◌∷◌, arith,
  str_eq, eq_iff, ltb, Bool-cases, All,
}
use hermes_walkie_talkie.Table.{first_where, count_where}
use hermes_walkie_talkie.Table.Keys.{Distinct, Distinct-delete}
use hermes_walkie_talkie.Table.Laws.{All-delete, All-first, first_where-true}
use hermes_walkie_talkie.Errors.{Result, ok, err}
use hermes_walkie_talkie.Models.Peers.{PeerRecord, peer_record}
use hermes_walkie_talkie.Registry.{
  File, Json, name_of, is_named, registry_file_for, construct, readable, max_record_bytes,
  read_file, read_path, read_entry, unregister, remove_file, replace_file, written, stamped,
  register, get,
}
use hermes_walkie_talkie.Registry.Paths.{registry_file_for-injective}
use hermes_walkie_talkie.Registry.Constructor.{identity, peer_record-identity, peer_id_same}

-- A file that can be read is named after the peer whose record it holds.
abbrev pub IsFiled : {T : Type 0} → Json T → File T → Type 0
IsFiled j f = (r : PeerRecord) → read_file j f ≡ some r → f.name ≡ registry_file_for r.peer_id

pub record IsRegistry {T : Type 0} (j : Json T) (fs : List (File T)) : Type 0 where
  pub distinct : Distinct name_of fs
  pub filed : All (IsFiled j) fs

-- json.loads inverts json.dumps on the data of a record.
abbrev pub IsRoundTrip : {T : Type 0} → Json T → Type 0
IsRoundTrip j = (r : PeerRecord) → j.loads (j.dumps r) ≡ some r

readable-some : (o : Result PeerRecord) (r : PeerRecord) → readable o ≡ some r → o ≡ ok r
unfolding readable
readable-some (ok u) r h = ground arith
readable-some (err e) r h = cc

construct-identity :
    (raw r : PeerRecord) → construct (some raw) ≡ some r → identity r ≡ identity raw
unfolding construct
construct-identity raw r h = peer_record-identity raw r (readable-some (peer_record raw) r h)

-- What is read back from a written record has the same identity.
pub read-written :
    {T : Type 0} (j : Json T) (p : String) (w r : PeerRecord)
    → IsRoundTrip j
    → read_file j (written j p w) ≡ some r
    → identity r ≡ identity w
unfolding read_file written
read-written j p w r rt h = elim (Bool-cases (ltb max_record_bytes (j.size (j.dumps w)))) [
  | inl e ↦ let k = rw e at h in cc
  | inr e ↦ construct-identity w r (let k = rw (e, rt w) at h in k)
]

count-replace_self :
    {T : Type 0} (f : File T) (fs : List (File T))
    → count_where (is_named f.name) fs ≤ 1
    → count_where (is_named f.name) (replace_file f fs) ≤ 1
unfolding replace_file
count-replace_self f [] h = ground arith
count-replace_self f (g ∷ gs) h = ground (arith, count-replace_self f gs)

count-replace_other :
    {T : Type 0} (n : String) (f : File T) (fs : List (File T))
    → str_eq f.name n ≡ false
    → count_where (is_named n) (replace_file f fs) ≡ count_where (is_named n) fs
unfolding replace_file
count-replace_other n f [] h = rw h refl
count-replace_other n f (g ∷ gs) h =
    ground
      (arith, eq_iff g.name f.name, eq_iff g.name n, eq_iff f.name n, count-replace_other n f gs h)

Distinct-replace_file :
    {T : Type 0} (f : File T) (fs : List (File T))
    → Distinct name_of fs
    → Distinct name_of (replace_file f fs)
unfolding replace_file
Distinct-replace_file f [] d = (refl, tt)
Distinct-replace_file f (g ∷ gs) d = elim (Bool-cases (str_eq g.name f.name)) [
  | inl e ↦ rw e (rw ((eq_iff g.name f.name).0 e) at d)
  | inr e ↦ rw e (
    count-replace_other g.name f gs (ground (arith, eq_iff g.name f.name, eq_iff f.name g.name))
        ∙ d.0,
    Distinct-replace_file f gs d.1,
  )
]

All-replace_file :
    {T : Type 0} (P : File T → Type 0) (f : File T) (fs : List (File T))
    → P f
    → All P fs
    → All P (replace_file f fs)
unfolding replace_file
All-replace_file P f [] k h = (k, tt)
All-replace_file P f (g ∷ gs) k h = elim (Bool-cases (str_eq g.name f.name)) [
  | inl e ↦ rw e (k, h.1)
  | inr e ↦ rw e (h.0, All-replace_file P f gs k h.1)
]

module _ {T : Type 0} (j : Json T) (rt : IsRoundTrip j) where
  IsFiled-written :
      (now : String) (r : PeerRecord) → IsFiled j (written j r.peer_id (stamped now r))
  unfolding written
  IsFiled-written now r u h = ap registry_file_for (
      sym (
        peer_id_same (stamped now r) u
          (read-written j r.peer_id (stamped now r) u rt (unfold written in h))))

  pub register-IsRegistry :
      (now : String) (r : PeerRecord) (fs : List (File T))
      → IsRegistry j fs
      → IsRegistry j (register j now r fs)
  unfolding register
  register-IsRegistry now r fs inv = record {
    distinct = Distinct-replace_file (written j r.peer_id (stamped now r)) fs inv.distinct;
    filed =
        All-replace_file (IsFiled j) (written j r.peer_id (stamped now r)) fs
          (IsFiled-written now r) inv.filed;
  }

read_entry-some :
    {T : Type 0} (j : Json T) (o : Option (File T)) (r : PeerRecord)
    → read_entry j o ≡ some r
    → (f : File T) × (o ≡ some f) × (read_file j f ≡ some r)
unfolding read_entry
read_entry-some j none r h = cc
read_entry-some j (some f) r h = (f, refl, h)

module _ {T : Type 0} (j : Json T) where
  pub unregister-IsRegistry :
      (p : String) (fs : List (File T)) → IsRegistry j fs → IsRegistry j (unregister p fs).1
  unfolding unregister remove_file
  unregister-IsRegistry p fs inv = record {
    distinct = Distinct-delete name_of (is_named (registry_file_for p)) fs inv.distinct;
    filed = All-delete (IsFiled j) (is_named (registry_file_for p)) fs inv.filed;
  }

  -- A record that is got stands in the file of that name.
  pub get-some :
      (p : String) (r : PeerRecord) (fs : List (File T))
      → get j p fs ≡ some r
      → (f : File T) × (first_where (is_named (registry_file_for p)) fs ≡ some f)
        × (read_file j f ≡ some r)
  unfolding get read_path
  get-some p r fs h = read_entry-some j (first_where (is_named (registry_file_for p)) fs) r h

  pub get-peer_id :
      (p : String) (r : PeerRecord) (fs : List (File T))
      → IsRegistry j fs
      → get j p fs ≡ some r
      → r.peer_id ≡ p
  get-peer_id p r fs inv h =
      let (f, found, reads) = get-some p r fs h in
      let named : f.name ≡ registry_file_for p =
        (eq_iff f.name (registry_file_for p)).0
          (first_where-true (is_named (registry_file_for p)) fs f found) in
      registry_file_for-injective r.peer_id p (
        sym (All-first (IsFiled j) (is_named (registry_file_for p)) fs inv.filed found r reads)
        ∙ named)
