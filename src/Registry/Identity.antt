-- ===== src/Registry/Identity.antt =====
-- Updates of a peer record, agent_peer/registry.py: what they keep, and what is read back.
use hermes_walkie_talkie.Prelude.{
  ◌≤◌, String, ◌≡◌, refl, sym, ap, ◌∙◌, inl, inr, false, Option, none, some, List, [], ◌∷◌, arith,
  str_eq, eq_iff, ltb, Bool-cases,
}
use mathlib.Core.Path.{subst}
use hermes_walkie_talkie.Errors.{Result, ok, err}
use hermes_walkie_talkie.Models.Presences
use hermes_walkie_talkie.Models.Peers.{PeerRecord, peer_record}
use hermes_walkie_talkie.Registry.{
  File, Json, read_path, read_file, read_entry, construct, readable, max_record_bytes, written,
  Authority, Changes, authority_of, authority_matches, changed, stamped, register, get,
  store_updated, update_record, update_if_current, update_as, update_presence, heartbeat,
  expected_or_current,
}
use hermes_walkie_talkie.Registry.Paths.{first-replace_same}
use hermes_walkie_talkie.Registry.Calls.{updates, get-eq}
use hermes_walkie_talkie.Registry.Constructor.{
  identity, peer_record-identity, changed-identity, peer_id_same, peer_record-stamped,
}
use hermes_walkie_talkie.Registry.Invariant.{IsRegistry, IsRoundTrip, get-peer_id, read-written}
use hermes_walkie_talkie.Registry.Fence.{entry-other, perform-IsRegistry}

-- The calls that update a record.
pub data Update : Type 0 where
  changes : String → String → Authority → Changes → Update
  presences : String → String → Presences.Presence → Option String → Option PeerRecord → Update
  beats : String → String → Option PeerRecord → Update

abbrev pub perform_update : {T : Type 0} → Json T → Update → List (File T) → List (File T)
perform_update j (changes now p a c) fs = (update_if_current j now p a c fs).1
perform_update j (presences now p s t o) fs = (update_presence j now p s t o fs).1
perform_update j (beats now p o) fs = (heartbeat j now p o fs).1

abbrev pub run_updates : {T : Type 0} → Json T → List Update → List (File T) → List (File T)
run_updates j [] fs = fs
run_updates j (u ∷ us) fs = run_updates j us (perform_update j u fs)

-- A record that can be read has the identity of `r`.
abbrev pub KeepsIdentity : PeerRecord → Option PeerRecord → Type 0
KeepsIdentity r none = Unit
KeepsIdentity r (some u) = identity u ≡ identity r

keeps_of :
    (r w : PeerRecord) (o : Option PeerRecord)
    → identity w ≡ identity r
    → ((u : PeerRecord) → o ≡ some u → identity u ≡ identity w)
    → KeepsIdentity r o
keeps_of r w none e h = tt
keeps_of r w (some u) e h = h u refl ∙ e

module _ {T : Type 0} (j : Json T) where
  get-register :
      (now : String) (r : PeerRecord) (fs : List (File T))
      → get j r.peer_id (register j now r fs) ≡ read_file j (written j r.peer_id (stamped now r))
  unfolding get register read_path written read_entry
  get-register now r fs =
      ap (read_entry j) (first-replace_same (written j r.peer_id (stamped now r)) fs)

  keeps-store :
      (now p : String) (r u : PeerRecord) (o : Result PeerRecord) (fs : List (File T))
      → IsRoundTrip j
      → r.peer_id ≡ p
      → ((v : PeerRecord) → o ≡ ok v → identity v ≡ identity r)
      → KeepsIdentity r (get j p fs)
      → KeepsIdentity r (get j p (store_updated j now o fs).1)
  unfolding store_updated
  keeps-store now p r u (err e) fs rt same h k = k
  keeps-store now p r u (ok v) fs rt same h k =
      let here : v.peer_id ≡ p = peer_id_same r v (h v refl) ∙ same in
      subst (λ q. KeepsIdentity r (get j q (register j now v fs))) here
        (keeps_of r (stamped now v) (get j v.peer_id (register j now v fs)) (h v refl)
          (λ w e. read-written j v.peer_id (stamped now v) w rt (sym (get-register now v fs) ∙ e)))

  keeps-update :
      (now p : String) (a : Authority) (c : Changes) (r : PeerRecord) (o : Option PeerRecord)
      (fs : List (File T))
      → IsRoundTrip j
      → r.peer_id ≡ p
      → KeepsIdentity r o
      → KeepsIdentity r (get j p fs)
      → KeepsIdentity r (get j p (update_record j now a c o fs).1)
  unfolding update_record
  keeps-update now p a c r none fs rt same h k = k
  keeps-update now p a c r (some u) fs rt same h k =
      elim (Bool-cases (authority_matches (some u) a)) [
        | inl e ↦ rw e (
            keeps-store now p r u (peer_record (changed now c u)) fs rt same
              (λ v m. peer_record-identity (changed now c u) v m ∙ changed-identity now c u ∙ h) k)
        | inr e ↦ rw e k
      ]

  keeps-current :
      (now p q : String) (a : Authority) (c : Changes) (r : PeerRecord) (fs : List (File T))
      → IsRoundTrip j
      → IsRegistry j fs
      → r.peer_id ≡ p
      → KeepsIdentity r (get j p fs)
      → KeepsIdentity r (get j p (update_if_current j now q a c fs).1)
  unfolding update_if_current
  keeps-current now p q a c r fs rt inv same k = elim (Bool-cases (str_eq q p)) [
    | inl e ↦ rw ((eq_iff q p).0 e) (keeps-update now p a c r (get j p fs) fs rt same k k)
    | inr ne ↦
        rw
          (get-eq j p fs (update_if_current j now q a c fs).1
            (entry-other j p (updates now q a c) fs inv ne))
          k
  ]

  -- Both facts that a call keeps.
  abbrev IsKept : String → PeerRecord → List (File T) → Type 0
  IsKept p r fs = IsRegistry j fs × KeepsIdentity r (get j p fs)

  IsKept-current :
      (now p q : String) (a : Authority) (c : Changes) (r : PeerRecord) (fs : List (File T))
      → IsRoundTrip j
      → r.peer_id ≡ p
      → IsKept p r fs
      → IsKept p r (update_if_current j now q a c fs).1
  IsKept-current now p q a c r fs rt same (inv, k) = (
    perform-IsRegistry j (updates now q a c) fs rt inv,
    keeps-current now p q a c r fs rt inv same k,
  )

  IsKept-as :
      (now p q : String) (o : Option PeerRecord) (c : Changes) (r : PeerRecord) (fs : List (File T))
      → IsRoundTrip j
      → r.peer_id ≡ p
      → IsKept p r fs
      → IsKept p r (update_as j now q o c fs).1
  unfolding update_as
  IsKept-as now p q none c r fs rt same h = h
  IsKept-as now p q (some u) c r fs rt same h =
      IsKept-current now p q (authority_of u) c r fs rt same h

  IsKept-perform :
      (p : String) (u : Update) (r : PeerRecord) (fs : List (File T))
      → IsRoundTrip j
      → r.peer_id ≡ p
      → IsKept p r fs
      → IsKept p r (perform_update j u fs)
  unfolding update_presence heartbeat
  IsKept-perform p (changes now q a c) r fs rt same h = IsKept-current now p q a c r fs rt same h
  IsKept-perform p (presences now q s t o) r fs rt same h =
      IsKept-as now p q (expected_or_current j q o fs) _ r fs rt same h
  IsKept-perform p (beats now q o) r fs rt same h =
      IsKept-as now p q (expected_or_current j q o fs) _ r fs rt same h

  IsKept-run :
      (p : String) (us : List Update) (r : PeerRecord) (fs : List (File T))
      → IsRoundTrip j
      → r.peer_id ≡ p
      → IsKept p r fs
      → IsKept p r (run_updates j us fs)
  IsKept-run p [] r fs rt same h = h
  IsKept-run p (u ∷ us) r fs rt same h =
      IsKept-run p us r (perform_update j u fs) rt same (IsKept-perform p u r fs rt same h)

-- Any sequence of updates, presence writes and heartbeats, for any peers and under any authority,
-- keeps the registry's invariant and changes nothing of a registered record but its name, status,
-- activity, time stamps and protocols, as far as it can still be read; json.loads inverts json.dumps.
pub run_updates_identity :
    {T : Type 0} (j : Json T) (p : String) (us : List Update) (r : PeerRecord) (fs : List (File T))
    → IsRoundTrip j
    → IsRegistry j fs
    → get j p fs ≡ some r
    → IsRegistry j (run_updates j us fs) × KeepsIdentity r (get j p (run_updates j us fs))
run_updates_identity j p us r fs rt inv h =
    IsKept-run j p us r fs rt (get-peer_id j p r fs inv h) (inv, rw h refl)

-- A record that the constructor returned is read back as it was registered, with the missing time
-- stamps filled in, if its text has at most 65536 bytes and json.loads inverts json.dumps.
pub get-register_same :
    {T : Type 0} (j : Json T) (now : String) (r : PeerRecord) (fs : List (File T))
    → IsRoundTrip j
    → peer_record r ≡ ok r
    → j.size (j.dumps (stamped now r)) ≤ max_record_bytes
    → get j r.peer_id (register j now r fs) ≡ some (stamped now r)
unfolding read_file written construct readable
get-register_same j now r fs rt valid fits =
    let small : ltb max_record_bytes (j.size (j.dumps (stamped now r))) ≡ false = ground arith in
    get-register j now r fs ∙ rw (small, rt (stamped now r), peer_record-stamped now r valid) refl
