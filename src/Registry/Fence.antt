-- ===== src/Registry/Fence.antt =====
-- The authority fence of agent_peer/registry.py over any sequence of fenced calls.
use hermes_walkie_talkie.Prelude.{
  String, ◌≡◌, refl, sym, ap, ◌∙◌, ◌⊎◌, inl, inr, false, Option, none, some, List, [], ◌∷◌, str_eq,
  eq_iff, Bool-cases, All,
}
use mathlib.Core.Path.{subst}
use hermes_walkie_talkie.Table.{first_where}
use hermes_walkie_talkie.Errors.{Result, ok, err}
use hermes_walkie_talkie.Models.Peers.{PeerRecord, peer_record}
use hermes_walkie_talkie.Registry.{
  File, Json, is_named, registry_file_for, unregister, Authority, Changes, authority_of,
  authority_matches, same_authority, changed, get, unregister_if_current, store_updated,
  update_record, update_if_current,
}
use hermes_walkie_talkie.Registry.Calls.{
  FencedCall, updates, removes, perform, run, peer_of, authority, entry, get-eq, entry-register,
  entry-unregister,
}
use hermes_walkie_talkie.Registry.Constructor.{peer_record-identity, changed-identity, peer_id_same}
use hermes_walkie_talkie.Registry.Invariant.{
  IsRegistry, IsRoundTrip, register-IsRegistry, unregister-IsRegistry, get-peer_id,
}

-- The call expects another authority than the one that peer `p` is registered with.
abbrev pub IsForeign : String → Authority → FencedCall → Type 0
IsForeign p a c = (str_eq (peer_of c) p ≡ false) ⊎ (same_authority a (authority c) ≡ false)

module _ {T : Type 0} (j : Json T) where
  entry-store_updated :
      (now p : String) (o : Result PeerRecord) (fs : List (File T))
      → ((r : PeerRecord) → o ≡ ok r → str_eq r.peer_id p ≡ false)
      → entry p (store_updated j now o fs).1 ≡ entry p fs
  unfolding store_updated
  entry-store_updated now p (err e) fs h = refl
  entry-store_updated now p (ok r) fs h = entry-register j now p r fs (h r refl)

  entry-update_other :
      (now p q : String) (a : Authority) (c : Changes) (o : Option PeerRecord) (fs : List (File T))
      → ((r : PeerRecord) → o ≡ some r → r.peer_id ≡ q)
      → str_eq q p ≡ false
      → entry p (update_record j now a c o fs).1 ≡ entry p fs
  unfolding update_record
  entry-update_other now p q a c none fs h ne = refl
  entry-update_other now p q a c (some r) fs h ne =
      elim (Bool-cases (authority_matches (some r) a)) [
        | inl e ↦ rw e (
            entry-store_updated now p (peer_record (changed now c r)) fs (λ u k.
              rw
                (peer_id_same (changed now c r) u (peer_record-identity (changed now c r) u k)
                  ∙ peer_id_same r (changed now c r) (changed-identity now c r)
                  ∙ h r refl)
                ne))
        | inr e ↦ rw e refl
      ]

  -- What `unregister_if_current` does to the files.
  removes_cases :
      (q : String) (a : Authority) (fs : List (File T))
      → ((unregister_if_current j q a fs).1 ≡ (unregister q fs).1)
        ⊎ ((unregister_if_current j q a fs).1 ≡ fs)
  unfolding unregister_if_current
  removes_cases q a fs = elim (Bool-cases (authority_matches (get j q fs) a)) [
    | inl e ↦ inl (rw e refl)
    | inr e ↦ inr (rw e refl)
  ]

  pub entry-other :
      (p : String) (c : FencedCall) (fs : List (File T))
      → IsRegistry j fs
      → str_eq (peer_of c) p ≡ false
      → entry p (perform j c fs) ≡ entry p fs
  unfolding update_if_current
  entry-other p (updates now q a c) fs inv ne =
      entry-update_other now p q a c (get j q fs) fs (λ r k. get-peer_id j q r fs inv k) ne
  entry-other p (removes q a) fs inv ne = elim (removes_cases q a fs) [
    | inl e ↦ ap (entry p) e ∙ entry-unregister p q fs ne
    | inr e ↦ ap (entry p) e
  ]

  update_record_foreign :
      (now : String) (a : Authority) (c : Changes) (o : Option PeerRecord) (r : PeerRecord)
      (fs : List (File T))
      → o ≡ some r
      → same_authority (authority_of r) a ≡ false
      → (update_record j now a c o fs).1 ≡ fs
  unfolding update_record authority_matches
  update_record_foreign now a c o r fs h f = rw (h, update_record, f) refl

  unregister_foreign :
      (p : String) (a : Authority) (fs : List (File T))
      → authority_matches (get j p fs) a ≡ false
      → (unregister_if_current j p a fs).1 ≡ fs
  unfolding unregister_if_current
  unregister_foreign p a fs f = rw f refl

  matches_foreign :
      (a : Authority) (o : Option PeerRecord) (r : PeerRecord)
      → o ≡ some r
      → same_authority (authority_of r) a ≡ false
      → authority_matches o a ≡ false
  unfolding authority_matches
  matches_foreign a o r h f = rw (h, authority_matches) f

  -- A call for the same peer under another authority.
  entry-foreign :
      (p : String) (r : PeerRecord) (c : FencedCall) (fs : List (File T))
      → get j p fs ≡ some r
      → peer_of c ≡ p
      → same_authority (authority_of r) (authority c) ≡ false
      → entry p (perform j c fs) ≡ entry p fs
  unfolding update_if_current
  entry-foreign p r (updates now q a c) fs h e f =
      ap (entry p) (update_record_foreign now a c (get j q fs) r fs (rw e h) f)
  entry-foreign p r (removes q a) fs h e f =
      ap (entry p) (unregister_foreign q a fs (matches_foreign a (get j q fs) r (rw e h) f))

  store_updated-IsRegistry :
      (now : String) (o : Result PeerRecord) (fs : List (File T))
      → IsRoundTrip j
      → IsRegistry j fs
      → IsRegistry j (store_updated j now o fs).1
  unfolding store_updated
  store_updated-IsRegistry now (err e) fs rt inv = inv
  store_updated-IsRegistry now (ok r) fs rt inv = register-IsRegistry j rt now r fs inv

  update_record-IsRegistry :
      (now : String) (a : Authority) (c : Changes) (o : Option PeerRecord) (fs : List (File T))
      → IsRoundTrip j
      → IsRegistry j fs
      → IsRegistry j (update_record j now a c o fs).1
  unfolding update_record
  update_record-IsRegistry now a c none fs rt inv = inv
  update_record-IsRegistry now a c (some r) fs rt inv =
      elim (Bool-cases (authority_matches (some r) a)) [
        | inl e ↦ rw e (store_updated-IsRegistry now (peer_record (changed now c r)) fs rt inv)
        | inr e ↦ rw e inv
      ]

  pub perform-IsRegistry :
      (c : FencedCall) (fs : List (File T))
      → IsRoundTrip j
      → IsRegistry j fs
      → IsRegistry j (perform j c fs)
  unfolding update_if_current
  perform-IsRegistry (updates now q a c) fs rt inv =
      update_record-IsRegistry now a c (get j q fs) fs rt inv
  perform-IsRegistry (removes q a) fs rt inv = elim (removes_cases q a fs) [
    | inl e ↦ subst (IsRegistry j) (sym e) (unregister-IsRegistry j q fs inv)
    | inr e ↦ subst (IsRegistry j) (sym e) inv
  ]

  entry-perform :
      (p : String) (r : PeerRecord) (c : FencedCall) (fs : List (File T))
      → IsRegistry j fs
      → get j p fs ≡ some r
      → IsForeign p (authority_of r) c
      → entry p (perform j c fs) ≡ entry p fs
  entry-perform p r c fs inv h (inl ne) = entry-other p c fs inv ne
  entry-perform p r c fs inv h (inr f) = elim (Bool-cases (str_eq (peer_of c) p)) [
    | inl e ↦ entry-foreign p r c fs h ((eq_iff (peer_of c) p).0 e) f
    | inr ne ↦ entry-other p c fs inv ne
  ]

-- Calls under other authorities than a registered peer's, and calls for other peers, in any number
-- and order, leave the file of that peer as it is, in a registry whose files are named after the
-- peers of their records, where json.loads inverts json.dumps.
pub run_foreign :
    {T : Type 0} (j : Json T) (p : String) (r : PeerRecord) (cs : List FencedCall)
    (fs : List (File T))
    → IsRoundTrip j
    → IsRegistry j fs
    → get j p fs ≡ some r
    → All (IsForeign p (authority_of r)) cs
    → first_where (is_named (registry_file_for p)) (run j cs fs)
      ≡ first_where (is_named (registry_file_for p)) fs
run_foreign j p r [] fs rt inv h a = refl
run_foreign j p r (c ∷ cs) fs rt inv h a =
    let same = entry-perform j p r c fs inv h a.0 in
    run_foreign j p r cs (perform j c fs) rt (perform-IsRegistry j c fs rt inv)
      (get-eq j p fs (perform j c fs) same ∙ h) a.1
    ∙ same
