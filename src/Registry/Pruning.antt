-- ===== src/Registry/Pruning.antt =====
-- `prune` of agent_peer/registry.py: which files it removes and which it leaves.
use hermes_walkie_talkie.Prelude.{
  ℕ, String, ◌≡◌, refl, sym, ap, ◌∙◌, ◌⊎◌, inl, inr, Bool, true, false, Option, none, some, List,
  [], ◌∷◌, arith, str_eq, eq_iff, Bool-cases, All, All-imp,
}
use hermes_walkie_talkie.Table.{first_where, delete_where}
use mathlib.Core.Path.{subst}
use hermes_walkie_talkie.Errors.{Error, Result, ok, err}
use hermes_walkie_talkie.Models.{ℤ}
use hermes_walkie_talkie.Models.Peers.{PeerRecord}
use hermes_walkie_talkie.Registry.{
  File, Json, Moment, is_named, registry_file_for, read_file, read_path, read_entry, get,
  unregister, remove_file, seen_recently, answers, stale_candidates, prune_loop, prune_candidates,
  prune,
}
use hermes_walkie_talkie.Registry.Paths.{first-delete_other, first-delete_same}
use hermes_walkie_talkie.Registry.Invariant.{IsRegistry}
use hermes_walkie_talkie.Registry.Freshness.{IsListed, IsStale, stale_candidates-All}
use hermes_walkie_talkie.Registry.Constructor.{ok-injective}

delete-none :
    {T : Type 0} (n m : String) (fs : List (File T))
    → first_where (is_named n) fs ≡ none
    → first_where (is_named n) (delete_where (is_named m) fs) ≡ none
delete-none n m [] h = refl
delete-none n m (g ∷ gs) h = ground (arith, delete-none n m gs)

Result-cases {ℓ} :
    {A : Type ℓ} (o : Result A) → ((a : A) × (o ≡ ok a)) ⊎ ((e : Error) × (o ≡ err e))
Result-cases (ok a) = inl (a, refl)
Result-cases (err e) = inr (e, refl)

some-injective {ℓ} : {A : Type ℓ} (a b : A) → some a ≡ some b → a ≡ b
some-injective a b h = ground arith

unregister-gone :
    {T : Type 0} (p : String) (fs : List (File T))
    → first_where (is_named (registry_file_for p)) (unregister p fs).1 ≡ none
unfolding unregister remove_file
unregister-gone p fs = first-delete_same (registry_file_for p) fs

module _ {T : Type 0} (j : Json T) (parse_iso : String → Option Moment)
    (hs : ℤ → String → Result Bool) where
  -- A candidate that is not removed, or whose file is another than `n`.
  abbrev IsAway : String → PeerRecord → Type 0
  IsAway n r = (answers hs r ≡ true) ⊎ (str_eq (registry_file_for r.peer_id) n ≡ false)

  loop-away :
      (n : String) (rs : List PeerRecord) (fs : List (File T))
      → All (IsAway n) rs
      → first_where (is_named n) (prune_loop j parse_iso hs rs fs).1 ≡ first_where (is_named n) fs
  unfolding prune_loop unregister remove_file
  loop-away n [] fs a = refl
  loop-away n (r ∷ rs) fs a = elim (Bool-cases (answers hs r)) [
    | inl e ↦ rw e (loop-away n rs fs a.1)
    | inr e ↦ elim (a.0) [
      | inl e' ↦ absurd (ground arith)
      | inr ne ↦ rw e (
          loop-away n rs (unregister r.peer_id fs).1 a.1
          ∙ first-delete_other n (registry_file_for r.peer_id) fs ne)
    ]
  ]

  loop-none :
      (n : String) (rs : List PeerRecord) (fs : List (File T))
      → first_where (is_named n) fs ≡ none
      → first_where (is_named n) (prune_loop j parse_iso hs rs fs).1 ≡ none
  unfolding prune_loop unregister remove_file
  loop-none n [] fs h = h
  loop-none n (r ∷ rs) fs h = elim (Bool-cases (answers hs r)) [
    | inl e ↦ rw e (loop-none n rs fs h)
    | inr e ↦ rw e (
        loop-none n rs (unregister r.peer_id fs).1
          (delete-none n (registry_file_for r.peer_id) fs h))
  ]

  -- What a prune owes a candidate: it answers, or its file is gone.
  abbrev IsSettled : List (File T) → PeerRecord → Type 0
  IsSettled fs r =
      (answers hs r ≡ true) ⊎ (first_where (is_named (registry_file_for r.peer_id)) fs ≡ none)

  loop_answering :
      (r : PeerRecord) (rs : List PeerRecord) (fs : List (File T))
      → answers hs r ≡ true
      → (prune_loop j parse_iso hs (r ∷ rs) fs).1 ≡ (prune_loop j parse_iso hs rs fs).1
  unfolding prune_loop
  loop_answering r rs fs e = rw e refl

  loop_dead :
      (r : PeerRecord) (rs : List PeerRecord) (fs : List (File T))
      → answers hs r ≡ false
      → (prune_loop j parse_iso hs (r ∷ rs) fs).1
        ≡ (prune_loop j parse_iso hs rs (unregister r.peer_id fs).1).1
  unfolding prune_loop
  loop_dead r rs fs e = rw e refl

  IsSettled-same :
      (rs : List PeerRecord) (fs gs : List (File T))
      → fs ≡ gs
      → All (IsSettled gs) rs
      → All (IsSettled fs) rs
  IsSettled-same rs fs gs e a = subst (λ x. All (IsSettled x) rs) (sym e) a

  loop-IsSettled :
      (rs : List PeerRecord) (fs : List (File T))
      → All (IsSettled (prune_loop j parse_iso hs rs fs).1) rs
  loop-IsSettled [] fs = tt
  loop-IsSettled (r ∷ rs) fs = elim (Bool-cases (answers hs r)) [
    | inl e ↦
        IsSettled-same (r ∷ rs) (prune_loop j parse_iso hs (r ∷ rs) fs).1
          (prune_loop j parse_iso hs rs fs).1 (loop_answering r rs fs e)
          (inl e, loop-IsSettled rs fs)
    | inr e ↦
        let gone = (unregister r.peer_id fs).1 in
        IsSettled-same (r ∷ rs) (prune_loop j parse_iso hs (r ∷ rs) fs).1
          (prune_loop j parse_iso hs rs gone).1 (loop_dead r rs fs e)
          (
            inr (loop-none (registry_file_for r.peer_id) rs gone (unregister-gone r.peer_id fs)),
            loop-IsSettled rs gone,
          )
  ]

  -- A file that a prune must leave: no candidate that is removed has its name.
  candidate-IsAway :
      (now : ℕ) (fs : List (File T)) (f : File T) (r c : PeerRecord)
      → first_where (is_named f.name) fs ≡ some f
      → read_file j f ≡ some r
      → (seen_recently now (parse_iso r.last_seen) ≡ ok true) ⊎ (answers hs r ≡ true)
      → IsListed j fs c × IsStale j parse_iso now c
      → IsAway f.name c
  candidate-IsAway now fs f r c own reads live ((g, found, holds, named), stale) =
      elim (Bool-cases (str_eq (registry_file_for c.peer_id) f.name)) [
        | inr ne ↦ inr ne
        | inl e ↦
            let name : g.name ≡ f.name =
              named ∙ (eq_iff (registry_file_for c.peer_id) f.name).0 e in
            let file : some g ≡ some f = sym found ∙ rw name own in
            let files : g ≡ f = some-injective g f file in
            let same : r ≡ c = some-injective r c (sym reads ∙ rw (← files) holds) in
            elim live [
              | inl seen ↦ inl (
                  let k : true ≡ false = ok-injective true false (sym seen ∙ rw same stale) in cc k)
              | inr answer ↦ inl (rw (← same) answer)
            ]
      ]

  IsAway-All :
      (now : ℕ) (fs : List (File T)) (f : File T) (r : PeerRecord) (cs : List PeerRecord)
      → first_where (is_named f.name) fs ≡ some f
      → read_file j f ≡ some r
      → (seen_recently now (parse_iso r.last_seen) ≡ ok true) ⊎ (answers hs r ≡ true)
      → All (λ c. IsListed j fs c × IsStale j parse_iso now c) cs
      → All (IsAway f.name) cs
  IsAway-All now fs f r cs own reads live a =
      All-imp (λ c. IsListed j fs c × IsStale j parse_iso now c) (IsAway f.name) cs
        (λ c. candidate-IsAway now fs f r c own reads live) a

  prune-loop :
      (now : ℕ) (fs : List (File T)) (rs : List PeerRecord)
      → stale_candidates j parse_iso now fs ≡ ok rs
      → (prune j parse_iso now (some hs) fs).1 ≡ (prune_loop j parse_iso hs rs fs).1
  unfolding prune prune_candidates
  prune-loop now fs rs h = ap (λ o. (prune_candidates j parse_iso hs o fs).1) h

  prune-err :
      (now : ℕ) (fs : List (File T)) (x : Error)
      → stale_candidates j parse_iso now fs ≡ err x
      → (prune j parse_iso now (some hs) fs).1 ≡ fs
  unfolding prune prune_candidates
  prune-err now fs x h = ap (λ o. (prune_candidates j parse_iso hs o fs).1) h

-- A prune never removes the file of a peer that was seen in the last 45 seconds or that answers the
-- handshake, in a registry whose files are named after the peers of their records.
pub prune-keeps :
    {T : Type 0} (j : Json T) (parse_iso : String → Option Moment) (hs : ℤ → String → Result Bool)
    (now : ℕ)
    → (fs : List (File T)) (f : File T) (r : PeerRecord) → IsRegistry j fs
    → first_where (is_named f.name) fs ≡ some f
    → read_file j f ≡ some r
    → (seen_recently now (parse_iso r.last_seen) ≡ ok true) ⊎ (answers hs r ≡ true)
    → first_where (is_named f.name) (prune j parse_iso now (some hs) fs).1 ≡ some f
prune-keeps j parse_iso hs now fs f r inv own reads live =
    elim (Result-cases (stale_candidates j parse_iso now fs)) [
      | inl (rs, e) ↦
          ap (first_where (is_named f.name)) (prune-loop j parse_iso hs now fs rs e)
          ∙ loop-away j parse_iso hs f.name rs fs (
              IsAway-All j parse_iso hs now fs f r rs own reads live
                (stale_candidates-All j parse_iso now fs rs inv e))
          ∙ own
      | inr (x, e) ↦ ap (first_where (is_named f.name)) (prune-err j parse_iso hs now fs x e) ∙ own
    ]

-- After a prune every stale candidate answers the handshake or cannot be read any more.
pub prune-settles :
    {T : Type 0} (j : Json T) (parse_iso : String → Option Moment) (hs : ℤ → String → Result Bool)
    (now : ℕ)
    → (fs : List (File T)) (rs : List PeerRecord) → stale_candidates j parse_iso now fs ≡ ok rs
    → All
        (λ r.
          (answers hs r ≡ true) ⊎ (get j r.peer_id (prune j parse_iso now (some hs) fs).1 ≡ none))
        rs
unfolding get read_path read_entry
prune-settles j parse_iso hs now fs rs h =
    All-imp _ _ rs (λ r s. elim s [ inl a ↦ inl a | inr n ↦ inr (ap (read_entry j) n) ])
      (IsSettled-same j parse_iso hs rs (prune j parse_iso now (some hs) fs).1
        (prune_loop j parse_iso hs rs fs).1 (prune-loop j parse_iso hs now fs rs h)
        (loop-IsSettled j parse_iso hs rs fs))
