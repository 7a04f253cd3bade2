-- ===== src/Registry/Freshness.antt =====
-- `is_fresh` and `stale_candidates` of agent_peer/registry.py.
use hermes_walkie_talkie.Prelude.{
  ℕ, String, ◌≡◌, refl, ap, ◌∙◌, inl, inr, Bool, true, false, Option, none, some, List, [], ◌∷◌,
  str_eq, eq_iff, eq_refl, str_lt, if◌then◌else◌, Bool-cases, Option-cases, All, All-imp,
}
use hermes_walkie_talkie.Table.{first_where, order_by, insert_by}
use hermes_walkie_talkie.Table.Keys.{Distinct}
use hermes_walkie_talkie.Table.Laws.{count_where-zero}
use hermes_walkie_talkie.Errors.{ok}
use hermes_walkie_talkie.Models.Peers.{PeerRecord}
use hermes_walkie_talkie.Registry.{
  File, Json, Moment, name_of, is_named, registry_file_for, read_file, read_path, read_entry,
  read_all, sorted_files, get, list_peers, seen_recently, is_fresh, fresh_record, stale_of,
  stale_candidates,
}
use hermes_walkie_talkie.Registry.Invariant.{IsRegistry, IsFiled}
use hermes_walkie_talkie.Registry.Constructor.{bind_ok, ok-injective}

module _ {ℓ κ} {A : Type ℓ} (key : A → String) (P : A → Type κ) where
  All-insert_by : (x : A) (xs : List A) → P x → All P xs → All P (insert_by key x xs)
  All-insert_by x [] h a = (h, tt)
  All-insert_by x (y ∷ ys) h a = elim (Bool-cases (str_lt (key y) (key x))) [
    | inl e ↦ rw e (a.0, All-insert_by x ys h a.1)
    | inr e ↦ rw e (h, a)
  ]

  All-order_by : (xs : List A) → All P xs → All P (order_by key xs)
  All-order_by [] a = tt
  All-order_by (x ∷ xs) a = All-insert_by x (order_by key xs) a.0 (All-order_by xs a.1)

-- The file of a listed record, which is the one that its name finds.
abbrev pub IsListed : {T : Type 0} → Json T → List (File T) → PeerRecord → Type 0
IsListed {T = T} j fs r =
    (f : File T) × (first_where (is_named f.name) fs ≡ some f)
    × (read_file j f ≡ some r)
    × (f.name ≡ registry_file_for r.peer_id)

-- A file that its own name finds.
abbrev IsOwn : {T : Type 0} → List (File T) → File T → Type 0
IsOwn fs f = first_where (is_named f.name) fs ≡ some f

IsOwn-behind :
    {T : Type 0} (g : File T) (fs : List (File T))
    → first_where (is_named g.name) fs ≡ none
    → (f : File T) → IsOwn fs f
    → IsOwn (g ∷ fs) f
IsOwn-behind g fs z f h = elim (Bool-cases (str_eq g.name f.name)) [
  | inl e ↦
      let same : g.name ≡ f.name = (eq_iff g.name f.name).0 e in
      let missing : first_where (is_named f.name) fs ≡ none = rw same at z in cc (missing, h)
  | inr e ↦ rw e h
]

IsOwn-files : {T : Type 0} (fs : List (File T)) → Distinct name_of fs → All (IsOwn fs) fs
IsOwn-files [] d = tt
IsOwn-files (g ∷ fs) d = (
  rw (eq_refl g.name) refl,
  All-imp (IsOwn fs) (IsOwn (g ∷ fs)) fs
      (IsOwn-behind g fs (count_where-zero (is_named g.name) fs d.0)) (IsOwn-files fs d.1),
)

module _ {T : Type 0} (j : Json T) where
  IsListed-of :
      (gs fs : List (File T))
      → All (IsOwn gs) fs
      → All (IsFiled j) fs
      → All (IsListed j gs) (read_all j fs)
  unfolding read_all
  IsListed-of gs [] a b = tt
  IsListed-of gs (f ∷ fs) a b = elim (Option-cases (read_file j f)) [
    | inl e ↦ rw e (IsListed-of gs fs a.1 b.1)
    | inr (r, e) ↦ rw e ((f, a.0, e, b.0 r e), IsListed-of gs fs a.1 b.1)
  ]

  -- Every record that `list_peers` returns stands in the file that is named after its peer.
  pub list_peers-IsListed :
      (fs : List (File T)) → IsRegistry j fs → All (IsListed j fs) (list_peers j fs)
  unfolding list_peers
  list_peers-IsListed fs inv =
      IsListed-of fs (sorted_files fs)
        (All-order_by name_of (IsOwn fs) fs (IsOwn-files fs inv.distinct))
        (All-order_by name_of (IsFiled j) fs inv.filed)

  pub get-listed :
      (fs : List (File T)) (r : PeerRecord) → IsListed j fs r → get j r.peer_id fs ≡ some r
  unfolding get read_path read_entry
  get-listed fs r (f, own, reads, named) = rw⁻¹ named (ap (read_entry j) own ∙ reads)

  module _ (parse_iso : String → Option Moment) where
    -- What is known of a candidate.
    abbrev pub IsStale : ℕ → PeerRecord → Type 0
    IsStale now r = seen_recently now (parse_iso r.last_seen) ≡ ok false

    kept :
        (P : PeerRecord → Type 0) (now : ℕ) (r : PeerRecord) (rest : List PeerRecord) (b : Bool)
        → seen_recently now (parse_iso r.last_seen) ≡ ok b
        → P r
        → All (λ x. P x × IsStale now x) rest
        → All (λ x. P x × IsStale now x) (if b then rest else r ∷ rest)
    kept P now r rest true h p a = a
    kept P now r rest false h p a = ((p, h), a)

    stale_of-All :
        (P : PeerRecord → Type 0) (now : ℕ) (rs out : List PeerRecord)
        → stale_of j parse_iso now rs ≡ ok out
        → All P rs
        → All (λ r. P r × IsStale now r) out
    unfolding stale_of
    stale_of-All P now [] out h a = rw (← ok-injective [] out h) tt
    stale_of-All P now (r ∷ rs) out h a =
        let (b, fresh, k) = bind_ok (seen_recently now (parse_iso r.last_seen)) _ out h in
        let (rest, e, m) = bind_ok (stale_of j parse_iso now rs) _ out k in
        rw (← ok-injective (if b then rest else r ∷ rest) out m)
          (kept P now r rest b fresh a.0 (stale_of-All P now rs rest e a.1))

    -- Every stale candidate stands in its file and was not seen recently.
    pub stale_candidates-All :
        (now : ℕ) (fs : List (File T)) (out : List PeerRecord)
        → IsRegistry j fs
        → stale_candidates j parse_iso now fs ≡ ok out
        → All (λ r. IsListed j fs r × IsStale now r) out
    unfolding stale_candidates
    stale_candidates-All now fs out inv h =
        stale_of-All (IsListed j fs) now (list_peers j fs) out h (list_peers-IsListed fs inv)

    -- `is_fresh` and `stale_candidates` agree on every listed record.
    pub is_fresh-listed :
        (now : ℕ) (fs : List (File T)) (r : PeerRecord)
        → IsListed j fs r
        → is_fresh j parse_iso now r.peer_id fs ≡ seen_recently now (parse_iso r.last_seen)
    unfolding is_fresh fresh_record
    is_fresh-listed now fs r l = ap (fresh_record j parse_iso now) (get-listed fs r l)
