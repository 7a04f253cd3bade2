-- ===== src/Discovery/Resolution.antt =====
-- No ambiguous target of agent_peer/discovery.py is resolved.
use hermes_walkie_talkie.Prelude.{
  String, ◌≡◌, refl, ◌≢◌, ◌↔◌, ◌⊎◌, inl, inr, Option, List, [], ◌∷◌, str_eq, if◌then◌else◌,
  Bool-cases, or_else,
}
use hermes_walkie_talkie.Table.{select_where}
use hermes_walkie_talkie.Registry.Constructor.{ok-injective}
use hermes_walkie_talkie.Errors.{Error, Result, ok, err, discovery_error, ambiguous_peer}
use hermes_walkie_talkie.Models.Peers.{PeerRecord}
use hermes_walkie_talkie.Discovery.Resolve.{
  found, has_name, has_prefix, has_tilde, before_tilde, after_tilde, pick_exact, pick_named,
  resolve_name, is_primary, single_or, pick_session,
}

-- What a name means: its peers, in a `name~short` target those whose id begins with `short`.
abbrev pub meant : String → List PeerRecord → List PeerRecord
meant target live =
    if has_tilde target
    then select_where (has_prefix (after_tilde target))
        (select_where (has_name (before_tilde target)) live)
    else select_where (has_name target) live

pick_exact_iff :
    (f : String → String) (t n : String) (cs es : List PeerRecord) (r : PeerRecord)
    → (pick_exact f t n cs es ≡ found r) ↔ (es ≡ r ∷ [])
unfolding pick_exact
pick_exact_iff f t n cs [] r = (λ h. cc, λ h. cc)
pick_exact_iff f t n cs (x ∷ []) r = (λ h. cc, λ h. cc)
pick_exact_iff f t n cs (x ∷ y ∷ zs) r = (λ h. cc, λ h. cc)

pick_named_iff :
    (f : String → String) (t : String) (es : List PeerRecord) (r : PeerRecord)
    → (pick_named f t es ≡ found r) ↔ (es ≡ r ∷ [])
unfolding pick_named
pick_named_iff f t [] r = (λ h. cc, λ h. cc)
pick_named_iff f t (x ∷ []) r = (λ h. cc, λ h. cc)
pick_named_iff f t (x ∷ y ∷ zs) r = (λ h. cc, λ h. cc)

-- A name, or a name with the beginning of a peer id, resolves to a live peer exactly if that is the
-- only live peer that it means.
pub resolve_name_iff :
    (casefold : String → String) (target : String) (live : List PeerRecord) (r : PeerRecord)
    → (resolve_name casefold target live ≡ found r) ↔ (meant target live ≡ r ∷ [])
unfolding resolve_name
resolve_name_iff f t live r = elim (Bool-cases (has_tilde t)) [
  | inl e ↦ rw e (
      pick_exact_iff f t (before_tilde t) (select_where (has_name (before_tilde t)) live)
        (select_where (has_prefix (after_tilde t)) (select_where (has_name (before_tilde t)) live))
        r)
  | inr e ↦ rw e (pick_named_iff f t (select_where (has_name t) live) r)
]

-- How a session may be picked from the live sessions of an agent.
abbrev pub IsPick : Option String → List PeerRecord → PeerRecord → Type 0
IsPick pinned live r =
    let pin = or_else pinned "" in
    if str_eq pin ""
    then (select_where is_primary live ≡ r ∷ [])
      ⊎ (((q : PeerRecord) → select_where is_primary live ≢ q ∷ []) × (live ≡ r ∷ []))
    else select_where (λ x. str_eq x.peer_id pin) live ≡ r ∷ []

abbrev SingleCase : List PeerRecord → Result PeerRecord → PeerRecord → Type 0
SingleCase xs rest r = (xs ≡ r ∷ []) ⊎ (((q : PeerRecord) → xs ≢ q ∷ []) × (rest ≡ ok r))

single_or-SingleCase :
    (xs : List PeerRecord) (rest : Result PeerRecord) (r : PeerRecord)
    → single_or xs rest ≡ ok r
    → SingleCase xs rest r
single_or-SingleCase [] rest r h = inr (λ q e. cc, h)
single_or-SingleCase (x ∷ []) rest r h = inl (let e : x ≡ r = ok-injective x r h in rw e refl)
single_or-SingleCase (x ∷ y ∷ zs) rest r h = inr (λ q e. cc, h)

single_or-SingleCase_ok :
    (xs : List PeerRecord) (rest : Result PeerRecord) (r : PeerRecord)
    → SingleCase xs rest r
    → single_or xs rest ≡ ok r
single_or-SingleCase_ok xs rest r (inl e) = rw e refl
single_or-SingleCase_ok [] rest r (inr (n, k)) = k
single_or-SingleCase_ok (x ∷ []) rest r (inr (n, k)) = absurd (n x refl)
single_or-SingleCase_ok (x ∷ y ∷ zs) rest r (inr (n, k)) = k

pub not_ok : (x : Error) (r : PeerRecord) → err x ≢ ok r
not_ok x r h = cc

-- Without a rest, only a single one is picked.
SingleCase-err :
    (xs : List PeerRecord) (x : Error) (r : PeerRecord) → SingleCase xs (err x) r → xs ≡ r ∷ []
SingleCase-err xs x r (inl e) = e
SingleCase-err xs x r (inr (n, k)) = absurd (not_ok x r k)

pick-unpinned :
    (live : List PeerRecord) (r : PeerRecord)
    → (single_or (select_where is_primary live) (single_or live (err ambiguous_peer)) ≡ ok r) ↔ (
        (select_where is_primary live ≡ r ∷ [])
        ⊎ (((q : PeerRecord) → select_where is_primary live ≢ q ∷ []) × (live ≡ r ∷ [])))
pick-unpinned live r = (
  λ h.
      elim (single_or-SingleCase (select_where is_primary live)
        (single_or live (err ambiguous_peer)) r h) [
          | inl e ↦ inl e
          | inr (n, k) ↦ inr (
            n,
            SingleCase-err live ambiguous_peer r
                (single_or-SingleCase live (err ambiguous_peer) r k),
          )
        ],
  λ h.
      single_or-SingleCase_ok (select_where is_primary live) (single_or live (err ambiguous_peer)) r
        (elim h [
          | inl e ↦ inl e
          | inr (n, k) ↦ inr (n, single_or-SingleCase_ok live (err ambiguous_peer) r (inl k))
        ]),
)

pick-pinned :
    (xs : List PeerRecord) (r : PeerRecord)
    → (single_or xs (err ambiguous_peer) ≡ ok r) ↔ (xs ≡ r ∷ [])
pick-pinned xs r = (
  λ h. SingleCase-err xs ambiguous_peer r (single_or-SingleCase xs (err ambiguous_peer) r h),
  λ h. single_or-SingleCase_ok xs (err ambiguous_peer) r (inl h),
)

-- An agent's target resolves to a session exactly in these cases: a peer id is pinned and the
-- session is the only live one with that id; nothing is pinned and it is the only primary one; or
-- nothing is pinned, there is not exactly one primary session, and it is the only live one.
pub pick_session_iff :
    (pinned : Option String) (live : List PeerRecord) (r : PeerRecord)
    → (pick_session pinned live ≡ ok r) ↔ IsPick pinned live r
unfolding pick_session
pick_session_iff pinned [] r = elim (Bool-cases (str_eq (or_else pinned "") "")) [
  | inl e ↦
      rw e (λ h. absurd (not_ok discovery_error r h), λ h. elim h [ inl k ↦ cc | inr (n, k) ↦ cc ])
  | inr e ↦ rw e (λ h. absurd (not_ok discovery_error r h), λ h. cc)
]
pick_session_iff pinned (l ∷ ls) r = elim (Bool-cases (str_eq (or_else pinned "") "")) [
  | inl e ↦ rw e (pick-unpinned (l ∷ ls) r)
  | inr e ↦ rw e (pick-pinned (select_where (λ x. str_eq x.peer_id (or_else pinned "")) (l ∷ ls)) r)
]
