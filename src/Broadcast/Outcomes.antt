-- ===== src/Broadcast/Outcomes.antt =====
-- What `fan_out` of agent_peer/broadcast.py records, and what a later call reads.
use hermes_walkie_talkie.Prelude.{
  ℕ, zero, suc, ◌+◌, String, ◌≡◌, ◌≢◌, ◌⊎◌, refl, sym, ap, ◌∙◌, inl, inr, true, false, or_else,
  eq_iff, List, [], ◌∷◌, ◌++◌, map, arith, str_eq, eq_refl, if◌then◌else◌, Bool-cases, length,
}
use Prim.Native.String.{◌++◌ as text_append}
use mathlib.Core.Path.{subst}
use mathlib.Core.List.{append-nil, append_assoc}
use hermes_walkie_talkie.Table.{count_where, update_where}
use hermes_walkie_talkie.Table.Laws.{
  count_where-append, update_where-none, update_where-append, count_where-zero,
}
use hermes_walkie_talkie.Errors.{ok}
use hermes_walkie_talkie.Groups.{GroupMember}
use hermes_walkie_talkie.Broadcast.{
  BroadcastEngine, BroadcastStore, BroadcastResult, Child, same_child, set_outcome, work, work_all,
  insert_children, resolve_member, attempts, is_retried, Outcome, raises, receipt, run_fan_out,
}

-- The children of `cs` have keys that differ from each other and from those of `pre`.
abbrev pub IsFresh : List Child → List Child → Type 0
IsFresh pre [] = Unit
IsFresh pre (c ∷ cs) = (count_where (same_child c) (pre ++ cs) ≡ 0) × IsFresh (pre ++ c ∷ []) cs

insert_children_fresh : (cs pre : List Child) → IsFresh pre cs → insert_children cs pre ≡ pre ++ cs
insert_children_fresh [] pre h = sym (append-nil pre)
insert_children_fresh (c ∷ cs) pre h =
    let new : count_where (same_child c) pre ≡ 0 =
      omega (arith, h.0, count_where-append (same_child c) pre cs) in
    rw (count_where-zero (same_child c) pre new)
      (insert_children_fresh cs (pre ++ c ∷ []) h.1 ∙ append_assoc pre (c ∷ []) cs)

same_child_refl : (c : Child) → same_child c c ≡ true
same_child_refl c = rw (eq_refl c.broadcast_id, eq_refl c.agent_id, eq_refl c.peer_id) refl

-- Only the row of the child changes.
update_one :
    (t d : String) (c : Child) (pre cs : List Child)
    → count_where (same_child c) (pre ++ cs) ≡ 0
    → update_where (same_child c) (set_outcome t d) (pre ++ c ∷ cs) ≡ pre ++ set_outcome t d c ∷ cs
update_one t d c pre cs h =
    let before : count_where (same_child c) pre ≡ 0 =
      omega (arith, h, count_where-append (same_child c) pre cs) in
    let after : count_where (same_child c) cs ≡ 0 =
      omega (arith, h, count_where-append (same_child c) pre cs) in
    rw (update_where-append (same_child c) (set_outcome t d) pre (c ∷ cs)) (
      rw (update_where-none (same_child c) (set_outcome t d) pre before) (
        rw (same_child_refl c)
          (rw (update_where-none (same_child c) (set_outcome t d) cs after) refl)))

work_recorded :
    (e : BroadcastEngine) (content : String) (c : Child) (pre cs : List Child)
    → count_where (same_child c) (pre ++ cs) ≡ 0
    → (work e content c (pre ++ c ∷ cs)).1 ≡ pre ++ (work e content c (pre ++ c ∷ cs)).0 ∷ cs
unfolding work
work_recorded e content c pre cs h = elim (Bool-cases (str_eq c.state "queued")) [
  | inl q ↦ rw q (update_one _ _ c pre cs h)
  | inr q ↦ rw q refl
]

IsFresh-count :
    (cs pre pre' : List Child)
    → ((x : Child) → count_where (same_child x) pre' ≡ count_where (same_child x) pre)
    → IsFresh pre cs
    → IsFresh pre' cs
IsFresh-count [] pre pre' h f = tt
IsFresh-count (c ∷ cs) pre pre' h f = (
  omega (
    arith,
    f.0,
    h c,
    count_where-append (same_child c) pre cs,
    count_where-append (same_child c) pre' cs,
  ),
  IsFresh-count cs (pre ++ c ∷ []) (pre' ++ c ∷ [])
      (λ x. omega (
        arith,
        h x,
        count_where-append (same_child x) pre (c ∷ []),
        count_where-append (same_child x) pre' (c ∷ []),
      ))
      f.1,
)

same_child-work :
    (e : BroadcastEngine) (content : String) (c x : Child) (rows : List Child)
    → same_child x (work e content c rows).0 ≡ same_child x c
unfolding work
same_child-work e content c x rows = elim (Bool-cases (str_eq c.state "queued")) [
  | inl q ↦ rw q refl
  | inr q ↦ rw q refl
]

work_all_recorded :
    (e : BroadcastEngine) (content : String) (cs pre : List Child)
    → IsFresh pre cs
    → (work_all e content cs (pre ++ cs)).1 ≡ pre ++ (work_all e content cs (pre ++ cs)).0
unfolding work_all
work_all_recorded e content [] pre f = refl
work_all_recorded e content (c ∷ cs) pre f =
    let r = (work e content c (pre ++ c ∷ cs)).0 in
    let rows : (work e content c (pre ++ c ∷ cs)).1 ≡ (pre ++ r ∷ []) ++ cs =
      work_recorded e content c pre cs f.0 ∙ sym (append_assoc pre (r ∷ []) cs) in
    let rest = work_all_recorded e content cs (pre ++ r ∷ []) (
      IsFresh-count cs (pre ++ c ∷ []) (pre ++ r ∷ [])
        (λ x.
          count_where-append (same_child x) pre (r ∷ [])
          ∙ ap (λ b. count_where (same_child x) pre + (if b then 1 else 0))
              (same_child-work e content c x (pre ++ c ∷ cs))
          ∙ sym (count_where-append (same_child x) pre (c ∷ [])))
        f.1) in
    rw rows (rest ∙ append_assoc pre (r ∷ []) _)

length-work_all :
    (e : BroadcastEngine) (content : String) (cs rows : List Child)
    → length (work_all e content cs rows).0 ≡ length cs
unfolding work_all
length-work_all e content [] rows = refl
length-work_all e content (c ∷ cs) rows =
    ap suc (length-work_all e content cs (work e content c rows).1)

length-map_members :
    (f : GroupMember → Child) (ms : List GroupMember) → length (map f ms) ≡ length ms
length-map_members f [] = refl
length-map_members f (m ∷ ms) = ap suc (length-map_members f ms)

-- The state and detail of attempt `k`, by what `send` answers to it.
abbrev pub answer_of : BroadcastEngine → ℕ → Outcome → String × String
answer_of e k (raises exc) =
    ("unreachable", text_append "attempt " (text_append (e.lib.str (k + 1)) (text_append ": " exc)))
answer_of e k (receipt st dt) = (or_else st "queued", or_else dt "")

module _ (e : BroadcastEngine) (content : String) (c : Child) where
  abbrev answered : ℕ → Outcome
  answered k = e.send c.agent_id c.peer_id content c.child_message_id k

  -- The outcome of the attempts from `k` on, with `n` retries left: the answer to the first attempt
  -- that is not to be retried, or to the last one.
  pub data Tries : ℕ → ℕ → String × String → Type 0 where
    ends :
        {n k : ℕ} {out : String × String}
        → answer_of e k (answered k) ≡ out
        → is_retried out.0 ≡ false
        → Tries n k out
    last : {k : ℕ} {out : String × String} → answer_of e k (answered k) ≡ out → Tries zero k out
    again :
        {n k : ℕ} {out : String × String}
        → is_retried (answer_of e k (answered k)).0 ≡ true
        → Tries n (k + 1) out
        → Tries (suc n) k out

  tries_of :
      (n k : ℕ) (final : String × String) (o : Outcome)
      → answered k ≡ o
      → Tries n k (attempts e content c (suc n) k final).0
  unfolding attempts
  tries_of zero k final (raises exc) eq = rw (attempts, eq) (last (ap (answer_of e k) eq))
  tries_of (suc n) k final (raises exc) eq =
      rw (attempts, eq)
        (again (ap (λ o. is_retried (answer_of e k o).0) eq)
          (tries_of n (k + 1) (answer_of e k (raises exc)) (answered (k + 1)) refl))
  tries_of zero k final (receipt st dt) eq =
      rw (attempts, eq)
        (elim (Bool-cases (is_retried (or_else st "queued"))) [
          | inr b ↦ rw b (ends (ap (answer_of e k) eq) b)
          | inl b ↦ rw b (last (ap (answer_of e k) eq))
        ])
  tries_of (suc n) k final (receipt st dt) eq =
      rw (attempts, eq)
        (elim (Bool-cases (is_retried (or_else st "queued"))) [
          | inr b ↦ rw b (ends (ap (answer_of e k) eq) b)
          | inl b ↦ rw b (
              again (ap (λ o. is_retried (answer_of e k o).0) eq ∙ b)
                (tries_of n (k + 1) (answer_of e k (receipt st dt)) (answered (k + 1)) refl))
        ])

  attempts-Tries :
      (n : ℕ) (final : String × String) → Tries n 0 (attempts e content c (n + 1) 0 final).0
  attempts-Tries n final =
      let same : n + 1 ≡ suc n = omega arith in
      subst (λ m. Tries n 0 (attempts e content c m 0 final).0) (sym same)
        (tries_of n 0 final (answered 0) refl)

-- The result of a member: its resolved child, with the outcome of its attempts if it was queued.
abbrev pub IsResult : BroadcastEngine → String → String → String → GroupMember → Child → Type 0
IsResult e bid sender content m r =
    let c = resolve_member e bid sender m in
    ((c.state ≢ "queued") × (r ≡ c))
    ⊎ (out : String × String) × (c.state ≡ "queued")
      × Tries e content c e.max_retries 0 out
      × (r ≡ set_outcome out.0 out.1 c)

-- The results stand in the order of the members.
abbrev pub InOrder : (GroupMember → Child → Type 0) → List GroupMember → List Child → Type 0
InOrder P [] [] = Unit
InOrder P [] (r ∷ rs) = ⊥
InOrder P (m ∷ ms) [] = ⊥
InOrder P (m ∷ ms) (r ∷ rs) = P m r × InOrder P ms rs

work-IsResult :
    (e : BroadcastEngine) (bid sender content : String) (m : GroupMember) (rows : List Child)
    → IsResult e bid sender content m (work e content (resolve_member e bid sender m) rows).0
unfolding work
work-IsResult e bid sender content m rows =
    let c = resolve_member e bid sender m in
    elim (Bool-cases (str_eq c.state "queued")) [
      | inl q ↦ rw q (
          inr (
            (attempts e content c (e.max_retries + 1) 0 ("queued", "")).0,
            (eq_iff c.state "queued").0 q,
            attempts-Tries e content c e.max_retries ("queued", ""),
            refl,
          ))
      | inr q ↦ rw q (inl ((λ h. let t = (eq_iff c.state "queued").1 h in cc), refl))
    ]

work_all-InOrder :
    (e : BroadcastEngine) (bid sender content : String) (ms : List GroupMember) (rows : List Child)
    → InOrder
        (IsResult e bid sender content)
        ms
        (work_all e content (map (resolve_member e bid sender) ms) rows).0
unfolding work_all
work_all-InOrder e bid sender content [] rows = tt
work_all-InOrder e bid sender content (m ∷ ms) rows = (
  work-IsResult e bid sender content m rows,
  work_all-InOrder e bid sender content ms (work e content (resolve_member e bid sender m) rows).1,
)

-- Where the keys of the resolved children differ from each other and from those stored, the run of a
-- broadcast stores its results behind the children that were there, and changes no other row. The
-- results stand in the order of the members, each for its own member: a child that is not queued is
-- recorded as it was resolved, and a queued one with the answer of `send` to its first attempt that is
-- not to be retried, or to its last one.
pub run_fan_out_recorded :
    (e : BroadcastEngine) (bid sender content : String) (ms : List GroupMember) (s : BroadcastStore)
    → IsFresh s.broadcast_children (map (resolve_member e bid sender) ms)
    → (r : BroadcastResult) × ((run_fan_out e bid sender content ms s).0 ≡ ok r)
      × ((run_fan_out e bid sender content ms s).1.broadcast_children
          ≡ s.broadcast_children ++ r.per_member)
      × InOrder (IsResult e bid sender content) ms r.per_member
      × (r.summary.total ≡ length ms)
unfolding run_fan_out
run_fan_out_recorded e bid sender content ms s f =
    let resolved = map (resolve_member e bid sender) ms in
    (
      _,
      refl,
      rw (insert_children_fresh resolved s.broadcast_children f)
          (work_all_recorded e content resolved s.broadcast_children f),
      work_all-InOrder e bid sender content ms (insert_children resolved s.broadcast_children),
      length-work_all e content resolved _ ∙ length-map_members (resolve_member e bid sender) ms,
    )
