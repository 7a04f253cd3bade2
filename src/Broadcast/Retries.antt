-- ===== src/Broadcast/Retries.antt =====
-- The bounded retries of `work` in agent_peer/broadcast.py.
use hermes_walkie_talkie.Prelude.{
  ℕ, zero, suc, ◌+◌, ◌≤◌, String, ◌≡◌, refl, inl, inr, Bool, Option, none, some, List, [], ◌∷◌, map,
  arith, str_eq, if◌then◌else◌, Bool-cases, or_else,
}
use Prim.Native.String.{◌++◌ as text_append}
use hermes_walkie_talkie.Table.Oldest.{count-order_by}
use hermes_walkie_talkie.Table.{first_where, select_where, count_where}
use hermes_walkie_talkie.Table.Laws.{count_where-append}
use hermes_walkie_talkie.Groups.{GroupMember, GroupStore, members, is_member, in_group}
use hermes_walkie_talkie.Groups.Uniqueness.{IsUnique}
use hermes_walkie_talkie.Broadcast.{
  Broadcast, BroadcastStore, BroadcastEngine, Child, Sent, Outcome, receipt, raises, attempts, work,
  work_all, has_id, is_other, gate, resolve_member, resolved_child, pin, run_fan_out, gated,
  fan_out_of, fan_out, insert_children,
}

-- The calls of `send` for one agent.
abbrev pub is_to : String → Sent → Bool
is_to a t = str_eq t.agent_id a

abbrev is_child_of : String → Child → Bool
is_child_of a c = str_eq c.agent_id a

abbrev is_agent : String → GroupMember → Bool
is_agent a m = str_eq m.agent_id a

module _ (e : BroadcastEngine) (content a : String) where
  count-attempts-le :
      (c : Child) (n k : ℕ) (final : String × String)
      → count_where (is_to a) (attempts e content c n k final).1
        ≤ (if is_child_of a c then n else 0)
  unfolding attempts
  count-attempts-le c zero k final = ground arith
  count-attempts-le c (suc n) k final =
      go (e.send c.agent_id c.peer_id content c.child_message_id k) refl
        (λ f. count-attempts-le c n (k + 1) f)
    where
      go :
          (o : Outcome)
          → e.send c.agent_id c.peer_id content c.child_message_id k ≡ o
          → ((f : String × String)
              → count_where (is_to a) (attempts e content c n (k + 1) f).1
                ≤ (if is_child_of a c then n else 0))
          → count_where (is_to a) (attempts e content c (suc n) k final).1
            ≤ (if is_child_of a c then suc n else 0)
      go (raises exc) q ih =
          let text =
            text_append "attempt " (text_append (e.lib.str (k + 1)) (text_append ": " exc)) in
          rw (q, attempts) (ground (arith, ih ("unreachable", text)))
      go (receipt st dt) q ih =
          rw (q, attempts) (ground (arith, ih (or_else st "queued", or_else dt "")))

  count-work-le :
      (c : Child) (rows : List Child)
      → count_where (is_to a) (work e content c rows).2
        ≤ (if is_child_of a c then e.max_retries + 1 else 0)
  unfolding work
  count-work-le c rows = elim (Bool-cases (str_eq c.state "queued")) [
    | inl q ↦ rw q (count-attempts-le c (e.max_retries + 1) 0 ("queued", ""))
    | inr q ↦ rw q (ground arith)
  ]

  count-work_all-zero :
      (cs rows : List Child)
      → count_where (is_child_of a) cs ≡ 0
      → count_where (is_to a) (work_all e content cs rows).2 ≡ 0
  unfolding work_all
  count-work_all-zero [] rows h = refl
  count-work_all-zero (c ∷ cs) rows h =
      rw
        (count_where-append (is_to a) (work e content c rows).2
          (work_all e content cs (work e content c rows).1).2)
        (ground (arith, count-work-le c rows, count-work_all-zero cs (work e content c rows).1))

  count-work_all-le :
      (cs rows : List Child)
      → count_where (is_child_of a) cs ≤ 1
      → count_where (is_to a) (work_all e content cs rows).2 ≤ e.max_retries + 1
  unfolding work_all
  count-work_all-le [] rows h = omega arith
  count-work_all-le (c ∷ cs) rows h =
      rw
        (count_where-append (is_to a) (work e content c rows).2
          (work_all e content cs (work e content c rows).1).2)
        (ground (
          arith,
          count-work-le c rows,
          count-work_all-zero cs (work e content c rows).1,
          count-work_all-le cs (work e content c rows).1,
        ))

agent-resolve_member :
    (e : BroadcastEngine) (bid sender : String) (m : GroupMember)
    → (resolve_member e bid sender m).agent_id ≡ m.agent_id
unfolding resolve_member
agent-resolve_member e bid sender m = elim (Bool-cases (str_eq m.agent_id sender)) [
  | inl q ↦ rw q refl
  | inr q ↦ rw q (go (e.resolve m.agent_id (pin m.peer_id)))
]
  where
    go : (o : Option String) → (resolved_child e.lib bid m.agent_id o).agent_id ≡ m.agent_id
    go none = refl
    go (some p) = refl

count-resolve :
    (e : BroadcastEngine) (bid sender a : String) (ms : List GroupMember)
    → count_where (is_child_of a) (map (resolve_member e bid sender) ms)
      ≡ count_where (is_agent a) ms
count-resolve e bid sender a [] = refl
count-resolve e bid sender a (m ∷ ms) =
    rw (agent-resolve_member e bid sender m) (ground (arith, count-resolve e bid sender a ms))

count-select_group :
    (gid a : String) (ms : List GroupMember)
    → count_where (is_agent a) (select_where (in_group gid) ms) ≡ count_where (is_member gid a) ms
count-select_group gid a [] = refl
count-select_group gid a (m ∷ ms) = ground (arith, count-select_group gid a ms)

count-members-le :
    (gid a : String) (g : GroupStore) → IsUnique g → count_where (is_agent a) (members gid g) ≤ 1
unfolding members
count-members-le gid a g u = omega (
  arith,
  count-order_by (λ x. x.agent_id) (λ x. x.agent_id) (is_agent a)
      (select_where (in_group gid) g.group_members),
  count-select_group gid a g.group_members,
  u.members gid a,
)

count-gated-le :
    (e : BroadcastEngine) (bid a : String) (p : Broadcast) (ms : List GroupMember)
    (s : BroadcastStore)
    → count_where (is_agent a) ms ≤ 1
    → count_where (is_to a) (gated e bid p ms s).2 ≤ e.max_retries + 1
unfolding gated run_fan_out
count-gated-le e bid a p [] s h = omega arith
count-gated-le e bid a p (m ∷ ms) s h = elim (Bool-cases (gate bid s).0) [
  | inl won ↦
      let resolved = map (resolve_member e bid p.sender_agent_id) (m ∷ ms) in
      rw won (
        count-work_all-le e p.content a resolved
          (insert_children resolved (gate bid s).1.broadcast_children)
          (rw (count-resolve e bid p.sender_agent_id a (m ∷ ms)) h))
  | inr lost ↦ rw lost (omega arith)
]

-- A fan-out calls `send` for one agent at most once more than `max_retries`, where the groups keep
-- their keys unique.
pub count-sent-le :
    (e : BroadcastEngine) (g : GroupStore) (bid a : String) (caller : Option String)
    (s : BroadcastStore)
    → IsUnique g
    → count_where (is_to a) (fan_out e g bid caller s).2 ≤ e.max_retries + 1
unfolding fan_out
count-sent-le e g bid a caller s u = go (first_where (has_id bid) s.broadcasts)
  where
    go :
        (o : Option Broadcast)
        → count_where (is_to a) (fan_out_of o e g bid caller s).2 ≤ e.max_retries + 1
    go none = omega arith
    go (some p) = elim (Bool-cases (is_other caller p.sender_agent_id)) [
      | inl other ↦ rw other (omega arith)
      | inr same ↦ elim (Bool-cases (str_eq p.status "created")) [
        | inl new ↦ rw same (
            rw new (
              count-gated-le e bid a p (members p.group_id g) s
                (count-members-le p.group_id a g u)))
        | inr old ↦ rw same (rw old (omega arith))
      ]
    ]
