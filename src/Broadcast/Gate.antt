-- ===== src/Broadcast/Gate.antt =====
-- The single-writer gate of `fan_out` in agent_peer/broadcast.py.
use hermes_walkie_talkie.Prelude.{
  String, ◌≡◌, refl, ap, ◌≢◌, inl, inr, false, Option, none, some, List, [], ◌∷◌, str_eq,
  Bool-cases,
}
use hermes_walkie_talkie.Table.{first_where, count_where, update_where}
use hermes_walkie_talkie.Table.Laws.{update_where-none}
use hermes_walkie_talkie.Groups.{GroupMember, GroupStore, members}
use hermes_walkie_talkie.Broadcast.{
  Broadcast, BroadcastStore, BroadcastEngine, has_id, is_open, is_other, set_status, gate,
  run_fan_out, gated, fan_out_of, fan_out,
}

-- No row with the id has the status `created`.
abbrev pub IsClosed : String → BroadcastStore → Type 0
IsClosed bid s = count_where (is_open bid) s.broadcasts ≡ 0

complete-IsClosed :
    (bid : String) (bs : List Broadcast)
    → count_where (is_open bid) (update_where (has_id bid) (set_status "completed") bs) ≡ 0
complete-IsClosed bid [] = refl
complete-IsClosed bid (b ∷ bs) = elim (Bool-cases (has_id bid b)) [
  | inl e ↦ rw e (rw e (complete-IsClosed bid bs))
  | inr e ↦ rw e (rw e (complete-IsClosed bid bs))
]

gated-IsClosed :
    (e : BroadcastEngine) (bid : String) (p : Broadcast) (ms : List GroupMember)
    (s : BroadcastStore)
    → (gated e bid p ms s).2 ≢ []
    → IsClosed bid (gated e bid p ms s).1
unfolding gated run_fan_out
gated-IsClosed e bid p [] s h = absurd (h refl)
gated-IsClosed e bid p (m ∷ ms) s h = elim (Bool-cases (gate bid s).0) [
  | inl won ↦ rw won (complete-IsClosed bid _)
  | inr lost ↦ absurd (h (rw lost refl))
]

-- The gate of a closed broadcast is lost and changes nothing.
gate_closed : (bid : String) (s : BroadcastStore) → IsClosed bid s → gate bid s ≡ (false, s)
unfolding gate
gate_closed bid s h = rw h (
    ap (λ bs. (false, record s { broadcasts = bs }))
      (update_where-none (is_open bid) (set_status "in_flight") s.broadcasts h))

gated_closed :
    (e : BroadcastEngine) (bid : String) (p : Broadcast) (ms : List GroupMember)
    (s : BroadcastStore)
    → IsClosed bid s
    → ((gated e bid p ms s).1 ≡ s) × ((gated e bid p ms s).2 ≡ [])
unfolding gated
gated_closed e bid p [] s h = (refl, refl)
gated_closed e bid p (m ∷ ms) s h = rw (gate_closed bid s h) (refl, refl)

-- Of two callers that have both read the broadcast as `created`, with whatever members and whatever
-- engines, the second sends nothing and changes nothing once the first has sent something.
pub gated_once :
    (e e' : BroadcastEngine) (bid : String) (p p' : Broadcast) (ms ms' : List GroupMember)
    (s : BroadcastStore)
    → (gated e bid p ms s).2 ≢ []
    → let s' = (gated e bid p ms s).1 in
      ((gated e' bid p' ms' s').1 ≡ s') × ((gated e' bid p' ms' s').2 ≡ [])
gated_once e e' bid p p' ms ms' s h =
    gated_closed e' bid p' ms' (gated e bid p ms s).1 (gated-IsClosed e bid p ms s h)

fan_out_of-IsClosed :
    (o : Option Broadcast) (e : BroadcastEngine) (g : GroupStore) (bid : String)
    (caller : Option String) (s : BroadcastStore)
    → (fan_out_of o e g bid caller s).2 ≢ []
    → IsClosed bid (fan_out_of o e g bid caller s).1
fan_out_of-IsClosed none e g bid caller s h = absurd (h refl)
fan_out_of-IsClosed (some p) e g bid caller s h =
    elim (Bool-cases (is_other caller p.sender_agent_id)) [
      | inl other ↦ absurd (h (rw other refl))
      | inr same ↦ elim (Bool-cases (str_eq p.status "created")) [
        | inl new ↦
            rw same
              (rw new (gated-IsClosed e bid p (members p.group_id g) s (rw new at (rw same at h))))
        | inr old ↦ absurd (h (rw same (rw old refl)))
      ]
    ]

fan_out_of_closed :
    (o : Option Broadcast) (e : BroadcastEngine) (g : GroupStore) (bid : String)
    (caller : Option String) (s : BroadcastStore)
    → IsClosed bid s
    → ((fan_out_of o e g bid caller s).1 ≡ s) × ((fan_out_of o e g bid caller s).2 ≡ [])
fan_out_of_closed none e g bid caller s h = (refl, refl)
fan_out_of_closed (some p) e g bid caller s h =
    elim (Bool-cases (is_other caller p.sender_agent_id)) [
      | inl other ↦ rw other (refl, refl)
      | inr same ↦ elim (Bool-cases (str_eq p.status "created")) [
        | inl new ↦ rw same (rw new (gated_closed e bid p (members p.group_id g) s h))
        | inr old ↦ rw same (rw old (refl, refl))
      ]
    ]

-- Once a `fan_out` of a broadcast has sent something, every later one of it sends nothing and changes
-- nothing, whatever engine, groups and caller it has.
pub fan_out_once :
    (e e' : BroadcastEngine) (g g' : GroupStore) (bid : String) (caller caller' : Option String)
    (s : BroadcastStore)
    → (fan_out e g bid caller s).2 ≢ []
    → let s' = (fan_out e g bid caller s).1 in
      ((fan_out e' g' bid caller' s').1 ≡ s') × ((fan_out e' g' bid caller' s').2 ≡ [])
unfolding fan_out
fan_out_once e e' g g' bid caller caller' s h =
    let s' = (fan_out e g bid caller s).1 in
    fan_out_of_closed (first_where (has_id bid) s'.broadcasts) e' g' bid caller' s'
      (fan_out_of-IsClosed (first_where (has_id bid) s.broadcasts) e g bid caller s h)
