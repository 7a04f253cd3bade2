-- ===== src/Requests/Transitions.antt =====
-- `transition` of agent_peer/requests.py.
use hermes_walkie_talkie.Prelude.{
  String, ◌≡◌, refl, ap, ◌∙◌, ◌⊎◌, inl, inr, true, Option, none, some, [], ◌∷◌, ◌++◌, if◌then◌else◌,
  Bool-cases,
}
use hermes_walkie_talkie.Table.{first_where, update_where}
use hermes_walkie_talkie.Table.Laws.{first_where-true, first_where-update}
use hermes_walkie_talkie.Errors.{Error, Result, ok, err}
use hermes_walkie_talkie.Workflows.{RequestState, value, is_terminal, transition_to}
use hermes_walkie_talkie.Workflows.Diagram.{◌⟶◌, transition-⟶, ⟶-transition, no_edge_of_terminal}
use hermes_walkie_talkie.Workflows.Values.{transition_to_iff}
use hermes_walkie_talkie.Requests.{
  Row, RequestStore, has_id, transition, transition_row, attempt, advance, get, found, set_state,
}
use hermes_walkie_talkie.Requests.Consistency.{IsConsistent, advance-IsConsistent}

pub transition_of_terminal :
    (s : RequestState) (target : String)
    → is_terminal s ≡ true
    → (e : Error) × (transition_to s target ≡ err e)
transition_of_terminal s target h = go (transition_to s target) refl
  where
    go :
        (r : Result RequestState)
        → transition_to s target ≡ r
        → (e : Error) × (transition_to s target ≡ err e)
    go (err e) eq = (e, eq)
    go (ok t) eq = absurd (no_edge_of_terminal s t h ((transition_to_iff s t target).0 eq).1)

-- A stored request is moved as the decision table decides.
pub transition-eq-attempt :
    (rid target detail now : String) (s : RequestStore) (r : Row)
    → first_where (has_id rid) s.requests ≡ some r
    → transition rid target detail now s ≡ attempt (transition_to r.state target) r rid detail now s
unfolding transition transition_row
transition-eq-attempt rid target detail now s r h =
    rw (h, transition)
      (elim (Bool-cases (is_terminal r.state)) [
        | inl t ↦
            let (e, eq) = transition_of_terminal r.state target t in
            rw (t, eq) (unfold attempt in refl)
        | inr t ↦ rw t
      ])

-- The target is the text of a state that the request may move to: the row gets this state and keeps
-- its other columns, no other row changes, one event with the detail and the time is appended, and
-- the request is returned in its new state.
abbrev pub IsMoved : String → String → String → String → RequestStore → Row → Type 0
IsMoved rid target detail now s r =
    (t : RequestState) × (target ≡ value t)
    × (r.state ⟶ t)
    × (transition rid target detail now s ≡ (
      found (some (set_state t r)),
      record {
        requests = update_where (has_id rid) (set_state t) s.requests;
        events =
            s.events
            ++ record { request_id = rid; state = t; detail = detail; occurred_at = now } ∷ [];
      },
    ))

-- The target is no such text: nothing changes, and the request is returned as it is.
abbrev pub IsIgnored : String → String → String → String → RequestStore → Row → Type 0
IsIgnored rid target detail now s r =
    ¬ ((t : RequestState) × (target ≡ value t) × (r.state ⟶ t))
    × (transition rid target detail now s ≡ (found (some r), s))

first_where-set_state :
    (rid : String) (s : RequestStore) (r : Row) (t : RequestState)
    → first_where (has_id rid) s.requests ≡ some r
    → first_where (has_id rid) (update_where (has_id rid) (set_state t) s.requests)
      ≡ some (set_state t r)
first_where-set_state rid s r t h =
    first_where-update (has_id rid) (has_id rid) (set_state t) s.requests r (λ x. refl) h
    ∙ ap (λ b. some (if b then set_state t r else r)) (first_where-true (has_id rid) s.requests r h)

attempt-moved :
    (rid detail now : String) (s : RequestStore) (r : Row) (t : RequestState)
    → first_where (has_id rid) s.requests ≡ some r
    → attempt (ok t) r rid detail now s ≡ (
      found (some (set_state t r)),
      record {
        requests = update_where (has_id rid) (set_state t) s.requests;
        events =
            s.events
            ++ record { request_id = rid; state = t; detail = detail; occurred_at = now } ∷ [];
      },
    )
unfolding attempt get advance
attempt-moved rid detail now s r t h =
    ap (λ o. (found o, advance rid t detail now s)) (first_where-set_state rid s r t h)

-- A transition of a stored request moves it along the decision table, with its row, its event and
-- its result, if the target is the text of a state that the table allows from its state; with any
-- other target, and so for every terminal request, nothing changes and it is returned as it is.
pub transition_lem :
    (rid target detail now : String) (s : RequestStore) (r : Row)
    → first_where (has_id rid) s.requests ≡ some r
    → IsMoved rid target detail now s r ⊎ IsIgnored rid target detail now s r
transition_lem rid target detail now s r h = go (transition_to r.state target) refl
  where
    go :
        (o : Result RequestState)
        → transition_to r.state target ≡ o
        → IsMoved rid target detail now s r ⊎ IsIgnored rid target detail now s r
    go (ok t) e =
        let (text, legal) = (transition_to_iff r.state t target).0 e in
        inl (
          t,
          text,
          (transition-⟶ r.state t t legal).0,
          transition-eq-attempt rid target detail now s r h
              ∙ ap (λ o. attempt o r rid detail now s) e
              ∙ attempt-moved rid detail now s r t h,
        )
    go (err x) e = inr (
      (λ k.
          let back = (transition_to_iff r.state k.0 target).1 (k.1, ⟶-transition r.state k.0 k.2) in
          cc),
      transition-eq-attempt rid target detail now s r h
          ∙ ap (λ o. attempt o r rid detail now s) e
          ∙ unfold attempt in refl,
    )

-- A transition keeps the event log a log of legal lives.
pub transition-IsConsistent :
    (rid target detail now : String) (s : RequestStore)
    → IsConsistent s
    → IsConsistent (transition rid target detail now s).1
transition-IsConsistent rid target detail now s c = go (first_where (has_id rid) s.requests) refl
  where
    by_table :
        (r : Row) (o : Result RequestState)
        → first_where (has_id rid) s.requests ≡ some r
        → transition_to r.state target ≡ o
        → IsConsistent (attempt o r rid detail now s).1
    by_table r (err e) h eq = unfold attempt in c
    by_table r (ok t) h eq =
        unfold attempt in
        advance-IsConsistent rid t detail now s r c h ((transition_to_iff r.state t target).0 eq).1

    go :
        (o : Option Row)
        → first_where (has_id rid) s.requests ≡ o
        → IsConsistent (transition rid target detail now s).1
    go none h = unfold transition transition_row in rw (h, transition) c
    go (some r) h =
        rw (transition-eq-attempt rid target detail now s r h)
          (by_table r (transition_to r.state target) h refl)
