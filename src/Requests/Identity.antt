-- ===== src/Requests/Identity.antt =====
-- What the calls of agent_peer/requests.py do to one stored request.
use hermes_walkie_talkie.Prelude.{
  String, ◌≡◌, refl, ◌∙◌, inl, inr, Bool, Option, none, some, List, [], ◌∷◌, Bool-cases,
}
use hermes_walkie_talkie.Table.{first_where}
use hermes_walkie_talkie.Table.Laws.{first_where-append, first_where-update}
use hermes_walkie_talkie.Errors.{Result, ok, err}
use hermes_walkie_talkie.Workflows.{RequestState, transition_to, expired}
use hermes_walkie_talkie.Requests.{
  Row, RequestStore, CreateArgs, has_id, set_state, advance, create, insert_new, existing, new_row,
  transition, transition_row, attempt, is_overdue,
}
use hermes_walkie_talkie.Requests.Consistency.{IsConsistent}
use hermes_walkie_talkie.Requests.Transitions.{transition-eq-attempt}
use hermes_walkie_talkie.Requests.Expiry.{requests-expire_overdue}
use hermes_walkie_talkie.Requests.History.{
  Call, creates, transitions, expires, perform, run, perform-IsConsistent,
}

-- A row that a call may leave in the place of r: r itself, or r in another state.
abbrev Keeps : (Row → Bool) → Row → RequestStore → Type 0
Keeps p r s = (t : RequestState) × (first_where p s.requests ≡ some (set_state t r))

-- A test that does not read the state of a row.
abbrev pub IsStateless : (Row → Bool) → Type 0
IsStateless p = (t : RequestState) (x : Row) → p (set_state t x) ≡ p x

module _ (p : Row → Bool) (stateless : IsStateless p) (r : Row) where
  advance-Keeps :
      (rid : String) (t : RequestState) (detail now : String) (s : RequestStore)
      → first_where p s.requests ≡ some r
      → Keeps p r (advance rid t detail now s)
  unfolding advance
  advance-Keeps rid t detail now s h = elim (Bool-cases (has_id rid r)) [
    | inl e ↦
        (t, first_where-update p (has_id rid) (set_state t) s.requests r (stateless t) h ∙ rw e)
    | inr e ↦ (
      r.state,
      first_where-update p (has_id rid) (set_state t) s.requests r (stateless t) h ∙ rw e,
    )
  ]

  insert-Keeps :
      (rid ts now : String) (a : CreateArgs) (s : RequestStore) (o : Option Row)
      → first_where (has_id rid) s.requests ≡ o
      → first_where p s.requests ≡ some r
      → Keeps p r (insert_new rid ts now a s).1
  unfolding insert_new
  insert-Keeps rid ts now a s (some q) e h = rw e (r.state, h)
  insert-Keeps rid ts now a s none e h =
      rw e (r.state, first_where-append p s.requests (new_row rid ts a ∷ []) r h)

  create-Keeps :
      (rid ts now : String) (a : CreateArgs) (s : RequestStore) (o : Option Row)
      → existing a s ≡ o
      → first_where p s.requests ≡ some r
      → Keeps p r (create rid ts now a s).1
  unfolding create
  create-Keeps rid ts now a s (some q) e h = rw (e, create) (r.state, h)
  create-Keeps rid ts now a s none e h =
      rw (e, create) (insert-Keeps rid ts now a s (first_where (has_id rid) s.requests) refl h)

  attempt-Keeps :
      (o : Result RequestState) (q : Row) (rid detail now : String) (s : RequestStore)
      → first_where p s.requests ≡ some r
      → Keeps p r (attempt o q rid detail now s).1
  unfolding attempt
  attempt-Keeps (ok t) q rid detail now s h = advance-Keeps rid t detail now s h
  attempt-Keeps (err e) q rid detail now s h = (r.state, h)

  transition-Keeps :
      (rid target detail now : String) (s : RequestStore) (o : Option Row)
      → first_where (has_id rid) s.requests ≡ o
      → first_where p s.requests ≡ some r
      → Keeps p r (transition rid target detail now s).1
  transition-Keeps rid target detail now s none e h =
      unfold transition transition_row in rw (e, transition) (r.state, h)
  transition-Keeps rid target detail now s (some q) e h =
      rw (transition-eq-attempt rid target detail now s q e)
        (attempt-Keeps (transition_to q.state target) q rid detail now s h)

  perform-Keeps :
      (c : Call) (s : RequestStore)
      → IsConsistent s
      → first_where p s.requests ≡ some r
      → Keeps p r (perform c s)
  perform-Keeps (creates rid ts now a) s c h = create-Keeps rid ts now a s (existing a s) refl h
  perform-Keeps (transitions rid target detail now) s c h =
      transition-Keeps rid target detail now s (first_where (has_id rid) s.requests) refl h
  perform-Keeps (expires ref now) s c h =
      rw (requests-expire_overdue ref now s c.distinct) (elim (Bool-cases (is_overdue ref r)) [
        | inl e ↦ (
          expired,
          first_where-update p (is_overdue ref) (set_state expired) s.requests r (stateless expired)
                h
              ∙ rw e,
        )
        | inr e ↦ (
          r.state,
          first_where-update p (is_overdue ref) (set_state expired) s.requests r (stateless expired)
                h
              ∙ rw e,
        )
      ])

-- No sequence of calls removes a request or changes any field of it but its state: a row found by
-- a test that does not read the state is found again, with all its other fields.
pub run-Keeps :
    (p : Row → Bool) (stateless : IsStateless p) (cs : List Call) (s : RequestStore) (r : Row)
    → IsConsistent s
    → first_where p s.requests ≡ some r
    → (t : RequestState) × (first_where p (run cs s).requests ≡ some (set_state t r))
run-Keeps p stateless [] s r c h = (r.state, h)
run-Keeps p stateless (k ∷ cs) s r c h =
    let (t, e) = perform-Keeps p stateless r k s c h in
    run-Keeps p stateless cs (perform k s) (set_state t r) (perform-IsConsistent k s c) e
