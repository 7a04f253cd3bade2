-- ===== src/Requests/Frozen.antt =====
-- Terminal requests are frozen: agent_peer/requests.py, over any sequence of calls.
use hermes_walkie_talkie.Prelude.{
  String, ◌≡◌, refl, sym, ◌∙◌, inl, inr, true, false, Option, none, some, List, [], ◌∷◌, arith,
  str_eq, eq_iff, Bool-cases,
}
use hermes_walkie_talkie.Table.{first_where}
use hermes_walkie_talkie.Table.Laws.{first_where-append, first_where-update, first_where-true}
use hermes_walkie_talkie.Errors.{Result, ok, err}
use hermes_walkie_talkie.Workflows.{RequestState, is_terminal, transition_to, expired}
use hermes_walkie_talkie.Requests.{
  Row, RequestStore, CreateArgs, has_id, set_state, create, insert_new, existing, new_row,
  transition, transition_row, attempt, is_overdue,
}
use hermes_walkie_talkie.Requests.Consistency.{IsConsistent, first-advance}
use hermes_walkie_talkie.Requests.Transitions.{transition-eq-attempt, transition_of_terminal}
use hermes_walkie_talkie.Requests.Expiry.{requests-expire_overdue}
use hermes_walkie_talkie.Requests.History.{
  Call, creates, transitions, expires, perform, run, perform-IsConsistent,
}

module _ (k : String) (r : Row) where
  abbrev Holds : RequestStore → Type 0
  Holds s = first_where (has_id k) s.requests ≡ some r

  insert-Holds :
      (rid ts now : String) (a : CreateArgs) (s : RequestStore) (o : Option Row)
      → first_where (has_id rid) s.requests ≡ o
      → Holds s
      → Holds (insert_new rid ts now a s).1
  unfolding insert_new
  insert-Holds rid ts now a s (some q) e h = rw e h
  insert-Holds rid ts now a s none e h =
      rw e (first_where-append (has_id k) s.requests (new_row rid ts a ∷ []) r h)

  create-Holds :
      (rid ts now : String) (a : CreateArgs) (s : RequestStore) (o : Option Row)
      → existing a s ≡ o
      → Holds s
      → Holds (create rid ts now a s).1
  unfolding create
  create-Holds rid ts now a s (some q) e h = rw (e, create) h
  create-Holds rid ts now a s none e h =
      rw (e, create) (insert-Holds rid ts now a s (first_where (has_id rid) s.requests) refl h)

  attempt-Holds :
      (o : Result RequestState) (q : Row) (rid detail now : String) (s : RequestStore)
      → str_eq rid k ≡ false
      → Holds s
      → Holds (attempt o q rid detail now s).1
  unfolding attempt
  attempt-Holds (err e) q rid detail now s ne h = h
  attempt-Holds (ok t) q rid detail now s ne h =
      let other : has_id rid r ≡ false = ground (
        arith,
        eq_iff r.request_id rid,
        eq_iff rid k,
        eq_iff r.request_id k,
        first_where-true (has_id k) s.requests r h,
      ) in
      first-advance rid k t detail now s r h ∙ rw other

  frozen_attempt :
      (target rid detail now : String) (s : RequestStore)
      → is_terminal r.state ≡ true
      → Holds s
      → Holds (attempt (transition_to r.state target) r rid detail now s).1
  unfolding attempt
  frozen_attempt target rid detail now s t h =
      let (e, eq) = transition_of_terminal r.state target t in rw (eq, attempt) h

  transition-Holds :
      (rid target detail now : String) (s : RequestStore) (o : Option Row)
      → first_where (has_id rid) s.requests ≡ o
      → is_terminal r.state ≡ true
      → Holds s
      → Holds (transition rid target detail now s).1
  transition-Holds rid target detail now s none e t h =
      unfold transition transition_row in rw (e, transition) h
  transition-Holds rid target detail now s (some q) e t h =
      rw (transition-eq-attempt rid target detail now s q e) (elim (Bool-cases (str_eq rid k)) [
        | inl same ↦
            let id_eq : rid ≡ k = (eq_iff rid k).0 same in
            let here : some r ≡ some q = sym h ∙ rw id_eq at e in
            let rows : r ≡ q = ground arith in
            rw (← rows) (frozen_attempt target rid detail now s t h)
        | inr ne ↦ attempt-Holds (transition_to q.state target) q rid detail now s ne h
      ])

  terminal_not_overdue : (ref : String) → is_terminal r.state ≡ true → is_overdue ref r ≡ false
  unfolding is_terminal
  terminal_not_overdue ref t = ground arith

  perform-Holds :
      (c : Call) (s : RequestStore)
      → IsConsistent s
      → is_terminal r.state ≡ true
      → Holds s
      → Holds (perform c s)
  perform-Holds (creates rid ts now a) s c t h = create-Holds rid ts now a s (existing a s) refl h
  perform-Holds (transitions rid target detail now) s c t h =
      transition-Holds rid target detail now s (first_where (has_id rid) s.requests) refl t h
  perform-Holds (expires ref now) s c t h = rw (requests-expire_overdue ref now s c.distinct) (
      first_where-update (has_id k) (is_overdue ref) (set_state expired) s.requests r (λ x. refl) h
      ∙ rw (terminal_not_overdue ref t))

-- A request in a terminal state keeps its row, state included, through any later calls.
pub run_frozen :
    (k : String) (r : Row) (cs : List Call) (s : RequestStore)
    → IsConsistent s
    → is_terminal r.state ≡ true
    → first_where (has_id k) s.requests ≡ some r
    → first_where (has_id k) (run cs s).requests ≡ some r
run_frozen k r [] s c t h = h
run_frozen k r (d ∷ cs) s c t h =
    run_frozen k r cs (perform d s) (perform-IsConsistent d s c) t (perform-Holds k r d s c t h)
