-- ===== src/Requests/Creation.antt =====
-- `create` of agent_peer/requests.py.
use mathlib.Core.Path.{subst}
use hermes_walkie_talkie.Prelude.{
  String, ◌≡◌, refl, inl, inr, true, false, Option, none, some, [], ◌∷◌, ◌++◌, str_eq, eq_iff,
  eq_refl, Bool-cases,
}
use hermes_walkie_talkie.Table.{first_where}
use hermes_walkie_talkie.Table.Keys.{Distinct-insert}
use hermes_walkie_talkie.Table.Laws.{first_where-none, first_where-append, first_where-append_none}
use hermes_walkie_talkie.Errors.{Result}
use hermes_walkie_talkie.Workflows.{created}
use hermes_walkie_talkie.Requests.{
  Row, Request, RequestEvent, RequestStore, CreateArgs, has_id, new_row, existing, create,
  insert_new, row_to_request,
}
use hermes_walkie_talkie.Requests.Consistency.{IsConsistent, IsLogged, states_of, states_of-append}

module _ (rid ts now : String) (a : CreateArgs) (s : RequestStore) where
  row_self : has_id rid (new_row rid ts a) ≡ true
  row_self = eq_refl rid

  abbrev created_event : RequestEvent
  created_event = record {
    request_id = rid;
    state = created;
    detail = "request created";
    occurred_at = now;
  }

  pub insert_new_fresh :
      first_where (has_id rid) s.requests ≡ none
      → insert_new rid ts now a s ≡ (
        row_to_request (new_row rid ts a),
        record {
          requests = s.requests ++ new_row rid ts a ∷ [];
          events = s.events ++ created_event ∷ [];
        },
      )
  unfolding insert_new
  insert_new_fresh h = rw h

  IsLogged-insert :
      IsConsistent s
      → first_where (has_id rid) s.requests ≡ none
      → (k : String)
      → IsLogged
          (first_where (has_id k) (s.requests ++ new_row rid ts a ∷ []))
          (states_of k (s.events ++ created_event ∷ []))
  IsLogged-insert c h k = elim (Bool-cases (str_eq rid k)) [
    | inl same ↦
        subst
          (λ j.
            IsLogged (first_where (has_id j) (s.requests ++ new_row rid ts a ∷ []))
              (states_of j (s.events ++ created_event ∷ [])))
          ((eq_iff rid k).0 same)
          (rw
            (
              first_where-append_none (has_id rid) s.requests (new_row rid ts a ∷ []) h,
              states_of-append rid s.events created_event,
            )
            (rw (eq_refl rid) (
              let quiet : states_of rid s.events ≡ [] =
                subst (λ o. IsLogged o (states_of rid s.events)) h (c.logged rid) in
              rw quiet (refl, refl))))
    | inr ne ↦ other k ne (first_where (has_id k) s.requests) refl
  ]
    where
      other :
          (k : String)
          → str_eq rid k ≡ false
          → (o : Option Row) → first_where (has_id k) s.requests ≡ o
          → IsLogged
              (first_where (has_id k) (s.requests ++ new_row rid ts a ∷ []))
              (states_of k (s.events ++ created_event ∷ []))
      other k ne none e =
          rw
            (
              first_where-append_none (has_id k) s.requests (new_row rid ts a ∷ []) e,
              states_of-append k s.events created_event,
            )
            (rw ne (subst (λ o. IsLogged o (states_of k s.events)) e (c.logged k)))
      other k ne (some q) e =
          rw
            (
              first_where-append (has_id k) s.requests (new_row rid ts a ∷ []) q e,
              states_of-append k s.events created_event,
            )
            (rw ne (subst (λ o. IsLogged o (states_of k s.events)) e (c.logged k)))

  insert_new-IsConsistent : IsConsistent s → IsConsistent (insert_new rid ts now a s).1
  insert_new-IsConsistent c = go (first_where (has_id rid) s.requests) refl
    where
      go :
          (o : Option Row)
          → first_where (has_id rid) s.requests ≡ o
          → IsConsistent (insert_new rid ts now a s).1
      go (some q) e = unfold insert_new in rw e c
      go none e = rw (insert_new_fresh e) (record {
        distinct =
            Distinct-insert (λ (x : Row). x.request_id) (new_row rid ts a) s.requests c.distinct
              (first_where-none (has_id rid) s.requests e);
        logged = IsLogged-insert c e;
      })

  -- Creating a request, or retrying, keeps the ids unique and the event log a log of legal lives.
  pub create-IsConsistent : IsConsistent s → IsConsistent (create rid ts now a s).1
  unfolding create
  create-IsConsistent c = go (existing a s)
    where
      go :
          (o : Option Row)
          → IsConsistent
              (elim o as (λ _. Result Request × RequestStore) [
                | some row ↦ (row_to_request row, s)
                | none ↦ insert_new rid ts now a s
              ]).1
      go none = insert_new-IsConsistent c
      go (some r) = c
