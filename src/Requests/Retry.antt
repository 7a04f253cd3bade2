-- ===== src/Requests/Retry.antt =====
-- Idempotent retries of `create` of agent_peer/requests.py.
use hermes_walkie_talkie.Prelude.{
  String, ◌≡◌, refl, ◌∙◌, true, false, ◌||◌, Option, none, some, List, [], ◌∷◌, arith, str_eq,
  eq_refl,
}
use hermes_walkie_talkie.Table.{first_where}
use hermes_walkie_talkie.Table.Laws.{first_where-append_none}
use hermes_walkie_talkie.Errors.{ok, err, validation_error}
use hermes_walkie_talkie.Workflows.{RequestState}
use hermes_walkie_talkie.Requests.{
  Row, Request, RequestStore, CreateArgs, has_id, has_idempotency, set_state, create, insert_new,
  existing, row_to_request, new_row,
}
use hermes_walkie_talkie.Requests.Consistency.{IsConsistent}
use hermes_walkie_talkie.Requests.Creation.{create-IsConsistent, insert_new_fresh}
use hermes_walkie_talkie.Requests.History.{Call, run}
use hermes_walkie_talkie.Requests.Identity.{run-Keeps}

row_to_request-set_state :
    (r : Row) (t : RequestState) (q : Request)
    → row_to_request r ≡ ok q
    → row_to_request (set_state t r) ≡ ok (record q { state = t })
unfolding row_to_request
row_to_request-set_state r t q h = ground arith

module _ (rid ts now : String) (a : CreateArgs) (s : RequestStore) where
  pub create-eq-insert :
      str_eq a.idempotency_key "" ≡ false
      → first_where (has_idempotency a.sender_agent_id a.idempotency_key) s.requests ≡ none
      → create rid ts now a s ≡ insert_new rid ts now a s
  unfolding create
  create-eq-insert k e = ground arith

  pub create-eq-stored :
      (r : Row)
      → str_eq a.idempotency_key "" ≡ false
      → first_where (has_idempotency a.sender_agent_id a.idempotency_key) s.requests ≡ some r
      → create rid ts now a s ≡ (row_to_request r, s)
  unfolding create
  create-eq-stored r k e = ground arith

invalid_row :
    (rid ts : String) (a : CreateArgs)
    → (str_eq a.sender_agent_id "" || str_eq a.recipient_agent_id "") ≡ true
    → row_to_request (new_row rid ts a) ≡ err validation_error
unfolding row_to_request
invalid_row rid ts a h = ground arith

module _ (rid ts now : String) (a : CreateArgs) (s : RequestStore) (q : Request) where
  abbrev IsStored : RequestStore → Type 0
  IsStored s' =
      (r : Row) × (first_where (has_idempotency a.sender_agent_id a.idempotency_key) s'.requests
        ≡ some r)
      × (row_to_request r ≡ ok q)

  IsStored-new :
      (o : Option Row)
      → str_eq a.idempotency_key "" ≡ false
      → first_where (has_idempotency a.sender_agent_id a.idempotency_key) s.requests ≡ none
      → first_where (has_id rid) s.requests ≡ o
      → (insert_new rid ts now a s).0 ≡ ok q
      → IsStored (insert_new rid ts now a s).1
  unfolding insert_new
  IsStored-new (some r) k n e h = cc (rw e at h)
  IsStored-new none k n e h = rw e (
    new_row rid ts a,
    first_where-append_none (has_idempotency a.sender_agent_id a.idempotency_key) s.requests
          (new_row rid ts a ∷ []) n
        ∙ rw k (rw (eq_refl a.sender_agent_id) (rw (eq_refl a.idempotency_key))),
    rw e at h,
  )

  stored :
      (o : Option Row)
      → str_eq a.idempotency_key "" ≡ false
      → first_where (has_idempotency a.sender_agent_id a.idempotency_key) s.requests ≡ o
      → (create rid ts now a s).0 ≡ ok q
      → IsStored (create rid ts now a s).1
  stored none k e h = rw (create-eq-insert rid ts now a s k e) (
      IsStored-new (first_where (has_id rid) s.requests) k e refl
        (rw (create-eq-insert rid ts now a s k e) at h))
  stored (some r) k e h =
      rw (create-eq-stored rid ts now a s r k e)
        (r, e, rw (create-eq-stored rid ts now a s r k e) at h)

-- Once a keyed `create` has returned a request, a later `create` of the same sender and key returns
-- that request again, with the state of the row that is stored under them at that time, and writes
-- nothing, whatever calls came between and whatever the other arguments are.
pub create_retry :
    (rid ts now rid' ts' now' : String) (a b : CreateArgs) (s : RequestStore) (q : Request)
    (cs : List Call)
    → IsConsistent s
    → str_eq a.idempotency_key "" ≡ false
    → (create rid ts now a s).0 ≡ ok q
    → b.sender_agent_id ≡ a.sender_agent_id
    → b.idempotency_key ≡ a.idempotency_key
    → let s' = run cs (create rid ts now a s).1 in
      (row : Row) × (first_where (has_idempotency a.sender_agent_id a.idempotency_key) s'.requests
        ≡ some row)
      × (create rid' ts' now' b s' ≡ (ok (record q { state = row.state }), s'))
create_retry rid ts now rid' ts' now' a b s q cs c k h same_sender same_key =
    let (r, e, back) =
      stored rid ts now a s q
        (first_where (has_idempotency a.sender_agent_id a.idempotency_key) s.requests) k refl h in
    let (t, later) =
      run-Keeps (has_idempotency a.sender_agent_id a.idempotency_key) (λ t x. refl) cs
        (create rid ts now a s).1 r (create-IsConsistent rid ts now a s c) e in
    (
      set_state t r,
      later,
      create-eq-stored rid' ts' now' b (run cs (create rid ts now a s).1) (set_state t r)
            (rw same_key k) (rw (same_sender, same_key) later)
          ∙ rw (row_to_request-set_state r t q back),
    )

-- A request whose sender or recipient is empty is refused with a ValidationError, but only after
-- its row and event are committed: if it is no retry and the id is new, the row stays stored.
pub create_invalid_stored :
    (rid ts now : String) (a : CreateArgs) (s : RequestStore)
    → existing a s ≡ none
    → first_where (has_id rid) s.requests ≡ none
    → (str_eq a.sender_agent_id "" || str_eq a.recipient_agent_id "") ≡ true
    → ((create rid ts now a s).0 ≡ err validation_error)
      × (first_where (has_id rid) (create rid ts now a s).1.requests ≡ some (new_row rid ts a))
unfolding create
create_invalid_stored rid ts now a s e f bad =
    rw (e, create, insert_new_fresh rid ts now a s f)
      (
        invalid_row rid ts a bad,
        first_where-append_none (has_id rid) s.requests (new_row rid ts a ∷ []) f
            ∙ rw (eq_refl rid),
      )
