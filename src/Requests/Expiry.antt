-- ===== src/Requests/Expiry.antt =====
-- `expire_overdue` of agent_peer/requests.py.
use hermes_walkie_talkie.Prelude.{
  ◌+◌, String, ◌≡◌, refl, ◌∙◌, true, false, some, List, [], ◌∷◌, map, arith, str_eq, All, All-imp,
}
use hermes_walkie_talkie.Table.{select_where, first_where, count_where, update_where}
use hermes_walkie_talkie.Table.Keys.{
  Distinct, update_each, update_each-eq-update, Distinct-select, select-IsFound,
}
use hermes_walkie_talkie.Table.Laws.{length-select}
use hermes_walkie_talkie.Errors.{ok}
use hermes_walkie_talkie.Workflows
use hermes_walkie_talkie.Workflows.{RequestState, expired}
use hermes_walkie_talkie.Requests.{
  Row, RequestStore, has_id, set_state, advance, is_active, is_overdue, expire_each, expire_overdue,
  count_active,
}
use hermes_walkie_talkie.Requests.Consistency.{IsConsistent, advance-IsConsistent, first-advance}

abbrev id_of : Row → String
id_of r = r.request_id

requests-expire_each :
    (rids : List String) (now : String) (s : RequestStore)
    → (expire_each rids now s).requests
      ≡ update_each id_of (set_state expired) (λ x. refl) rids s.requests
unfolding expire_each advance
requests-expire_each [] now s = refl
requests-expire_each (rid ∷ rids) now s =
    requests-expire_each rids now (advance rid expired "deadline passed" now s)

-- The loop over single requests does to the table what one UPDATE of all overdue rows would do.
pub requests-expire_overdue :
    (ref now : String) (s : RequestStore)
    → Distinct id_of s.requests
    → (expire_overdue ref now s).1.requests
      ≡ update_where (is_overdue ref) (set_state expired) s.requests
unfolding expire_overdue
requests-expire_overdue ref now s d =
    requests-expire_each (map id_of (select_where (is_overdue ref) s.requests)) now s
    ∙ update_each-eq-update id_of (set_state expired) (λ x. refl) (is_overdue ref) s.requests d

none_overdue :
    (ref : String) (rs : List Row)
    → count_where (is_overdue ref) (update_where (is_overdue ref) (set_state expired) rs) ≡ 0
none_overdue ref [] = refl
none_overdue ref (r ∷ rs) = ground (arith, none_overdue ref rs)

active_left :
    (ref : String) (rs : List Row)
    → count_where (λ r. is_active r.state) (update_where (is_overdue ref) (set_state expired) rs)
        + count_where (is_overdue ref) rs
      ≡ count_where (λ r. is_active r.state) rs
active_left ref [] = omega arith
active_left ref (r ∷ rs) = ground (arith, active_left ref rs)

count-expire_overdue :
    (ref now : String) (s : RequestStore)
    → (expire_overdue ref now s).0 ≡ count_where (is_overdue ref) s.requests
unfolding expire_overdue
count-expire_overdue ref now s = length-select (is_overdue ref) s.requests

-- After `expire_overdue` no active request is past the deadline, and the number that it returns is
-- by how much the count of active requests fell.
pub expire_overdue_lem :
    (ref now : String) (s : RequestStore)
    → IsConsistent s
    → let (n, s') = expire_overdue ref now s in
      (count_where (is_overdue ref) s'.requests ≡ 0) × (count_active s' + n ≡ count_active s)
unfolding count_active
expire_overdue_lem ref now s c =
    rw (requests-expire_overdue ref now s c.distinct) (
      none_overdue ref s.requests,
      rw (count-expire_overdue ref now s) (active_left ref s.requests),
    )

abbrev IsOverdueRow : RequestStore → Row → Type 0
IsOverdueRow s r =
    (first_where (has_id r.request_id) s.requests ≡ some r) × (is_active r.state ≡ true)

expire_of_active :
    (t : RequestState) → is_active t ≡ true → Workflows.transition t expired ≡ ok expired
unfolding Workflows.transition
expire_of_active t h = ground arith

-- Expiring another request leaves a row where it was.
stays_found :
    (rid now : String) (s : RequestStore) (r : Row)
    → str_eq r.request_id rid ≡ false
    → IsOverdueRow s r
    → IsOverdueRow (advance rid expired "deadline passed" now s) r
stays_found rid now s r ne h =
    (first-advance rid r.request_id expired "deadline passed" now s r h.0 ∙ rw ne, h.1)

stay_found :
    (rid now : String) (s : RequestStore) (rs : List Row)
    → count_where (has_id rid) rs ≡ 0
    → All (IsOverdueRow s) rs
    → All (IsOverdueRow (advance rid expired "deadline passed" now s)) rs
stay_found rid now s [] z a = tt
stay_found rid now s (r ∷ rs) z a =
    (stays_found rid now s r (ground arith) a.0, stay_found rid now s rs (ground arith) a.1)

expire_each-IsConsistent :
    (rs : List Row) (now : String) (s : RequestStore)
    → Distinct id_of rs
    → All (IsOverdueRow s) rs
    → IsConsistent s
    → IsConsistent (expire_each (map id_of rs) now s)
unfolding expire_each
expire_each-IsConsistent [] now s d a c = c
expire_each-IsConsistent (r ∷ rs) now s d a c =
    expire_each-IsConsistent rs now (advance r.request_id expired "deadline passed" now s) d.1
      (stay_found r.request_id now s rs d.0 a.1)
      (advance-IsConsistent r.request_id expired "deadline passed" now s r c a.0.0
        (expire_of_active r.state a.0.1))

-- Expiry keeps the event log a log of legal lives.
pub expire_overdue-IsConsistent :
    (ref now : String) (s : RequestStore)
    → IsConsistent s
    → IsConsistent (expire_overdue ref now s).1
unfolding expire_overdue
expire_overdue-IsConsistent ref now s c =
    expire_each-IsConsistent (select_where (is_overdue ref) s.requests) now s
      (Distinct-select id_of (is_overdue ref) s.requests c.distinct)
      (All-imp _ _ (select_where (is_overdue ref) s.requests) (λ r h. (h.0, ground arith))
        (select-IsFound id_of (is_overdue ref) s.requests c.distinct))
      c
