-- ===== src/Requests/Consistency.antt =====
-- Request ids are unique, and the event log of each request is a legal life that ends in its state.
use mathlib.Core.Path.{subst}
use hermes_walkie_talkie.Prelude.{
  String, ◌≡◌, refl, inl, inr, false, Option, none, some, List, [], ◌∷◌, ◌++◌, arith, str_eq,
  eq_iff, eq_refl, if◌then◌else◌, Bool-cases,
}
use hermes_walkie_talkie.Table.{first_where}
use hermes_walkie_talkie.Table.Keys.{Distinct, Distinct-update}
use hermes_walkie_talkie.Table.Laws.{first_where-true, first_where-update, first_where-update_none}
use hermes_walkie_talkie.Errors.{ok}
use hermes_walkie_talkie.Workflows
use hermes_walkie_talkie.Workflows.{RequestState, created}
use hermes_walkie_talkie.Requests.{
  Row, RequestEvent, RequestStore, has_id, set_state, advance, empty,
}

-- `us` is a chain of legal transitions from s to t.
abbrev pub Follows : RequestState → List RequestState → RequestState → Type 0
Follows s [] t = s ≡ t
Follows s (u ∷ us) t = (Workflows.transition s u ≡ ok u) × Follows u us t

-- A life begins with `created`.
abbrev pub IsLife : List RequestState → RequestState → Type 0
IsLife [] t = ⊥
IsLife (c ∷ us) t = (c ≡ created) × Follows c us t

Follows-append :
    (s t u : RequestState) (us : List RequestState)
    → Follows s us t
    → Workflows.transition t u ≡ ok u
    → Follows s (us ++ u ∷ []) u
Follows-append s t u [] h e = (rw h e, refl)
Follows-append s t u (v ∷ us) h e = (h.0, Follows-append v t u us h.1 e)

pub IsLife-append :
    (t u : RequestState) (us : List RequestState)
    → IsLife us t
    → Workflows.transition t u ≡ ok u
    → IsLife (us ++ u ∷ []) u
IsLife-append t u [] h e = absurd h
IsLife-append t u (c ∷ us) h e = (h.0, Follows-append c t u us h.1 e)

abbrev pub states_of : String → List RequestEvent → List RequestState
states_of rid [] = []
states_of rid (e ∷ es) =
    let rest = states_of rid es in if str_eq e.request_id rid then e.state ∷ rest else rest

pub states_of-append :
    (rid : String) (es : List RequestEvent) (e : RequestEvent)
    → states_of rid (es ++ e ∷ [])
      ≡ (if str_eq e.request_id rid then states_of rid es ++ e.state ∷ [] else states_of rid es)
states_of-append rid [] e = refl
states_of-append rid (d ∷ es) e = ground (arith, states_of-append rid es e)

-- The log of a request that is stored is a life up to its state; no other id has events.
abbrev pub IsLogged : Option Row → List RequestState → Type 0
IsLogged none us = us ≡ []
IsLogged (some r) us = IsLife us r.state

pub record IsConsistent (s : RequestStore) : Type 0 where
  pub distinct : Distinct (λ r. r.request_id) s.requests
  pub logged :
      (rid : String) → IsLogged (first_where (has_id rid) s.requests) (states_of rid s.events)

pub empty-IsConsistent : IsConsistent empty
empty-IsConsistent = record { distinct = tt; logged = λ rid. refl }

-- The row of an id after `advance`.
pub first-advance :
    (rid k : String) (t : RequestState) (detail now : String) (s : RequestStore) (r : Row)
    → first_where (has_id k) s.requests ≡ some r
    → first_where (has_id k) (advance rid t detail now s).requests
      ≡ some (if has_id rid r then set_state t r else r)
unfolding advance
first-advance rid k t detail now s r h =
    first_where-update (has_id k) (has_id rid) (set_state t) s.requests r (λ x. refl) h

first-advance-none :
    (rid k : String) (t : RequestState) (detail now : String) (s : RequestStore)
    → first_where (has_id k) s.requests ≡ none
    → first_where (has_id k) (advance rid t detail now s).requests ≡ none
unfolding advance
first-advance-none rid k t detail now s h =
    first_where-update_none (has_id k) (has_id rid) (set_state t) s.requests (λ x. refl) h

states_of-advance :
    (rid k : String) (t : RequestState) (detail now : String) (s : RequestStore)
    → states_of k (advance rid t detail now s).events
      ≡ (if str_eq rid k then states_of k s.events ++ t ∷ [] else states_of k s.events)
unfolding advance
states_of-advance rid k t detail now s =
    states_of-append k s.events
      (record { request_id = rid; state = t; detail = detail; occurred_at = now })

module _ (rid : String) (t : RequestState) (detail now : String) (s : RequestStore) (r : Row) where
  IsLogged-self :
      IsConsistent s
      → first_where (has_id rid) s.requests ≡ some r
      → Workflows.transition r.state t ≡ ok t
      → IsLogged
          (first_where (has_id rid) (advance rid t detail now s).requests)
          (states_of rid (advance rid t detail now s).events)
  IsLogged-self c h e =
      let life : IsLife (states_of rid s.events) r.state =
        subst (λ o. IsLogged o (states_of rid s.events)) h (c.logged rid) in
      rw
        (
          first-advance rid rid t detail now s r h,
          first_where-true (has_id rid) s.requests r h,
          states_of-advance rid rid t detail now s,
        )
        (rw (eq_refl rid) (IsLife-append r.state t (states_of rid s.events) life e))

  IsLogged-other :
      (k : String)
      → IsConsistent s
      → str_eq rid k ≡ false
      → IsLogged
          (first_where (has_id k) (advance rid t detail now s).requests)
          (states_of k (advance rid t detail now s).events)
  IsLogged-other k c ne = go (first_where (has_id k) s.requests) refl (c.logged k)
    where
      go :
          (o : Option Row)
          → first_where (has_id k) s.requests ≡ o
          → IsLogged o (states_of k s.events)
          → IsLogged
              (first_where (has_id k) (advance rid t detail now s).requests)
              (states_of k (advance rid t detail now s).events)
      go none h l =
          rw (first-advance-none rid k t detail now s h, states_of-advance rid k t detail now s)
            (rw ne l)
      go (some q) h l =
          let other : has_id rid q ≡ false = ground (
            arith,
            eq_iff q.request_id rid,
            eq_iff rid k,
            eq_iff q.request_id k,
            first_where-true (has_id k) s.requests q h,
          ) in
          rw (first-advance rid k t detail now s q h, states_of-advance rid k t detail now s)
            (rw (ne, other) l)

  -- A legal transition of a stored request, with its event, keeps the log consistent.
  pub advance-IsConsistent :
      IsConsistent s
      → first_where (has_id rid) s.requests ≡ some r
      → Workflows.transition r.state t ≡ ok t
      → IsConsistent (advance rid t detail now s)
  unfolding advance
  advance-IsConsistent c h e = record {
    distinct =
        Distinct-update (λ (x : Row). x.request_id) (set_state t) (λ x. refl) (has_id rid)
          s.requests c.distinct;
    logged = λ k. elim (Bool-cases (str_eq rid k)) [
      | inl same ↦
          subst
            (λ j.
              IsLogged (first_where (has_id j) (advance rid t detail now s).requests)
                (states_of j (advance rid t detail now s).events))
            ((eq_iff rid k).0 same) (IsLogged-self c h e)
      | inr ne ↦ IsLogged-other k c ne
    ];
  }
