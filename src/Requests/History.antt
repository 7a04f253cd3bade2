-- ===== src/Requests/History.antt =====
-- Whole histories of the request tables: any sequence of calls of agent_peer/requests.py.
use hermes_walkie_talkie.Prelude.{◌≤◌, String, Option, none, some, List, [], ◌∷◌, arith, length}
use hermes_walkie_talkie.Workflows.{RequestState}
use hermes_walkie_talkie.Workflows.Diagram.{Steps, Steps-le}
use hermes_walkie_talkie.Requests.{
  Row, RequestStore, CreateArgs, create, transition, expire_overdue, empty,
}
use hermes_walkie_talkie.Requests.Consistency.{
  IsConsistent, IsLife, Follows, IsLogged, states_of, empty-IsConsistent,
}
use hermes_walkie_talkie.Requests.Creation.{create-IsConsistent}
use hermes_walkie_talkie.Requests.Transitions.{transition-IsConsistent}
use hermes_walkie_talkie.Requests.Expiry.{expire_overdue-IsConsistent}

-- A call that writes, with the id and the clock readings that it uses.
pub data Call : Type 0 where
  creates : String → String → String → CreateArgs → Call
  transitions : String → String → String → String → Call
  expires : String → String → Call

abbrev pub perform : Call → RequestStore → RequestStore
perform (creates rid ts now a) s = (create rid ts now a s).1
perform (transitions rid target detail now) s = (transition rid target detail now s).1
perform (expires ref now) s = (expire_overdue ref now s).1

abbrev pub run : List Call → RequestStore → RequestStore
run [] s = s
run (c ∷ cs) s = run cs (perform c s)

pub perform-IsConsistent :
    (c : Call) (s : RequestStore) → IsConsistent s → IsConsistent (perform c s)
perform-IsConsistent (creates rid ts now a) s h = create-IsConsistent rid ts now a s h
perform-IsConsistent (transitions rid target detail now) s h =
    transition-IsConsistent rid target detail now s h
perform-IsConsistent (expires ref now) s h = expire_overdue-IsConsistent ref now s h

-- After any calls on a consistent store, ids are unique and the events of every stored request are
-- a legal life, from `created` to the state of the request.
pub run-IsConsistent :
    (cs : List Call) (s : RequestStore) → IsConsistent s → IsConsistent (run cs s)
run-IsConsistent [] s h = h
run-IsConsistent (c ∷ cs) s h = run-IsConsistent cs (perform c s) (perform-IsConsistent c s h)

Follows-Steps :
    (s t : RequestState) (us : List RequestState) → Follows s us t → Steps (length us) s t
Follows-Steps s t [] h = rw h (Steps.here)
Follows-Steps s t (u ∷ us) h = Steps.step h.0 (Follows-Steps u t us h.1)

IsLife-le : (us : List RequestState) (t : RequestState) → IsLife us t → length us ≤ 5
IsLife-le [] t h = absurd h
IsLife-le (c ∷ us) t h = omega (arith, Steps-le (length us) c t (Follows-Steps c t us h.1))

IsLogged-le : (o : Option Row) (us : List RequestState) → IsLogged o us → length us ≤ 5
IsLogged-le none us h = rw h (omega arith)
IsLogged-le (some r) us h = IsLife-le us r.state h

-- However many calls are made, the event log of one request never has more than five events.
pub length-events-le :
    (cs : List Call) (rid : String) → length (states_of rid (run cs empty).events) ≤ 5
length-events-le cs rid =
    IsLogged-le _ _ ((run-IsConsistent cs empty empty-IsConsistent).logged rid)
