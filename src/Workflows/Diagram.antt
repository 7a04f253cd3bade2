-- ===== src/Workflows/Diagram.antt =====
-- The decision table of agent_peer/workflows.py as a relation, and its paths.
use hermes_walkie_talkie.Prelude.{
  ℕ, zero, suc, ◌+◌, ◌≤◌, ◌<◌, ◌≡◌, refl, sym, ap, ◌∙◌, ◌↔◌, true, false, arith,
}
use hermes_walkie_talkie.Errors.{ok}
use hermes_walkie_talkie.Workflows.{
  RequestState, created, queued, accepted, in_progress, completed, failed, refused, cancelled,
  expired, is_terminal, can_transition, transition,
}

pub data IsActive : RequestState → Type 0 where
  created_active : IsActive created
  queued_active : IsActive queued
  accepted_active : IsActive accepted
  in_progress_active : IsActive in_progress

-- The entries of `_TRANSITIONS`: the main line, and the ways out of it.
infix 40 ◌⟶◌
pub data ◌⟶◌ : RequestState → RequestState → Type 0 where
  enqueue : created ⟶ queued
  accept : queued ⟶ accepted
  progress : accepted ⟶ in_progress
  complete : in_progress ⟶ completed
  refuse : queued ⟶ refused
  fail_before_start : accepted ⟶ failed
  fail : in_progress ⟶ failed
  cancel : {s : RequestState} → IsActive s → s ⟶ cancelled
  expiry : {s : RequestState} → IsActive s → s ⟶ expired

ruleset edges = (
  enqueue, accept, progress, complete, refuse, fail_before_start, fail, cancel, expiry,
  created_active, queued_active, accepted_active, in_progress_active,
)

pub transition-⟶ : (s t u : RequestState) → transition s t ≡ ok u → (s ⟶ t) × (u ≡ t)
unfolding transition
transition-⟶ s t u h = grind (arith, edges)

pub ⟶-transition : (s t : RequestState) → s ⟶ t → transition s t ≡ ok t
unfolding transition
⟶-transition _ _ enqueue = refl
⟶-transition _ _ accept = refl
⟶-transition _ _ progress = refl
⟶-transition _ _ complete = refl
⟶-transition _ _ refuse = refl
⟶-transition _ _ fail_before_start = refl
⟶-transition _ _ fail = refl
⟶-transition _ _ (cancel created_active) = refl
⟶-transition _ _ (cancel queued_active) = refl
⟶-transition _ _ (cancel accepted_active) = refl
⟶-transition _ _ (cancel in_progress_active) = refl
⟶-transition _ _ (expiry created_active) = refl
⟶-transition _ _ (expiry queued_active) = refl
⟶-transition _ _ (expiry accepted_active) = refl
⟶-transition _ _ (expiry in_progress_active) = refl

-- `transition` grants exactly the entries of the table, and returns the target state.
pub transition_iff : (s t u : RequestState) → (transition s t ≡ ok u) ↔ ((s ⟶ t) × (u ≡ t))
transition_iff s t u = (transition-⟶ s t u, λ h. ⟶-transition s t h.0 ∙ ap ok (sym h.1))

terminal_closed :
    (s : RequestState) → is_terminal s ≡ true → (t : RequestState) → can_transition s t ≡ false
unfolding is_terminal can_transition
terminal_closed s h t = ground arith

closed_terminal :
    (s : RequestState) → ((t : RequestState) → can_transition s t ≡ false) → is_terminal s ≡ true
unfolding is_terminal can_transition
closed_terminal s h = ground (arith, h expired)

-- A state is terminal exactly when the table has no transition out of it.
pub is_terminal_iff :
    (s : RequestState) → (is_terminal s ≡ true) ↔ ((t : RequestState) → can_transition s t ≡ false)
is_terminal_iff s = (terminal_closed s, closed_terminal s)

-- How far a state is along the main line.
pub rank : RequestState → ℕ
rank created = 0
rank queued = 1
rank accepted = 2
rank in_progress = 3
rank _ = 4

-- A path of n legal transitions.
pub data Steps : ℕ → RequestState → RequestState → Type 0 where
  here : {s : RequestState} → Steps zero s s
  step : {n : ℕ} {s t u : RequestState} → transition s t ≡ ok t → Steps n t u → Steps (suc n) s u

transition-rank : (s t : RequestState) → transition s t ≡ ok t → rank s < rank t
unfolding transition rank
transition-rank s t h = ground arith

Steps-rank : (n : ℕ) (s u : RequestState) → Steps n s u → rank s + n ≤ rank u
Steps-rank n s u here = omega arith
Steps-rank (suc n) s u (step {t = t} e p) = omega (arith, transition-rank s t e, Steps-rank n t u p)

rank-le : (s : RequestState) → rank s ≤ 4
unfolding rank
rank-le s = ground arith

-- However transitions are composed, a request makes at most four of them in its life, from whatever
-- state it starts.
pub Steps-le : (n : ℕ) (s u : RequestState) → Steps n s u → n ≤ 4
Steps-le n s u p = omega (arith, Steps-rank n s u p, rank-le u)

pub no_edge_of_terminal : (s t : RequestState) → is_terminal s ≡ true → transition s t ≡ ok t → ⊥
unfolding is_terminal transition
no_edge_of_terminal s t h e = ground arith
