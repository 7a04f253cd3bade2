-- ===== src/Policy/Decisions.antt =====
-- The delivery decisions of agent_peer/policy.py.
use hermes_walkie_talkie.Prelude.{ℕ, ◌≤◌, ◌<◌, ◌≡◌, ap, ◌↔◌, ◌⊎◌, true, arith}
use hermes_walkie_talkie.Models.{Envelope, Policy}
use hermes_walkie_talkie.Models.ReceiptStates.{ReceiptState}
use hermes_walkie_talkie.Policy.{PolicyEngine, DeliveryDecision, Action, allow, evaluate, decision}

-- The three tests before the policy, and the inbox bound.
pub record IsAdmitted (now tick : ℕ) (e : Envelope) (p : PolicyEngine) : Type 0 where
  pub fresh : now < e.expires_at
  pub hops : e.hop_count < p.max_hop_count
  pub rate : (allow e.sender.peer_id e.recipient_peer_id tick p.limiter).0 ≡ true
  pub room : p.pending e.recipient_peer_id < p.capacity

IsAdmitted-iff_forwarded :
    (now tick : ℕ) (e : Envelope) (p : PolicyEngine)
    → (evaluate now tick e p).0.action ≡ Action.forward
    → IsAdmitted now tick e p × (p.policy ≡ Policy.accept)
unfolding evaluate
IsAdmitted-iff_forwarded now tick e p h = ground arith

forwarded :
    (now tick : ℕ) (e : Envelope) (p : PolicyEngine)
    → IsAdmitted now tick e p
    → p.policy ≡ Policy.accept
    → (evaluate now tick e p).0 ≡ decision e ReceiptState.queued Action.forward
unfolding evaluate
forwarded now tick e p a h = ground arith

-- An envelope is forwarded to the host exactly when it has not expired, has hops left, is within the
-- rate limit, finds room in the inbox, and the policy is to accept; its state is then `queued`.
pub forward_iff :
    (now tick : ℕ) (e : Envelope) (p : PolicyEngine)
    → ((evaluate now tick e p).0 ≡ decision e ReceiptState.queued Action.forward)
      ↔ (IsAdmitted now tick e p × (p.policy ≡ Policy.accept))
forward_iff now tick e p = (
  λ h. IsAdmitted-iff_forwarded now tick e p (ap (λ (d : DeliveryDecision). d.action) h),
  λ h. forwarded now tick e p h.0 h.1,
)

-- A decision changes nothing but the limiter, and an envelope that has expired or has no hops left
-- is dropped without using up the rate of its sender.
pub evaluate_state :
    (now tick : ℕ) (e : Envelope) (p : PolicyEngine)
    → let p' = (evaluate now tick e p).1 in
      (p'.policy ≡ p.policy)
      × (p'.capacity ≡ p.capacity)
      × (p'.pending ≡ p.pending)
      × ((e.expires_at ≤ now) ⊎ (p.max_hop_count ≤ e.hop_count) → p'.limiter ≡ p.limiter)
unfolding evaluate
evaluate_state now tick e p = (ground arith, ground arith, ground arith, λ h. ground arith)
