-- ===== src/Policy/Burst.antt =====
-- The burst gate of `RateLimiter.allow`.
use hermes_walkie_talkie.Prelude.{
  ℕ, zero, suc, ◌+◌, ◌≤◌, ◌<◌, String, ◌≡◌, refl, ap, ◌∙◌, true, List, [], ◌∷◌, ◌++◌, arith,
  eq_refl, length, length-append,
}
use hermes_walkie_talkie.Policy.{RateLimiter, prune, admits, allow, second}
use hermes_walkie_talkie.Policy.Window.{
  Call, accepted, allow_iff_admits, events-allow, allow_limits, pruned,
}

abbrev pub replicate {ℓ} : {A : Type ℓ} → ℕ → A → List A
replicate zero a = []
replicate (suc n) a = a ∷ replicate n a

abbrev pub call_at : String → String → ℕ → Call
call_at s r now = record { sender = s; recipient = r; now = now }

prune_kept : (w now t : ℕ) (ts : List ℕ) → now < t + w → prune w now (t ∷ ts) ≡ t ∷ ts
unfolding prune
prune_kept w now t ts h = ground arith

gate_open :
    (l : RateLimiter) (now t : ℕ) (ts : List ℕ)
    → t + second ≤ now
    → suc (length ts) < l.sustained
    → admits l now (t ∷ ts) ≡ true
gate_open l now t ts h k = ground arith

burst_allowed :
    (s r : String) (n now t : ℕ) (ts : List ℕ) (l : RateLimiter)
    → l.events s r ≡ t ∷ ts
    → t + second ≤ now
    → now < t + l.window
    → length ts + n < l.sustained
    → accepted s r (replicate n (call_at s r now)) l ≡ replicate n now
burst_allowed s r zero now t ts l e a b k = refl
burst_allowed s r (suc n) now t ts l e a b k =
    let same : pruned s r now l ≡ t ∷ ts = rw e (prune_kept l.window now t ts b) in
    let open_gate : admits l now (pruned s r now l) ≡ true =
      rw same (gate_open l now t ts a (omega arith)) in
    let l' = (allow s r now l).1 in
    let (w, u) = allow_limits s r now l in
    let deque : l'.events s r ≡ t ∷ (ts ++ now ∷ []) =
      events-allow s r now l ∙ rw open_gate (rw same) in
    let rest =
      burst_allowed s r n now t (ts ++ now ∷ []) l' deque a (rw w b)
        (rw u (omega (arith, length-append ts (now ∷ [])))) in
    rw (allow_iff_admits s r now l, open_gate, eq_refl s, eq_refl r) (ap (λ xs. now ∷ xs) rest)

-- The burst gate compares the time with the oldest event of the window only. One allowed message that
-- is a second old switches it off: any number of calls at one instant is then allowed, above `burst`
-- too, as long as the window's limit is not reached.
pub burst_gate_off :
    (s r : String) (n t now : ℕ) (l : RateLimiter)
    → l.events s r ≡ t ∷ []
    → t + second ≤ now
    → now < t + l.window
    → n < l.sustained
    → accepted s r (replicate n (call_at s r now)) l ≡ replicate n now
burst_gate_off s r n t now l e a b k = burst_allowed s r n now t [] l e a b (omega arith)
