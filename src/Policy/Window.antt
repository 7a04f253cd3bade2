-- ===== src/Policy/Window.antt =====
-- The sliding window of `RateLimiter`.
use mathlib.Core.List.{append-nil, append_assoc}
use mathlib.Core.Path.{subst, subst₂}
use hermes_walkie_talkie.Prelude.{
  ℕ, ◌≤◌, ◌<◌, String, ◌≡◌, refl, sym, inl, inr, Bool, true, false, ◌&&◌, List, [], ◌∷◌, ◌++◌,
  arith, str_eq, eq_iff, eq_refl, if◌then◌else◌, Bool-cases, length,
}
use hermes_walkie_talkie.Table.{count_where}
use hermes_walkie_talkie.Policy.Deque.{
  in_window, Covers, IsBounded, IsBounded-accept, Covers-accept, Covers-prune,
}
use hermes_walkie_talkie.Policy.{RateLimiter, prune, admits, allow}

-- A call of `allow`: sender, recipient and time.
pub record Call : Type 0 where
  pub sender : String
  pub recipient : String
  pub now : ℕ

-- The times of the calls for one pair that are allowed.
abbrev pub accepted : String → String → List Call → RateLimiter → List ℕ
accepted s r [] l = []
accepted s r (c ∷ cs) l =
    let rest = accepted s r cs (allow c.sender c.recipient c.now l).1 in
    if (allow c.sender c.recipient c.now l).0 && (str_eq s c.sender && str_eq r c.recipient)
    then c.now ∷ rest
    else rest

-- The monotonic clock does not go back.
abbrev pub Rises : ℕ → List Call → Type 0
Rises last [] = Unit
Rises last (c ∷ cs) = (last ≤ c.now) × Rises c.now cs

abbrev is_pair : String → String → Call → Bool
is_pair s r c = str_eq s c.sender && str_eq r c.recipient

-- What one call does to the deque of a pair.
abbrev pub pruned : String → String → ℕ → RateLimiter → List ℕ
pruned s r now l = prune l.window now (l.events s r)

allow_other :
    (s r : String) (c : Call) (l : RateLimiter)
    → is_pair s r c ≡ false
    → (allow c.sender c.recipient c.now l).1.events s r ≡ l.events s r
unfolding allow
allow_other s r c l h = elim (Bool-cases (admits l c.now (pruned c.sender c.recipient c.now l))) [
  | inl e ↦ rw e (rw h)
  | inr e ↦ rw e (rw h)
]

pub allow_limits :
    (s r : String) (now : ℕ) (l : RateLimiter)
    → ((allow s r now l).1.window ≡ l.window) × ((allow s r now l).1.sustained ≡ l.sustained)
unfolding allow
allow_limits s r now l = elim (Bool-cases (admits l now (pruned s r now l))) [
  | inl e ↦ rw e (refl, refl)
  | inr e ↦ rw e (refl, refl)
]

pub allow_iff_admits :
    (s r : String) (now : ℕ) (l : RateLimiter)
    → (allow s r now l).0 ≡ admits l now (pruned s r now l)
unfolding allow
allow_iff_admits s r now l = elim (Bool-cases (admits l now (pruned s r now l))) [
  | inl e ↦ rw e
  | inr e ↦ rw e
]

pub events-allow :
    (s r : String) (now : ℕ) (l : RateLimiter)
    → (allow s r now l).1.events s r
      ≡ (if admits l now (pruned s r now l) then pruned s r now l ++ now ∷ [] else pruned s r now l)
unfolding allow
events-allow s r now l = elim (Bool-cases (admits l now (pruned s r now l))) [
  | inl e ↦ rw e (rw (eq_refl s) (rw (eq_refl r)))
  | inr e ↦ rw e (rw (eq_refl s) (rw (eq_refl r)))
]

admits_room :
    (l : RateLimiter) (now : ℕ) (ts : List ℕ) → admits l now ts ≡ true → length ts < l.sustained
admits_room l now ts h = ground arith

abbrev gain : Bool → ℕ → List ℕ
gain b now = if b then now ∷ [] else []

-- One call of the pair keeps the window bounded, and the deque covering what it accepted.
module _ (s r : String) (now : ℕ) (l : RateLimiter) (last : ℕ) (before : List ℕ) where
  step_mine :
      (b : Bool)
      → admits l now (pruned s r now l) ≡ b
      → last ≤ now
      → Covers l.window before (l.events s r) last
      → IsBounded l.window l.sustained before
      → Covers l.window
          (before ++ gain (allow s r now l).0 now)
          ((allow s r now l).1.events s r)
          now
        × IsBounded l.window l.sustained (before ++ gain (allow s r now l).0 now)
  step_mine true e le c b =
      rw (allow_iff_admits s r now l, events-allow s r now l)
        (rw e (
          Covers-accept l.window l.sustained before (l.events s r) last now c le,
          IsBounded-accept l.window l.sustained before (l.events s r) last now c le
              (admits_room l now (pruned s r now l) e) b,
        ))
  step_mine false e le c b =
      rw (allow_iff_admits s r now l, events-allow s r now l)
        (rw (e, append-nil before)
          (Covers-prune l.window l.sustained before (l.events s r) last now c le, b))

and-false : (b : Bool) → (b && false) ≡ false
and-false b = ground arith

and-true : (b : Bool) → (b && true) ≡ b
and-true b = ground arith

step_any :
    (s r : String) (k : Call) (l : RateLimiter) (last : ℕ) (before : List ℕ) (mine : Bool)
    → is_pair s r k ≡ mine
    → last ≤ k.now
    → Covers l.window before (l.events s r) last
    → IsBounded l.window l.sustained before
    → let inc = gain ((allow k.sender k.recipient k.now l).0 && mine) k.now in
      Covers l.window (before ++ inc) ((allow k.sender k.recipient k.now l).1.events s r) k.now
      × IsBounded l.window l.sustained (before ++ inc)
step_any s r k l last before false m le c b =
    rw (and-false (allow k.sender k.recipient k.now l).0, append-nil before, allow_other s r k l m)
      ((λ now le'. c now (omega arith)), b)
step_any s r k l last before true m le c b =
    let p : s ≡ k.sender = ground (arith, eq_iff s k.sender) in
    let q : r ≡ k.recipient = ground (arith, eq_iff r k.recipient) in
    rw (and-true (allow k.sender k.recipient k.now l).0) (
      subst₂
        (λ x y.
          Covers l.window (before ++ gain (allow x y k.now l).0 k.now)
            ((allow x y k.now l).1.events s r) k.now
          × IsBounded l.window l.sustained (before ++ gain (allow x y k.now l).0 k.now))
        p q (step_mine s r k.now l last before (admits l k.now (pruned s r k.now l)) refl le c b))

accepted-cons :
    (s r : String) (k : Call) (cs : List Call) (l : RateLimiter) (before : List ℕ)
    → before ++ accepted s r (k ∷ cs) l
      ≡ (before ++ gain ((allow k.sender k.recipient k.now l).0 && is_pair s r k) k.now)
        ++ accepted s r cs (allow k.sender k.recipient k.now l).1
accepted-cons s r k cs l before =
    elim (Bool-cases ((allow k.sender k.recipient k.now l).0 && is_pair s r k)) [
      | inl e ↦ rw e (
          sym (
            append_assoc before (k.now ∷ [])
              (accepted s r cs (allow k.sender k.recipient k.now l).1)))
      | inr e ↦ rw e (rw (append-nil before))
    ]

-- How many calls of a pair the limiter allows in any window, from the state of its deque.
accepted-IsBounded :
    (s r : String) (cs : List Call) (l : RateLimiter) (last : ℕ) (before : List ℕ)
    → Rises last cs
    → Covers l.window before (l.events s r) last
    → IsBounded l.window l.sustained before
    → IsBounded l.window l.sustained (before ++ accepted s r cs l)
accepted-IsBounded s r [] l last before up c b = rw (append-nil before) b
accepted-IsBounded s r (k ∷ cs) l last before up c b =
    let (c', b') = step_any s r k l last before (is_pair s r k) refl up.0 c b in
    let l' = (allow k.sender k.recipient k.now l).1 in
    let inc = before ++ gain ((allow k.sender k.recipient k.now l).0 && is_pair s r k) k.now in
    let (same_window, same_limit) = allow_limits k.sender k.recipient k.now l in
    rw (accepted-cons s r k cs l before) (
      subst₂ (λ w n. IsBounded w n (inc ++ accepted s r cs l')) same_window same_limit
        (accepted-IsBounded s r cs l' k.now inc up.1
          (subst (λ w. Covers w inc (l'.events s r) k.now) (sym same_window) c')
          (subst₂ (λ w n. IsBounded w n inc) (sym same_window) (sym same_limit) b')))

-- With a clock that does not go back, no window of the limiter's length, wherever it ends, holds
-- more than `sustained` allowed calls of one pair, whatever calls of other pairs come between. The
-- limiter starts with an empty deque for the pair.
pub accepted_bounded :
    (s r : String) (cs : List Call) (l : RateLimiter) (now : ℕ)
    → Rises 0 cs
    → l.events s r ≡ []
    → count_where (in_window l.window now) (accepted s r cs l) ≤ l.sustained
accepted_bounded s r cs l now up e =
    accepted-IsBounded s r cs l 0 [] up (λ later h. omega arith) (λ later. omega arith) now
