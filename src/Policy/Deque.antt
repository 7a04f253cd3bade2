-- ===== src/Policy/Deque.antt =====
-- The deque of a pair in `RateLimiter`: what `_prune` keeps of the accepted events.
use hermes_walkie_talkie.Prelude.{
  ℕ, ◌+◌, ◌≤◌, ◌<◌, ◌≡◌, refl, ap, inl, inr, Bool, true, false, ◌&&◌, List, [], ◌∷◌, ◌++◌, arith,
  ltb, leb, if◌then◌else◌, Bool-cases, length, length-append,
}
use hermes_walkie_talkie.Table.{count_where}
use hermes_walkie_talkie.Table.Laws.{count_where-append}
use hermes_walkie_talkie.Policy.{prune}

-- Events that are still in the window at a time.
abbrev pub live : ℕ → ℕ → ℕ → Bool
live window now t = ltb now (t + window)

-- Accepted events in the window that ends at a time.
abbrev pub in_window : ℕ → ℕ → ℕ → Bool
in_window window now t = leb t now && ltb now (t + window)

pub prune-prune :
    (w now later : ℕ) (ts : List ℕ)
    → now ≤ later
    → prune w later (prune w now ts) ≡ prune w later ts
unfolding prune
prune-prune w now later [] h = refl
prune-prune w now later (t ∷ ts) h = ground (arith, prune-prune w now later ts h)

pub length-prune_append :
    (w now x : ℕ) (ts : List ℕ)
    → length (prune w now ts) + (if live w now x then 1 else 0)
      ≤ length (prune w now (ts ++ x ∷ []))
unfolding prune
length-prune_append w now x [] = ground arith
length-prune_append w now x (t ∷ ts) =
    ground (arith, length-prune_append w now x ts, length-append ts (x ∷ []))

pub count_mono :
    (p q : ℕ → Bool) (xs : List ℕ)
    → ((x : ℕ) → p x ≡ true → q x ≡ true)
    → count_where p xs ≤ count_where q xs
count_mono p q [] h = omega arith
count_mono p q (x ∷ xs) h = ground (arith, h x, count_mono p q xs h)

-- Every accepted event that is still live at a later time is counted by the deque.
abbrev pub Covers : ℕ → List ℕ → List ℕ → ℕ → Type 0
Covers w accepted deque last =
    (now : ℕ) → last ≤ now → count_where (live w now) accepted ≤ length (prune w now deque)

abbrev pub IsBounded : ℕ → ℕ → List ℕ → Type 0
IsBounded w n accepted = (now : ℕ) → count_where (in_window w now) accepted ≤ n

module _ (w n : ℕ) where
  pub IsBounded-accept :
      (accepted deque : List ℕ) (last x : ℕ)
      → Covers w accepted deque last
      → last ≤ x
      → length (prune w x deque) < n
      → IsBounded w n accepted
      → IsBounded w n (accepted ++ x ∷ [])
  IsBounded-accept accepted deque last x c le room b now =
      rw (count_where-append (in_window w now) accepted (x ∷ [])) (elim (Bool-cases (leb x now)) [
        | inl later ↦ omega (
          arith,
          count_mono (in_window w now) (live w x) accepted (λ (u : ℕ). λ h. ground arith),
          c x le,
          at_most_one (in_window w now) x,
        )
        | inr earlier ↦ omega (arith, b now, none_yet now earlier)
      ])
    where
      at_most_one : (p : ℕ → Bool) (y : ℕ) → count_where p (y ∷ []) ≤ 1
      at_most_one p y = ground arith

      none_yet : (now : ℕ) → leb x now ≡ false → count_where (in_window w now) (x ∷ []) ≡ 0
      none_yet now h = ground arith

  pub Covers-accept :
      (accepted deque : List ℕ) (last x : ℕ)
      → Covers w accepted deque last
      → last ≤ x
      → Covers w (accepted ++ x ∷ []) (prune w x deque ++ x ∷ []) x
  Covers-accept accepted deque last x c le now later =
      rw (count_where-append (live w now) accepted (x ∷ [])) (
        omega (
          arith,
          c now (omega arith),
          ap length (prune-prune w x now deque later),
          length-prune_append w now x (prune w x deque),
        ))

  pub Covers-prune :
      (accepted deque : List ℕ) (last x : ℕ)
      → Covers w accepted deque last
      → last ≤ x
      → Covers w accepted (prune w x deque) x
  Covers-prune accepted deque last x c le now later =
      omega (arith, c now (omega arith), ap length (prune-prune w x now deque later))
