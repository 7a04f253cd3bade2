-- ===== src/Delivery/Names.antt =====
-- Sanitised names of hermes_peer/delivery.py stay on their header line.
use hermes_walkie_talkie.Prelude.{
  ℕ, zero, suc, ◌-◌, inl, inr, List, [], ◌∷◌, arith, ◌==◌, ==_iff, Bool-cases, length,
}
use hermes_walkie_talkie.Delivery.Boundary.{
  begins, replace_from, replace, remove_tags, boundary_tags, sanitise_name,
}
use hermes_walkie_talkie.Delivery.Escape.{Lacks}

Lacks-replace :
    (c : ℕ) (tag : List ℕ) (k : ℕ) (xs : List ℕ) → Lacks c xs → Lacks c (replace_from tag [] k xs)
unfolding replace_from
Lacks-replace c tag zero [] l = tt
Lacks-replace c tag (suc k) [] l = tt
Lacks-replace c tag (suc k) (x ∷ xs) l = Lacks-replace c tag k xs l.1
Lacks-replace c tag zero (x ∷ xs) l = elim (Bool-cases (begins tag (x ∷ xs))) [
  | inl e ↦ rw e (Lacks-replace c tag (length tag - 1) xs l.1)
  | inr e ↦ rw e (l.0, Lacks-replace c tag 0 xs l.1)
]

Lacks-removed : (c : ℕ) (xs : List ℕ) → Lacks c (replace (c ∷ []) [] xs)
unfolding replace_from
Lacks-removed c [] = tt
Lacks-removed c (x ∷ xs) = elim (Bool-cases (c == x)) [
  | inl e ↦ rw e (Lacks-removed c xs)
  | inr e ↦ rw e (ground (arith, ==_iff c x, ==_iff x c), Lacks-removed c xs)
]

Lacks-remove_tags :
    (c : ℕ) (ts : List (List ℕ)) (xs : List ℕ) → Lacks c xs → Lacks c (remove_tags ts xs)
Lacks-remove_tags c [] xs l = l
Lacks-remove_tags c (t ∷ ts) xs l =
    Lacks-remove_tags c ts (replace t [] xs) (Lacks-replace c t 0 xs l)

-- A sanitised name holds no end of a line (10 and 13), so that a name cannot add a header line.
pub sanitise_name-Lacks :
    (name : List ℕ) → Lacks 10 (sanitise_name name) × Lacks 13 (sanitise_name name)
unfolding sanitise_name
sanitise_name-Lacks name =
    let plain = replace (10 ∷ []) [] (replace (13 ∷ []) [] name) in
    (
      Lacks-remove_tags 10 boundary_tags plain (Lacks-removed 10 (replace (13 ∷ []) [] name)),
      Lacks-remove_tags 13 boundary_tags plain
          (Lacks-replace 13 (10 ∷ []) 0 (replace (13 ∷ []) [] name) (Lacks-removed 13 name)),
    )
