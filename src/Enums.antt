-- ===== src/Enums.antt =====
-- Text enumerations of the Python code: a call of the class looks a member up by its value.
use hermes_walkie_talkie.Prelude.{String, ◌≡◌, List, [], ◌∷◌, arith, str_eq, eq_iff, if◌then◌else◌}
use hermes_walkie_talkie.Errors.{Result, ok, err, value_error}

module _ {A : Type 0} (value : A → String) where
  abbrev pub find_member : List A → String → Result A
  find_member [] s = err value_error
  find_member (x ∷ xs) s = if str_eq s (value x) then ok x else find_member xs s

  pub find_member-value : (xs : List A) (s : String) (a : A) → find_member xs s ≡ ok a → s ≡ value a
  find_member-value [] s a h = cc
  find_member-value (x ∷ xs) s a h = ground (arith, eq_iff s (value x), find_member-value xs s a)
