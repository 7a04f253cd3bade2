-- ===== src/Registry/Paths.antt =====
-- File names of the registry, and what a write or an unlink leaves of the other files.
use hermes_walkie_talkie.Prelude.{
  String, ◌≡◌, refl, sym, ap, ◌∙◌, false, none, some, List, [], ◌∷◌, arith, str_eq, eq_iff, eq_refl,
}
use Prim.Native.String.{len}
use text.Mathlib.TextPositions.{len-append, slice-append_left}
use hermes_walkie_talkie.Table.{first_where, delete_where}
use hermes_walkie_talkie.Registry.Files.{File, is_named, registry_file_for, replace_file}

-- Two peers have different files.
pub registry_file_for-injective : (p q : String) → registry_file_for p ≡ registry_file_for q → p ≡ q
unfolding registry_file_for
registry_file_for-injective p q h =
    let lens : len p ≡ len q =
      omega (arith, len-append p ".json", len-append q ".json", ap len h) in
    sym (slice-append_left p ".json") ∙ rw (h, lens) refl ∙ slice-append_left q ".json"

pub registry_file_for-differs :
    (p q : String) → str_eq p q ≡ false → str_eq (registry_file_for p) (registry_file_for q) ≡ false
registry_file_for-differs p q h = ground (
  arith,
  eq_iff p q,
  eq_iff (registry_file_for p) (registry_file_for q),
  registry_file_for-injective p q,
)

pub first-replace_same :
    {T : Type 0} (f : File T) (fs : List (File T))
    → first_where (is_named f.name) (replace_file f fs) ≡ some f
unfolding replace_file
first-replace_same f [] = rw (eq_refl f.name) refl
first-replace_same f (g ∷ gs) = ground (arith, eq_refl f.name, first-replace_same f gs)

pub first-replace_other :
    {T : Type 0} (n : String) (f : File T) (fs : List (File T))
    → str_eq f.name n ≡ false
    → first_where (is_named n) (replace_file f fs) ≡ first_where (is_named n) fs
unfolding replace_file
first-replace_other n f [] h = rw h refl
first-replace_other n f (g ∷ gs) h =
    ground
      (arith, eq_iff g.name f.name, eq_iff g.name n, eq_iff f.name n, first-replace_other n f gs h)

pub first-delete_other :
    {T : Type 0} (n m : String) (fs : List (File T))
    → str_eq m n ≡ false
    → first_where (is_named n) (delete_where (is_named m) fs) ≡ first_where (is_named n) fs
first-delete_other n m [] h = refl
first-delete_other n m (g ∷ gs) h =
    ground (arith, eq_iff g.name m, eq_iff g.name n, eq_iff m n, first-delete_other n m gs h)

pub first-delete_same :
    {T : Type 0} (n : String) (fs : List (File T))
    → first_where (is_named n) (delete_where (is_named n) fs) ≡ none
first-delete_same n [] = refl
first-delete_same n (g ∷ gs) = ground (arith, first-delete_same n gs)
