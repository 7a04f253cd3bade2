-- ===== src/Groups/Examples.antt =====
-- Concrete uses of agent_peer/groups.py.
use hermes_walkie_talkie.Prelude.{◌≡◌, refl, true, none, some, [], ◌∷◌, arith, ◌+◌}
use hermes_walkie_talkie.Errors.{ok}
use hermes_walkie_talkie.Table.{first_where}
use hermes_walkie_talkie.Groups.{
  Group, GroupStore, rename_to, rename_group, delete_group, get_group, validate, has_id,
}
use hermes_walkie_talkie.Groups.Names.{TextLib, normalise_group_name, name_match}
use hermes_walkie_talkie.Models.Uuid.{at_dollar}
use hermes_walkie_talkie.Groups.Uniqueness.{IsUnique}
use hermes_walkie_talkie.Groups.Revisions.{rename_group-once}

abbrev team : Group
team = record {
  group_id = "g";
  name = "team";
  owner_agent_id = "a";
  created_at = "t0";
  updated_at = "t0";
  revision = 0;
}

abbrev store : GroupStore
store = record { groups = team ∷ []; group_members = []; cascades = true }

abbrev crew : Group
crew = record team { name = "crew"; updated_at = "t1"; revision = 1 }

-- A library for names that are in normal form.
abbrev plain : TextLib
plain = record { strip_casefold = λ s. s }

store-IsUnique : IsUnique store
store-IsUnique = record { ids = (refl, tt); names = (refl, tt); members = λ g a. omega arith }

renamed_eq : (rename_to "crew" "t1" "g" 0 store).0 ≡ ok (some crew)
unfolding rename_to get_group validate
renamed_eq = refl

renamed_group_eq : (rename_group plain "t1" "g" "crew" 0 store).0 ≡ ok (some crew)
unfolding rename_group rename_to get_group validate normalise_group_name name_match at_dollar
renamed_group_eq = refl

valid_eq : normalise_group_name plain "band" ≡ ok "band"
unfolding normalise_group_name name_match at_dollar
valid_eq = refl

rename_group-once_example :
    let s' = (rename_group plain "t1" "g" "crew" 0 store).1 in
    (normalise_group_name plain "crew" ≡ ok "crew")
    × (crew.revision ≡ 0 + 1)
    × (first_where (has_id "g") s'.groups ≡ some crew)
    × (rename_group plain "t2" "g" "band" 0 s' ≡ (ok none, s'))
rename_group-once_example =
    rename_group-once plain "t1" "crew" "t2" "band" "band" "g" 0 store crew store-IsUnique
      renamed_group_eq valid_eq

deleted_eq : (delete_group "g" none store).0 ≡ true
unfolding delete_group
deleted_eq = refl
