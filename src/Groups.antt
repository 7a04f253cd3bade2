-- ===== src/Groups.antt =====
-- agent_peer/groups.py: groups and their members, two tables of the store. New ids and the clock are
-- arguments. `cascades` says whether the foreign key of the members table is there (Store.Migrations).
pub mod Names
pub mod Renaming
pub mod Uniqueness
pub mod Revisions
pub mod Membership
pub mod Examples
use hermes_walkie_talkie.Prelude.{
  ℕ, zero, suc, ◌+◌, ◌-◌, ◌*◌, ◌/◌, ◌%◌, ◌^◌, ◌≤◌, ◌<◌, min, String, ◌≡◌, refl, sym, ap, ◌∙◌, ◌≢◌,
  ◌↔◌, ◌⊎◌, inl, inr, Bool, true, false, ◌&&◌, ◌||◌, not, Option, none, some, List, [], ◌∷◌, ◌++◌,
  map, arith, str_eq, eq_iff, eq_refl, ltb, leb, ◌==◌, str_lt, if◌then◌else◌, ltb→lt, lt→ltb,
  leb→le, ==_iff, Bool-cases, Option-cases, is_some, or_else, length, take, drop, length-append,
  length-take, length-drop, All, All-append, All-imp, All-take, All-drop,
}
use hermes_walkie_talkie.Errors.{Result, ok, err, validation_error, integrity_error, ◌>>=◌}
use hermes_walkie_talkie.Table.{
  select_where, first_where, count_where, update_where, delete_where, order_by,
}
use Names.{TextLib, normalise_group_name}

pub record Group : Type 0 where
  pub group_id : String
  pub name : String
  pub owner_agent_id : String
  pub created_at : String
  pub updated_at : String
  pub revision : ℕ

-- A NULL peer_id is the empty text (`COALESCE`, `peer_id or None`).
pub record GroupMember : Type 0 where
  pub group_id : String
  pub agent_id : String
  pub peer_id : String

pub record GroupStore : Type 0 where
  pub groups : List Group
  pub group_members : List GroupMember
  pub cascades : Bool

-- `Group.__post_init__`.
unfoldable pub validate : Group → Result Group
validate g =
    if str_eq g.group_id "" || str_eq g.owner_agent_id "" then err validation_error else ok g

abbrev pub has_id : String → Group → Bool
has_id gid g = str_eq g.group_id gid

abbrev pub has_name : String → Group → Bool
has_name n g = str_eq g.name n

abbrev pub is_member : String → String → GroupMember → Bool
is_member gid agent m = str_eq m.group_id gid && str_eq m.agent_id agent

abbrev pub in_group : String → GroupMember → Bool
in_group gid m = str_eq m.group_id gid

abbrev pub new_group : String → String → String → String → Group
new_group gid norm owner ts = record {
  group_id = gid;
  name = norm;
  owner_agent_id = owner;
  created_at = ts;
  updated_at = ts;
  revision = 0;
}

-- The INSERT of `create_group`; a conflict on the name or the id is a UNIQUE failure.
unfoldable pub insert_group : Group → GroupStore → Result Group × GroupStore
unfolding validate
insert_group g s =
    if is_some (first_where (has_name g.name) s.groups)
      || is_some (first_where (has_id g.group_id) s.groups)
    then (err validation_error, s)
    else (validate g, record s { groups = s.groups ++ g ∷ [] })

unfoldable pub create_group :
    TextLib → String → String → String → String → GroupStore → Result Group × GroupStore
create_group lib gid ts owner name s = elim (normalise_group_name lib name) [
  | err e ↦ (err e, s)
  | ok norm ↦ insert_group (new_group gid norm owner ts) s
]

abbrev pub found : Option Group → Result (Option Group)
found none = ok none
found (some g) = do v ← validate g; ok (some v)

unfoldable pub get_group : String → GroupStore → Result (Option Group)
get_group gid s = found (first_where (has_id gid) s.groups)

unfoldable pub get_group_by_name : TextLib → String → GroupStore → Result (Option Group)
get_group_by_name lib name s = do
  norm ← normalise_group_name lib name
  found (first_where (has_name norm) s.groups)

abbrev pub rows_to_groups : List Group → Result (List Group)
rows_to_groups [] = ok []
rows_to_groups (g ∷ gs) = do v ← validate g; vs ← rows_to_groups gs; ok (v ∷ vs)

unfoldable pub list_groups : GroupStore → Result (List Group)
list_groups s = rows_to_groups (order_by (λ g. g.name) s.groups)

abbrev pub at_revision : String → ℕ → Group → Bool
at_revision gid rev g = str_eq g.group_id gid && g.revision == rev

abbrev pub renamed : String → String → Group → Group
renamed norm now g = record g { name = norm; updated_at = now; revision = g.revision + 1 }

-- A row that the UPDATE would give a name that another row has.
abbrev pub name_taken : String → String → Group → Bool
name_taken gid norm g = str_eq g.name norm && not (str_eq g.group_id gid)

-- The UPDATE of `rename_group`: the UNIQUE name is not caught here, so it raises IntegrityError.
unfoldable pub rename_to :
    String → String → String → ℕ → GroupStore → Result (Option Group) × GroupStore
rename_to norm now gid rev s =
    let s' = record s { groups = update_where (at_revision gid rev) (renamed norm now) s.groups } in
    if is_some (first_where (at_revision gid rev) s.groups)
    then (if is_some (first_where (name_taken gid norm) s.groups)
        then (err integrity_error, s)
        else (get_group gid s', s'))
    else (ok none, s)

unfoldable pub rename_group :
    TextLib → String → String → String → ℕ → GroupStore → Result (Option Group) × GroupStore
rename_group lib now gid name rev s = elim (normalise_group_name lib name) [
  | err e ↦ (err e, s)
  | ok norm ↦ rename_to norm now gid rev s
]

abbrev pub owned : String → Option String → Group → Bool
owned gid none g = has_id gid g
owned gid (some owner) g = has_id gid g && str_eq g.owner_agent_id owner

-- DELETE FROM groups; with the foreign key SQLite deletes the members of the group as well.
unfoldable pub delete_group : String → Option String → GroupStore → Bool × GroupStore
delete_group gid owner s =
    let gone = is_some (first_where (owned gid owner) s.groups) in
    (
      count_where (owned gid owner) s.groups == 1,
      record s {
        groups = delete_where (owned gid owner) s.groups;
        group_members =
            if s.cascades && gone
            then delete_where (in_group gid) s.group_members
            else s.group_members;
      },
    )

unfoldable pub add_member : String → String → String → GroupStore → Result Bool × GroupStore
add_member gid agent peer s =
    if str_eq agent ""
    then (err validation_error, s)
    else if not (is_some (first_where (has_id gid) s.groups))
    then (ok false, s)
    else if is_some (first_where (is_member gid agent) s.group_members)
    then (ok false, s)
    else (
      ok true,
      record s {
        group_members =
            s.group_members ++ record { group_id = gid; agent_id = agent; peer_id = peer } ∷ [];
      },
    )

unfoldable pub remove_member : String → String → GroupStore → Bool × GroupStore
remove_member gid agent s = (
  count_where (is_member gid agent) s.group_members == 1,
  record s { group_members = delete_where (is_member gid agent) s.group_members },
)

unfoldable pub members : String → GroupStore → List GroupMember
members gid s = order_by (λ m. m.agent_id) (select_where (in_group gid) s.group_members)

unfoldable pub member_count : String → GroupStore → ℕ
member_count gid s = count_where (in_group gid) s.group_members

abbrev pub default_group_cap : ℕ
default_group_cap = 32

abbrev pub hard_group_cap : ℕ
hard_group_cap = 128

unfoldable pub validate_cap : ℕ → ℕ → Result (Unit {0})
validate_cap count cap =
    if ltb cap 1 || ltb hard_group_cap cap
    then err validation_error
    else if ltb cap (count + 1)
    then err validation_error
    else ok tt
