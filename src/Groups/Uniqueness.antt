-- ===== src/Groups/Uniqueness.antt =====
-- The keys of the group tables, kept by every operation of agent_peer/groups.py.
use hermes_walkie_talkie.Prelude.{
  ℕ, ◌+◌, ◌≤◌, String, ◌≡◌, refl, inl, inr, Bool, true, false, ◌&&◌, Option, none, some, List, [],
  ◌∷◌, ◌++◌, arith, str_eq, eq_iff, if◌then◌else◌, Bool-cases, is_some,
}
use hermes_walkie_talkie.Groups.Renaming.{id_of, name_of, Distinct-names}
use hermes_walkie_talkie.Errors.{Result, ok, err}
use hermes_walkie_talkie.Table.{first_where, count_where, delete_where}
use hermes_walkie_talkie.Table.Keys.{Distinct, Distinct-insert, Distinct-update, Distinct-delete}
use hermes_walkie_talkie.Table.Laws.{first_where-none, count_where-append}
use hermes_walkie_talkie.Groups.{
  Group, GroupMember, GroupStore, has_id, has_name, is_member, in_group, new_group, insert_group,
  create_group, at_revision, renamed, name_taken, rename_to, rename_group, owned, delete_group,
  add_member, remove_member,
}
use hermes_walkie_talkie.Groups.Names.{TextLib, normalise_group_name}

pub record IsUnique (s : GroupStore) : Type 0 where
  pub ids : Distinct id_of s.groups
  pub names : Distinct name_of s.groups
  pub members : (gid agent : String) → count_where (is_member gid agent) s.group_members ≤ 1

insert_group-IsUnique : (g : Group) (s : GroupStore) → IsUnique s → IsUnique (insert_group g s).1
unfolding insert_group
insert_group-IsUnique g s u =
    go (first_where (has_name g.name) s.groups) refl (first_where (has_id g.group_id) s.groups) refl
  where
    go :
        (o : Option Group)
        → first_where (has_name g.name) s.groups ≡ o
        → (p : Option Group) → first_where (has_id g.group_id) s.groups ≡ p
        → IsUnique (insert_group g s).1
    go (some x) e p f = rw (e, insert_group) u
    go none e (some y) f = rw (e, insert_group) (rw f u)
    go none e none f =
        rw (e, insert_group)
          (rw f (record {
            ids =
                Distinct-insert id_of g s.groups u.ids
                  (first_where-none (has_id g.group_id) s.groups f);
            names =
                Distinct-insert name_of g s.groups u.names
                  (first_where-none (has_name g.name) s.groups e);
            members = u.members;
          }))

pub create_group-IsUnique :
    (lib : TextLib) (gid ts owner name : String) (s : GroupStore)
    → IsUnique s
    → IsUnique (create_group lib gid ts owner name s).1
unfolding create_group
create_group-IsUnique lib gid ts owner name s u = go (normalise_group_name lib name) refl
  where
    go :
        (r : Result String)
        → normalise_group_name lib name ≡ r
        → IsUnique (create_group lib gid ts owner name s).1
    go (err e) eq = rw (eq, create_group) u
    go (ok norm) eq =
        rw (eq, create_group) (insert_group-IsUnique (new_group gid norm owner ts) s u)

pub rename_to-IsUnique :
    (norm now gid : String) (rev : ℕ) (s : GroupStore)
    → IsUnique s
    → IsUnique (rename_to norm now gid rev s).1
unfolding rename_to
rename_to-IsUnique norm now gid rev s u =
    go (first_where (at_revision gid rev) s.groups) refl
      (first_where (name_taken gid norm) s.groups) refl
  where
    go :
        (o : Option Group)
        → first_where (at_revision gid rev) s.groups ≡ o
        → (p : Option Group) → first_where (name_taken gid norm) s.groups ≡ p
        → IsUnique (rename_to norm now gid rev s).1
    go none e p f = rw (e, rename_to) u
    go (some x) e (some y) f = rw (e, rename_to) (rw f u)
    go (some x) e none f =
        rw (e, rename_to)
          (rw f (record {
            ids =
                Distinct-update id_of (renamed norm now) (λ z. refl) (at_revision gid rev) s.groups
                  u.ids;
            names =
                Distinct-names gid norm now rev s.groups u.ids u.names
                  (first_where-none (name_taken gid norm) s.groups f);
            members = u.members;
          }))

-- A rename keeps the group ids, the group names and the pairs of group and member unique.
pub rename_group-IsUnique :
    (lib : TextLib) (now gid name : String) (rev : ℕ) (s : GroupStore)
    → IsUnique s
    → IsUnique (rename_group lib now gid name rev s).1
unfolding rename_group
rename_group-IsUnique lib now gid name rev s u = go (normalise_group_name lib name) refl
  where
    go :
        (r : Result String)
        → normalise_group_name lib name ≡ r
        → IsUnique (rename_group lib now gid name rev s).1
    go (err e) eq = rw (eq, rename_group) u
    go (ok norm) eq = rw (eq, rename_group) (rename_to-IsUnique norm now gid rev s u)

count_member-delete :
    (p : GroupMember → Bool) (gid agent : String) (xs : List GroupMember)
    → count_where (is_member gid agent) (delete_where p xs) ≤ count_where (is_member gid agent) xs
count_member-delete p gid agent [] = omega arith
count_member-delete p gid agent (x ∷ xs) = ground (arith, count_member-delete p gid agent xs)

pub delete_group-IsUnique :
    (gid : String) (owner : Option String) (s : GroupStore)
    → IsUnique s
    → IsUnique (delete_group gid owner s).1
unfolding delete_group
delete_group-IsUnique gid owner s u = record {
  ids = Distinct-delete id_of (owned gid owner) s.groups u.ids;
  names = Distinct-delete name_of (owned gid owner) s.groups u.names;
  members = λ g a.
      elim (Bool-cases (s.cascades && is_some (first_where (owned gid owner) s.groups))) [
        | inl e ↦
            rw e
              (omega (arith, count_member-delete (in_group gid) g a s.group_members, u.members g a))
        | inr e ↦ rw e (u.members g a)
      ];
}

pub remove_member-IsUnique :
    (gid agent : String) (s : GroupStore) → IsUnique s → IsUnique (remove_member gid agent s).1
unfolding remove_member
remove_member-IsUnique gid agent s u = record {
  ids = u.ids;
  names = u.names;
  members = λ g a.
      omega (arith, count_member-delete (is_member gid agent) g a s.group_members, u.members g a);
}

-- A new row is met once by the test for its own keys and never by another.
count_member-insert :
    (gid agent peer g a : String) (xs : List GroupMember)
    → count_where (is_member gid agent) xs ≡ 0
    → count_where (is_member g a) xs ≤ 1
    → count_where
        (is_member g a)
        (xs ++ record { group_id = gid; agent_id = agent; peer_id = peer } ∷ [])
      ≤ 1
count_member-insert gid agent peer g a xs h k =
    rw
      (count_where-append (is_member g a) xs
        (record { group_id = gid; agent_id = agent; peer_id = peer } ∷ []))
      (go (str_eq gid g) refl (str_eq agent a) refl)
  where
    go :
        (b : Bool)
        → str_eq gid g ≡ b
        → (c : Bool) → str_eq agent a ≡ c
        → count_where (is_member g a) xs + (if str_eq gid g && str_eq agent a then 1 else 0) ≤ 1
    go true e true f =
        let same : gid ≡ g = (eq_iff gid g).0 e in
        let same' : agent ≡ a = (eq_iff agent a).0 f in
        let z : count_where (is_member g a) xs ≡ 0 = rw (same, same') at h in
        rw (e, f) (omega (arith, z))
    go true e false f = rw (e, f) (omega (arith, k))
    go false e c f = rw e (omega (arith, k))

pub add_member-IsUnique :
    (gid agent peer : String) (s : GroupStore)
    → IsUnique s
    → IsUnique (add_member gid agent peer s).1
unfolding add_member
add_member-IsUnique gid agent peer s u =
    go (str_eq agent "") refl (first_where (has_id gid) s.groups) refl
      (first_where (is_member gid agent) s.group_members) refl
  where
    go :
        (b : Bool)
        → str_eq agent "" ≡ b
        → (o : Option Group) → first_where (has_id gid) s.groups ≡ o
        → (p : Option GroupMember) → first_where (is_member gid agent) s.group_members ≡ p
        → IsUnique (add_member gid agent peer s).1
    go true e o f p h = rw (e, add_member) u
    go false e none f p h = rw (e, add_member) (rw f u)
    go false e (some x) f (some y) h = rw (e, add_member) (rw f (rw h u))
    go false e (some x) f none h =
        rw (e, add_member)
          (rw f (
            rw h (record {
              ids = u.ids;
              names = u.names;
              members = λ g a.
                  count_member-insert gid agent peer g a s.group_members
                    (first_where-none (is_member gid agent) s.group_members h) (u.members g a);
            })))
