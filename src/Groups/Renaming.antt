-- ===== src/Groups/Renaming.antt =====
-- Group names under the UPDATE of `rename_group` of agent_peer/groups.py.
use hermes_walkie_talkie.Prelude.{
  ℕ, ◌≤◌, String, ◌≡◌, refl, false, List, [], ◌∷◌, arith, str_eq, eq_iff,
}
use hermes_walkie_talkie.Table.{count_where, update_where}
use hermes_walkie_talkie.Table.Keys.{Distinct}
use hermes_walkie_talkie.Groups.{Group, has_id, has_name, at_revision, renamed, name_taken}

abbrev pub id_of : Group → String
id_of g = g.group_id

abbrev pub name_of : Group → String
name_of g = g.name

module _ (gid norm now : String) (rev : ℕ) where
  update_ids_fresh :
      (xs : List Group)
      → count_where (has_id gid) xs ≡ 0
      → update_where (at_revision gid rev) (renamed norm now) xs ≡ xs
  update_ids_fresh [] h = refl
  update_ids_fresh (x ∷ xs) h = ground (arith, update_ids_fresh xs)

  not_taken :
      (xs : List Group)
      → count_where (has_id gid) xs ≡ 0
      → count_where (name_taken gid norm) xs ≡ 0
      → count_where (has_name norm) xs ≡ 0
  not_taken [] h k = refl
  not_taken (x ∷ xs) h k = ground (arith, not_taken xs)

  -- The name of another row is met as often after the renaming, unless it is the new name.
  count_other_name :
      (n : String) (xs : List Group)
      → str_eq n norm ≡ false
      → count_where (has_name n) (update_where (at_revision gid rev) (renamed norm now) xs)
        ≤ count_where (has_name n) xs
  count_other_name n [] h = omega arith
  count_other_name n (x ∷ xs) h =
      ground (arith, count_other_name n xs, eq_iff norm n, eq_iff n norm)

  pub Distinct-names :
      (xs : List Group)
      → Distinct id_of xs
      → Distinct name_of xs
      → count_where (name_taken gid norm) xs ≡ 0
      → Distinct name_of (update_where (at_revision gid rev) (renamed norm now) xs)
  Distinct-names [] i d t = tt
  Distinct-names (x ∷ xs) i d t = ground (
    arith,
    Distinct-names xs,
    update_ids_fresh xs,
    not_taken xs,
    count_other_name x.name xs,
    eq_iff x.group_id gid,
    eq_iff x.name norm,
    eq_iff x.name x.name,
  )
