-- ===== src/Groups/Membership.antt =====
-- Members of a group: `add_member`, `remove_member`, `member_count`, `delete_group` and
-- `validate_cap` of agent_peer/groups.py.
use hermes_walkie_talkie.Prelude.{
  ℕ, suc, ◌+◌, ◌≤◌, String, ◌≡◌, refl, ◌∙◌, ◌↔◌, ◌⊎◌, inl, inr, Bool, true, false, Option, none,
  some, List, [], ◌∷◌, ◌++◌, arith, str_eq, eq_refl, is_some,
}
use hermes_walkie_talkie.Errors.{ok, err, validation_error}
use hermes_walkie_talkie.Table.{first_where, count_where}
use hermes_walkie_talkie.Table.Laws.{
  count_where-append, count_where-delete_self, first_where-append_none,
}
use hermes_walkie_talkie.Groups.{
  Group, GroupMember, GroupStore, has_id, is_member, in_group, add_member, member_count,
  delete_group, validate_cap, hard_group_cap,
}

-- What `add_member` answers and does, on its branches.
pub Added : String → String → String → GroupStore → Type 0
Added gid agent peer s =
    (add_member gid agent peer s ≡ (err validation_error, s))
    ⊎ ((add_member gid agent peer s ≡ (ok false, s))
        ⊎ ((add_member gid agent peer s).0 ≡ ok true)
          × (member_count gid (add_member gid agent peer s).1 ≡ suc (member_count gid s)))

-- An add is refused with a ValidationError, or answers False, and then changes nothing; or it answers
-- True, and the group has one member more.
pub add_member_lem : (gid agent peer : String) (s : GroupStore) → Added gid agent peer s
unfolding add_member member_count Added
add_member_lem gid agent peer s =
    go (str_eq agent "") refl (first_where (has_id gid) s.groups) refl
      (first_where (is_member gid agent) s.group_members) refl
  where
    go :
        (b : Bool)
        → str_eq agent "" ≡ b
        → (o : Option Group) → first_where (has_id gid) s.groups ≡ o
        → (p : Option GroupMember) → first_where (is_member gid agent) s.group_members ≡ p
        → Added gid agent peer s
    go true e o f p h = inl (rw (e, add_member) refl)
    go false e none f p h = inr (inl (rw (e, add_member) (rw f refl)))
    go false e (some x) f (some y) h = inr (inl (rw (e, add_member) (rw f (rw h refl))))
    go false e (some x) f none h = inr (
        inr (
          rw (e, add_member) (rw f (rw h refl)),
          rw (e, add_member)
              (rw f (
                rw h (
                  rw
                    (count_where-append (in_group gid) s.group_members
                      (record { group_id = gid; agent_id = agent; peer_id = peer } ∷ []))
                    (ground (arith, eq_refl gid))))),
        ))

-- A member that is there is not added again.
add_member_present :
    (gid agent peer : String) (s : GroupStore) (g : Group) (m : GroupMember)
    → str_eq agent "" ≡ false
    → first_where (has_id gid) s.groups ≡ some g
    → first_where (is_member gid agent) s.group_members ≡ some m
    → add_member gid agent peer s ≡ (ok false, s)
unfolding add_member
add_member_present gid agent peer s g m e f h = rw (e, add_member) (rw f (rw h refl))

-- A second add of the same member changes nothing, whatever peer it names, and is no success.
pub add_member_twice :
    (gid agent peer peer' : String) (s : GroupStore)
    → (add_member gid agent peer s).0 ≡ ok true
    → add_member gid agent peer' (add_member gid agent peer s).1
      ≡ (ok false, (add_member gid agent peer s).1)
unfolding add_member
add_member_twice gid agent peer peer' s t =
    go (str_eq agent "") refl (first_where (has_id gid) s.groups) refl
      (first_where (is_member gid agent) s.group_members) refl t
  where
    new : GroupMember
    new = record { group_id = gid; agent_id = agent; peer_id = peer }

    added : GroupStore
    added = record s { group_members = s.group_members ++ new ∷ [] }

    go :
        (b : Bool)
        → str_eq agent "" ≡ b
        → (o : Option Group) → first_where (has_id gid) s.groups ≡ o
        → (p : Option GroupMember) → first_where (is_member gid agent) s.group_members ≡ p
        → (add_member gid agent peer s).0 ≡ ok true
        → add_member gid agent peer' (add_member gid agent peer s).1
          ≡ (ok false, (add_member gid agent peer s).1)
    go true e o f p h k = ground (arith, k)
    go false e none f p h k = ground (arith, k)
    go false e (some x) f (some y) h k = ground (arith, k)
    go false e (some x) f none h k =
        let met : first_where (is_member gid agent) (s.group_members ++ new ∷ []) ≡ some new =
          first_where-append_none (is_member gid agent) s.group_members (new ∷ []) h
          ∙ rw (eq_refl gid, eq_refl agent) refl in
        let is : add_member gid agent peer s ≡ (ok true, added) =
          rw (e, add_member) (rw f (rw h refl)) in
        rw is (add_member_present gid agent peer' added x new e f met)

cap_within :
    (count cap : ℕ)
    → validate_cap count cap ≡ ok tt
    → (1 ≤ cap) × ((cap ≤ hard_group_cap) × (count + 1 ≤ cap))
unfolding validate_cap
cap_within count cap h = ground arith

cap_accepted :
    (count cap : ℕ)
    → (1 ≤ cap) × ((cap ≤ hard_group_cap) × (count + 1 ≤ cap))
    → validate_cap count cap ≡ ok tt
unfolding validate_cap
cap_accepted count cap h = ground arith

-- The cap test accepts exactly the counts that stay under a cap between 1 and the ceiling.
pub validate_cap_iff :
    (count cap : ℕ)
    → (validate_cap count cap ≡ ok tt) ↔ ((1 ≤ cap) × ((cap ≤ hard_group_cap) × (count + 1 ≤ cap)))
unfolding validate_cap
validate_cap_iff count cap = (λ h. cap_within count cap h, λ h. cap_accepted count cap h)

count_some :
    (gid : String) (xs : List Group)
    → count_where (has_id gid) xs ≡ 1
    → is_some (first_where (has_id gid) xs) ≡ true
count_some gid [] h = ground arith
count_some gid (x ∷ xs) h = ground (arith, count_some gid xs)

-- A deleted group has no row left, and with the foreign key no member either.
pub delete_group_cascades :
    (gid : String) (s : GroupStore)
    → s.cascades ≡ true
    → (delete_group gid none s).0 ≡ true
    → (count_where (has_id gid) (delete_group gid none s).1.groups ≡ 0)
      × (member_count gid (delete_group gid none s).1 ≡ 0)
unfolding delete_group member_count
delete_group_cascades gid s c d =
    let hit : is_some (first_where (has_id gid) s.groups) ≡ true =
      count_some gid s.groups (ground (arith, d)) in
    (
      count_where-delete_self (has_id gid) s.groups,
      rw (c, hit) (count_where-delete_self (in_group gid) s.group_members),
    )
