-- ===== src/Groups/Revisions.antt =====
-- Optimistic revisions: `rename_group` of agent_peer/groups.py.
use hermes_walkie_talkie.Prelude.{
  ℕ, ◌+◌, String, ◌≡◌, refl, sym, ap, ◌∙◌, ◌≢◌, Option, none, some, List, [], ◌∷◌, arith, eq_iff,
  ◌==◌, if◌then◌else◌, ==_iff,
}
use mathlib.Core.Path.{subst}
use hermes_walkie_talkie.Errors.{Error, Result, ok, err}
use hermes_walkie_talkie.Table.{first_where, count_where, update_where}
use hermes_walkie_talkie.Table.Laws.{first_where-true, first_where-update}
use hermes_walkie_talkie.Table.Keys.{Distinct}
use hermes_walkie_talkie.Groups.{
  validate, Group, GroupStore, has_id, get_group, found, at_revision, renamed, name_taken,
  rename_to, rename_group,
}
use hermes_walkie_talkie.Groups.Names.{TextLib, normalise_group_name}
use hermes_walkie_talkie.Groups.Renaming.{id_of}
use hermes_walkie_talkie.Groups.Uniqueness.{IsUnique, rename_to-IsUnique}

at_revision-fresh :
    (gid : String) (rev : ℕ) (xs : List Group)
    → count_where (has_id gid) xs ≡ 0
    → first_where (at_revision gid rev) xs ≡ none
at_revision-fresh gid rev [] h = refl
at_revision-fresh gid rev (x ∷ xs) h = ground (arith, at_revision-fresh gid rev xs)

-- A row found by id is the only one with it, so a revision test on it decides the UPDATE.
at_revision_decides :
    (gid : String) (rev : ℕ) (g : Group) (xs : List Group)
    → Distinct id_of xs
    → first_where (has_id gid) xs ≡ some g
    → first_where (at_revision gid rev) xs ≡ (if g.revision == rev then some g else none)
at_revision_decides gid rev g [] d h = cc
at_revision_decides gid rev g (x ∷ xs) d h =
    ground
      (arith, at_revision_decides gid rev g xs, at_revision-fresh gid rev xs, eq_iff x.group_id gid)

rename_to_missed :
    (norm now gid : String) (rev : ℕ) (s : GroupStore)
    → first_where (at_revision gid rev) s.groups ≡ none
    → rename_to norm now gid rev s ≡ (ok none, s)
unfolding rename_to
rename_to_missed norm now gid rev s e = rw (e, rename_to) refl

-- A rename with a stale revision answers None and changes nothing.
pub rename_to_stale :
    (norm now gid : String) (rev : ℕ) (s : GroupStore) (g : Group)
    → IsUnique s
    → first_where (has_id gid) s.groups ≡ some g
    → g.revision ≢ rev
    → rename_to norm now gid rev s ≡ (ok none, s)
rename_to_stale norm now gid rev s g u f n =
    rename_to_missed norm now gid rev s
      (at_revision_decides gid rev g s.groups u.ids f ∙ ground (arith, ==_iff g.revision rev))

at_revision_first :
    (gid : String) (rev : ℕ) (x : Group) (xs : List Group)
    → Distinct id_of xs
    → first_where (at_revision gid rev) xs ≡ some x
    → first_where (has_id gid) xs ≡ some x
at_revision_first gid rev x [] d h = cc
at_revision_first gid rev x (y ∷ ys) d h =
    ground
      (arith, at_revision_first gid rev x ys, at_revision-fresh gid rev ys, eq_iff y.group_id gid)

found_same : (y g : Group) → found (some y) ≡ ok (some g) → y ≡ g
unfolding validate
found_same y g h = ground arith

-- A rename that answers a group left it in the table with the new name and the next revision.
pub rename_to_done :
    (norm now gid : String) (rev : ℕ) (s : GroupStore) (g : Group)
    → IsUnique s
    → (rename_to norm now gid rev s).0 ≡ ok (some g)
    → (g.name ≡ norm)
      × ((g.revision ≡ rev + 1)
          × (first_where (has_id gid) (rename_to norm now gid rev s).1.groups ≡ some g))
unfolding rename_to get_group
rename_to_done norm now gid rev s g u h =
    go (first_where (at_revision gid rev) s.groups) refl
      (first_where (name_taken gid norm) s.groups) refl h
  where
    go :
        (o : Option Group)
        → first_where (at_revision gid rev) s.groups ≡ o
        → (p : Option Group) → first_where (name_taken gid norm) s.groups ≡ p
        → (rename_to norm now gid rev s).0 ≡ ok (some g)
        → (g.name ≡ norm)
          × ((g.revision ≡ rev + 1)
              × (first_where (has_id gid) (rename_to norm now gid rev s).1.groups ≡ some g))
    go none e p f k = ground (arith, k)
    go (some x) e (some y) f k = ground (arith, k)
    go (some x) e none f k =
        let hit = first_where-true (at_revision gid rev) s.groups x e in
        let kept : first_where (has_id gid)
              (update_where (at_revision gid rev) (renamed norm now) s.groups)
            ≡ some (renamed norm now x) =
          first_where-update (has_id gid) (at_revision gid rev) (renamed norm now) s.groups x
            (λ z. refl) (at_revision_first gid rev x s.groups u.ids e)
          ∙ rw hit refl in
        let is : found (some (renamed norm now x)) ≡ ok (some g) =
          rw kept at (rw f at (rw (e, rename_to) at k)) in
        let same : renamed norm now x ≡ g = found_same (renamed norm now x) g is in
        (
          rw (← same) refl,
          (
            rw (← same) (ground (arith, hit, ==_iff x.revision rev)),
            rw (e, rename_to) (rw f (kept ∙ ap some same)),
          ),
        )

-- Of two renames that expect the same revision, the second answers None when the first succeeded.
pub rename_to_once :
    (norm now norm' now' gid : String) (rev : ℕ) (s : GroupStore) (g : Group)
    → IsUnique s
    → (rename_to norm now gid rev s).0 ≡ ok (some g)
    → rename_to norm' now' gid rev (rename_to norm now gid rev s).1
      ≡ (ok none, (rename_to norm now gid rev s).1)
rename_to_once norm now norm' now' gid rev s g u h =
    let d = rename_to_done norm now gid rev s g u h in
    rename_to_stale norm' now' gid rev (rename_to norm now gid rev s).1 g
      (rename_to-IsUnique norm now gid rev s u) d.1.1 (λ e. omega (arith, d.1.0, e))

rename_group-eq-to :
    (lib : TextLib) (now gid name norm : String) (rev : ℕ) (s : GroupStore)
    → normalise_group_name lib name ≡ ok norm
    → rename_group lib now gid name rev s ≡ rename_to norm now gid rev s
unfolding rename_group
rename_group-eq-to lib now gid name norm rev s e = rw (e, rename_group) refl

rename_group-refused :
    (lib : TextLib) (now gid name : String) (rev : ℕ) (s : GroupStore) (x : Error)
    → normalise_group_name lib name ≡ err x
    → rename_group lib now gid name rev s ≡ (err x, s)
unfolding rename_group
rename_group-refused lib now gid name rev s x e = rw (e, rename_group) refl

-- When a rename answers a group, its name is the normal form of the new name, its revision is the one
-- after the expected revision, and it is the row that is stored under its id. Then another rename
-- that expects the same revision, with whatever valid name, answers None and changes nothing. The ids
-- and names of the groups have to be unique.
pub rename_group-once :
    (lib : TextLib) (now name now' name' norm' gid : String) (rev : ℕ) (s : GroupStore) (g : Group)
    → IsUnique s
    → (rename_group lib now gid name rev s).0 ≡ ok (some g)
    → normalise_group_name lib name' ≡ ok norm'
    → let s' = (rename_group lib now gid name rev s).1 in
      (normalise_group_name lib name ≡ ok g.name)
      × (g.revision ≡ rev + 1)
      × (first_where (has_id gid) s'.groups ≡ some g)
      × (rename_group lib now' gid name' rev s' ≡ (ok none, s'))
rename_group-once lib now name now' name' norm' gid rev s g u h k =
    go (normalise_group_name lib name) refl
  where
    Renamed : GroupStore → Type 0
    Renamed s' =
        (normalise_group_name lib name ≡ ok g.name)
        × (g.revision ≡ rev + 1)
        × (first_where (has_id gid) s'.groups ≡ some g)
        × (rename_group lib now' gid name' rev s' ≡ (ok none, s'))

    go :
        (r : Result String)
        → normalise_group_name lib name ≡ r
        → Renamed (rename_group lib now gid name rev s).1
    go (err x) e =
        let bad = ap (λ p. p.0) (sym (rename_group-refused lib now gid name rev s x e)) ∙ h in cc
    go (ok norm) e =
        let same = rename_group-eq-to lib now gid name norm rev s e in
        let answered : (rename_to norm now gid rev s).0 ≡ ok (some g) =
          ap (λ x. x.0) (sym same) ∙ h in
        let (named, next, stored) = flat (rename_to_done norm now gid rev s g u answered) in
        subst (λ p. Renamed p.1) (sym same)
          (
            e ∙ ap ok (sym named),
            next,
            stored,
            rename_group-eq-to lib now' gid name' norm' rev (rename_to norm now gid rev s).1 k
                ∙ rename_to_once norm now norm' now' gid rev s g u answered,
          )
      where
        flat : {A B C : Type 0} → A × (B × C) → A × B × C
        flat (a, b) = (a, b.0, b.1)
