-- ===== src/Store/Migrations.antt =====
-- `_migrate` of agent_peer/store.py. A schema is the recorded version and what the statements of
-- each migration make; `cascades` is the FOREIGN KEY ... ON DELETE CASCADE of `group_members`.
use hermes_walkie_talkie.Prelude.{
  ℕ, ◌≤◌, ◌<◌, ◌≡◌, refl, Bool, true, false, ◌&&◌, not, Option, none, some, arith, ltb, leb,
  if◌then◌else◌, is_some, or_else,
}

pub record Members : Type 0 where
  pub cascades : Bool

pub record Schema : Type 0 where
  pub version : Option ℕ
  pub messages : Bool
  pub protocol_column : Bool
  pub groups : Option Members
  pub requests : Bool

abbrev pub blank : Schema
blank = record {
  version = none;
  messages = false;
  protocol_column = false;
  groups = none;
  requests = false;
}

-- `_SCHEMA_VERSION`
abbrev pub schema_version : ℕ
schema_version = 4

-- CREATE TABLE IF NOT EXISTS
abbrev create_members : Members → Option Members → Option Members
create_members m none = some m
create_members m (some old) = some old

-- `executescript(_SCHEMA)`: a table that exists is left as it is.
abbrev pub run_schema : Schema → Schema
run_schema s = record s {
  messages = true;
  protocol_column = if s.messages then s.protocol_column else true;
  groups = create_members (record { cascades = true }) s.groups;
  requests = true;
}

-- ALTER TABLE messages ADD COLUMN fails if there is no table or the column is there.
abbrev pub migration_2 : Schema → Option Schema
migration_2 s =
    if s.messages && not s.protocol_column then some (record s { protocol_column = true }) else none

abbrev pub migration_3 : Schema → Option Schema
migration_3 s = some (record s { groups = create_members (record { cascades = false }) s.groups })

abbrev pub migration_4 : Schema → Option Schema
migration_4 s = some (record s { requests = true })

-- The migrations whose target is above `current`, in order; `none` is an sqlite3.OperationalError.
abbrev pub run_above : ℕ → ℕ → (Schema → Option Schema) → Option Schema → Option Schema
run_above current target step none = none
run_above current target step (some s) = if ltb current target then step s else some s

abbrev pub migrations : ℕ → Schema → Option Schema
migrations current s =
    run_above current 4 migration_4
      (run_above current 3 migration_3 (run_above current 2 migration_2 (some s)))

-- The version row is written only where something was done.
abbrev pub set_version : ℕ → Option Schema → Option Schema
set_version current none = none
set_version current (some s) =
    some
      (record s { version = some (if ltb current schema_version then schema_version else current) })

unfoldable pub migrate : Schema → Option Schema
migrate s =
    let current = or_else s.version 0 in
    if ltb current 1
    then some (record (run_schema s) { version = some schema_version })
    else if ltb current schema_version
    then set_version current (migrations current s)
    else some s

-- A database that this code, or an older release of it, has left behind.
pub record IsRelease (s : Schema) : Type 0 where
  pub unversioned : s.version ≡ none → s ≡ blank
  pub versioned : (v : ℕ) → s.version ≡ some v → (0 < v) × (v ≤ schema_version)
  pub first : (v : ℕ) → s.version ≡ some v → s.messages ≡ true
  pub second : (v : ℕ) → s.version ≡ some v → s.protocol_column ≡ leb 2 v
  pub third : (v : ℕ) → s.version ≡ some v → is_some s.groups ≡ leb 3 v
  pub fourth : (v : ℕ) → s.version ≡ some v → s.requests ≡ leb 4 v

pub record IsCurrent (s : Schema) : Type 0 where
  pub version : s.version ≡ some schema_version
  pub messages : s.messages ≡ true
  pub protocol_column : s.protocol_column ≡ true
  pub groups : is_some s.groups ≡ true
  pub requests : s.requests ≡ true

abbrev CurrentAfter : Option Schema → Type 0
CurrentAfter none = ⊥
CurrentAfter (some s) = IsCurrent s

migrate-current : (s : Schema) → IsRelease s → CurrentAfter (migrate s)
unfolding migrate
migrate-current s h = go s.version refl
  where
    go : (o : Option ℕ) → s.version ≡ o → CurrentAfter (migrate s)
    go none e = ground (arith, h.unversioned e)
    go (some v) e =
        ground (arith, h.versioned v e, h.first v e, h.second v e, h.third v e, h.fourth v e)

current_fixed : (s : Schema) → IsCurrent s → migrate s ≡ some s
unfolding migrate
current_fixed s c = rw (c.version)

-- From an empty database and from every earlier release, migration succeeds, gives every table and
-- column of the current version, and is idempotent: a second run changes nothing.
pub migrate_total :
    (s : Schema)
    → IsRelease s
    → (s' : Schema) × (migrate s ≡ some s') × IsCurrent s' × (migrate s' ≡ some s')
migrate_total s h = go (migrate s) refl (migrate-current s h)
  where
    go :
        (o : Option Schema)
        → migrate s ≡ o
        → CurrentAfter o
        → (s' : Schema) × (migrate s ≡ some s') × IsCurrent s' × (migrate s' ≡ some s')
    go none e c = absurd c
    go (some s') e c = (s', e, c, current_fixed s' c)

abbrev pub cascades_after : Option Schema → Option Members
cascades_after none = none
cascades_after (some s) = s.groups

-- A fresh database deletes the members of a group with the group; one that is upgraded from a
-- release before groups has no such foreign key.
pub migrate_members :
    (s : Schema) (v : ℕ)
    → IsRelease s
    → s.version ≡ some v
    → v < 3
    → (cascades_after (migrate blank) ≡ some (record { cascades = true }))
      × (cascades_after (migrate s) ≡ some (record { cascades = false }))
unfolding migrate
migrate_members s v h e l =
    ground (arith, h.versioned v e, h.first v e, h.second v e, h.third v e, h.fourth v e)
