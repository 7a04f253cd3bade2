-- ===== src/Aliases/Laws.antt =====
-- What `AliasStore` of agent_peer/identity.py gives back.
use hermes_walkie_talkie.Prelude.{
  String, ◌≡◌, refl, false, some, List, [], ◌∷◌, arith, str_eq, eq_iff, eq_refl, if◌then◌else◌,
}
use hermes_walkie_talkie.Errors.{ok}
use hermes_walkie_talkie.Aliases.{
  Library, Alias, validate_alias, put, set_alias, get_alias, effective_name,
}

get-put :
    (p q n : String) (rows : List Alias)
    → get_alias q (put p n rows) ≡ (if str_eq p q then some n else get_alias q rows)
unfolding get_alias
get-put p q n [] = refl
get-put p q n (a ∷ rows) =
    ground (arith, get-put p q n rows, eq_iff a.peer_id p, eq_iff a.peer_id q, eq_iff p q)

validate_alias-nonempty :
    (lib : Library) (raw n : String) → validate_alias lib raw ≡ ok n → str_eq n "" ≡ false
unfolding validate_alias
validate_alias-nonempty lib raw n h = ground (arith)

-- A valid alias is the effective name of its peer afterwards, in its stripped form; the alias of every
-- other peer is as it was.
pub effective_name-set_alias :
    (lib : Library) (p q base raw n : String) (rows : List Alias)
    → validate_alias lib raw ≡ ok n
    → let rows' = (set_alias lib p raw rows).1 in
      (effective_name lib p base rows' ≡ n)
      × (get_alias q rows' ≡ (if str_eq p q then some n else get_alias q rows))
unfolding set_alias effective_name
effective_name-set_alias lib p q base raw n rows h = rw h (
  rw (get-put p p n rows) (rw (eq_refl p) (rw (validate_alias-nonempty lib raw n h) refl)),
  get-put p q n rows,
)
