-- ===== src/Groups/Names.antt =====
-- `normalise_group_name` of agent_peer/groups.py.
use hermes_walkie_talkie.Prelude.{
  ℕ, zero, suc, String, Bool, false, ◌&&◌, ◌||◌, List, [], ◌∷◌, str_eq, ltb, leb, ◌==◌,
  if◌then◌else◌, length,
}
use hermes_walkie_talkie.Errors.{Result, ok, err, validation_error}
use hermes_walkie_talkie.Models.Uuid.{codes, at_dollar}

-- `name.strip().casefold()`, of Python's Unicode tables.
pub record TextLib : Type 0 where
  pub strip_casefold : String → String

-- [A-Za-z0-9]
abbrev pub is_alnum : ℕ → Bool
is_alnum c = (leb b'0' c && leb c b'9') || (leb b'a' c && leb c b'z') || (leb b'A' c && leb c b'Z')

-- [A-Za-z0-9._ -]
abbrev pub is_inner : ℕ → Bool
is_inner c = is_alnum c || c == b'.' || c == b'_' || c == b' ' || c == b'-'

-- [A-Za-z0-9._ -]{0,n}[A-Za-z0-9]$
inner_match : ℕ → List ℕ → Bool
inner_match n [] = false
inner_match zero (c ∷ cs) = is_alnum c && at_dollar cs
inner_match (suc n) (c ∷ cs) = (is_alnum c && at_dollar cs) || (is_inner c && inner_match n cs)

-- `_NAME_RE.match(norm)`
unfoldable pub name_match : List ℕ → Bool
unfolding inner_match
name_match [] = false
name_match (c ∷ cs) = is_alnum c && (inner_match 62 cs || at_dollar cs)

unfoldable pub normalise_group_name : TextLib → String → Result String
normalise_group_name lib name =
    let norm = lib.strip_casefold name in
    if str_eq norm ""
    then err validation_error
    else if ltb 64 (length (codes norm))
    then err validation_error
    else if name_match (codes norm)
    then ok norm
    else err validation_error
