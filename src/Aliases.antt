-- ===== src/Aliases.antt =====
-- The aliases of agent_peer/identity.py. The alias file is the dict that `_load` reads from it, as a
-- list of entries with strings as values; a missing or broken file is the empty dict.
pub mod Laws
use hermes_walkie_talkie.Prelude.{
  ℕ, zero, suc, ◌+◌, ◌-◌, ◌*◌, ◌/◌, ◌%◌, ◌^◌, ◌≤◌, ◌<◌, min, String, ◌≡◌, refl, sym, ap, ◌∙◌, ◌≢◌,
  ◌↔◌, ◌⊎◌, inl, inr, Bool, true, false, ◌&&◌, ◌||◌, not, Option, none, some, List, [], ◌∷◌, ◌++◌,
  map, arith, str_eq, eq_iff, eq_refl, ltb, leb, ◌==◌, str_lt, if◌then◌else◌, ltb→lt, lt→ltb,
  leb→le, ==_iff, Bool-cases, Option-cases, is_some, or_else, length, take, drop, length-append,
  length-take, length-drop, All, All-append, All-imp, All-take, All-drop,
}
use Prim.Native.String.{◌++◌ as text_append}
use hermes_walkie_talkie.Errors.{Result, ok, err, validation_error}
use hermes_walkie_talkie.Models.Uuid.{codes}

-- `str.strip`, `str.isspace` of one character, and the two functions of `os.path`.
pub record Library : Type 0 where
  pub strip : String → String
  pub isspace : ℕ → Bool
  pub normpath : String → String
  pub basename : String → String

pub record Alias : Type 0 where
  pub peer_id : String
  pub name : String

-- A space, a slash or a backslash.
abbrev pub is_separator : Library → ℕ → Bool
is_separator lib c = lib.isspace c || c == 47 || c == 92

abbrev pub any_separator : Library → List ℕ → Bool
any_separator lib [] = false
any_separator lib (c ∷ cs) = is_separator lib c || any_separator lib cs

abbrev pub starts_with_dash : List ℕ → Bool
starts_with_dash [] = false
starts_with_dash (c ∷ cs) = c == b'-'

unfoldable pub validate_alias : Library → String → Result String
validate_alias lib raw =
    let name = lib.strip raw in
    if str_eq name ""
    then err validation_error
    else if ltb 64 (length (codes name))
    then err validation_error
    else if any_separator lib (codes name)
    then err validation_error
    else if starts_with_dash (codes name)
    then err validation_error
    else ok name

-- `data[peer_id] = name`
abbrev pub put : String → String → List Alias → List Alias
put p n [] = record { peer_id = p; name = n } ∷ []
put p n (a ∷ rows) = if str_eq a.peer_id p then record a { name = n } ∷ rows else a ∷ put p n rows

abbrev pub stored : String → Result String → List Alias → Result (Unit {0}) × List Alias
stored p (ok n) rows = (ok tt, put p n rows)
stored p (err e) rows = (err e, rows)

unfoldable pub set_alias : Library → String → String → List Alias → Result (Unit {0}) × List Alias
set_alias lib p name rows = stored p (validate_alias lib name) rows

unfoldable pub get_alias : String → List Alias → Option String
get_alias p [] = none
get_alias p (a ∷ rows) = if str_eq a.peer_id p then some a.name else get_alias p rows

-- `text[:n]`
abbrev pub prefix : ℕ → String → String
prefix zero s = ""
prefix (suc n) String.[] = ""
prefix (suc n) (String.◌∷◌ c s) = String.◌∷◌ c (prefix n s)

unfoldable pub default_name : Library → String → String → String
default_name lib cwd p =
    let base = lib.basename (lib.normpath cwd) in
    text_append (if str_eq base "" then "session" else base) (text_append "-" (prefix 6 p))

abbrev pub name_or : Option String → String → String
name_or none default = default
name_or (some n) default = if str_eq n "" then default else n

unfoldable pub effective_name : Library → String → String → List Alias → String
effective_name lib p base rows = name_or (get_alias p rows) (default_name lib base p)
