-- ===== src/Models/Uuid.antt =====
-- `_UUID_RE` and `_require_uuid` of agent_peer/models.py.
use Prim.Native.Char.{code}
use hermes_walkie_talkie.Prelude.{
  ℕ, zero, suc, String, ◌≡◌, refl, Bool, true, false, ◌&&◌, ◌||◌, List, [], ◌∷◌, ◌++◌, arith, leb,
  ◌==◌, if◌then◌else◌, length,
}
use hermes_walkie_talkie.Errors.{Result, ok, err, validation_error}

abbrev pub codes : String → List ℕ
codes String.[] = []
codes (String.◌∷◌ c s) = code c ∷ codes s

-- [0-9a-fA-F]
abbrev is_hex : ℕ → Bool
is_hex c = (leb b'0' c && leb c b'9') || (leb b'a' c && leb c b'f') || (leb b'A' c && leb c b'F')

-- The character classes of the pattern: `true` is a hexadecimal digit, `false` is a dash.
abbrev hexes : ℕ → List Bool → List Bool
hexes zero rest = rest
hexes (suc n) rest = true ∷ hexes n rest

abbrev pattern_classes : List Bool
pattern_classes =
    hexes 8 (false ∷ hexes 4 (false ∷ hexes 4 (false ∷ hexes 4 (false ∷ hexes 12 []))))

abbrev fits : Bool → ℕ → Bool
fits true c = is_hex c
fits false c = c == b'-'

-- `$` matches at the end of the text, and before a newline that ends it.
unfoldable pub at_dollar : List ℕ → Bool
at_dollar [] = true
at_dollar (c ∷ []) = c == 10
at_dollar _ = false

pub match_classes : List Bool → List ℕ → Bool
unfolding at_dollar
match_classes [] cs = at_dollar cs
match_classes (k ∷ ks) [] = false
match_classes (k ∷ ks) (c ∷ cs) = fits k c && match_classes ks cs

-- `_UUID_RE.match(value)`
unfoldable pub uuid_match : String → Bool
unfolding match_classes
uuid_match s = match_classes pattern_classes (codes s)

unfoldable pub require_uuid : String → Result (Unit {0})
require_uuid s = if uuid_match s then ok tt else err validation_error

match_classes-newline :
    (ks : List Bool) (cs : List ℕ)
    → length cs ≡ length ks
    → match_classes ks cs ≡ true
    → match_classes ks (cs ++ 10 ∷ []) ≡ true
unfolding match_classes
match_classes-newline [] [] l h = refl
match_classes-newline [] (c ∷ cs) l h = absurd (omega arith)
match_classes-newline (k ∷ ks) [] l h = cc
match_classes-newline (k ∷ ks) (c ∷ cs) l h =
    ground (arith, match_classes-newline ks cs (omega arith))

-- Every text of 36 characters that is accepted as a UUID is accepted with a newline behind it too:
-- the pattern ends in `$`, and `match` does not exclude a last newline.
pub uuid_match-newline :
    (s t : String)
    → codes t ≡ codes s ++ 10 ∷ []
    → length (codes s) ≡ 36
    → uuid_match s ≡ true
    → uuid_match t ≡ true
unfolding uuid_match
uuid_match-newline s t e l h = rw e (match_classes-newline pattern_classes (codes s) l h)
