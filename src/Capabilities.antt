-- ===== src/Capabilities.antt =====
-- agent_peer/capabilities.py: the advertised protocols and flags of a peer. A missing advertisement
-- is the empty list.
use hermes_walkie_talkie.Prelude.{
  String, ◌≡◌, refl, ap, ◌∙◌, Bool, false, ◌||◌, List, [], ◌∷◌, arith, str_eq, eq_iff, eq_refl,
  if◌then◌else◌,
}
use hermes_walkie_talkie.Models.{protocol_id, protocol_id_v2}
use hermes_walkie_talkie.Models.Peers.{Capability, is_known, or_default}

-- `p in set(ps)`
abbrev pub contains : String → List String → Bool
contains p [] = false
contains p (q ∷ qs) = str_eq q p || contains p qs

-- `set(SUPPORTED_PROTOCOLS) & theirs`
abbrev pub supported : List String → List String
supported [] = []
supported (p ∷ ps) = let rest = supported ps in if is_known p then p ∷ rest else rest

abbrev choose : List String → String
choose [] = protocol_id
choose ms = if contains protocol_id_v2 ms then protocol_id_v2 else protocol_id

unfoldable pub highest_mutual_protocol : List String → String
highest_mutual_protocol advertised = choose (supported (or_default advertised))

unfoldable pub supports_v2 : List String → Bool
supports_v2 advertised = contains protocol_id_v2 advertised

-- A dict has one entry for a flag; a missing flag, or any value but True, is false.
unfoldable pub capability_flag : List Capability → String → Bool
capability_flag [] flag = false
capability_flag (c ∷ cs) flag =
    let rest = capability_flag cs flag in if str_eq c.flag flag then c.is_true else rest

contains-supported :
    (ps : List String) → contains protocol_id_v2 (supported ps) ≡ contains protocol_id_v2 ps
contains-supported [] = refl
contains-supported (p ∷ ps) =
    ground (arith, contains-supported ps, eq_iff p protocol_id_v2, eq_refl protocol_id_v2)

choose-eq :
    (ms : List String)
    → choose ms ≡ (if contains protocol_id_v2 ms then protocol_id_v2 else protocol_id)
choose-eq [] = refl
choose-eq (m ∷ ms) = refl

-- The negotiated protocol is the second exactly when the peer supports it, and the first otherwise,
-- whatever unknown protocols it advertises.
pub highest_mutual_protocol-eq-supports_v2 :
    (ps : List String)
    → highest_mutual_protocol ps ≡ (if supports_v2 ps then protocol_id_v2 else protocol_id)
unfolding highest_mutual_protocol supports_v2
highest_mutual_protocol-eq-supports_v2 [] = refl
highest_mutual_protocol-eq-supports_v2 (p ∷ ps) =
    choose-eq (supported (p ∷ ps))
    ∙ ap (λ b. if b then protocol_id_v2 else protocol_id) (contains-supported (p ∷ ps))
