-- ===== src/Registry/Constructor.antt =====
-- What `PeerRecord(...)` and `dataclasses.replace` keep of a record.
use hermes_walkie_talkie.Prelude.{String, ◌≡◌, refl, sym, ap, ◌∙◌, [], str_eq, if◌then◌else◌}
use hermes_walkie_talkie.Errors.{Result, ok, err, ◌>>=◌, ◌>>◌, guard, validation_error}
use hermes_walkie_talkie.Models.Uuid.{require_uuid}
use hermes_walkie_talkie.Models.Presences
use hermes_walkie_talkie.Models.Peers.{PeerRecord, peer_record, or_default, all_known, is_known}
use hermes_walkie_talkie.Registry.{Changes, changed, stamped}

-- The fields that no update writes: who the peer is, what it can do and where it listens.
abbrev pub identity : PeerRecord → PeerRecord
identity r = record r {
  name = "";
  status = "";
  current_activity = "";
  last_seen = "";
  started_at = "";
  protocols = [];
}

pub ok-injective {ℓ} : {A : Type ℓ} (a b : A) → ok a ≡ ok b → a ≡ b
ok-injective a b h = cc

pub bind_ok {ℓ κ} :
    {A : Type ℓ} {B : Type κ} (m : Result A) (f : A → Result B) (b : B)
    → (m >>= f) ≡ ok b
    → (a : A) × (m ≡ ok a) × (f a ≡ ok b)
bind_ok (ok a) f b h = (a, refl, h)
bind_ok (err e) f b h = cc

-- Five checks in a row, and a value.
checked {ℓ} :
    {A : Type ℓ} (a b c d e : Result (Unit {0})) (v u : A)
    → (a >> (b >> (c >> (d >> (e >> ok v))))) ≡ ok u
    → u ≡ v
checked (ok _) (ok _) (ok _) (ok _) (ok _) v u h = cc
checked (err e) _ _ _ _ v u h = cc
checked (ok _) (err e) _ _ _ v u h = cc
checked (ok _) (ok _) (err e) _ _ v u h = cc
checked (ok _) (ok _) (ok _) (err e) _ v u h = cc
checked (ok _) (ok _) (ok _) (ok _) (err e) v u h = cc

checked_again {ℓ κ} :
    {A : Type ℓ} {B : Type κ} (a b c d e : Result (Unit {0})) (v u : A) (w : B)
    → (a >> (b >> (c >> (d >> (e >> ok v))))) ≡ ok u
    → (a >> (b >> (c >> (d >> (e >> ok w))))) ≡ ok w
checked_again (ok _) (ok _) (ok _) (ok _) (ok _) v u w h = refl
checked_again (err e) _ _ _ _ v u w h = cc
checked_again (ok _) (err e) _ _ _ v u w h = cc
checked_again (ok _) (ok _) (err e) _ _ v u w h = cc
checked_again (ok _) (ok _) (ok _) (err e) _ v u w h = cc
checked_again (ok _) (ok _) (ok _) (ok _) (err e) v u w h = cc

-- A record that is constructed differs from the arguments in the default of `protocols` only.
pub peer_record-ok :
    (r u : PeerRecord) → peer_record r ≡ ok u → u ≡ record r { protocols = or_default r.protocols }
unfolding peer_record
peer_record-ok r u h =
    checked (require_uuid r.peer_id) (require_uuid r.instance_id)
      (if str_eq r.agent_id "" then ok tt else require_uuid r.agent_id)
      (guard (all_known (or_default r.protocols)) validation_error)
      (Presences.of_value r.status >>= λ status. guard (is_known r.protocol) validation_error)
      (record r { protocols = or_default r.protocols }) u h

pub peer_record-identity : (r u : PeerRecord) → peer_record r ≡ ok u → identity u ≡ identity r
peer_record-identity r u h = rw (peer_record-ok r u h) refl

pub changed-identity :
    (now : String) (c : Changes) (r : PeerRecord) → identity (changed now c r) ≡ identity r
unfolding changed
changed-identity now c r = refl

pub peer_id_same : (r u : PeerRecord) → identity u ≡ identity r → u.peer_id ≡ r.peer_id
peer_id_same r u h = ap (λ x. x.peer_id) h

-- The constructor does not look at the time stamps.
pub peer_record-stamped :
    (now : String) (r : PeerRecord)
    → peer_record r ≡ ok r
    → peer_record (stamped now r) ≡ ok (stamped now r)
unfolding peer_record
peer_record-stamped now r h =
    let same : or_default r.protocols ≡ r.protocols =
      ap (λ x. x.protocols) (sym (peer_record-ok r r h)) in
    checked_again (require_uuid r.peer_id) (require_uuid r.instance_id)
      (if str_eq r.agent_id "" then ok tt else require_uuid r.agent_id)
      (guard (all_known (or_default r.protocols)) validation_error)
      (Presences.of_value r.status >>= λ status. guard (is_known r.protocol) validation_error)
      (record r { protocols = or_default r.protocols }) r
      (record (stamped now r) { protocols = or_default r.protocols }) h
    ∙ rw same refl
