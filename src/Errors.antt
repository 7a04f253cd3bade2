-- ===== src/Errors.antt =====
-- agent_peer/errors.py: the exceptions that the core raises, and results that may be one.
use hermes_walkie_talkie.Prelude.{Bool, true, false}

-- The classes that the modelled code raises, with those of the Python library that it lets through.
pub data Error : Type 0 where
  validation_error unsupported_version frame_error oversized unreachable timeout : Error
  integrity_error value_error attribute_error overflow_error invalid_transition : Error
  type_error discovery_error ambiguous_peer os_error runtime_error : Error

pub data Result {ℓ} (A : Type ℓ) : Type ℓ where
  ok : A → Result A
  err : Error → Result A

infixl 5 ◌>>=◌
abbrev pub ◌>>=◌ {ℓ κ} : {A : Type ℓ} {B : Type κ} → Result A → (A → Result B) → Result B
ok a >>= f = f a
err e >>= f = err e

-- `if not b: raise e`.
abbrev pub guard : Bool → Error → Result (Unit {0})
guard true e = ok tt
guard false e = err e

infixl 5 ◌>>◌
abbrev pub ◌>>◌ {ℓ} : {B : Type ℓ} → Result (Unit {0}) → Result B → Result B
m >> k = m >>= λ _. k
