-- ===== src/Codec/Frames.antt =====
-- Single frames of agent_peer/codec.py: `encode_frame` and one turn of `FrameDecoder.feed`.
use hermes_walkie_talkie.Prelude.{
  ℕ, ◌/◌, ◌%◌, ◌≤◌, ◌<◌, String, ◌≡◌, refl, sym, ap, inl, inr, true, false, none, List, [], ◌∷◌,
  ◌++◌, arith, ltb, lt→ltb, Bool-cases, length, take, drop, length-append,
}
use hermes_walkie_talkie.Errors.{Result, ok, err, oversized}
use hermes_walkie_talkie.Errors.{Result, ok, err, oversized}
use hermes_walkie_talkie.Codec.{
  Library, max_frame_bytes, to_bytes, from_bytes, encode_frame, fails, frame, take_payload, turn,
}

from_bytes-to_bytes :
    (n : ℕ)
    → n ≤ max_frame_bytes
    → from_bytes (n / 16777216 % 256) (n / 65536 % 256) (n / 256 % 256) (n % 256) ≡ n
from_bytes-to_bytes n h = omega arith

take-append : (xs ys : List ℕ) → take (length xs) (xs ++ ys) ≡ xs
take-append [] ys = refl
take-append (x ∷ xs) ys = ap (λ t. x ∷ t) (take-append xs ys)

drop-append : (xs ys : List ℕ) → drop (length xs) (xs ++ ys) ≡ ys
drop-append [] ys = refl
drop-append (x ∷ xs) ys = drop-append xs ys

take_payload-append :
    (xs ys : List ℕ)
    → take_payload (length xs) (xs ++ ys) ≡ frame xs (record { buffer = ys; expected = none })
take_payload-append xs ys =
    let fits : ltb (length (xs ++ ys)) (length xs) ≡ false = ground (arith, length-append xs ys) in
    rw fits (rw (take-append xs ys) (rw (drop-append xs ys) refl))

ok-inj : {A : Type 0} (a b : A) → ok a ≡ ok b → a ≡ b
ok-inj a b h = ground (arith, h)

-- What a frame is: the length of the payload in four bytes, and the payload.
pub encode_frame-bytes :
    (lib : Library) (payload : String) (bytes : List ℕ)
    → encode_frame lib payload ≡ ok bytes
    → (length (lib.encode payload) ≤ max_frame_bytes)
      × (bytes ≡ to_bytes (length (lib.encode payload)) ++ lib.encode payload)
unfolding encode_frame
encode_frame-bytes lib payload bytes h =
    elim (Bool-cases (ltb max_frame_bytes (length (lib.encode payload)))) [
      | inl big ↦
          let bad : ◌≡◌ {A = Result (List ℕ)} (err oversized) (ok bytes) =
            rw (big, encode_frame) at h in
          cc
      | inr small ↦
          let good : ok (to_bytes (length (lib.encode payload)) ++ lib.encode payload) ≡ ok bytes =
            rw (small, encode_frame) at h in
          (ground (arith, small), sym (ok-inj _ _ good))
    ]

turn-bytes :
    (body rest : List ℕ)
    → length body ≤ max_frame_bytes
    → turn (record { buffer = (to_bytes (length body) ++ body) ++ rest; expected = none })
      ≡ frame body (record { buffer = rest; expected = none })
unfolding turn
turn-bytes body rest h = rw (from_bytes-to_bytes (length body) h) (
    let fits : ltb max_frame_bytes (length body) ≡ false = ground (arith, h) in
    rw fits (take_payload-append body rest))

-- A frame at the start of the buffer is taken off whole, whatever bytes follow it.
pub turn-encode_frame :
    (lib : Library) (payload : String) (bytes rest : List ℕ)
    → encode_frame lib payload ≡ ok bytes
    → turn (record { buffer = bytes ++ rest; expected = none })
      ≡ frame (lib.encode payload) (record { buffer = rest; expected = none })
turn-encode_frame lib payload bytes rest h =
    let (small, is) = encode_frame-bytes lib payload bytes h in
    rw is (turn-bytes (lib.encode payload) rest small)

-- A prefix above the ceiling is refused from the four bytes alone, before any payload is waited for.
pub turn_oversized :
    (a b c d : ℕ) (rest : List ℕ)
    → max_frame_bytes < from_bytes a b c d
    → turn (record { buffer = a ∷ b ∷ c ∷ d ∷ rest; expected = none })
      ≡ fails oversized (record { buffer = a ∷ b ∷ c ∷ d ∷ rest; expected = none })
unfolding turn
turn_oversized a b c d rest h =
    let big : ltb max_frame_bytes (from_bytes a b c d) ≡ true =
      lt→ltb max_frame_bytes (from_bytes a b c d) h in
    rw big refl
