-- ===== src/Codec/Turns.antt =====
-- One turn of `FrameDecoder.feed` of agent_peer/codec.py, with more bytes behind the buffer.
use hermes_walkie_talkie.Prelude.{
  ℕ, zero, suc, ◌≤◌, ◌≡◌, refl, ap, inl, inr, false, Option, none, some, List, [], ◌∷◌, ◌++◌, arith,
  ltb, Bool-cases, length, take, drop, length-append,
}
use hermes_walkie_talkie.Codec.{
  FrameDecoder, Turn, waits, fails, frame, take_payload, read_length, turn_of, turn,
  max_frame_bytes, from_bytes,
}

-- More bytes behind the buffer.
abbrev pub receive : List ℕ → FrameDecoder → FrameDecoder
receive b s = record s { buffer = s.buffer ++ b }

-- What a turn becomes when more bytes stand behind the buffer.
abbrev pub Extends : List ℕ → Turn → Turn → Type 0
Extends b (waits s) t = turn (receive b s) ≡ t
Extends b (fails e s) t = Unit
Extends b (frame p s) t = t ≡ frame p (receive b s)

take-append_le : (n : ℕ) (xs ys : List ℕ) → n ≤ length xs → take n (xs ++ ys) ≡ take n xs
take-append_le zero xs ys h = refl
take-append_le (suc n) [] ys h = absurd (omega (arith, h))
take-append_le (suc n) (x ∷ xs) ys h = ap (λ t. x ∷ t) (take-append_le n xs ys (omega (arith, h)))

drop-append_le : (n : ℕ) (xs ys : List ℕ) → n ≤ length xs → drop n (xs ++ ys) ≡ drop n xs ++ ys
drop-append_le zero xs ys h = refl
drop-append_le (suc n) [] ys h = absurd (omega (arith, h))
drop-append_le (suc n) (x ∷ xs) ys h = drop-append_le n xs ys (omega (arith, h))

take_payload-Extends :
    (b : List ℕ) (n : ℕ) (buf : List ℕ) → Extends b (take_payload n buf) (take_payload n (buf ++ b))
unfolding turn
take_payload-Extends b n buf = elim (Bool-cases (ltb (length buf) n)) [
  | inl short ↦ rw short refl
  | inr long ↦
      let enough : n ≤ length buf = not_above (length buf) n long in
      let still : ltb (length (buf ++ b)) n ≡ false =
        above (length (buf ++ b)) n (omega (arith, enough, length-append buf b)) in
      rw long
        (rw still (rw (take-append_le n buf b enough) (rw (drop-append_le n buf b enough) refl)))
]
  where
    not_above : (i j : ℕ) → ltb i j ≡ false → j ≤ i
    not_above i j h = ground arith

    above : (i j : ℕ) → j ≤ i → ltb i j ≡ false
    above i j h = ground arith

read_length-Extends : (b buf : List ℕ) → Extends b (read_length buf) (read_length (buf ++ b))
unfolding turn
read_length-Extends b [] = refl
read_length-Extends b (a ∷ []) = refl
read_length-Extends b (a ∷ c ∷ []) = refl
read_length-Extends b (a ∷ c ∷ d ∷ []) = refl
read_length-Extends b (a ∷ c ∷ d ∷ e ∷ rest) =
    elim (Bool-cases (ltb max_frame_bytes (from_bytes a c d e))) [
      | inl big ↦ rw big tt
      | inr small ↦ rw small (take_payload-Extends b (from_bytes a c d e) rest)
    ]

pub turn-Extends : (b : List ℕ) (s : FrameDecoder) → Extends b (turn s) (turn (receive b s))
unfolding turn
turn-Extends b s = go s.expected
  where
    go : (o : Option ℕ) → Extends b (turn_of o s.buffer) (turn_of o (s.buffer ++ b))
    go none = read_length-Extends b s.buffer
    go (some n) = take_payload-Extends b n s.buffer
