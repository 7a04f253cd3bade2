-- ===== src/Codec/Streams.antt =====
-- Whole byte streams through `FrameDecoder.feed` of agent_peer/codec.py.
use hermes_walkie_talkie.Prelude.{
  ℕ, zero, suc, ◌+◌, ◌≤◌, ◌<◌, String, ◌≡◌, refl, ap, ◌∙◌, inl, inr, Option, none, some, List, [],
  ◌∷◌, ◌++◌, arith, ltb, Bool-cases, length, length-append, length-drop,
}
use hermes_walkie_talkie.Errors.{Result, ok, err}
use hermes_walkie_talkie.Models.{Envelope}
use hermes_walkie_talkie.Codec.{
  Library, encode_frame, decode_envelope, FrameDecoder, fresh, Turn, waits, fails, frame,
  take_payload, read_length, turn, Fed, yield_envelope, feed_loop, feed, max_frame_bytes,
  from_bytes,
}
use hermes_walkie_talkie.Codec.Frames.{turn-encode_frame, encode_frame-bytes}

-- Texts, their frames, and the envelopes that they decode to at a time.
abbrev pub AreFrames : Library → ℕ → List String → List ℕ → List Envelope → Type 0
AreFrames lib now [] bytes es = (bytes ≡ []) × (es ≡ [])
AreFrames lib now (p ∷ ps) bytes es =
    (f : List ℕ) × (rest : List ℕ) × (env : Envelope) × (envs : List Envelope) × (encode_frame lib p
      ≡ ok f)
    × (decode_envelope lib now (lib.encode p) ≡ ok env)
    × (bytes ≡ f ++ rest)
    × (es ≡ env ∷ envs)
    × AreFrames lib now ps rest envs

-- A turn that yields a payload leaves fewer bytes, if the length was not read before.
abbrev Shrinks : ℕ → Turn → Type 0
Shrinks n (waits s) = Unit
Shrinks n (fails e s) = Unit
Shrinks n (frame p s) = (length s.buffer < n) × (s.expected ≡ none)

abbrev Stays : ℕ → Turn → Type 0
Stays n (waits s) = Unit
Stays n (fails e s) = Unit
Stays n (frame p s) = (length s.buffer ≤ n) × (s.expected ≡ none)

take_payload-Stays : (n : ℕ) (buf : List ℕ) → Stays (length buf) (take_payload n buf)
take_payload-Stays n buf = elim (Bool-cases (ltb (length buf) n)) [
  | inl short ↦ rw short tt
  | inr long ↦ rw long (omega (arith, length-drop n buf), refl)
]

read_length-Shrinks : (buf : List ℕ) → Shrinks (length buf) (read_length buf)
read_length-Shrinks [] = tt
read_length-Shrinks (a ∷ []) = tt
read_length-Shrinks (a ∷ b ∷ []) = tt
read_length-Shrinks (a ∷ b ∷ c ∷ []) = tt
read_length-Shrinks (a ∷ b ∷ c ∷ d ∷ rest) =
    elim (Bool-cases (ltb max_frame_bytes (from_bytes a b c d))) [
      | inl big ↦ rw big tt
      | inr small ↦ rw small (elim (Bool-cases (ltb (length rest) (from_bytes a b c d))) [
        | inl short ↦ rw short tt
        | inr long ↦ rw long (omega (arith, length-drop (from_bytes a b c d) rest), refl)
      ])
    ]

-- The result of a loop that has ended.
abbrev pub HasEnded : Option Fed → Type 0
HasEnded o = (r : Fed) × (o ≡ some r)

yield-HasEnded :
    (d : Result Envelope) (s : FrameDecoder) (o : Option Fed)
    → HasEnded o
    → HasEnded (yield_envelope d s o)
yield-HasEnded (err e) s o h = (_, refl)
yield-HasEnded (ok env) s o h = rw h.1 (_, refl)

feed_loop-HasEnded :
    (lib : Library) (now fuel : ℕ) (s : FrameDecoder)
    → s.expected ≡ none
    → length s.buffer < fuel
    → HasEnded (feed_loop lib now fuel s)
unfolding feed_loop turn
feed_loop-HasEnded lib now zero s e h = absurd (omega (arith, h))
feed_loop-HasEnded lib now (suc f) s e h = rw e (
    go (read_length s.buffer) (read_length-Shrinks s.buffer)
      (λ t k i. feed_loop-HasEnded lib now f t k i))
  where
    go :
        (t : Turn)
        → Shrinks (length s.buffer) t
        → ((u : FrameDecoder)
            → u.expected ≡ none
            → length u.buffer < f
            → HasEnded (feed_loop lib now f u))
        → HasEnded (elim t [
          | waits s' ↦ some (record { envelopes = []; raised = none; decoder = s' })
          | fails e s' ↦ some (record { envelopes = []; raised = some e; decoder = s' })
          | frame payload s' ↦
              yield_envelope (decode_envelope lib now payload) s' (feed_loop lib now f s')
        ])
    go (waits u) k ih = (_, refl)
    go (fails x u) k ih = (_, refl)
    go (frame p u) k ih =
        yield-HasEnded (decode_envelope lib now p) u (feed_loop lib now f u)
          (ih u k.1 (omega (arith, k.0, h)))

feed_with-HasEnded :
    (lib : Library) (now fuel : ℕ) (buf : List ℕ) (o : Option ℕ)
    → length buf + 1 < fuel
    → HasEnded (feed_loop lib now fuel (record { buffer = buf; expected = o }))
unfolding feed_loop turn
feed_with-HasEnded lib now fuel buf none h =
    feed_loop-HasEnded lib now fuel (record { buffer = buf; expected = none }) refl
      (omega (arith, h))
feed_with-HasEnded lib now zero buf (some n) h = absurd (omega (arith, h))
feed_with-HasEnded lib now (suc f) buf (some n) h =
    go (take_payload n buf) (take_payload-Stays n buf)
  where
    go :
        (t : Turn)
        → Stays (length buf) t
        → HasEnded (elim t [
          | waits s' ↦ some (record { envelopes = []; raised = none; decoder = s' })
          | fails e s' ↦ some (record { envelopes = []; raised = some e; decoder = s' })
          | frame payload s' ↦
              yield_envelope (decode_envelope lib now payload) s' (feed_loop lib now f s')
        ])
    go (waits u) k = (_, refl)
    go (fails x u) k = (_, refl)
    go (frame p u) k =
        yield-HasEnded (decode_envelope lib now p) u (feed_loop lib now f u)
          (feed_loop-HasEnded lib now f u k.1 (omega (arith, k.0, h)))

-- `feed` ends on any bytes, in any state of the decoder.
pub feed_total :
    (lib : Library) (now : ℕ) (bytes : List ℕ) (s : FrameDecoder)
    → (r : Fed) × (feed lib now bytes s ≡ some r)
unfolding feed
feed_total lib now bytes s =
    feed_with-HasEnded lib now (length (s.buffer ++ bytes) + 2) (s.buffer ++ bytes) s.expected
      (omega arith)

length-frames-le :
    (lib : Library) (now : ℕ) (ps : List String) (bytes : List ℕ) (es : List Envelope)
    → AreFrames lib now ps bytes es
    → length ps ≤ length bytes
length-frames-le lib now [] bytes es h = omega arith
length-frames-le lib now (p ∷ ps) bytes es (f, rest, env, envs, encoded, decoded, is, are, more) =
    let size : length bytes ≡ length f + length rest = ap length is ∙ length-append f rest in
    let head = ap length (encode_frame-bytes lib p f encoded).1 in
    omega (arith, size, head, length-frames-le lib now ps rest envs more)

turn-fresh : turn fresh ≡ waits fresh
unfolding turn
turn-fresh = refl

feed_loop_frames :
    (lib : Library) (now fuel : ℕ) (ps : List String) (bytes : List ℕ) (es : List Envelope)
    → AreFrames lib now ps bytes es
    → length ps < fuel
    → feed_loop lib now fuel (record { buffer = bytes; expected = none })
      ≡ some (record { envelopes = es; raised = none; decoder = fresh })
unfolding feed_loop
feed_loop_frames lib now zero ps bytes es h k = absurd (omega (arith, k))
feed_loop_frames lib now (suc f) [] bytes es h k = rw (h.0, h.1) (rw (turn-fresh, feed_loop) refl)
feed_loop_frames lib now (suc n) (p ∷ ps) bytes es
      (f, rest, env, envs, encoded, decoded, is, are, more) k =
    rw (is, are)
      (rw (turn-encode_frame lib p f rest encoded, feed_loop)
        (rw decoded (rw (feed_loop_frames lib now n ps rest envs more (omega (arith, k))) refl)))

-- A fresh decoder that is fed the frames of some texts, one behind the other, yields the envelope of
-- each, in order, and is fresh again. Each text has to decode to its envelope at that time.
pub feed_frames :
    (lib : Library) (now : ℕ) (ps : List String) (bytes : List ℕ) (es : List Envelope)
    → AreFrames lib now ps bytes es
    → feed lib now bytes fresh ≡ some (record { envelopes = es; raised = none; decoder = fresh })
unfolding feed
feed_frames lib now ps bytes es h =
    feed_loop_frames lib now (length bytes + 2) ps bytes es h
      (omega (arith, length-frames-le lib now ps bytes es h))
