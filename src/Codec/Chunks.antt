-- ===== src/Codec/Chunks.antt =====
-- `FrameDecoder.feed` of agent_peer/codec.py reads a stream, however it is cut into pieces.
use hermes_walkie_talkie.Prelude.{
  ℕ, zero, suc, ◌+◌, ◌≡◌, refl, sym, ap, ◌∙◌, Option, none, some, List, [], ◌∷◌, ◌++◌, arith,
  or_else, length,
}
use mathlib.Core.List.{append_assoc}
use hermes_walkie_talkie.Errors.{Result, ok, err}
use hermes_walkie_talkie.Models.{Envelope}
use hermes_walkie_talkie.Codec.Streams.{feed_total}
use hermes_walkie_talkie.Codec.Turns.{receive, Extends, turn-Extends}
use hermes_walkie_talkie.Codec.{
  Library, decode_envelope, FrameDecoder, Turn, waits, fails, frame, turn, Fed, yield_envelope,
  feed_loop, feed, as_frame_error,
}

-- The rest of the loop after a turn.
abbrev continue : Library → ℕ → ℕ → Turn → Option Fed
continue lib now f (waits s') = some (record { envelopes = []; raised = none; decoder = s' })
continue lib now f (fails e s') = some (record { envelopes = []; raised = some e; decoder = s' })
continue lib now f (frame payload s') =
    yield_envelope (decode_envelope lib now payload) s' (feed_loop lib now f s')

loop-continue :
    (lib : Library) (now f : ℕ) (s : FrameDecoder)
    → feed_loop lib now (suc f) s ≡ continue lib now f (turn s)
unfolding feed_loop
loop-continue lib now f s = go (turn s) refl
  where
    go : (t : Turn) → turn s ≡ t → feed_loop lib now (suc f) s ≡ continue lib now f (turn s)
    go (waits u) e = rw (e, feed_loop) refl
    go (fails x u) e = rw (e, feed_loop) refl
    go (frame p u) e = rw (e, feed_loop) refl

some-inj : {A : Type 0} (a b : A) → some a ≡ some b → a ≡ b
some-inj a b h = ap (λ o. or_else o a) h

zero-loop :
    (lib : Library) (now : ℕ) (s : FrameDecoder) (r : Fed)
    → feed_loop lib now zero s ≡ some r
    → ◌≡◌ {A = Option Fed} none (some r)
unfolding feed_loop
zero-loop lib now s r h = h

yield_more :
    (d : Result Envelope) (u : FrameDecoder) (o p : Option Fed) (r : Fed)
    → ((q : Fed) → o ≡ some q → p ≡ some q)
    → yield_envelope d u o ≡ some r
    → yield_envelope d u p ≡ some r
yield_more (err e) u o p r ih h = h
yield_more (ok env) u none p r ih h = cc
yield_more (ok env) u (some q) p r ih h = rw (ih q refl) h

-- A loop that has ended with some fuel ends alike with more.
loop_more :
    (lib : Library) (now f k : ℕ) (s : FrameDecoder) (r : Fed)
    → feed_loop lib now f s ≡ some r
    → feed_loop lib now (f + k) s ≡ some r
loop_more lib now zero k s r h =
    let bad : ◌≡◌ {A = Option Fed} none (some r) = zero-loop lib now s r h in cc
loop_more lib now (suc f) k s r h =
    let shift : suc f + k ≡ suc (f + k) = omega arith in
    rw shift (
      loop-continue lib now (f + k) s
      ∙ go (turn s) (λ u q e. loop_more lib now f k u q e) (sym (loop-continue lib now f s) ∙ h))
  where
    go :
        (t : Turn)
        → ((u : FrameDecoder) (q : Fed)
            → feed_loop lib now f u ≡ some q
            → feed_loop lib now (f + k) u ≡ some q)
        → continue lib now f t ≡ some r
        → continue lib now (f + k) t ≡ some r
    go (waits u) ih e = e
    go (fails x u) ih e = e
    go (frame p u) ih e =
        yield_more (decode_envelope lib now p) u (feed_loop lib now f u)
          (feed_loop lib now (f + k) u) r (λ q i. ih u q i) e

-- What is read of two pieces, one behind the other.
abbrev pub join : Fed → Fed → Fed
join a b = record b { envelopes = a.envelopes ++ b.envelopes }

yield-join :
    (d : Result Envelope) (u v : FrameDecoder) (o p : Option Fed) (r r' : Fed)
    → r.raised ≡ none
    → ((q : Fed) → o ≡ some q → q.raised ≡ none → q.decoder ≡ r.decoder → p ≡ some (join q r'))
    → yield_envelope d u o ≡ some r
    → yield_envelope d v p ≡ some (join r r')
yield-join (err e) u v o p r r' c ih h =
    let bad : some (as_frame_error e) ≡ none = ap (λ x. x.raised) (some-inj _ r h) ∙ c in cc
yield-join (ok env) u v none p r r' c ih h = cc
yield-join (ok env) u v (some q) p r r' c ih h =
    let same : record q { envelopes = env ∷ q.envelopes } ≡ r = some-inj _ r h in
    rw (ih q refl (ap (λ x. x.raised) same ∙ c) (ap (λ x. x.decoder) same))
      (ap (λ x. some (join x r')) same)

loop-append :
    (lib : Library) (now f f' : ℕ) (b : List ℕ) (s : FrameDecoder) (r r' : Fed)
    → feed_loop lib now f s ≡ some r
    → r.raised ≡ none
    → feed_loop lib now f' (receive b r.decoder) ≡ some r'
    → feed_loop lib now (f + f') (receive b s) ≡ some (join r r')
loop-append lib now zero f' b s r r' h c k =
    let bad : ◌≡◌ {A = Option Fed} none (some r) = zero-loop lib now s r h in cc
loop-append lib now (suc f) f' b s r r' h c k =
    let shift : suc f + f' ≡ suc (f + f') = omega arith in
    rw shift (
      loop-continue lib now (f + f') (receive b s)
      ∙ go (turn s) (turn (receive b s)) (turn-Extends b s)
          (λ u q i j l. loop-append lib now f f' b u q r' i j l)
          (sym (loop-continue lib now f s) ∙ h))
  where
    go :
        (t t' : Turn)
        → Extends b t t'
        → ((u : FrameDecoder) (q : Fed)
            → feed_loop lib now f u ≡ some q
            → q.raised ≡ none
            → feed_loop lib now f' (receive b q.decoder) ≡ some r'
            → feed_loop lib now (f + f') (receive b u) ≡ some (join q r'))
        → continue lib now f t ≡ some r
        → continue lib now (f + f') t' ≡ some (join r r')
    go (waits u) t' x ih e =
        let same : record { envelopes = []; raised = none; decoder = u } ≡ r = some-inj _ r e in
        let later : feed_loop lib now f' (receive b u) ≡ some r' =
          ap (λ q. feed_loop lib now f' (receive b q.decoder)) same ∙ k in
        let order : f' + suc f ≡ suc (f + f') = omega arith in
        let more : feed_loop lib now (suc (f + f')) (receive b u) ≡ some r' =
          rw order at (loop_more lib now f' (suc f) (receive b u) r' later) in
        ap (λ y. continue lib now (f + f') y) (sym x)
        ∙ sym (loop-continue lib now (f + f') (receive b u))
        ∙ more
        ∙ ap (λ q. some (join q r')) same
    go (fails y u) t' x ih e =
        let bad : some y ≡ none = ap (λ q. q.raised) (some-inj _ r e) ∙ c in cc
    go (frame p u) t' x ih e = rw x (
        yield-join (decode_envelope lib now p) u (receive b u) (feed_loop lib now f u)
          (feed_loop lib now (f + f') (receive b u)) r r' c
          (λ q i j l. ih u q i j (ap (λ y. feed_loop lib now f' (receive b y)) l ∙ k)) e)

loop_unique :
    (lib : Library) (now f g : ℕ) (s : FrameDecoder) (x y : Fed)
    → feed_loop lib now f s ≡ some x
    → feed_loop lib now g s ≡ some y
    → x ≡ y
loop_unique lib now f g s x y h k =
    let swap : g + f ≡ f + g = omega arith in
    some-inj x y (sym (loop_more lib now f g s x h) ∙ (rw swap at (loop_more lib now g f s y k)))

feed-loop :
    (lib : Library) (now : ℕ) (bytes : List ℕ) (s : FrameDecoder)
    → feed lib now bytes s ≡ feed_loop lib now (length (s.buffer ++ bytes) + 2) (receive bytes s)
unfolding feed
feed-loop lib now bytes s = refl

-- Where the first piece raises nothing, feeding two pieces one after the other yields the envelopes
-- of the whole, in order, raises what the whole raises, and leaves the decoder in the same state.
pub feed-append :
    (lib : Library) (now : ℕ) (a b : List ℕ) (s : FrameDecoder) (r r' : Fed)
    → feed lib now a s ≡ some r
    → r.raised ≡ none
    → feed lib now b r.decoder ≡ some r'
    → feed lib now (a ++ b) s ≡ some (join r r')
feed-append lib now a b s r r' h c k =
    let (w, is) = feed_total lib now (a ++ b) s in
    let both =
      loop-append lib now (length (s.buffer ++ a) + 2) (length (r.decoder.buffer ++ b) + 2) b
        (receive a s) r r' (sym (feed-loop lib now a s) ∙ h) c
        (sym (feed-loop lib now b r.decoder) ∙ k) in
    let whole : receive b (receive a s) ≡ receive (a ++ b) s =
      ap (λ buf. record s { buffer = buf }) (append_assoc s.buffer a b) in
    is
    ∙ ap some (
        loop_unique lib now (length (s.buffer ++ (a ++ b)) + 2)
          (length (s.buffer ++ a) + 2 + (length (r.decoder.buffer ++ b) + 2)) (receive (a ++ b) s) w
          (join r r') (sym (feed-loop lib now (a ++ b) s) ∙ is) (rw whole at both))
