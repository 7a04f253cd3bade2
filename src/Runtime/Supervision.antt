-- ===== src/Runtime/Supervision.antt =====
-- The supervisor's loop of agent_peer/runtime.py: what it writes, and what ends it.
use hermes_walkie_talkie.Prelude.{
  ℕ, zero, suc, ◌≡◌, refl, ap, ◌∙◌, inl, inr, true, false, Option, none, some, List, [], ◌∷◌, ◌++◌,
  Bool-cases, Option-cases, is_some, take, drop,
}
use hermes_walkie_talkie.Errors.{Error}
use hermes_walkie_talkie.Codec.{Fed, feed}
use hermes_walkie_talkie.Runtime.Service.{
  Connection, Sent, taken, blocked, broken, chunk, Supervisor, is_empty, flush, drop_connection,
  is_frame_error, dispatch_all, after_feed, serve_fed, receive, service_connection, Event, readable,
  put, handle_event, run_loop,
}

take-drop : (n : ℕ) (xs : List ℕ) → take n xs ++ drop n xs ≡ xs
take-drop zero xs = refl
take-drop (suc n) [] = refl
take-drop (suc n) (x ∷ xs) = ap (λ t. x ∷ t) (take-drop n xs)

append_assoc : (xs ys zs : List ℕ) → (xs ++ ys) ++ zs ≡ xs ++ (ys ++ zs)
append_assoc [] ys zs = refl
append_assoc (x ∷ xs) ys zs = ap (λ t. x ∷ t) (append_assoc xs ys zs)

-- Whatever the socket takes and when it blocks or fails, the bytes that a flush sends followed by
-- those that it leaves in the buffer are the bytes that were queued, in their order.
pub flush-append :
    (ss : List Sent) (c : Connection) → (flush ss c).0 ++ (flush ss c).1.out_buffer ≡ c.out_buffer
unfolding flush drop_connection
flush-append [] c = refl
flush-append (blocked ∷ ss) c = refl
flush-append (broken ∷ ss) c = refl
flush-append (taken n ∷ ss) c = elim (Bool-cases (is_empty c.out_buffer)) [
  | inl e ↦ rw e refl
  | inr e ↦
      let c' : Connection = record c { out_buffer = drop n c.out_buffer } in
      rw e (
        append_assoc (take n c.out_buffer) (flush ss c').0 (flush ss c').1.out_buffer
        ∙ ap (λ t. take n c.out_buffer ++ t) (flush-append ss c')
        ∙ take-drop n c.out_buffer)
]

-- What `feed` returns is what is served.
serve_fed-receive :
    (s : Supervisor) (b : ℕ) (bs : List ℕ) (c : Connection) (fed : Fed)
    → c.closed ≡ false
    → feed s.library s.now (b ∷ bs) c.decoder ≡ some fed
    → service_connection s (chunk (b ∷ bs)) c ≡ serve_fed s c fed
unfolding service_connection receive
serve_fed-receive s b bs c fed live h = rw (live, h) refl

-- The exception that leaves a connection whose envelopes were answered.
escapes :
    (s : Supervisor) (e : Error) (c : Connection)
    → is_frame_error e ≡ false
    → (after_feed s (some e) c).escaped ≡ some e
unfolding after_feed
escapes s e c h = rw h refl

serve_fed-escaped :
    (s : Supervisor) (c : Connection) (fed : Fed) (e : Error)
    → fed.raised ≡ some e
    → is_frame_error e ≡ false
    → is_some (serve_fed s c fed).escaped ≡ true
unfolding serve_fed
serve_fed-escaped s c fed e h f =
    elim (Option-cases
      (dispatch_all s fed.envelopes (record c { decoder = fed.decoder })).escaped) [
        | inl n ↦ rw (n, h) (ap is_some (escapes s e _ f))
        | inr (x, k) ↦ rw k refl
      ]

stopped-stays :
    (s : Supervisor) (vs : List Event) (o : Option Error) (cs : ℕ → Connection)
    → is_some o ≡ true
    → run_loop s vs o cs ≡ record { connections = cs; stopped = o }
unfolding run_loop
stopped-stays s vs none cs h = cc
stopped-stays s [] (some e) cs h = refl
stopped-stays s (v ∷ vs) (some e) cs h = refl

-- An exception of `feed` that is no FrameError, such as that for an unknown protocol version, ends
-- the supervisor's loop: the events that come after the chunk that raises it, on this connection or
-- on another one, change nothing.
pub run_loop-stops :
    (s : Supervisor) (k b : ℕ) (bs : List ℕ) (vs : List Event) (cs : ℕ → Connection) (fed : Fed)
    (e : Error)
    → (cs k).closed ≡ false
    → feed s.library s.now (b ∷ bs) (cs k).decoder ≡ some fed
    → fed.raised ≡ some e
    → is_frame_error e ≡ false
    → (is_some (run_loop s (readable k (chunk (b ∷ bs)) ∷ vs) none cs).stopped ≡ true)
      × (run_loop s (readable k (chunk (b ∷ bs)) ∷ vs) none cs
          ≡ run_loop s (readable k (chunk (b ∷ bs)) ∷ []) none cs)
unfolding run_loop handle_event
run_loop-stops s k b bs vs cs fed e live h r f =
    let served = service_connection s (chunk (b ∷ bs)) (cs k) in
    let esc : is_some served.escaped ≡ true =
      ap (λ x. is_some x.escaped) (serve_fed-receive s b bs (cs k) fed live h)
      ∙ serve_fed-escaped s (cs k) fed e r f in
    let stop = stopped-stays s vs served.escaped (put k served.connection cs) esc in
    (ap (λ l. is_some l.stopped) stop ∙ esc, stop)
