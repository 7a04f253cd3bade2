-- ===== src/Runtime/Service.antt =====
-- `_service_connection`, `_flush`, `_drop_connection` and `_run_loop` of agent_peer/runtime.py.
use hermes_walkie_talkie.Prelude.{
  ℕ, Bool, true, false, Option, none, some, List, [], ◌∷◌, ◌++◌, ◌==◌, if◌then◌else◌, or_else, take,
  drop,
}
use hermes_walkie_talkie.Errors.{Error, Result, ok, err, frame_error, oversized}
use hermes_walkie_talkie.Models.{Envelope}
use hermes_walkie_talkie.Models.Peers.{PeerRecord}
use hermes_walkie_talkie.Codec.{Library, FrameDecoder, Fed, feed}
use hermes_walkie_talkie.Runtime.Replies.{Handler, Answering, reply, dispatch}

-- `_Connection`: its decoder, the bytes to write and whether it was dropped.
pub record Connection : Type 0 where
  pub decoder : FrameDecoder
  pub out_buffer : List ℕ
  pub closed : Bool

-- What `recv` does: it would block, fails, or returns bytes.
pub data Received : Type 0 where
  would_block os_failure : Received
  chunk : List ℕ → Received

-- What `send` does with a buffer: it takes a number of bytes, would block, or fails.
pub data Sent : Type 0 where
  taken : ℕ → Sent
  blocked broken : Sent

-- What the supervisor has at hand: the codec, `encode_frame(encode_envelope(...))`, the peers and
-- handlers, the clock of the decoder, and what replies take.
pub record Supervisor : Type 0 where
  pub library : Library
  pub now : ℕ
  pub frames : Envelope → Result (List ℕ)
  pub answering : Answering
  pub peers : List PeerRecord
  pub handlers : List Handler

-- A connection after some work, and the exception that left it.
pub record Served : Type 0 where
  pub connection : Connection
  pub escaped : Option Error

-- `_drop_connection`
unfoldable pub drop_connection : Connection → Connection
drop_connection c = record c { closed = true }

-- The end of `_reply`: the frame is queued, or the connection dropped.
unfoldable pub queue_frame : Result (List ℕ) → Connection → Connection
queue_frame (ok bytes) c = record c { out_buffer = c.out_buffer ++ bytes }
queue_frame (err e) c = drop_connection c

unfoldable pub put_reply : Supervisor → Result Envelope → Connection → Served
put_reply s (ok env) c = record { connection = queue_frame (s.frames env) c; escaped = none }
put_reply s (err e) c = record { connection = c; escaped = some e }

abbrev pub is_empty : List ℕ → Bool
is_empty [] = true
is_empty (b ∷ bs) = false

-- `_flush`, for what the calls of `send` do: the bytes that were sent, and the connection.
unfoldable pub flush : List Sent → Connection → List ℕ × Connection
flush [] c = ([], c)
flush (blocked ∷ ss) c = ([], c)
flush (broken ∷ ss) c = ([], drop_connection c)
flush (taken n ∷ ss) c =
    let rest = flush ss (record c { out_buffer = drop n c.out_buffer }) in
    if is_empty c.out_buffer then ([], c) else (take n c.out_buffer ++ rest.0, rest.1)

-- `isinstance(exc, FrameError)`
abbrev pub is_frame_error : Error → Bool
is_frame_error frame_error = true
is_frame_error oversized = true
is_frame_error _ = false

-- The rest of the work, unless an exception ended it.
abbrev pub then_served : Option Error → Connection → Served → Served
then_served (some e) c rest = record { connection = c; escaped = some e }
then_served none c rest = rest

abbrev pub unless_escaped : Served → Served → Served
unless_escaped first rest = then_served first.escaped first.connection rest

-- The loop over the envelopes that `feed` yields; an exception of a dispatch ends it.
unfoldable pub dispatch_all : Supervisor → List Envelope → Connection → Served
dispatch_all s [] c = record { connection = c; escaped = none }
dispatch_all s (e ∷ es) c =
    let first = put_reply s (dispatch s.answering s.peers s.handlers e e.kind) c in
    unless_escaped first (dispatch_all s es first.connection)

-- What follows an exception of `feed`: a FrameError is answered and the connection dropped, any
-- other exception leaves the supervisor's loop.
unfoldable pub after_feed : Supervisor → Option Error → Connection → Served
after_feed s none c = record { connection = c; escaped = none }
after_feed s (some e) c =
    let answered = put_reply s (reply s.answering "invalid") c in
    if is_frame_error e
    then unless_escaped answered
        (record { connection = drop_connection answered.connection; escaped = none })
    else record { connection = c; escaped = some e }

unfoldable pub serve_fed : Supervisor → Connection → Fed → Served
serve_fed s c fed =
    let done = dispatch_all s fed.envelopes (record c { decoder = fed.decoder }) in
    unless_escaped done (after_feed s fed.raised done.connection)

-- `feed` always ends (Codec.Streams), so that the default is never read.
abbrev pub feed_ended : Supervisor → List ℕ → Connection → Fed
feed_ended s bytes c =
    or_else (feed s.library s.now bytes c.decoder)
      (record { envelopes = []; raised = none; decoder = c.decoder })

unfoldable pub receive : Supervisor → Received → Connection → Served
receive s would_block c = record { connection = c; escaped = none }
receive s os_failure c = record { connection = drop_connection c; escaped = none }
receive s (chunk []) c = record { connection = drop_connection c; escaped = none }
receive s (chunk (b ∷ bs)) c = serve_fed s c (feed_ended s (b ∷ bs) c)

-- `_service_connection`
unfoldable pub service_connection : Supervisor → Received → Connection → Served
service_connection s r c =
    if c.closed then record { connection = c; escaped = none } else receive s r c

-- An event of the selector, for the connection with that number.
pub data Event : Type 0 where
  readable : ℕ → Received → Event
  writable : ℕ → List Sent → Event

pub record Loop : Type 0 where
  pub connections : ℕ → Connection
  pub stopped : Option Error

abbrev pub put : ℕ → Connection → (ℕ → Connection) → ℕ → Connection
put k c cs i = if i == k then c else cs i

-- `_service_writable` for one connection
unfoldable pub service_writable : List Sent → Connection → Connection
service_writable ss c = if c.closed then c else (flush ss c).1

unfoldable pub handle_event : Supervisor → Event → (ℕ → Connection) → Loop
handle_event s (readable k r) cs =
    let served = service_connection s r (cs k) in
    record { connections = put k served.connection cs; stopped = served.escaped }
handle_event s (writable k ss) cs = record {
  connections = put k (service_writable ss (cs k)) cs;
  stopped = none;
}

-- `_run_loop` over the events that the selector returns; no exception is caught.
unfoldable pub run_loop : Supervisor → List Event → Option Error → (ℕ → Connection) → Loop
run_loop s [] e cs = record { connections = cs; stopped = e }
run_loop s (v ∷ vs) (some e) cs = record { connections = cs; stopped = some e }
run_loop s (v ∷ vs) none cs =
    let next = handle_event s v cs in run_loop s vs next.stopped next.connections
