-- ===== src/Lib.antt =====
-- Verification of the agent peer library (Python package agent_peer).
--
-- The program lets agents on one machine exchange messages, requests and group broadcasts. Messages
-- are envelopes (agent_peer/models.py) that a policy (agent_peer/policy.py) admits and a SQLite store
-- (agent_peer/store.py) keeps; requests (agent_peer/requests.py) follow a state machine
-- (agent_peer/workflows.py); groups (agent_peer/groups.py) have members.
--
-- Files, and the code that each models:
--   Prelude, Errors, Enums, Table: shared helpers: Boolean tests, lists, the exceptions of
--     agent_peer/errors.py as a result type, and a table of the store as the list of its rows, with
--     SELECT, UPDATE and DELETE as functions on it.
--   Models: the records and enumerations of agent_peer/models.py; Models.Validation has what the
--     constructor of Envelope accepts, Models.Uuid the UUID pattern, Models.Peers the peer record.
--   Codec: decode_envelope, encode_frame and FrameDecoder of agent_peer/codec.py; Frames is about one
--     frame, Turns about one turn of the loop of feed, Streams about whole streams, Chunks about streams
--     that come in pieces.
--   Store: MessageStore of agent_peer/store.py; Store.Claims (claim, transition, pending_for),
--     Store.Retention (retain), Store.Migrations (_migrate).
--   Policy: RateLimiter and PolicyEngine of agent_peer/policy.py; Policy.Deque and Policy.Window the
--     sliding window, Policy.Burst the burst gate, Policy.Decisions the method evaluate.
--   Workflows: RequestState and its table; Workflows.Diagram the table as a relation, and its
--     paths.
--   Requests: RequestStore of agent_peer/requests.py and Request of agent_peer/request_models.py;
--     Consistency, Creation, Transitions, Expiry, History, Identity, Retry and Frozen are about the
--     invariant, single operations, and whole histories of calls.
--   Groups: GroupStore of agent_peer/groups.py; Names, Renaming, Uniqueness, Revisions and
--     Membership.
--   Broadcast: BroadcastEngine of agent_peer/broadcast.py; Gate, Retries and Outcomes are about the
--     single-writer gate, the calls of send and the recorded rows. send and resolve are parameters.
--   Registry: Registry of agent_peer/registry.py; Files are the files of its directory, Records what it
--     compares and changes; Calls, Fence, Invariant, Identity, Freshness and Pruning are about the fence,
--     the invariant, updates, staleness and prune.
--   Heartbeats: PresenceManager of agent_peer/presence.py; Cadence is about how often it writes.
--   Discovery: agent_peer/discovery.py; Records are the checks of a registry file, Probe the challenge and
--     its cache, Listing, Resolve and Repair the operations; Cache is about the cache, Challenge sets the probe against the answers
--     of Runtime, Resolution, Live and Repairs are about what is resolved, listed and removed.
--   Runtime: agent_peer/runtime.py; Replies is the answer to one envelope, Service the connections and the
--     selector loop, Sending is send; Answers, Supervision and Receipts are about them.
--   Delivery: hermes_peer/delivery.py; Boundary are the markers, Deliver is deliver; Escape, Erase, Names
--     and Once are about them.
--   Sessions: _on_inbound of hermes_peer/sessions.py; Inbound composes the claim of Store, the decision of
--     Policy and deliver of Delivery; Answers, Once and Refused are about the composition.
--     Release is release_message and refuse_message.
--   Events: EventBroker of agent_peer/events.py; Bounds and Delivery are about its limits and what a
--     client reads.
--   Capabilities: agent_peer/capabilities.py.
--   Aliases: the aliases of agent_peer/identity.py.
-- The concrete runs of a component X stand in X.Examples.
--
-- A method of the source is a function that takes the tables and returns its result, or the exception
-- that it raises, with the new tables. The methods of the store, the requests and the groups hold the
-- lock of the store and are one step each. deliver of hermes_peer/delivery.py, the calls of
-- hermes_peer/sessions.py and the run of a broadcast hold no lock across their steps, and are modelled
-- for calls that come one after another.
-- New ids, clock readings and the functions of Python's text library are arguments. Times of the policy
-- are microseconds. Text is compared by code points, as SQLite and Python do.
--
-- The loops of retain run on fuel: one more than the number of stored messages is enough when the batch
-- has at least one row (Store.Retention). The loop of feed has two turns more than there are bytes, which
-- is enough (Codec.Streams). The other loops are structural recursion.
--
-- Not modelled: the SQLite file and its modes, sockets, the file system, threads inside a locked method,
-- and the commands and tools of the host plugin hermes_peer.
pub mod Prelude
pub mod Errors
pub mod Enums
pub mod Table
pub mod Models
pub mod Capabilities
pub mod Codec
pub mod Store
pub mod Policy
pub mod Workflows
pub mod Requests
pub mod Groups
pub mod Broadcast
pub mod Events
pub mod Aliases
pub mod Delivery
pub mod Discovery
pub mod Heartbeats
pub mod Registry
pub mod Runtime
pub mod Sessions
