-- ===== src/Events.antt =====
-- agent_peer/events.py: the bounded event broker. The dict of subscribers is a list in insertion
-- order, a deque is a list, and an event is of any type.
pub mod Bounds
pub mod Delivery
pub mod Examples
use hermes_walkie_talkie.Prelude.{
  ℕ, zero, suc, ◌+◌, ◌-◌, ◌*◌, ◌/◌, ◌%◌, ◌^◌, ◌≤◌, ◌<◌, min, String, ◌≡◌, refl, sym, ap, ◌∙◌, ◌≢◌,
  ◌↔◌, ◌⊎◌, inl, inr, Bool, true, false, ◌&&◌, ◌||◌, not, Option, none, some, List, [], ◌∷◌, ◌++◌,
  map, arith, str_eq, eq_iff, eq_refl, ltb, leb, ◌==◌, str_lt, if◌then◌else◌, ltb→lt, lt→ltb,
  leb→le, ==_iff, Bool-cases, Option-cases, is_some, or_else, length, take, drop, length-append,
  length-take, length-drop, All, All-append, All-imp, All-take, All-drop,
}
use hermes_walkie_talkie.Errors.{Result, ok, err, overflow_error}

module _ {ℓ} (A : Type ℓ) where
  pub record Subscriber : Type ℓ where
    pub sid : ℕ
    pub queue : List A

  pub record EventBroker : Type ℓ where
    pub client_capacity : ℕ
    pub max_clients : ℕ
    pub subscribers : List Subscriber
    pub next_id : ℕ

module _ {ℓ} {A : Type ℓ} where
  -- `append` of a deque with a maximal length: the oldest element makes room.
  abbrev pub append : ℕ → List A → A → List A
  append capacity q event =
      let longer = q ++ event ∷ [] in if ltb capacity (length longer) then drop 1 longer else longer

  abbrev pub new_broker : ℕ → ℕ → EventBroker A
  new_broker capacity clients = record {
    client_capacity = capacity;
    max_clients = clients;
    subscribers = [];
    next_id = 1;
  }

  unfoldable pub subscribe : EventBroker A → Result ℕ × EventBroker A
  subscribe b = if leb b.max_clients (length b.subscribers) then (err overflow_error, b) else (
    ok b.next_id,
    record b {
      next_id = b.next_id + 1;
      subscribers = b.subscribers ++ record { sid = b.next_id; queue = [] } ∷ [];
    },
  )

  -- `pop(sid, None)` on the entries
  abbrev pub remove : ℕ → List (Subscriber A) → List (Subscriber A)
  remove sid [] = []
  remove sid (s ∷ ss) = let rest = remove sid ss in if s.sid == sid then rest else s ∷ rest

  unfoldable pub unsubscribe : ℕ → EventBroker A → EventBroker A
  unsubscribe sid b = record b { subscribers = remove sid b.subscribers }

  abbrev pub append_to : ℕ → A → Subscriber A → Subscriber A
  append_to capacity event s = record s { queue = append capacity s.queue event }

  unfoldable pub publish : A → EventBroker A → EventBroker A
  publish event b = record b { subscribers = map (append_to b.client_capacity event) b.subscribers }

  -- `get(sid)`
  abbrev pub queue_of : ℕ → List (Subscriber A) → Option (List A)
  queue_of sid [] = none
  queue_of sid (s ∷ ss) = if s.sid == sid then some s.queue else queue_of sid ss

  abbrev pub clear : ℕ → Subscriber A → Subscriber A
  clear sid s = if s.sid == sid then record s { queue = [] } else s

  unfoldable pub drain : ℕ → EventBroker A → List A × EventBroker A
  drain sid b = (
    or_else (queue_of sid b.subscribers) [],
    record b { subscribers = map (clear sid) b.subscribers },
  )

  unfoldable pub client_count : EventBroker A → ℕ
  client_count b = length b.subscribers

  unfoldable pub close : EventBroker A → EventBroker A
  close b = record b { subscribers = [] }
