-- ===== src/Events/Bounds.antt =====
-- The bounds of the broker of agent_peer/events.py under any calls.
use hermes_walkie_talkie.Prelude.{
  ℕ, suc, ◌≤◌, ◌≡◌, refl, ap, inl, inr, false, List, [], ◌∷◌, ◌++◌, map, arith, ltb, leb, ◌==◌,
  Bool-cases, length, length-append, length-drop, All, All-append,
}
use hermes_walkie_talkie.Events.{
  Subscriber, EventBroker, append, subscribe, remove, unsubscribe, append_to, publish, clear, drain,
  close,
}

module _ {ℓ} {A : Type ℓ} where
  abbrev pub IsShort : ℕ → Subscriber A → Type 0
  IsShort capacity s = length s.queue ≤ capacity

  -- No more clients than the cap, and no more buffered events of a client than its capacity.
  pub record IsBounded (b : EventBroker A) : Type 0 where
    pub clients : length b.subscribers ≤ b.max_clients
    pub queues : All (IsShort b.client_capacity) b.subscribers

  length-append_deque-le :
      (capacity : ℕ) (q : List A) (event : A)
      → length q ≤ capacity
      → length (append capacity q event) ≤ capacity
  length-append_deque-le capacity q event h =
      elim (Bool-cases (ltb capacity (length (q ++ event ∷ [])))) [
        | inl full ↦
            rw full
              (omega (arith, length-drop 1 (q ++ event ∷ []), length-append q (event ∷ []), h))
        | inr room ↦ rw room (not_above capacity (length (q ++ event ∷ [])) room)
      ]
    where
      not_above : (m n : ℕ) → ltb m n ≡ false → n ≤ m
      not_above m n k = ground arith

  length-remove-le : (sid : ℕ) (ss : List (Subscriber A)) → length (remove sid ss) ≤ length ss
  length-remove-le sid [] = omega arith
  length-remove-le sid (s ∷ ss) = ground (arith, length-remove-le sid ss)

  All-remove :
      (n sid : ℕ) (ss : List (Subscriber A)) → All (IsShort n) ss → All (IsShort n) (remove sid ss)
  All-remove n sid [] h = tt
  All-remove n sid (s ∷ ss) h = elim (Bool-cases (s.sid == sid)) [
    | inl e ↦ rw e (All-remove n sid ss h.1)
    | inr e ↦ rw e (h.0, All-remove n sid ss h.1)
  ]

  length-map_subscribers :
      (f : Subscriber A → Subscriber A) (ss : List (Subscriber A)) → length (map f ss) ≡ length ss
  length-map_subscribers f [] = refl
  length-map_subscribers f (s ∷ ss) = ap suc (length-map_subscribers f ss)

  All-publish :
      (n : ℕ) (event : A) (ss : List (Subscriber A))
      → All (IsShort n) ss
      → All (IsShort n) (map (append_to n event) ss)
  All-publish n event [] h = tt
  All-publish n event (s ∷ ss) h =
      (length-append_deque-le n s.queue event h.0, All-publish n event ss h.1)

  All-clear :
      (n sid : ℕ) (ss : List (Subscriber A))
      → All (IsShort n) ss
      → All (IsShort n) (map (clear sid) ss)
  All-clear n sid [] h = tt
  All-clear n sid (s ∷ ss) h = elim (Bool-cases (s.sid == sid)) [
    | inl e ↦ rw e (omega arith, All-clear n sid ss h.1)
    | inr e ↦ rw e (h.0, All-clear n sid ss h.1)
  ]

module _ {ℓ} (A : Type ℓ) where
  -- A call on the broker.
  pub data Call : Type ℓ where
    subscribes : Call
    unsubscribes : ℕ → Call
    publishes : A → Call
    drains : ℕ → Call
    closes : Call

module _ {ℓ} {A : Type ℓ} where
  abbrev pub perform : Call A → EventBroker A → EventBroker A
  perform subscribes b = (subscribe b).1
  perform (unsubscribes sid) b = unsubscribe sid b
  perform (publishes event) b = publish event b
  perform (drains sid) b = (drain sid b).1
  perform closes b = close b

  abbrev pub run : List (Call A) → EventBroker A → EventBroker A
  run [] b = b
  run (c ∷ cs) b = run cs (perform c b)

  subscribe-IsBounded : (b : EventBroker A) → IsBounded b → IsBounded (subscribe b).1
  unfolding subscribe
  subscribe-IsBounded b h = elim (Bool-cases (leb b.max_clients (length b.subscribers))) [
    | inl full ↦ rw full h
    | inr room ↦ rw room (record {
      clients =
          ground (
            arith,
            room,
            length-append b.subscribers (record { sid = b.next_id; queue = [] } ∷ []),
          );
      queues =
          All-append (IsShort b.client_capacity) b.subscribers
            (record { sid = b.next_id; queue = [] } ∷ []) h.queues (omega arith, tt);
    })
  ]

  perform-IsBounded : (c : Call A) (b : EventBroker A) → IsBounded b → IsBounded (perform c b)
  unfolding subscribe unsubscribe publish drain close
  perform-IsBounded subscribes b h = subscribe-IsBounded b h
  perform-IsBounded (unsubscribes sid) b h = record {
    clients = omega (arith, h.clients, length-remove-le sid b.subscribers);
    queues = All-remove b.client_capacity sid b.subscribers h.queues;
  }
  perform-IsBounded (publishes event) b h = record {
    clients =
        rw (length-map_subscribers (append_to b.client_capacity event) b.subscribers) (h.clients);
    queues = All-publish b.client_capacity event b.subscribers h.queues;
  }
  perform-IsBounded (drains sid) b h = record {
    clients = rw (length-map_subscribers (clear sid) b.subscribers) (h.clients);
    queues = All-clear b.client_capacity sid b.subscribers h.queues;
  }
  perform-IsBounded closes b h = record { clients = omega arith; queues = tt }

  -- Whatever calls are made, the broker keeps no more clients than its cap and no more buffered events
  -- of a client than its capacity.
  pub run-IsBounded : (cs : List (Call A)) (b : EventBroker A) → IsBounded b → IsBounded (run cs b)
  run-IsBounded [] b h = h
  run-IsBounded (c ∷ cs) b h = run-IsBounded cs (perform c b) (perform-IsBounded c b h)
