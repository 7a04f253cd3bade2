-- ===== src/Store/Claims.antt =====
-- `claim`, `record` and `transition` of agent_peer/store.py: one row for each message id.
use hermes_walkie_talkie.Prelude.{
  ℕ, ◌+◌, String, ◌≡◌, refl, ap, ◌∙◌, inl, inr, Bool, true, false, Option, none, some, List, [],
  ◌∷◌, ◌++◌, arith, eq_iff, ltb, if◌then◌else◌, Bool-cases, is_some, length,
}
use hermes_walkie_talkie.Table.{select_where, first_where, count_where}
use hermes_walkie_talkie.Table.Keys.{Distinct, Distinct-insert}
use hermes_walkie_talkie.Table.Laws.{
  first_where-none, first_where-append, first_where-append_none, first_where-update, length-select,
}
use hermes_walkie_talkie.Table.Oldest.{length-order_by}
use hermes_walkie_talkie.Errors.{Result, ok}
use hermes_walkie_talkie.Store.{
  Message, has_id, get, claim, record_row, transition, is_pending, pending_for, count_pending,
}

abbrev id_of : Message → String
id_of m = m.message_id

-- What `claim` has to do, by whether the id is stored.
abbrev pub claim_spec :
    Option Message → Message → List Message → Result (Option Message × Bool) × List Message
claim_spec none row ms = (ok (none, true), ms ++ row ∷ [])
claim_spec (some existing) row ms = (ok (some existing, false), ms)

claim-eq-spec_of :
    (row : Message) (ms : List Message) (o : Option Message)
    → get row.message_id ms ≡ o
    → claim row ms ≡ claim_spec o row ms
unfolding claim get
claim-eq-spec_of row ms none h = rw (h, claim)
claim-eq-spec_of row ms (some m) h = ground (arith, h)

-- A claim inserts its row, and says so, if the message id is not stored; otherwise it changes
-- nothing and returns the stored row. It never raises.
pub claim-eq-spec :
    (row : Message) (ms : List Message) → claim row ms ≡ claim_spec (get row.message_id ms) row ms
claim-eq-spec row ms = claim-eq-spec_of row ms (get row.message_id ms) refl

-- Claims one after another, in the order in which callers take the lock.
abbrev pub claim_all : List Message → List Message → List Message
claim_all [] ms = ms
claim_all (r ∷ rs) ms = claim_all rs (claim r ms).1

abbrev created_by : Result (Option Message × Bool) → ℕ
created_by (ok (_, true)) = 1
created_by _ = 0

-- How many claims of message id `mid` answered that they created the row.
abbrev pub wins : String → List Message → List Message → ℕ
wins mid [] ms = 0
wins mid (r ∷ rs) ms =
    let rest = wins mid rs (claim r ms).1 in
    if has_id mid r then created_by (claim r ms).0 + rest else rest

claim-Distinct_of :
    (r : Message) (ms : List Message) (o : Option Message)
    → get r.message_id ms ≡ o
    → Distinct id_of ms
    → Distinct id_of (claim_spec o r ms).1
unfolding get
claim-Distinct_of r ms none h d =
    Distinct-insert id_of r ms d (first_where-none (has_id r.message_id) ms h)
claim-Distinct_of r ms (some m) h d = d

-- A claim keeps the message ids distinct.
pub claim-Distinct :
    (r : Message) (ms : List Message) → Distinct id_of ms → Distinct id_of (claim r ms).1
claim-Distinct r ms d =
    rw (claim-eq-spec r ms) (claim-Distinct_of r ms (get r.message_id ms) refl d)

get-claim_stored :
    (mid : String) (r m : Message) (ms : List Message)
    → get mid ms ≡ some m
    → get mid (claim r ms).1 ≡ some m
get-claim_stored mid r m ms h = rw (claim-eq-spec r ms) (go (get r.message_id ms))
  where
    go : (o : Option Message) → get mid (claim_spec o r ms).1 ≡ some m
    go none = unfold get in first_where-append (has_id mid) ms (r ∷ []) m (unfold get in h)
    go (some q) = h

loses :
    (mid : String) (r m : Message) (ms : List Message)
    → get mid ms ≡ some m
    → has_id mid r ≡ true
    → (claim r ms).0 ≡ ok (some m, false)
loses mid r m ms h e =
    let same : r.message_id ≡ mid = (eq_iff r.message_id mid).0 e in
    rw (claim-eq-spec r ms) (rw same (rw h))

wins_stored :
    (mid : String) (rs : List Message) (m : Message) (ms : List Message)
    → get mid ms ≡ some m
    → (wins mid rs ms ≡ 0) × (get mid (claim_all rs ms) ≡ some m)
wins_stored mid [] m ms h = (refl, h)
wins_stored mid (r ∷ rs) m ms h =
    let (w, g) = wins_stored mid rs m (claim r ms).1 (get-claim_stored mid r m ms h) in
    (ground (arith, w, loses mid r m ms h), g)

-- The row that wins a message id among claims in this order.
abbrev pub first_claim : String → List Message → Option Message
first_claim mid rs = first_where (has_id mid) rs

other_claim :
    (mid : String) (r : Message) (ms : List Message)
    → get mid ms ≡ none
    → has_id mid r ≡ false
    → get mid (claim r ms).1 ≡ none
other_claim mid r ms h e = rw (claim-eq-spec r ms) (go (get r.message_id ms))
  where
    go : (o : Option Message) → get mid (claim_spec o r ms).1 ≡ none
    go none =
        unfold get in first_where-append_none (has_id mid) ms (r ∷ []) (unfold get in h) ∙ rw e
    go (some q) = h

winning_claim :
    (mid : String) (r : Message) (ms : List Message)
    → get mid ms ≡ none
    → has_id mid r ≡ true
    → ((claim r ms).0 ≡ ok (none, true)) × (get mid (claim r ms).1 ≡ some r)
winning_claim mid r ms h e =
    let same : r.message_id ≡ mid = (eq_iff r.message_id mid).0 e in
    let fresh : get r.message_id ms ≡ none = rw same h in
    rw (claim-eq-spec r ms) (
      rw fresh (
        refl,
        unfold get in first_where-append_none (has_id mid) ms (r ∷ []) (unfold get in h) ∙ rw e,
      ))

-- Whatever claims are made, in whatever order they take the lock: of the claims of a message id that
-- is not stored, the first one alone is told that it created the row, and its row is the one stored.
pub wins-eq-one :
    (mid : String) (rs : List Message) (ms : List Message) (r : Message)
    → get mid ms ≡ none
    → first_claim mid rs ≡ some r
    → (wins mid rs ms ≡ 1) × (get mid (claim_all rs ms) ≡ some r)
wins-eq-one mid [] ms r h f = cc
wins-eq-one mid (q ∷ rs) ms r h f = elim (Bool-cases (has_id mid q)) [
  | inl e ↦
      let same : q ≡ r = ground arith in
      let (won, kept) = winning_claim mid q ms h e in
      let (w, g) = wins_stored mid rs q (claim q ms).1 kept in
      (ground (arith, won, w), g ∙ ap some same)
  | inr e ↦
      let (w, g) = wins-eq-one mid rs (claim q ms).1 r (other_claim mid q ms h e) (rw e at f) in
      (ground (arith, w), g)
]

recorded_lem :
    (row m : Message) (ms : List Message)
    → get row.message_id ms ≡ some m
    → (record_row row ms).1 ≡ ms
unfolding record_row get
recorded_lem row m ms h = ground (arith, h)

-- A transition changes the state and the delivery time of the message with that id, of no other
-- message, and says whether there was one.
pub get-transition :
    (mid k state now : String) (ms : List Message) (m : Message)
    → get k ms ≡ some m
    → (get k (transition mid state now ms).1
        ≡ some (if has_id mid m then record m { state = state; delivered_at = some now } else m))
      × ((transition mid state now ms).0 ≡ is_some (get mid ms))
unfolding transition get
get-transition mid k state now ms m h =
    (first_where-update (has_id k) (has_id mid) _ ms m (λ x. refl) h, counted (has_id mid) ms)
  where
    counted :
        (p : Message → Bool) (xs : List Message)
        → ltb 0 (count_where p xs) ≡ is_some (first_where p xs)
    counted p [] = refl
    counted p (x ∷ xs) = ground (arith, counted p xs)

-- The number of pending messages of a peer is the length of its default list of pending messages.
pub length-pending_for :
    (peer : String) (ms : List Message)
    → length (pending_for peer ("queued" ∷ "held" ∷ []) ms) ≡ count_pending peer ms
unfolding pending_for count_pending
length-pending_for peer ms =
    length-order_by id_of (λ m. m.created_at)
      (select_where (is_pending peer ("queued" ∷ "held" ∷ [])) ms)
    ∙ length-select (is_pending peer ("queued" ∷ "held" ∷ [])) ms
