-- ===== src/Store.antt =====
-- agent_peer/store.py: the messages table of the SQLite store. A method returns its result, or the
-- exception that it raises, with the new rows; the store lock makes each method one step.
pub mod Claims
pub mod Retention
pub mod Migrations
pub mod Examples
use hermes_walkie_talkie.Prelude.{
  ℕ, zero, suc, ◌+◌, ◌-◌, ◌*◌, ◌/◌, ◌%◌, ◌^◌, ◌≤◌, ◌<◌, min, String, ◌≡◌, refl, sym, ap, ◌∙◌, ◌≢◌,
  ◌↔◌, ◌⊎◌, inl, inr, Bool, true, false, ◌&&◌, ◌||◌, not, Option, none, some, List, [], ◌∷◌, ◌++◌,
  map, arith, str_eq, eq_iff, eq_refl, ltb, leb, ◌==◌, str_lt, if◌then◌else◌, ltb→lt, lt→ltb,
  leb→le, ==_iff, Bool-cases, Option-cases, is_some, or_else, length, take, drop, length-append,
  length-take, length-drop, All, All-append, All-imp, All-take, All-drop,
}
use hermes_walkie_talkie.Errors.{Result, ok, err, integrity_error, ◌>>=◌}
use hermes_walkie_talkie.Table.{
  select_where, first_where, count_where, update_where, delete_where, delete_limit, order_by,
}
use hermes_walkie_talkie.Table.Oldest.{delete_oldest}
use hermes_walkie_talkie.Models.{Receipt, receipt}
use hermes_walkie_talkie.Models.ReceiptStates
use hermes_walkie_talkie.Models.ReceiptStates.{ReceiptState}

pub record Message : Type 0 where
  pub message_id : String
  pub recipient_peer_id : String
  pub sender_peer_id : String
  pub kind : String
  pub content : String
  pub state : String
  pub created_at : String
  pub expires_at : String
  pub reply_to : Option String
  pub conversation_id : Option String
  pub delivered_at : Option String
  pub hop_count : ℕ
  pub protocol : String

abbrev pub has_id : String → Message → Bool
has_id mid m = str_eq m.message_id mid

unfoldable pub get : String → List Message → Option Message
get mid ms = first_where (has_id mid) ms

-- INSERT ... ON CONFLICT(message_id) DO NOTHING; the rowcount is 1 if the row was inserted.
abbrev pub insert_or_nothing : Message → List Message → ℕ × List Message
insert_or_nothing row ms =
    if is_some (first_where (has_id row.message_id) ms) then (0, ms) else (1, ms ++ row ∷ [])

-- The end of `claim`, after the INSERT: the winner is read back.
abbrev claimed : Message → ℕ × List Message → Result (Option Message × Bool) × List Message
claimed row (n, ms) =
    if n == 1 then (ok (none, true), ms) else elim (first_where (has_id row.message_id) ms) [
      | none ↦ (err integrity_error, ms)
      | some existing ↦ (ok (some existing, false), ms)
    ]

unfoldable pub claim : Message → List Message → Result (Option Message × Bool) × List Message
claim row ms = claimed row (insert_or_nothing row ms)

abbrev receipt_of : String → Message → String → Result Receipt
receipt_of mid m detail = do
  state ← ReceiptStates.of_value m.state
  receipt (record {
    message_id = mid;
    state = state;
    recipient_peer_id = m.recipient_peer_id;
    detail = detail;
    delivered_at = or_else m.delivered_at "";
  })

abbrev recorded : Message → List Message → Option Message → Result Receipt × List Message
recorded row ms (some existing) =
    (receipt_of row.message_id existing "duplicate: prior receipt returned", ms)
recorded row ms none = (receipt_of row.message_id row "stored", ms ++ row ∷ [])

-- `record`; the word is reserved here.
unfoldable pub record_row : Message → List Message → Result Receipt × List Message
record_row row ms = recorded row ms (first_where (has_id row.message_id) ms)

-- `transition`: the state is written as it is given.
unfoldable pub transition : String → String → String → List Message → Bool × List Message
transition mid state now ms = (
  ltb 0 (count_where (has_id mid) ms),
  update_where (has_id mid) (λ m. record m { state = state; delivered_at = some now }) ms,
)

abbrev pub in_states : List String → String → Bool
in_states [] s = false
in_states (t ∷ ts) s = str_eq s t || in_states ts s

abbrev pub is_pending : String → List String → Message → Bool
is_pending peer states m = str_eq m.recipient_peer_id peer && in_states states m.state

unfoldable pub pending_for : String → List String → List Message → List Message
pending_for peer states ms = order_by (λ m. m.created_at) (select_where (is_pending peer states) ms)

unfoldable pub count_pending : String → List Message → ℕ
count_pending peer ms = count_where (is_pending peer ("queued" ∷ "held" ∷ [])) ms

unfoldable pub count_all : List Message → ℕ
count_all ms = length ms

abbrev pub is_old : String → Message → Bool
is_old cutoff m = str_lt m.created_at cutoff

-- The first loop of `retain`; `none` means that the fuel ran out.
unfoldable pub remove_old : ℕ → String → ℕ → ℕ → List Message → Option (ℕ × List Message)
remove_old zero cutoff batch_size removed ms = none
remove_old (suc f) cutoff batch_size removed ms =
    let batch = min batch_size (count_where (is_old cutoff) ms) in
    let ms' = delete_limit (is_old cutoff) batch_size ms in
    let rest = remove_old f cutoff batch_size (removed + batch) ms' in
    if ltb batch batch_size then some (removed + batch, ms') else rest

-- The second loop of `retain`.
unfoldable pub remove_over : ℕ → ℕ → ℕ → ℕ → List Message → Option (ℕ × List Message)
remove_over zero max_rows batch_size removed ms = none
remove_over (suc f) max_rows batch_size removed ms =
    let n = min (length ms - max_rows) batch_size in
    let ms' = delete_oldest (λ m. m.message_id) (λ m. m.created_at) n ms in
    let batch = length ms - length ms' in
    let rest = remove_over f max_rows batch_size (removed + batch) ms' in
    if leb (length ms) max_rows
    then some (removed, ms)
    else if ltb batch batch_size
    then some (removed + batch, ms')
    else rest

abbrev after_old : ℕ → ℕ → ℕ → Option (ℕ × List Message) → Option (ℕ × List Message)
after_old fuel max_rows batch_size none = none
after_old fuel max_rows batch_size (some (removed, ms)) =
    remove_over fuel max_rows batch_size removed ms

unfoldable pub retain : ℕ → String → ℕ → ℕ → List Message → Option (ℕ × List Message)
retain fuel cutoff max_rows batch_size ms =
    after_old fuel max_rows batch_size (remove_old fuel cutoff batch_size 0 ms)
