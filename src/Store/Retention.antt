-- ===== src/Store/Retention.antt =====
-- `retain` of agent_peer/store.py ends, and leaves a bounded table.
use hermes_walkie_talkie.Prelude.{
  ℕ, zero, suc, ◌+◌, ◌-◌, ◌≤◌, ◌<◌, min, String, ◌≡◌, refl, inl, inr, Bool, Option, none, some,
  List, [], ◌∷◌, arith, ltb, leb, ltb→lt, leb→le, Bool-cases, length,
}
use hermes_walkie_talkie.Table.{count_where, delete_where, delete_limit}
use hermes_walkie_talkie.Table.Laws.{length-delete}
use hermes_walkie_talkie.Table.Keys.{Distinct, Distinct-delete}
use hermes_walkie_talkie.Table.Oldest.{delete_oldest, length-delete_oldest, Distinct-delete_oldest}
use hermes_walkie_talkie.Table.Oldest.{delete_oldest, length-delete_oldest, Distinct-delete_oldest}
use hermes_walkie_talkie.Store.{Message, is_old, remove_old, remove_over, retain}

module _ {ℓ} {A : Type ℓ} (p : A → Bool) where
  delete_none : (xs : List A) → count_where p xs ≡ 0 → delete_where p xs ≡ xs
  delete_none [] h = refl
  delete_none (x ∷ xs) h = ground (arith, delete_none xs)

  -- Batches of deletions are one deletion.
  delete_limit_all :
      (n : ℕ) (xs : List A) → count_where p xs ≤ n → delete_limit p n xs ≡ delete_where p xs
  delete_limit_all n [] h = refl
  delete_limit_all zero (x ∷ xs) h = ground (arith, delete_none xs)
  delete_limit_all (suc n) (x ∷ xs) h =
      ground (arith, delete_limit_all n xs, delete_limit_all (suc n) xs)

  delete_where-limit :
      (n : ℕ) (xs : List A) → delete_where p (delete_limit p n xs) ≡ delete_where p xs
  delete_where-limit n [] = refl
  delete_where-limit zero (x ∷ xs) = refl
  delete_where-limit (suc n) (x ∷ xs) =
      ground (arith, delete_where-limit n xs, delete_where-limit (suc n) xs)

  count-delete_limit :
      (n : ℕ) (xs : List A) → count_where p (delete_limit p n xs) ≡ count_where p xs - n
  count-delete_limit n [] = omega arith
  count-delete_limit zero (x ∷ xs) = omega arith
  count-delete_limit (suc n) (x ∷ xs) =
      ground (arith, count-delete_limit n xs, count-delete_limit (suc n) xs)

remove_old_lem :
    (f : ℕ) (cutoff : String) (b removed : ℕ) (ms : List Message)
    → 0 < b
    → count_where (is_old cutoff) ms < f
    → remove_old f cutoff b removed ms
      ≡ some (removed + count_where (is_old cutoff) ms, delete_where (is_old cutoff) ms)
unfolding remove_old
remove_old_lem zero cutoff b removed ms p h = absurd (omega arith)
remove_old_lem (suc f) cutoff b removed ms p h = ground (
  arith,
  delete_limit_all (is_old cutoff) b ms,
  delete_where-limit (is_old cutoff) b ms,
  count-delete_limit (is_old cutoff) b ms,
  remove_old_lem f cutoff b (removed + min b (count_where (is_old cutoff) ms))
      (delete_limit (is_old cutoff) b ms),
)

abbrev id_of : Message → String
id_of m = m.message_id

abbrev IsCapped : ℕ → ℕ → List Message → Option (ℕ × List Message) → Type 0
IsCapped max_rows removed ms none = ⊥
IsCapped max_rows removed ms (some (n, ms')) =
    (length ms' ≡ min max_rows (length ms)) × (n + length ms' ≡ removed + length ms)

abbrev oldest_gone : ℕ → ℕ → List Message → List Message
oldest_gone m b ms = delete_oldest id_of (λ x. x.created_at) (min (length ms - m) b) ms

length-oldest_gone :
    (m b : ℕ) (ms : List Message)
    → Distinct id_of ms
    → m < length ms
    → length (oldest_gone m b ms) + min (length ms - m) b ≡ length ms
length-oldest_gone m b ms d h =
    omega (arith, length-delete_oldest id_of (λ x. x.created_at) (min (length ms - m) b) ms d)

IsCapped-step :
    (m removed removed' : ℕ) (ms ms' : List Message) (o : Option (ℕ × List Message))
    → m ≤ length ms'
    → m ≤ length ms
    → removed' + length ms' ≡ removed + length ms
    → IsCapped m removed' ms' o
    → IsCapped m removed ms o
IsCapped-step m removed removed' ms ms' none a a' b h = h
IsCapped-step m removed removed' ms ms' (some (n, rest)) a a' b h = omega arith

remove_over_lem :
    (f max_rows b removed : ℕ) (ms : List Message)
    → 0 < b
    → length ms < f
    → Distinct id_of ms
    → IsCapped max_rows removed ms (remove_over f max_rows b removed ms)
unfolding remove_over
remove_over_lem zero m b removed ms p h d = absurd (omega arith)
remove_over_lem (suc f) m b removed ms p h d = elim (Bool-cases (leb (length ms) m)) [
  | inl within ↦ rw within (omega (arith, leb→le (length ms) m within))
  | inr over ↦
      let more : m < length ms = ground arith in
      let fewer = length-oldest_gone m b ms d more in
      elim (Bool-cases (ltb (length ms - length (oldest_gone m b ms)) b)) [
        | inl last ↦ rw over (
            rw last (omega (arith, fewer, ltb→lt (length ms - length (oldest_gone m b ms)) b last)))
        | inr again ↦ rw over (
            rw again (
              IsCapped-step m removed _ ms (oldest_gone m b ms) _ (omega arith) (omega arith)
                (omega arith)
                (remove_over_lem f m b (removed + (length ms - length (oldest_gone m b ms)))
                  (oldest_gone m b ms) p (omega arith)
                  (Distinct-delete_oldest id_of (λ x. x.created_at) (min (length ms - m) b) ms d))))
      ]
]

-- With a batch of at least one row, `retain` ends. What is left is at most `max_rows` messages: as
-- many as were not older than the cutoff, where these are fewer. The number that it returns is the
-- number of messages removed.
pub retain_total :
    (fuel : ℕ) (cutoff : String) (max_rows batch_size : ℕ) (ms : List Message)
    → 0 < batch_size
    → length ms < fuel
    → Distinct id_of ms
    → (n : ℕ) × (ms' : List Message) × (retain fuel cutoff max_rows batch_size ms ≡ some (n, ms'))
      × (length ms' ≡ min max_rows (length (delete_where (is_old cutoff) ms)))
      × (n + length ms' ≡ length ms)
unfolding retain
retain_total fuel cutoff max_rows b ms p h d =
    let old = 0 + count_where (is_old cutoff) ms in
    let rest = delete_where (is_old cutoff) ms in
    let size = length-delete (is_old cutoff) ms in
    let first = remove_old_lem fuel cutoff b 0 ms p (omega (arith, size)) in
    go (remove_over fuel max_rows b old rest) (rw first refl) (
      remove_over_lem fuel max_rows b old rest p (omega (arith, size))
        (Distinct-delete id_of (is_old cutoff) ms d))
  where
    go :
        (o : Option (ℕ × List Message))
        → retain fuel cutoff max_rows b ms ≡ o
        → IsCapped max_rows (0 + count_where (is_old cutoff) ms) (delete_where (is_old cutoff) ms) o
        → (n : ℕ) × (ms' : List Message) × (retain fuel cutoff max_rows b ms ≡ some (n, ms'))
          × (length ms' ≡ min max_rows (length (delete_where (is_old cutoff) ms)))
          × (n + length ms' ≡ length ms)
    go none e c = absurd c
    go (some (n, ms')) e c = (n, ms', e, c.0, omega (arith, length-delete (is_old cutoff) ms, c.1))
