-- ===== src/Store/Examples.antt =====
-- Concrete uses of agent_peer/store.py.
use hermes_walkie_talkie.Prelude.{
  ℕ, ◌+◌, min, ◌≡◌, refl, true, none, some, List, [], ◌∷◌, arith, length,
}
use hermes_walkie_talkie.Table.{delete_where}
use hermes_walkie_talkie.Store.{Message, get, claim, is_old, retain}
use hermes_walkie_talkie.Store.Claims.{claim_spec, claim_all, wins, claim-eq-spec, wins-eq-one}
use hermes_walkie_talkie.Store.Retention.{retain_total}
use hermes_walkie_talkie.Store.Migrations.{Schema, blank, IsRelease}

abbrev letter : Message
letter = record {
  message_id = "m";
  recipient_peer_id = "b";
  sender_peer_id = "a";
  kind = "message";
  content = "hello";
  state = "queued";
  created_at = "2026-01-01";
  expires_at = "2026-01-02";
  reply_to = none;
  conversation_id = none;
  delivered_at = none;
  hop_count = 0;
  protocol = "agent-peer/1";
}

abbrev copy : Message
copy = record letter { content = "again" }

claim-eq-spec_example :
    claim copy (letter ∷ []) ≡ claim_spec (get "m" (letter ∷ [])) copy (letter ∷ [])
claim-eq-spec_example = claim-eq-spec copy (letter ∷ [])

get-none : get "m" [] ≡ none
unfolding get
get-none = refl

get-letter : get "m" (letter ∷ []) ≡ some letter
unfolding get
get-letter = refl

wins-eq-one_example :
    (wins "m" (letter ∷ copy ∷ []) [] ≡ 1)
    × (get "m" (claim_all (letter ∷ copy ∷ []) []) ≡ some letter)
wins-eq-one_example = wins-eq-one "m" (letter ∷ copy ∷ []) [] letter get-none refl

retain_total_example :
    (n : ℕ) × (ms' : List Message) × (retain 2 "2026-02-01" 5 1 (letter ∷ []) ≡ some (n, ms'))
    × (length ms' ≡ min 5 (length (delete_where (is_old "2026-02-01") (letter ∷ []))))
    × (n + length ms' ≡ length (letter ∷ []))
retain_total_example =
    retain_total 2 "2026-02-01" 5 1 (letter ∷ []) (omega arith) (omega arith) (refl, tt)

abbrev first_release : Schema
first_release = record blank { version = some 1; messages = true }

first_release-IsRelease : IsRelease first_release
first_release-IsRelease = record {
  unversioned = λ e. ground (arith, e);
  versioned = λ v e. ground (arith, e);
  first = λ v e. ground (arith, e);
  second = λ v e. ground (arith, e);
  third = λ v e. ground (arith, e);
  fourth = λ v e. ground (arith, e);
}
