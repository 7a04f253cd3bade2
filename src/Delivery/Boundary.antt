-- ===== src/Delivery/Boundary.antt =====
-- `_sanitise_name`, `_escape_content` and the markers of hermes_peer/delivery.py. A text is the list
-- of its code points.
use hermes_walkie_talkie.Prelude.{
  ℕ, zero, suc, ◌-◌, Bool, true, false, ◌&&◌, List, [], ◌∷◌, ◌++◌, ◌==◌, if◌then◌else◌, length,
}
use hermes_walkie_talkie.Models.Uuid.{codes}

-- Does `ys` begin with `xs`?
abbrev pub begins : List ℕ → List ℕ → Bool
begins [] ys = true
begins (x ∷ xs) [] = false
begins (x ∷ xs) (y ∷ ys) = x == y && begins xs ys

-- `str.replace(tag, by)` from left to right; `skip` characters belong to the last match.
module _ (tag by : List ℕ) where
  unfoldable pub replace_from : ℕ → List ℕ → List ℕ
  replace_from skip [] = []
  replace_from (suc skip) (x ∷ xs) = replace_from skip xs
  replace_from zero (x ∷ xs) =
      let hit = by ++ replace_from (length tag - 1) xs in
      let miss = x ∷ replace_from zero xs in if begins tag (x ∷ xs) then hit else miss

abbrev pub replace : List ℕ → List ℕ → List ℕ → List ℕ
replace tag by xs = replace_from tag by 0 xs

abbrev pub message_open : List ℕ
message_open = codes "<peer_message>"

abbrev pub message_close : List ℕ
message_close = codes "</peer_message>"

abbrev pub request_open : List ℕ
request_open = codes "<peer_request>"

abbrev pub request_close : List ℕ
request_close = codes "</peer_request>"

abbrev pub boundary_tags : List (List ℕ)
boundary_tags = message_open ∷ message_close ∷ request_open ∷ request_close ∷ []

abbrev pub message_tags : List (List ℕ)
message_tags = message_open ∷ message_close ∷ []

abbrev pub request_tags : List (List ℕ)
request_tags = request_open ∷ request_close ∷ []

abbrev pub remove_tags : List (List ℕ) → List ℕ → List ℕ
remove_tags [] xs = xs
remove_tags (t ∷ ts) xs = remove_tags ts (replace t [] xs)

-- `_sanitise_name`; 13 and 10 are the ends of a line.
unfoldable pub sanitise_name : List ℕ → List ℕ
sanitise_name name = remove_tags boundary_tags (replace (10 ∷ []) [] (replace (13 ∷ []) [] name))

-- U+200B
abbrev pub zero_width : ℕ
zero_width = 8203

-- `tag[:1] + "\u200b" + tag[1:]`
abbrev pub broken : List ℕ → List ℕ
broken [] = zero_width ∷ []
broken (x ∷ xs) = x ∷ zero_width ∷ xs

-- `_escape_content`
unfoldable pub escape_content : List (List ℕ) → List ℕ → List ℕ
escape_content [] xs = xs
escape_content (t ∷ ts) xs = escape_content ts (replace t (broken t) xs)

abbrev pub line : List ℕ → List ℕ → List ℕ
line label value = label ++ value ++ 10 ∷ []

unfoldable pub peer_message_marker : List ℕ → List ℕ → List ℕ → List ℕ → List ℕ
peer_message_marker content sender_name sender_peer_id message_id =
    line message_open []
    ++ line (codes "From: ") (sanitise_name sender_name)
    ++ line (codes "Peer ID: ") sender_peer_id
    ++ line (codes "Message ID: ") message_id
    ++ line [] []
    ++ line [] (escape_content message_tags content)
    ++ message_close

unfoldable pub peer_request_marker : List ℕ → List ℕ → List ℕ → List ℕ → List ℕ → List ℕ
peer_request_marker content sender_name sender_agent_id request_id summary =
    line request_open []
    ++ line (codes "From: ") (sanitise_name sender_name)
    ++ line (codes "Sender Agent ID: ") sender_agent_id
    ++ line (codes "Request ID: ") request_id
    ++ line (codes "Summary: ") (escape_content request_tags summary)
    ++ line [] []
    ++ line [] (escape_content request_tags content)
    ++ request_close
