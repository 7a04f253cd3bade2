-- ===== src/Delivery/Erase.antt =====
-- Escaped text of hermes_peer/delivery.py reads like the text that was escaped.
use hermes_walkie_talkie.Prelude.{
  ℕ, zero, suc, ◌-◌, ◌≡◌, refl, sym, ap, ◌∙◌, inl, inr, true, false, List, [], ◌∷◌, ◌++◌, arith,
  ◌==◌, if◌then◌else◌, ==_iff, Bool-cases, length, drop,
}
use hermes_walkie_talkie.Models.Uuid.{codes}
use hermes_walkie_talkie.Delivery.Boundary.{
  message_open, request_open, replace, message_tags, request_tags, broken, escape_content, begins,
  replace_from, replace, message_tags, request_tags, zero_width, broken, escape_content,
}

-- The text without U+200B, which has no width.
abbrev pub erase : List ℕ → List ℕ
erase [] = []
erase (x ∷ xs) = let rest = erase xs in if x == zero_width then rest else x ∷ rest

erase-append : (xs ys : List ℕ) → erase (xs ++ ys) ≡ erase xs ++ erase ys
erase-append [] ys = refl
erase-append (x ∷ xs) ys = elim (Bool-cases (x == zero_width)) [
  | inl e ↦ rw e (erase-append xs ys)
  | inr e ↦ rw e (ap (λ t. x ∷ t) (erase-append xs ys))
]

begins-split : (t ys : List ℕ) → begins t ys ≡ true → ys ≡ t ++ drop (length t) ys
begins-split [] ys h = refl
begins-split (x ∷ t) [] h = cc
begins-split (x ∷ t) (y ∷ ys) h = elim (Bool-cases (x == y)) [
  | inl e ↦
      let k : begins t ys ≡ true = rw e at h in
      rw ((==_iff x y).0 e) (ap (λ s. y ∷ s) (begins-split t ys k))
  | inr e ↦ let k : false ≡ true = rw e at h in cc
]

module _ (c : ℕ) (u : List ℕ) where
  abbrev go : ℕ → List ℕ → List ℕ
  go = replace_from (c ∷ u) (c ∷ zero_width ∷ u)

  erase_cons : (x : ℕ) (ys zs : List ℕ) → erase ys ≡ erase zs → erase (x ∷ ys) ≡ erase (x ∷ zs)
  erase_cons x ys zs h = ap (λ t. if x == zero_width then t else x ∷ t) h

  less : length (c ∷ u) - 1 ≡ length u
  less = omega arith

  erase-go : (k : ℕ) (xs : List ℕ) → erase (go k xs) ≡ erase (drop k xs)
  unfolding replace_from
  erase-go zero [] = refl
  erase-go (suc k) [] = refl
  erase-go (suc k) (x ∷ xs) = erase-go k xs
  erase-go zero (x ∷ xs) = elim (Bool-cases (begins (c ∷ u) (x ∷ xs))) [
    | inl e ↦ rw e (
        erase-append (c ∷ zero_width ∷ u) (go (length (c ∷ u) - 1) xs)
        ∙ ap (λ t. erase (c ∷ u) ++ t) (erase-go (length (c ∷ u) - 1) xs)
        ∙ ap (λ k. erase (c ∷ u) ++ erase (drop k xs)) less
        ∙ sym (erase-append (c ∷ u) (drop (length u) xs))
        ∙ ap erase (sym (begins-split (c ∷ u) (x ∷ xs) e)))
    | inr e ↦ rw e (erase_cons x (go 0 xs) xs (erase-go 0 xs))
  ]

-- The escaped text of a message and that of a request differ from the text that was escaped by
-- characters without width only.
pub erase-escape_content :
    (content : List ℕ)
    → (erase (escape_content message_tags content) ≡ erase content)
      × (erase (escape_content request_tags content) ≡ erase content)
unfolding escape_content
erase-escape_content content = (
  erase-go 60 (codes "/peer_message>") 0 (replace message_open (broken message_open) content)
      ∙ erase-go 60 (codes "peer_message>") 0 content,
  erase-go 60 (codes "/peer_request>") 0 (replace request_open (broken request_open) content)
      ∙ erase-go 60 (codes "peer_request>") 0 content,
)
