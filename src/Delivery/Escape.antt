-- ===== src/Delivery/Escape.antt =====
-- Escaped text of hermes_peer/delivery.py holds no boundary tag.
use hermes_walkie_talkie.Prelude.{
  ℕ, zero, suc, ◌-◌, ◌≡◌, refl, sym, ◌∙◌, inl, inr, Bool, true, false, ◌&&◌, List, [], ◌∷◌, ◌++◌,
  arith, ◌==◌, ==_iff, Bool-cases, length,
}
use hermes_walkie_talkie.Models.Uuid.{codes}
use hermes_walkie_talkie.Delivery.Boundary.{
  replace, broken, message_open, message_close, message_tags, escape_content, begins, replace_from,
  zero_width,
}

-- No place of a text begins with the tag.
abbrev pub IsAbsent : List ℕ → List ℕ → Type 0
IsAbsent t [] = Unit
IsAbsent t (x ∷ xs) = (begins t (x ∷ xs) ≡ false) × IsAbsent t xs

-- No element of a text is the character `c`.
abbrev pub Lacks : ℕ → List ℕ → Type 0
Lacks c [] = Unit
Lacks c (x ∷ xs) = ((x == c) ≡ false) × Lacks c xs

and_left : (a b : Bool) → a && b ≡ true → a ≡ true
and_left true b h = refl
and_left false b h = h

and_right : (a b : Bool) → a && b ≡ true → b ≡ true
and_right true b h = h
and_right false b h = cc

false_unless : (b : Bool) → (b ≡ true → false ≡ true) → b ≡ false
false_unless true h = sym (h refl)
false_unless false h = refl

==_other : (x c : ℕ) → (x == c) ≡ false → (c == x) ≡ false
==_other x c h = ground (arith, ==_iff x c, ==_iff c x)

-- Another text before one that lacks a tag that begins with `c`.
IsAbsent-behind :
    (c : ℕ) (t v rest : List ℕ) → Lacks c v → IsAbsent (c ∷ t) rest → IsAbsent (c ∷ t) (v ++ rest)
IsAbsent-behind c t [] rest l h = h
IsAbsent-behind c t (x ∷ v) rest l h =
    (rw (==_other x c l.0) refl, IsAbsent-behind c t v rest l.1 h)

-- A tag: a `c` and a character that is not U+200B, and no further `c`, which is not U+200B itself.
module _ (c a : ℕ) (u : List ℕ) (lacks : Lacks c (a ∷ u)) (plain : (zero_width == c) ≡ false) where
  abbrev go : ℕ → List ℕ → List ℕ
  go = replace_from (c ∷ a ∷ u) (c ∷ zero_width ∷ a ∷ u)

  go_hit :
      (x : ℕ) (xs : List ℕ)
      → begins (c ∷ a ∷ u) (x ∷ xs) ≡ true
      → go 0 (x ∷ xs) ≡ c ∷ (zero_width ∷ a ∷ u) ++ go (length (c ∷ a ∷ u) - 1) xs
  unfolding replace_from
  go_hit x xs e = rw e refl

  go_miss :
      (x : ℕ) (xs : List ℕ) → begins (c ∷ a ∷ u) (x ∷ xs) ≡ false → go 0 (x ∷ xs) ≡ x ∷ go 0 xs
  unfolding replace_from
  go_miss x xs e = rw e refl

  go_empty : (k : ℕ) → go k [] ≡ []
  unfolding replace_from
  go_empty k = refl

  go_skip : (k x : ℕ) (xs : List ℕ) → go (suc k) (x ∷ xs) ≡ go k xs
  unfolding replace_from
  go_skip k x xs = refl

  -- A text that lacks `c` and stands at the beginning after the replacement stood there before.
  begins-before : (v xs : List ℕ) → Lacks c v → begins v (go 0 xs) ≡ true → begins v xs ≡ true
  begins-before [] xs l h = refl
  begins-before (b ∷ v) [] l h = let k : begins (b ∷ v) [] ≡ true = rw (go_empty 0) at h in cc
  begins-before (b ∷ v) (x ∷ xs) l h = elim (Bool-cases (begins (c ∷ a ∷ u) (x ∷ xs))) [
    | inl e ↦
        let k = rw (go_hit x xs e) at h in
        let k' : false ≡ true = sym l.0 ∙ and_left (b == c) _ k in cc
    | inr e ↦
        let k : (b == x) && begins v (go 0 xs) ≡ true = rw (go_miss x xs e) at h in
        rw (and_left (b == x) (begins v (go 0 xs)) k)
          (begins-before v xs l.1 (and_right (b == x) (begins v (go 0 xs)) k))
  ]

  -- Another tag that begins with `c`, or the same one.
  module _ (d : ℕ) (w : List ℕ) (lacks' : Lacks c (d ∷ w))
      (visible : (d == zero_width) ≡ false) where
    begins_after :
        (x : ℕ) (xs : List ℕ)
        → begins (c ∷ d ∷ w) (x ∷ xs) ≡ false
        → begins (c ∷ d ∷ w) (x ∷ go 0 xs) ≡ false
    begins_after x xs h = false_unless (begins (c ∷ d ∷ w) (x ∷ go 0 xs)) (λ k.
        let before =
          begins-before (d ∷ w) xs lacks' (and_right (c == x) (begins (d ∷ w) (go 0 xs)) k) in
        let head = and_left (c == x) (begins (d ∷ w) (go 0 xs)) k in sym h ∙ rw (head, before) refl)

    IsAbsent-hit :
        (rest : List ℕ)
        → IsAbsent (c ∷ d ∷ w) rest
        → IsAbsent (c ∷ d ∷ w) (c ∷ (zero_width ∷ a ∷ u) ++ rest)
    IsAbsent-hit rest h = (
      false_unless _ (λ k. sym visible ∙ and_left (d == zero_width) _ (and_right (c == c) _ k)),
      IsAbsent-behind c (d ∷ w) (zero_width ∷ a ∷ u) rest (plain, lacks) h,
    )

    IsAbsent-keep : (k : ℕ) (xs : List ℕ) → IsAbsent (c ∷ d ∷ w) xs → IsAbsent (c ∷ d ∷ w) (go k xs)
    IsAbsent-keep k [] h = rw (go_empty k) tt
    IsAbsent-keep (suc k) (x ∷ xs) h = rw (go_skip k x xs) (IsAbsent-keep k xs h.1)
    IsAbsent-keep zero (x ∷ xs) h = elim (Bool-cases (begins (c ∷ a ∷ u) (x ∷ xs))) [
      | inl e ↦ rw (go_hit x xs e) (
          IsAbsent-hit (go (length (c ∷ a ∷ u) - 1) xs)
            (IsAbsent-keep (length (c ∷ a ∷ u) - 1) xs h.1))
      | inr e ↦ rw (go_miss x xs e) (begins_after x xs h.0, IsAbsent-keep 0 xs h.1)
    ]

  IsAbsent-self : (a == zero_width) ≡ false → (k : ℕ) (xs : List ℕ) → IsAbsent (c ∷ a ∷ u) (go k xs)
  IsAbsent-self v k [] = rw (go_empty k) tt
  IsAbsent-self v (suc k) (x ∷ xs) = rw (go_skip k x xs) (IsAbsent-self v k xs)
  IsAbsent-self v zero (x ∷ xs) = elim (Bool-cases (begins (c ∷ a ∷ u) (x ∷ xs))) [
    | inl e ↦ rw (go_hit x xs e) (
        IsAbsent-hit a u lacks v (go (length (c ∷ a ∷ u) - 1) xs)
          (IsAbsent-self v (length (c ∷ a ∷ u) - 1) xs))
    | inr e ↦ rw (go_miss x xs e) (begins_after a u lacks v x xs e, IsAbsent-self v 0 xs)
  ]

-- However a peer writes its message, the escaped content that stands between the boundary tags of a
-- message holds neither of them.
pub escape_message-IsAbsent :
    (content : List ℕ)
    → IsAbsent message_open (escape_content message_tags content)
      × IsAbsent message_close (escape_content message_tags content)
unfolding escape_content
escape_message-IsAbsent content =
    let open_lacks : Lacks 60 (112 ∷ codes "eer_message>") = ground arith in
    let close_lacks : Lacks 60 (47 ∷ codes "peer_message>") = ground arith in
    (
      IsAbsent-keep 60 47 (codes "peer_message>") close_lacks refl 112 (codes "eer_message>")
          open_lacks refl 0 (replace message_open (broken message_open) content)
          (IsAbsent-self 60 112 (codes "eer_message>") open_lacks refl refl 0 content),
      IsAbsent-self 60 47 (codes "peer_message>") close_lacks refl refl 0
          (replace message_open (broken message_open) content),
    )
