-- ===== src/Table/Laws.antt =====
-- Laws of the table statements.
use hermes_walkie_talkie.Prelude.{
  ℕ, zero, suc, ◌+◌, ◌≤◌, min, ◌≡◌, refl, ap, inl, inr, Bool, true, none, some, List, [], ◌∷◌, ◌++◌,
  arith, if◌then◌else◌, Bool-cases, length, All,
}
use hermes_walkie_talkie.Table.{
  select_where, first_where, count_where, update_where, delete_where, delete_limit,
}

module _ {ℓ} {A : Type ℓ} where
  pub first_where-true :
      (p : A → Bool) (xs : List A) (a : A) → first_where p xs ≡ some a → p a ≡ true
  first_where-true p [] a h = cc
  first_where-true p (x ∷ xs) a h = ground (arith, first_where-true p xs a)

  pub first_where-none :
      (p : A → Bool) (xs : List A) → first_where p xs ≡ none → count_where p xs ≡ 0
  first_where-none p [] h = refl
  first_where-none p (x ∷ xs) h = ground (arith, first_where-none p xs)

  pub count_where-zero :
      (p : A → Bool) (xs : List A) → count_where p xs ≡ 0 → first_where p xs ≡ none
  count_where-zero p [] h = refl
  count_where-zero p (x ∷ xs) h = ground (arith, count_where-zero p xs)

  -- An UPDATE that meets no row changes nothing.
  pub update_where-none :
      (p : A → Bool) (f : A → A) (xs : List A) → count_where p xs ≡ 0 → update_where p f xs ≡ xs
  update_where-none p f [] h = refl
  update_where-none p f (x ∷ xs) h = ground (arith, update_where-none p f xs)

  pub update_where-append :
      (p : A → Bool) (f : A → A) (xs ys : List A)
      → update_where p f (xs ++ ys) ≡ update_where p f xs ++ update_where p f ys
  update_where-append p f [] ys = refl
  update_where-append p f (x ∷ xs) ys =
      ap (λ t. (if p x then f x else x) ∷ t) (update_where-append p f xs ys)

  pub count_where-append :
      (p : A → Bool) (xs ys : List A)
      → count_where p (xs ++ ys) ≡ count_where p xs + count_where p ys
  count_where-append p [] ys = omega arith
  count_where-append p (x ∷ xs) ys = ground (arith, count_where-append p xs ys)

  pub first_where-append :
      (p : A → Bool) (xs ys : List A) (a : A)
      → first_where p xs ≡ some a
      → first_where p (xs ++ ys) ≡ some a
  first_where-append p [] ys a h = cc
  first_where-append p (x ∷ xs) ys a h = ground (arith, first_where-append p xs ys a)

  pub first_where-append_none :
      (p : A → Bool) (xs ys : List A)
      → first_where p xs ≡ none
      → first_where p (xs ++ ys) ≡ first_where p ys
  first_where-append_none p [] ys h = refl
  first_where-append_none p (x ∷ xs) ys h = ground (arith, first_where-append_none p xs ys)

  -- A count does not see an update that leaves its test alone.
  pub count_where-update :
      (p q : A → Bool) (f : A → A) (xs : List A)
      → ((x : A) → p (f x) ≡ p x)
      → count_where p (update_where q f xs) ≡ count_where p xs
  count_where-update p q f [] h = refl
  count_where-update p q f (x ∷ xs) h = ground (arith, h x, count_where-update p q f xs h)

  pub first_where-update :
      (p q : A → Bool) (f : A → A) (xs : List A) (a : A)
      → ((x : A) → p (f x) ≡ p x)
      → first_where p xs ≡ some a
      → first_where p (update_where q f xs) ≡ some (if q a then f a else a)
  first_where-update p q f [] a h e = cc
  first_where-update p q f (x ∷ xs) a h e = ground (arith, h x, first_where-update p q f xs a h)

  pub first_where-update_none :
      (p q : A → Bool) (f : A → A) (xs : List A)
      → ((x : A) → p (f x) ≡ p x)
      → first_where p xs ≡ none
      → first_where p (update_where q f xs) ≡ none
  first_where-update_none p q f [] h e = refl
  first_where-update_none p q f (x ∷ xs) h e =
      ground (arith, h x, first_where-update_none p q f xs h)

  pub length-update :
      (q : A → Bool) (f : A → A) (xs : List A) → length (update_where q f xs) ≡ length xs
  length-update q f [] = refl
  length-update q f (x ∷ xs) = ap suc (length-update q f xs)

  -- Rows are neither lost nor invented by a DELETE.
  pub length-delete :
      (p : A → Bool) (xs : List A) → length (delete_where p xs) + count_where p xs ≡ length xs
  length-delete p [] = omega arith
  length-delete p (x ∷ xs) = ground (arith, length-delete p xs)

  pub count_where-delete :
      (p q : A → Bool) (xs : List A) → count_where q (delete_where p xs) ≤ count_where q xs
  count_where-delete p q [] = omega arith
  count_where-delete p q (x ∷ xs) = ground (arith, count_where-delete p q xs)

  pub count_where-delete_self : (p : A → Bool) (xs : List A) → count_where p (delete_where p xs) ≡ 0
  count_where-delete_self p [] = refl
  count_where-delete_self p (x ∷ xs) = ground (arith, count_where-delete_self p xs)

  pub length-delete_limit :
      (p : A → Bool) (n : ℕ) (xs : List A)
      → length (delete_limit p n xs) + min n (count_where p xs) ≡ length xs
  length-delete_limit p n [] = omega arith
  length-delete_limit p zero (x ∷ xs) = omega arith
  length-delete_limit p (suc n) (x ∷ xs) =
      ground (arith, length-delete_limit p n xs, length-delete_limit p (suc n) xs)

  pub length-select : (p : A → Bool) (xs : List A) → length (select_where p xs) ≡ count_where p xs
  length-select p [] = refl
  length-select p (x ∷ xs) = ground (arith, length-select p xs)

module _ {ℓ κ} {A : Type ℓ} (P : A → Type κ) where
  pub All-update :
      (q : A → Bool) (f : A → A) (xs : List A)
      → ((x : A) → q x ≡ true → P x → P (f x))
      → All P xs
      → All P (update_where q f xs)
  All-update q f [] h a = tt
  All-update q f (x ∷ xs) h a = elim (Bool-cases (q x)) [
    | inl e ↦ (rw e (h x e a.0), All-update q f xs h a.1)
    | inr e ↦ (rw e (a.0), All-update q f xs h a.1)
  ]

  pub All-delete : (q : A → Bool) (xs : List A) → All P xs → All P (delete_where q xs)
  All-delete q [] a = tt
  All-delete q (x ∷ xs) a = elim (Bool-cases (q x)) [
    | inl e ↦ rw e (All-delete q xs a.1)
    | inr e ↦ rw e (a.0, All-delete q xs a.1)
  ]

  pub All-select : (q : A → Bool) (xs : List A) → All P xs → All P (select_where q xs)
  All-select q [] a = tt
  All-select q (x ∷ xs) a = elim (Bool-cases (q x)) [
    | inl e ↦ rw e (a.0, All-select q xs a.1)
    | inr e ↦ rw e (All-select q xs a.1)
  ]

  pub All-first : (q : A → Bool) (xs : List A) {a : A} → All P xs → first_where q xs ≡ some a → P a
  All-first q [] h e = cc
  All-first q (x ∷ xs) {a} h e = elim (Bool-cases (q x)) [
    | inl t ↦ let same : x ≡ a = ground arith in rw (← same) (h.0)
    | inr t ↦ All-first q xs h.1 (ground arith)
  ]
