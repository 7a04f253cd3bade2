-- ===== src/Table/Keys.antt =====
-- A text primary key: a table whose rows have distinct keys.
use hermes_walkie_talkie.Prelude.{
  ◌≤◌, String, ◌≡◌, refl, ◌∙◌, inl, inr, Bool, true, some, List, [], ◌∷◌, ◌++◌, map, arith, str_eq,
  eq_iff, eq_refl, if◌then◌else◌, Bool-cases, All, All-imp,
}
use hermes_walkie_talkie.Table.{select_where, first_where, count_where, update_where, delete_where}
use hermes_walkie_talkie.Table.Laws.{count_where-append, count_where-zero}

module _ {ℓ} {A : Type ℓ} (key : A → String) where
  abbrev pub has_key : String → A → Bool
  has_key k x = str_eq (key x) k

  abbrev pub Distinct : List A → Type 0
  Distinct [] = Unit
  Distinct (x ∷ xs) = (count_where (has_key (key x)) xs ≡ 0) × Distinct xs

  pub count-key-le : (k : String) (xs : List A) → Distinct xs → count_where (has_key k) xs ≤ 1
  count-key-le k [] d = omega arith
  count-key-le k (x ∷ xs) d = elim (Bool-cases (has_key k x)) [
    | inl e ↦
        let same : key x ≡ k = (eq_iff (key x) k).0 e in
        rw e (let z : count_where (has_key k) xs ≡ 0 = rw same at (d.0) in omega (arith, z))
    | inr e ↦ rw e (count-key-le k xs d.1)
  ]

  count-le-select :
      (p q : A → Bool) (xs : List A) → count_where q (select_where p xs) ≤ count_where q xs
  count-le-select p q [] = omega arith
  count-le-select p q (x ∷ xs) = ground (arith, count-le-select p q xs)

  count-le-delete :
      (p q : A → Bool) (xs : List A) → count_where q (delete_where p xs) ≤ count_where q xs
  count-le-delete p q [] = omega arith
  count-le-delete p q (x ∷ xs) = ground (arith, count-le-delete p q xs)

  pub Distinct-select : (p : A → Bool) (xs : List A) → Distinct xs → Distinct (select_where p xs)
  Distinct-select p [] d = tt
  Distinct-select p (x ∷ xs) d = elim (Bool-cases (p x)) [
    | inl e ↦ rw e (omega (arith, count-le-select p (has_key (key x)) xs), Distinct-select p xs d.1)
    | inr e ↦ rw e (Distinct-select p xs d.1)
  ]

  pub Distinct-delete : (p : A → Bool) (xs : List A) → Distinct xs → Distinct (delete_where p xs)
  Distinct-delete p [] d = tt
  Distinct-delete p (x ∷ xs) d = elim (Bool-cases (p x)) [
    | inl e ↦ rw e (Distinct-delete p xs d.1)
    | inr e ↦ rw e (omega (arith, count-le-delete p (has_key (key x)) xs), Distinct-delete p xs d.1)
  ]

  -- INSERT of a row whose key is new.
  pub Distinct-insert :
      (x : A) (xs : List A)
      → Distinct xs
      → count_where (has_key (key x)) xs ≡ 0
      → Distinct (xs ++ x ∷ [])
  Distinct-insert x [] d n = (refl, tt)
  Distinct-insert x (y ∷ ys) d n = (
    rw (count_where-append (has_key (key y)) ys (x ∷ []))
        (ground (arith, eq_iff (key y) (key x), eq_iff (key x) (key y))),
    Distinct-insert x ys d.1 (ground arith),
  )

  abbrev pub IsFound : (A → Bool) → List A → A → Type ℓ
  IsFound p xs x = (first_where (has_key (key x)) xs ≡ some x) × (p x ≡ true)

  IsFound-behind :
      (p : A → Bool) (x : A) (xs : List A)
      → count_where (has_key (key x)) xs ≡ 0
      → (y : A) → IsFound p xs y
      → IsFound p (x ∷ xs) y
  IsFound-behind p x xs z y h = elim (Bool-cases (has_key (key y) x)) [
    | inl e ↦
        let same : key x ≡ key y = (eq_iff (key x) (key y)).0 e in
        let missing : count_where (has_key (key y)) xs ≡ 0 = rw same at z in
        cc (count_where-zero (has_key (key y)) xs missing, h.0)
    | inr e ↦ (rw e (h.0), h.1)
  ]

  -- A selected row is the row that its key finds.
  pub select-IsFound :
      (p : A → Bool) (xs : List A) → Distinct xs → All (IsFound p xs) (select_where p xs)
  select-IsFound p [] d = tt
  select-IsFound p (x ∷ xs) d =
      let rest =
        All-imp (IsFound p xs) (IsFound p (x ∷ xs)) (select_where p xs) (IsFound-behind p x xs d.0)
          (select-IsFound p xs d.1) in
      elim (Bool-cases (p x)) [ inl e ↦ rw e ((rw (eq_refl (key x)), e), rest) | inr e ↦ rw e rest ]

  module _ (f : A → A) (keeps : (x : A) → key (f x) ≡ key x) where
    count-update_keys :
        (k : String) (p : A → Bool) (xs : List A)
        → count_where (has_key k) (update_where p f xs) ≡ count_where (has_key k) xs
    count-update_keys k p [] = refl
    count-update_keys k p (x ∷ xs) = elim (Bool-cases (p x)) [
      | inl e ↦ rw (e, keeps x) (ground (arith, count-update_keys k p xs))
      | inr e ↦ rw e (ground (arith, count-update_keys k p xs))
    ]

    pub Distinct-update :
        (p : A → Bool) (xs : List A) → Distinct xs → Distinct (update_where p f xs)
    Distinct-update p [] d = tt
    Distinct-update p (x ∷ xs) d = elim (Bool-cases (p x)) [
      | inl e ↦ rw (e, keeps x) (count-update_keys (key x) p xs ∙ d.0, Distinct-update p xs d.1)
      | inr e ↦ rw e (count-update_keys (key x) p xs ∙ d.0, Distinct-update p xs d.1)
    ]

    -- One UPDATE for each key, in order.
    abbrev pub update_each : List String → List A → List A
    update_each [] xs = xs
    update_each (k ∷ ks) xs = update_each ks (update_where (has_key k) f xs)

    abbrev each_at : List String → A → A
    each_at [] x = x
    each_at (k ∷ ks) x = each_at ks (if has_key k x then f x else x)

    update_each-cons :
        (ks : List String) (x : A) (xs : List A)
        → update_each ks (x ∷ xs) ≡ each_at ks x ∷ update_each ks xs
    update_each-cons [] x xs = refl
    update_each-cons (k ∷ ks) x xs = update_each-cons ks _ _

    abbrev keys_where : (A → Bool) → List A → List String
    keys_where p xs = map key (select_where p xs)

    each_at-fresh :
        (p : A → Bool) (xs : List A) (x : A)
        → count_where (has_key (key x)) xs ≡ 0
        → each_at (keys_where p xs) x ≡ x
    each_at-fresh p [] x h = refl
    each_at-fresh p (y ∷ ys) x h =
        ground (arith, each_at-fresh p ys x, eq_iff (key y) (key x), eq_iff (key x) (key y))

    update-fresh :
        (k : String) (xs : List A)
        → count_where (has_key k) xs ≡ 0
        → update_where (has_key k) f xs ≡ xs
    update-fresh k [] h = refl
    update-fresh k (x ∷ xs) h = ground (arith, update-fresh k xs)

    -- Updating the selected rows one by one is one UPDATE of them all.
    pub update_each-eq-update :
        (p : A → Bool) (xs : List A)
        → Distinct xs
        → update_each (keys_where p xs) xs ≡ update_where p f xs
    update_each-eq-update p [] d = refl
    update_each-eq-update p (x ∷ xs) d = ground (
      arith,
      eq_refl (key x),
      keeps x,
      update-fresh (key x) xs d.0,
      update_each-cons (keys_where p xs) (f x) xs,
      update_each-cons (keys_where p xs) x xs,
      each_at-fresh p xs (f x),
      each_at-fresh p xs x d.0,
      update_each-eq-update p xs d.1,
    )
