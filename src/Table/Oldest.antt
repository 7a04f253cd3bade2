-- ===== src/Table/Oldest.antt =====
-- DELETE of the first n rows in the order of a column, by their keys.
use hermes_walkie_talkie.Prelude.{
  ℕ, zero, suc, ◌+◌, min, String, ◌≡◌, refl, ap, ◌∙◌, inl, inr, Bool, false, ◌||◌, List, [], ◌∷◌,
  map, arith, eq_iff, eq_refl, str_lt, Bool-cases, length, take,
}
use hermes_walkie_talkie.Table.{count_where, delete_where, insert_by, order_by}
use hermes_walkie_talkie.Table.Laws.{length-delete}
use hermes_walkie_talkie.Table.Keys.{has_key, Distinct, Distinct-delete}

module _ {ℓ} {A : Type ℓ} (key order : A → String) where
  abbrev pub in_keys : List String → A → Bool
  in_keys [] x = false
  in_keys (k ∷ ks) x = has_key key k x || in_keys ks x

  -- DELETE ... WHERE key IN (SELECT key ... ORDER BY order LIMIT n)
  abbrev pub delete_oldest : ℕ → List A → List A
  delete_oldest n xs = delete_where (in_keys (map key (take n (order_by order xs)))) xs

  count-insert_by :
      (p : A → Bool) (x : A) (ys : List A)
      → count_where p (insert_by order x ys) ≡ count_where p (x ∷ ys)
  count-insert_by p x [] = refl
  count-insert_by p x (y ∷ ys) = ground (arith, count-insert_by p x ys)

  pub count-order_by :
      (p : A → Bool) (xs : List A) → count_where p (order_by order xs) ≡ count_where p xs
  count-order_by p [] = refl
  count-order_by p (x ∷ xs) =
      count-insert_by p x (order_by order xs) ∙ ground (arith, count-order_by p xs)

  length-insert_by : (x : A) (ys : List A) → length (insert_by order x ys) ≡ suc (length ys)
  length-insert_by x [] = refl
  length-insert_by x (y ∷ ys) = ground (arith, length-insert_by x ys)

  pub length-order_by : (xs : List A) → length (order_by order xs) ≡ length xs
  length-order_by [] = refl
  length-order_by (x ∷ xs) = length-insert_by x (order_by order xs) ∙ ap suc (length-order_by xs)

  Distinct-insert_by :
      (x : A) (ys : List A)
      → count_where (has_key key (key x)) ys ≡ 0
      → Distinct key ys
      → Distinct key (insert_by order x ys)
  Distinct-insert_by x [] z d = (refl, tt)
  Distinct-insert_by x (y ∷ ys) z d = elim (Bool-cases (str_lt (order y) (order x))) [
    | inl e ↦ rw e (
      count-insert_by (has_key key (key y)) x ys
          ∙ ground (arith, eq_iff (key y) (key x), eq_iff (key x) (key y)),
      Distinct-insert_by x ys (ground arith) d.1,
    )
    | inr e ↦ rw e (z, d)
  ]

  Distinct-order_by : (xs : List A) → Distinct key xs → Distinct key (order_by order xs)
  Distinct-order_by [] d = tt
  Distinct-order_by (x ∷ xs) d =
      Distinct-insert_by x (order_by order xs) (count-order_by (has_key key (key x)) xs ∙ d.0)
        (Distinct-order_by xs d.1)

  count-or :
      (p q : A → Bool) (xs : List A)
      → count_where p xs ≡ 0
      → count_where (λ x. p x || q x) xs ≡ count_where q xs
  count-or p q [] z = refl
  count-or p q (x ∷ xs) z = ground (arith, count-or p q xs)

  count-false : (xs : List A) → count_where (in_keys []) xs ≡ 0
  count-false [] = refl
  count-false (x ∷ xs) = count-false xs

  count-take :
      (n : ℕ) (ys : List A)
      → Distinct key ys
      → count_where (in_keys (map key (take n ys))) ys ≡ min n (length ys)
  count-take zero ys d = rw (count-false ys) (omega arith)
  count-take (suc n) [] d = omega arith
  count-take (suc n) (y ∷ ys) d = rw (eq_refl (key y)) (
      omega (
        arith,
        count-or (has_key key (key y)) (in_keys (map key (take n ys))) ys d.0,
        count-take n ys d.1,
      ))

  -- Exactly n rows go, or all where there are fewer.
  pub length-delete_oldest :
      (n : ℕ) (xs : List A)
      → Distinct key xs
      → length (delete_oldest n xs) + min n (length xs) ≡ length xs
  length-delete_oldest n xs d = omega (
    arith,
    length-delete (in_keys (map key (take n (order_by order xs)))) xs,
    count-order_by (in_keys (map key (take n (order_by order xs)))) xs,
    count-take n (order_by order xs) (Distinct-order_by xs d),
    length-order_by xs,
  )

  pub Distinct-delete_oldest :
      (n : ℕ) (xs : List A) → Distinct key xs → Distinct key (delete_oldest n xs)
  Distinct-delete_oldest n xs d = Distinct-delete key _ xs d
