-- ===== src/Table.antt =====
-- A table of the SQLite store as the list of its rows in rowid order, and the statements that the
-- source uses: SELECT, UPDATE and DELETE with a WHERE clause, COUNT(*), and LIMIT.
pub mod Keys
pub mod Laws
pub mod Oldest
use hermes_walkie_talkie.Prelude.{
  ℕ, zero, suc, Bool, Option, none, some, List, [], ◌∷◌, if◌then◌else◌, String, str_lt,
}

module _ {ℓ} {A : Type ℓ} where
  -- SELECT ... WHERE p, `fetchall`
  abbrev pub select_where : (A → Bool) → List A → List A
  select_where p [] = []
  select_where p (x ∷ xs) = let rest = select_where p xs in if p x then x ∷ rest else rest

  -- SELECT ... WHERE p, `fetchone`
  abbrev pub first_where : (A → Bool) → List A → Option A
  first_where p [] = none
  first_where p (x ∷ xs) = if p x then some x else first_where p xs

  -- SELECT COUNT(*) ... WHERE p; the rowcount of UPDATE and DELETE
  abbrev pub count_where : (A → Bool) → List A → ℕ
  count_where p [] = 0
  count_where p (x ∷ xs) = let rest = count_where p xs in if p x then suc rest else rest

  -- UPDATE ... SET f WHERE p
  abbrev pub update_where : (A → Bool) → (A → A) → List A → List A
  update_where p f [] = []
  update_where p f (x ∷ xs) = (if p x then f x else x) ∷ update_where p f xs

  -- DELETE ... WHERE p
  abbrev pub delete_where : (A → Bool) → List A → List A
  delete_where p [] = []
  delete_where p (x ∷ xs) = let rest = delete_where p xs in if p x then rest else x ∷ rest

  -- DELETE of the first n rows WHERE p, as `key IN (SELECT key ... WHERE p LIMIT n)`
  abbrev pub delete_limit : (A → Bool) → ℕ → List A → List A
  delete_limit p n [] = []
  delete_limit p zero (x ∷ xs) = x ∷ xs
  delete_limit p (suc n) (x ∷ xs) =
      let hit = delete_limit p n xs in
      let miss = x ∷ delete_limit p (suc n) xs in if p x then hit else miss

-- ORDER BY a text column; rows with equal keys keep their order.
module _ {ℓ} {A : Type ℓ} (key : A → String) where
  abbrev pub insert_by : A → List A → List A
  insert_by x [] = x ∷ []
  insert_by x (y ∷ ys) = if str_lt (key y) (key x) then y ∷ insert_by x ys else x ∷ y ∷ ys

  abbrev pub order_by : List A → List A
  order_by [] = []
  order_by (x ∷ xs) = insert_by x (order_by xs)
