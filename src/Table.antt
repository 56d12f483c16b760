-- ===== src/Table.antt =====
-- A database table: rows with a key, found and written back one at a time, and `ORDER BY`.
-- Rows of a table have different keys.
pub mod Rows
pub mod Order
pub mod Members
use praktika.Prelude.{ℕ, ◌≢◌, Bool, Option, none, some, List, [], ◌∷◌, ◌==◌, if◌then◌else◌, All}

module _ {ℓ} {A : Type ℓ} (key : A → ℕ) where
  -- `SELECT ... WHERE id = k`
  unfoldable pub find : ℕ → List A → Option A
  find k [] = none
  find k (x ∷ xs) = if key x == k then some x else find k xs

  -- The flush of a changed row.
  unfoldable pub put : A → List A → List A
  put y [] = []
  put y (x ∷ xs) = if key x == key y then y ∷ xs else x ∷ put y xs

-- `ORDER BY ... LIMIT 1`: the first row that no other row comes before.
unfoldable pub least {ℓ} : {A : Type ℓ} → (A → A → Bool) → List A → Option A
least before [] = none
least before (x ∷ xs) = elim (least before xs) [
  | none ↦ some x
  | some y ↦ if before y x then some y else some x
]

-- `ORDER BY`, and Python's stable `sort`.
unfoldable pub insert_row {ℓ} : {A : Type ℓ} → (A → A → Bool) → A → List A → List A
insert_row before x [] = x ∷ []
insert_row before x (y ∷ ys) =
    let rest = insert_row before x ys in if before y x then y ∷ rest else x ∷ y ∷ ys

unfoldable pub sort {ℓ} : {A : Type ℓ} → (A → A → Bool) → List A → List A
unfolding insert_row
sort before [] = []
sort before (x ∷ xs) = insert_row before x (sort before xs)

-- Two versions of a table agree row by row up to `R`.
abbrev pub Each {ℓ} : {A : Type ℓ} → (A → A → Type 0) → List A → List A → Type 0
Each R [] [] = Unit
Each R [] (y ∷ ys) = ⊥
Each R (x ∷ xs) [] = ⊥
Each R (x ∷ xs) (y ∷ ys) = R x y × Each R xs ys

-- No key occurs twice.
abbrev pub AreDistinct {ℓ} : {A : Type ℓ} → (A → ℕ) → List A → Type 0
AreDistinct key [] = Unit {0}
AreDistinct key (x ∷ xs) = All (λ y. key y ≢ key x) xs × AreDistinct key xs
