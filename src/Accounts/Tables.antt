-- ===== src/Accounts/Tables.antt =====
-- What the queries find, and what a written user changes in the counts.
use praktika.Prelude.{
  ℕ, ◌+◌, ◌≡◌, refl, ◌≢◌, Bool, true, false, some, List, [], ◌∷◌, arith, ◌==◌, if◌then◌else◌,
  Bool-cases, inl, inr, length, filter, All,
}
use mathlib.Core.Path.{subst}
use praktika.Table.{find, put, AreDistinct}
use praktika.Table.Rows.{All-put, All-find}
use praktika.Permissions.{UserRole}
use praktika.Accounts.{Role, Store}
use praktika.Accounts.Rows.{first_where, get_role, same_role}

pub first_where_passes {ℓ} :
    {A : Type ℓ} (p : A → Bool) (xs : List A) (x : A) → first_where p xs ≡ some x → p x ≡ true
unfolding first_where
first_where_passes p [] x h = cc
first_where_passes p (y ∷ ys) x h = elim (Bool-cases (p y)) [
  | inl hit ↦ subst (λ z. p z ≡ true) (the_row (rw hit at h)) hit
  | inr miss ↦ first_where_passes p ys x (rw miss at h)
]
  where
    the_row : some y ≡ some x → y ≡ x
    the_row q = cc

pub get_role-code :
    (code : UserRole) (s : Store) (role : Role) → get_role code s ≡ some role → role.code ≡ code
unfolding get_role same_role
get_role-code code s role h = same role.code code (first_where_passes _ s.roles role h)
  where
    same : (a b : UserRole) → same_role a b ≡ true → a ≡ b
    same UserRole.user UserRole.user e = refl
    same UserRole.user UserRole.editor e = cc
    same UserRole.user UserRole.admin e = cc
    same UserRole.editor UserRole.user e = cc
    same UserRole.editor UserRole.editor e = refl
    same UserRole.editor UserRole.admin e = cc
    same UserRole.admin UserRole.user e = cc
    same UserRole.admin UserRole.editor e = cc
    same UserRole.admin UserRole.admin e = refl

-- What a test counts of one row.
abbrev pub tally : Bool → ℕ
tally true = 1
tally false = 0

module _ {ℓ} {A : Type ℓ} (key : A → ℕ) (p : A → Bool) where
  pub count-put :
      (x y : A) (xs : List A)
      → find key (key y) xs ≡ some x
      → length (filter p (put key y xs)) + tally (p x) ≡ length (filter p xs) + tally (p y)
  unfolding find put
  count-put x y [] h = cc
  count-put x y (z ∷ zs) h = elim (Bool-cases (key z == key y)) [
    | inl hit ↦ rw hit (the_row (rw hit at h))
    | inr miss ↦ rw miss (ground (arith, count-put x y zs (rw miss at h)))
  ]
    where
      the_row :
          some z ≡ some x
          → length (filter p (y ∷ zs)) + tally (p x) ≡ length (filter p (z ∷ zs)) + tally (p y)
      the_row q = ground arith

  -- The first row that passes is found by its key, if keys are distinct.
  pub find-first_where :
      (xs : List A) (x : A)
      → AreDistinct key xs
      → first_where p xs ≡ some x
      → find key (key x) xs ≡ some x
  unfolding find first_where
  find-first_where [] x d h = cc
  find-first_where (y ∷ ys) x d h = elim (Bool-cases (p y)) [
    | inl hit ↦ ground (arith, rw hit at h)
    | inr miss ↦ after (find-first_where ys x d.1 (rw miss at h))
  ]
    where
      after :
          find key (key x) ys ≡ some x
          → (if key y == key x then some y else find key (key x) ys) ≡ some x
      after e = ground (arith, All-find key (λ z. key z ≢ key y) (key x) ys x d.0 e)

module _ {ℓ} {A : Type ℓ} (key : A → ℕ) where
  pub AreDistinct-put : (y : A) (xs : List A) → AreDistinct key xs → AreDistinct key (put key y xs)
  unfolding put
  AreDistinct-put y [] d = tt
  AreDistinct-put y (x ∷ xs) d = elim (Bool-cases (key x == key y)) [
    | inl hit ↦ rw hit (subst (λ k. All (λ z. key z ≢ k) xs) (ground arith) d.0, d.1)
    | inr miss ↦
        rw miss (All-put key (λ z. key z ≢ key x) y xs (ground arith) d.0, AreDistinct-put y xs d.1)
  ]
