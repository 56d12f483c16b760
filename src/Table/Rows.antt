-- ===== src/Table/Rows.antt =====
-- What `find` and `put` do to a table.
use praktika.Prelude.{
  ℕ, ◌≡◌, refl, ◌≢◌, inl, inr, Bool, true, false, some, List, [], ◌∷◌, arith, ◌==◌, if◌then◌else◌,
  Bool-cases, All,
}
use praktika.Table.{find, put, Each, AreDistinct}

module _ {ℓ} {A : Type ℓ} (key : A → ℕ) where
  pub key-find : (k : ℕ) (xs : List A) (x : A) → find key k xs ≡ some x → key x ≡ k
  unfolding find
  key-find k [] x h = cc
  key-find k (y ∷ ys) x h = ground (arith, key-find k ys x)

  -- A written row is found under its key, and no other key sees a change.
  pub find-put_ne :
      (k : ℕ) (y : A) (xs : List A) → k ≢ key y → find key k (put key y xs) ≡ find key k xs
  unfolding find put
  find-put_ne k y [] h = refl
  find-put_ne k y (x ∷ xs) h = elim (Bool-cases (key x == key y)) [
    | inl same ↦ rw same (ground arith)
    | inr other ↦ rw other (ground (arith, find-put_ne k y xs h))
  ]

  pub find-put_self :
      (k : ℕ) (y : A) (xs : List A) (x : A)
      → key y ≡ k
      → find key k xs ≡ some x
      → find key k (put key y xs) ≡ some y
  unfolding find put
  find-put_self k y [] x e h = cc
  find-put_self k y (z ∷ xs) x e h = elim (Bool-cases (key z == key y)) [
    | inl same ↦ rw same (ground arith)
    | inr other ↦ rw other (ground (arith, find-put_self k y xs x))
  ]

  pub All-find {κ} :
      (P : A → Type κ) (k : ℕ) (xs : List A) (x : A) → All P xs → find key k xs ≡ some x → P x
  unfolding find
  All-find P k [] x h e = cc
  All-find P k (y ∷ ys) x h e = pick (key y == k) e (All-find P k ys x h.1)
    where
      pick :
          (b : Bool)
          → (if b then some y else find key k ys) ≡ some x
          → (find key k ys ≡ some x → P x)
          → P x
      pick true e' rest = ground (arith, h.0)
      pick false e' rest = rest e'

  pub All-put {κ} : (P : A → Type κ) (y : A) (xs : List A) → P y → All P xs → All P (put key y xs)
  unfolding put
  All-put P y [] p h = tt
  All-put P y (x ∷ xs) p h = pick (key x == key y) (All-put P y xs p h.1)
    where
      pick : (b : Bool) → All P (put key y xs) → All P (if b then y ∷ xs else x ∷ put key y xs)
      pick true rest = (p, h.1)
      pick false rest = (h.0, rest)

  -- The last write of a row counts.
  pub put-put : (y z : A) (xs : List A) → key y ≡ key z → put key z (put key y xs) ≡ put key z xs
  unfolding put
  put-put y z [] e = refl
  put-put y z (x ∷ xs) e = elim (Bool-cases (key x == key y)) [
    | inl same ↦ rw same (ground arith)
    | inr other ↦ rw other (ground (arith, put-put y z xs e))
  ]

  -- Writing a row back changes that row by `R` and no other.
  pub Each-put :
      (R : A → A → Type 0)
      → ((z : A) → R z z)
      → (x y : A) (xs : List A) → find key (key y) xs ≡ some x
      → R x y
      → Each R xs (put key y xs)
  unfolding find put
  Each-put R same x y [] e r = cc
  Each-put R same x y (z ∷ zs) e r = pick (key z == key y) e (Each-put R same x y zs)
    where
      all_same : (ws : List A) → Each R ws ws
      all_same [] = tt
      all_same (w ∷ ws) = (same w, all_same ws)

      pick :
          (b : Bool)
          → (if b then some z else find key (key y) zs) ≡ some x
          → (find key (key y) zs ≡ some x → R x y → Each R zs (put key y zs))
          → Each R (z ∷ zs) (if b then y ∷ zs else z ∷ put key y zs)
      pick true e' rest = (rw (the_row e') r, all_same zs)
        where
          the_row : some z ≡ some x → z ≡ x
          the_row q = cc
      pick false e' rest = (same z, rest e' r)

module _ {ℓ} {A : Type ℓ} (R : A → A → Type 0) where
  pub Each_refl : ((z : A) → R z z) → (xs : List A) → Each R xs xs
  Each_refl same [] = tt
  Each_refl same (x ∷ xs) = (same x, Each_refl same xs)

  pub Each_trans :
      ((x y z : A) → R x y → R y z → R x z)
      → (xs ys zs : List A) → Each R xs ys
      → Each R ys zs
      → Each R xs zs
  Each_trans t [] [] [] h k = tt
  Each_trans t [] [] (z ∷ zs) h k = k
  Each_trans t [] (y ∷ ys) zs h k = absurd h
  Each_trans t (x ∷ xs) [] zs h k = absurd h
  Each_trans t (x ∷ xs) (y ∷ ys) [] h k = k
  Each_trans t (x ∷ xs) (y ∷ ys) (z ∷ zs) h k = (t x y z h.0 k.0, Each_trans t xs ys zs h.1 k.1)

  -- A property that `R` carries along holds of the whole new table.
  pub All-Each {κ} :
      (P : A → Type κ)
      → ((x y : A) → R x y → P x → P y)
      → (xs ys : List A) → Each R xs ys
      → All P xs
      → All P ys
  All-Each P keep [] [] r h = tt
  All-Each P keep [] (y ∷ ys) r h = absurd r
  All-Each P keep (x ∷ xs) [] r h = tt
  All-Each P keep (x ∷ xs) (y ∷ ys) r h = (keep x y r.0 h.0, All-Each P keep xs ys r.1 h.1)

  pub Each-weaken :
      (S : A → A → Type 0)
      → ((x y : A) → R x y → S x y)
      → (xs ys : List A) → Each R xs ys
      → Each S xs ys
  Each-weaken S f [] [] r = tt
  Each-weaken S f [] (y ∷ ys) r = r
  Each-weaken S f (x ∷ xs) [] r = r
  Each-weaken S f (x ∷ xs) (y ∷ ys) r = (f x y r.0, Each-weaken S f xs ys r.1)

  -- A row that is there before has a counterpart afterwards, if `R` keeps the key.
  pub find-Each :
      (key : A → ℕ)
      → ((x y : A) → R x y → key y ≡ key x)
      → (k : ℕ) (xs ys : List A) (x : A) → Each R xs ys
      → find key k xs ≡ some x
      → (y : A) × (find key k ys ≡ some y) × R x y
  unfolding find
  find-Each key same k [] ys x r e = absurd (cc)
  find-Each key same k (z ∷ zs) [] x r e = absurd r
  find-Each key same k (z ∷ zs) (w ∷ ws) x r e = elim (Bool-cases (key z == k)) [
    | inl hit ↦ (w, ground (arith, same z w r.0), rw (← the_row (rw hit at e)) r.0)
    | inr miss ↦ after (find-Each key same k zs ws x r.1 (rw miss at e)) (rw (same z w r.0) miss)
  ]
    where
      the_row : some z ≡ some x → z ≡ x
      the_row q = cc

      after :
          (y : A) × (find key k ws ≡ some y) × R x y
          → (key w == k) ≡ false
          → (y : A) × ((if key w == k then some w else find key k ws) ≡ some y) × R x y
      after (y, f, q) m = (y, rw m f, q)

  All-ne-Each :
      (key : A → ℕ)
      → ((x y : A) → R x y → key y ≡ key x)
      → (k : ℕ) (xs ys : List A) → Each R xs ys
      → All (λ x. key x ≢ k) xs
      → All (λ y. key y ≢ k) ys
  All-ne-Each key same k xs ys r n =
      All-Each (λ x. key x ≢ k) (λ x y q m. rw (same x y q) m) xs ys r n

  pub AreDistinct-Each :
      (key : A → ℕ)
      → ((x y : A) → R x y → key y ≡ key x)
      → (xs ys : List A) → Each R xs ys
      → AreDistinct key xs
      → AreDistinct key ys
  AreDistinct-Each key same [] [] r d = tt
  AreDistinct-Each key same [] (y ∷ ys) r d = absurd r
  AreDistinct-Each key same (x ∷ xs) [] r d = tt
  AreDistinct-Each key same (x ∷ xs) (y ∷ ys) r d = (
    rw (same x y r.0) (All-ne-Each key same (key x) xs ys r.1 d.0),
    AreDistinct-Each key same xs ys r.1 d.1,
  )
