-- ===== src/Table/Order.antt =====
-- `least`, `sort` and `filter`: what they keep, and what comes first.
use mathlib.Core.Path.{subst}
use praktika.Prelude.{
  ℕ, zero, suc, ◌≡◌, refl, sym, ◌∙◌, ◌≢◌, inl, inr, Bool, true, false, Option, none, some, List, [],
  ◌∷◌, arith, ◌==◌, if◌then◌else◌, Bool-cases, Option-cases, All, filter, take, All-take,
}
use praktika.Table.{find, least, insert_row, sort, AreDistinct}

module _ {ℓ κ} {A : Type ℓ} (P : A → Type κ) where
  -- What holds of every row holds of the rows that pass a test, with the test.
  pub All-filter :
      (p : A → Bool) (xs : List A) → All P xs → All (λ x. P x × (p x ≡ true)) (filter p xs)
  All-filter p [] h = tt
  All-filter p (x ∷ xs) h = pick (p x) refl (All-filter p xs h.1)
    where
      pick :
          (b : Bool)
          → p x ≡ b
          → All (λ y. P y × (p y ≡ true)) (filter p xs)
          → All (λ y. P y × (p y ≡ true)) (if b then x ∷ filter p xs else filter p xs)
      pick true e rest = ((h.0, e), rest)
      pick false e rest = rest

  -- What holds of every row that passes holds of every row, on the condition that it passes.
  pub unfilter : (p : A → Bool) (xs : List A) → All P (filter p xs) → All (λ x. p x ≡ true → P x) xs
  unfilter p [] h = tt
  unfilter p (x ∷ xs) h = elim (Bool-cases (p x)) [
    | inl pass ↦ let (now, rest) = rw pass at h in ((λ _. now), unfilter p xs rest)
    | inr fail ↦ ((λ pass. absurd (never pass fail)), unfilter p xs (rw fail at h))
  ]
    where
      never : {b : Bool} → b ≡ true → b ≡ false → ⊥
      never t f = cc

  -- The first row is one of the rows.
  pub All-least :
      (before : A → A → Bool) (xs : List A) (x : A) → All P xs → least before xs ≡ some x → P x
  unfolding least
  All-least before [] x h e = absurd (cc)
  All-least before (y ∷ ys) x h e = pick (least before ys) e (λ z q. All-least before ys z h.1 q)
    where
      unsome : (a : A) → some a ≡ some x → P a → P x
      unsome a q p = rw (← inner) p
        where
          inner : a ≡ x
          inner = cc

      pick :
          (o : Option A)
          → elim o [ none ↦ some y | some z ↦ if before z y then some z else some y ] ≡ some x
          → ((z : A) → o ≡ some z → P z)
          → P x
      pick none q rest = unsome y q h.0
      pick (some z) q rest = choose (before z y) q
        where
          choose : (b : Bool) → (if b then some z else some y) ≡ some x → P x
          choose true r = unsome z r (rest z refl)
          choose false r = unsome y r h.0

  pub All-insert_row :
      (before : A → A → Bool) (x : A) (xs : List A)
      → P x
      → All P xs
      → All P (insert_row before x xs)
  unfolding insert_row
  All-insert_row before x [] p h = (p, tt)
  All-insert_row before x (y ∷ ys) p h = pick (before y x) (All-insert_row before x ys p h.1)
    where
      pick :
          (b : Bool)
          → All P (insert_row before x ys)
          → All P (if b then y ∷ insert_row before x ys else x ∷ y ∷ ys)
      pick true rest = (h.0, rest)
      pick false rest = (p, h)

  pub All-sort : (before : A → A → Bool) (xs : List A) → All P xs → All P (sort before xs)
  unfolding sort
  All-sort before [] h = tt
  All-sort before (x ∷ xs) h = All-insert_row before x (sort before xs) h.0 (All-sort before xs h.1)

module _ {ℓ} {A : Type ℓ} (before : A → A → Bool) where
  -- The order is asymmetric, and "not before" is transitive.
  pub record IsOrder : Type ℓ where
    pub asym : (a b : A) → before a b ≡ true → before b a ≡ false
    pub neg_trans : (a b c : A) → before a b ≡ false → before b c ≡ false → before a c ≡ false
    pub irrefl : (a : A) → before a a ≡ false

  least_of_cons :
      (y z : A) (ys : List A)
      → least before ys ≡ some z
      → least before (y ∷ ys) ≡ (if before z y then some z else some y)
  unfolding least
  least_of_cons y z ys e = rw e

  least_of_empty : (y : A) (ys : List A) → least before ys ≡ none → least before (y ∷ ys) ≡ some y
  unfolding least
  least_of_empty y ys e = rw e

  some_injective : (a b : A) → some a ≡ some b → a ≡ b
  some_injective a b e = cc

  pub no_least : (Q : A → Type 0) (ys : List A) → least before ys ≡ none → All Q ys
  unfolding least
  no_least Q [] e = tt
  no_least Q (y ∷ ys) e = absurd (elim (Option-cases (least before ys)) [
    | inl l ↦ none_some (sym (least_of_empty y ys l) ∙ e)
    | inr (z, l) ↦ elim (Bool-cases (before z y)) [
      | inl t ↦ none_some (sym (rw t at (least_of_cons y z ys l)) ∙ e)
      | inr f ↦ none_some (sym (rw f at (least_of_cons y z ys l)) ∙ e)
    ]
  ])
    where
      none_some : {a : A} → some a ≡ none → ⊥
      none_some q = cc

  not_before :
      IsOrder
      → (y z : A) (ws : List A) → before z y ≡ false
      → All (λ w. before w z ≡ false) ws
      → All (λ w. before w y ≡ false) ws
  not_before o y z [] n h = tt
  not_before o y z (w ∷ ws) n h = (o.neg_trans w z y h.0 n, not_before o y z ws n h.1)

  -- No row comes before the first one.
  pub least_first :
      IsOrder → (xs : List A) (x : A) → least before xs ≡ some x → All (λ y. before y x ≡ false) xs
  least_first o [] x e = tt
  least_first o (y ∷ ys) x e = elim (Option-cases (least before ys)) [
    | inl l ↦
        subst (λ v. All (λ w. before w v ≡ false) (y ∷ ys))
          (some_injective y x (sym (least_of_empty y ys l) ∙ e)) (o.irrefl y, no_least _ ys l)
    | inr (z, l) ↦ elim (Bool-cases (before z y)) [
      | inl t ↦
          subst (λ v. All (λ w. before w v ≡ false) (y ∷ ys))
            (some_injective z x (sym (rw t at (least_of_cons y z ys l)) ∙ e))
            (o.asym z y t, least_first o ys z l)
      | inr f ↦
          subst (λ v. All (λ w. before w v ≡ false) (y ∷ ys))
            (some_injective y x (sym (rw f at (least_of_cons y z ys l)) ∙ e))
            (o.irrefl y, not_before o y z ys f (least_first o ys z l))
    ]
  ]

module _ {ℓ} {A : Type ℓ} (key : A → ℕ) where
  -- In a table with distinct keys every row is found under its key.
  pub found-All : (xs : List A) → AreDistinct key xs → All (λ x. find key (key x) xs ≡ some x) xs
  unfolding find
  found-All [] d = tt
  found-All (x ∷ xs) d = (ground arith, behind xs d.0 (found-All xs d.1))
    where
      behind :
          (ys : List A)
          → All (λ y. key y ≢ key x) ys
          → All (λ y. find key (key y) xs ≡ some y) ys
          → All (λ y. (if key x == key y then some x else find key (key y) xs) ≡ some y) ys
      behind [] n f = tt
      behind (y ∷ ys) n f = (ground arith, behind ys n.1 f.1)

  -- Distinct keys stay distinct under `filter`, `sort` and `take`.
  pub AreDistinct-filter :
      (p : A → Bool) (xs : List A) → AreDistinct key xs → AreDistinct key (filter p xs)
  AreDistinct-filter p [] d = tt
  AreDistinct-filter p (x ∷ xs) d = pick (p x) (AreDistinct-filter p xs d.1)
    where
      kept : (ys : List A) → All (λ y. key y ≢ key x) ys → All (λ y. key y ≢ key x) (filter p ys)
      kept ys n = forget (filter p ys) (All-filter (λ y. key y ≢ key x) p ys n)
        where
          forget :
              (zs : List A)
              → All (λ y. (key y ≢ key x) × (p y ≡ true)) zs
              → All (λ y. key y ≢ key x) zs
          forget [] h = tt
          forget (z ∷ zs) h = (h.0.0, forget zs h.1)

      pick :
          (b : Bool)
          → AreDistinct key (filter p xs)
          → AreDistinct key (if b then x ∷ filter p xs else filter p xs)
      pick true rest = (kept xs d.0, rest)
      pick false rest = rest

  AreDistinct-insert_row :
      (before : A → A → Bool) (x : A) (xs : List A)
      → All (λ y. key y ≢ key x) xs
      → AreDistinct key xs
      → AreDistinct key (insert_row before x xs)
  unfolding insert_row
  AreDistinct-insert_row before x [] n d = (tt, tt)
  AreDistinct-insert_row before x (y ∷ ys) n d =
      pick (before y x) (AreDistinct-insert_row before x ys n.1 d.1)
    where
      pick :
          (b : Bool)
          → AreDistinct key (insert_row before x ys)
          → AreDistinct key (if b then y ∷ insert_row before x ys else x ∷ y ∷ ys)
      pick true rest =
          (All-insert_row (λ z. key z ≢ key y) before x ys (λ e. n.0 (sym e)) d.0, rest)
      pick false rest = (n, d)

  pub AreDistinct-sort :
      (before : A → A → Bool) (xs : List A) → AreDistinct key xs → AreDistinct key (sort before xs)
  unfolding sort
  AreDistinct-sort before [] d = tt
  AreDistinct-sort before (x ∷ xs) d =
      AreDistinct-insert_row before x (sort before xs) (All-sort (λ y. key y ≢ key x) before xs d.0)
        (AreDistinct-sort before xs d.1)

  pub AreDistinct-take : (n : ℕ) (xs : List A) → AreDistinct key xs → AreDistinct key (take n xs)
  AreDistinct-take zero xs d = tt
  AreDistinct-take (suc n) [] d = tt
  AreDistinct-take (suc n) (x ∷ xs) d =
      (All-take (λ y. key y ≢ key x) n xs d.0, AreDistinct-take n xs d.1)
