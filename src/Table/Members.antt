-- ===== src/Table/Members.antt =====
-- Members of a list: in a filtered, a sorted and a shortened one; and the order of a sorted one.
use mathlib.Core.Path.{subst}
use praktika.Prelude.{
  map, suc, ℕ, zero, suc, ◌≡◌, refl, sym, ◌∙◌, ap, Bool, true, false, List, [], ◌∷◌, arith, All,
  All-weaken, filter, take, Bool-cases, ◌⊎◌, inl, inr, length, ◌≢◌,
}
use praktika.Table.{sort, insert_row, AreDistinct}
use praktika.Table.Order.{IsOrder, All-insert_row}

abbrev pub In : {A : Type 0} → A → List A → Type 0
In x [] = ⊥
In x (y ∷ ys) = (x ≡ y) ⊎ In x ys

module _ {κ} {A : Type 0} (P : A → Type κ) where
  pub All-In : (xs : List A) → ((x : A) → In x xs → P x) → All P xs
  All-In [] f = tt
  All-In (x ∷ xs) f = (f x (inl refl), All-In xs (λ y i. f y (inr i)))

  pub In-All : (xs : List A) → All P xs → (x : A) → In x xs → P x
  In-All [] h x i = absurd i
  In-All (y ∷ ys) h x (inl e) = subst P (sym e) h.0
  In-All (y ∷ ys) h x (inr i) = In-All ys h.1 x i

module _ {A : Type 0} where
  pub In-filter : (p : A → Bool) (xs : List A) (x : A) → p x ≡ true → In x xs → In x (filter p xs)
  In-filter p [] x e i = absurd i
  In-filter p (y ∷ ys) x e i = elim (Bool-cases (p y)) [
    | inl keep ↦ rw keep (elim i [ inl q ↦ inl q | inr j ↦ inr (In-filter p ys x e j) ])
    | inr drops ↦
        rw drops (elim i [
          | inl q ↦ absurd (never (sym e ∙ ap p q ∙ drops))
          | inr j ↦ In-filter p ys x e j
        ])
  ]
    where
      never : true ≡ false → ⊥
      never q = cc

  pub In-insert_row :
      (before : A → A → Bool) (x : A) (ys : List A) (z : A)
      → (z ≡ x) ⊎ In z ys
      → In z (insert_row before x ys)
  unfolding insert_row
  In-insert_row before x [] z i = i
  In-insert_row before x (y ∷ ys) z i = elim (Bool-cases (before y x)) [
    | inl first ↦ rw first (elim i [
      | inl q ↦ inr (In-insert_row before x ys z (inl q))
      | inr (inl q) ↦ inl q
      | inr (inr j) ↦ inr (In-insert_row before x ys z (inr j))
    ])
    | inr last ↦ rw last i
  ]

  pub In-sort : (before : A → A → Bool) (xs : List A) (z : A) → In z xs → In z (sort before xs)
  unfolding sort
  In-sort before [] z i = i
  In-sort before (x ∷ xs) z (inl q) = In-insert_row before x (sort before xs) z (inl q)
  In-sort before (x ∷ xs) z (inr i) =
      In-insert_row before x (sort before xs) z (inr (In-sort before xs z i))

  pub same_member :
      (key : A → ℕ) (xs : List A) (x y : A)
      → AreDistinct key xs
      → In x xs
      → In y xs
      → key x ≡ key y
      → x ≡ y
  same_member key [] x y d i j e = absurd i
  same_member key (z ∷ zs) x y d (inl p) (inl q) e = p ∙ sym q
  same_member key (z ∷ zs) x y d (inl p) (inr j) e =
      absurd (In-All (λ w. key w ≢ key z) zs d.0 y j (sym e ∙ ap key p))
  same_member key (z ∷ zs) x y d (inr i) (inl q) e =
      absurd (In-All (λ w. key w ≢ key z) zs d.0 x i (e ∙ ap key q))
  same_member key (z ∷ zs) x y d (inr i) (inr j) e = same_member key zs x y d.1 i j e

-- No row comes before one that stands further up.
abbrev pub IsOrdered : {A : Type 0} → (A → A → Bool) → List A → Type 0
IsOrdered before [] = Unit {0}
IsOrdered before (x ∷ xs) = All (λ y. before y x ≡ false) xs × IsOrdered before xs

module _ {A : Type 0} (before : A → A → Bool) (o : IsOrder before) where
  insert_row-IsOrdered :
      (x : A) (ys : List A) → IsOrdered before ys → IsOrdered before (insert_row before x ys)
  unfolding insert_row
  insert_row-IsOrdered x [] h = (tt, tt)
  insert_row-IsOrdered x (y ∷ ys) h = elim (Bool-cases (before y x)) [
    | inl first ↦ rw first (
      All-insert_row (λ z. before z y ≡ false) before x ys (o.asym y x first) h.0,
      insert_row-IsOrdered x ys h.1,
    )
    | inr last ↦ rw last ((last, All-weaken _ _ (λ z q. o.neg_trans z y x q last) ys h.0), h)
  ]

  pub sort-IsOrdered : (xs : List A) → IsOrdered before (sort before xs)
  unfolding sort
  sort-IsOrdered [] = tt
  sort-IsOrdered (x ∷ xs) = insert_row-IsOrdered x (sort before xs) (sort-IsOrdered xs)

  -- Of the first rows in order, none is passed over for a later one.
  pub IsOrdered-take :
      (n : ℕ) (xs : List A) (z : A)
      → IsOrdered before xs
      → In z xs
      → In z (take n xs) ⊎ ((length (take n xs) ≡ n) × All (λ s. before z s ≡ false) (take n xs))
  IsOrdered-take zero xs z h i = inr (refl, tt)
  IsOrdered-take (suc n) [] z h i = absurd i
  IsOrdered-take (suc n) (x ∷ xs) z h (inl q) = inl (inl q)
  IsOrdered-take (suc n) (x ∷ xs) z h (inr i) = elim (IsOrdered-take n xs z h.1 i) [
    | inl j ↦ inl (inr j)
    | inr (full, rest) ↦ inr (omega arith, (In-All (λ y. before y x ≡ false) xs h.0 z i, rest))
  ]

-- A member of the rows that pass a test is a row that passes it.
pub In-unfilter :
    {A : Type 0} (p : A → Bool) (xs : List A) (x : A) → In x (filter p xs) → In x xs × (p x ≡ true)
In-unfilter p [] x i = absurd i
In-unfilter p (y ∷ ys) x i = elim (Bool-cases (p y)) [
  | inl keep ↦ elim (rw keep at i) [
    | inl q ↦ (inl q, ap p q ∙ keep)
    | inr j ↦ let (there, passes) = In-unfilter p ys x j in (inr there, passes)
  ]
  | inr drops ↦ let (there, passes) = In-unfilter p ys x (rw drops at i) in (inr there, passes)
]

-- All rows are taken, or as many as asked for.
pub take_all : {A : Type 0} (n : ℕ) (xs : List A) → (take n xs ≡ xs) ⊎ (length (take n xs) ≡ n)
take_all zero xs = inr refl
take_all (suc n) [] = inl refl
take_all (suc n) (x ∷ xs) = elim (take_all n xs) [
  | inl all_there ↦ inl (ap (λ r. x ∷ r) all_there)
  | inr full ↦ inr (omega arith)
]

pub In-map : {A : Type 0} (f : A → ℕ) (xs : List A) (x : A) → In x xs → In (f x) (map {B = ℕ} f xs)
In-map f [] x i = i
In-map f (y ∷ ys) x (inl e) = inl (ap f e)
In-map f (y ∷ ys) x (inr i) = inr (In-map f ys x i)

pub length-map : {A : Type 0} (f : A → ℕ) (xs : List A) → length (map {B = ℕ} f xs) ≡ length xs
length-map f [] = refl
length-map f (x ∷ xs) = ap suc (length-map f xs)
