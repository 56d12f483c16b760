-- ===== src/Selection/Best.antt =====
-- The selection holds the best answers, each once.
use mathlib.Core.Path.{subst}
use praktika.Prelude.{
  ℕ, suc, ◌<◌, ◌≡◌, refl, ◌∙◌, ◌⊎◌, inl, inr, true, Option, none, some, List, [], ◌∷◌, arith,
  filter, All, length, map, pos, negsuc, ℤ,
}
use praktika.Table.Members.{In, In-unfilter}
use praktika.Selection.{
  ProcessedAnswer, SelectedCorpusAnswer, find_accepted, first_min, min_flagged, smaller_of,
}
use praktika.Selection.Accepted.{first_declared-found}

abbrev pub IsLess : ℤ → ℤ → Type 0
IsLess (pos m) (pos n) = m < n
IsLess (pos m) (negsuc n) = ⊥
IsLess (negsuc m) (pos n) = Unit {0}
IsLess (negsuc m) (negsuc n) = n < m

-- A higher score, or the same score and an earlier date, or these and a smaller id.
abbrev pub IsBetter : ProcessedAnswer → ProcessedAnswer → Type 0
IsBetter a b =
    IsLess b.score a.score
    ⊎ ((a.score ≡ b.score)
        × ((a.creation_date < b.creation_date)
            ⊎ ((a.creation_date ≡ b.creation_date) × (a.answer_id < b.answer_id))))

first_min-In :
    (best : ProcessedAnswer) (items : List ProcessedAnswer)
    → In (first_min best items) (best ∷ items)
first_min-In best [] = inl refl
first_min-In best (item ∷ items) = elim (first_min-In (smaller_of item best) items) [
  | inl q ↦ elim chosen [
    | inl best_stays ↦ inl (q ∙ best_stays)
    | inr item_wins ↦ inr (inl (q ∙ item_wins))
  ]
  | inr i ↦ inr (inr i)
]
  where
    chosen : (smaller_of item best ≡ best) ⊎ (smaller_of item best ≡ item)
    chosen = ground arith

min_flagged-In :
    (items : List ProcessedAnswer) (a : ProcessedAnswer) → min_flagged items ≡ some a → In a items
min_flagged-In [] a e = cc
min_flagged-In (item ∷ items) a e =
    subst (λ b. In b (item ∷ items)) (some_injective e) (first_min-In item items)
  where
    some_injective : {b c : ProcessedAnswer} → some b ≡ some c → b ≡ c
    some_injective e = cc

pub find_accepted-In :
    (declared : Option ℕ) (cs : List ProcessedAnswer) (a : ProcessedAnswer)
    → find_accepted declared cs ≡ some a
    → In a cs
unfolding find_accepted
find_accepted-In (some id) cs a e = (first_declared-found id cs a e).0
find_accepted-In none cs a e =
    (In-unfilter (λ item. item.is_accepted) cs a
      (min_flagged-In (filter (λ item. item.is_accepted) cs) a e)).0

-- The answer is in the selection, or the selection is full of answers that are no worse.
abbrev pub IsKept : ℕ → List SelectedCorpusAnswer → ProcessedAnswer → Type 0
IsKept n selected item =
    In item (map {B = ProcessedAnswer} (λ s. s.answer) selected)
    ⊎ ((length selected ≡ suc n)
        × All (λ s. (s.accepted ≡ true) ⊎ (¬ IsBetter item s.answer)) selected)
