-- ===== src/Fusion/Tests.antt =====
-- A fusion of two short lists, with numbers of hundredths for floats.
use praktika.Prelude.{
  ℕ, ◌+◌, ◌/◌, ◌≤◌, ◌≡◌, refl, ◌⊎◌, Bool, true, false, List, [], ◌∷◌, ltb, leb, ◌==◌, length, All,
  map, Result, ok, err, Error,
}
use praktika.Sanitize.{no_fields}
use praktika.Table.{AreDistinct, sort}
use praktika.Fusion.{
  FloatOps, RetrievedCandidate, RankedCandidate, weighted_rrf, is_bad_configuration, add_ranked,
  change_row, ranks_before,
}
use praktika.Fusion.Points.{point, HasPoint, IsRetrieved, fusion_loses_no_point}

abbrev hundredths : FloatOps ℕ
hundredths = record {
  zero_float = 0;
  add = λ a b. a + b;
  divide = λ a n. a / n;
  is_greater = λ a b. ltb b a;
  is_at_most = λ a b. leb a b;
  is_equal = λ a b. a == b;
}

abbrev candidate : ℕ → RetrievedCandidate ℕ
candidate id = record { point_id = id; score = 1; payload = no_fields }

abbrev by_words : List (RetrievedCandidate ℕ)
by_words = candidate 1 ∷ candidate 2 ∷ []

abbrev by_meaning : List (RetrievedCandidate ℕ)
by_meaning = candidate 3 ∷ candidate 2 ∷ []

abbrev ids_of : Result (List (RankedCandidate ℕ)) → List ℕ
ids_of (err e) = []
ids_of (ok rs) = map {B = ℕ} (λ r. r.point_id) rs

-- The point that both lists name goes first.
both_first : ids_of (weighted_rrf hundredths by_words by_meaning 10 1000 1000 2) ≡ 2 ∷ 1 ∷ []
unfolding weighted_rrf add_ranked change_row sort ranks_before
both_first = refl

fusion_loses_no_point_example :
    ((is_bad_configuration hundredths 10 2 1000 1000 ≡ true)
      × (weighted_rrf hundredths by_words by_meaning 10 1000 1000 2 ≡ err Error.value_error))
    ⊎ ((is_bad_configuration hundredths 10 2 1000 1000 ≡ false)
        × ((results : List (RankedCandidate ℕ)) × (weighted_rrf hundredths by_words by_meaning 10
                1000 1000 2
              ≡ ok results)
            × (length results ≤ 2)
            × AreDistinct point results
            × All (λ r. IsRetrieved by_words by_meaning r.point_id) results
            × ((length results ≡ 2)
                ⊎ (All (λ c. HasPoint c.point_id results) by_words
                    × All (λ c. HasPoint c.point_id results) by_meaning))))
fusion_loses_no_point_example = fusion_loses_no_point hundredths by_words by_meaning 10 2 1000 1000

-- Numbers with one that is not a number, which no comparison holds of.
data Measure : Type 0 where
  number : ℕ → Measure
  not_a_number : Measure

compare_by : (ℕ → ℕ → Bool) → Measure → Measure → Bool
compare_by test (number a) (number b) = test a b
compare_by test _ _ = false

add_measures : Measure → Measure → Measure
add_measures (number a) (number b) = number (a + b)
add_measures _ _ = not_a_number

divide_measure : Measure → ℕ → Measure
divide_measure (number a) n = number (a / n)
divide_measure not_a_number n = not_a_number

abbrev measures : FloatOps Measure
measures = record {
  zero_float = number 0;
  add = add_measures;
  divide = divide_measure;
  is_greater = compare_by (λ a b. ltb b a);
  is_at_most = compare_by (λ a b. leb a b);
  is_equal = compare_by (λ a b. a == b);
}

-- A weight that is not a number is accepted.
nan_is_accepted : is_bad_configuration measures 10 2 not_a_number (number 1) ≡ false
unfolding compare_by
nan_is_accepted = refl
