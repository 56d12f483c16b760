-- ===== src/Selection/Tests.antt =====
-- The selection from three answers.
use praktika.Prelude.{
  ℕ, ◌≤◌, ◌≡◌, ◌≢◌, refl, ◌⊎◌, true, false, some, List, [], ◌∷◌, arith, All, filter, length, map,
  ok, err, Error, pos, negsuc,
}
use praktika.Text.{codes, strip}
use praktika.Table.{AreDistinct, sort}
use praktika.Table.Members.{In}
use praktika.Selection.{
  ProcessedAnswer, SelectedCorpusAnswer, AnswerSelection, is_candidate, select_corpus_answers,
  find_accepted, first_declared, additional, assemble, extend, better,
}
use praktika.Selection.Ranks.{AreRanked}
use praktika.Selection.Accepted.{declared_answer_comes_first}
use praktika.Selection.Shape.{reference, selection_is_ranked}

abbrev answer : ℕ → ℕ → ProcessedAnswer
answer id score = record {
  reference = id;
  answer_id = id;
  is_accepted = false;
  score = pos score;
  creation_date = 0;
  content_text = codes "text";
  source_missing = false;
}

abbrev three : List ProcessedAnswer
three = answer 1 5 ∷ answer 2 9 ∷ answer 3 0 ∷ []

three_distinct : AreDistinct reference three
three_distinct = ground arith

-- The accepted answer goes first, whatever its score.
chosen :
    select_corpus_answers (some 3) three (pos 1)
    ≡ ok (record {
      selected =
          record { answer = answer 3 0; rank = 1; accepted = true }
          ∷ record { answer = answer 2 9; rank = 2; accepted = false }
          ∷ [];
      missing_accepted = false;
    })
unfolding select_corpus_answers is_candidate strip find_accepted first_declared additional better
    sort assemble extend
chosen = refl

selection_is_ranked_example :
    (s : AnswerSelection) × (select_corpus_answers (some 3) three (pos 1) ≡ ok s)
    × AreRanked 1 s.selected
    × (length s.selected ≤ 2)
    × All
        (λ a. In a three × (is_candidate a ≡ true))
        (map {B = ProcessedAnswer} (λ s. s.answer) s.selected)
    × AreDistinct reference (map {B = ProcessedAnswer} (λ s. s.answer) s.selected)
    × (select_corpus_answers (some 3) three (pos 6) ≡ err Error.value_error)
    × (select_corpus_answers (some 3) three (negsuc 2) ≡ err Error.value_error)
selection_is_ranked_example = selection_is_ranked (some 3) three 1 2 (omega arith) three_distinct

declared_answer_comes_first_example :
    (s : AnswerSelection) × (select_corpus_answers (some 3) three (pos 1) ≡ ok s)
    × (((a : ProcessedAnswer) × (rest : List SelectedCorpusAnswer) × In a
            (filter is_candidate three)
          × (a.answer_id ≡ 3)
          × (s.selected ≡ record { answer = a; rank = 1; accepted = true } ∷ rest)
          × All (λ r. r.accepted ≡ false) rest
          × (s.missing_accepted ≡ false))
        ⊎ (All (λ a. a.answer_id ≢ 3) (filter is_candidate three)
            × All (λ r. r.accepted ≡ false) s.selected
            × (s.missing_accepted ≡ true)))
declared_answer_comes_first_example = declared_answer_comes_first 3 three 1 (omega arith)
