-- ===== src/Selection.antt =====
-- Which answers of a question enter the corpus: backend/app/processing/selection.py.
pub mod Ranks
pub mod Accepted
pub mod Best
pub mod Shape
pub mod Tests
use praktika.Prelude.{
  ℕ, suc, Bool, true, false, ◌&&◌, ◌||◌, not, Option, none, some, List, [], ◌∷◌, ◌++◌, leb, ltb,
  ◌==◌, if◌then◌else◌, length, take, filter, ℤ, ltb_ℤ, pos, negsuc, Result, ok, err, value_error,
  ◌>>=◌,
}
use praktika.Text.{Text, strip}
use praktika.Table.{sort}

-- What the selection reads of a `ProcessedAnswer` and of its `source`. `reference` tells the
-- Python objects apart, for the test with `is`.
pub record ProcessedAnswer : Type 0 where
  pub reference : ℕ
  pub answer_id : ℕ
  pub is_accepted : Bool
  pub score : ℤ
  pub creation_date : ℕ
  pub content_text : Text
  pub source_missing : Bool

pub record SelectedCorpusAnswer : Type 0 where
  pub answer : ProcessedAnswer
  pub rank : ℕ
  pub accepted : Bool

pub record AnswerSelection : Type 0 where
  pub selected : List SelectedCorpusAnswer
  pub missing_accepted : Bool

-- `bool(text)`
abbrev pub has_text : Text → Bool
has_text [] = false
has_text (c ∷ cs) = true

unfoldable pub is_candidate : ProcessedAnswer → Bool
unfolding strip
is_candidate item = not item.source_missing && has_text (strip item.content_text)

-- `next(item for item in candidates if item.source.answer_id == declared_id)`
unfoldable pub first_declared : ℕ → List ProcessedAnswer → Option ProcessedAnswer
first_declared declared_id [] = none
first_declared declared_id (item ∷ items) =
    if item.answer_id == declared_id then some item else first_declared declared_id items

abbrev pub smaller_id : ProcessedAnswer → ProcessedAnswer → Bool
smaller_id a b = ltb a.answer_id b.answer_id

abbrev pub smaller_of : ProcessedAnswer → ProcessedAnswer → ProcessedAnswer
smaller_of item best = if smaller_id item best then item else best

-- `min(flagged, key=...)`, the first of the answers with the smallest id.
abbrev pub first_min : ProcessedAnswer → List ProcessedAnswer → ProcessedAnswer
first_min best [] = best
first_min best (item ∷ items) = first_min (smaller_of item best) items

abbrev pub min_flagged : List ProcessedAnswer → Option ProcessedAnswer
min_flagged [] = none
min_flagged (item ∷ items) = some (first_min item items)

unfoldable pub find_accepted : Option ℕ → List ProcessedAnswer → Option ProcessedAnswer
unfolding first_declared
find_accepted (some declared_id) candidates = first_declared declared_id candidates
find_accepted none candidates = min_flagged (filter (λ item. item.is_accepted) candidates)

abbrev pub is_missing : Option ℕ → Option ProcessedAnswer → Bool
is_missing none accepted = false
is_missing (some declared_id) none = true
is_missing (some declared_id) (some a) = false

-- The sort key (-score, creation_date, answer_id).
unfoldable pub better : ProcessedAnswer → ProcessedAnswer → Bool
better a b =
    ltb_ℤ b.score a.score
    || (not (ltb_ℤ a.score b.score)
        && (ltb a.creation_date b.creation_date
            || (a.creation_date == b.creation_date && ltb a.answer_id b.answer_id)))

-- `item is not accepted`
abbrev pub is_other : Option ProcessedAnswer → ProcessedAnswer → Bool
is_other none item = true
is_other (some accepted) item = not (item.reference == accepted.reference)

unfoldable pub additional : Option ProcessedAnswer → List ProcessedAnswer → List ProcessedAnswer
additional accepted candidates = sort better (filter (is_other accepted) candidates)

-- `extend`, which counts the answers that are there before each.
unfoldable pub extend : List SelectedCorpusAnswer → List ProcessedAnswer → List SelectedCorpusAnswer
extend selected [] = selected
extend selected (item ∷ items) =
    extend
      (selected ++ (record { answer = item; rank = suc (length selected); accepted = false } ∷ []))
      items

unfoldable pub assemble :
    ℕ → Option ProcessedAnswer → List ProcessedAnswer → List SelectedCorpusAnswer
unfolding extend
assemble max_additional none rest = extend [] (take (suc max_additional) rest)
assemble max_additional (some accepted) rest =
    extend (record { answer = accepted; rank = 1; accepted = true } ∷ []) (take max_additional rest)

-- `0 <= max_additional_answers <= 3`
abbrev pub check_limit : ℤ → Result ℕ
check_limit (pos n) = if leb n 3 then ok n else err value_error
check_limit (negsuc n) = err value_error

-- `select_corpus_answers(question, answers, max_additional_answers=...)`, of the question its
-- `accepted_answer_id`.
unfoldable pub select_corpus_answers : Option ℕ → List ProcessedAnswer → ℤ → Result AnswerSelection
unfolding is_candidate find_accepted additional assemble
select_corpus_answers declared_id answers max_additional_answers =
    check_limit max_additional_answers >>= λ max_additional.
    let candidates = filter is_candidate answers in
    let accepted = find_accepted declared_id candidates in
    ok (record {
      selected = assemble max_additional accepted (additional accepted candidates);
      missing_accepted = is_missing declared_id accepted;
    })
