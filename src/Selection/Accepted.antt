-- ===== src/Selection/Accepted.antt =====
-- The accepted answer of a question stands first in the selection.
use praktika.Prelude.{
  ℕ, ◌≤◌, ◌≡◌, refl, ◌≢◌, ◌⊎◌, inl, inr, true, false, Option, none, some, List, [], ◌∷◌, arith,
  filter, leb, ◌==◌, All, ok, pos, Bool-cases,
}
use praktika.Table.Members.{In}
use praktika.Selection.{
  ProcessedAnswer, SelectedCorpusAnswer, AnswerSelection, is_candidate, first_declared,
  find_accepted, additional, is_missing, select_corpus_answers,
}
use praktika.Selection.Ranks.{ranked, assemble-ranked, numbered_unmarked}

-- What the call answers, for the answers that are left.
pub selected-ranked :
    (declared : Option ℕ) (answers : List ProcessedAnswer) (n : ℕ)
    → n ≤ 3
    → let candidates = filter is_candidate answers in
      let accepted = find_accepted declared candidates in
      select_corpus_answers declared answers (pos n)
      ≡ ok (record {
        selected = ranked n accepted (additional accepted candidates);
        missing_accepted = is_missing declared accepted;
      })
unfolding select_corpus_answers
selected-ranked declared answers n le =
    let candidates = filter is_candidate answers in
    let accepted = find_accepted declared candidates in
    rw (in_range n le, assemble-ranked n accepted (additional accepted candidates)) refl
  where
    in_range : (n : ℕ) → n ≤ 3 → leb n 3 ≡ true
    in_range n le = ground arith

pub first_declared-found :
    (id : ℕ) (items : List ProcessedAnswer) (a : ProcessedAnswer)
    → first_declared id items ≡ some a
    → In a items × (a.answer_id ≡ id)
unfolding first_declared
first_declared-found id [] a e = cc
first_declared-found id (item ∷ items) a e = elim (Bool-cases (item.answer_id == id)) [
  | inl here ↦ ground arith
  | inr there ↦ ground (arith, first_declared-found id items a)
]

first_declared-absent :
    (id : ℕ) (items : List ProcessedAnswer)
    → first_declared id items ≡ none
    → All (λ item. item.answer_id ≢ id) items
unfolding first_declared
first_declared-absent id [] e = tt
first_declared-absent id (item ∷ items) e = ground (arith, first_declared-absent id items)

-- If the question declares an accepted answer and one of its answers that has text has that id,
-- that answer is the first of the selection, with rank 1, and the only one that is marked as
-- accepted. If none of the answers with text has the id, the selection says that the accepted answer
-- is missing, and marks none.
pub declared_answer_comes_first :
    (id : ℕ) (answers : List ProcessedAnswer) (n : ℕ)
    → n ≤ 3
    → let candidates = filter is_candidate answers in
      (s : AnswerSelection) × (select_corpus_answers (some id) answers (pos n) ≡ ok s)
      × (((a : ProcessedAnswer) × (rest : List SelectedCorpusAnswer) × In a candidates
            × (a.answer_id ≡ id)
            × (s.selected ≡ record { answer = a; rank = 1; accepted = true } ∷ rest)
            × All (λ r. r.accepted ≡ false) rest
            × (s.missing_accepted ≡ false))
          ⊎ (All (λ a. a.answer_id ≢ id) candidates
              × All (λ r. r.accepted ≡ false) s.selected
              × (s.missing_accepted ≡ true)))
unfolding find_accepted
declared_answer_comes_first id answers n le =
    let candidates = filter is_candidate answers in
    (
      _,
      selected-ranked (some id) answers n le,
      by_accepted candidates (first_declared id candidates) refl,
    )
  where
    by_accepted :
        (cs : List ProcessedAnswer) (o : Option ProcessedAnswer)
        → first_declared id cs ≡ o
        → ((a : ProcessedAnswer) × (rest : List SelectedCorpusAnswer) × In a cs
            × (a.answer_id ≡ id)
            × (ranked n o (additional o cs)
                ≡ record { answer = a; rank = 1; accepted = true } ∷ rest)
            × All (λ r. r.accepted ≡ false) rest
            × (is_missing (some id) o ≡ false))
          ⊎ (All (λ a. a.answer_id ≢ id) cs
              × All (λ r. r.accepted ≡ false) (ranked n o (additional o cs))
              × (is_missing (some id) o ≡ true))
    by_accepted cs none e = inr (first_declared-absent id cs e, numbered_unmarked 1 _, refl)
    by_accepted cs (some a) e =
        let (there, named) = first_declared-found id cs a e in
        inl (a, _, there, named, refl, numbered_unmarked 2 _, refl)
