-- ===== src/Selection/Shape.antt =====
-- What a selection looks like: its ranks, its size, and what it is made of.
use praktika.Prelude.{
  ℕ, suc, ◌+◌, ◌≤◌, ◌≡◌, refl, ◌≢◌, true, false, Option, none, some, List, arith, filter, leb, take,
  All, All-take, length, map, ok, err, Error, pos, negsuc,
}
use praktika.Table.{AreDistinct}
use praktika.Table.Order.{AreDistinct-filter, AreDistinct-sort, AreDistinct-take, All-sort}
use praktika.Table.Members.{In, In-unfilter, All-In}
use praktika.Selection.{
  ProcessedAnswer, AnswerSelection, is_candidate, find_accepted, is_other, additional, better,
  select_corpus_answers,
}
use praktika.Selection.Ranks.{ranked, AreRanked, ranked-AreRanked, length-ranked, answers-numbered}
use praktika.Selection.Accepted.{selected-ranked}
use praktika.Selection.Best.{find_accepted-In}

abbrev pub reference : ProcessedAnswer → ℕ
reference a = a.reference

additional-Distinct :
    (o : Option ProcessedAnswer) (cs : List ProcessedAnswer)
    → AreDistinct reference cs
    → AreDistinct reference (additional o cs)
unfolding additional
additional-Distinct o cs d =
    AreDistinct-sort reference better (filter (is_other o) cs)
      (AreDistinct-filter reference (is_other o) cs d)

additional_others :
    (a : ProcessedAnswer) (cs : List ProcessedAnswer)
    → All (λ b. reference b ≢ reference a) (additional (some a) cs)
unfolding additional
additional_others a cs =
    All-sort (λ b. reference b ≢ reference a) better (filter (is_other (some a)) cs)
      (All-In _ (filter (is_other (some a)) cs)
        (λ b i. other b (In-unfilter (is_other (some a)) cs b i).1))
  where
    other : (b : ProcessedAnswer) → is_other (some a) b ≡ true → reference b ≢ reference a
    other b e = ground arith

ranked-Distinct :
    (n : ℕ) (o : Option ProcessedAnswer) (cs : List ProcessedAnswer)
    → AreDistinct reference cs
    → AreDistinct reference
        (map {B = ProcessedAnswer} (λ s. s.answer) (ranked n o (additional o cs)))
ranked-Distinct n none cs d =
    rw (answers-numbered 1 (take (suc n) (additional none cs)))
      (AreDistinct-take reference (suc n) (additional none cs) (additional-Distinct none cs d))
ranked-Distinct n (some a) cs d = rw (answers-numbered 2 (take n (additional (some a) cs))) (
  All-take (λ b. reference b ≢ reference a) n (additional (some a) cs) (additional_others a cs),
  AreDistinct-take reference n (additional (some a) cs) (additional-Distinct (some a) cs d),
)

additional-All :
    (P : ProcessedAnswer → Type 0) (o : Option ProcessedAnswer) (cs : List ProcessedAnswer)
    → ((a : ProcessedAnswer) → In a cs → P a)
    → All P (additional o cs)
unfolding additional
additional-All P o cs h =
    All-sort P better (filter (is_other o) cs)
      (All-In P (filter (is_other o) cs) (λ b i. h b (In-unfilter (is_other o) cs b i).0))

ranked-All :
    (P : ProcessedAnswer → Type 0) (n : ℕ) (o : Option ProcessedAnswer) (cs : List ProcessedAnswer)
    → ((a : ProcessedAnswer) → o ≡ some a → In a cs)
    → ((a : ProcessedAnswer) → In a cs → P a)
    → All P (map {B = ProcessedAnswer} (λ s. s.answer) (ranked n o (additional o cs)))
ranked-All P n none cs there h =
    rw (answers-numbered 1 (take (suc n) (additional none cs)))
      (All-take P (suc n) (additional none cs) (additional-All P none cs h))
ranked-All P n (some a) cs there h = (
  h a (there a refl),
  rw (answers-numbered 2 (take n (additional (some a) cs)))
      (All-take P n (additional (some a) cs) (additional-All P (some a) cs h)),
)

-- If no answer is given twice, as the same object, then for a limit from 0 to 3 the call returns a
-- selection whose ranks count up from 1, with at most one answer more than the limit; each is one of
-- the question's answers, is not missing at its source and has text, and none is there twice. Any
-- other limit is refused with a value error.
pub selection_is_ranked :
    (declared : Option ℕ) (answers : List ProcessedAnswer) (n m : ℕ)
    → n ≤ 3
    → AreDistinct reference answers
    → (s : AnswerSelection) × (select_corpus_answers declared answers (pos n) ≡ ok s)
      × AreRanked 1 s.selected
      × (length s.selected ≤ suc n)
      × All
          (λ a. In a answers × (is_candidate a ≡ true))
          (map {B = ProcessedAnswer} (λ s. s.answer) s.selected)
      × AreDistinct reference (map {B = ProcessedAnswer} (λ s. s.answer) s.selected)
      × (select_corpus_answers declared answers (pos (4 + m)) ≡ err Error.value_error)
      × (select_corpus_answers declared answers (negsuc m) ≡ err Error.value_error)
unfolding select_corpus_answers
selection_is_ranked declared answers n m le d =
    let cs = filter is_candidate answers in
    let o = find_accepted declared cs in
    (
      _,
      selected-ranked declared answers n le,
      ranked-AreRanked n o (additional o cs),
      length-ranked n o (additional o cs),
      ranked-All (λ a. In a answers × (is_candidate a ≡ true)) n o cs (find_accepted-In declared cs)
          (In-unfilter is_candidate answers),
      ranked-Distinct n o cs (AreDistinct-filter reference is_candidate answers d),
      rw (too_many m) refl,
      refl,
    )
  where
    too_many : (m : ℕ) → leb (4 + m) 3 ≡ false
    too_many m = ground arith
