-- ===== src/Selection/Ranks.antt =====
-- The ranks of the selected answers, and what the selection is made of.
use mathlib.Core.List.{append_assoc, append-nil}
use praktika.Prelude.{
  ℕ, suc, ◌≤◌, ◌≡◌, refl, sym, ap, ◌∙◌, true, false, Option, none, some, List, [], ◌∷◌, ◌++◌, arith,
  length, length-append, length-take, take, map, All,
}
use praktika.Selection.{ProcessedAnswer, SelectedCorpusAnswer, extend, assemble}

-- The additional answers with the ranks from `k` on.
abbrev pub numbered : ℕ → List ProcessedAnswer → List SelectedCorpusAnswer
numbered k [] = []
numbered k (item ∷ items) =
    record { answer = item; rank = k; accepted = false } ∷ numbered (suc k) items

-- The accepted answer, if there is one, with rank 1, and the others from there on.
abbrev pub ranked : ℕ → Option ProcessedAnswer → List ProcessedAnswer → List SelectedCorpusAnswer
ranked n none rest = numbered 1 (take (suc n) rest)
ranked n (some a) rest = record { answer = a; rank = 1; accepted = true } ∷ numbered 2 (take n rest)

length-snoc : {A : Type 0} (xs : List A) (x : A) → length (xs ++ (x ∷ [])) ≡ suc (length xs)
length-snoc xs x = omega (arith, length-append xs (x ∷ []))

extend-numbered :
    (items : List ProcessedAnswer) (selected : List SelectedCorpusAnswer)
    → extend selected items ≡ selected ++ numbered (suc (length selected)) items
unfolding extend
extend-numbered [] selected = sym (append-nil selected)
extend-numbered (item ∷ items) selected =
    let last : SelectedCorpusAnswer = record {
      answer = item;
      rank = suc (length selected);
      accepted = false;
    } in
    extend-numbered items (selected ++ (last ∷ []))
    ∙ ap (λ k. (selected ++ (last ∷ [])) ++ numbered (suc k) items) (length-snoc selected last)
    ∙ append_assoc selected (last ∷ []) (numbered (suc (suc (length selected))) items)

pub assemble-ranked :
    (n : ℕ) (accepted : Option ProcessedAnswer) (rest : List ProcessedAnswer)
    → assemble n accepted rest ≡ ranked n accepted rest
unfolding assemble
assemble-ranked n none rest = extend-numbered (take (suc n) rest) []
assemble-ranked n (some a) rest = extend-numbered (take n rest) _

-- The ranks count up from `k`.
abbrev pub AreRanked : ℕ → List SelectedCorpusAnswer → Type 0
AreRanked k [] = Unit {0}
AreRanked k (s ∷ ss) = (s.rank ≡ k) × AreRanked (suc k) ss

numbered-AreRanked : (k : ℕ) (items : List ProcessedAnswer) → AreRanked k (numbered k items)
numbered-AreRanked k [] = tt
numbered-AreRanked k (item ∷ items) = (refl, numbered-AreRanked (suc k) items)

pub ranked-AreRanked :
    (n : ℕ) (accepted : Option ProcessedAnswer) (rest : List ProcessedAnswer)
    → AreRanked 1 (ranked n accepted rest)
ranked-AreRanked n none rest = numbered-AreRanked 1 (take (suc n) rest)
ranked-AreRanked n (some a) rest = (refl, numbered-AreRanked 2 (take n rest))

pub length-numbered :
    (k : ℕ) (items : List ProcessedAnswer) → length (numbered k items) ≡ length items
length-numbered k [] = refl
length-numbered k (item ∷ items) = omega (arith, length-numbered (suc k) items)

pub length-ranked :
    (n : ℕ) (accepted : Option ProcessedAnswer) (rest : List ProcessedAnswer)
    → length (ranked n accepted rest) ≤ suc n
length-ranked n none rest =
    omega (arith, length-numbered 1 (take (suc n) rest), length-take (suc n) rest)
length-ranked n (some a) rest = omega (arith, length-numbered 2 (take n rest), length-take n rest)

pub answers-numbered :
    (k : ℕ) (items : List ProcessedAnswer)
    → map {B = ProcessedAnswer} (λ s. s.answer) (numbered k items) ≡ items
answers-numbered k [] = refl
answers-numbered k (item ∷ items) = ap (λ r. item ∷ r) (answers-numbered (suc k) items)

-- None of the numbered answers is marked as the accepted one.
pub numbered_unmarked :
    (k : ℕ) (items : List ProcessedAnswer) → All (λ s. s.accepted ≡ false) (numbered k items)
numbered_unmarked k [] = tt
numbered_unmarked k (item ∷ items) = (refl, numbered_unmarked (suc k) items)
