-- ===== src/Citations/Tests.antt =====
-- Validations of small answers.
use praktika.Prelude.{◌≡◌, refl, ◌⊎◌, false, none, [], ◌∷◌, All}
use praktika.Text.{Unicode, codes, digit_value, span, sub, strip}
use praktika.Table.Members.{In}
use praktika.Context.{citation_digits}
use praktika.Citations.{validate_citations, scan, replace, add_index, int_of, tidy, is_nil}
use praktika.Citations.Indexes.{IsAscending, InRange, citations, citations_are_sorted_out}

abbrev ascii : Unicode
ascii = record {
  wide_word = λ _. false;
  wide_upper = λ c. c ∷ [];
  wide_casefold = λ c. c ∷ [];
  wide_digit = λ _. none;
}

third_is_removed : validate_citations ascii (codes "a [2] b [3]\nc [1]") 2 ≡ record {
  answer = codes "a [2] b\nc [1]";
  valid = false;
  cited_indexes = 1 ∷ 2 ∷ [];
  invalid_indexes = 3 ∷ [];
}
unfolding validate_citations scan replace add_index int_of tidy citation_digits digit_value span sub
    strip
third_is_removed = refl

-- What is left around a citation that was removed can be a citation that nobody checked.
new_citation_appears :
    validate_citations ascii (codes "[7[9]]") 2
    ≡ record { answer = codes "[7]"; valid = false; cited_indexes = []; invalid_indexes = 9 ∷ [] }
unfolding validate_citations scan replace add_index int_of tidy citation_digits digit_value span sub
    strip
new_citation_appears = refl

citations_are_sorted_out_example :
    let v = validate_citations ascii (codes "a [2] b [3]") 2 in
    IsAscending v.cited_indexes
    × IsAscending v.invalid_indexes
    × All (λ i. InRange 2 i × In i (citations ascii 0 (codes "a [2] b [3]"))) v.cited_indexes
    × All (λ i. (¬ InRange 2 i) × In i (citations ascii 0 (codes "a [2] b [3]"))) v.invalid_indexes
    × All
        (λ i. In i v.cited_indexes ⊎ In i v.invalid_indexes)
        (citations ascii 0 (codes "a [2] b [3]"))
    × (v.valid ≡ is_nil v.invalid_indexes)
citations_are_sorted_out_example = citations_are_sorted_out ascii (codes "a [2] b [3]") 2
