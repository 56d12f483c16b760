-- ===== src/Citations.antt =====
-- The citations of an answer: backend/app/rag/citations.py.
pub mod Indexes
pub mod Tests
use praktika.Prelude.{
  ℕ, zero, suc, ◌+◌, ◌*◌, Bool, true, false, ◌&&◌, ◌||◌, Option, none, some, List, [], ◌∷◌, ◌++◌,
  leb, ltb, ◌==◌, if◌then◌else◌, length, take, drop,
}
use praktika.Text.{Text, Unicode, digit_value, span, sub, strip, Matcher}
use praktika.Context.{citation_digits}

pub record CitationValidation : Type 0 where
  pub answer : Text
  pub valid : Bool
  pub cited_indexes : List ℕ
  pub invalid_indexes : List ℕ

abbrev pub digit_or_zero : Option ℕ → ℕ
digit_or_zero none = 0
digit_or_zero (some d) = d

-- `int(digits)`, with the number that the digits before make.
unfoldable pub int_of : Unicode → ℕ → Text → ℕ
unfolding digit_value
int_of u n [] = n
int_of u n (c ∷ cs) = int_of u (n * 10 + digit_or_zero (digit_value u c)) cs

-- A set of indexes, kept as the list that `sorted` makes of it.
unfoldable pub add_index : ℕ → List ℕ → List ℕ
add_index i [] = i ∷ []
add_index i (j ∷ js) =
    let rest = add_index i js in
    if ltb i j then i ∷ j ∷ js else (if i == j then j ∷ js else j ∷ rest)

-- The text that `sub` has made, and the two sets that `replace` fills.
pub record Scan : Type 0 where
  pub cleaned : Text
  pub cited : List ℕ
  pub invalid : List ℕ

-- `replace`, on a match of `digits` that begins with `c` and goes on in `cs`.
unfoldable pub replace : ℕ → ℕ → Text → Scan → Scan
unfolding add_index
replace allowed_count index match s =
    if leb 1 index && leb index allowed_count
    then record s { cleaned = match ++ s.cleaned; cited = add_index index s.cited }
    else record s { invalid = add_index index s.invalid }

-- `_CITATION.sub(replace, answer)`; `skip` characters belong to a match.
unfoldable pub scan : Unicode → ℕ → ℕ → Text → Scan
unfolding citation_digits int_of replace
scan u allowed_count skip [] = record { cleaned = []; cited = []; invalid = [] }
scan u allowed_count (suc skip) (c ∷ cs) = scan u allowed_count skip cs
scan u allowed_count zero (c ∷ cs) = elim (citation_digits u (c ∷ cs)) [
  | none ↦ let s = scan u allowed_count zero cs in record s { cleaned = c ∷ s.cleaned }
  | some digits ↦
      replace allowed_count (int_of u 0 digits) (c ∷ take (suc (length digits)) cs)
        (scan u allowed_count (suc (length digits)) cs)
]

abbrev pub starts_line : Text → Bool
starts_line [] = false
starts_line (c ∷ cs) = c == b'\n'

-- [ \t]+\n , replaced by the newline.
unfoldable pub trailing_matcher : Matcher
unfolding span
trailing_matcher before t =
    let n = span (λ c. c == b' ' || c == b'\t') t in
    if leb 1 n && starts_line (drop n t) then some (n, b'\n' ∷ []) else none

unfoldable pub tidy : Unicode → Text → Text
unfolding trailing_matcher sub strip
tidy u cleaned = strip (sub u trailing_matcher cleaned)

abbrev pub is_nil : List ℕ → Bool
is_nil [] = true
is_nil (i ∷ is) = false

unfoldable pub validate_citations : Unicode → Text → ℕ → CitationValidation
unfolding scan tidy
validate_citations u answer allowed_count =
    let s = scan u allowed_count 0 answer in
    record {
      answer = tidy u s.cleaned;
      valid = is_nil s.invalid;
      cited_indexes = s.cited;
      invalid_indexes = s.invalid;
    }
