-- ===== src/Sanitize/Patterns.antt =====
-- CONTROL_CHARACTER_PATTERN, BEARER_PATTERN and SECRET_ASSIGNMENT_PATTERN as matchers.
use praktika.Prelude.{
  ℕ, suc, ◌+◌, ◌-◌, Bool, ◌&&◌, ◌||◌, not, Option, none, some, [], ◌∷◌, ◌++◌, leb, ◌==◌,
  if◌then◌else◌, take, drop,
}
use praktika.Text.{Text, codes, is_space, is_digit, is_lower, is_upper, span, Matcher}

-- [\x00-\x08\x0b\x0c\x0e-\x1f\x7f]
unfoldable pub is_control : ℕ → Bool
is_control c = leb c 8 || c == 11 || c == 12 || (leb 14 c && leb c 31) || c == 127

-- A lower-case ASCII letter of a pattern under `(?i)`: its capital too, and the characters beyond
-- ASCII that Python's matcher takes for i, k and s.
unfoldable pub ci_eq : ℕ → ℕ → Bool
unfolding is_lower
ci_eq p c =
    c == p
    || (is_lower p && c == p - 32)
    || (p == b'i' && (c == 0x130 || c == 0x131))
    || (p == b'k' && c == 0x212a)
    || (p == b's' && c == 0x17f)

-- The number of characters of a literal, where the text begins with it.
unfoldable pub match_word : Text → Text → Option ℕ
unfolding ci_eq
match_word [] t = some 0
match_word (p ∷ ps) [] = none
match_word (p ∷ ps) (c ∷ cs) =
    let rest = match_word ps cs in
    if ci_eq p c then elim rest [ none ↦ none | some n ↦ some (suc n) ] else none

-- [A-Za-z0-9._~+/=-], with the four characters that `(?i)` adds to the letters.
is_token_char : ℕ → Bool
unfolding is_digit is_lower is_upper
is_token_char c =
    is_digit c
    || is_lower c
    || is_upper c
    || c == b'.'
    || c == b'_'
    || c == b'~'
    || c == b'+'
    || c == b'/'
    || c == b'='
    || c == b'-'
    || c == 0x130
    || c == 0x131
    || c == 0x17f
    || c == 0x212a

abbrev redacted : Text
redacted = codes "[REDACTED]"

-- After `bearer`: `\s+` and then the token; the length of both.
bearer_tail : Text → Option ℕ
unfolding is_token_char is_space span
bearer_tail t =
    let spaces = span is_space t in
    let token = span is_token_char (drop spaces t) in
    if spaces == 0 || token == 0 then none else some (spaces + token)

-- (?i)\bbearer\s+[A-Za-z0-9._~+/=-]+ , replaced by "Bearer [REDACTED]".
unfoldable pub bearer_matcher : Matcher
unfolding bearer_tail match_word
bearer_matcher before t = if before then none else elim (match_word (codes "bearer") t) [
  | none ↦ none
  | some n ↦ elim (bearer_tail (drop n t)) [
    | none ↦ none
    | some m ↦ some (n + m - 1, codes "Bearer " ++ redacted)
  ]
]

or_else : Option ℕ → Option ℕ → Option ℕ
or_else none o = o
or_else (some n) o = some n

-- The alternatives of the key, in the pattern's order. At most one of them fits a text.
match_key : Text → Option ℕ
unfolding or_else match_word
match_key t = or_else (match_word (codes "password") t) (
    or_else (match_word (codes "api_key") t) (
      or_else (match_word (codes "api-key") t) (
        or_else (match_word (codes "apikey") t) (
          or_else (match_word (codes "key") t) (
            or_else (match_word (codes "token") t) (
              or_else (match_word (codes "secret") t) (
                or_else (match_word (codes "authorization") t)
                  (or_else (match_word (codes "cookie") t) (match_word (codes "csrf") t)))))))))

-- \s*[:=]\s* : its length.
match_separator : Text → Option ℕ
unfolding is_space span
match_separator t =
    let spaces = span is_space t in
    elim (drop spaces t) [
      | [] ↦ none
      | c ∷ cs ↦ if c == b':' || c == b'=' then some (spaces + 1 + span is_space cs) else none
    ]

-- [^\s,;&#]
is_value_char : ℕ → Bool
unfolding is_space
is_value_char c = not (is_space c || c == b',' || c == b';' || c == b'&' || c == b'#')

-- The secret's key and separator are kept and its value is replaced.
unfoldable pub assignment_matcher : Matcher
unfolding match_key match_separator is_value_char span
assignment_matcher before t = if before then none else elim (match_key t) [
  | none ↦ none
  | some k ↦ elim (match_separator (drop k t)) [
    | none ↦ none
    | some s ↦
        let value = span is_value_char (drop (k + s) t) in
        if value == 0 then none else some (k + s + value - 1, take (k + s) t ++ redacted)
  ]
]
