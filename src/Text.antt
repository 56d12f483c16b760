-- ===== src/Text.antt =====
-- Python's `str` as the list of its code points, with the methods and the regular-expression
-- parts that the program uses: whitespace, word characters, case, `strip`, `split`, `join`, and
-- `re.sub` by a matcher.
pub mod Laws
use praktika.Prelude.{
  ℕ, zero, suc, ◌+◌, ◌-◌, ◌/◌, ◌%◌, Bool, true, false, ◌&&◌, ◌||◌, Option, none, some, List, [],
  ◌∷◌, ◌++◌, leb, ltb, ◌==◌, if◌then◌else◌,
}
use Prim.Native.Char.{code}
use Prim.Native.String.{String}

abbrev pub Text : Type 0
Text = List ℕ

-- The code points of a quoted text.
abbrev pub codes : String → Text
codes String.[] = []
codes (String.◌∷◌ c s) = code c ∷ codes s

-- The tables of Python's Unicode database beyond ASCII. On ASCII they are written out below.
pub record Unicode : Type 0 where
  pub wide_word : ℕ → Bool
  pub wide_upper : ℕ → Text
  pub wide_casefold : ℕ → Text
  pub wide_digit : ℕ → Option ℕ

-- `str.isspace` of one character, which `\s` uses too.
unfoldable pub is_space : ℕ → Bool
is_space c =
    (leb 9 c && leb c 13)
    || (leb 28 c && leb c 32)
    || c == 0x85
    || c == 0xa0
    || c == 0x1680
    || (leb 0x2000 c && leb c 0x200a)
    || c == 0x2028
    || c == 0x2029
    || c == 0x202f
    || c == 0x205f
    || c == 0x3000

unfoldable pub is_digit : ℕ → Bool
is_digit c = leb b'0' c && leb c b'9'

-- The value of a decimal digit, which is what `\d` accepts and `int` reads.
unfoldable pub digit_value : Unicode → ℕ → Option ℕ
unfolding is_digit
digit_value u c =
    if ltb c 128 then (if is_digit c then some (c - b'0') else none) else u.wide_digit c

unfoldable pub is_upper : ℕ → Bool
is_upper c = leb b'A' c && leb c b'Z'

unfoldable pub is_lower : ℕ → Bool
is_lower c = leb b'a' c && leb c b'z'

-- `\w`, which `\b` uses too.
unfoldable pub is_word : Unicode → ℕ → Bool
unfolding is_digit is_upper is_lower
is_word u c =
    if ltb c 128 then is_digit c || is_upper c || is_lower c || c == b'_' else u.wide_word c

-- One character of `str.upper` and of `str.casefold`.
unfoldable pub upper_char : Unicode → ℕ → Text
unfolding is_lower
upper_char u c = if ltb c 128 then (if is_lower c then c - 32 else c) ∷ [] else u.wide_upper c

unfoldable pub casefold_char : Unicode → ℕ → Text
unfolding is_upper
casefold_char u c = if ltb c 128 then (if is_upper c then c + 32 else c) ∷ [] else u.wide_casefold c

unfoldable pub upper : Unicode → Text → Text
unfolding upper_char
upper u [] = []
upper u (c ∷ cs) = upper_char u c ++ upper u cs

unfoldable pub casefold : Unicode → Text → Text
unfolding casefold_char
casefold u [] = []
casefold u (c ∷ cs) = casefold_char u c ++ casefold u cs

-- `str.lstrip`, `str.rstrip` and `str.strip`.
unfoldable pub lstrip : Text → Text
unfolding is_space
lstrip [] = []
lstrip (c ∷ cs) = if is_space c then lstrip cs else c ∷ cs

unfoldable pub rstrip : Text → Text
unfolding is_space
rstrip [] = []
rstrip (c ∷ cs) =
    let rest = rstrip cs in
    elim rest [ [] ↦ if is_space c then [] else c ∷ [] | r ∷ rs ↦ c ∷ r ∷ rs ]

unfoldable pub strip : Text → Text
unfolding lstrip rstrip
strip t = rstrip (lstrip t)

-- One more character in front of the words of the rest: a space closes the word that follows it,
-- which an empty first word stands for.
push_char : ℕ → List Text → List Text
push_char c [] = (c ∷ []) ∷ []
push_char c (w ∷ ws) = (c ∷ w) ∷ ws

open_word : List Text → List Text
open_word [] = []
open_word ([] ∷ ws) = [] ∷ ws
open_word ((c ∷ w) ∷ ws) = [] ∷ (c ∷ w) ∷ ws

split_words : Text → List Text
unfolding is_space push_char open_word
split_words [] = []
split_words (c ∷ cs) =
    let words = split_words cs in if is_space c then open_word words else push_char c words

drop_empty : List Text → List Text
drop_empty [] = []
drop_empty ([] ∷ ws) = ws
drop_empty ((c ∷ w) ∷ ws) = (c ∷ w) ∷ ws

-- `str.split()`: the runs of characters that are not whitespace.
unfoldable pub split : Text → List Text
unfolding split_words drop_empty
split t = drop_empty (split_words t)

-- `separator.join(parts)`
unfoldable pub join : Text → List Text → Text
join separator [] = []
join separator (w ∷ []) = w
join separator (w ∷ v ∷ ws) = w ++ (separator ++ join separator (v ∷ ws))

unfoldable pub starts_with : Text → Text → Bool
starts_with [] t = true
starts_with (p ∷ ps) [] = false
starts_with (p ∷ ps) (c ∷ cs) = p == c && starts_with ps cs

-- `part in text`
unfoldable pub contains : Text → Text → Bool
unfolding starts_with
contains part [] = starts_with part []
contains part (c ∷ cs) = starts_with part (c ∷ cs) || contains part cs

unfoldable pub text_eq : Text → Text → Bool
text_eq [] [] = true
text_eq [] (c ∷ cs) = false
text_eq (c ∷ cs) [] = false
text_eq (c ∷ cs) (d ∷ ds) = c == d && text_eq cs ds

-- The order of `str`, by code points.
unfoldable pub text_lt : Text → Text → Bool
text_lt [] [] = false
text_lt [] (d ∷ ds) = true
text_lt (c ∷ cs) [] = false
text_lt (c ∷ cs) (d ∷ ds) = ltb c d || (c == d && text_lt cs ds)

-- How many leading characters pass a test: a greedy `[...]*`.
unfoldable pub span : (ℕ → Bool) → Text → ℕ
span p [] = 0
span p (c ∷ cs) = if p c then suc (span p cs) else 0

-- A matcher is given whether the character before is a word character, and the rest of the text;
-- it answers with the characters that follow the first in the match, and the replacement.
abbrev pub Matcher : Type 0
Matcher = Bool → Text → Option (ℕ × Text)

-- `pattern.sub(replacement, text)` from left to right; `skip` characters belong to a match.
unfoldable pub sub_from : Unicode → Matcher → ℕ → Bool → Text → Text
unfolding is_word
sub_from u m skip before [] = []
sub_from u m (suc skip) before (c ∷ cs) = sub_from u m skip (is_word u c) cs
sub_from u m zero before (c ∷ cs) = elim (m before (c ∷ cs)) [
  | none ↦ c ∷ sub_from u m zero (is_word u c) cs
  | some (more, replacement) ↦ replacement ++ sub_from u m more (is_word u c) cs
]

unfoldable pub sub : Unicode → Matcher → Text → Text
unfolding sub_from
sub u m t = sub_from u m zero false t

decimal_digits : ℕ → ℕ → Text
decimal_digits zero n = (b'0' + n % 10) ∷ []
decimal_digits (suc fuel) n =
    let before = decimal_digits fuel (n / 10) in
    if ltb n 10 then (b'0' + n) ∷ [] else before ++ ((b'0' + n % 10) ∷ [])

-- `str(n)`; a number has fewer digits than it is large, so `n` calls are enough.
unfoldable pub decimal : ℕ → Text
unfolding decimal_digits
decimal n = decimal_digits n n
