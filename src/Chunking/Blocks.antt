-- ===== src/Chunking/Blocks.antt =====
-- How a section falls into blocks of text and of code: `_markdown_blocks` and `_split_code_block`.
use praktika.Prelude.{
  ℕ, suc, ◌-◌, Bool, true, false, ◌&&◌, ◌||◌, Option, none, some, List, [], ◌∷◌, ◌++◌, map, leb,
  ltb, ◌==◌, if◌then◌else◌, length, take, drop, all, max,
}
use praktika.Text.{
  Text, Unicode, strip, join, span, casefold, text_eq, is_digit, is_upper, is_lower,
}
use praktika.Chunking.{AtomicBlock, TokenCounter}

-- The characters that end a line for `str.splitlines`.
is_line_break : ℕ → Bool
is_line_break c =
    (leb 10 c && leb c 13) || (leb 28 c && leb c 30) || c == 0x85 || c == 0x2028 || c == 0x2029

-- `value.replace("\r\n", "\n").replace("\r", "\n")`
unfoldable pub unify_breaks : Text → Text
unify_breaks [] = []
unify_breaks (c ∷ []) = (if c == 13 then 10 else c) ∷ []
unify_breaks (c ∷ d ∷ cs) =
    let rest = unify_breaks (d ∷ cs) in
    if c == 13 then if d == 10 then rest else 10 ∷ rest else c ∷ rest

-- `value.splitlines()`, where no line is ended by two characters any more.
unfoldable pub splitlines : Text → List Text
unfolding is_line_break
splitlines [] = []
splitlines (c ∷ cs) =
    let rest = splitlines cs in
    if is_line_break c then [] ∷ rest else elim rest [ [] ↦ (c ∷ []) ∷ [] | l ∷ ls ↦ (c ∷ l) ∷ ls ]

-- [a-zA-Z0-9_+#.-]
is_language_char : ℕ → Bool
is_language_char c =
    is_digit c
    || is_upper c
    || is_lower c
    || c == b'_'
    || c == b'+'
    || c == b'#'
    || c == b'.'
    || c == b'-'

is_backtick : ℕ → Bool
is_backtick c = c == b'`'

-- The match of ^(`{3,})([a-zA-Z0-9_+#.-]*)$ with a stripped line: the fence and the language.
unfoldable pub fence_of : Text → Option (Text × Text)
unfolding is_language_char is_backtick is_digit is_upper is_lower
fence_of line =
    let n = span is_backtick line in
    if leb 3 n && all is_language_char (drop n line) then some (take n line, drop n line) else none

-- `"\n".join(lines)`
abbrev pub lines_text : List Text → Text
lines_text lines = join (10 ∷ []) lines

-- `flush_text`
unfoldable pub flush_text : List Text → List AtomicBlock
flush_text lines =
    let text = strip (lines_text lines) in
    elim text [
      | [] ↦ []
      | c ∷ cs ↦ record { text = c ∷ cs; has_code = false; language = none } ∷ []
    ]

-- `match.group(2).casefold() or None`
unfoldable pub language_of : Unicode → Text → Option Text
language_of u [] = none
language_of u (c ∷ cs) = some (casefold u (c ∷ cs))

abbrev pub code_block : List Text → Option Text → AtomicBlock
code_block lines language = record { text = lines_text lines; has_code = true; language = language }

-- Where the loop stands: in text, with its lines so far, or in code behind a fence.
pub data Reading : Type 0 where
  in_text : List Text → Reading
  in_code : Text → Option Text → List Text → Reading

-- The two `while` loops, one line at a time.
unfoldable pub read_lines : Unicode → Reading → List Text → List AtomicBlock
unfolding flush_text fence_of language_of
read_lines u (in_text lines) [] = flush_text lines
read_lines u (in_code fence language lines) [] = code_block lines language ∷ []
read_lines u (in_text lines) (line ∷ rest) = elim (fence_of (strip line)) [
  | some (fence, language) ↦
      flush_text lines ++ read_lines u (in_code fence (language_of u language) (line ∷ [])) rest
  | none ↦ elim (strip line) [
    | [] ↦ flush_text lines ++ read_lines u (in_text []) rest
    | c ∷ cs ↦ read_lines u (in_text (lines ++ line ∷ [])) rest
  ]
]
read_lines u (in_code fence language lines) (line ∷ rest) = elim (text_eq (strip line) fence) [
  | true ↦ code_block (lines ++ line ∷ []) language ∷ read_lines u (in_text []) rest
  | false ↦ read_lines u (in_code fence language (lines ++ line ∷ [])) rest
]

unfoldable pub markdown_blocks : Unicode → Text → List AtomicBlock
unfolding read_lines unify_breaks splitlines
markdown_blocks u value = read_lines u (in_text []) (splitlines (unify_breaks value))

-- The match of FENCE_OPEN_PATTERN: the fence, the language, and the text behind the line break.
unfoldable pub fence_open : Text → Option (Text × Text × Text)
unfolding is_language_char is_backtick is_digit is_upper is_lower
fence_open value =
    let n = span is_backtick value in
    let after = drop n value in
    let k = span is_language_char after in
    if leb 3 n
    then (elim (drop k after) [
      | [] ↦ none
      | c ∷ cs ↦ if c == 10 then some (take n value, take k after, cs) else none
    ])
    else none

-- `body.endswith(end)`, and `body[:-len(end)]`
unfoldable pub ends_with : Text → Text → Bool
ends_with end body =
    leb (length end) (length body) && text_eq (drop (length body - length end) body) end

unfoldable pub without_fence : Text → Text → Text
unfolding ends_with
without_fence fence body =
    if ends_with (10 ∷ fence) body then take (length body - suc (length fence)) body else body

abbrev pub fenced : Text → Text → Text → Text
fenced fence language content = fence ++ (language ++ (10 ∷ (content ++ (10 ∷ fence))))

module _ (t : TokenCounter) where
  -- The groups that are left when the lines so far are `current`.
  unfoldable pub close_group : List Text → List (List Text)
  close_group [] = []
  close_group (l ∷ ls) = (l ∷ ls) ∷ []

  -- Does the next line overflow the group?
  unfoldable pub overflows : ℕ → List Text → Text → Bool
  overflows capacity [] line = false
  overflows capacity (l ∷ ls) line = ltb capacity (t.count (lines_text ((l ∷ ls) ++ line ∷ [])))

  unfoldable pub singles : List Text → List (List Text)
  singles parts = map (λ part. part ∷ []) parts

  -- The loop over the lines of the body.
  unfoldable pub group_lines : ℕ → List Text → List Text → List (List Text)
  unfolding close_group overflows singles
  group_lines capacity current [] = close_group current
  group_lines capacity current (line ∷ rest) = elim (overflows capacity current line) [
    | true ↦ elim (ltb capacity (t.count line)) [
      | true ↦
          close_group current ++ (singles (t.split line capacity) ++ group_lines capacity [] rest)
      | false ↦ close_group current ++ group_lines capacity (line ∷ []) rest
    ]
    | false ↦ elim (ltb capacity (t.count line)) [
      | true ↦
          close_group current ++ (singles (t.split line capacity) ++ group_lines capacity [] rest)
      | false ↦ group_lines capacity (current ++ line ∷ []) rest
    ]
  ]

  unfoldable pub split_code_block : AtomicBlock → ℕ → List AtomicBlock
  unfolding fence_open without_fence group_lines splitlines
  split_code_block block maximum_tokens = elim (fence_open block.text) [
    | none ↦
        map (λ part. record { text = part; has_code = true; language = block.language })
          (t.split block.text maximum_tokens)
    | some (fence, language, body) ↦
        let overhead = t.count (fenced fence language []) in
        map
          (λ group. record {
            text = fenced fence language (lines_text group);
            has_code = true;
            language = block.language;
          })
          (group_lines (max 1 (maximum_tokens - overhead)) []
            (splitlines (without_fence fence body)))
  ]
