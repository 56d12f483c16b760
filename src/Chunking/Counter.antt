-- ===== src/Chunking/Counter.antt =====
-- `ApproximateTokenCounter`: a token is a match of TOKEN_PATTERN, `\w+|[^\w\s]`. A position is the
-- number of characters before it, and `inside` says that the character before belongs to a word.
use praktika.Prelude.{
  ℕ, zero, suc, ◌-◌, Bool, true, false, List, [], ◌∷◌, leb, ltb, if◌then◌else◌, take, drop,
}
use praktika.Text.{Text, Unicode, is_space, is_word, strip}
use praktika.Chunking.{TokenCounter}

module _ (u : Unicode) where
  unfoldable pub count_from : Bool → Text → ℕ
  count_from inside [] = 0
  count_from inside (c ∷ cs) =
      if is_word u c
      then (if inside then count_from true cs else suc (count_from true cs))
      else if is_space c
      then count_from false cs
      else suc (count_from false cs)

  -- `len(TOKEN_PATTERN.findall(value))`
  unfoldable pub count : Text → ℕ
  unfolding count_from
  count value = count_from false value

  -- `matches[n - 1].end()`, or the end of the text.
  unfoldable pub end_of : ℕ → Bool → Text → ℕ
  end_of n inside [] = 0
  end_of zero inside (c ∷ cs) =
      let rest = end_of zero true cs in if is_word u c then (if inside then suc rest else 0) else 0
  end_of (suc n) inside (c ∷ cs) =
      if is_word u c
      then (if inside then suc (end_of (suc n) true cs) else suc (end_of n true cs))
      else if is_space c
      then suc (end_of (suc n) false cs)
      else suc (end_of n false cs)

  -- `matches[n].start()`, or the end of the text.
  unfoldable pub start_of : ℕ → Bool → Text → ℕ
  start_of n inside [] = 0
  start_of zero inside (c ∷ cs) =
      if is_word u c
      then (if inside then suc (start_of zero true cs) else 0)
      else if is_space c
      then suc (start_of zero false cs)
      else 0
  start_of (suc n) inside (c ∷ cs) =
      if is_word u c
      then (if inside then suc (start_of (suc n) true cs) else suc (start_of n true cs))
      else if is_space c
      then suc (start_of (suc n) false cs)
      else suc (start_of n false cs)

  -- The loop of `split` over the offsets: `value` is the text from `start` on, and each round takes
  -- `maximum_tokens` of its tokens. A text has no more rounds than tokens.
  unfoldable pub split_from : ℕ → ℕ → Text → List Text
  split_from zero maximum_tokens value = strip value ∷ []
  split_from (suc rounds) maximum_tokens value =
      let rest =
        split_from rounds maximum_tokens (drop (start_of maximum_tokens false value) value) in
      if ltb maximum_tokens (count value)
      then strip (take (end_of maximum_tokens false value) value) ∷ rest
      else strip value ∷ []

  unfoldable pub split : Text → ℕ → List Text
  unfolding split_from
  split value maximum_tokens =
      if leb (count value) 0 then [] else split_from (count value) maximum_tokens value

  unfoldable pub tail : Text → ℕ → Text
  tail value maximum_tokens =
      if leb maximum_tokens 0
      then []
      else if leb (count value) maximum_tokens
      then strip value
      else strip (drop (start_of (count value - maximum_tokens) false value) value)

  abbrev pub approximate : TokenCounter
  approximate = record { count = count; split = split; tail = tail }
