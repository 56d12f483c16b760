-- ===== src/Chunking/Pieces.antt =====
-- The parts of a code block that is cut keep the maximum, if its fence leaves room for a token.
use praktika.Prelude.{
  ℕ, ◌-◌, ◌≤◌, ◌<◌, ◌≡◌, refl, true, false, Option, none, some, List, [], ◌∷◌, ◌++◌, map, max,
  arith, ltb, Bool-cases, inl, inr, All, All-append,
}
use praktika.Text.{Text, join}
use praktika.Chunking.{AtomicBlock, TokenCounter}
use praktika.Chunking.Blocks.{
  lines_text, fenced, fence_open, without_fence, close_group, overflows, singles, group_lines,
  split_code_block, splitlines,
}
use praktika.Chunking.Tokens.{IsLawful}

module _ (t : TokenCounter) where
  -- A group of lines that keeps the capacity.
  abbrev GroupFits : ℕ → List Text → Type 0
  GroupFits capacity group = t.count (lines_text group) ≤ capacity

  abbrev CurrentFits : ℕ → List Text → Type 0
  CurrentFits capacity [] = Unit {0}
  CurrentFits capacity (line ∷ rest) = GroupFits capacity (line ∷ rest)

  close_group-Fits :
      (capacity : ℕ) (current : List Text)
      → CurrentFits capacity current
      → All (GroupFits capacity) (close_group t current)
  unfolding close_group
  close_group-Fits capacity [] h = tt
  close_group-Fits capacity (line ∷ rest) h = (h, tt)

  alone : (capacity : ℕ) (line : Text) → t.count line ≤ capacity → GroupFits capacity (line ∷ [])
  unfolding join
  alone capacity line h = h

  singles-Fits :
      (capacity : ℕ) (parts : List Text)
      → All (λ part. t.count part ≤ capacity) parts
      → All (GroupFits capacity) (singles t parts)
  unfolding singles
  singles-Fits capacity [] h = tt
  singles-Fits capacity (part ∷ rest) h = (alone capacity part h.0, singles-Fits capacity rest h.1)

  joined :
      (capacity : ℕ) (current : List Text) (line : Text)
      → t.count line ≤ capacity
      → overflows t capacity current line ≡ false
      → CurrentFits capacity (current ++ line ∷ [])
  unfolding overflows
  joined capacity [] line h e = alone capacity line h
  joined capacity (l ∷ ls) line h e = ground (arith, e)

  module _ (law : IsLawful t) (capacity : ℕ) (one : 1 ≤ capacity) where
    group_lines-Fits :
        (current lines : List Text)
        → CurrentFits capacity current
        → All (GroupFits capacity) (group_lines t capacity current lines)
    unfolding group_lines
    group_lines-Fits current [] h = close_group-Fits capacity current h
    group_lines-Fits current (line ∷ rest) h =
        let closed = close_group-Fits capacity current h in
        let cut =
          All-append (GroupFits capacity) (close_group t current)
            (singles t (t.split line capacity) ++ group_lines t capacity [] rest) closed
            (All-append (GroupFits capacity) (singles t (t.split line capacity))
              (group_lines t capacity [] rest)
              (singles-Fits capacity (t.split line capacity) (law.split_fits line capacity one))
              (group_lines-Fits [] rest tt)) in
        elim (Bool-cases (overflows t capacity current line)) [
          | inl full ↦ elim (Bool-cases (ltb capacity (t.count line))) [
            | inl large ↦ rw (full, large, group_lines) cut
            | inr small ↦
                rw (full, small, group_lines)
                  (All-append (GroupFits capacity) (close_group t current)
                    (group_lines t capacity (line ∷ []) rest) closed
                    (group_lines-Fits (line ∷ []) rest
                      (alone capacity line (ground (arith, small)))))
          ]
          | inr open_ ↦ elim (Bool-cases (ltb capacity (t.count line))) [
            | inl large ↦ rw (open_, large, group_lines) cut
            | inr small ↦
                rw (open_, small, group_lines)
                  (group_lines-Fits (current ++ line ∷ []) rest
                    (joined capacity current line (ground (arith, small)) open_))
          ]
        ]

  abbrev Fits : ℕ → AtomicBlock → Type 0
  Fits maximum block = t.count block.text ≤ maximum

  -- The fence of a code block that is cut has fewer tokens than the maximum.
  abbrev pub HasRoom : ℕ → Option (Text × Text × Text) → Type 0
  HasRoom maximum none = Unit {0}
  HasRoom maximum (some (fence, language, body)) = t.count (fenced fence language []) < maximum

  All-fenced :
      (maximum : ℕ) (fence language : Text) (name : Option Text) (groups : List (List Text))
      → IsLawful t
      → t.count (fenced fence language []) < maximum
      → All (GroupFits (maximum - t.count (fenced fence language []))) groups
      → All (Fits maximum) (
          map
            (λ group. record {
              text = fenced fence language (lines_text group);
              has_code = true;
              language = name;
            })
            groups)
  All-fenced maximum fence language name [] law room h = tt
  All-fenced maximum fence language name (group ∷ rest) law room h = (
    omega (arith, law.fenced_le fence language (lines_text group), h.0),
    All-fenced maximum fence language name rest law room h.1,
  )

  All-bare :
      (maximum : ℕ) (name : Option Text) (parts : List Text)
      → All (λ part. t.count part ≤ maximum) parts
      → All
          (Fits maximum)
          (map (λ part. record { text = part; has_code = true; language = name }) parts)
  All-bare maximum name [] h = tt
  All-bare maximum name (part ∷ rest) h = (h.0, All-bare maximum name rest h.1)

  larger : (n : ℕ) → 1 ≤ n → max 1 n ≡ n
  larger n h = omega arith

  pub split_code_block-Fits :
      (block : AtomicBlock) (maximum : ℕ)
      → IsLawful t
      → 1 ≤ maximum
      → HasRoom maximum (fence_open block.text)
      → All (Fits maximum) (split_code_block t block maximum)
  unfolding split_code_block
  split_code_block-Fits block maximum law one room = opened (fence_open block.text) refl room
    where
      opened :
          (o : Option (Text × Text × Text))
          → fence_open block.text ≡ o
          → HasRoom maximum o
          → All (Fits maximum) (split_code_block t block maximum)
      opened none e r =
          rw (e, split_code_block)
            (All-bare maximum block.language (t.split block.text maximum)
              (law.split_fits block.text maximum one))
      opened (some (fence, language, body)) e r =
          let capacity = maximum - t.count (fenced fence language []) in
          rw (e, split_code_block)
            (rw (larger capacity (omega arith)) (
              All-fenced maximum fence language block.language _ law r (
                group_lines-Fits law capacity (omega arith) []
                  (splitlines (without_fence fence body)) tt)))
