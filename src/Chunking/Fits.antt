-- ===== src/Chunking/Fits.antt =====
-- No chunk of a section has more tokens than the settings allow, as long as the fence of no code
-- block that has to be cut fills a chunk alone.
use praktika.Prelude.{
  ◌≤◌, ◌≡◌, refl, sym, Bool, true, false, not, ◌⊎◌, inl, inr, none, List, [], ◌∷◌, ◌++◌, map, arith,
  leb, if◌then◌else◌, Bool-cases, All, All-append,
}
use mathlib.Core.Path.{subst}
use praktika.Text.{Text, Unicode, join}
use praktika.Chunking.{AtomicBlock, TokenCounter, ChunkingSettings}
use praktika.Chunking.Blocks.{markdown_blocks, split_code_block, fence_open}
use praktika.Chunking.Packing.{
  Piece, Packing, paragraphs, with_overlap, is_joined, is_overlapped, merge, append_piece, piece_of,
  flush_blocks, flush, is_full, add_block, add_blocks, split_oversized, split_all, reverse_onto,
  chunk_section,
}
use praktika.Chunking.Tokens.{IsLawful}
use praktika.Chunking.Pieces.{HasRoom, split_code_block-Fits}

module _ (s : ChunkingSettings) (t : TokenCounter) where
  abbrev pub PieceFits : Piece → Type 0
  PieceFits piece = t.count piece.text ≤ s.max_tokens

  abbrev pub BlockFits : AtomicBlock → Type 0
  BlockFits block = t.count block.text ≤ s.max_tokens

  -- What waits for the next flush fits into one chunk.
  abbrev CurrentFits : List AtomicBlock → Type 0
  CurrentFits [] = Unit {0}
  CurrentFits (block ∷ rest) = t.count (paragraphs (block ∷ rest)) ≤ s.max_tokens

  record IsFitting (p : Packing) : Type 0 where
    packed : All PieceFits p.packed
    current : CurrentFits p.current

  chosen-le :
      (candidate combined : Text)
      → t.count combined ≤ s.max_tokens
      → t.count (if leb (t.count candidate) s.max_tokens then candidate else combined)
        ≤ s.max_tokens
  chosen-le candidate combined h = elim (Bool-cases (leb (t.count candidate) s.max_tokens)) [
    | inl fits ↦ rw fits (ground (arith, fits))
    | inr over ↦ rw over h
  ]

  with_overlap-le :
      (previous_text combined : Text)
      → t.count combined ≤ s.max_tokens
      → t.count (with_overlap s t previous_text combined) ≤ s.max_tokens
  unfolding with_overlap
  with_overlap-le previous_text combined h = chosen-le _ combined h

  append_piece-Fits :
      (before : List Piece) (previous_text : Text) (piece : Piece)
      → All PieceFits before
      → PieceFits piece
      → All PieceFits (append_piece s t before previous_text piece)
  unfolding append_piece merge is_joined
  append_piece-Fits [] previous_text piece all h = (h, tt)
  append_piece-Fits (prior ∷ before) previous_text piece all h =
      elim (Bool-cases (is_joined s t prior piece)) [
        | inl joined ↦ rw joined (ground (arith, joined), all.1)
        | inr apart ↦ elim (Bool-cases (is_overlapped s t previous_text piece)) [
          | inl overlapped ↦
              rw (apart, overlapped) (with_overlap-le previous_text piece.text h, all)
          | inr bare ↦ rw (apart, bare) (h, all)
        ]
      ]

  flush_blocks-IsFitting :
      (blocks : List AtomicBlock) (p : Packing)
      → IsLawful t
      → CurrentFits blocks
      → All PieceFits p.packed
      → All PieceFits (flush_blocks s t blocks p).packed
  unfolding flush_blocks
  flush_blocks-IsFitting [] p law h all = all
  flush_blocks-IsFitting (block ∷ rest) p law h all =
      append_piece-Fits p.packed p.previous_text (piece_of s t (block ∷ rest)) all
        (omega (arith, law.strip_le (paragraphs (block ∷ rest))))

  emptied :
      (blocks : List AtomicBlock) (p : Packing)
      → p.current ≡ blocks
      → (flush_blocks s t blocks p).current ≡ []
  unfolding flush_blocks
  emptied [] p e = e
  emptied (block ∷ rest) p e = refl

  flush-IsFitting : (p : Packing) → IsLawful t → IsFitting p → IsFitting (flush s t p)
  unfolding flush
  flush-IsFitting p law h = record {
    packed = flush_blocks-IsFitting p.current p law h.current h.packed;
    current = subst CurrentFits (sym (emptied p.current p refl)) tt;
  }

  emptied_flush : (p : Packing) → (flush s t p).current ≡ []
  unfolding flush
  emptied_flush p = emptied p.current p refl

  alone : (block : AtomicBlock) → BlockFits block → CurrentFits (block ∷ [])
  unfolding paragraphs join
  alone block fits = fits

  waits :
      (block : AtomicBlock) (current : List AtomicBlock)
      → s.target_tokens ≤ s.max_tokens
      → BlockFits block
      → is_full s t current block ≡ false
      → CurrentFits (current ++ block ∷ [])
  unfolding is_full
  waits block [] le fits e = alone block fits
  waits block (b ∷ bs) le fits e = ground (arith, e)

  -- The end of the loop's body.
  with_block :
      (block : AtomicBlock) (q : Packing)
      → IsLawful t
      → IsFitting q
      → CurrentFits (q.current ++ block ∷ [])
      → let r : Packing = record q { current = q.current ++ block ∷ [] } in
        IsFitting (if leb s.target_tokens (t.count (paragraphs r.current)) then flush s t r else r)
  with_block block q law h fits =
      let r : Packing = record q { current = q.current ++ block ∷ [] } in
      let ready : IsFitting r = record { packed = h.packed; current = fits } in
      elim (Bool-cases (leb s.target_tokens (t.count (paragraphs r.current)))) [
        | inl large ↦ rw large (flush-IsFitting r law ready)
        | inr small ↦ rw small ready
      ]

  add_block-IsFitting :
      (block : AtomicBlock) (p : Packing)
      → IsLawful t
      → s.target_tokens ≤ s.max_tokens
      → BlockFits block
      → IsFitting p
      → IsFitting (add_block s t block p)
  unfolding add_block
  add_block-IsFitting block p law le fits h = elim (Bool-cases (is_full s t p.current block)) [
    | inl full ↦ rw full (
        with_block block (flush s t p) law (flush-IsFitting p law h)
          (subst (λ bs. CurrentFits (bs ++ block ∷ [])) (sym (emptied_flush p)) (alone block fits)))
    | inr open_ ↦ rw open_ (with_block block p law h (waits block p.current le fits open_))
  ]

  add_blocks-IsFitting :
      (blocks : List AtomicBlock) (p : Packing)
      → IsLawful t
      → s.target_tokens ≤ s.max_tokens
      → All BlockFits blocks
      → IsFitting p
      → IsFitting (add_blocks s t blocks p)
  unfolding add_blocks
  add_blocks-IsFitting [] p law le fits h = h
  add_blocks-IsFitting (block ∷ rest) p law le fits h =
      add_blocks-IsFitting rest (add_block s t block p) law le fits.1
        (add_block-IsFitting block p law le fits.0 h)

  -- A block of text, one that is small enough, or one whose fence leaves room for a token.
  abbrev pub CodeFits : AtomicBlock → Type 0
  CodeFits block =
      (block.has_code ≡ false) ⊎ (BlockFits block ⊎ HasRoom t s.max_tokens (fence_open block.text))

  All-parts :
      (parts : List Text)
      → All (λ part. t.count part ≤ s.max_tokens) parts
      → All BlockFits
          (map (λ part. record { text = part; has_code = false; language = none }) parts)
  All-parts [] h = tt
  All-parts (part ∷ rest) h = (h.0, All-parts rest h.1)

  of_kind :
      (code : Bool) (xs ys : List AtomicBlock)
      → All BlockFits xs
      → (code ≡ false) ⊎ All BlockFits ys
      → All BlockFits (if not code then xs else ys)
  of_kind true xs ys h (inl plain) = cc
  of_kind true xs ys h (inr k) = k
  of_kind false xs ys h k = h

  split_oversized-Fits :
      (block : AtomicBlock)
      → IsLawful t
      → 1 ≤ s.max_tokens
      → CodeFits block
      → All BlockFits (split_oversized s t block)
  unfolding split_oversized
  split_oversized-Fits block law one code =
      elim (Bool-cases (leb (t.count block.text) s.max_tokens)) [
        | inl fits ↦ rw fits (ground (arith, fits), tt)
        | inr over ↦
            let parts =
              All-parts (t.split block.text s.max_tokens)
                (law.split_fits block.text s.max_tokens one) in
            rw over (of_kind block.has_code _ _ parts (cut over code))
      ]
    where
      cut :
          leb (t.count block.text) s.max_tokens ≡ false
          → CodeFits block
          → (block.has_code ≡ false) ⊎ All BlockFits (split_code_block t block s.max_tokens)
      cut over (inl plain) = inl plain
      cut over (inr (inl fits)) = absurd (ground (arith, over, fits))
      cut over (inr (inr room)) = inr (split_code_block-Fits t block s.max_tokens law one room)

  split_all-Fits :
      (blocks : List AtomicBlock)
      → IsLawful t
      → 1 ≤ s.max_tokens
      → All CodeFits blocks
      → All BlockFits (split_all s t blocks)
  unfolding split_all
  split_all-Fits [] law one code = tt
  split_all-Fits (block ∷ rest) law one code =
      All-append BlockFits (split_oversized s t block) (split_all s t rest)
        (split_oversized-Fits block law one code.0) (split_all-Fits rest law one code.1)

All-reverse_onto :
    {A : Type 0} (P : A → Type 0) (xs out : List A)
    → All P xs
    → All P out
    → All P (reverse_onto xs out)
unfolding reverse_onto
All-reverse_onto P [] out h k = k
All-reverse_onto P (x ∷ xs) out h k = All-reverse_onto P xs (x ∷ out) h.1 (h.0, k)

-- The chunks of a section keep the maximum, unless the fence of a code block that is cut does not.
pub chunk_section-Fits :
    (u : Unicode) (s : ChunkingSettings) (t : TokenCounter) (text : Text)
    → IsLawful t
    → 1 ≤ s.max_tokens
    → s.target_tokens ≤ s.max_tokens
    → All (CodeFits s t) (markdown_blocks u text)
    → All (PieceFits s t) (chunk_section u s t text)
unfolding chunk_section
chunk_section-Fits u s t text law one le code =
    let start : Packing = record { packed = []; current = []; previous_text = [] } in
    let blocks = split_all s t (markdown_blocks u text) in
    let full =
      add_blocks-IsFitting s t blocks start law le
        (split_all-Fits s t (markdown_blocks u text) law one code)
        (record { packed = tt; current = tt }) in
    All-reverse_onto (PieceFits s t) _ [] (flush-IsFitting s t _ law full).packed tt
