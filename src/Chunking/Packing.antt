-- ===== src/Chunking/Packing.antt =====
-- How the blocks of a section are packed: `_split_oversized` and `_chunk_section` of
-- `DocumentChunker`. The chunks so far stand with the last one first.
use praktika.Prelude.{
  ℕ, zero, suc, Bool, true, false, ◌&&◌, ◌||◌, not, Option, none, some, List, [], ◌∷◌, ◌++◌, map,
  leb, ltb, if◌then◌else◌, any,
}
use praktika.Text.{Text, Unicode, strip, join, text_eq}
use praktika.Chunking.{AtomicBlock, TokenCounter, ChunkingSettings}
use praktika.Chunking.Blocks.{split_code_block, markdown_blocks}

-- A chunk before it is numbered: its text, whether it has code, and its language.
pub record Piece : Type 0 where
  pub text : Text
  pub has_code : Bool
  pub language : Option Text

-- `"\n\n".join(...)`
unfoldable pub paragraphs : List AtomicBlock → Text
paragraphs blocks = join (10 ∷ 10 ∷ []) (map {B = Text} (λ block. block.text) blocks)

same_language : Option Text → Option Text → Bool
same_language none none = true
same_language none (some b) = false
same_language (some a) none = false
same_language (some a) (some b) = text_eq a b

-- Is every language that is there this one?
all_same : Text → List AtomicBlock → Bool
all_same language [] = true
all_same language (block ∷ rest) = elim block.language [
  | none ↦ all_same language rest
  | some [] ↦ all_same language rest
  | some (c ∷ cs) ↦ text_eq (c ∷ cs) language && all_same language rest
]

-- `next(iter(languages)) if len(languages) == 1 else None`
unfoldable pub one_language : List AtomicBlock → Option Text
unfolding all_same
one_language [] = none
one_language (block ∷ rest) = elim block.language [
  | none ↦ one_language rest
  | some [] ↦ one_language rest
  | some (c ∷ cs) ↦ if all_same (c ∷ cs) rest then some (c ∷ cs) else none
]

-- The variables of `_chunk_section`.
pub record Packing : Type 0 where
  pub packed : List Piece
  pub current : List AtomicBlock
  pub previous_text : Text

is_filled : Text → Bool
is_filled [] = false
is_filled (c ∷ cs) = true

is_positive : ℕ → Bool
is_positive zero = false
is_positive (suc n) = true

module _ (s : ChunkingSettings) (t : TokenCounter) where
  -- The overlap that a chunk of text starts with.
  unfoldable pub with_overlap : Text → Text → Text
  unfolding is_filled
  with_overlap previous_text combined =
      let overlap = t.tail previous_text s.overlap_tokens in
      let candidate = if is_filled overlap then overlap ++ (10 ∷ 10 ∷ combined) else combined in
      if leb (t.count candidate) s.max_tokens then candidate else combined

  unfoldable pub joined_text : Piece → Piece → Text
  joined_text prior piece = prior.text ++ (10 ∷ 10 ∷ piece.text)

  -- Is the chunk too small, and the one before it with room for both?
  unfoldable pub is_joined : Piece → Piece → Bool
  unfolding joined_text
  is_joined prior piece =
      ltb (t.count piece.text) s.min_tokens && leb (t.count (joined_text prior piece)) s.max_tokens

  unfoldable pub is_overlapped : Text → Piece → Bool
  unfolding is_positive is_filled
  is_overlapped previous_text piece =
      not piece.has_code && (is_positive s.overlap_tokens && is_filled previous_text)

  -- The chunk that `flush` appends when there is one before it, and what is left of those before.
  unfoldable pub merge : Piece → List Piece → Text → Piece → List Piece
  unfolding with_overlap same_language joined_text is_joined is_overlapped
  merge prior before previous_text piece =
      if is_joined prior piece
      then record {
        text = joined_text prior piece;
        has_code = prior.has_code || piece.has_code;
        language = if same_language prior.language piece.language then prior.language else none;
      }
        ∷ before
      else if is_overlapped previous_text piece
      then record piece { text = with_overlap previous_text piece.text } ∷ (prior ∷ before)
      else piece ∷ (prior ∷ before)

  unfoldable pub append_piece : List Piece → Text → Piece → List Piece
  unfolding merge
  append_piece [] previous_text piece = piece ∷ []
  append_piece (prior ∷ before) previous_text piece = merge prior before previous_text piece

  unfoldable pub last_text : List Piece → Text
  last_text [] = []
  last_text (piece ∷ rest) = piece.text

  abbrev pub piece_of : List AtomicBlock → Piece
  piece_of blocks = record {
    text = strip (paragraphs blocks);
    has_code = any (λ block. block.has_code) blocks;
    language = one_language blocks;
  }

  -- `flush`
  unfoldable pub flush_blocks : List AtomicBlock → Packing → Packing
  unfolding append_piece last_text
  flush_blocks [] p = p
  flush_blocks (block ∷ rest) p =
      let packed = append_piece p.packed p.previous_text (piece_of (block ∷ rest)) in
      record { packed = packed; current = []; previous_text = last_text packed }

  unfoldable pub flush : Packing → Packing
  unfolding flush_blocks
  flush p = flush_blocks p.current p

  -- Is there something that the next block would overflow?
  unfoldable pub is_full : List AtomicBlock → AtomicBlock → Bool
  is_full [] block = false
  is_full (b ∷ bs) block = ltb s.target_tokens (t.count (paragraphs ((b ∷ bs) ++ block ∷ [])))

  -- The body of the loop.
  unfoldable pub add_block : AtomicBlock → Packing → Packing
  unfolding flush is_full
  add_block block p =
      let q = if is_full p.current block then flush p else p in
      let r = record q { current = q.current ++ block ∷ [] } in
      if leb s.target_tokens (t.count (paragraphs r.current)) then flush r else r

  unfoldable pub add_blocks : List AtomicBlock → Packing → Packing
  unfolding add_block
  add_blocks [] p = p
  add_blocks (block ∷ rest) p = add_blocks rest (add_block block p)

  unfoldable pub split_oversized : AtomicBlock → List AtomicBlock
  split_oversized block =
      if leb (t.count block.text) s.max_tokens
      then block ∷ []
      else if not block.has_code
      then map (λ part. record { text = part; has_code = false; language = none })
          (t.split block.text s.max_tokens)
      else split_code_block t block s.max_tokens

  unfoldable pub split_all : List AtomicBlock → List AtomicBlock
  unfolding split_oversized
  split_all [] = []
  split_all (block ∷ rest) = split_oversized block ++ split_all rest

unfoldable pub reverse_onto {ℓ} : {A : Type ℓ} → List A → List A → List A
reverse_onto [] out = out
reverse_onto (x ∷ xs) out = reverse_onto xs (x ∷ out)

-- `_chunk_section`
unfoldable pub chunk_section : Unicode → ChunkingSettings → TokenCounter → Text → List Piece
unfolding add_blocks flush split_all reverse_onto
chunk_section u s t text =
    let start : Packing = record { packed = []; current = []; previous_text = [] } in
    reverse_onto (flush s t (add_blocks s t (split_all s t (markdown_blocks u text)) start)).packed
      []
