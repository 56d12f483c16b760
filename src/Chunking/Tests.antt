-- ===== src/Chunking/Tests.antt =====
-- The chunker with the approximate counter on small documents.
use praktika.Prelude.{
  ◌≡◌, refl, inl, inr, none, List, [], ◌∷◌, map, arith, All, ok, err, value_error,
}
use praktika.Text.{Text, codes, strip, join, span, text_eq, is_space, is_word}
use praktika.Chunking.{
  CanonicalDocument, ChunkSectionType, ChunkDraft, ChunkingSettings, new_settings,
}
use praktika.Chunking.Counter.{approximate, count, split, start_of, end_of}
use praktika.Chunking.Blocks.{markdown_blocks, split_code_block}
use praktika.Chunking.Packing.{chunk_section, paragraphs}
use praktika.Chunking.Chunks.{chunk}
use praktika.Chunking.Tokens.{IsLawful, approximate-IsLawful}
use praktika.Chunking.Drafts.{IsDraft, AreNumbered, chunk_returns}
use praktika.Jobs.Tests.{ascii}

abbrev settings : ChunkingSettings
settings = record { target_tokens = 4; max_tokens = 9; overlap_tokens = 1; min_tokens = 1 }

abbrev document : Text → CanonicalDocument
document text = record {
  title = codes "T";
  tags = [];
  sections =
      record {
        section_type = ChunkSectionType.question;
        label = codes "Q";
        text = text;
        answer_external_id = none;
      }
      ∷ [];
}

-- A paragraph, and code behind a fence.
abbrev small_text : Text
small_text = codes "a b c d\n\ne f\n```\nx\n```"

small_document :
    map {B = Text} (λ block. block.text) (markdown_blocks ascii small_text)
    ≡ codes "a b c d" ∷ codes "e f" ∷ codes "```\nx\n```" ∷ []
unfolding markdown_blocks strip join span text_eq is_space
small_document = refl

words : split ascii (codes "a b, c") 2 ≡ codes "a b" ∷ codes ", c" ∷ []
unfolding split count is_word is_space strip end_of start_of
words = refl

approximate-IsLawful_example : IsLawful (approximate ascii)
approximate-IsLawful_example = approximate-IsLawful ascii

chunk_returns_example :
    (drafts : List ChunkDraft) × (chunk ascii
        (λ t. t)
        settings
        (approximate ascii)
        (document small_text)
      ≡ ok drafts)
    × All (IsDraft settings (approximate ascii)) drafts
    × AreNumbered 0 drafts
unfolding markdown_blocks strip join span text_eq is_space count is_word new_settings
chunk_returns_example =
    chunk_returns ascii (λ t. t) settings (approximate ascii) (document small_text)
      (approximate-IsLawful ascii) refl ((inl refl, (inl refl, (inr (inl (omega arith)), tt))), tt)

-- A fence of five backticks has ten tokens, so no part of the code that it opens fits.
long_fence_is_refused :
    chunk ascii (λ t. t) settings (approximate ascii) (document (codes "`````\nx y\nz\n`````"))
    ≡ err value_error
unfolding chunk chunk_section markdown_blocks split_code_block strip join span text_eq is_space
    count is_word split start_of end_of paragraphs
long_fence_is_refused = refl
