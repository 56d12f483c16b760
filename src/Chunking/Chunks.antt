-- ===== src/Chunking/Chunks.antt =====
-- `DocumentChunker.chunk` and `stable_chunk_key`. The SHA-256 of a text is a parameter.
use praktika.Prelude.{
  ℕ, suc, List, [], ◌∷◌, ◌++◌, ltb, length, Result, ok, value_error, raise_if, ◌>>=◌, ◌>>◌,
}
use praktika.Text.{Text, Unicode, codes, strip, join, decimal}
use praktika.Chunking.{
  CanonicalSection, CanonicalDocument, ChunkDraft, ChunkingSettings, TokenCounter,
}
use praktika.Chunking.Packing.{Piece, chunk_section}

unfoldable pub of_section : CanonicalSection → List Piece → List (CanonicalSection × Piece)
of_section section [] = []
of_section section (piece ∷ rest) = (section, piece) ∷ of_section section rest

module _ (u : Unicode) (digest : Text → Text) (s : ChunkingSettings) (t : TokenCounter) where
  -- The first loop, `raw_chunks`.
  unfoldable pub raw_chunks : List CanonicalSection → List (CanonicalSection × Piece)
  unfolding of_section
  raw_chunks [] = []
  raw_chunks (section ∷ rest) =
      of_section section (chunk_section u s t section.text) ++ raw_chunks rest

  unfoldable pub contextual_text : CanonicalDocument → CanonicalSection → Text → Text
  contextual_text document section normalized =
      codes "# "
      ++ (document.title
          ++ (codes "\nТеги: "
              ++ (join (codes ", ") document.tags
                  ++ (codes "\nРаздел: " ++ (section.label ++ (codes "\n\n" ++ normalized))))))

  unfoldable pub draft_of : CanonicalDocument → ℕ → CanonicalSection → Piece → Text → ChunkDraft
  unfolding contextual_text
  draft_of document ordinal section piece normalized = record {
    ordinal = ordinal;
    section_type = section.section_type;
    answer_external_id = section.answer_external_id;
    text = normalized;
    contextual_text = contextual_text document section normalized;
    content_hash = digest normalized;
    token_count = t.count normalized;
    character_count = length normalized;
    has_code = piece.has_code;
    language = piece.language;
  }

  -- The second loop, with as many drafts before as `ordinal`.
  unfoldable pub number_chunks :
      CanonicalDocument → ℕ → List (CanonicalSection × Piece) → Result (List ChunkDraft)
  unfolding draft_of
  number_chunks document ordinal [] = ok []
  number_chunks document ordinal ((section, piece) ∷ rest) = elim (strip piece.text) [
    | [] ↦ number_chunks document ordinal rest
    | c ∷ cs ↦ do
      raise_if (ltb s.max_tokens (t.count (c ∷ cs))) value_error
      drafts ← number_chunks document (suc ordinal) rest
      ok (draft_of document ordinal section piece (c ∷ cs) ∷ drafts)
  ]

  unfoldable pub chunk : CanonicalDocument → Result (List ChunkDraft)
  unfolding raw_chunks number_chunks
  chunk document = number_chunks document 0 (raw_chunks document.sections)

  -- `stable_chunk_key`, with the text of the document's UUID.
  unfoldable pub stable_chunk_key : Text → ℕ → ℕ → Text → Text
  stable_chunk_key document_id document_version ordinal content_hash = digest (
      join (b':' ∷ [])
        (document_id ∷ decimal document_version ∷ decimal ordinal ∷ content_hash ∷ []))
