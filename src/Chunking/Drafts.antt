-- ===== src/Chunking/Drafts.antt =====
-- `chunk` returns, with chunks that keep the settings and are numbered in order.
use praktika.Prelude.{
  ℕ, suc, ◌≤◌, ◌≡◌, refl, ◌≢◌, Bool, true, false, List, [], ◌∷◌, arith, ltb, length, All,
  All-append, Result, ok, value_error, raise_if, ◌>>◌, bind_ok,
}
use praktika.Text.{Text, Unicode, strip}
use praktika.Chunking.{
  CanonicalSection, CanonicalDocument, ChunkDraft, ChunkingSettings, TokenCounter, new_settings,
}
use praktika.Chunking.Blocks.{markdown_blocks}
use praktika.Chunking.Packing.{Piece, chunk_section}
use praktika.Chunking.Chunks.{of_section, raw_chunks, draft_of, number_chunks, chunk}
use praktika.Chunking.Tokens.{IsLawful}
use praktika.Chunking.Fits.{PieceFits, CodeFits, chunk_section-Fits}

-- What a draft says of its own text.
pub record IsDraft (s : ChunkingSettings) (t : TokenCounter) (d : ChunkDraft) : Type 0 where
  pub filled : d.text ≢ []
  pub counted : d.token_count ≡ t.count d.text
  pub measured : d.character_count ≡ length d.text
  pub bounded : d.token_count ≤ s.max_tokens

-- The ordinals count up from a number.
abbrev pub AreNumbered : ℕ → List ChunkDraft → Type 0
AreNumbered n [] = Unit {0}
AreNumbered n (d ∷ ds) = (d.ordinal ≡ n) × AreNumbered (suc n) ds

settings_bounds :
    (s : ChunkingSettings)
    → new_settings s ≡ ok s
    → (1 ≤ s.max_tokens) × (s.target_tokens ≤ s.max_tokens)
unfolding new_settings
settings_bounds s e = ground (arith, e)

module _ (u : Unicode) (digest : Text → Text) (s : ChunkingSettings) (t : TokenCounter) where
  abbrev TaggedFits : CanonicalSection × Piece → Type 0
  TaggedFits a = PieceFits s t a.1

  of_section-Fits :
      (section : CanonicalSection) (pieces : List Piece)
      → All (PieceFits s t) pieces
      → All TaggedFits (of_section section pieces)
  unfolding of_section
  of_section-Fits section [] h = tt
  of_section-Fits section (piece ∷ rest) h = (h.0, of_section-Fits section rest h.1)

  -- The fence of no code block of the section that is cut fills a chunk alone.
  abbrev pub SectionFits : CanonicalSection → Type 0
  SectionFits section = All (CodeFits s t) (markdown_blocks u section.text)

  raw_chunks-Fits :
      (sections : List CanonicalSection)
      → IsLawful t
      → 1 ≤ s.max_tokens
      → s.target_tokens ≤ s.max_tokens
      → All SectionFits sections
      → All TaggedFits (raw_chunks u digest s t sections)
  unfolding raw_chunks
  raw_chunks-Fits [] law one le h = tt
  raw_chunks-Fits (section ∷ rest) law one le h =
      All-append TaggedFits (of_section section (chunk_section u s t section.text))
        (raw_chunks u digest s t rest)
        (of_section-Fits section _ (chunk_section-Fits u s t section.text law one le h.0))
        (raw_chunks-Fits rest law one le h.1)

  abbrev Numbered : CanonicalDocument → ℕ → List (CanonicalSection × Piece) → Type 0
  Numbered document ordinal raw =
      (drafts : List ChunkDraft) × (number_chunks u digest s t document ordinal raw ≡ ok drafts)
      × All (IsDraft s t) drafts
      × AreNumbered ordinal drafts

  -- The test that lets a chunk pass.
  guarded :
      {drafts : List ChunkDraft} (test : Bool) {rest : Result (List ChunkDraft)}
      → test ≡ false
      → rest ≡ ok drafts
      → raise_if test value_error >> rest ≡ ok drafts
  guarded true e h = cc
  guarded false e h = h

  -- A chunk with text: it passes the test and is numbered.
  text-Numbered :
      (document : CanonicalDocument) (ordinal : ℕ) (section : CanonicalSection) (piece : Piece)
      (rest : List (CanonicalSection × Piece)) (text : Text)
      → strip piece.text ≡ text
      → t.count text ≤ s.max_tokens
      → Numbered document (suc ordinal) rest
      → Numbered document ordinal rest
      → Numbered document ordinal ((section, piece) ∷ rest)
  unfolding number_chunks
  text-Numbered document ordinal section piece rest [] e h ih same =
      let (drafts, q, good, numbered) = same in (drafts, rw (e, number_chunks) q, good, numbered)
  text-Numbered document ordinal section piece rest (c ∷ cs) e h ih same =
      let (drafts, q, good, numbered) = ih in
      let small : ltb s.max_tokens (t.count (c ∷ cs)) ≡ false = ground arith in
      (
        draft_of u digest s t document ordinal section piece (c ∷ cs) ∷ drafts,
        rw (e, number_chunks)
            (guarded _ small
              (bind_ok (number_chunks u digest s t document (suc ordinal) rest) _ drafts q)),
        (record { filled = cc; counted = refl; measured = refl; bounded = h }, good),
        (refl, numbered),
      )

  number_chunks-Numbered :
      (document : CanonicalDocument) (ordinal : ℕ) (raw : List (CanonicalSection × Piece))
      → IsLawful t
      → All TaggedFits raw
      → Numbered document ordinal raw
  unfolding number_chunks
  number_chunks-Numbered document ordinal [] law h = ([], refl, tt, tt)
  number_chunks-Numbered document ordinal ((section, piece) ∷ rest) law h =
      text-Numbered document ordinal section piece rest (strip piece.text) refl
        (omega (arith, law.strip_le piece.text, h.0))
        (number_chunks-Numbered document (suc ordinal) rest law h.1)
        (number_chunks-Numbered document ordinal rest law h.1)

  -- With settings that were accepted, a lawful token counter, and no oversized code block whose fence
  -- alone has the maximum of tokens, the document is chunked without an exception: no chunk is empty or has more tokens than the maximum,
  -- each says how long it is, and their ordinals count up from 0.
  pub chunk_returns :
      (document : CanonicalDocument)
      → IsLawful t
      → new_settings s ≡ ok s
      → All SectionFits document.sections
      → (drafts : List ChunkDraft) × (chunk u digest s t document ≡ ok drafts)
        × All (IsDraft s t) drafts
        × AreNumbered 0 drafts
  unfolding chunk
  chunk_returns document law good h =
      let (one, le) = settings_bounds s good in
      number_chunks-Numbered document 0 (raw_chunks u digest s t document.sections) law
        (raw_chunks-Fits document.sections law one le h)
