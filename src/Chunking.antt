-- ===== src/Chunking.antt =====
-- Chunks of documents: the data of backend/app/processing/chunking.py, with CanonicalSection and
-- CanonicalDocument of backend/app/processing/canonical.py and ChunkSectionType of
-- backend/app/core/enums.py.
pub mod Counter
pub mod Blocks
pub mod Packing
pub mod Chunks
pub mod Tokens
pub mod Pieces
pub mod Fits
pub mod Drafts
pub mod Tests
use praktika.Prelude.{
  ℕ, Bool, Option, List, ◌&&◌, not, leb, ltb, Result, ok, value_error, raise_if, ◌>>◌, ◌>>=◌,
}
use praktika.Text.{Text}

pub data ChunkSectionType : Type 0 where
  question accepted_answer answer mixed : ChunkSectionType

pub record CanonicalSection : Type 0 where
  pub section_type : ChunkSectionType
  pub label : Text
  pub text : Text
  pub answer_external_id : Option Text

-- The hashes and the text of the whole document are left out: chunks do not read them.
pub record CanonicalDocument : Type 0 where
  pub title : Text
  pub tags : List Text
  pub sections : List CanonicalSection

pub record ChunkDraft : Type 0 where
  pub ordinal : ℕ
  pub section_type : ChunkSectionType
  pub answer_external_id : Option Text
  pub text : Text
  pub contextual_text : Text
  pub content_hash : Text
  pub token_count : ℕ
  pub character_count : ℕ
  pub has_code : Bool
  pub language : Option Text

pub record ChunkingSettings : Type 0 where
  pub target_tokens : ℕ
  pub max_tokens : ℕ
  pub overlap_tokens : ℕ
  pub min_tokens : ℕ

-- `__post_init__`
unfoldable pub new_settings : ChunkingSettings → Result ChunkingSettings
new_settings s = do
  raise_if
      (not (
        leb 1 s.min_tokens
        && (leb s.min_tokens s.target_tokens && leb s.target_tokens s.max_tokens)))
      value_error
  raise_if (not (ltb s.overlap_tokens s.target_tokens)) value_error
  ok s

-- `_AtomicBlock`
pub record AtomicBlock : Type 0 where
  pub text : Text
  pub has_code : Bool
  pub language : Option Text

-- The methods of a `TokenCounter`; `split` is called with a positive number of tokens only.
pub record TokenCounter : Type 0 where
  pub count : Text → ℕ
  pub split : Text → ℕ → List Text
  pub tail : Text → ℕ → Text
