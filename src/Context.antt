-- ===== src/Context.antt =====
-- The context that a question is answered from: backend/app/rag/context.py. The order of chunks
-- by `str(chunk_id)` is the order of the numbers, since UUIDs print with a fixed length.
pub mod Budget
pub mod Tests
use praktika.Prelude.{
  ℕ, suc, ◌+◌, ◌-◌, ◌*◌, ◌/◌, max, Bool, true, false, ◌&&◌, ◌||◌, not, Option, none, some, List, [],
  ◌∷◌, ◌++◌, map, leb, ltb, ◌==◌, if◌then◌else◌, length, take, drop, filter, any, Result, ok, err,
  index_error, ◌>>=◌,
}
use praktika.Text.{
  Text, codes, Unicode, casefold, split, join, strip, rstrip, contains, text_eq, digit_value, span,
  Matcher, sub, decimal,
}
use praktika.Table.{sort}

-- Scores are the bits of their floats; nothing here computes with them.
pub record RetrievedPassage : Type 0 where
  pub chunk_id : ℕ
  pub document_id : ℕ
  pub title : Text
  pub source_url : Text
  pub tags : List Text
  pub section_type : Text
  pub text : Text
  pub rank : ℕ
  pub bm25_score : Option ℕ
  pub vector_score : Option ℕ
  pub fusion_score : ℕ
  pub reranker_score : Option ℕ
  pub final_score : ℕ
  pub saved : Bool

pub record ContextSource : Type 0 where
  pub citation_index : ℕ
  pub chunk_id : ℕ
  pub document_id : ℕ
  pub title : Text
  pub source_url : Text
  pub tags : List Text
  pub section_type : Text
  pub passage : Text
  pub rank : ℕ
  pub bm25_score : Option ℕ
  pub vector_score : Option ℕ
  pub fusion_score : ℕ
  pub reranker_score : Option ℕ
  pub final_score : ℕ
  pub saved : Bool

pub record BuiltContext : Type 0 where
  pub text : Text
  pub sources : List ContextSource
  pub token_count : ℕ

-- The fields of `ContextBuilder`.
pub record ContextBuilder : Type 0 where
  pub token_budget : ℕ
  pub max_sources : ℕ
  pub max_chunks_per_document : ℕ

-- `_source_block`, of a passage its title, tags and section.
unfoldable pub source_block : ℕ → Text → List Text → Text → Text → Text
unfolding decimal join
source_block index title tags section_type text =
    codes "<source id=\""
    ++ decimal index
    ++ codes "\">\n"
    ++ codes "Цитата: ["
    ++ decimal index
    ++ codes "]\n"
    ++ codes "Заголовок: "
    ++ title
    ++ codes "\n"
    ++ codes "Теги: "
    ++ join (codes ", ") tags
    ++ codes "\n"
    ++ codes "Раздел: "
    ++ section_type
    ++ codes "\n"
    ++ codes "<<<SOURCE_DATA>>>\n"
    ++ text
    ++ codes "\n"
    ++ codes "<<<END_SOURCE_DATA>>>\n"
    ++ codes "</source>"

abbrev pub is_some : {A : Type 0} → Option A → Bool
is_some none = false
is_some (some a) = true

-- \[(\d{1,4})\] at the head of a text: the digits, where they are followed by the bracket.
unfoldable pub citation_digits : Unicode → Text → Option Text
unfolding digit_value span
citation_digits u [] = none
citation_digits u (c ∷ cs) =
    let n = span (λ d. is_some (digit_value u d)) cs in
    if c == b'[' && leb 1 n && leb n 4
    then elim (drop n cs) [ [] ↦ none | d ∷ ds ↦ if d == b']' then some (take n cs) else none ]
    else none

-- The match with its replacement 〔\1〕.
unfoldable pub escape_matcher : Unicode → Matcher
unfolding citation_digits
escape_matcher u before t = elim (citation_digits u t) [
  | none ↦ none
  | some digits ↦ some (suc (length digits), codes "〔" ++ digits ++ codes "〕")
]

unfoldable pub escape_source_citations : Unicode → Text → Text
unfolding escape_matcher sub
escape_source_citations u text = sub u (escape_matcher u) text

unfoldable pub dedup_text : Unicode → Text → Text
unfolding casefold split join
dedup_text u text = join (codes " ") (split (casefold u text))

-- `_overlaps`; the sort by length is stable.
unfoldable pub overlaps : Text → Text → Bool
unfolding text_eq contains
overlaps value previous =
    let in_order = leb (length value) (length previous) in
    let shorter = if in_order then value else previous in
    let longer = if in_order then previous else value in
    text_eq value previous || (leb 80 (length shorter) && contains shorter longer)

-- `text.rfind("\n", 0, end)`, of a text that is cut at `end`; `none` is -1.
unfoldable pub rfind_newline : Text → Option ℕ
rfind_newline [] = none
rfind_newline (c ∷ cs) = elim (rfind_newline cs) [
  | none ↦ if c == b'\n' then some 0 else none
  | some i ↦ some (suc i)
]

unfoldable pub cut_at : Text → ℕ → ℕ
unfolding rfind_newline
cut_at text max_characters = elim (rfind_newline (take max_characters text)) [
  | none ↦ max_characters
  | some boundary ↦ if leb (max_characters / 2) boundary then boundary else max_characters
]

unfoldable pub truncate : Text → ℕ → Text
unfolding cut_at rstrip
truncate text max_characters =
    if leb (length text) max_characters
    then text
    else rstrip (take (cut_at text max_characters) text) ++ codes "\n… [фрагмент сокращён]"

unfoldable pub tokens : Text → ℕ
tokens text = max 1 ((length text + 3) / 4)

-- An entry of `grouped`.
pub record Group : Type 0 where
  pub document : ℕ
  pub passages : List RetrievedPassage

-- `grouped.setdefault(document_id, [])`
unfoldable pub set_default : ℕ → List Group → List Group
set_default document [] = record { document = document; passages = [] } ∷ []
set_default document (g ∷ gs) =
    if g.document == document then g ∷ gs else g ∷ set_default document gs

-- `len(grouped[document_id])`
unfoldable pub group_size : ℕ → List Group → ℕ
group_size document [] = 0
group_size document (g ∷ gs) =
    if g.document == document then length g.passages else group_size document gs

-- `grouped[document_id].append(passage)`
unfoldable pub append_to : RetrievedPassage → List Group → List Group
append_to p [] = []
append_to p (g ∷ gs) =
    if g.document == p.document_id
    then record g { passages = g.passages ++ (p ∷ []) } ∷ gs
    else g ∷ append_to p gs

unfoldable pub ranks_before : RetrievedPassage → RetrievedPassage → Bool
ranks_before a b = ltb a.rank b.rank || (a.rank == b.rank && ltb a.chunk_id b.chunk_id)

abbrev pub is_empty : Text → Bool
is_empty [] = true
is_empty (c ∷ cs) = false

-- The first loop of `build`.
unfoldable pub collect : Unicode → ℕ → List RetrievedPassage → List Group → List Text → List Group
unfolding dedup_text overlaps set_default group_size append_to
collect u max_chunks [] grouped seen = grouped
collect u max_chunks (p ∷ ps) grouped seen =
    let normalized = dedup_text u p.text in
    let groups = set_default p.document_id grouped in
    let skipped = collect u max_chunks ps grouped seen in
    let full = collect u max_chunks ps groups seen in
    let added = collect u max_chunks ps (append_to p groups) (seen ++ (normalized ∷ [])) in
    if is_empty normalized || any (λ previous. overlaps normalized previous) seen
    then skipped
    else (if leb max_chunks (group_size p.document_id groups) then full else added)

-- The variables of the second loop.
pub record Building : Type 0 where
  pub sources : List ContextSource
  pub blocks : List Text
  pub used_tokens : ℕ

unfoldable pub passage_text : List RetrievedPassage → Text
unfolding join strip
passage_text group =
    join (codes "\n\n")
      (map (λ item. strip item.text) (filter (λ item. not (is_empty (strip item.text))) group))

abbrev pub source_of : ℕ → RetrievedPassage → Text → ContextSource
source_of citation best passage = record {
  citation_index = citation;
  chunk_id = best.chunk_id;
  document_id = best.document_id;
  title = best.title;
  source_url = best.source_url;
  tags = best.tags;
  section_type = best.section_type;
  passage = passage;
  rank = best.rank;
  bm25_score = best.bm25_score;
  vector_score = best.vector_score;
  fusion_score = best.fusion_score;
  reranker_score = best.reranker_score;
  final_score = best.final_score;
  saved = best.saved;
}

-- The source, its block and the tokens are added; `continue` leaves the state as it is.
unfoldable pub add_source : RetrievedPassage → Text → Building → Building
unfolding source_block tokens
add_source best passage s =
    let citation = suc (length s.sources) in
    let block = source_block citation best.title best.tags best.section_type passage in
    record {
      sources = s.sources ++ (source_of citation best passage ∷ []);
      blocks = s.blocks ++ (block ∷ []);
      used_tokens = s.used_tokens + tokens block;
    }

-- The body of the second loop after `best = group[0]`.
unfoldable pub place : ℕ → RetrievedPassage → Text → Building → Building
unfolding source_block tokens truncate add_source
place token_budget best safe_passage s =
    let block =
      source_block (suc (length s.sources)) best.title best.tags best.section_type safe_passage in
    let remaining = token_budget - s.used_tokens in
    if ltb token_budget (s.used_tokens + tokens block)
    then (if ltb remaining 40 then s else add_source best (truncate safe_passage (remaining * 4)) s)
    else add_source best safe_passage s

-- `group[0]`
abbrev pub first_of : List RetrievedPassage → Result RetrievedPassage
first_of [] = err index_error
first_of (p ∷ ps) = ok p

-- The second loop of `build`.
unfoldable pub fill : Unicode → ContextBuilder → List Group → Building → Result Building
unfolding passage_text escape_source_citations place
fill u b [] s = ok s
fill u b (g ∷ gs) s =
    if leb b.max_sources (length s.sources)
    then ok s
    else (first_of g.passages >>= λ best.
        fill u b gs
          (place b.token_budget best (escape_source_citations u (passage_text g.passages)) s))

-- `ContextBuilder.build`
unfoldable pub build : Unicode → ContextBuilder → List RetrievedPassage → Result BuiltContext
unfolding collect ranks_before fill join
build u b passages =
    let groups = collect u b.max_chunks_per_document (sort ranks_before passages) [] [] in
    fill u b groups (record { sources = []; blocks = []; used_tokens = 0 }) >>= λ s. ok (record {
      text = join (codes "\n\n") s.blocks;
      sources = s.sources;
      token_count = s.used_tokens;
    })
