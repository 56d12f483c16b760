-- ===== src/Context/Tests.antt =====
-- A context of one long passage.
use praktika.Prelude.{
  ℕ, zero, suc, ◌≤◌, ◌≡◌, refl, Bool, true, false, none, [], ◌∷◌, arith, length, ok, err, ltb,
  Result,
}
use praktika.Text.{
  Unicode, Text, codes, join, decimal, casefold, split, strip, rstrip, contains, text_eq,
  digit_value, span, sub,
}
use praktika.Table.{sort}
use praktika.Context.{
  RetrievedPassage, BuiltContext, ContextBuilder, build, truncate, escape_source_citations,
  source_block, tokens, collect, place, fill, add_source, dedup_text, overlaps, set_default,
  group_size, append_to, ranks_before, passage_text, rfind_newline, cut_at, citation_digits,
}
use praktika.Context.Budget.{AreNumbered, blocks_of, cost, KeepsBudget, build-KeepsBudget}

abbrev ascii : Unicode
ascii = record {
  wide_word = λ _. false;
  wide_upper = λ c. c ∷ [];
  wide_casefold = λ c. c ∷ [];
  wide_digit = λ _. none;
}

-- `"x" * n`
abbrev xs : ℕ → Text
xs zero = []
xs (suc n) = b'x' ∷ xs n

abbrev passage : RetrievedPassage
passage = record {
  chunk_id = 1;
  document_id = 1;
  title = codes "T";
  source_url = [];
  tags = [];
  section_type = codes "Q";
  text = xs 200;
  rank = 1;
  bm25_score = none;
  vector_score = none;
  fusion_score = 0;
  reranker_score = none;
  final_score = 0;
  saved = false;
}

abbrev builder : ContextBuilder
builder = record { token_budget = 45; max_sources = 3; max_chunks_per_document = 1 }

-- Does the context cost more than the budget?
abbrev exceeds : ContextBuilder → Result BuiltContext → Bool
exceeds b (err e) = false
exceeds b (ok c) = ltb b.token_budget c.token_count

-- The source's own brackets are not read as citations.
brackets_escaped :
    escape_source_citations ascii (codes "a [1] [x] [12345]") ≡ codes "a 〔1〕 [x] [12345]"
unfolding escape_source_citations sub citation_digits digit_value span
brackets_escaped = refl

-- The shortened passage keeps to 4 * 45 characters, but the lines around it come on top.
over_budget : exceeds builder (build ascii builder (passage ∷ [])) ≡ true
unfolding build collect place fill add_source dedup_text overlaps set_default group_size append_to
    ranks_before passage_text rfind_newline cut_at truncate escape_source_citations source_block
    tokens sort join decimal casefold split strip rstrip contains text_eq digit_value span sub
    citation_digits
over_budget = refl

build-KeepsBudget_example :
    (c : BuiltContext) × (build ascii builder (passage ∷ []) ≡ ok c)
    × AreNumbered 1 c.sources
    × (length c.sources ≤ 3)
    × (c.text ≡ join (codes "\n\n") (blocks_of c.sources))
    × (c.token_count ≡ cost c.sources)
    × KeepsBudget 45 c.sources
build-KeepsBudget_example = build-KeepsBudget ascii builder (passage ∷ []) (omega arith)
