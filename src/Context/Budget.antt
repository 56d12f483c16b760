-- ===== src/Context/Budget.antt =====
-- The sources of a context: their numbers, their blocks, and what they cost.
use praktika.Prelude.{
  ◌||◌, ℕ, suc, ◌+◌, ◌-◌, ◌≤◌, ◌<◌, ◌≡◌, refl, sym, ap, ◌∙◌, ◌⊎◌, inl, inr, List, [], ◌∷◌, ◌++◌,
  arith, leb, ltb, ◌==◌, length, length-append, All, ok, bind_ok, Bool-cases, any,
}
use praktika.Text.{Text, Unicode, codes, join}
use praktika.Table.{sort}
use praktika.Context.{
  RetrievedPassage, ContextSource, BuiltContext, ContextBuilder, Building, Group, source_block,
  tokens, place, add_source, fill, build, collect, set_default, group_size, append_to, is_empty,
  overlaps, dedup_text, ranks_before, passage_text, escape_source_citations, source_of, first_of,
}

-- The block that stands for a source in the context's text.
abbrev pub block_of : ContextSource → Text
block_of s = source_block s.citation_index s.title s.tags s.section_type s.passage

abbrev pub blocks_of : List ContextSource → List Text
blocks_of [] = []
blocks_of (s ∷ ss) = block_of s ∷ blocks_of ss

abbrev pub cost : List ContextSource → ℕ
cost [] = 0
cost (s ∷ ss) = tokens (block_of s) + cost ss

-- The citation indexes count up from `k`.
abbrev pub AreNumbered : ℕ → List ContextSource → Type 0
AreNumbered k [] = Unit {0}
AreNumbered k (s ∷ ss) = (s.citation_index ≡ k) × AreNumbered (suc k) ss

-- The sources keep the budget, or all but the last of them do.
abbrev pub KeepsBudget : ℕ → List ContextSource → Type 0
KeepsBudget budget sources =
    (cost sources ≤ budget)
    ⊎ ((kept : List ContextSource) × (last : ContextSource) × (sources ≡ kept ++ (last ∷ []))
        × (cost kept ≤ budget))

blocks_of-append :
    (ss : List ContextSource) (s : ContextSource)
    → blocks_of (ss ++ (s ∷ [])) ≡ blocks_of ss ++ (block_of s ∷ [])
blocks_of-append [] s = refl
blocks_of-append (t ∷ ts) s = ap (λ r. block_of t ∷ r) (blocks_of-append ts s)

cost-append :
    (ss : List ContextSource) (s : ContextSource)
    → cost (ss ++ (s ∷ [])) ≡ cost ss + tokens (block_of s)
cost-append [] s = omega arith
cost-append (t ∷ ts) s = omega (arith, cost-append ts s)

AreNumbered-append :
    (k : ℕ) (ss : List ContextSource) (s : ContextSource)
    → AreNumbered k ss
    → s.citation_index ≡ k + length ss
    → AreNumbered k (ss ++ (s ∷ []))
AreNumbered-append k [] s h e = (e ∙ omega arith, tt)
AreNumbered-append k (t ∷ ts) s h e = (h.0, AreNumbered-append (suc k) ts s h.1 (e ∙ omega arith))

record IsBuilt (budget max_sources : ℕ) (s : Building) : Type 0 where
  pub numbered : AreNumbered 1 s.sources
  pub bounded : length s.sources ≤ max_sources
  pub written : s.blocks ≡ blocks_of s.sources
  pub counted : s.used_tokens ≡ cost s.sources
  pub within : KeepsBudget budget s.sources

module _ (budget max_sources : ℕ) where
  add_source-IsBuilt :
      (best : RetrievedPassage) (passage : Text) (s : Building)
      → length s.sources < max_sources
      → cost s.sources ≤ budget
      → IsBuilt budget max_sources s
      → IsBuilt budget max_sources (add_source best passage s)
  unfolding add_source
  add_source-IsBuilt best passage s room within b =
      let ss = s.sources in
      let new = source_of (suc (length ss)) best passage in
      record {
        numbered = AreNumbered-append 1 ss new b.numbered (omega arith);
        bounded = omega (arith, length-append ss (new ∷ []));
        written = ap (λ r. r ++ (block_of new ∷ [])) b.written ∙ sym (blocks_of-append ss new);
        counted = ap (λ n. n + tokens (block_of new)) b.counted ∙ sym (cost-append ss new);
        within = inr (ss, new, refl, within);
      }

  place-IsBuilt :
      (best : RetrievedPassage) (passage : Text) (s : Building)
      → length s.sources < max_sources
      → IsBuilt budget max_sources s
      → IsBuilt budget max_sources (place budget best passage s)
  unfolding place
  place-IsBuilt best passage s room b =
      let block =
        source_block (suc (length s.sources)) best.title best.tags best.section_type passage in
      elim (Bool-cases (ltb budget (s.used_tokens + tokens block))) [
        | inl over ↦ elim (Bool-cases (ltb (budget - s.used_tokens) 40)) [
          | inl little ↦ rw (over, little) b
          | inr enough ↦
              rw (over, enough) (add_source-IsBuilt best _ s room (ground (arith, b.counted)) b)
        ]
        | inr fits ↦ rw fits (add_source-IsBuilt best passage s room (ground (arith, b.counted)) b)
      ]

first_of_filled :
    (ps : List RetrievedPassage)
    → 1 ≤ length ps
    → (best : RetrievedPassage) × (first_of ps ≡ ok best)
first_of_filled [] h = absurd (omega arith)
first_of_filled (p ∷ ps) h = (p, refl)

module _ (u : Unicode) (b : ContextBuilder) where
  fill-IsBuilt :
      (gs : List Group) (s : Building)
      → All (λ g. 1 ≤ length g.passages) gs
      → IsBuilt b.token_budget b.max_sources s
      → (s' : Building) × (fill u b gs s ≡ ok s') × IsBuilt b.token_budget b.max_sources s'
  unfolding fill
  fill-IsBuilt [] s filled h = (s, refl, h)
  fill-IsBuilt (g ∷ gs) s filled h = elim (Bool-cases (leb b.max_sources (length s.sources))) [
    | inl full ↦ (s, rw full refl, h)
    | inr room ↦
        let (best, found) = first_of_filled g.passages filled.0 in
        let passage = escape_source_citations u (passage_text g.passages) in
        let (s', e, h') =
          fill-IsBuilt gs (place b.token_budget best passage s) filled.1
            (place-IsBuilt b.token_budget b.max_sources best passage s (ground arith) h) in
        (s', rw room (bind_ok (first_of g.passages) _ best found ∙ e), h')
  ]

set_default-filled :
    (d : ℕ) (gs : List Group)
    → All (λ g. 1 ≤ length g.passages) gs
    → 1 ≤ group_size d (set_default d gs)
    → All (λ g. 1 ≤ length g.passages) (set_default d gs)
unfolding set_default group_size
set_default-filled d [] f h = ground arith
set_default-filled d (g ∷ gs) f h = ground (arith, set_default-filled d gs)

append_to-filled :
    (p : RetrievedPassage) (gs : List Group)
    → All (λ g. 1 ≤ length g.passages) gs
    → All (λ g. 1 ≤ length g.passages) (append_to p (set_default p.document_id gs))
unfolding set_default append_to
append_to-filled p [] f = ground arith
append_to-filled p (g ∷ gs) f = elim (Bool-cases (g.document == p.document_id)) [
  | inl same ↦ rw (same, same) (omega (arith, length-append g.passages (p ∷ [])), f.1)
  | inr other ↦ rw (other, other) (f.0, append_to-filled p gs f.1)
]

-- Every group that the first loop leaves has a passage.
collect-filled :
    (u : Unicode) (max_chunks : ℕ) (ps : List RetrievedPassage) (grouped : List Group)
    (seen : List Text)
    → 1 ≤ max_chunks
    → All (λ g. 1 ≤ length g.passages) grouped
    → All (λ g. 1 ≤ length g.passages) (collect u max_chunks ps grouped seen)
unfolding collect
collect-filled u max_chunks [] grouped seen some_room f = f
collect-filled u max_chunks (p ∷ ps) grouped seen some_room f =
    elim (Bool-cases (
      is_empty (dedup_text u p.text)
      || any (λ previous. overlaps (dedup_text u p.text) previous) seen)) [
        | inl skip ↦ rw skip (collect-filled u max_chunks ps grouped seen some_room f)
        | inr fresh ↦
            elim (Bool-cases
              (leb max_chunks (group_size p.document_id (set_default p.document_id grouped)))) [
                | inl full ↦
                    rw (fresh, full)
                      (collect-filled u max_chunks ps (set_default p.document_id grouped) seen
                        some_room (set_default-filled p.document_id grouped f (ground arith)))
                | inr room ↦
                    rw (fresh, room)
                      (collect-filled u max_chunks ps _ _ some_room (append_to-filled p grouped f))
              ]
      ]

-- With room for a chunk in each document, `build` returns: the sources are numbered from 1 without
-- a gap, there are no more than the limit, the text is the blocks of the sources in their order,
-- and the token count is the sum of what the blocks cost. All sources but the last keep the token
-- budget; the last, which may have been shortened, is the only one that may exceed it.
pub build-KeepsBudget :
    (u : Unicode) (b : ContextBuilder) (passages : List RetrievedPassage)
    → 1 ≤ b.max_chunks_per_document
    → (c : BuiltContext) × (build u b passages ≡ ok c)
      × AreNumbered 1 c.sources
      × (length c.sources ≤ b.max_sources)
      × (c.text ≡ join (codes "\n\n") (blocks_of c.sources))
      × (c.token_count ≡ cost c.sources)
      × KeepsBudget b.token_budget c.sources
unfolding build
build-KeepsBudget u b passages room =
    let groups = collect u b.max_chunks_per_document (sort ranks_before passages) [] [] in
    let start : Building = record { sources = []; blocks = []; used_tokens = 0 } in
    let (s, e, h) =
      fill-IsBuilt u b groups start
        (collect-filled u b.max_chunks_per_document (sort ranks_before passages) [] [] room tt)
        (record {
          numbered = tt;
          bounded = omega arith;
          written = refl;
          counted = refl;
          within = inl (omega arith);
        }) in
    (
      _,
      bind_ok (fill u b groups start) _ s e,
      h.numbered,
      h.bounded,
      ap (join (codes "\n\n")) h.written,
      h.counted,
      h.within,
    )
