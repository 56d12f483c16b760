-- ===== src/Citations/Indexes.antt =====
-- The indexes that a validation reports are the citations of the answer, in order and sorted out.
use praktika.Prelude.{
  take, ℕ, zero, suc, ◌≤◌, ◌<◌, ◌≡◌, refl, ◌⊎◌, inl, inr, true, false, ◌&&◌, none, some, List, [],
  ◌∷◌, arith, leb, ltb, ◌==◌, length, All, All-weaken, Bool-cases, Option-cases,
}
use praktika.Text.{Text, Unicode}
use praktika.Table.Members.{In}
use praktika.Context.{citation_digits}
use praktika.Citations.{Scan, int_of, add_index, replace, scan, is_nil, validate_citations}

-- The citations of a text from left to right, as often as they stand there.
unfoldable pub citations : Unicode → ℕ → Text → List ℕ
unfolding citation_digits int_of
citations u skip [] = []
citations u (suc skip) (c ∷ cs) = citations u skip cs
citations u zero (c ∷ cs) = elim (citation_digits u (c ∷ cs)) [
  | none ↦ citations u zero cs
  | some digits ↦ int_of u 0 digits ∷ citations u (suc (length digits)) cs
]

abbrev pub IsAscending : List ℕ → Type 0
IsAscending [] = Unit {0}
IsAscending (i ∷ is) = All (λ j. i < j) is × IsAscending is

add_index-All : (P : ℕ → Type 0) (i : ℕ) (is : List ℕ) → P i → All P is → All P (add_index i is)
unfolding add_index
add_index-All P i [] p h = (p, tt)
add_index-All P i (j ∷ js) p h = elim (Bool-cases (ltb i j)) [
  | inl less ↦ rw less (p, h)
  | inr more ↦ elim (Bool-cases (i == j)) [
    | inl same ↦ rw (more, same) h
    | inr other ↦ rw (more, other) (h.0, add_index-All P i js p h.1)
  ]
]

add_index-IsAscending : (i : ℕ) (is : List ℕ) → IsAscending is → IsAscending (add_index i is)
unfolding add_index
add_index-IsAscending i [] h = (tt, tt)
add_index-IsAscending i (j ∷ js) h = elim (Bool-cases (ltb i j)) [
  | inl less ↦
      rw less ((ground arith, All-weaken _ _ (λ k after. below i j k less after) js h.0), h)
  | inr more ↦ elim (Bool-cases (i == j)) [
    | inl same ↦ rw (more, same) h
    | inr other ↦
        rw (more, other)
          (add_index-All (λ k. j < k) i js (ground arith) h.0, add_index-IsAscending i js h.1)
  ]
]
  where
    below : (i j k : ℕ) → ltb i j ≡ true → j < k → i < k
    below i j k less after = ground arith

add_index-In : (i k : ℕ) (is : List ℕ) → (k ≡ i) ⊎ In k is → In k (add_index i is)
unfolding add_index
add_index-In i k [] h = h
add_index-In i k (j ∷ js) h = elim (Bool-cases (ltb i j)) [
  | inl less ↦ rw less h
  | inr more ↦ elim (Bool-cases (i == j)) [
    | inl same ↦ rw (more, same) (elim h [ inl q ↦ inl (ground arith) | inr r ↦ r ])
    | inr other ↦
        rw (more, other)
          (elim h [
            | inl q ↦ inr (add_index-In i k js (inl q))
            | inr (inl q) ↦ inl q
            | inr (inr r) ↦ inr (add_index-In i k js (inr r))
          ])
  ]
]

abbrev pub InRange : ℕ → ℕ → Type 0
InRange allowed_count i = (1 ≤ i) × (i ≤ allowed_count)

-- The sets of a scan, against the citations that it came by.
record IsSorted (allowed_count : ℕ) (found : List ℕ) (s : Scan) : Type 0 where
  pub cited_order : IsAscending s.cited
  pub invalid_order : IsAscending s.invalid
  pub cited_range : All (λ i. InRange allowed_count i × In i found) s.cited
  pub invalid_range : All (λ i. (¬ InRange allowed_count i) × In i found) s.invalid
  pub complete : All (λ i. In i s.cited ⊎ In i s.invalid) found

deeper :
    (P : ℕ → Type 0) (k : ℕ) (found is : List ℕ)
    → All (λ i. P i × In i found) is
    → All (λ i. P i × In i (k ∷ found)) is
deeper P k found is h = All-weaken _ _ (λ i q. (q.0, inr q.1)) is h

replace-IsSorted :
    (allowed_count index : ℕ) (match : Text) (found : List ℕ) (s : Scan)
    → IsSorted allowed_count found s
    → IsSorted allowed_count (index ∷ found) (replace allowed_count index match s)
unfolding replace
replace-IsSorted allowed_count index match found s h =
    elim (Bool-cases (leb 1 index && leb index allowed_count)) [
      | inl good ↦ rw good (record {
        cited_order = add_index-IsAscending index s.cited h.cited_order;
        invalid_order = h.invalid_order;
        cited_range =
            add_index-All _ index s.cited ((ground arith, ground arith), inl refl)
              (deeper (InRange allowed_count) index found s.cited h.cited_range);
        invalid_range =
            deeper (λ i. ¬ InRange allowed_count i) index found s.invalid h.invalid_range;
        complete = (
          inl (add_index-In index index s.cited (inl refl)),
          All-weaken _ _
              (λ i q. elim q [ inl a ↦ inl (add_index-In index i s.cited (inr a)) | inr b ↦ inr b ])
              found h.complete,
        );
      })
      | inr bad ↦ rw bad (record {
        cited_order = h.cited_order;
        invalid_order = add_index-IsAscending index s.invalid h.invalid_order;
        cited_range = deeper (InRange allowed_count) index found s.cited h.cited_range;
        invalid_range =
            add_index-All _ index s.invalid (out_of_range bad, inl refl)
              (deeper (λ i. ¬ InRange allowed_count i) index found s.invalid h.invalid_range);
        complete = (
          inr (add_index-In index index s.invalid (inl refl)),
          All-weaken _ _
              (λ i q. elim q [
                | inl a ↦ inl a
                | inr b ↦ inr (add_index-In index i s.invalid (inr b))
              ])
              found h.complete,
        );
      })
    ]
  where
    out_of_range : (leb 1 index && leb index allowed_count) ≡ false → ¬ InRange allowed_count index
    out_of_range bad r = ground arith

kept-IsSorted :
    (allowed_count : ℕ) (found : List ℕ) (s : Scan) (text : Text)
    → IsSorted allowed_count found s
    → IsSorted allowed_count found (record s { cleaned = text })
kept-IsSorted allowed_count found s text h = record {
  cited_order = h.cited_order;
  invalid_order = h.invalid_order;
  cited_range = h.cited_range;
  invalid_range = h.invalid_range;
  complete = h.complete;
}

scan-IsSorted :
    (u : Unicode) (allowed_count skip : ℕ) (t : Text)
    → IsSorted allowed_count (citations u skip t) (scan u allowed_count skip t)
unfolding scan citations
scan-IsSorted u allowed_count skip [] = record {
  cited_order = tt;
  invalid_order = tt;
  cited_range = tt;
  invalid_range = tt;
  complete = tt;
}
scan-IsSorted u allowed_count (suc skip) (c ∷ cs) = scan-IsSorted u allowed_count skip cs
scan-IsSorted u allowed_count zero (c ∷ cs) = elim (Option-cases (citation_digits u (c ∷ cs))) [
  | inl plain ↦
      rw (plain, scan, citations)
        (kept-IsSorted allowed_count (citations u zero cs) (scan u allowed_count zero cs) _
          (scan-IsSorted u allowed_count zero cs))
  | inr (digits, cited) ↦
      rw (cited, scan, citations)
        (replace-IsSorted allowed_count (int_of u 0 digits) (c ∷ take (suc (length digits)) cs)
          (citations u (suc (length digits)) cs) _
          (scan-IsSorted u allowed_count (suc (length digits)) cs))
]

-- The cited and the invalid indexes of a validation are each in ascending order without
-- repetition; the cited ones are citations of the answer in the range from 1 to the allowed count,
-- the invalid ones are citations out of it, every citation of the answer is in one of the two, and
-- the answer is valid exactly if there is no invalid one.
pub citations_are_sorted_out :
    (u : Unicode) (answer : Text) (allowed_count : ℕ)
    → let v = validate_citations u answer allowed_count in
      IsAscending v.cited_indexes
      × IsAscending v.invalid_indexes
      × All (λ i. InRange allowed_count i × In i (citations u 0 answer)) v.cited_indexes
      × All (λ i. (¬ InRange allowed_count i) × In i (citations u 0 answer)) v.invalid_indexes
      × All (λ i. In i v.cited_indexes ⊎ In i v.invalid_indexes) (citations u 0 answer)
      × (v.valid ≡ is_nil v.invalid_indexes)
unfolding validate_citations
citations_are_sorted_out u answer allowed_count =
    let h = scan-IsSorted u allowed_count 0 answer in
    (h.cited_order, h.invalid_order, h.cited_range, h.invalid_range, h.complete, refl)
