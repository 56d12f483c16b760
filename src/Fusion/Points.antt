-- ===== src/Fusion/Points.antt =====
-- The points that a fusion returns: each once, none lost below the limit.
use mathlib.Core.Path.{subst}
use praktika.Prelude.{
  ℕ, suc, ◌≤◌, ◌≡◌, refl, sym, ap, ◌∙◌, ◌≢◌, ◌⊎◌, inl, inr, true, false, List, [], ◌∷◌, arith, ◌==◌,
  length, length-take, take, All, All-take, Error, ok, err, Bool-cases,
}
use praktika.Sanitize.{Fields}
use praktika.Table.{sort, AreDistinct}
use praktika.Table.Order.{All-sort, AreDistinct-sort, AreDistinct-take}
use praktika.Table.Members.{take_all, In, In-sort, All-In}
use praktika.Fusion.{
  FloatOps, RetrievedCandidate, RankedCandidate, change_row, set_bm25, set_vector, add_ranked,
  ranks_before, is_bad_configuration, weighted_rrf,
}

module _ {Float : Type 0} where
  abbrev pub point : RankedCandidate Float → ℕ
  point r = r.point_id

  -- A row of the point is among the rows.
  abbrev pub HasPoint : ℕ → List (RankedCandidate Float) → Type 0
  HasPoint p rows = (row : RankedCandidate Float) × In row rows × (row.point_id ≡ p)

  -- An update that leaves the point as it is.
  abbrev KeepsPoint : (RankedCandidate Float → RankedCandidate Float) → Type 0
  KeepsPoint f = (row : RankedCandidate Float) → (f row).point_id ≡ row.point_id

module _ {Float : Type 0} (ops : FloatOps Float) where
  change_row-HasPoint :
      (p : ℕ) (payload : Fields) (f : RankedCandidate Float → RankedCandidate Float)
      (rows : List (RankedCandidate Float))
      → KeepsPoint f
      → HasPoint p (change_row ops p payload f rows)
  unfolding change_row
  change_row-HasPoint p payload f [] keeps = (_, inl refl, keeps _)
  change_row-HasPoint p payload f (row ∷ rows) keeps = elim (Bool-cases (row.point_id == p)) [
    | inl here ↦ rw here (f row, inl refl, keeps row ∙ same row.point_id p here)
    | inr there ↦
        let (found, i, e) = change_row-HasPoint p payload f rows keeps in rw there (found, inr i, e)
  ]
    where
      same : (a b : ℕ) → (a == b) ≡ true → a ≡ b
      same a b e = ground arith

  change_row_keeps :
      (p q : ℕ) (payload : Fields) (f : RankedCandidate Float → RankedCandidate Float)
      (rows : List (RankedCandidate Float))
      → KeepsPoint f
      → HasPoint q rows
      → HasPoint q (change_row ops p payload f rows)
  unfolding change_row
  change_row_keeps p q payload f [] keeps (r, i, e) = absurd i
  change_row_keeps p q payload f (row ∷ rows) keeps (r, inl here, e) =
      elim (Bool-cases (row.point_id == p)) [
        | inl same ↦ rw same (f row, inl refl, keeps row ∙ sym (ap point here) ∙ e)
        | inr other ↦ rw other (row, inl refl, sym (ap point here) ∙ e)
      ]
  change_row_keeps p q payload f (row ∷ rows) keeps (r, inr i, e) =
      elim (Bool-cases (row.point_id == p)) [
        | inl same ↦ rw same (r, inr i, e)
        | inr other ↦
            let (found, j, d) = change_row_keeps p q payload f rows keeps (r, i, e) in
            rw other (found, inr j, d)
      ]

  change_row-All :
      (P : ℕ → Type 0) (p : ℕ) (payload : Fields)
      (f : RankedCandidate Float → RankedCandidate Float) (rows : List (RankedCandidate Float))
      → KeepsPoint f
      → P p
      → All (λ r. P (point r)) rows
      → All (λ r. P (point r)) (change_row ops p payload f rows)
  unfolding change_row
  change_row-All P p payload f [] keeps n h = (subst P (sym (keeps _)) n, tt)
  change_row-All P p payload f (row ∷ rows) keeps n h = elim (Bool-cases (row.point_id == p)) [
    | inl same ↦ rw same (subst P (sym (keeps row)) h.0, h.1)
    | inr other ↦ rw other (h.0, change_row-All P p payload f rows keeps n h.1)
  ]

  change_row-AreDistinct :
      (p : ℕ) (payload : Fields) (f : RankedCandidate Float → RankedCandidate Float)
      (rows : List (RankedCandidate Float))
      → KeepsPoint f
      → AreDistinct point rows
      → AreDistinct point (change_row ops p payload f rows)
  unfolding change_row
  change_row-AreDistinct p payload f [] keeps d = (tt, tt)
  change_row-AreDistinct p payload f (row ∷ rows) keeps d = elim (Bool-cases (row.point_id == p)) [
    | inl same ↦ rw same (rw (keeps row) d.0, d.1)
    | inr other ↦ rw other (
      change_row-All (λ q. q ≢ row.point_id) p payload f rows keeps (differ row.point_id p other)
          d.0,
      change_row-AreDistinct p payload f rows keeps d.1,
    )
  ]
    where
      differ : (a b : ℕ) → (a == b) ≡ false → b ≢ a
      differ a b e q = ground arith

  -- One loop: the points of its list are there, those that were there stay, each once.
  module _ (set_row : ℕ → Float → RankedCandidate Float → RankedCandidate Float)
      (keeps : (rank : ℕ) (score : Float) → KeepsPoint (set_row rank score)) where
    add_ranked_keeps :
        (q rank : ℕ) (cs : List (RetrievedCandidate Float)) (rows : List (RankedCandidate Float))
        → HasPoint q rows
        → HasPoint q (add_ranked ops set_row rank cs rows)
    unfolding add_ranked
    add_ranked_keeps q rank [] rows h = h
    add_ranked_keeps q rank (c ∷ cs) rows h =
        add_ranked_keeps q (suc rank) cs _ (
          change_row_keeps c.point_id q c.payload (set_row rank c.score) rows (keeps rank c.score)
            h)

    add_ranked-HasPoint :
        (c : RetrievedCandidate Float) (rank : ℕ) (cs : List (RetrievedCandidate Float))
        (rows : List (RankedCandidate Float))
        → In c cs
        → HasPoint c.point_id (add_ranked ops set_row rank cs rows)
    unfolding add_ranked
    add_ranked-HasPoint c rank [] rows i = absurd i
    add_ranked-HasPoint c rank (d ∷ ds) rows (inl here) =
        add_ranked_keeps c.point_id (suc rank) ds _ (
          subst (λ q. HasPoint q (change_row ops d.point_id d.payload (set_row rank d.score) rows))
            (sym (ap {B = ℕ} (λ r. r.point_id) here))
            (change_row-HasPoint d.point_id d.payload (set_row rank d.score) rows
              (keeps rank d.score)))
    add_ranked-HasPoint c rank (d ∷ ds) rows (inr i) = add_ranked-HasPoint c (suc rank) ds _ i

    add_ranked-All :
        (P : ℕ → Type 0) (rank : ℕ) (cs : List (RetrievedCandidate Float))
        (rows : List (RankedCandidate Float))
        → All (λ c. P c.point_id) cs
        → All (λ r. P (point r)) rows
        → All (λ r. P (point r)) (add_ranked ops set_row rank cs rows)
    unfolding add_ranked
    add_ranked-All P rank [] rows ps h = h
    add_ranked-All P rank (c ∷ cs) rows ps h = add_ranked-All P (suc rank) cs _ ps.1 (
        change_row-All P c.point_id c.payload (set_row rank c.score) rows (keeps rank c.score) ps.0
          h)

    add_ranked-AreDistinct :
        (rank : ℕ) (cs : List (RetrievedCandidate Float)) (rows : List (RankedCandidate Float))
        → AreDistinct point rows
        → AreDistinct point (add_ranked ops set_row rank cs rows)
    unfolding add_ranked
    add_ranked-AreDistinct rank [] rows d = d
    add_ranked-AreDistinct rank (c ∷ cs) rows d = add_ranked-AreDistinct (suc rank) cs _ (
        change_row-AreDistinct c.point_id c.payload (set_row rank c.score) rows (keeps rank c.score)
          d)

-- A candidate of one of the lists has the point.
abbrev pub IsRetrieved :
    {Float : Type 0}
    → List (RetrievedCandidate Float)
    → List (RetrievedCandidate Float)
    → ℕ
    → Type 0
IsRetrieved {Float} bm25 vector p =
    (c : RetrievedCandidate Float) × (In c bm25 ⊎ In c vector) × (c.point_id ≡ p)

module _ {Float : Type 0} (ops : FloatOps Float) where
  -- Where `k` or the limit is below 1, or a weight is at most zero, the fusion is refused with a value
  -- error. Otherwise it returns: no more results than the limit, no point twice, and only points of
  -- the two lists. A candidate of either list is left out only when there are as many results as the
  -- limit.
  pub fusion_loses_no_point :
      (bm25 vector : List (RetrievedCandidate Float)) (k limit : ℕ)
      (bm25_weight vector_weight : Float)
      → ((is_bad_configuration ops k limit bm25_weight vector_weight ≡ true)
          × (weighted_rrf ops bm25 vector k bm25_weight vector_weight limit
              ≡ err Error.value_error))
        ⊎ ((is_bad_configuration ops k limit bm25_weight vector_weight ≡ false)
            × ((results : List (RankedCandidate Float)) × (weighted_rrf ops bm25 vector k
                    bm25_weight vector_weight limit
                  ≡ ok results)
                × (length results ≤ limit)
                × AreDistinct point results
                × All (λ r. IsRetrieved bm25 vector r.point_id) results
                × ((length results ≡ limit)
                    ⊎ (All (λ c. HasPoint c.point_id results) bm25
                        × All (λ c. HasPoint c.point_id results) vector))))
  unfolding weighted_rrf
  fusion_loses_no_point bm25 vector k limit bm25_weight vector_weight =
      elim (Bool-cases (is_bad_configuration ops k limit bm25_weight vector_weight)) [
        | inl bad ↦ inl (bad, rw bad refl)
        | inr good ↦ inr (
          good,
          (
            take limit sorted,
            rw good refl,
            omega (arith, length-take limit sorted),
            AreDistinct-take point limit sorted (
                AreDistinct-sort point (ranks_before ops) rows (
                  add_ranked-AreDistinct ops from_vector (λ r s x. refl) 1 vector _
                    (add_ranked-AreDistinct ops from_bm25 (λ r s x. refl) 1 bm25 [] tt))),
            All-take _ limit sorted (
                All-sort _ (ranks_before ops) rows (
                  add_ranked-All ops from_vector (λ r s x. refl) (IsRetrieved bm25 vector) 1 vector
                    _ (All-In _ vector (λ c i. (c, inr i, refl)))
                    (add_ranked-All ops from_bm25 (λ r s x. refl) (IsRetrieved bm25 vector) 1 bm25
                      [] (All-In _ bm25 (λ c i. (c, inl i, refl))) tt))),
            elim (take_all limit sorted) [
              | inl all_there ↦ inr (
                All-In _ bm25 (λ c i. placed c.point_id all_there (
                    add_ranked_keeps ops from_vector (λ r s x. refl) c.point_id 1 vector _
                      (add_ranked-HasPoint ops from_bm25 (λ r s x. refl) c 1 bm25 [] i))),
                All-In _ vector (λ c i.
                    placed c.point_id all_there
                      (add_ranked-HasPoint ops from_vector (λ r s x. refl) c 1 vector _ i)),
              )
              | inr full ↦ inl full
            ],
          ),
        )
      ]
    where
      from_bm25 : ℕ → Float → RankedCandidate Float → RankedCandidate Float
      from_bm25 = set_bm25 ops bm25_weight k

      from_vector : ℕ → Float → RankedCandidate Float → RankedCandidate Float
      from_vector = set_vector ops vector_weight k

      rows : List (RankedCandidate Float)
      rows = add_ranked ops from_vector 1 vector (add_ranked ops from_bm25 1 bm25 [])

      sorted : List (RankedCandidate Float)
      sorted = sort (ranks_before ops) rows

      placed :
          (p : ℕ) → take limit sorted ≡ sorted → HasPoint p rows → HasPoint p (take limit sorted)
      placed p all_there (r, i, e) =
          subst (HasPoint p) (sym all_there) (r, In-sort (ranks_before ops) rows r i, e)
