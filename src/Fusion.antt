-- ===== src/Fusion.antt =====
-- Weighted reciprocal rank fusion: backend/app/search/fusion.py. The floats of Python are a
-- parameter, with the operations that the code applies to them.
pub mod Points
pub mod Tests
use praktika.Prelude.{
  ℕ, suc, ◌+◌, min, Bool, ◌&&◌, ◌||◌, Option, none, some, List, [], ◌∷◌, ltb, ◌==◌, if◌then◌else◌,
  take, Result, ok, value_error, raise_if, ◌>>◌,
}
use praktika.Sanitize.{Fields}
use praktika.Table.{sort}

-- What the code does with floats.
pub record FloatOps (Float : Type 0) : Type 0 where
  pub zero_float : Float
  pub add : Float → Float → Float
  pub divide : Float → ℕ → Float
  pub is_greater : Float → Float → Bool
  pub is_at_most : Float → Float → Bool
  pub is_equal : Float → Float → Bool

pub record RetrievedCandidate (Float : Type 0) : Type 0 where
  pub point_id : ℕ
  pub score : Float
  pub payload : Fields

pub record RankedCandidate (Float : Type 0) : Type 0 where
  pub point_id : ℕ
  pub payload : Fields
  pub bm25_score : Option Float
  pub bm25_rank : Option ℕ
  pub vector_score : Option Float
  pub vector_rank : Option ℕ
  pub fusion_score : Float

-- `rank or 10**9`; ranks begin at 1.
abbrev pub rank_or_last : Option ℕ → ℕ
rank_or_last none = 1000000000
rank_or_last (some rank) = rank

module _ {Float : Type 0} (ops : FloatOps Float) where
  -- `rows.setdefault(point_id, _Accumulator(payload=payload))`, and the assignments to the row. The
  -- row has its point's id with it, as the list that is made of it has.
  unfoldable pub change_row :
      ℕ
      → Fields
      → (RankedCandidate Float → RankedCandidate Float)
      → List (RankedCandidate Float)
      → List (RankedCandidate Float)
  change_row point_id payload f [] =
      f (record {
        point_id = point_id;
        payload = payload;
        bm25_score = none;
        bm25_rank = none;
        vector_score = none;
        vector_rank = none;
        fusion_score = ops.zero_float;
      })
      ∷ []
  change_row point_id payload f (row ∷ rows) =
      let rest = change_row point_id payload f rows in
      if row.point_id == point_id then f row ∷ rows else row ∷ rest

  abbrev pub set_bm25 : Float → ℕ → ℕ → Float → RankedCandidate Float → RankedCandidate Float
  set_bm25 weight k rank score row = record row {
    bm25_score = some score;
    bm25_rank = some rank;
    fusion_score = ops.add row.fusion_score (ops.divide weight (k + rank));
  }

  abbrev pub set_vector : Float → ℕ → ℕ → Float → RankedCandidate Float → RankedCandidate Float
  set_vector weight k rank score row = record row {
    vector_score = some score;
    vector_rank = some rank;
    fusion_score = ops.add row.fusion_score (ops.divide weight (k + rank));
  }

  -- Either loop, from a rank on, with its assignments.
  unfoldable pub add_ranked :
      (ℕ → Float → RankedCandidate Float → RankedCandidate Float)
      → ℕ
      → List (RetrievedCandidate Float)
      → List (RankedCandidate Float)
      → List (RankedCandidate Float)
  unfolding change_row
  add_ranked set_row rank [] rows = rows
  add_ranked set_row rank (c ∷ cs) rows =
      add_ranked set_row (suc rank) cs (change_row c.point_id c.payload (set_row rank c.score) rows)

  -- The sort key, compared as Python compares tuples: by the first parts that are not equal, so that
  -- a score that is not a number is before no other. The texts of UUIDs are in the order of their
  -- numbers.
  unfoldable pub ranks_before : RankedCandidate Float → RankedCandidate Float → Bool
  ranks_before a b =
      let best_a = min (rank_or_last a.bm25_rank) (rank_or_last a.vector_rank) in
      let best_b = min (rank_or_last b.bm25_rank) (rank_or_last b.vector_rank) in
      if ops.is_equal a.fusion_score b.fusion_score
      then ltb best_a best_b || (best_a == best_b && ltb a.point_id b.point_id)
      else ops.is_greater a.fusion_score b.fusion_score

  abbrev pub is_bad_configuration : ℕ → ℕ → Float → Float → Bool
  is_bad_configuration k limit bm25_weight vector_weight =
      ltb k 1
      || ltb limit 1
      || ops.is_at_most bm25_weight ops.zero_float
      || ops.is_at_most vector_weight ops.zero_float

  -- `sort` puts a list in order as Python does wherever the order is total, that is, as long as every
  -- score is a number.
  unfoldable pub weighted_rrf :
      List (RetrievedCandidate Float)
      → List (RetrievedCandidate Float)
      → ℕ
      → Float
      → Float
      → ℕ
      → Result (List (RankedCandidate Float))
  unfolding add_ranked ranks_before
  weighted_rrf bm25 vector k bm25_weight vector_weight limit =
      raise_if (is_bad_configuration k limit bm25_weight vector_weight) value_error
      >> ok (
          take limit (
            sort ranks_before (
              add_ranked (set_vector vector_weight k) 1 vector
                (add_ranked (set_bm25 bm25_weight k) 1 bm25 []))))
