-- ===== src/Chunking/Tokens.antt =====
-- How many tokens the pieces of a text have that `ApproximateTokenCounter` cuts.
use praktika.Prelude.{
  ℕ, zero, suc, ◌+◌, ◌≤◌, ◌≡◌, Bool, true, false, [], ◌∷◌, ◌++◌, arith, leb, ltb, if◌then◌else◌,
  Bool-cases, inl, inr, take, drop, All,
}
use mathlib.Core.List.{append_assoc}
use praktika.Text.{Text, Unicode, is_space, is_word, strip, lstrip, rstrip}
use praktika.Chunking.{TokenCounter}
use praktika.Chunking.Blocks.{fenced}
use praktika.Chunking.Counter.{approximate, count_from, count, end_of, start_of, split_from, split}

module _ (u : Unicode) where
  -- A text up to the end of its token number `n` has no more than `n` tokens.
  pub count-end_of :
      (n : ℕ) (inside : Bool) (t : Text) → count_from u inside (take (end_of u n inside t) t) ≤ n
  unfolding count_from end_of
  count-end_of n inside [] = omega arith
  count-end_of zero inside (c ∷ cs) = ground (arith, count-end_of zero true cs)
  count-end_of (suc n) inside (c ∷ cs) = ground (
    arith,
    count-end_of (suc n) true cs,
    count-end_of n true cs,
    count-end_of (suc n) false cs,
    count-end_of n false cs,
  )

  -- From the start of token number `n` on there are `n` tokens fewer.
  pub count-start_of :
      (n : ℕ) (inside : Bool) (t : Text)
      → n ≤ count_from u inside t
      → count_from u false (drop (start_of u n inside t) t) + n ≡ count_from u inside t
  unfolding count_from start_of
  count-start_of n inside [] h = omega arith
  count-start_of zero inside (c ∷ cs) h =
      ground (arith, count-start_of zero true cs, count-start_of zero false cs)
  count-start_of (suc n) inside (c ∷ cs) h = ground (
    arith,
    count-start_of (suc n) true cs,
    count-start_of n true cs,
    count-start_of (suc n) false cs,
    count-start_of n false cs,
  )

  -- Whether a word goes on matters for one token at most.
  count_inside :
      (t : Text)
      → (count_from u true t ≤ count_from u false t)
        × (count_from u false t ≤ suc (count_from u true t))
  unfolding count_from
  count_inside [] = omega arith
  count_inside (c ∷ cs) = elim (Bool-cases (is_word u c)) [
    | inl word ↦ rw word (omega arith)
    | inr other ↦ rw other (omega arith)
  ]

  count-skip : (c : ℕ) (cs : Text) → count_from u false cs ≤ count_from u false (c ∷ cs)
  unfolding count_from
  count-skip c cs = elim (Bool-cases (is_word u c)) [
    | inl word ↦ rw word (count_inside cs).1
    | inr other ↦ elim (Bool-cases (is_space c)) [
      | inl space ↦ rw (other, space) (omega arith)
      | inr sign ↦ rw (other, sign) (omega arith)
    ]
  ]

  count-lstrip : (t : Text) → count_from u false (lstrip t) ≤ count_from u false t
  unfolding lstrip
  count-lstrip [] = omega arith
  count-lstrip (c ∷ cs) = elim (Bool-cases (is_space c)) [
    | inl space ↦ rw space (omega (arith, count-lstrip cs, count-skip c cs))
    | inr other ↦ rw other (omega arith)
  ]

  count-grow :
      (inside : Bool) (c : ℕ) (xs ys : Text)
      → count_from u true xs ≤ count_from u true ys
      → count_from u false xs ≤ count_from u false ys
      → count_from u inside (c ∷ xs) ≤ count_from u inside (c ∷ ys)
  unfolding count_from
  count-grow inside c xs ys h k = elim (Bool-cases (is_word u c)) [
    | inl word ↦ rw word (ground arith)
    | inr other ↦ elim (Bool-cases (is_space c)) [
      | inl space ↦ rw (other, space) k
      | inr sign ↦ rw (other, sign) (omega (arith, k))
    ]
  ]

  closed :
      (inside : Bool) (c : ℕ) (rest : Text)
      → count_from u inside (elim rest as (λ x. Text) [
        | [] ↦ if is_space c then [] else c ∷ []
        | r ∷ rs ↦ c ∷ r ∷ rs
      ])
        ≤ count_from u inside (c ∷ rest)
  unfolding count_from
  closed inside c [] = elim (Bool-cases (is_space c)) [
    | inl space ↦ rw space (omega arith)
    | inr other ↦ rw other (ground arith)
  ]
  closed inside c (r ∷ rs) = omega arith

  count-rstrip : (inside : Bool) (t : Text) → count_from u inside (rstrip t) ≤ count_from u inside t
  unfolding rstrip
  count-rstrip inside [] = omega arith
  count-rstrip inside (c ∷ cs) = omega (
    arith,
    closed inside c (rstrip cs),
    count-grow inside c (rstrip cs) cs (count-rstrip true cs) (count-rstrip false cs),
  )

  pub count-strip : (t : Text) → count u (strip t) ≤ count u t
  unfolding count strip
  count-strip t = omega (arith, count-rstrip false (lstrip t), count-lstrip t)

  pub split_from-fits :
      (rounds n : ℕ) (value : Text)
      → 1 ≤ n
      → count u value ≤ rounds
      → All (λ part. count u part ≤ n) (split_from u rounds n value)
  unfolding split_from count
  split_from-fits zero n value one few = (omega (arith, count-strip value), tt)
  split_from-fits (suc rounds) n value one few = elim (Bool-cases (ltb n (count u value))) [
    | inl more ↦ rw more (
      omega (arith, count-strip (take (end_of u n false value) value), count-end_of n false value),
      split_from-fits rounds n (drop (start_of u n false value) value) one
          (ground (arith, more, count-start_of n false value)),
    )
    | inr last ↦ rw last (ground (arith, last, count-strip value), tt)
  ]

  -- For a positive maximum `split` gives parts with no more tokens than that.
  pub split_fits : (value : Text) (n : ℕ) → 1 ≤ n → All (λ part. count u part ≤ n) (split u value n)
  unfolding split
  split_fits value n one = elim (Bool-cases (leb (count u value) 0)) [
    | inl none_ ↦ rw none_ tt
    | inr some_ ↦ rw some_ (split_from-fits (count u value) n value one (omega arith))
  ]

module _ (u : Unicode) where
  -- A line break ends a token.
  count-break :
      (inside : Bool) (xs ys : Text)
      → count_from u inside (xs ++ (10 ∷ ys)) ≡ count_from u inside xs + count_from u false ys
  unfolding count_from is_word is_space
  count-break inside [] ys = omega arith
  count-break inside (c ∷ cs) ys = ground (arith, count-break true cs ys, count-break false cs ys)

  count-fenced :
      (fence language content : Text)
      → count u (fenced fence language content)
        ≡ count u (fenced fence language []) + count u content
  unfolding count
  count-fenced fence language content =
      let body = content ++ (10 ∷ fence) in
      rw
        (← append_assoc fence language (10 ∷ body), ← append_assoc fence language (10 ∷ 10 ∷ fence))
        (omega (
          arith,
          count-break false (fence ++ language) body,
          count-break false content fence,
          count-break false (fence ++ language) (10 ∷ fence),
          count-break false [] fence,
        ))

-- What the chunker relies on in a token counter.
pub record IsLawful (t : TokenCounter) : Type 0 where
  pub strip_le : (value : Text) → t.count (strip value) ≤ t.count value
  pub split_fits : (value : Text) (n : ℕ) → 1 ≤ n → All (λ part. t.count part ≤ n) (t.split value n)
  pub fenced_le :
      (fence language content : Text)
      → t.count (fenced fence language content)
        ≤ t.count (fenced fence language []) + t.count content

-- The approximate counter keeps what the chunker relies on: stripping adds no token, for a positive
-- maximum no part that it cuts has more tokens than that, and a fence round a text costs no more than
-- the fence alone.
pub approximate-IsLawful : (u : Unicode) → IsLawful (approximate u)
approximate-IsLawful u = record {
  strip_le = count-strip u;
  split_fits = split_fits u;
  fenced_le = λ fence language content. omega (arith, count-fenced u fence language content);
}
