-- ===== src/Text/Laws.antt =====
-- Facts about the text functions that several components use.
use mathlib.Core.Bool.{false≢true}
use praktika.Prelude.{sym, ◌∙◌, ◌≢◌, ◌≤◌, ◌≡◌, refl, true, false, [], ◌∷◌, arith, length}
use praktika.Text.{Text, text_eq, lstrip, rstrip, strip}

-- The comparison of texts decides their equality.
pub text_eq→eq : (a b : Text) → text_eq a b ≡ true → a ≡ b
unfolding text_eq
text_eq→eq [] [] h = refl
text_eq→eq [] (d ∷ ds) h = cc
text_eq→eq (c ∷ cs) [] h = cc
text_eq→eq (c ∷ cs) (d ∷ ds) h = ground (arith, text_eq→eq cs ds)

pub text_eq_refl : (a : Text) → text_eq a a ≡ true
unfolding text_eq
text_eq_refl [] = refl
text_eq_refl (c ∷ cs) = ground (arith, text_eq_refl cs)

length-lstrip : (t : Text) → length (lstrip t) ≤ length t
unfolding lstrip
length-lstrip [] = omega arith
length-lstrip (c ∷ cs) = ground (arith, length-lstrip cs)

length-rstrip : (t : Text) → length (rstrip t) ≤ length t
unfolding rstrip
length-rstrip [] = omega arith
length-rstrip (c ∷ cs) = ground (arith, length-rstrip cs)

pub length-strip : (t : Text) → length (strip t) ≤ length t
unfolding strip
length-strip t = omega (arith, length-rstrip (lstrip t), length-lstrip t)

pub ne_of_text_eq : (a b : Text) → text_eq a b ≡ false → a ≢ b
ne_of_text_eq a b h e = false≢true (sym h ∙ rw (← e) (text_eq_refl a))
