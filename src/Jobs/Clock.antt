-- ===== src/Jobs/Clock.antt =====
-- Time and checked arguments: `_resolve_now`, `_later_datetime`, `_require_text`, and the sign
-- tests of jobs.py.
use praktika.Prelude.{
  ℕ, zero, suc, ◌*◌, Option, none, some, [], ◌∷◌, ltb, max, if◌then◌else◌, ℤ, pos, negsuc, length,
  Result, ok, err, value_error, ◌>>=◌,
}
use praktika.Text.{Text, strip}
use praktika.Sanitize.{DateTime, require_aware}

-- `_resolve_now`, with the time that `utc_now` would give.
unfoldable pub resolve_now : ℕ → Option DateTime → Result ℕ
unfolding require_aware
resolve_now utc_now none = ok utc_now
resolve_now utc_now (some d) = require_aware d

-- `_later_datetime`: stored instants carry their timezone.
unfoldable pub later : Option ℕ → ℕ → ℕ
later none candidate = candidate
later (some current) candidate = max current candidate

-- `timedelta(seconds=n)` in microseconds.
unfoldable pub seconds : ℕ → ℕ
seconds n = n * 1_000_000

-- `if n <= 0: raise ValueError`
unfoldable pub positive : ℤ → Result ℕ
positive (pos zero) = err value_error
positive (pos (suc n)) = ok (suc n)
positive (negsuc n) = err value_error

-- `if n < 0: raise ValueError`
unfoldable pub non_negative : ℤ → Result ℕ
non_negative (pos n) = ok n
non_negative (negsuc n) = err value_error

-- The same test where the argument may be absent.
unfoldable pub optional : Option ℤ → Result (Option ℕ)
unfolding non_negative
optional none = ok none
optional (some n) = non_negative n >>= λ m. ok (some m)

-- `_require_text`
unfoldable pub require_text : Text → ℕ → Result Text
unfolding strip
require_text value maximum =
    let normalized = strip value in
    elim normalized [
      | [] ↦ err value_error
      | c ∷ cs ↦ if ltb maximum (length (c ∷ cs)) then err value_error else ok (c ∷ cs)
    ]
