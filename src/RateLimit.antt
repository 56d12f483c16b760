-- ===== src/RateLimit.antt =====
-- The sliding window of backend/app/core/rate_limit.py. Times and the window are counted in the
-- same unit; `current - entry >= window` is written without the subtraction.
pub mod Window
pub mod Tests
use praktika.Prelude.{
  ℕ, ◌+◌, Bool, List, [], ◌∷◌, ◌++◌, leb, if◌then◌else◌, length, Result, ok, err, rate_limited,
}
use praktika.Text.{Text, text_eq}

pub record InMemoryRateLimiter : Type 0 where
  pub limit : ℕ
  pub window_seconds : ℕ
  pub enabled : Bool
  pub requests : Text → List ℕ

-- `while entries and current - entries[0] >= window: entries.popleft()`
unfoldable pub drop_old : ℕ → ℕ → List ℕ → List ℕ
drop_old window current [] = []
drop_old window current (e ∷ es) =
    let rest = drop_old window current es in if leb (e + window) current then rest else e ∷ es

unfoldable pub set_entries : Text → List ℕ → InMemoryRateLimiter → InMemoryRateLimiter
unfolding text_eq
set_entries key entries l = record l {
  requests = λ k. if text_eq k key then entries else l.requests k;
}

-- `check`: what it raises, and the deques after it, which are cleared of old entries in any case.
unfoldable pub check : Text → ℕ → InMemoryRateLimiter → Result (Unit {0}) × InMemoryRateLimiter
unfolding drop_old set_entries
check key current l =
    let entries = drop_old l.window_seconds current (l.requests key) in
    if l.enabled
    then (if leb l.limit (length entries)
        then (err rate_limited, set_entries key entries l)
        else (ok tt, set_entries key (entries ++ (current ∷ [])) l))
    else (ok tt, l)

-- `clear`
unfoldable pub clear : InMemoryRateLimiter → InMemoryRateLimiter
clear l = record l { requests = λ key. [] }
