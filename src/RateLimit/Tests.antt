-- ===== src/RateLimit/Tests.antt =====
-- Two requests in ten seconds.
use praktika.Prelude.{◌≤◌, ◌≡◌, refl, true, List, [], arith, ok, err, rate_limited}
use praktika.Text.{codes, text_eq}
use praktika.RateLimit.{InMemoryRateLimiter, check, drop_old, set_entries}
use praktika.RateLimit.Window.{Passed, Run, passed_recently, window_is_bounded, add_passed}

abbrev fresh : InMemoryRateLimiter
fresh = record { limit = 2; window_seconds = 10; enabled = true; requests = λ key. [] }

abbrev once : InMemoryRateLimiter
once = (check (codes "a") 1 fresh).1

abbrev twice : InMemoryRateLimiter
twice = (check (codes "a") 4 once).1

-- The third request waits until the first one is ten seconds old.
third_is_refused : (check (codes "a") 9 twice).0 ≡ err rate_limited
unfolding check drop_old set_entries text_eq
third_is_refused = refl

third_is_let_through : (check (codes "a") 11 twice).0 ≡ ok tt
unfolding check drop_old set_entries text_eq
third_is_let_through = refl

abbrev log : List Passed
log =
    add_passed (check (codes "a") 4 once).0 (codes "a") 4
      (add_passed (check (codes "a") 1 fresh).0 (codes "a") 1 [])

run : Run 2 10 4 twice log
run =
    Run.checked (codes "a") 4 (Run.checked (codes "a") 1 (Run.begun 0) (omega arith)) (omega arith)

window_is_bounded_example : passed_recently 10 4 (codes "a") log ≤ 2
window_is_bounded_example = window_is_bounded 2 10 4 twice log (codes "a") run
