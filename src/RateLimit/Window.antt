-- ===== src/RateLimit/Window.antt =====
-- In any window no more requests of a key get through than the limit.
use mathlib.Core.Path.{subst}
use praktika.Prelude.{
  ℕ, suc, ◌+◌, ◌≤◌, ◌<◌, ◌≡◌, refl, sym, ap, ◌∙◌, Bool, true, false, List, [], ◌∷◌, ◌++◌, arith,
  leb, ltb, ◌&&◌, length, length-append, Result, ok, err, Bool-cases, inl, inr, if◌then◌else◌,
}
use praktika.Text.{Text, text_eq}
use praktika.Text.Laws.{text_eq→eq}
use praktika.RateLimit.{InMemoryRateLimiter, drop_old, set_entries, check}

-- A request that was let through: its key and its time.
pub record Passed : Type 0 where
  pub key : Text
  pub time : ℕ

-- How many of the times are less than a window before `t`.
abbrev pub recent : ℕ → ℕ → List ℕ → ℕ
recent window t [] = 0
recent window t (e ∷ es) =
    if ltb t (e + window) then suc (recent window t es) else recent window t es

-- How many requests of a key got through less than a window before `t`.
unfoldable pub passed_recently : ℕ → ℕ → Text → List Passed → ℕ
passed_recently window t k [] = 0
passed_recently window t k (p ∷ ps) =
    let rest = passed_recently window t k ps in
    if text_eq k p.key && ltb t (p.time + window) then suc rest else rest

abbrev pub add_passed : Result (Unit {0}) → Text → ℕ → List Passed → List Passed
add_passed (ok a) key time log = record { key = key; time = time } ∷ log
add_passed (err e) key time log = log

-- The checks of a limiter in the order of their times, with the requests that got through.
pub data Run (limit window : ℕ) : ℕ → InMemoryRateLimiter → List Passed → Type 0 where
  begun :
      (start : ℕ)
      → Run limit window start
          (record { limit = limit; window_seconds = window; enabled = true; requests = λ key. [] })
          []
  checked :
      {before : ℕ} {l : InMemoryRateLimiter} {log : List Passed} (key : Text) (current : ℕ)
      → Run limit window before l log
      → before ≤ current
      → Run limit window current
          (check key current l).1
          (add_passed (check key current l).0 key current log)

-- The deques hold what matters from now on, and are short.
record Remembers (limit window now : ℕ) (l : InMemoryRateLimiter) (log : List Passed) : Type 0 where
  pub same_limit : l.limit ≡ limit
  pub same_window : l.window_seconds ≡ window
  pub on : l.enabled ≡ true
  pub agrees :
      (k : Text) (t : ℕ) → now ≤ t → passed_recently window t k log ≡ recent window t (l.requests k)
  pub short : (k : Text) → length (l.requests k) ≤ limit

recent-length : (window t : ℕ) (es : List ℕ) → recent window t es ≤ length es
recent-length window t [] = omega arith
recent-length window t (e ∷ es) = ground (arith, recent-length window t es)

recent-append :
    (window t current : ℕ) (es : List ℕ)
    → recent window t (es ++ (current ∷ []))
      ≡ (if ltb t (current + window) then suc (recent window t es) else recent window t es)
recent-append window t current [] = refl
recent-append window t current (e ∷ es) = ground (arith, recent-append window t current es)

recent-drop_old :
    (window current t : ℕ) (es : List ℕ)
    → current ≤ t
    → recent window t (drop_old window current es) ≡ recent window t es
unfolding drop_old
recent-drop_old window current t [] le = refl
recent-drop_old window current t (e ∷ es) le =
    ground (arith, recent-drop_old window current t es le)

length-drop_old :
    (window current : ℕ) (es : List ℕ) → length (drop_old window current es) ≤ length es
unfolding drop_old
length-drop_old window current [] = omega arith
length-drop_old window current (e ∷ es) = ground (arith, length-drop_old window current es)

first_branch :
    {A : Type 0} (b c : Bool) (x y z : A)
    → b ≡ true
    → c ≡ true
    → (if b then (if c then x else y) else z) ≡ x
first_branch b c x y z p q = rw (p, q) refl

second_branch :
    {A : Type 0} (b c : Bool) (x y z : A)
    → b ≡ true
    → c ≡ false
    → (if b then (if c then x else y) else z) ≡ y
second_branch b c x y z p q = rw (p, q) refl

module _ (limit window : ℕ) where
  agrees_after_drop :
      (key k : Text) (current before t : ℕ) (l : InMemoryRateLimiter) (log : List Passed)
      → before ≤ current
      → current ≤ t
      → text_eq k key ≡ true
      → Remembers limit window before l log
      → passed_recently window t k log
        ≡ recent window t (drop_old l.window_seconds current (l.requests key))
  agrees_after_drop key k current before t l log le later same h = rw (text_eq→eq k key same) (
      h.agrees key t (omega arith)
      ∙ rw h.same_window (sym (recent-drop_old window current t (l.requests key) later)))

  refused-Remembers :
      (key : Text) (current before : ℕ) (l : InMemoryRateLimiter) (log : List Passed)
      → before ≤ current
      → Remembers limit window before l log
      → Remembers limit window current
          (set_entries key (drop_old l.window_seconds current (l.requests key)) l)
          log
  unfolding set_entries
  refused-Remembers key current before l log le h = record {
    same_limit = h.same_limit;
    same_window = h.same_window;
    on = h.on;
    agrees = λ k t later. elim (Bool-cases (text_eq k key)) [
      | inl same ↦ rw same (agrees_after_drop key k current before t l log le later same h)
      | inr other ↦ rw other (h.agrees k t (omega arith))
    ];
    short = λ k. elim (Bool-cases (text_eq k key)) [
      | inl same ↦
          rw same
            (omega (arith, length-drop_old l.window_seconds current (l.requests key), h.short key))
      | inr other ↦ rw other (h.short k)
    ];
  }

  passed-Remembers :
      (key : Text) (current before : ℕ) (l : InMemoryRateLimiter) (log : List Passed)
      → before ≤ current
      → length (drop_old l.window_seconds current (l.requests key)) < limit
      → Remembers limit window before l log
      → Remembers limit window current
          (set_entries key (drop_old l.window_seconds current (l.requests key) ++ (current ∷ [])) l)
          (record { key = key; time = current } ∷ log)
  unfolding set_entries passed_recently
  passed-Remembers key current before l log le room h = record {
    same_limit = h.same_limit;
    same_window = h.same_window;
    on = h.on;
    agrees = λ k t later. elim (Bool-cases (text_eq k key)) [
      | inl same ↦ rw same (
          ap (λ n. if ltb t (current + window) then suc n else n)
            (agrees_after_drop key k current before t l log le later same h)
          ∙ sym
              (recent-append window t current (drop_old l.window_seconds current (l.requests key))))
      | inr other ↦ rw other (h.agrees k t (omega arith))
    ];
    short = λ k. elim (Bool-cases (text_eq k key)) [
      | inl same ↦ rw same (
          omega (
            arith,
            length-append (drop_old l.window_seconds current (l.requests key)) (current ∷ []),
          ))
      | inr other ↦ rw other (h.short k)
    ];
  }

  checked-Remembers :
      (key : Text) (current before : ℕ) (l : InMemoryRateLimiter) (log : List Passed)
      → before ≤ current
      → Remembers limit window before l log
      → Remembers limit window current
          (check key current l).1
          (add_passed (check key current l).0 key current log)
  unfolding check
  checked-Remembers key current before l log le h =
      elim (Bool-cases
        (leb l.limit (length (drop_old l.window_seconds current (l.requests key))))) [
          | inl full ↦
              subst
                (λ (r : Result (Unit {0}) × InMemoryRateLimiter).
                  Remembers limit window current r.1 (add_passed r.0 key current log))
                (sym (first_branch l.enabled _ _ _ (ok tt, l) h.on full))
                (refused-Remembers key current before l log le h)
          | inr room ↦
              subst
                (λ (r : Result (Unit {0}) × InMemoryRateLimiter).
                  Remembers limit window current r.1 (add_passed r.0 key current log))
                (sym (second_branch l.enabled _ _ _ (ok tt, l) h.on room))
                (passed-Remembers key current before l log le (ground (arith, h.same_limit)) h)
        ]

  Run-Remembers :
      (now : ℕ) (l : InMemoryRateLimiter) (log : List Passed)
      → Run limit window now l log
      → Remembers limit window now l log
  unfolding passed_recently
  Run-Remembers now l log (Run.begun start) = record {
    same_limit = refl;
    same_window = refl;
    on = refl;
    agrees = λ k t later. refl;
    short = λ k. omega arith;
  }
  Run-Remembers now l log (Run.checked {before = before} {l = l'} {log = log'} key current run le) =
      checked-Remembers key current before l' log' le (Run-Remembers before l' log' run)

  -- After any checks of an enabled limiter whose times do not go back, the requests of a key that
  -- got through less than a window ago are at most the limit.
  pub window_is_bounded :
      (now : ℕ) (l : InMemoryRateLimiter) (log : List Passed) (k : Text)
      → Run limit window now l log
      → passed_recently window now k log ≤ limit
  window_is_bounded now l log k run =
      let h = Run-Remembers now l log run in
      omega
        (arith, h.agrees k now (omega arith), recent-length window now (l.requests k), h.short k)
