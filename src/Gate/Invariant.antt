-- ===== src/Gate/Invariant.antt =====
-- What every step of the gate keeps: no permit is lost or given twice, and the counters count.
use mathlib.Core.Path.{subst}
use praktika.Prelude.{
  ℕ, zero, suc, ◌+◌, ◌≤◌, ◌≡◌, true, false, not, ◌&&◌, some, List, [], ◌∷◌, ◌++◌, arith, ltb, ◌==◌,
  length, Result, ok, Bool-cases, Option-cases, ◌⊎◌, inl, inr,
}
use praktika.Gate.{
  Future, Waiter, Gate, new_gate, is_pending, has_pending, has_live, locked, wake_first, wake_next,
  wake_free, release, start, enter, cancel_waiter, expire, take_out, go_on, resume, leave,
}

-- Futures that hold a permit.
abbrev pub promised : Future → ℕ
promised Future.pending = 0
promised Future.woken = 1
promised Future.cancelled = 0
promised Future.revoked = 1

abbrev pub promises : List Waiter → ℕ
promises [] = 0
promises (w ∷ ws) = promised w.future + promises ws

-- Permits are free, promised or in use. Where a request waits while a permit is free, another one
-- has been given a permit and has yet to go on: it will see to the first.
pub record IsFair (capacity queue_limit : ℕ) (g : Gate) : Type 0 where
  pub same_capacity : g.capacity ≡ capacity
  pub same_limit : g.queue_limit ≡ queue_limit
  pub conserved : g.value + promises g.waiters + g.active ≡ capacity
  pub counted : g.waiting ≡ length g.waiters
  pub bounded : g.waiting ≤ queue_limit
  pub served : (g.value ≡ 0) ⊎ (has_pending g.waiters ≡ false) ⊎ (1 ≤ promises g.waiters)

wake_first-promises :
    (ws : List Waiter)
    → has_pending ws ≡ true
    → (promises (wake_first ws) ≡ suc (promises ws)) × (length (wake_first ws) ≡ length ws)
unfolding wake_first has_pending
wake_first-promises [] e = cc
wake_first-promises (w ∷ ws) e = ground (arith, wake_first-promises ws)

cancel_waiter-promises :
    (r : ℕ) (ws : List Waiter)
    → (promises (cancel_waiter r ws) ≡ promises ws)
      × (length (cancel_waiter r ws) ≡ length ws)
      × (has_pending ws ≡ false → has_pending (cancel_waiter r ws) ≡ false)
unfolding cancel_waiter has_pending
cancel_waiter-promises r [] = ground arith
cancel_waiter-promises r (w ∷ ws) = ground (arith, cancel_waiter-promises r ws)

take_out-promises :
    (r : ℕ) (ws : List Waiter) (f : Future) (rest : List Waiter)
    → take_out r ws ≡ some (f, rest)
    → (promises ws ≡ promised f + promises rest)
      × (length ws ≡ suc (length rest))
      × (has_pending rest ≡ has_pending ws)
      × (is_pending f ≡ false)
unfolding take_out has_pending
take_out-promises r [] f rest e = cc
take_out-promises r (w ∷ ws) f rest e =
    elim (Bool-cases (w.request == r && not (is_pending w.future))) [
      | inl hit ↦ ground arith
      | inr miss ↦ elim (Option-cases (take_out r ws)) [
        | inl nothing ↦ ground arith
        | inr ((g, vs), found) ↦ ground (arith, take_out-promises r ws g vs found)
      ]
    ]

promises-append :
    (ws vs : List Waiter)
    → (promises (ws ++ vs) ≡ promises ws + promises vs)
      × (length (ws ++ vs) ≡ length ws + length vs)
promises-append [] vs = ground arith
promises-append (w ∷ ws) vs = ground (arith, promises-append ws vs)

pub live_waiter :
    (ws : List Waiter) → has_live ws ≡ true → (has_pending ws ≡ true) ⊎ (1 ≤ promises ws)
unfolding has_live has_pending
live_waiter [] e = cc
live_waiter (w ∷ ws) e = ground (arith, live_waiter ws)

resumed :
    (r : ℕ) (g : Gate) (out : Future × List Waiter) (after : Result (Unit {0}) × Gate)
    → take_out r g.waiters ≡ some out
    → resume r g ≡ some after
    → go_on out.0 (record g { waiters = out.1 }) ≡ after
unfolding resume
resumed r g out after found e = some_injective (rw (found, resume) at e)
  where
    some_injective : {a b : Result (Unit {0}) × Gate} → some a ≡ some b → a ≡ b
    some_injective same = cc

-- The sums while a request is between two steps: `held` permits and `leaving` waiters are its own.
record IsBalanced (capacity queue_limit held leaving : ℕ) (g : Gate) : Type 0 where
  pub same_capacity : g.capacity ≡ capacity
  pub same_limit : g.queue_limit ≡ queue_limit
  pub conserved : g.value + promises g.waiters + g.active + held ≡ capacity
  pub counted : g.waiting ≡ leaving + length g.waiters
  pub bounded : g.waiting ≤ queue_limit

-- No permit is free, or nobody waits for one.
abbrev IsServed : Gate → Type 0
IsServed g = (g.value ≡ 0) ⊎ (has_pending g.waiters ≡ false)

module _ (capacity queue_limit : ℕ) where
  wake_next-IsBalanced :
      (held leaving : ℕ) (g : Gate)
      → 1 ≤ g.value
      → IsBalanced capacity queue_limit held leaving g
      → IsBalanced capacity queue_limit held leaving (wake_next g)
  unfolding wake_next
  wake_next-IsBalanced held leaving g free b = ground (arith, wake_first-promises g.waiters)

  wake_free-IsBalanced :
      (held leaving n : ℕ) (g : Gate)
      → IsBalanced capacity queue_limit held leaving g
      → IsBalanced capacity queue_limit held leaving (wake_free n g)
  unfolding wake_free
  wake_free-IsBalanced held leaving zero g b = b
  wake_free-IsBalanced held leaving (suc n) g b =
      elim (Bool-cases (ltb 0 g.value && has_pending g.waiters)) [
        | inl on ↦ rw on (
            wake_free-IsBalanced held leaving n (wake_next g)
              (wake_next-IsBalanced held leaving g (ground arith) b))
        | inr off ↦ rw off b
      ]

  wake_free-IsServed : (n : ℕ) (g : Gate) → g.value ≤ n → IsServed (wake_free n g)
  unfolding wake_free wake_next
  wake_free-IsServed zero g le = inl (omega arith)
  wake_free-IsServed (suc n) g le = elim (Bool-cases (ltb 0 g.value && has_pending g.waiters)) [
    | inl on ↦ rw on (wake_free-IsServed n (wake_next g) (ground arith))
    | inr off ↦ rw off (ground arith)
  ]

  pub new_gate-IsFair : IsFair capacity queue_limit (new_gate capacity queue_limit)
  unfolding new_gate has_pending
  new_gate-IsFair = ground arith

  pub enter-IsFair :
      (r : ℕ) (g g' : Gate)
      → enter r g ≡ ok g'
      → IsFair capacity queue_limit g
      → IsFair capacity queue_limit g'
  unfolding enter locked start
  enter-IsFair r g g' e h = elim (Bool-cases (locked g)) [
    | inl busy ↦ ground (
      arith,
      live_waiter g.waiters,
      promises-append g.waiters (record { request = r; future = Future.pending } ∷ []),
    )
    | inr not_locked ↦ ground arith
  ]

  pub expire-IsFair :
      (r : ℕ) (g : Gate) → IsFair capacity queue_limit g → IsFair capacity queue_limit (expire r g)
  unfolding expire
  expire-IsFair r g h = ground (arith, cancel_waiter-promises r g.waiters)

  pub leave-IsFair :
      (g : Gate)
      → 1 ≤ g.active
      → IsFair capacity queue_limit g
      → IsFair capacity queue_limit (leave g)
  unfolding leave release wake_next
  leave-IsFair g busy h = ground (arith, wake_first-promises g.waiters)

  go_on-IsFair :
      (f : Future) (g : Gate)
      → is_pending f ≡ false
      → IsBalanced capacity queue_limit (promised f) 1 g
      → IsFair capacity queue_limit (go_on f g).1
  unfolding go_on start
  go_on-IsFair Future.pending g e b = cc
  go_on-IsFair Future.woken g e b =
      ground
        (arith, wake_free-IsBalanced 1 1 g.value g b, wake_free-IsServed g.value g (omega arith))
  go_on-IsFair Future.cancelled g e b =
      ground
        (arith, wake_free-IsBalanced 0 1 g.value g b, wake_free-IsServed g.value g (omega arith))
  go_on-IsFair Future.revoked g e b =
      let given = record g { value = suc g.value } in
      ground (
        arith,
        wake_free-IsBalanced 0 1 given.value given (ground arith),
        wake_free-IsServed given.value given (omega arith),
      )

  pub resume-IsFair :
      (r : ℕ) (g g' : Gate) (answer : Result (Unit {0}))
      → resume r g ≡ some (answer, g')
      → IsFair capacity queue_limit g
      → IsFair capacity queue_limit g'
  unfolding resume
  resume-IsFair r g g' answer e h = elim (Option-cases (take_out r g.waiters)) [
    | inl nothing ↦ ground arith
    | inr ((f, ws), found) ↦
        let (held, one, kept, done) = take_out-promises r g.waiters f ws found in
        let fair = go_on-IsFair f (record g { waiters = ws }) done (ground arith) in
        subst (λ a. IsFair capacity queue_limit a.1) (resumed r g (f, ws) (answer, g') found e) fair
  ]
