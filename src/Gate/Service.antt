-- ===== src/Gate/Service.antt =====
-- The gate never gets stuck, and refuses nobody whom it could serve or let wait.
use praktika.Prelude.{
  ℕ, suc, ◌-◌, ◌≤◌, ◌≡◌, refl, true, false, some, List, [], ◌∷◌, ◌++◌, arith, Result, Error, ok,
  err, Bool-cases, ◌⊎◌, inl, inr, length, leb,
}
use praktika.Gate.{
  Gate, Waiter, Future, start, enter, resume, take_out, go_on, locked, has_pending, is_pending,
}
use praktika.Gate.Invariant.{promises, live_waiter}
use praktika.Gate.Reach.{Reach, reached-IsFair}

-- Some request can go on from its wait.
abbrev pub CanResume : Gate → Type 0
CanResume g =
    (r : ℕ) × (answer : Result (Unit {0})) × (g' : Gate) × (resume r g ≡ some (answer, g'))

done_waiter :
    (ws : List Waiter)
    → ((r : ℕ) × (f : Future) × (rest : List Waiter) × (take_out r ws ≡ some (f, rest)))
      ⊎ ((promises ws ≡ 0) × ((length ws ≡ 0) ⊎ (has_pending ws ≡ true)))
unfolding take_out has_pending
done_waiter [] = inr (refl, inl refl)
done_waiter (w ∷ ws) = elim (Bool-cases (is_pending w.future)) [
  | inl waits ↦ elim (done_waiter ws) [
    | inl (r, f, rest, found) ↦ inl (r, f, w ∷ rest, ground (arith, found))
    | inr none_done ↦ inr (ground arith)
  ]
  | inr done ↦ inl (w.request, w.future, ws, ground arith)
]

-- The three answers to a request.
enter_full :
    (r : ℕ) (g : Gate)
    → locked g ≡ true
    → leb g.queue_limit g.waiting ≡ true
    → enter r g ≡ err Error.llm_queue_full
unfolding enter
enter_full r g busy full = rw (busy, full) refl

enter_waits :
    (r : ℕ) (g : Gate)
    → locked g ≡ true
    → leb g.queue_limit g.waiting ≡ false
    → enter r g
      ≡ ok (record g {
        waiting = suc g.waiting;
        waiters = g.waiters ++ (record { request = r; future = Future.pending } ∷ []);
      })
unfolding enter
enter_waits r g busy room = rw (busy, room) refl

enter_starts :
    (r : ℕ) (g : Gate)
    → locked g ≡ false
    → enter r g ≡ ok (start (record g { waiting = suc g.waiting; value = g.value - 1 }))
unfolding enter
enter_starts r g not_locked = rw not_locked refl

module _ (capacity queue_limit : ℕ) where
  -- In a gate that lets anybody in, a request that waits is never forgotten: some request is
  -- active and will leave, or some request that waited can go on.
  pub waiting_is_not_stuck :
      (g : Gate) → Reach (suc capacity) queue_limit g → 1 ≤ g.waiting → (1 ≤ g.active) ⊎ CanResume g
  unfolding resume
  waiting_is_not_stuck g path waits =
      let fair = reached-IsFair (suc capacity) queue_limit g path in
      elim (done_waiter g.waiters) [
        | inl (r, f, ws, found) ↦ inr (
          r,
          (go_on f (record g { waiters = ws })).0,
          (go_on f (record g { waiters = ws })).1,
          rw (found, resume) refl,
        )
        | inr none_done ↦ inl (ground arith)
      ]

  -- A request is refused only when the queue is full and no permit is to be had: all are in use
  -- or promised, or one is free and a request that was given another has yet to go on. It is
  -- refused with LLM_QUEUE_FULL. A request that is not refused is active at once or waits.
  pub refused_only_when_full :
      (g : Gate) (r : ℕ)
      → Reach capacity queue_limit g
      → ((enter r g ≡ err Error.llm_queue_full)
          × (g.waiting ≡ queue_limit)
          × ((g.value ≡ 0) ⊎ (1 ≤ promises g.waiters)))
        ⊎ ((g' : Gate) × (enter r g ≡ ok g')
            × (((g'.active ≡ suc g.active) × (g'.waiting ≡ g.waiting) × (suc g'.value ≡ g.value))
                ⊎ ((g'.active ≡ g.active) × (g'.waiting ≡ suc g.waiting) × (g'.value ≡ g.value))))
  unfolding start locked
  refused_only_when_full g r path =
      let fair = reached-IsFair capacity queue_limit g path in
      elim (Bool-cases (locked g)) [
        | inl busy ↦ elim (Bool-cases (leb g.queue_limit g.waiting)) [
          | inl full ↦
              inl (enter_full r g busy full, ground arith, ground (arith, live_waiter g.waiters))
          | inr room ↦ inr (_, enter_waits r g busy room, inr (refl, refl, refl))
        ]
        | inr not_locked ↦ inr (_, enter_starts r g not_locked, inl (ground arith))
      ]
