-- ===== src/Gate/Tests.antt =====
-- The gate with one permit and a queue of one.
use praktika.Prelude.{suc, ◌≤◌, ◌≡◌, refl, [], ◌∷◌, Error, ok, err, ◌⊎◌, arith, some}
use praktika.Gate.{
  Gate, Future, new_gate, enter, expire, resume, leave, locked, has_live, start, wake_free,
  wake_next, wake_first, has_pending, release, go_on, take_out, cancel_waiter,
}
use praktika.Gate.Invariant.{IsFair, promises}
use praktika.Gate.Reach.{Reach, Step, reached-IsFair}
use praktika.Gate.Service.{CanResume, waiting_is_not_stuck, refused_only_when_full}

-- Request 1 is active and request 2 waits.
abbrev busy : Gate
busy = record {
  capacity = 1;
  queue_limit = 1;
  value = 0;
  waiters = record { request = 2; future = Future.pending } ∷ [];
  waiting = 1;
  active = 1;
}

busy_reached : Reach 1 1 busy
unfolding enter new_gate locked has_live start
busy_reached = Reach.after (Reach.after Reach.created (Step.entered 1 refl)) (Step.entered 2 refl)

-- Request 1 leaves, and request 2 goes on.
handed_over : resume 2 (leave busy) ≡ some (ok tt, record busy { waiters = []; waiting = 0 })
unfolding resume leave release wake_next wake_first has_pending take_out go_on wake_free start
handed_over = refl

-- The permit of a request that timed out just as it was woken is not lost.
given_back :
    resume 2 (expire 2 (leave busy))
    ≡ some (err Error.llm_queue_timeout, record (new_gate 1 1) { waiting = 0 })
unfolding resume leave release wake_next wake_first has_pending take_out go_on wake_free start
    expire cancel_waiter new_gate
given_back = refl

reached-IsFair_example : IsFair 1 1 busy
reached-IsFair_example = reached-IsFair 1 1 busy busy_reached

waiting_is_not_stuck_example : (1 ≤ busy.active) ⊎ CanResume busy
waiting_is_not_stuck_example = waiting_is_not_stuck 0 1 busy busy_reached (omega arith)

refused_only_when_full_example :
    ((enter 3 busy ≡ err Error.llm_queue_full)
      × (busy.waiting ≡ 1)
      × ((busy.value ≡ 0) ⊎ (1 ≤ promises busy.waiters)))
    ⊎ ((g' : Gate) × (enter 3 busy ≡ ok g')
        × (((g'.active ≡ suc busy.active)
              × (g'.waiting ≡ busy.waiting)
              × (suc g'.value ≡ busy.value))
            ⊎ ((g'.active ≡ busy.active)
                × (g'.waiting ≡ suc busy.waiting)
                × (g'.value ≡ busy.value))))
refused_only_when_full_example = refused_only_when_full 1 1 busy 3 busy_reached
