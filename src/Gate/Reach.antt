-- ===== src/Gate/Reach.antt =====
-- The histories of a gate, and what holds in all of them.
use praktika.Prelude.{ℕ, ◌≤◌, ◌≡◌, some, Result, Error, ok, err}
use praktika.Gate.{Gate, new_gate, enter, expire, resume, leave}
use praktika.Gate.Invariant.{
  IsFair, new_gate-IsFair, enter-IsFair, expire-IsFair, leave-IsFair, resume-IsFair,
}

-- One step of one request. A refused request leaves the gate as it was.
pub data Step : Gate → Gate → Type 0 where
  entered : {g g' : Gate} (r : ℕ) → enter r g ≡ ok g' → Step g g'
  refused : {g : Gate} (r : ℕ) → enter r g ≡ err Error.llm_queue_full → Step g g
  expired : {g : Gate} (r : ℕ) → Step g (expire r g)
  resumed :
      {g g' : Gate} (r : ℕ) (answer : Result (Unit {0}))
      → resume r g ≡ some (answer, g')
      → Step g g'
  left : {g : Gate} → 1 ≤ g.active → Step g (leave g)

pub data Reach (capacity queue_limit : ℕ) : Gate → Type 0 where
  created : Reach capacity queue_limit (new_gate capacity queue_limit)
  after : {g g' : Gate} → Reach capacity queue_limit g → Step g g' → Reach capacity queue_limit g'

module _ (capacity queue_limit : ℕ) where
  Step-IsFair :
      (g g' : Gate) → Step g g' → IsFair capacity queue_limit g → IsFair capacity queue_limit g'
  Step-IsFair g g' (Step.entered r e) h = enter-IsFair capacity queue_limit r g g' e h
  Step-IsFair g g' (Step.refused r e) h = h
  Step-IsFair g g' (Step.expired r) h = expire-IsFair capacity queue_limit r g h
  Step-IsFair g g' (Step.resumed r answer e) h =
      resume-IsFair capacity queue_limit r g g' answer e h
  Step-IsFair g g' (Step.left busy) h = leave-IsFair capacity queue_limit g busy h

  -- Whatever order requests come, wait, time out and leave in: every permit is free, promised to a
  -- request that has yet to go on, or in use, so no more requests are active than the capacity;
  -- no more wait than the queue takes, and the counters of the snapshot are exact; and a request
  -- waits beside a free permit only while another that was given a permit has yet to go on.
  pub reached-IsFair : (g : Gate) → Reach capacity queue_limit g → IsFair capacity queue_limit g
  reached-IsFair g Reach.created = new_gate-IsFair capacity queue_limit
  reached-IsFair g (Reach.after {g = before} path step) =
      Step-IsFair before g step (reached-IsFair before path)
