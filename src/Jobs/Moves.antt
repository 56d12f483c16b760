-- ===== src/Jobs/Moves.antt =====
-- The abstract life of one job: every change that the queue may make to a row, with the guard
-- under which it is made. `Refine` shows that the operations make no other.
pub mod Refine
pub mod Frame
pub mod Hold
pub mod Recover
pub mod Commands
use praktika.Prelude.{ℕ, ◌≢◌, ◌≤◌, ◌<◌, ◌≡◌, true, false, Option, none, some, Result, ok}
use praktika.Text.{Text}
use praktika.Sanitize.{Fields}
use praktika.Table.{Each}
use praktika.Jobs.Locks.{find_job}
use praktika.Jobs.Model.{Job, JobStatus, JobStage, Store, is_terminal}
use praktika.Jobs.Transitions.{
  claim_row, heartbeat_row, Progress, progress_row, request_row, complete_row, fail_row, cancel_row,
  requeue_row,
}

-- `raise_to` with a value of at most 100.
abbrev pub IsPercent : Option ℕ → Type 0
IsPercent none = Unit {0}
IsPercent (some n) = n ≤ 100

pub data Move (j : Job) : Job → Type 0 where
  stay : Move j j
  claim :
      (worker_id lease moment : ℕ)
      → j.status ≡ JobStatus.queued
      → j.attempt < j.max_attempts
      → j.cancellation_requested_at ≡ none
      → 0 < lease
      → Move j (claim_row worker_id lease moment j)
  beat :
      (lease moment : ℕ)
      → j.status ≡ JobStatus.running
      → 0 < lease
      → Move j (heartbeat_row lease moment j)
  advance :
      (p : Progress)
      → j.status ≡ JobStatus.running
      → IsPercent p.progress
      → Move j (progress_row p j)
  request :
      (moment : ℕ)
      → j.status ≡ JobStatus.running
      → j.cancellable ≡ true
      → j.cancellation_requested_at ≡ none
      → Move j (request_row moment j)
  complete :
      (result : Fields) (moment : ℕ)
      → j.status ≡ JobStatus.running
      → Move j (complete_row result moment j)
  fail :
      (code message : Text) (result : Fields) (moment : ℕ)
      → j.status ≡ JobStatus.running
      → Move j (fail_row code message result moment j)
  requeue :
      (stage : JobStage) (retry_at : ℕ) (code message : Text)
      → j.status ≡ JobStatus.running
      → j.attempt < j.max_attempts
      → j.cancellation_requested_at ≡ none
      → Move j (requeue_row stage retry_at code message j)
  cancel : (moment : ℕ) → is_terminal j.status ≡ false → Move j (cancel_row moment j)
  cancel_at_request :
      (moment : ℕ)
      → is_terminal j.status ≡ false
      → j.cancellable ≡ true
      → j.cancellation_requested_at ≡ none
      → Move j (cancel_row moment (request_row moment j))

-- The job `i` makes one move at most and no other row of the table changes, or an exception is
-- raised.
pub record MakesMove {A : Type 0} (i : ℕ) (s : Store) (r : Result (A × Store)) : Type 0 where
  pub moves : (a : A × Store) → r ≡ ok a → Each Move s.jobs a.1.jobs
  pub others : (a : A × Store) → r ≡ ok a → (j : ℕ) → j ≢ i → find_job j a.1 ≡ find_job j s

-- A row after any number of moves.
pub data Moves : Job → Job → Type 0 where
  here : {j : Job} → Moves j j
  then : {j k l : Job} → Move j k → Moves k l → Moves j l

-- Each job makes some number of moves, or an exception is raised.
pub record MakesMoves {A : Type 0} (s : Store) (r : Result (A × Store)) : Type 0 where
  pub history : (a : A × Store) → r ≡ ok a → Each Moves s.jobs a.1.jobs
