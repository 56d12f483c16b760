-- ===== src/Jobs/Conditions.antt =====
-- The conditions, the arguments and the small steps that the operations of the queue share.
use praktika.Prelude.{
  ℕ, Bool, true, false, ◌&&◌, ◌||◌, not, Option, none, some, List, ltb, leb, ◌==◌, if◌then◌else◌,
  any, ℤ, Result, ok, err, value_error, ◌>>=◌,
}
use praktika.Text.{Unicode}
use praktika.Sanitize.{Fields, Object, sanitize_metrics}
use praktika.Jobs.Model.{
  JobType, same_type, JobStatus, JobStage, Job, Store, is_queued, is_running, is_stopped,
}
use praktika.Jobs.Clock.{later, non_negative}
use praktika.Jobs.Transitions.{holds}
use praktika.Jobs.Locks.{lock_worker, save_worker}

-- `next_attempt_at IS NULL OR next_attempt_at <= moment`
abbrev pub is_due : Option ℕ → ℕ → Bool
is_due none moment = true
is_due (some t) moment = leb t moment

abbrev pub is_none : Option ℕ → Bool
is_none none = true
is_none (some t) = false

-- The `WHERE` clause of `claim_next_job`, with the rows that `skip_locked` passes over.
unfoldable pub is_claimable : List JobType → (ℕ → Bool) → ℕ → Job → Bool
unfolding same_type
is_claimable types locked moment job =
    is_queued job.status
    && any (same_type job.job_type) types
    && is_due job.next_attempt_at moment
    && is_none job.cancellation_requested_at
    && ltb job.attempt job.max_attempts
    && not (locked job.id)

-- `ORDER BY created_at, id`
unfoldable pub created_before : Job → Job → Bool
created_before a b =
    ltb a.created_at b.created_at || (a.created_at == b.created_at && ltb a.id b.id)

-- `current_job_id is not None and current_job_id != job.id`
abbrev pub is_busy : Option ℕ → ℕ → Bool
is_busy none job_id = false
is_busy (some k) job_id = not (k == job_id)

-- The stage after a requeue.
abbrev pub retry_stage : Bool → JobStage
retry_stage true = JobStage.waiting_backoff
retry_stage false = JobStage.preparing

-- `if progress is not None and not 0 <= progress <= 100: raise`
unfoldable pub check_progress : Option ℤ → Result (Option ℕ)
unfolding non_negative
check_progress none = ok none
check_progress (some p) = non_negative p >>= λ n. if leb n 100 then ok (some n) else err value_error

-- `sanitize_job_event_metrics(checkpoint)`, if there is one.
unfoldable pub check_checkpoint : Unicode → Option Object → Result (Option Fields)
check_checkpoint u none = ok none
check_checkpoint u (some c) = sanitize_metrics u (some c) >>= λ fs. ok (some fs)

-- The keyword arguments of `update_job_progress`.
pub record ProgressUpdate : Type 0 where
  pub progress : Option ℤ
  pub processed_items : Option ℤ
  pub total_items : Option ℤ
  pub stage : Option JobStage
  pub checkpoint : Option Object
  pub request_count_delta : ℤ
  pub bytes_received_delta : ℤ

-- A queued job, and a running one that no worker holds, is cancelled at once.
abbrev pub cancels_now : JobStatus → Option ℕ → Bool
cancels_now status claimed_by = is_queued status || (is_running status && is_none claimed_by)

-- `worker_id is None or job.claimed_by != worker_id`
abbrev pub is_foreign : Option ℕ → Option ℕ → Bool
is_foreign none claimed_by = true
is_foreign (some worker_id) claimed_by = not (holds claimed_by worker_id)

-- `heartbeat_job` on the worker's row.
unfoldable pub beat_worker : ℕ → ℕ → ℕ → Store → Store
beat_worker worker_id job_id moment s = elim (lock_worker worker_id s) [
  | none ↦ s
  | some worker ↦
      if is_stopped worker.status
      then s
      else save_worker
          (record worker {
            heartbeat_at = later (some worker.heartbeat_at) moment;
            current_job_id = some job_id;
          })
          s
]
