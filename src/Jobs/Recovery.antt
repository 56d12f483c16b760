-- ===== src/Jobs/Recovery.antt =====
-- `recover_stale_jobs`: running jobs whose lease is over go back to the queue, fail or are
-- cancelled. The session keeps one object for each row, so the loop over the selected rows reads
-- each of them as it stands, by its id.
use praktika.Prelude.{
  ℕ, ◌+◌, Bool, true, false, ◌&&◌, ◌||◌, not, Option, none, some, List, [], ◌∷◌, ◌++◌, ltb,
  if◌then◌else◌, map, filter, take, ℤ, pos, Result, ok, value_error, raise_if, ◌>>=◌, ◌>>◌, length,
}
use praktika.Text.{codes, Unicode}
use praktika.Sanitize.{DateTime, mapping, int, no_entries, entry}
use praktika.Table.{sort}
use praktika.Jobs.Model.{JobEventLevel, Job, Store, is_running, job_key}
use praktika.Jobs.Clock.{resolve_now, seconds, non_negative, positive}
use praktika.Jobs.Transitions.{requeue_row}
use praktika.Jobs.Locks.{find_job, save_job, release_claimant}
use praktika.Jobs.Conditions.{is_none, is_due, retry_stage}
use praktika.Jobs.Queue.{log_event, cancel_locked_job, fail_locked_job}

-- `StaleRecoveryResult`
pub record StaleRecoveryResult : Type 0 where
  pub requeued_job_ids : List ℕ
  pub failed_job_ids : List ℕ
  pub cancelled_job_ids : List ℕ

unfoldable pub recovered_count : StaleRecoveryResult → ℕ
recovered_count r = length r.requeued_job_ids + length r.failed_job_ids + length r.cancelled_job_ids

-- RUNNING, with no lease or one that is over, and not locked by another transaction.
unfoldable pub is_stale : (ℕ → Bool) → ℕ → Job → Bool
is_stale locked moment job =
    is_running job.status && is_due job.lease_expires_at moment && not (locked job.id)

-- `ORDER BY lease_expires_at ASC NULLS FIRST, id`
lease_before : Option ℕ → Option ℕ → Bool
lease_before none none = false
lease_before none (some b) = true
lease_before (some a) none = false
lease_before (some a) (some b) = ltb a b

unfoldable pub expires_before : Job → Job → Bool
unfolding lease_before
expires_before a b =
    lease_before a.lease_expires_at b.lease_expires_at
    || (not (lease_before b.lease_expires_at a.lease_expires_at) && ltb a.id b.id)

-- The rows that the query selects, by their ids.
unfoldable pub stale_ids : (ℕ → Bool) → ℕ → ℕ → List Job → List ℕ
unfolding is_stale expires_before
stale_ids locked moment limit jobs =
    map job_key (take limit (sort expires_before (filter (is_stale locked moment) jobs)))

-- What became of one job, put into the three lists.
abbrev pub add_requeued : ℕ → StaleRecoveryResult → StaleRecoveryResult
add_requeued i r = record r { requeued_job_ids = r.requeued_job_ids ++ i ∷ [] }

abbrev pub add_failed : ℕ → StaleRecoveryResult → StaleRecoveryResult
add_failed i r = record r { failed_job_ids = r.failed_job_ids ++ i ∷ [] }

abbrev pub add_cancelled : ℕ → StaleRecoveryResult → StaleRecoveryResult
add_cancelled i r = record r { cancelled_job_ids = r.cancelled_job_ids ++ i ∷ [] }

module _ (u : Unicode) (utc_now : ℕ) where
  -- The branch that gives the job another attempt.
  unfoldable pub recover_requeue : ℕ → ℕ → Job → Store → Result Store
  unfolding seconds
  recover_requeue retry_delay moment job s =
      let back =
        requeue_row (retry_stage (ltb 0 retry_delay)) (moment + seconds retry_delay)
          (codes "STALE_LEASE_RECOVERED")
          (codes "Задание возвращено в очередь после истечения lease") job in
      log_event u utc_now job.id JobEventLevel.warning back.stage (codes "STALE_JOB_REQUEUED")
        (codes "Задание возвращено в очередь после истечения lease")
        (some (mapping (entry (codes "attempt") (int (pos job.attempt)) no_entries))) moment
        (release_claimant job.claimed_by job.id moment (save_job back s))

  -- The body of the loop for one row.
  unfoldable pub recover_job :
      ℕ → ℕ → Job → StaleRecoveryResult → Store → Result (StaleRecoveryResult × Store)
  unfolding recover_requeue
  recover_job retry_delay moment job r s =
      if not (is_none job.cancellation_requested_at)
      then (cancel_locked_job u utc_now moment job s >>= λ a. ok (add_cancelled job.id r, a.1))
      else if ltb job.attempt job.max_attempts
      then (recover_requeue retry_delay moment job s >>= λ s'. ok (add_requeued job.id r, s'))
      else (fail_locked_job u utc_now job.claimed_by (codes "WORKER_LEASE_EXPIRED")
            (codes "Worker не продлил lease, попытки исчерпаны") none moment job s
          >>= λ a. ok (add_failed job.id r, a.1))

  unfoldable pub recover_jobs :
      ℕ → ℕ → List ℕ → StaleRecoveryResult → Store → Result (StaleRecoveryResult × Store)
  recover_jobs retry_delay moment [] r s = ok (r, s)
  recover_jobs retry_delay moment (i ∷ is) r s = elim (find_job i s) [
    | none ↦ recover_jobs retry_delay moment is r s
    | some job ↦
        recover_job retry_delay moment job r s >>= λ a. recover_jobs retry_delay moment is a.0 a.1
  ]

  -- `if not 1 <= limit <= 1000: raise`
  unfoldable pub recover_stale_jobs :
      (ℕ → Bool) → ℤ → ℤ → Option DateTime → Store → Result (StaleRecoveryResult × Store)
  recover_stale_jobs locked retry_delay_seconds limit now s = do
    retry_delay ← non_negative retry_delay_seconds
    count ← positive limit
    raise_if (ltb 1000 count) value_error
    moment ← resolve_now utc_now now
    recover_jobs retry_delay moment (stale_ids locked moment count s.jobs)
        (record { requeued_job_ids = []; failed_job_ids = []; cancelled_job_ids = [] }) s
