-- ===== src/Jobs/Queue.antt =====
-- The operations of a worker on a job: `claim_next_job`, `heartbeat_job`, `update_job_progress`,
-- `complete_job`, `fail_job`, `requeue_job`; and `cancel_job` and `request_job_cancellation`.
-- An operation answers with the job's row, if there is one, and the tables; a raised exception
-- rolls the transaction back.
use praktika.Prelude.{
  ℕ, Bool, ◌||◌, not, Option, none, some, List, [], ◌∷◌, ltb, leb, max, if◌then◌else◌, filter, ℤ,
  pos, Result, ok, err, job_queue_state_error, ◌>>=◌,
}
use praktika.Text.{Text, codes, Unicode}
use praktika.Sanitize.{
  DateTime, aware, require_aware, Object, mapping, int, uuid, str, datetime, no_entries, entry,
  normalize_event_code, sanitize_message, sanitize_metrics,
}
use praktika.Table.{least}
use praktika.Jobs.Model.{
  JobType, JobStatus, JobStage, JobEventLevel, Job, Worker, Store, is_terminal, is_stopped,
  is_stopping,
}
use praktika.Jobs.Clock.{resolve_now, positive, non_negative, optional}
use praktika.Jobs.Events.{add_job_event, or_text}
use praktika.Jobs.Transitions.{
  claim_row, heartbeat_row, progress_row, request_row, complete_row, fail_row, cancel_row,
  requeue_row, occupy_row,
}
use praktika.Jobs.Locks.{
  find_job, lock_worker, save_job, save_worker, lock_running_job_for_worker, release_worker_job,
  release_claimant, if_row,
}
use praktika.Jobs.Conditions.{
  is_none, is_claimable, created_before, is_busy, retry_stage, check_progress, check_checkpoint,
  ProgressUpdate, cancels_now, is_foreign, beat_worker,
}

abbrev pub Answer : Type 0
Answer = Result (Option Job × Store)

module _ (u : Unicode) (utc_now : ℕ) where
  -- The events that the operations append.
  unfoldable pub log_event :
      ℕ → JobEventLevel → JobStage → Text → Text → Option Object → ℕ → Store → Result Store
  log_event job_id level stage code message metrics moment s =
      add_job_event u utc_now
        (record {
          job_id = job_id;
          level = level;
          stage = stage;
          code = code;
          message = message;
          metrics = metrics;
          now = some (aware moment);
        })
        s

  -- The rest of a claim once the job and the worker are locked.
  unfoldable pub claim_locked : ℕ → ℕ → Job → Worker → Store → Answer
  claim_locked lease moment job worker s =
      if is_stopping worker.status || is_stopped worker.status
      then ok (none, s)
      else if is_busy worker.current_job_id job.id
      then ok (none, s)
      else do
        let claimed = claim_row worker.id lease moment job
        s' ←
            log_event job.id JobEventLevel.info claimed.stage (codes "JOB_CLAIMED")
              (codes "Задание захвачено worker-процессом")
              (some (
                mapping (
                  entry (codes "workerId") (uuid worker.id)
                    (entry (codes "attempt") (int (pos claimed.attempt)) no_entries))))
              moment (save_worker (occupy_row job.id moment worker) (save_job claimed s))
        ok (some claimed, s')

  -- A worker that is not registered cannot claim.
  abbrev pub claim_by : Option Worker → ℕ → ℕ → Job → Store → Answer
  claim_by none lease moment job s = err job_queue_state_error
  claim_by (some worker) lease moment job s = claim_locked lease moment job worker s

  -- `claim_next_job`; the worker is looked up only when there is a job.
  unfoldable pub claim_next_job :
      (ℕ → Bool) → ℕ → List JobType → ℤ → Option DateTime → Store → Answer
  unfolding claim_locked
  claim_next_job locked worker_id [] lease_seconds now s =
      positive lease_seconds >>= λ _. ok (none, s)
  claim_next_job locked worker_id (t ∷ ts) lease_seconds now s = do
    lease ← positive lease_seconds
    moment ← resolve_now utc_now now
    if_row (least created_before (filter (is_claimable (t ∷ ts) locked moment) s.jobs)) s
        λ job. claim_by (lock_worker worker_id s) lease moment job s

  unfoldable pub heartbeat_job : ℕ → ℕ → ℤ → Option DateTime → Store → Answer
  unfolding beat_worker
  heartbeat_job job_id worker_id lease_seconds now s = do
    lease ← positive lease_seconds
    if_row (lock_running_job_for_worker job_id worker_id s) s λ job.
        resolve_now utc_now now >>= λ moment.
        let beaten = heartbeat_row lease moment job in
        ok (some beaten, beat_worker worker_id job.id moment (save_job beaten s))

  unfoldable pub update_job_progress : ℕ → ℕ → ProgressUpdate → Store → Answer
  unfolding check_progress check_checkpoint
  update_job_progress job_id worker_id p s = do
    progress ← check_progress p.progress
    processed ← optional p.processed_items
    total ← optional p.total_items
    requests ← non_negative p.request_count_delta
    bytes ← non_negative p.bytes_received_delta
    if_row (lock_running_job_for_worker job_id worker_id s) s λ job.
        check_checkpoint u p.checkpoint >>= λ checkpoint.
        let updated =
          progress_row
            (record {
              progress = progress;
              processed_items = processed;
              total_items = total;
              stage = p.stage;
              checkpoint = checkpoint;
              request_count_delta = requests;
              bytes_received_delta = bytes;
            })
            job in
        ok (some updated, save_job updated s)

  -- `_cancel_locked_job`
  unfoldable pub cancel_locked_job : ℕ → Job → Store → Answer
  cancel_locked_job moment job s = do
    let gone = cancel_row moment job
    s' ←
        log_event job.id JobEventLevel.info gone.stage (codes "JOB_CANCELLED")
          (codes "Задание отменено") none moment
          (release_claimant job.claimed_by job.id moment (save_job gone s))
    ok (some gone, s')

  -- `_fail_locked_job`
  unfoldable pub fail_locked_job : Option ℕ → Text → Text → Option Object → ℕ → Job → Store → Answer
  fail_locked_job worker_id error_code error_message result moment job s = do
    code ← normalize_event_code u error_code
    let message = or_text (sanitize_message u 1000 error_message) code
    clean ← sanitize_metrics u result
    let failed = fail_row code message clean moment job
    s' ←
        log_event job.id JobEventLevel.error failed.stage (codes "JOB_FAILED") message
          (some (
            mapping (
              entry (codes "errorCode") (str code)
                (entry (codes "attempt") (int (pos job.attempt)) no_entries))))
          moment (release_claimant worker_id job.id moment (save_job failed s))
    ok (some failed, s')

  unfoldable pub request_locked : ℕ → Job → Store → Answer
  unfolding cancel_locked_job
  request_locked moment job s = do
    let requested = request_row moment job
    s' ←
        log_event job.id JobEventLevel.info job.stage (codes "CANCELLATION_REQUESTED")
          (codes "Запрошена отмена задания") none moment (save_job requested s)
    if cancels_now job.status job.claimed_by
        then cancel_locked_job moment requested s'
        else ok (some requested, s')

  unfoldable pub request_job_cancellation : ℕ → Option DateTime → Store → Answer
  unfolding request_locked
  request_job_cancellation job_id now s = if_row (find_job job_id s) s λ job.
      if is_terminal job.status
      then ok (some job, s)
      else if not job.cancellable
      then err job_queue_state_error
      else if not (is_none job.cancellation_requested_at)
      then ok (some job, s)
      else (resolve_now utc_now now >>= λ moment. request_locked moment job s)

  unfoldable pub complete_job : ℕ → ℕ → Option Object → Option DateTime → Store → Answer
  complete_job job_id worker_id result now s =
      if_row (lock_running_job_for_worker job_id worker_id s) s λ job. do
        moment ← resolve_now utc_now now
        clean ← sanitize_metrics u result
        let done = complete_row clean moment job
        s' ←
            log_event job.id JobEventLevel.info done.stage (codes "JOB_COMPLETED")
              (codes "Задание успешно завершено")
              (some (mapping (entry (codes "progress") (int (pos done.progress)) no_entries)))
              moment (release_worker_job worker_id job.id moment (save_job done s))
        ok (some done, s')

  unfoldable pub fail_job : ℕ → ℕ → Text → Text → Option Object → Option DateTime → Store → Answer
  unfolding fail_locked_job
  fail_job job_id worker_id error_code error_message result now s =
      if_row (lock_running_job_for_worker job_id worker_id s) s λ job.
        resolve_now utc_now now >>= λ moment.
        fail_locked_job (some worker_id) error_code error_message result moment job s

  -- The last case of `requeue_job`: the job goes back to the queue.
  unfoldable pub requeue_locked : ℕ → ℕ → ℕ → Text → Text → Job → Store → Answer
  requeue_locked worker_id retry_at moment error_code error_message job s = do
    code ← normalize_event_code u error_code
    let back =
        requeue_row (retry_stage (ltb moment retry_at)) retry_at code
          (sanitize_message u 1000 error_message) job
    s' ←
        log_event job.id JobEventLevel.warning back.stage (codes "RETRY_SCHEDULED")
          (codes "Повтор задания запланирован")
          (some (
            mapping (
              entry (codes "attempt") (int (pos job.attempt))
                (entry (codes "nextAttemptAt") (datetime (aware retry_at)) no_entries))))
          moment (release_worker_job worker_id job.id moment (save_job back s))
    ok (some back, s')

  unfoldable pub requeue_job : ℕ → ℕ → DateTime → Text → Text → Option DateTime → Store → Answer
  unfolding cancel_locked_job fail_locked_job requeue_locked
  requeue_job job_id worker_id next_attempt_at error_code error_message now s =
      if_row (lock_running_job_for_worker job_id worker_id s) s λ job. do
        moment ← resolve_now utc_now now
        wanted ← require_aware next_attempt_at
        if not (is_none job.cancellation_requested_at)
            then cancel_locked_job moment job s
            else if leb job.max_attempts job.attempt
            then fail_locked_job (some worker_id) (codes "MAX_ATTEMPTS_EXCEEDED")
                (codes "Исчерпаны попытки выполнения задания") none moment job s
            else requeue_locked worker_id (max wanted moment) moment error_code error_message job s

  -- `cancel_job` by the job's status.
  abbrev pub cancel_by_status : JobStatus → Option ℕ → Option DateTime → Job → Store → Answer
  cancel_by_status JobStatus.cancelled worker_id now job s = ok (some job, s)
  cancel_by_status JobStatus.completed worker_id now job s = err job_queue_state_error
  cancel_by_status JobStatus.failed worker_id now job s = err job_queue_state_error
  cancel_by_status JobStatus.running worker_id now job s =
      if is_foreign worker_id job.claimed_by
      then ok (none, s)
      else (resolve_now utc_now now >>= λ moment. cancel_locked_job moment job s)
  cancel_by_status JobStatus.queued worker_id now job s =
      resolve_now utc_now now >>= λ moment. cancel_locked_job moment job s

  unfoldable pub cancel_job : ℕ → Option ℕ → Option DateTime → Store → Answer
  unfolding cancel_locked_job
  cancel_job job_id worker_id now s =
      if_row (find_job job_id s) s λ job. cancel_by_status job.status worker_id now job s
