-- ===== src/Runner/Finalize.antt =====
-- The transactions of a worker process: `_claim`, `_finalize`, `_recover_stale`, `_heartbeat_once`,
-- `_execute_job` and `process_once` of backend/app/workers/runner.py, and `_finalize` and
-- `_recover_stale` of backend/app/workers/indexer.py. What the handler of a job does is a parameter.
use praktika.Prelude.{
  ℕ, ◌+◌, Bool, true, false, Option, none, some, List, [], ◌∷◌, ◌++◌, ◌==◌, if◌then◌else◌, ℤ, pos,
  Result, ok, ◌>>=◌,
}
use praktika.Text.{codes, Unicode}
use praktika.Sanitize.{mapping, no_entries}
use praktika.Jobs.Model.{JobType, JobStatus, Job}
use praktika.Jobs.Model
use praktika.Jobs.Clock.{seconds}
use praktika.Jobs.Locks.{find_job}
use praktika.Jobs.Queue.{
  claim_next_job, complete_job, cancel_job, requeue_job, fail_job, heartbeat_job,
}
use praktika.Jobs.Recovery.{recover_stale_jobs}
use praktika.Jobs.Workers.{heartbeat_worker_instance}
use praktika.Runner.{
  SourceStatus, Source, World, Disposition, HandlerOutcome, change_source, source_after,
  update_sync_completion, or_default, or_later,
}

-- The settings of a worker process, in seconds.
pub record WorkerSettings : Type 0 where
  pub worker_lease_seconds : ℤ
  pub worker_poll_interval_seconds : ℤ

-- The end of `_finalize`: the source of the job, if it has one that is there.
unfoldable pub follow : ℕ → Option Job → World → World
unfolding change_source source_after update_sync_completion
follow utc_now none w = w
follow utc_now (some job) w = elim job.source_id [
  | none ↦ w
  | some source_id ↦
      update_sync_completion utc_now source_id job
        (change_source (some source_id) (source_after job.status job) w)
]

-- The outcome that `_execute_job` puts in place of an exception.
abbrev pub handler_failed : HandlerOutcome
handler_failed = record {
  disposition = Disposition.failed;
  result = mapping no_entries;
  error_code = some (codes "INTERNAL_HANDLER_ERROR");
  error_message = some (codes "Внутренняя ошибка обработчика фонового задания");
  next_attempt_at = none;
}

module _ (u : Unicode) (utc_now : ℕ) where
  -- The call of the queue that an outcome asks for.
  unfoldable pub queue_call :
      ℕ → ℕ → HandlerOutcome → Disposition → Model.Store → Result (Option Job × Model.Store)
  unfolding or_default or_later seconds
  queue_call job_id worker_id o Disposition.completed s =
      complete_job u utc_now job_id worker_id (some o.result) none s
  queue_call job_id worker_id o Disposition.cancelled s =
      cancel_job u utc_now job_id (some worker_id) none s
  queue_call job_id worker_id o Disposition.requeued s =
      requeue_job u utc_now job_id worker_id (or_later o.next_attempt_at (utc_now + seconds 300))
        (or_default o.error_code (codes "RETRY_SCHEDULED"))
        (or_default o.error_message (codes "Повтор задания запланирован")) none s
  queue_call job_id worker_id o Disposition.failed s =
      fail_job u utc_now job_id worker_id (or_default o.error_code (codes "JOB_FAILED"))
        (or_default o.error_message (codes "Фоновое задание завершилось ошибкой")) (some o.result)
        none s

  unfoldable pub finalize : ℕ → ℕ → HandlerOutcome → World → Result World
  finalize worker_id job_id o w = do
    (job, queue) ← queue_call job_id worker_id o o.disposition w.queue
    ok (follow utc_now job (record w { queue = queue }))

  -- `_execute_job`, with what the handler did to the tables and its outcome, if it did not raise.
  unfoldable pub execute_job : ℕ → ℕ → World × Option HandlerOutcome → Result World
  unfolding finalize
  execute_job worker_id job_id (w, none) = finalize worker_id job_id handler_failed w
  execute_job worker_id job_id (w, some o) = finalize worker_id job_id o w

  -- The source of a claimed job.
  unfoldable pub sync_started : Option Job → World → World
  unfolding change_source
  sync_started none w = w
  sync_started (some job) w =
      change_source job.source_id
        (λ source. record source { status = SourceStatus.syncing; current_job_id = some job.id }) w

  job_id_of : Option Job → Option ℕ
  job_id_of none = none
  job_id_of (some job) = some job.id

  unfoldable pub claim : (ℕ → Bool) → WorkerSettings → ℕ → World → Result (Option ℕ × World)
  unfolding sync_started job_id_of
  claim locked settings worker_id w = do
    (job, queue) ←
        claim_next_job u utc_now locked worker_id (JobType.source_sync ∷ [])
          settings.worker_lease_seconds none w.queue
    ok (job_id_of job, sync_started job (record w { queue = queue }))

  unfoldable pub heartbeat_once : WorkerSettings → ℕ → Option ℕ → World → Result World
  heartbeat_once settings worker_id none w = do
    (worker, queue) ← heartbeat_worker_instance utc_now worker_id none w.queue
    ok (record w { queue = queue })
  heartbeat_once settings worker_id (some job_id) w = do
    (job, queue) ←
        heartbeat_job u utc_now job_id worker_id settings.worker_lease_seconds none w.queue
    ok (record w { queue = queue })

is_current : ℕ → Option ℕ → Bool
is_current job_id none = false
is_current job_id (some i) = i == job_id

is_failed : JobStatus → Bool
is_failed JobStatus.failed = true
is_failed _ = false

-- What the recovery does to the source of a job that it ended, and of one that it gave back.
unfoldable pub after_end : Job → Source → Source
unfolding is_current is_failed
after_end job source =
    if is_current job.id source.current_job_id
    then record source {
      current_job_id = none;
      status = if is_failed job.status then SourceStatus.error else SourceStatus.paused;
      last_error = job.error_message;
    }
    else source

unfoldable pub after_requeue : Job → Source → Source
after_requeue job source = record source {
  current_job_id = some job.id;
  status = SourceStatus.paused;
  last_error = job.error_message;
}

-- The loops of `_recover_stale` over the ids in the result.
unfoldable pub follow_all : (Job → Source → Source) → List ℕ → World → World
unfolding change_source
follow_all change [] w = w
follow_all change (job_id ∷ rest) w = elim (find_job job_id w.queue) [
  | none ↦ follow_all change rest w
  | some job ↦ follow_all change rest (change_source job.source_id (change job) w)
]

module _ (u : Unicode) (utc_now : ℕ) where
  unfoldable pub recover_stale : (ℕ → Bool) → WorkerSettings → World → Result World
  unfolding follow_all after_end after_requeue
  recover_stale locked settings w = do
    (result, queue) ←
        recover_stale_jobs u utc_now locked settings.worker_poll_interval_seconds (pos 100) none
          w.queue
    ok (
        follow_all after_requeue result.requeued_job_ids (
          follow_all after_end (result.failed_job_ids ++ result.cancelled_job_ids)
            (record w { queue = queue })))

  -- `process_once` of a process that nobody interrupts; the handler is a parameter.
  unfoldable pub process_once :
      (ℕ → Bool)
      → WorkerSettings
      → ℕ
      → (ℕ → World → World × Option HandlerOutcome)
      → World
      → Result (Option ℕ × World)
  unfolding execute_job
  process_once locked settings worker_id handler w = do
    recovered ← recover_stale locked settings w
    (job_id, claimed) ← claim u utc_now locked settings worker_id recovered
    elim job_id [
      | none ↦
          heartbeat_once u utc_now settings worker_id none claimed >>= λ beaten. ok (none, beaten)
      | some i ↦ do
        beaten ← heartbeat_once u utc_now settings worker_id (some i) claimed
        executed ← execute_job u utc_now worker_id i (handler i beaten)
        done ← heartbeat_once u utc_now settings worker_id none executed
        ok (some i, done)
    ]

  -- The indexer gives the same outcomes to the queue, with its own codes, and leaves sources alone.
  unfoldable pub indexer_call :
      ℕ → ℕ → HandlerOutcome → Disposition → Model.Store → Result (Option Job × Model.Store)
  unfolding or_default or_later seconds
  indexer_call job_id worker_id o Disposition.completed s =
      complete_job u utc_now job_id worker_id (some o.result) none s
  indexer_call job_id worker_id o Disposition.cancelled s =
      cancel_job u utc_now job_id (some worker_id) none s
  indexer_call job_id worker_id o Disposition.requeued s =
      requeue_job u utc_now job_id worker_id (or_later o.next_attempt_at (utc_now + seconds 60))
        (or_default o.error_code (codes "INDEX_RETRY_SCHEDULED"))
        (or_default o.error_message (codes "Повтор индексации запланирован")) none s
  indexer_call job_id worker_id o Disposition.failed s =
      fail_job u utc_now job_id worker_id (or_default o.error_code (codes "INDEX_JOB_FAILED"))
        (or_default o.error_message (codes "Индексация завершилась ошибкой")) (some o.result) none s

  unfoldable pub indexer_finalize : ℕ → ℕ → HandlerOutcome → World → Result World
  unfolding indexer_call
  indexer_finalize worker_id job_id o w = do
    (job, queue) ← indexer_call job_id worker_id o o.disposition w.queue
    ok (record w { queue = queue })

  unfoldable pub indexer_recover_stale : (ℕ → Bool) → WorkerSettings → World → Result World
  indexer_recover_stale locked settings w = do
    (result, queue) ←
        recover_stale_jobs u utc_now locked settings.worker_poll_interval_seconds (pos 100) none
          w.queue
    ok (record w { queue = queue })
