-- ===== src/Admin.antt =====
-- What administrators and editors do to jobs and sources: backend/app/services/admin_jobs.py,
-- backend/app/services/admin_sources.py and backend/app/services/index_jobs.py, over the queue and the
-- rows of sources that the workers use. A request works on the tables in one transaction, which an
-- exception rolls back. The number of a new job and the time are arguments; audit events, the payload
-- of a job and the columns that only describe a site are left out.
pub mod Sources
pub mod Requests
pub mod Unique
pub mod Kept
pub mod Orderly
pub mod Waits
pub mod Tests
use praktika.Prelude.{
  ℕ, Bool, true, false, ◌&&◌, ◌||◌, not, Option, none, some, List, [], ◌∷◌, ◌==◌, if◌then◌else◌,
  any, filter, Result, ok, err, Error, or_raise, raise_if, ◌>>=◌, ◌>>◌,
}
use praktika.Text.{codes}
use praktika.Text.{Unicode}
use praktika.Jobs.Model.{Job, JobType, JobStatus, JobStage, Store, is_terminal, same_type}
use praktika.Jobs.Locks.{find_job}
use praktika.Jobs.Queue.{request_job_cancellation}
use praktika.Sanitize.{no_fields, DateTime}
use praktika.Runner.{World, Source, SourceStatus, change_source}

-- A new row of `jobs` with the defaults of its columns.
unfoldable pub new_job : ℕ → JobType → ℕ → Option ℕ → Option ℕ → Option ℕ → ℕ → ℕ → Job
new_job id job_type total_items source_id document_id created_by max_attempts now = record {
  id = id;
  job_type = job_type;
  status = JobStatus.queued;
  stage = JobStage.preparing;
  progress = 0;
  processed_items = 0;
  total_items = total_items;
  source_id = source_id;
  document_id = document_id;
  created_by = created_by;
  retry_of_job_id = none;
  claimed_by = none;
  claimed_at = none;
  lease_expires_at = none;
  heartbeat_at = none;
  attempt = 0;
  max_attempts = max_attempts;
  next_attempt_at = none;
  cancellation_requested_at = none;
  cancellable = true;
  checkpoint = no_fields;
  result = no_fields;
  request_count = 0;
  bytes_received = 0;
  error_code = none;
  error_message = none;
  created_at = now;
  started_at = none;
  finished_at = none;
}

-- Two NULLs are different to an index.
unfoldable pub equal_ids : Option ℕ → Option ℕ → Bool
equal_ids (some a) (some b) = a == b
equal_ids _ _ = false

unfoldable pub is_live : Job → Bool
is_live job = not (is_terminal job.status)

unfoldable pub is_reindex : Job → Bool
unfolding same_type
is_reindex job =
    same_type job.job_type JobType.document_reindex
    || same_type job.job_type JobType.document_reprocess

unfoldable pub is_sync : Job → Bool
unfolding same_type
is_sync job = same_type job.job_type JobType.source_sync

unfoldable pub is_full_reindex : Job → Bool
unfolding same_type
is_full_reindex job = same_type job.job_type JobType.full_reindex

-- What the three partial indexes of the table compare.
unfoldable pub same_work : Job → Job → Bool
unfolding equal_ids is_reindex is_sync is_full_reindex
same_work a b =
    (is_reindex a && is_reindex b && equal_ids a.document_id b.document_id)
    || (is_sync a && is_sync b && equal_ids a.source_id b.source_id)
    || (is_full_reindex a && is_full_reindex b)

unfoldable pub conflicts : Job → Job → Bool
unfolding is_live same_work
conflicts a b = is_live a && is_live b && same_work a b

-- `db.add(job)` and the flush.
unfoldable pub add_job : Job → Store → Result Store
unfolding conflicts
add_job job s = do
  raise_if (any (λ other. other.id == job.id || conflicts job other) s.jobs) Error.integrity_error
  ok (record s { jobs = job ∷ s.jobs })

-- `except IntegrityError`: the answer 409.
unfoldable pub add_or_conflict : Job → Store → Result Store
unfolding add_job
add_or_conflict job s = elim (add_job job s) [ ok s' ↦ ok s' | err e ↦ err Error.conflict ]

unfoldable pub get_job_record : ℕ → World → Result Job
get_job_record job_id w = or_raise Error.not_found (find_job job_id w.queue)

unfoldable pub can_retry : JobStatus → Bool
can_retry JobStatus.failed = true
can_retry JobStatus.cancelled = true
can_retry _ = false

unfoldable pub retried : ℕ → ℕ → ℕ → ℕ → Job → Job
unfolding new_job
retried new_id actor_id max_attempts now original =
    record (new_job new_id original.job_type original.total_items original.source_id
      original.document_id (some actor_id) max_attempts now) {
        retry_of_job_id = some original.id;
        checkpoint = original.checkpoint;
      }

unfoldable pub syncing_with : ℕ → Source → Source
syncing_with job_id source = record source {
  current_job_id = some job_id;
  status = SourceStatus.syncing;
}

unfoldable pub retry_job : ℕ → ℕ → ℕ → ℕ → ℕ → World → Result (Job × World)
unfolding get_job_record can_retry retried add_or_conflict syncing_with
retry_job new_id actor_id max_attempts now job_id w = do
  original ← get_job_record job_id w
  raise_if (not (can_retry original.status)) Error.conflict
  let job = retried new_id actor_id max_attempts now original
  queue ← add_or_conflict job w.queue
  ok (job, change_source original.source_id (syncing_with job.id) (record w { queue = queue }))

-- The assignments of `cancel_job` to the source of a job.
unfoldable pub is_cancelled_status : JobStatus → Bool
is_cancelled_status JobStatus.cancelled = true
is_cancelled_status _ = false

unfoldable pub after_cancellation : Job → Source → Source
unfolding equal_ids is_cancelled_status
after_cancellation job source =
    if equal_ids source.current_job_id (some job.id) && is_cancelled_status job.status
    then record source { current_job_id = none; status = SourceStatus.paused }
    else record source { last_error = some (codes "Запрошена безопасная отмена задания") }

-- `except JobQueueStateError`: the answer 409; other exceptions go on.
unfoldable pub queue_conflict : Error → Error
queue_conflict Error.job_queue_state_error = Error.conflict
queue_conflict e = e

unfoldable pub request_or_conflict :
    Unicode → ℕ → ℕ → Option DateTime → Store → Result (Job × Store)
unfolding queue_conflict
request_or_conflict u utc_now job_id now s =
    elim (request_job_cancellation u utc_now job_id now s) [
      | err e ↦ err (queue_conflict e)
      | ok answer ↦ elim answer.0 [ none ↦ err Error.not_found | some job ↦ ok (job, answer.1) ]
    ]

unfoldable pub cancel_job : Unicode → ℕ → ℕ → World → Result (Job × World)
unfolding get_job_record request_or_conflict after_cancellation
cancel_job u utc_now job_id w = do
  job ← get_job_record job_id w
  raise_if (is_terminal job.status) Error.conflict
  answer ← request_or_conflict u utc_now job_id none w.queue
  ok (
    answer.0,
    change_source answer.0.source_id (after_cancellation answer.0) (record w { queue = answer.1 }),
  )

unfoldable pub start_full_reindex : ℕ → ℕ → ℕ → ℕ → World → Result (Job × World)
unfolding new_job add_or_conflict
start_full_reindex new_id actor_id max_attempts now w = do
  let job = new_job new_id JobType.full_reindex 0 none none (some actor_id) max_attempts now
  queue ← add_or_conflict job w.queue
  ok (job, record w { queue = queue })

-- The statement of `enqueue_document_reindex`.
unfoldable pub reindexes : ℕ → Job → Bool
unfolding is_reindex is_live equal_ids
reindexes document_id job =
    is_reindex job && is_live job && equal_ids job.document_id (some document_id)

unfoldable pub first_job : List Job → Option Job
first_job [] = none
first_job (job ∷ jobs) = some job

unfoldable pub existing_reindex : ℕ → Store → Option Job
unfolding reindexes first_job
existing_reindex document_id s = first_job (filter (reindexes document_id) s.jobs)

unfoldable pub enqueue_document_reindex :
    ℕ → Bool → Bool → ℕ → Option ℕ → Option ℕ → ℕ → ℕ → Store → Option Job × Store
unfolding existing_reindex new_job add_job
enqueue_document_reindex new_id auto force document_id source_id created_by max_attempts now s =
    if not force && not auto then (none, s) else elim (existing_reindex document_id s) [
      | some existing ↦ (some existing, s)
      | none ↦
          let job : Job =
            new_job new_id JobType.document_reindex 1 source_id (some document_id) created_by
              max_attempts now in
          elim (add_job job s) [
            | ok s' ↦ (some job, s')
            | err e ↦ (existing_reindex document_id s, s)
          ]
    ]
