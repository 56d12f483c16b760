-- ===== src/Jobs/Transitions.antt =====
-- What each transition of the queue writes into a row: the assignments of jobs.py, one function
-- for each block of them.
use praktika.Prelude.{ℕ, ◌+◌, Bool, true, false, Option, none, some, max, ◌==◌, if◌then◌else◌}
use praktika.Text.{Text}
use praktika.Sanitize.{Fields}
use praktika.Jobs.Model.{Job, JobStatus, JobStage, Worker, WorkerStatus}
use praktika.Jobs.Clock.{later, seconds}

-- `job.started_at or moment`, and the same for `cancellation_requested_at`.
abbrev pub or_now : Option ℕ → ℕ → Option ℕ
or_now none moment = some moment
or_now (some t) moment = some t

-- `max(old, new)` where the new value is given.
abbrev pub raise_to : ℕ → Option ℕ → ℕ
raise_to old none = old
raise_to old (some new) = max old new

abbrev pub stage_or : JobStage → Option JobStage → JobStage
stage_or old none = old
stage_or old (some new) = new

abbrev pub fields_or : Fields → Option Fields → Fields
fields_or old none = old
fields_or old (some new) = new

-- `claim_next_job`
unfoldable pub claim_row : ℕ → ℕ → ℕ → Job → Job
unfolding seconds
claim_row worker_id lease moment job = record job {
  status = JobStatus.running;
  claimed_by = some worker_id;
  claimed_at = some moment;
  heartbeat_at = some moment;
  lease_expires_at = some (moment + seconds lease);
  attempt = job.attempt + 1;
  next_attempt_at = none;
  error_code = none;
  error_message = none;
  started_at = or_now job.started_at moment;
}

-- `heartbeat_job`
unfoldable pub heartbeat_row : ℕ → ℕ → Job → Job
unfolding later seconds
heartbeat_row lease moment job = record job {
  heartbeat_at = some (later job.heartbeat_at moment);
  lease_expires_at = some (later job.lease_expires_at (moment + seconds lease));
}

-- The checked keyword arguments of `update_job_progress`.
pub record Progress : Type 0 where
  pub progress : Option ℕ
  pub processed_items : Option ℕ
  pub total_items : Option ℕ
  pub stage : Option JobStage
  pub checkpoint : Option Fields
  pub request_count_delta : ℕ
  pub bytes_received_delta : ℕ

-- `update_job_progress`
unfoldable pub progress_row : Progress → Job → Job
progress_row p job = record job {
  progress = raise_to job.progress p.progress;
  processed_items = raise_to job.processed_items p.processed_items;
  total_items = raise_to job.total_items p.total_items;
  stage = stage_or job.stage p.stage;
  checkpoint = fields_or job.checkpoint p.checkpoint;
  request_count = job.request_count + p.request_count_delta;
  bytes_received = job.bytes_received + p.bytes_received_delta;
}

-- `request_job_cancellation`, before the job is cancelled at once or left to its worker.
unfoldable pub request_row : ℕ → Job → Job
request_row moment job = record job { cancellation_requested_at = some moment }

-- `complete_job`
unfoldable pub complete_row : Fields → ℕ → Job → Job
unfolding later
complete_row result moment job = record job {
  status = JobStatus.completed;
  stage = JobStage.finalizing;
  progress = 100;
  result = result;
  error_code = none;
  error_message = none;
  finished_at = some moment;
  heartbeat_at = some (later job.heartbeat_at moment);
  lease_expires_at = none;
  next_attempt_at = none;
  cancellable = false;
}

-- `_fail_locked_job`
unfoldable pub fail_row : Text → Text → Fields → ℕ → Job → Job
unfolding later
fail_row code message result moment job = record job {
  status = JobStatus.failed;
  error_code = some code;
  error_message = some message;
  result = result;
  finished_at = some moment;
  heartbeat_at = some (later job.heartbeat_at moment);
  lease_expires_at = none;
  next_attempt_at = none;
  cancellable = false;
}

-- `_cancel_locked_job`
unfoldable pub cancel_row : ℕ → Job → Job
unfolding later
cancel_row moment job = record job {
  status = JobStatus.cancelled;
  finished_at = some moment;
  cancellation_requested_at = or_now job.cancellation_requested_at moment;
  heartbeat_at = some (later job.heartbeat_at moment);
  lease_expires_at = none;
  next_attempt_at = none;
  cancellable = false;
}

-- The return to the queue, which `requeue_job` and `recover_stale_jobs` share.
unfoldable pub requeue_row : JobStage → ℕ → Text → Text → Job → Job
requeue_row stage retry_at code message job = record job {
  status = JobStatus.queued;
  stage = stage;
  next_attempt_at = some retry_at;
  error_code = some code;
  error_message = some message;
  cancellable = true;
  claimed_by = none;
  claimed_at = none;
  lease_expires_at = none;
  heartbeat_at = none;
}

-- The worker's side of a claim.
unfoldable pub occupy_row : ℕ → ℕ → Worker → Worker
unfolding later
occupy_row job_id moment worker = record worker {
  status = WorkerStatus.running;
  current_job_id = some job_id;
  heartbeat_at = later (some worker.heartbeat_at) moment;
  stopped_at = none;
}

-- Is this the job that the worker holds?
abbrev pub holds : Option ℕ → ℕ → Bool
holds none job_id = false
holds (some k) job_id = k == job_id

-- `_release_worker_job`, on the worker's row.
unfoldable pub release_row : ℕ → ℕ → Worker → Worker
unfolding later
release_row job_id moment worker = record worker {
  heartbeat_at = later (some worker.heartbeat_at) moment;
  current_job_id = if holds worker.current_job_id job_id then none else worker.current_job_id;
}
