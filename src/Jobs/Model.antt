-- ===== src/Jobs/Model.antt =====
-- The rows of the durable queue: backend/app/core/enums.py (JobType, JobStatus, JobStage,
-- JobEventLevel, WorkerInstanceStatus) and backend/app/db/models/operations.py (Job,
-- WorkerInstance, JobEvent). UUIDs are the numbers that they spell, instants are microseconds of
-- UTC, and columns that the queue neither reads nor writes are left out.
use praktika.Prelude.{ℕ, Bool, true, false, Option, List, ◌==◌}
use praktika.Text.{Text}
use praktika.Sanitize.{Fields}

pub data JobType : Type 0 where
  source_sync document_reprocess document_reindex full_reindex : JobType
  health_check search_index_validate search_index_cleanup : JobType

type_code : JobType → ℕ
type_code source_sync = 0
type_code document_reprocess = 1
type_code document_reindex = 2
type_code full_reindex = 3
type_code health_check = 4
type_code search_index_validate = 5
type_code search_index_cleanup = 6

unfoldable pub same_type : JobType → JobType → Bool
unfolding type_code
same_type a b = type_code a == type_code b

pub data JobStatus : Type 0 where
  queued running completed failed cancelled : JobStatus

pub data JobStage : Type 0 where
  preparing fetching_questions fetching_answers waiting_backoff processing : JobStage
  crawling cleaning deduplicating chunking embedding : JobStage
  indexing_bm25 indexing_vector finalizing : JobStage

pub data JobEventLevel : Type 0 where
  debug info warning error : JobEventLevel

pub data WorkerStatus : Type 0 where
  starting running stopping stopped : WorkerStatus

pub record Job : Type 0 where
  pub id : ℕ
  pub job_type : JobType
  pub status : JobStatus
  pub stage : JobStage
  pub progress : ℕ
  pub processed_items : ℕ
  pub total_items : ℕ
  pub source_id : Option ℕ
  pub document_id : Option ℕ
  pub created_by : Option ℕ
  pub retry_of_job_id : Option ℕ
  pub claimed_by : Option ℕ
  pub claimed_at : Option ℕ
  pub lease_expires_at : Option ℕ
  pub heartbeat_at : Option ℕ
  pub attempt : ℕ
  pub max_attempts : ℕ
  pub next_attempt_at : Option ℕ
  pub cancellation_requested_at : Option ℕ
  pub cancellable : Bool
  pub checkpoint : Fields
  pub result : Fields
  pub request_count : ℕ
  pub bytes_received : ℕ
  pub error_code : Option Text
  pub error_message : Option Text
  pub created_at : ℕ
  pub started_at : Option ℕ
  pub finished_at : Option ℕ

pub record Worker : Type 0 where
  pub id : ℕ
  pub name : Text
  pub instance_id : Text
  pub capabilities : List Text
  pub version : Text
  pub hostname : Text
  pub pid : ℕ
  pub status : WorkerStatus
  pub current_job_id : Option ℕ
  pub started_at : ℕ
  pub heartbeat_at : ℕ
  pub stopped_at : Option ℕ

pub record JobEvent : Type 0 where
  pub job_id : ℕ
  pub level : JobEventLevel
  pub stage : JobStage
  pub code : Text
  pub message : Text
  pub metrics : Fields
  pub created_at : ℕ

-- What a session sees of the three tables.
pub record Store : Type 0 where
  pub jobs : List Job
  pub workers : List Worker
  pub events : List JobEvent

abbrev pub job_key : Job → ℕ
job_key j = j.id

abbrev pub worker_key : Worker → ℕ
worker_key w = w.id

abbrev pub is_queued : JobStatus → Bool
is_queued JobStatus.queued = true
is_queued _ = false

abbrev pub is_running : JobStatus → Bool
is_running JobStatus.running = true
is_running _ = false

-- COMPLETED, FAILED or CANCELLED.
abbrev pub is_terminal : JobStatus → Bool
is_terminal JobStatus.completed = true
is_terminal JobStatus.failed = true
is_terminal JobStatus.cancelled = true
is_terminal _ = false

abbrev pub is_stopped : WorkerStatus → Bool
is_stopped WorkerStatus.stopped = true
is_stopped _ = false

abbrev pub is_stopping : WorkerStatus → Bool
is_stopping WorkerStatus.stopping = true
is_stopping _ = false
