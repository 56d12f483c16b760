-- ===== src/Runner/Tests.antt =====
-- A worker process on small tables: a job that runs for a source, and one of the indexer.
use praktika.Prelude.{
  ℕ, ◌≡◌, refl, true, false, none, some, Option, [], ◌∷◌, ok, err, Result, pos, map,
}
use praktika.Text.{codes}
use praktika.Sanitize.{
  mapping, entry, no_entries, bool, int, normalize_event_code, sanitize_metrics, sanitize_value,
  is_sensitive_key, set_field,
}
use praktika.Table.{find, put, sort}
use praktika.Jobs.Model.{JobType, JobStatus, Job, is_running}
use praktika.Jobs.Clock.{resolve_now, seconds, positive, non_negative}
use praktika.Jobs.Events.{add_job_event}
use praktika.Jobs.Transitions.{complete_row, release_row, requeue_row}
use praktika.Jobs.Locks.{
  find_job, lock_worker, lock_running_job_for_worker, save_job, save_worker, release_worker_job,
  release_claimant,
}
use praktika.Jobs.Queue.{complete_job, log_event}
use praktika.Jobs.Recovery.{recover_stale_jobs, stale_ids, recover_jobs, recover_job}
use praktika.Jobs.Tests.{ascii, waiting, idle, unlocked}
use praktika.Runner.{
  Source, SourceStatus, SourceSyncState, World, Disposition, HandlerOutcome, source_key,
}
use praktika.Runner.Finalize.{finalize, queue_call, execute_job, recover_stale, WorkerSettings}
use praktika.Runner.Ends.{Says, source_of, finalize_ends_run}
use praktika.Runner.Raised.{raised_handler_fails_job}

-- A job in the hands of worker 7.
abbrev held : ℕ → JobType → Job
held id type = record (waiting id 0) {
  job_type = type;
  status = JobStatus.running;
  source_id = some 5;
  claimed_by = some 7;
  lease_expires_at = some 50;
  attempt = 1;
}

abbrev site : Source
site = record {
  id = 5;
  enabled = true;
  status = SourceStatus.syncing;
  current_job_id = some 1;
  last_error = none;
  last_sync_at = none;
  last_successful_sync_at = none;
}

abbrev unsynced : SourceSyncState
unsynced = record {
  source_id = 5;
  initial_sync_completed_at = none;
  next_page = 4;
  incremental_watermark = none;
  current_mode = some (codes "INITIAL");
  state = none;
}

abbrev world : Job → World
world job = record {
  queue = record { jobs = job ∷ []; workers = idle ∷ []; events = [] };
  sources = site ∷ [];
  sync_states = unsynced ∷ [];
}

abbrev synced : HandlerOutcome
synced = record {
  disposition = Disposition.completed;
  result = mapping (
      entry (codes "syncComplete") (bool true)
        (entry (codes "fixedTodate") (int (pos 9)) no_entries));
  error_code = none;
  error_message = none;
  next_attempt_at = none;
}

abbrev value : World → Result World → World
value w (ok w') = w'
value w (err e) = w

abbrev finished : World
finished =
    value (world (held 1 JobType.source_sync))
      (finalize ascii 100 7 1 synced (world (held 1 JobType.source_sync)))

finalize_ends_run_example :
    (k : Job) × (find_job 1 finished.queue ≡ some k)
    × (is_running k.status ≡ false)
    × Says
        (source_of (some 5) (world (held 1 JobType.source_sync)))
        k
        (world (held 1 JobType.source_sync))
        finished
unfolding finalize queue_call find_job find put complete_job lock_running_job_for_worker resolve_now
    log_event add_job_event normalize_event_code sanitize_metrics save_job save_worker
    release_worker_job release_row complete_row lock_worker sanitize_value is_sensitive_key
    set_field
finalize_ends_run_example =
    finalize_ends_run ascii 100 7 1 synced (world (held 1 JobType.source_sync)) finished
      (held 1 JobType.source_sync) refl refl

raised_handler_fails_job_example :
    (w' : World) × (k : Job) × (after : Source) × (execute_job ascii 100 7 1
        (world (held 1 JobType.source_sync), none)
      ≡ ok w')
    × (find_job 1 w'.queue ≡ some k)
    × (k.status ≡ JobStatus.failed)
    × (k.error_code ≡ some (codes "INTERNAL_HANDLER_ERROR"))
    × (find source_key 5 w'.sources ≡ some after)
    × (after.status ≡ SourceStatus.error)
    × (after.current_job_id ≡ none)
unfolding lock_running_job_for_worker find_job find
raised_handler_fails_job_example =
    raised_handler_fails_job ascii 100 7 1 5 (world (held 1 JobType.source_sync))
      (held 1 JobType.source_sync) site refl refl refl

abbrev settings : WorkerSettings
settings = record { worker_lease_seconds = pos 60; worker_poll_interval_seconds = pos 5 }

-- The recovery of a job of the indexer marks its source as paused by that job, although the source
-- did not wait for it.
index_job_pauses_source :
    map {B = SourceStatus × Option ℕ}
      (λ (s : Source). (s.status, s.current_job_id))
      (value (world (held 2 JobType.document_reindex)) (
        recover_stale ascii 100 unlocked settings
          (world (held 2 JobType.document_reindex)))).sources
    ≡ (SourceStatus.paused, some 2) ∷ []
unfolding recover_stale recover_stale_jobs find_job find put resolve_now positive non_negative
    log_event add_job_event normalize_event_code sanitize_metrics save_job save_worker recover_jobs
    recover_job release_claimant release_worker_job release_row requeue_row lock_worker
    sanitize_value is_sensitive_key set_field stale_ids sort seconds
index_job_pauses_source = refl
