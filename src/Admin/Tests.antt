-- ===== src/Admin/Tests.antt =====
-- Requests on small tables.
use praktika.Prelude.{
  ℕ, ◌≡◌, refl, Bool, true, false, Option, none, some, List, [], ◌∷◌, map, arith, ok, Result,
}
use praktika.Text.{codes}
use praktika.Jobs.Model.{Job, JobType, JobStatus}
use praktika.Jobs.Commands.{Command}
use praktika.Jobs.Tests.{ascii, waiting, idle}
use praktika.Prelude.{or_raise}
use praktika.Table.{find, put, least}
use praktika.Jobs.Locks.{find_job}
use praktika.Jobs.Commands.{execute}
use praktika.Jobs.Clock.{resolve_now}
use praktika.Jobs.Events.{add_job_event}
use praktika.Sanitize.{normalize_event_code, sanitize_metrics}
use praktika.Jobs.Queue.{request_job_cancellation, log_event, cancel_job}
use praktika.Jobs.Transitions.{cancel_row, request_row}
use praktika.Jobs.Locks.{save_job, release_claimant}
use praktika.Admin.{add_job}
use praktika.Admin.Sources.{start_source_sync, update_source, stop_source_sync, active_sync}
use praktika.Runner.{World, Source, SourceStatus, change_source}
use praktika.Admin.{enqueue_document_reindex, retry_job}
use praktika.Admin.Requests.{AdminRequest, Event, happen_all}
use praktika.Admin.Unique.{IsOrderly}
use praktika.Admin.Orderly.{happen_all-IsOrderly}
use praktika.Admin.Waits.{Waits, enqueue-Waits}

abbrev source : Bool → SourceStatus → Source
source enabled status = record {
  id = 4;
  enabled = enabled;
  status = status;
  current_job_id = none;
  last_error = none;
  last_sync_at = none;
  last_successful_sync_at = none;
}

abbrev world : World
world = record {
  queue = record {
    jobs = record (waiting 1 10) { source_id = some 4 } ∷ [];
    workers = idle ∷ [];
    events = [];
  };
  sources = source true SourceStatus.idle ∷ [];
  sync_states = [];
}

world-IsOrderly : IsOrderly world.queue
world-IsOrderly = record { queue = ground arith; unique = (tt, tt) }

abbrev history : List (ℕ × Event)
history =
    (
      50,
      Event.request
          (AdminRequest.start_sync 2 9 5 0 4 (record { mode = codes "INITIAL"; dry_run = false })),
    )
    ∷ (52, Event.request (AdminRequest.update 4 (some false)))
    ∷ (53, Event.queue_call (Command.cancel 1 none none))
    ∷ (54, Event.request (AdminRequest.retry 3 9 5 1))
    ∷ (55, Event.request (AdminRequest.retry 4 9 5 1))
    ∷ (56, Event.request (AdminRequest.stop_sync 4))
    ∷ []

happen_all-IsOrderly_example : IsOrderly (happen_all ascii history world).queue
happen_all-IsOrderly_example = happen_all-IsOrderly ascii history world world-IsOrderly

-- The second start and the second retry are refused, and so is the change of a source at work.
history_run :
    map {B = ℕ × JobStatus} (λ j. (j.id, j.status)) (happen_all ascii history world).queue.jobs
    ≡ (3, JobStatus.cancelled) ∷ (1, JobStatus.cancelled) ∷ []
unfolding happen_all start_source_sync update_source stop_source_sync retry_job or_raise find
    find_job put change_source execute request_job_cancellation log_event resolve_now add_job_event
    normalize_event_code sanitize_metrics save_job least active_sync add_job cancel_job
    release_claimant cancel_row request_row
history_run = refl

enqueue-Waits_example :
    Waits 6 (enqueue_document_reindex 2 false true 6 (some 4) none 5 50 world.queue)
enqueue-Waits_example =
    enqueue-Waits 2 false true 6 (some 4) none 5 50 world.queue world-IsOrderly refl refl

-- A source is as the retry of a job leaves it.
abbrev after_retry : Result (Job × World) → List (Bool × SourceStatus × Option ℕ)
after_retry (ok a) = map (λ s. (s.enabled, s.status, s.current_job_id)) a.1.sources
after_retry _ = []

abbrev failed_world : JobType → Bool → World
failed_world job_type enabled = record world {
  queue = record {
    jobs =
        record (waiting 1 10) {
          job_type = job_type;
          status = JobStatus.failed;
          source_id = some 4;
          document_id = some 6;
        }
        ∷ [];
    workers = [];
    events = [];
  };
  sources = source enabled SourceStatus.idle ∷ [];
}

-- The retry of an index job marks the source of its document as synchronizing.
retry_of_index_job :
    after_retry (retry_job 2 9 5 50 1 (failed_world JobType.document_reindex true))
    ≡ (true, SourceStatus.syncing, some 2) ∷ []
unfolding retry_job or_raise find find_job put change_source
retry_of_index_job = refl

-- The retry of a synchronization does not ask whether its source is disabled.
retry_of_disabled_source :
    after_retry (retry_job 2 9 5 50 1 (failed_world JobType.source_sync false))
    ≡ (false, SourceStatus.syncing, some 2) ∷ []
unfolding retry_job or_raise find find_job put change_source
retry_of_disabled_source = refl
