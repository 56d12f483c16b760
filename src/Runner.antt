-- ===== src/Runner.antt =====
-- The worker process of backend/app/workers/runner.py (`WorkerRunner`) over the queue of jobs, with
-- the rows of `sources` and `source_sync_states` that it keeps in step with the queue
-- (backend/app/db/models/operations.py, Source and SourceSyncState), and the recovery of
-- backend/app/workers/indexer.py.
pub mod Finalize
pub mod Follow
pub mod Written
pub mod Synced
pub mod Ends
pub mod Raised
pub mod Tests
use praktika.Prelude.{
  ℕ, Bool, true, false, ◌&&◌, Option, none, some, List, [], ◌∷◌, if◌then◌else◌, pos,
}
use praktika.Text.{Text, codes, text_eq}
use praktika.Sanitize.{
  DateTime, aware, Object, EventValue, Fields, bool_value, int_value, text, no_fields, field,
}
use praktika.Table.{find, put}
use praktika.Jobs.Model.{JobType, JobStatus, Job, same_type}
use praktika.Jobs.Model
use praktika.Jobs.Clock.{seconds}

pub data SourceStatus : Type 0 where
  idle checking syncing paused error disabled : SourceStatus

-- A row of `sources`, without the columns that only describe the site.
pub record Source : Type 0 where
  pub id : ℕ
  pub enabled : Bool
  pub status : SourceStatus
  pub current_job_id : Option ℕ
  pub last_error : Option Text
  pub last_sync_at : Option ℕ
  pub last_successful_sync_at : Option ℕ

-- The three entries of `state` that a finished synchronization leaves.
pub record SyncMark : Type 0 where
  pub fixed_todate : ℕ
  pub item_offset : ℕ
  pub completed_at : ℕ

-- A row of `source_sync_states`, without its counters.
pub record SourceSyncState : Type 0 where
  pub source_id : ℕ
  pub initial_sync_completed_at : Option ℕ
  pub next_page : ℕ
  pub incremental_watermark : Option ℕ
  pub current_mode : Option Text
  pub state : Option SyncMark

-- The tables that a worker process works on.
pub record World : Type 0 where
  pub queue : Model.Store
  pub sources : List Source
  pub sync_states : List SourceSyncState

pub data Disposition : Type 0 where
  completed failed requeued cancelled : Disposition

pub record HandlerOutcome : Type 0 where
  pub disposition : Disposition
  pub result : Object
  pub error_code : Option Text
  pub error_message : Option Text
  pub next_attempt_at : Option DateTime

abbrev pub source_key : Source → ℕ
source_key s = s.id

abbrev pub state_key : SourceSyncState → ℕ
state_key s = s.source_id

unfoldable pub save_source : Source → World → World
save_source source w = record w { sources = put source_key source w.sources }

-- `session.get(Source, job.source_id)` and the assignments to the row, if it is there.
unfoldable pub change_source : Option ℕ → (Source → Source) → World → World
unfolding save_source
change_source none change w = w
change_source (some source_id) change w = elim (find source_key source_id w.sources) [
  | none ↦ w
  | some source ↦ save_source (change source) w
]

-- `_update_source_after_job`, by the status of the job.
unfoldable pub source_after : JobStatus → Job → Source → Source
source_after JobStatus.completed job source = record source {
  status = SourceStatus.idle;
  current_job_id = none;
  last_error = none;
  last_sync_at = job.finished_at;
}
source_after JobStatus.cancelled job source = record source {
  status = SourceStatus.paused;
  current_job_id = none;
  last_error = some (codes "Синхронизация отменена");
}
source_after JobStatus.failed job source = record source {
  status = SourceStatus.error;
  current_job_id = none;
  last_error = job.error_message;
}
source_after JobStatus.queued job source = record source {
  status = SourceStatus.paused;
  current_job_id = some job.id;
  last_error = job.error_message;
}
source_after JobStatus.running job source = source

-- `job.result.get(key)`
unfoldable pub get_field : Text → Fields → Option EventValue
get_field key no_fields = none
get_field key (field k v fs) = if text_eq k key then some v else get_field key fs

-- `value is True`
unfoldable pub is_true : Option EventValue → Bool
is_true (some (bool_value b)) = b
is_true _ = false

-- `type(value) is not int or value < 0`
unfoldable pub natural_of : Option EventValue → Option ℕ
natural_of (some (int_value (pos n))) = some n
natural_of _ = none

unfoldable pub is_text : Text → Option EventValue → Bool
is_text t (some (text s)) = text_eq s t
is_text t _ = false

unfoldable pub finished_or : Option ℕ → ℕ → ℕ
finished_or none now = now
finished_or (some t) now = t

-- The assignments to the synchronization state of a source.
unfoldable pub state_row : Fields → ℕ → ℕ → SourceSyncState → SourceSyncState
unfolding get_field is_text seconds
state_row result fixed_todate completed_at state =
    let mode = get_field (codes "mode") result in
    record state {
      initial_sync_completed_at =
          if is_text (codes "INITIAL") mode
          then some completed_at
          else state.initial_sync_completed_at;
      incremental_watermark =
          if is_text (codes "INITIAL") mode
          then state.incremental_watermark
          else if is_text (codes "INCREMENTAL") mode
          then some (seconds fixed_todate)
          else state.incremental_watermark;
      next_page = 1;
      current_mode = none;
      state =
          some
            (record { fixed_todate = fixed_todate; item_offset = 0; completed_at = completed_at });
    }

unfoldable pub save_state : SourceSyncState → World → World
save_state state w = record w { sync_states = put state_key state w.sync_states }

unfoldable pub is_completed : JobStatus → Bool
is_completed JobStatus.completed = true
is_completed _ = false

-- The part of `_update_sync_completion` after the state was found.
unfoldable pub complete_state : ℕ → Job → SourceSyncState → World → World
unfolding get_field is_true natural_of state_row save_state finished_or
complete_state utc_now job state w =
    if is_true (get_field (codes "syncComplete") job.result)
    then (elim (natural_of (get_field (codes "fixedTodate") job.result)) [
      | none ↦ w
      | some fixed_todate ↦
          save_state (state_row job.result fixed_todate (finished_or job.finished_at utc_now) state)
            w
    ])
    else w

unfoldable pub update_sync_completion : ℕ → ℕ → Job → World → World
unfolding complete_state change_source get_field is_true is_completed same_type
update_sync_completion utc_now source_id job w =
    if is_completed job.status && same_type job.job_type JobType.source_sync
    then if is_true (get_field (codes "dryRun") job.result)
      then w
      else (let w' =
            change_source (some source_id)
              (λ source. record source { last_successful_sync_at = job.finished_at }) w in
          elim (find state_key source_id w'.sync_states) [
            | none ↦ w'
            | some state ↦ complete_state utc_now job state w'
          ])
    else w

-- `value or default` for a text that may be None.
unfoldable pub or_default : Option Text → Text → Text
or_default none t = t
or_default (some []) t = t
or_default (some (c ∷ cs)) t = c ∷ cs

unfoldable pub or_later : Option DateTime → ℕ → DateTime
or_later none t = aware t
or_later (some d) t = d
