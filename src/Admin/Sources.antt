-- ===== src/Admin/Sources.antt =====
-- Start, stop and configuration of a source: backend/app/services/admin_sources.py.
use praktika.Prelude.{
  ℕ, Bool, true, false, ◌&&◌, ◌||◌, not, Option, none, some, ◌∷◌, ◌==◌, ltb, if◌then◌else◌, filter,
  Result, ok, Error, or_raise, raise_if, ◌>>=◌, ◌>>◌,
}
use praktika.Text.{Text, Unicode, codes}
use praktika.Sanitize.{aware}
use praktika.Table.{find, least}
use praktika.Jobs.Model.{Job, JobType, Store}
use praktika.Runner.{
  World, Source, SourceStatus, SourceSyncState, source_key, state_key, save_source, save_state,
}
use praktika.Admin.{
  new_job, add_or_conflict, syncing_with, equal_ids, is_live, is_sync, is_cancelled_status,
  first_job, request_or_conflict,
}

-- What the code reads of a request to synchronize.
pub record SourceSyncRequest : Type 0 where
  pub mode : Text
  pub dry_run : Bool

unfoldable pub is_disabled : SourceStatus → Bool
is_disabled SourceStatus.disabled = true
is_disabled _ = false

unfoldable pub get_source_record : ℕ → World → Result Source
get_source_record source_id w = or_raise Error.not_found (find source_key source_id w.sources)

-- `get_or_create_sync_state`: the row, in the tables.
unfoldable pub get_or_create_sync_state : ℕ → World → SourceSyncState × World
get_or_create_sync_state source_id w = elim (find state_key source_id w.sync_states) [
  | some state ↦ (state, w)
  | none ↦
      let state : SourceSyncState = record {
        source_id = source_id;
        initial_sync_completed_at = none;
        next_page = 1;
        incremental_watermark = none;
        current_mode = none;
        state = none;
      } in
      (state, record w { sync_states = state ∷ w.sync_states })
]

unfoldable pub mark_mode : SourceSyncRequest → SourceSyncState → SourceSyncState
mark_mode payload state =
    if payload.dry_run then state else record state { current_mode = some payload.mode }

unfoldable pub start_source_sync :
    ℕ → ℕ → ℕ → ℕ → ℕ → ℕ → SourceSyncRequest → World → Result (Job × World)
unfolding get_source_record is_disabled new_job add_or_conflict syncing_with save_source save_state
    get_or_create_sync_state mark_mode
start_source_sync new_id actor_id max_attempts target_documents now source_id payload w = do
  source ← get_source_record source_id w
  raise_if (not source.enabled || is_disabled source.status) Error.conflict
  let job =
      new_job new_id JobType.source_sync target_documents (some source.id) none (some actor_id)
        max_attempts now
  queue ← add_or_conflict job w.queue
  let started =
      save_source (record (syncing_with job.id source) { last_sync_at = some now })
        (record w { queue = queue })
  let (state, w') = get_or_create_sync_state source.id started
  ok (job, save_state (mark_mode payload state) w')

unfoldable pub syncs : ℕ → Job → Bool
unfolding is_sync is_live equal_ids
syncs source_id job = is_sync job && is_live job && equal_ids job.source_id (some source_id)

-- The active job that a stop is for.
unfoldable pub active_sync : ℕ → Store → Option Job
unfolding syncs first_job
active_sync source_id s = first_job (filter (syncs source_id) s.jobs)

unfoldable pub was_stopped : ℕ → Job → Bool
unfolding is_sync equal_ids is_cancelled_status
was_stopped source_id job =
    is_sync job
    && equal_ids job.source_id (some source_id)
    && is_cancelled_status job.status
    && is_set job.cancellation_requested_at
  where
    is_set : Option ℕ → Bool
    is_set none = false
    is_set (some t) = true

-- `order_by(finished_at.desc(), id)`; PostgreSQL puts NULL first when it sorts downwards.
unfoldable pub ended_before : Job → Job → Bool
ended_before a b = later a.finished_at b.finished_at
  where
    later : Option ℕ → Option ℕ → Bool
    later none none = ltb a.id b.id
    later none (some t) = true
    later (some t) none = false
    later (some t) (some v) = ltb v t || (t == v && ltb a.id b.id)

unfoldable pub after_stop : Job → Source → Source
unfolding is_cancelled_status
after_stop job source =
    if is_cancelled_status job.status
    then record source { current_job_id = none; status = SourceStatus.paused }
    else record source { last_error = some (codes "Запрошена безопасная остановка синхронизации") }

unfoldable pub stop_source_sync : Unicode → ℕ → ℕ → World → Result (Job × World)
unfolding get_source_record active_sync was_stopped ended_before after_stop save_source
    request_or_conflict
stop_source_sync u now source_id w = do
  source ← get_source_record source_id w
  elim (active_sync source.id w.queue) [
    | none ↦ do
      job ←
          or_raise Error.conflict (least ended_before (filter (was_stopped source.id) w.queue.jobs))
      ok (job, w)
    | some job ↦ do
      answer ← request_or_conflict u now job.id (some (aware now)) w.queue
      ok (answer.0, save_source (after_stop answer.0 source) (record w { queue = answer.1 }))
  ]

unfoldable pub is_there : Option Job → Bool
is_there none = false
is_there (some job) = true

-- The part of `update_source` that the status depends on; `enabled` is None when it is not changed.
unfoldable pub update_source : ℕ → Option Bool → World → Result World
unfolding get_source_record active_sync save_source is_disabled is_there
update_source source_id none w = get_source_record source_id w >>= λ source. ok w
update_source source_id (some false) w = do
  source ← get_source_record source_id w
  raise_if (is_there (active_sync source.id w.queue)) Error.conflict
  ok (save_source (record source { enabled = false; status = SourceStatus.disabled }) w)
update_source source_id (some true) w = do
  source ← get_source_record source_id w
  ok (
      save_source
        (record source {
          enabled = true;
          status = if is_disabled source.status then SourceStatus.idle else source.status;
        })
        w)
