-- ===== src/Runner/Synced.antt =====
-- What `_update_source_after_job` and the end of a synchronization leave in the row of the source, from
-- backend/app/workers/runner.py.
use praktika.Prelude.{
  ℕ, ◌≡◌, refl, ◌∙◌, false, ◌&&◌, Option, none, some, Bool-cases, Option-cases, ◌⊎◌, inl, inr,
}
use praktika.Text.{codes}
use praktika.Table.{find}
use praktika.Table.Rows.{find-put_self, key-find}
use praktika.Jobs.Model.{Job, JobStatus, JobType, is_running, same_type}
use praktika.Runner.{
  Source, SourceStatus, World, source_key, source_after, change_source, update_sync_completion,
  save_source, complete_state, save_state, get_field, is_true, natural_of, SourceSyncState,
  is_completed, state_key,
}
use praktika.Runner.Written.{queue-change_source}

-- What the source of a job says after the job came out of a run with a status.
abbrev pub Follows : JobStatus → Job → Source → Type 0
Follows JobStatus.completed job source =
    (source.status ≡ SourceStatus.idle)
    × (source.current_job_id ≡ none)
    × (source.last_error ≡ none)
    × (source.last_sync_at ≡ job.finished_at)
Follows JobStatus.cancelled job source =
    (source.status ≡ SourceStatus.paused) × (source.current_job_id ≡ none)
Follows JobStatus.failed job source =
    (source.status ≡ SourceStatus.error)
    × (source.current_job_id ≡ none)
    × (source.last_error ≡ job.error_message)
Follows JobStatus.queued job source =
    (source.status ≡ SourceStatus.paused)
    × (source.current_job_id ≡ some job.id)
    × (source.last_error ≡ job.error_message)
Follows JobStatus.running job source = ⊥

pub source_after-Follows :
    (status : JobStatus) (job : Job) (source : Source)
    → is_running status ≡ false
    → Follows status job (source_after status job source)
unfolding source_after
source_after-Follows JobStatus.completed job source stops = (refl, refl, refl, refl)
source_after-Follows JobStatus.cancelled job source stops = (refl, refl)
source_after-Follows JobStatus.failed job source stops = (refl, refl, refl)
source_after-Follows JobStatus.queued job source stops = (refl, refl, refl)
source_after-Follows JobStatus.running job source stops = cc

pub id-source_after :
    (status : JobStatus) (job : Job) (source : Source)
    → (source_after status job source).id ≡ source.id
unfolding source_after
id-source_after JobStatus.completed job source = refl
id-source_after JobStatus.cancelled job source = refl
id-source_after JobStatus.failed job source = refl
id-source_after JobStatus.queued job source = refl
id-source_after JobStatus.running job source = refl

pub found_change :
    (source_id : ℕ) (change : Source → Source) (w : World) (source : Source)
    → (change source).id ≡ source.id
    → find source_key source_id w.sources ≡ some source
    → find source_key source_id (change_source (some source_id) change w).sources
      ≡ some (change source)
unfolding change_source save_source
found_change source_id change w source same found =
    rw (found, change_source)
      (find-put_self source_key source_id (change source) w.sources source
        (same ∙ key-find source_key source_id w.sources source found) found)

dated_Follows :
    (status : JobStatus) (job : Job) (source : Source)
    → Follows status job source
    → Follows status job (record source { last_successful_sync_at = job.finished_at })
dated_Follows JobStatus.completed job source h = h
dated_Follows JobStatus.cancelled job source h = h
dated_Follows JobStatus.failed job source h = h
dated_Follows JobStatus.queued job source h = h
dated_Follows JobStatus.running job source h = absurd h

complete_state_frame :
    (utc_now : ℕ) (job : Job) (state : SourceSyncState) (w : World)
    → ((complete_state utc_now job state w).sources ≡ w.sources)
      × ((complete_state utc_now job state w).queue ≡ w.queue)
unfolding complete_state save_state
complete_state_frame utc_now job state w =
    elim (Bool-cases (is_true (get_field (codes "syncComplete") job.result))) [
      | inl whole ↦ elim (Option-cases (natural_of (get_field (codes "fixedTodate") job.result))) [
        | inl none_ ↦ rw (whole, none_, complete_state) (refl, refl)
        | inr (n, e) ↦ rw (whole, e, complete_state) (refl, refl)
      ]
      | inr part ↦ rw (part, complete_state) (refl, refl)
    ]

state_kept :
    (utc_now : ℕ) (job : Job) (w : World) (o : Option SourceSyncState)
    → let t : World = elim o as (λ x. World) [
      | none ↦ w
      | some state ↦ complete_state utc_now job state w
    ] in
      (t.sources ≡ w.sources) × (t.queue ≡ w.queue)
state_kept utc_now job w none = (refl, refl)
state_kept utc_now job w (some state) = complete_state_frame utc_now job state w

-- The end of a synchronization changes one date of the source.
abbrev pub synced_at : Option ℕ → Source → Source
synced_at at source = record source { last_successful_sync_at = at }

pub update_frame :
    (utc_now source_id : ℕ) (job : Job) (w : World)
    → let t = update_sync_completion utc_now source_id job w in
      let dated = change_source (some source_id) (synced_at job.finished_at) w in
      ((t.sources ≡ w.sources) × (t.queue ≡ w.queue))
      ⊎ ((t.sources ≡ dated.sources) × (t.queue ≡ dated.queue))
unfolding update_sync_completion
update_frame utc_now source_id job w =
    elim (Bool-cases (is_completed job.status && same_type job.job_type JobType.source_sync)) [
      | inl sync ↦ elim (Bool-cases (is_true (get_field (codes "dryRun") job.result))) [
        | inl dry ↦ inl (rw (sync, dry, update_sync_completion) (refl, refl))
        | inr wet ↦
            let w' = change_source (some source_id) (synced_at job.finished_at) w in
            inr (
              rw (sync, wet, update_sync_completion)
                (state_kept utc_now job w' (find state_key source_id w'.sync_states)))
      ]
      | inr other ↦ inl (rw (other, update_sync_completion) (refl, refl))
    ]

pub update_sync_completion-Follows :
    (utc_now source_id : ℕ) (status : JobStatus) (job : Job) (w : World) (source : Source)
    → find source_key source_id w.sources ≡ some source
    → Follows status job source
    → (after : Source) × (find source_key source_id
          (update_sync_completion utc_now source_id job w).sources
        ≡ some after)
      × Follows status job after
update_sync_completion-Follows utc_now source_id status job w source found h =
    elim (update_frame utc_now source_id job w) [
      | inl same ↦ (source, rw same.0 found, h)
      | inr dated ↦ (
        synced_at job.finished_at source,
        rw dated.0 (found_change source_id (synced_at job.finished_at) w source refl found),
        dated_Follows status job source h,
      )
    ]

pub queue-update_sync_completion :
    (utc_now source_id : ℕ) (job : Job) (w : World)
    → (update_sync_completion utc_now source_id job w).queue ≡ w.queue
queue-update_sync_completion utc_now source_id job w = elim (update_frame utc_now source_id job w) [
  | inl same ↦ same.1
  | inr dated ↦ dated.1 ∙ queue-change_source (some source_id) (synced_at job.finished_at) w
]
