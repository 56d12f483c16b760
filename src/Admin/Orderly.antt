-- ===== src/Admin/Orderly.antt =====
-- Requests and calls of the workers, in any order, keep the tables of the queue orderly.
use praktika.Prelude.{
  ℕ, ◌≡◌, refl, sym, ◌∙◌, ◌||◌, not, Bool, true, false, Option, none, some, List, [], ◌∷◌, Result,
  ok, err, Error, Ensures, Ensures-ok, Ensures-err, Ensures-bind, Ensures-guard, ◌>>=◌,
  Option-cases, inl, inr, filter, or_raise, if◌then◌else◌,
}
use mathlib.Core.Path.{subst}
use praktika.Text.{Unicode}
use praktika.Sanitize.{aware}
use praktika.Table.{find, least}
use praktika.Jobs.Model.{Job, JobType}
use praktika.Runner.{World, Source, SourceStatus, state_key, save_source, save_state}
use praktika.Admin.{
  new_job, add_or_conflict, retry_job, cancel_job, request_or_conflict, start_full_reindex,
  syncing_with,
}
use praktika.Admin.Sources.{
  SourceSyncRequest, get_source_record, is_disabled, start_source_sync, stop_source_sync,
  update_source, active_sync, is_there, was_stopped, ended_before, after_stop,
  get_or_create_sync_state, mark_mode,
}
use praktika.Admin.Requests.{AdminRequest, serve_request, Event, answered, happen, happen_all}
use praktika.Admin.Unique.{IsOrderly}
use praktika.Admin.Kept.{
  execute-IsOrderly, Leaves, add_or_conflict-IsOrderly, new_job-IsSound,
  request_or_conflict-IsOrderly, retry_job-IsOrderly, cancel_job-IsOrderly,
  start_full_reindex-IsOrderly, enqueued-IsOrderly,
}

saved_queue : (source : Source) (w : World) → (save_source source w).queue ≡ w.queue
unfolding save_source
saved_queue source w = refl

state_queue : (source_id : ℕ) (w : World) → (get_or_create_sync_state source_id w).1.queue ≡ w.queue
unfolding get_or_create_sync_state
state_queue source_id w = elim (Option-cases (find state_key source_id w.sync_states)) [
  | inl missing ↦ rw (missing, get_or_create_sync_state) refl
  | inr found ↦ rw (found.1, get_or_create_sync_state) refl
]

start_source_sync-IsOrderly :
    (new_id actor_id max_attempts target_documents now source_id : ℕ) (payload : SourceSyncRequest)
    (w : World)
    → IsOrderly w.queue
    → Ensures Leaves
        (start_source_sync new_id actor_id max_attempts target_documents now source_id payload w)
unfolding start_source_sync save_state
start_source_sync-IsOrderly new_id actor_id max_attempts target_documents now source_id payload w
      h =
    Ensures-bind Leaves (get_source_record source_id w) _ λ source got.
      Ensures-guard Leaves (not source.enabled || is_disabled source.status) _ _ λ able.
        let job =
          new_job new_id JobType.source_sync target_documents (some source.id) none (some actor_id)
            max_attempts now in
        Ensures-bind Leaves (add_or_conflict job w.queue) _ λ queue added.
          let row : Source = record (syncing_with job.id source) { last_sync_at = some now } in
          let started : World = save_source row (record w { queue = queue }) in
          let sound =
            (add_or_conflict-IsOrderly job w.queue
                (new_job-IsSound new_id JobType.source_sync target_documents (some source.id) none
                  (some actor_id) max_attempts now)
                h).holds
              queue added in
          Ensures-ok Leaves
            (
              job,
              save_state (mark_mode payload (get_or_create_sync_state source.id started).0)
                  (get_or_create_sync_state source.id started).1,
            )
            (subst IsOrderly
              (sym (state_queue source.id started ∙ saved_queue row (record w { queue = queue })))
              sound)

stop_source_sync-IsOrderly :
    (u : Unicode) (now source_id : ℕ) (w : World)
    → IsOrderly w.queue
    → Ensures Leaves (stop_source_sync u now source_id w)
unfolding stop_source_sync
stop_source_sync-IsOrderly u now source_id w h =
    Ensures-bind Leaves (get_source_record source_id w) _ λ source got.
      elim (Option-cases (active_sync source.id w.queue)) [
        | inl idle ↦ rw idle (
            Ensures-bind Leaves
              (or_raise Error.conflict
                (least ended_before (filter (was_stopped source.id) w.queue.jobs)))
              _ λ job found. Ensures-ok Leaves (job, w) h)
        | inr active ↦ rw active.1 (
            Ensures-bind Leaves (request_or_conflict u now active.0.id (some (aware now)) w.queue) _
              λ answer asked.
                Ensures-ok Leaves
                  (
                    answer.0,
                    save_source (after_stop answer.0 source) (record w { queue = answer.1 }),
                  )
                  (subst IsOrderly
                    (sym (saved_queue (after_stop answer.0 source) (record w { queue = answer.1 })))
                    ((request_or_conflict-IsOrderly u now active.0.id (some (aware now)) w.queue
                        h).holds
                      answer asked)))
      ]

abbrev Keeps : World → Type 0
Keeps w = IsOrderly w.queue

update_source-IsOrderly :
    (source_id : ℕ) (enabled : Option Bool) (w : World)
    → IsOrderly w.queue
    → Ensures Keeps (update_source source_id enabled w)
unfolding update_source save_source
update_source-IsOrderly source_id none w h =
    Ensures-bind Keeps (get_source_record source_id w) _ λ source got. Ensures-ok Keeps w h
update_source-IsOrderly source_id (some false) w h =
    Ensures-bind Keeps (get_source_record source_id w) _ λ source got.
      Ensures-guard Keeps (is_there (active_sync source.id w.queue)) _ _ λ idle.
        Ensures-ok Keeps
          (save_source (record source { enabled = false; status = SourceStatus.disabled }) w) h
update_source-IsOrderly source_id (some true) w h =
    Ensures-bind Keeps (get_source_record source_id w) _ λ source got.
      Ensures-ok Keeps
        (save_source
          (record source {
            enabled = true;
            status = if is_disabled source.status then SourceStatus.idle else source.status;
          })
          w)
        h

of_answer : (r : Result (Job × World)) → Ensures Leaves r → Ensures Keeps (r >>= λ a. ok a.1)
of_answer (ok a) h = Ensures-ok Keeps a.1 (h.holds a refl)
of_answer (err e) h = Ensures-err Keeps e

serve_request-IsOrderly :
    (u : Unicode) (t : ℕ) (r : AdminRequest) (w : World)
    → IsOrderly w.queue
    → Ensures Keeps (serve_request u t r w)
unfolding serve_request
serve_request-IsOrderly u t (AdminRequest.retry new_id actor_id max_attempts job_id) w h =
    of_answer (retry_job new_id actor_id max_attempts t job_id w)
      (retry_job-IsOrderly new_id actor_id max_attempts t job_id w h)
serve_request-IsOrderly u t (AdminRequest.cancel job_id) w h =
    of_answer (cancel_job u t job_id w) (cancel_job-IsOrderly u t job_id w h)
serve_request-IsOrderly u t (AdminRequest.full_reindex new_id actor_id max_attempts) w h =
    of_answer (start_full_reindex new_id actor_id max_attempts t w)
      (start_full_reindex-IsOrderly new_id actor_id max_attempts t w h)
serve_request-IsOrderly u t
      (AdminRequest.document_reindex new_id auto force document_id source_id created_by
        max_attempts)
      w h =
    Ensures-ok Keeps _ (
      enqueued-IsOrderly new_id auto force document_id source_id created_by max_attempts t w.queue
        h)
serve_request-IsOrderly u t
      (AdminRequest.start_sync new_id actor_id max_attempts target_documents source_id payload) w
      h =
    of_answer
      (start_source_sync new_id actor_id max_attempts target_documents t source_id payload w)
      (start_source_sync-IsOrderly new_id actor_id max_attempts target_documents t source_id payload
        w h)
serve_request-IsOrderly u t (AdminRequest.stop_sync source_id) w h =
    of_answer (stop_source_sync u t source_id w) (stop_source_sync-IsOrderly u t source_id w h)
serve_request-IsOrderly u t (AdminRequest.update source_id enabled) w h =
    update_source-IsOrderly source_id enabled w h

happen-IsOrderly :
    (u : Unicode) (t : ℕ) (e : Event) (w : World)
    → IsOrderly w.queue
    → IsOrderly (happen u t e w).queue
unfolding happen
happen-IsOrderly u t (Event.request r) w h =
    kept (serve_request u t r w) (serve_request-IsOrderly u t r w h)
  where
    kept : (r' : Result World) → Ensures Keeps r' → IsOrderly (answered w r').queue
    kept (ok w') e = e.holds w' refl
    kept (err x) e = h
happen-IsOrderly u t (Event.queue_call c) w h = execute-IsOrderly u t c w.queue h

-- Requests of administrators and editors and calls of the workers, in any order, keep the queue
-- orderly: its rows stay sound, their ids differ, and no two active jobs synchronize the same source,
-- reindex the same document or rebuild the whole index.
pub happen_all-IsOrderly :
    (u : Unicode) (es : List (ℕ × Event)) (w : World)
    → IsOrderly w.queue
    → IsOrderly (happen_all u es w).queue
unfolding happen_all
happen_all-IsOrderly u [] w h = h
happen_all-IsOrderly u ((t, e) ∷ es) w h =
    happen_all-IsOrderly u es (happen u t e w) (happen-IsOrderly u t e w h)
