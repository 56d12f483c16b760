-- ===== src/Admin/Kept.antt =====
-- What a request on jobs leaves of an orderly queue.
use praktika.Prelude.{
  ℕ, ◌≡◌, refl, sym, ◌&&◌, not, Bool, Option, none, some, arith, ok, err, Error, Ensures,
  Ensures-ok, Ensures-err, Ensures-bind, Ensures-guard, Option-cases, inl, inr, Result-cases,
  Bool-cases,
}
use mathlib.Core.Path.{subst}
use praktika.Text.{Unicode}
use praktika.Sanitize.{DateTime}
use praktika.Jobs.Model.{Job, JobType, Store, is_terminal}
use praktika.Jobs.Queue.{request_job_cancellation}
use praktika.Jobs.Commands.{Command, execute, transact}
use praktika.Jobs.Lifecycle.{IsSound, execute-IsQueue}
use praktika.Jobs.Moves.Commands.{execute-Moves}
use praktika.Runner.{World, Source, change_source}
use praktika.Admin.{
  new_job, add_job, add_or_conflict, get_job_record, can_retry, retried, retry_job, cancel_job,
  request_or_conflict, start_full_reindex, existing_reindex, enqueue_document_reindex,
  after_cancellation, syncing_with,
}
use praktika.Admin.Unique.{IsOrderly, NoConflicts-Each, add_job-IsOrderly}
use praktika.Runner.Written.{queue-change_source}

pub execute-IsOrderly :
    (u : Unicode) (t : ℕ) (c : Command) (s : Store) → IsOrderly s → IsOrderly (execute u t c s)
execute-IsOrderly u t c s h = record {
  queue = execute-IsQueue u t c s h.queue;
  unique =
      NoConflicts-Each s.jobs (execute u t c s).jobs (execute-Moves u t c s h.queue.distinct)
        h.unique;
}

-- The queue of an answer.
abbrev pub Leaves : Job × World → Type 0
Leaves a = IsOrderly a.1.queue

pub add_or_conflict-IsOrderly :
    (job : Job) (s : Store) → IsSound job → IsOrderly s → Ensures IsOrderly (add_or_conflict job s)
unfolding add_or_conflict
add_or_conflict-IsOrderly job s sound h = elim (Result-cases (add_job job s)) [
  | inl added ↦
      rw (added.1, add_or_conflict)
        (Ensures-ok IsOrderly added.0 ((add_job-IsOrderly job s sound h).holds added.0 added.1))
  | inr refused ↦ rw (refused.1, add_or_conflict) (Ensures-err IsOrderly Error.conflict)
]

pub new_job-IsSound :
    (id : ℕ) (job_type : JobType) (total : ℕ) (source_id document_id created_by : Option ℕ)
    (max_attempts now : ℕ)
    → IsSound (new_job id job_type total source_id document_id created_by max_attempts now)
unfolding new_job
new_job-IsSound id job_type total source_id document_id created_by max_attempts now = ground arith

retried-IsSound :
    (new_id actor_id max_attempts now : ℕ) (original : Job)
    → IsSound (retried new_id actor_id max_attempts now original)
unfolding new_job retried
retried-IsSound new_id actor_id max_attempts now original = ground arith

requested-IsOrderly :
    (u : Unicode) (t job_id : ℕ) (now : Option DateTime) (s : Store) (answer : Option Job × Store)
    → request_job_cancellation u t job_id now s ≡ ok answer
    → IsOrderly s
    → IsOrderly answer.1
unfolding execute
requested-IsOrderly u t job_id now s answer e h =
    subst IsOrderly the_queue (execute-IsOrderly u t (Command.request_cancellation job_id now) s h)
  where
    the_queue : execute u t (Command.request_cancellation job_id now) s ≡ answer.1
    the_queue = rw (e, execute, transact) refl

abbrev AnswersOrderly : Job × Store → Type 0
AnswersOrderly a = IsOrderly a.1

pub request_or_conflict-IsOrderly :
    (u : Unicode) (t job_id : ℕ) (now : Option DateTime) (s : Store)
    → IsOrderly s
    → Ensures AnswersOrderly (request_or_conflict u t job_id now s)
unfolding request_or_conflict
request_or_conflict-IsOrderly u t job_id now s h =
    elim (Result-cases (request_job_cancellation u t job_id now s)) [
      | inr refused ↦ rw (refused.1, request_or_conflict) (Ensures-err AnswersOrderly _)
      | inl answer ↦
          rw (answer.1, request_or_conflict)
            (of_row answer.0 (requested-IsOrderly u t job_id now s answer.0 answer.1 h))
    ]
  where
    of_row :
        (answer : Option Job × Store)
        → IsOrderly answer.1
        → Ensures AnswersOrderly
            (elim answer.0 [ none ↦ err Error.not_found | some job ↦ ok (job, answer.1) ])
    of_row (none, s') o = Ensures-err AnswersOrderly Error.not_found
    of_row (some job, s') o = Ensures-ok AnswersOrderly (job, s') o

changed-IsOrderly :
    (source_id : Option ℕ) (change : Source → Source) (w : World)
    → IsOrderly w.queue
    → IsOrderly (change_source source_id change w).queue
changed-IsOrderly source_id change w h =
    subst IsOrderly (sym (queue-change_source source_id change w)) h

pub retry_job-IsOrderly :
    (new_id actor_id max_attempts now job_id : ℕ) (w : World)
    → IsOrderly w.queue
    → Ensures Leaves (retry_job new_id actor_id max_attempts now job_id w)
unfolding retry_job
retry_job-IsOrderly new_id actor_id max_attempts now job_id w h =
    Ensures-bind Leaves (get_job_record job_id w) _ λ original got.
      Ensures-guard Leaves (not (can_retry original.status)) _ _ λ able.
        let job = retried new_id actor_id max_attempts now original in
        Ensures-bind Leaves (add_or_conflict job w.queue) _ λ queue added.
          Ensures-ok Leaves
            (
              job,
              change_source original.source_id (syncing_with job.id) (record w { queue = queue }),
            )
            (changed-IsOrderly original.source_id (syncing_with job.id) (record w { queue = queue })
              ((add_or_conflict-IsOrderly job w.queue
                  (retried-IsSound new_id actor_id max_attempts now original) h).holds
                queue added))

pub cancel_job-IsOrderly :
    (u : Unicode) (t job_id : ℕ) (w : World)
    → IsOrderly w.queue
    → Ensures Leaves (cancel_job u t job_id w)
unfolding cancel_job
cancel_job-IsOrderly u t job_id w h = Ensures-bind Leaves (get_job_record job_id w) _ λ job got.
    Ensures-guard Leaves (is_terminal job.status) _ _ λ live.
      Ensures-bind Leaves (request_or_conflict u t job_id none w.queue) _ λ answer asked.
        Ensures-ok Leaves
          (
            answer.0,
            change_source answer.0.source_id (after_cancellation answer.0)
                (record w { queue = answer.1 }),
          )
          (changed-IsOrderly answer.0.source_id (after_cancellation answer.0)
            (record w { queue = answer.1 })
            ((request_or_conflict-IsOrderly u t job_id none w.queue h).holds answer asked))

pub start_full_reindex-IsOrderly :
    (new_id actor_id max_attempts now : ℕ) (w : World)
    → IsOrderly w.queue
    → Ensures Leaves (start_full_reindex new_id actor_id max_attempts now w)
unfolding start_full_reindex
start_full_reindex-IsOrderly new_id actor_id max_attempts now w h =
    let job = new_job new_id JobType.full_reindex 0 none none (some actor_id) max_attempts now in
    Ensures-bind Leaves (add_or_conflict job w.queue) _ λ queue added.
      Ensures-ok Leaves (job, record w { queue = queue })
        ((add_or_conflict-IsOrderly job w.queue
            (new_job-IsSound new_id JobType.full_reindex 0 none none (some actor_id) max_attempts
              now)
            h).holds
          queue added)

pub enqueued-IsOrderly :
    (new_id : ℕ) (auto force : Bool) (document_id : ℕ) (source_id created_by : Option ℕ)
    (max_attempts now : ℕ) (s : Store)
    → IsOrderly s
    → IsOrderly
        (enqueue_document_reindex new_id auto force document_id source_id created_by max_attempts
          now s).1
unfolding enqueue_document_reindex
enqueued-IsOrderly new_id auto force document_id source_id created_by max_attempts now s h =
    elim (Bool-cases (not force && not auto)) [
      | inl off ↦ rw (off, enqueue_document_reindex) h
      | inr on ↦
          rw (on, enqueue_document_reindex)
            (elim (Option-cases (existing_reindex document_id s)) [
              | inr there ↦ rw there.1 h
              | inl missing ↦
                  let job =
                    new_job new_id JobType.document_reindex 1 source_id (some document_id)
                      created_by max_attempts now in
                  rw missing (elim (Result-cases (add_job job s)) [
                    | inl added ↦ rw added.1 (
                        (add_job-IsOrderly job s
                            (new_job-IsSound new_id JobType.document_reindex 1 source_id
                              (some document_id) created_by max_attempts now)
                            h).holds
                          added.0 added.1)
                    | inr refused ↦ rw refused.1 h
                  ])
            ])
    ]
