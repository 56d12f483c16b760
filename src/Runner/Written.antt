-- ===== src/Runner/Written.antt =====
-- What the calls of the queue that end a run write to the job, and what no change of a source touches.
use praktika.Prelude.{
  ℕ, ◌≡◌, refl, not, Option, none, some, arith, Option-cases, inl, inr, leb, max, Ensures,
  Ensures-bind, Ensures-if,
}
use mathlib.Core.Path.{subst}
use praktika.Text.{Text, Unicode}
use praktika.Sanitize.{DateTime, Object, require_aware, sanitize_metrics}
use praktika.Table.{find}
use praktika.Jobs.Model.{Job, JobStatus, Store}
use praktika.Jobs.Clock.{resolve_now}
use praktika.Jobs.Transitions.{complete_row}
use praktika.Jobs.Locks.{find_job, save_job, lock_running_job_for_worker, if_row}
use praktika.Jobs.Conditions.{is_none, is_foreign}
use praktika.Jobs.Queue.{complete_job, fail_job, requeue_job, cancel_job, cancel_by_status}
use praktika.Jobs.Moves.Frame.{jobs-release_worker_job}
use praktika.Jobs.Moves.Refine.{locked_job}
use praktika.Runner.{
  Source, World, Disposition, HandlerOutcome, source_key, change_source, save_source,
}
use praktika.Runner.Finalize.{queue_call}
use praktika.Runner.Follow.{
  Written, written, cancel_locked_job-Written, fail_locked_job-Written, requeue_locked-Written,
}

-- The queue does not see a change of a source.
pub queue-change_source :
    (source_id : Option ℕ) (change : Source → Source) (w : World)
    → (change_source source_id change w).queue ≡ w.queue
unfolding change_source save_source
queue-change_source none change w = refl
queue-change_source (some source_id) change w =
    elim (Option-cases (find source_key source_id w.sources)) [
      | inl e ↦ rw (e, change_source) refl
      | inr (source, e) ↦ rw (e, change_source) refl
    ]

module _ (u : Unicode) (utc_now : ℕ) where
  complete_job-Written :
      (job_id worker_id : ℕ) (result : Object) (s : Store) (job : Job)
      → lock_running_job_for_worker job_id worker_id s ≡ some job
      → Ensures (Written job) (complete_job u utc_now job_id worker_id (some result) none s)
  unfolding complete_job complete_row
  complete_job-Written job_id worker_id result s job locked =
      rw (locked, if_row)
        (Ensures-bind (Written job) (resolve_now utc_now none) _ (λ moment at.
          Ensures-bind (Written job) (sanitize_metrics u (some result)) _ (λ clean cleaned.
            let k : Job = complete_row clean moment job in
            written u utc_now job.id _ _ _ _ _ moment job k s _
              (locked_job job_id worker_id s job locked).0 refl refl refl
              (jobs-release_worker_job worker_id job.id moment (save_job k s)))))

  fail_job-Written :
      (job_id worker_id : ℕ) (code message : Text) (result : Object) (s : Store) (job : Job)
      → lock_running_job_for_worker job_id worker_id s ≡ some job
      → Ensures
          (Written job)
          (fail_job u utc_now job_id worker_id code message (some result) none s)
  unfolding fail_job
  fail_job-Written job_id worker_id code message result s job locked =
      rw (locked, if_row)
        (Ensures-bind (Written job) (resolve_now utc_now none) _ (λ moment at.
          fail_locked_job-Written u utc_now (some worker_id) code message (some result) moment job s
            (locked_job job_id worker_id s job locked).0))

  requeue_job-Written :
      (job_id worker_id : ℕ) (next : DateTime) (code message : Text) (s : Store) (job : Job)
      → lock_running_job_for_worker job_id worker_id s ≡ some job
      → Ensures (Written job) (requeue_job u utc_now job_id worker_id next code message none s)
  unfolding requeue_job
  requeue_job-Written job_id worker_id next code message s job locked =
      let found = (locked_job job_id worker_id s job locked).0 in
      rw (locked, if_row)
        (Ensures-bind (Written job) (resolve_now utc_now none) _ (λ moment at.
          Ensures-bind (Written job) (require_aware next) _ (λ wanted aware_.
            Ensures-if (Written job) (not (is_none job.cancellation_requested_at)) _ _
              (λ asked. cancel_locked_job-Written u utc_now moment job s found)
              (λ unasked.
                Ensures-if (Written job) (leb job.max_attempts job.attempt) _ _
                  (λ spent.
                    fail_locked_job-Written u utc_now (some worker_id) _ _ none moment job s found)
                  (λ left.
                    requeue_locked-Written u utc_now worker_id (max wanted moment) moment code
                      message job s found)))))

  cancel_held :
      (worker_id : ℕ) (status : JobStatus) (s : Store) (job : Job)
      → status ≡ JobStatus.running
      → job.claimed_by ≡ some worker_id
      → find_job job.id s ≡ some job
      → Ensures (Written job) (cancel_by_status u utc_now status (some worker_id) none job s)
  cancel_held worker_id JobStatus.running s job running mine found =
      Ensures-if (Written job) (is_foreign (some worker_id) job.claimed_by) _ _
        (λ foreign. absurd (ground (arith, foreign, mine)))
        (λ own.
          Ensures-bind (Written job) (resolve_now utc_now none) _
            (λ moment at. cancel_locked_job-Written u utc_now moment job s found))
  cancel_held worker_id JobStatus.queued s job running mine found = absurd (cc)
  cancel_held worker_id JobStatus.completed s job running mine found = absurd (cc)
  cancel_held worker_id JobStatus.failed s job running mine found = absurd (cc)
  cancel_held worker_id JobStatus.cancelled s job running mine found = absurd (cc)

  cancel_job-Written :
      (job_id worker_id : ℕ) (s : Store) (job : Job)
      → lock_running_job_for_worker job_id worker_id s ≡ some job
      → Ensures (Written job) (cancel_job u utc_now job_id (some worker_id) none s)
  unfolding cancel_job
  cancel_job-Written job_id worker_id s job locked =
      let (found, running, mine, same) = locked_job job_id worker_id s job locked in
      rw (subst (λ i. find_job i s ≡ some job) same found, if_row)
        (cancel_held worker_id job.status s job running mine found)

  pub queue_call-Written :
      (job_id worker_id : ℕ) (o : HandlerOutcome) (d : Disposition) (s : Store) (job : Job)
      → lock_running_job_for_worker job_id worker_id s ≡ some job
      → Ensures (Written job) (queue_call u utc_now job_id worker_id o d s)
  unfolding queue_call
  queue_call-Written job_id worker_id o Disposition.completed s job locked =
      complete_job-Written job_id worker_id o.result s job locked
  queue_call-Written job_id worker_id o Disposition.failed s job locked =
      fail_job-Written job_id worker_id _ _ o.result s job locked
  queue_call-Written job_id worker_id o Disposition.requeued s job locked =
      requeue_job-Written job_id worker_id _ _ _ s job locked
  queue_call-Written job_id worker_id o Disposition.cancelled s job locked =
      cancel_job-Written job_id worker_id s job locked
