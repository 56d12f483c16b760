-- ===== src/Runner/Raised.antt =====
-- A handler that raises: `_execute_job` gives the queue an outcome of its own, which it accepts.
use praktika.Prelude.{ℕ, ◌≡◌, refl, sym, ◌∙◌, false, Option, none, some, arith, ok, bind_ok}
use mathlib.Core.Path.{subst}
use praktika.Text.{Unicode, codes}
use praktika.Sanitize.{
  normalize_event_code, sanitize_metrics, is_sensitive_key, sanitize_value, set_field,
}
use praktika.Table.{find}
use praktika.Jobs.Model.{Job, JobStatus, Store, is_running}
use praktika.Jobs.Clock.{resolve_now}
use praktika.Jobs.Events.{add_job_event}
use praktika.Jobs.Transitions.{fail_row}
use praktika.Jobs.Locks.{find_job, lock_running_job_for_worker, if_row}
use praktika.Jobs.Queue.{fail_locked_job, fail_job, log_event}
use praktika.Jobs.Moves.Refine.{locked_job}
use praktika.Runner.{Source, SourceStatus, World, Disposition, source_key}
use praktika.Runner.Finalize.{queue_call, follow, finalize, execute_job, handler_failed}
use praktika.Runner.Written.{queue_call-Written}
use praktika.Runner.Synced.{Follows}
use praktika.Runner.Ends.{follow_ends}

stopped : (status : JobStatus) → status ≡ JobStatus.failed → is_running status ≡ false
stopped status e = rw e refl

source_id_of : {o : Option ℕ} (k l : Job) → some k ≡ some l → l.source_id ≡ o → k.source_id ≡ o
source_id_of k l e h = ground (arith, e, h)

failed_source :
    (status : JobStatus) (k : Job) (after : Source)
    → status ≡ JobStatus.failed
    → Follows status k after
    → (after.status ≡ SourceStatus.error) × (after.current_job_id ≡ none)
failed_source JobStatus.failed k after e h = (h.0, h.1)
failed_source JobStatus.queued k after e h = absurd (cc)
failed_source JobStatus.running k after e h = absurd h
failed_source JobStatus.completed k after e h = absurd (cc)
failed_source JobStatus.cancelled k after e h = absurd (cc)

module _ (u : Unicode) (utc_now : ℕ) where
  -- The queue takes the outcome, and the job has failed.
  accepted :
      (job_id worker_id : ℕ) (s : Store) (job : Job)
      → lock_running_job_for_worker job_id worker_id s ≡ some job
      → (k : Job) × (s' : Store) × (queue_call u utc_now job_id worker_id handler_failed
            Disposition.failed s
          ≡ ok (some k, s'))
        × (k.status ≡ JobStatus.failed)
        × (k.error_code ≡ some (codes "INTERNAL_HANDLER_ERROR"))
  unfolding queue_call fail_job fail_locked_job fail_row log_event add_job_event
      normalize_event_code sanitize_metrics resolve_now sanitize_value is_sensitive_key set_field
  accepted job_id worker_id s job locked = rw (locked, if_row) (_, _, refl, refl, refl)

  -- If the handler of a job raises while its worker holds the job, then the transaction returns, the
  -- job has failed with the code of an internal error, and its source is in error and names no job.
  pub raised_handler_fails_job :
      (worker_id job_id source_id : ℕ) (w : World) (job : Job) (source : Source)
      → lock_running_job_for_worker job_id worker_id w.queue ≡ some job
      → job.source_id ≡ some source_id
      → find source_key source_id w.sources ≡ some source
      → (w' : World) × (k : Job) × (after : Source) × (execute_job u utc_now worker_id job_id
            (w, none)
          ≡ ok w')
        × (find_job job_id w'.queue ≡ some k)
        × (k.status ≡ JobStatus.failed)
        × (k.error_code ≡ some (codes "INTERNAL_HANDLER_ERROR"))
        × (find source_key source_id w'.sources ≡ some after)
        × (after.status ≡ SourceStatus.error)
        × (after.current_job_id ≡ none)
  unfolding execute_job finalize
  raised_handler_fails_job worker_id job_id source_id w job source locked sourced found =
      let (k, s', e, failed, code) = accepted job_id worker_id w.queue job locked in
      let (l, answer, h) =
        (queue_call-Written u utc_now job_id worker_id handler_failed Disposition.failed w.queue job
            locked).holds
          (some k, s') e in
      let same = (locked_job job_id worker_id w.queue job locked).3 in
      let there : find_job job_id s' ≡ some k =
        subst (λ i. find_job i s' ≡ some k) same (h.there ∙ sym answer) in
      let source_of : k.source_id ≡ some source_id =
        source_id_of k l answer h.same_source ∙ sourced in
      let (after, at, stops, source_at, says) =
        follow_ends utc_now job_id source_id k (record w { queue = s' }) source there
          (stopped k.status failed) source_of found in
      let (broken, freed) = failed_source k.status k after failed says in
      (
        follow utc_now (some k) (record w { queue = s' }),
        k,
        after,
        bind_ok (queue_call u utc_now job_id worker_id handler_failed Disposition.failed w.queue) _
            (some k, s') e,
        at,
        failed,
        code,
        source_at,
        broken,
        freed,
      )
