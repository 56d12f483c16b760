-- ===== src/Runner/Follow.antt =====
-- What the call that ends a run of a job leaves in the queue, and what its source then says.
use praktika.Prelude.{
  ℕ, ◌≡◌, refl, sym, ◌∙◌, false, Option, some, ltb, ok, ◌>>=◌, Ensures, Ensures-ok, Ensures-bind,
}
use mathlib.Core.Path.{subst}
use praktika.Text.{Text, Unicode}
use praktika.Sanitize.{Object, normalize_event_code, sanitize_metrics, sanitize_message}
use praktika.Jobs.Model.{Job, JobStage, JobEventLevel, Store, is_running}
use praktika.Jobs.Events.{or_text}
use praktika.Jobs.Transitions.{cancel_row, fail_row, requeue_row}
use praktika.Jobs.Locks.{find_job, save_job}
use praktika.Jobs.Conditions.{retry_stage}
use praktika.Jobs.Queue.{log_event, cancel_locked_job, fail_locked_job, requeue_locked}
use praktika.Jobs.Moves.Frame.{
  log_event_frame, jobs-release_worker_job, jobs-release_claimant, find_job-saved,
}

-- The call answers with the row of the job as it stands in the tables, and the job does not run.
pub record IsWritten (job k : Job) (s : Store) : Type 0 where
  pub there : find_job job.id s ≡ some k
  pub same_id : k.id ≡ job.id
  pub same_source : k.source_id ≡ job.source_id
  pub stops : is_running k.status ≡ false

abbrev pub Written : Job → Option Job × Store → Type 0
Written job a = (k : Job) × (a.0 ≡ some k) × IsWritten job k a.1

module _ (u : Unicode) (utc_now : ℕ) where
  pub written :
      (job_id : ℕ) (level : JobEventLevel) (stage : JobStage) (code message : Text)
      (metrics : Option Object) (moment : ℕ) (job k : Job) (s t : Store)
      → find_job job.id s ≡ some job
      → k.id ≡ job.id
      → k.source_id ≡ job.source_id
      → is_running k.status ≡ false
      → t.jobs ≡ (save_job k s).jobs
      → Ensures (Written job) (
          log_event u utc_now job_id level stage code message metrics moment t >>= λ s'.
          ok (some k, s'))
  written job_id level stage code message metrics moment job k s t found same source stops jobs =
      Ensures-bind (Written job)
        (log_event u utc_now job_id level stage code message metrics moment t) _
        (λ s' logged.
          Ensures-ok (Written job) (some k, s')
            (
              k,
              refl,
              record {
                there =
                    subst (λ i. find_job i s' ≡ some k) same
                      (find_job-saved job k s s'
                        (subst (λ i. find_job i s ≡ some job) (sym same) found)
                        ((log_event_frame u utc_now job_id level stage code message metrics moment t
                            s' logged).0
                          ∙ jobs));
                same_id = same;
                same_source = source;
                stops = stops;
              },
            ))

  pub cancel_locked_job-Written :
      (moment : ℕ) (job : Job) (s : Store)
      → find_job job.id s ≡ some job
      → Ensures (Written job) (cancel_locked_job u utc_now moment job s)
  unfolding cancel_locked_job cancel_row
  cancel_locked_job-Written moment job s found =
      written job.id _ _ _ _ _ moment job (cancel_row moment job) s _ found refl refl refl
        (jobs-release_claimant job.claimed_by job.id moment (save_job (cancel_row moment job) s))

  pub fail_locked_job-Written :
      (worker_id : Option ℕ) (error_code error_message : Text) (result : Option Object) (moment : ℕ)
      (job : Job) (s : Store)
      → find_job job.id s ≡ some job
      → Ensures
          (Written job)
          (fail_locked_job u utc_now worker_id error_code error_message result moment job s)
  unfolding fail_locked_job fail_row
  fail_locked_job-Written worker_id error_code error_message result moment job s found =
      Ensures-bind (Written job) (normalize_event_code u error_code) _ (λ code normal.
        Ensures-bind (Written job) (sanitize_metrics u result) _ (λ clean cleaned.
          let k : Job =
            fail_row code (or_text (sanitize_message u 1000 error_message) code) clean moment job in
          written job.id _ _ _ _ _ moment job k s _ found refl refl refl
            (jobs-release_claimant worker_id job.id moment (save_job k s))))

  pub requeue_locked-Written :
      (worker_id retry_at moment : ℕ) (error_code error_message : Text) (job : Job) (s : Store)
      → find_job job.id s ≡ some job
      → Ensures
          (Written job)
          (requeue_locked u utc_now worker_id retry_at moment error_code error_message job s)
  unfolding requeue_locked requeue_row
  requeue_locked-Written worker_id retry_at moment error_code error_message job s found =
      Ensures-bind (Written job) (normalize_event_code u error_code) _ (λ code normal.
        let k : Job =
          requeue_row (retry_stage (ltb moment retry_at)) retry_at code
            (sanitize_message u 1000 error_message) job in
        written job.id _ _ _ _ _ moment job k s _ found refl refl refl
          (jobs-release_worker_job worker_id job.id moment (save_job k s)))
