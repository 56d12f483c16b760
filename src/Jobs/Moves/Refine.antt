-- ===== src/Jobs/Moves/Refine.antt =====
-- The operations of `Queue` make only the moves of `Move`, one for each job at most.
use praktika.Prelude.{
  job_queue_state_error, ℕ, ◌<◌, ◌≡◌, refl, ◌∙◌, true, false, not, Option, none, some, arith, leb,
  max, ltb,
}
use praktika.Text.{Text, Unicode}
use praktika.Sanitize.{
  DateTime, Object, require_aware, normalize_event_code, sanitize_metrics, sanitize_message,
}
use praktika.Jobs.Events.{or_text}
use praktika.Table.{put}
use praktika.Table.Rows.{key-find, put-put}
use praktika.Jobs.Model.{Job, JobStatus, Store, job_key, is_terminal}
use praktika.Jobs.Clock.{resolve_now}
use praktika.Jobs.Transitions.{request_row, complete_row, fail_row, cancel_row, requeue_row}
use praktika.Jobs.Locks.{find_job, save_job, lock_running_job_for_worker}
use praktika.Jobs.Conditions.{is_none, is_foreign, cancels_now, retry_stage}
use praktika.Jobs.Queue.{
  cancel_locked_job, fail_locked_job, request_locked, request_job_cancellation, complete_job,
  fail_job, requeue_locked, requeue_job, cancel_job, cancel_by_status, log_event,
}
use praktika.Jobs.Moves.{Move, MakesMove}
use praktika.Jobs.Moves.Frame.{
  jobs-release_worker_job, jobs-release_claimant, MakesMove-bind, stays, saved, logged,
  MakesMove-if_row, MakesMove-if, MakesMove-err, log_event_frame, rekeyed,
}

pub find_job_key : (i : ℕ) (s : Store) (job : Job) → find_job i s ≡ some job → job.id ≡ i
unfolding find_job
find_job_key i s job h = key-find job_key i s.jobs job h

-- A row is found under its own key.
pub find_job_self :
    (i : ℕ) (s : Store) (job : Job) → find_job i s ≡ some job → find_job job.id s ≡ some job
unfolding find_job
find_job_self i s job h = simp (key-find job_key i s.jobs job h) h

pub locked_job :
    (job_id worker_id : ℕ) (s : Store) (job : Job)
    → lock_running_job_for_worker job_id worker_id s ≡ some job
    → (find_job job.id s ≡ some job)
      × (job.status ≡ JobStatus.running)
      × (job.claimed_by ≡ some worker_id)
      × (job.id ≡ job_id)
unfolding lock_running_job_for_worker
locked_job job_id worker_id s job h =
    ground (arith, find_job_self job_id s job, find_job_key job_id s job)

module _ (u : Unicode) (utc_now : ℕ) where
  -- `t` is the session after earlier writes of the same row.
  pub cancel_locked_job-MakesMove :
      (moment : ℕ) (job k : Job) (s t : Store)
      → find_job job.id s ≡ some k
      → put job_key (cancel_row moment job) t.jobs ≡ put job_key (cancel_row moment job) s.jobs
      → Move k (cancel_row moment job)
      → MakesMove job.id s (cancel_locked_job u utc_now moment job t)
  unfolding cancel_locked_job cancel_row save_job
  cancel_locked_job-MakesMove moment job k s t found same move =
      logged u utc_now k (cancel_row moment job) s _ _ _ _ _ _ _ _ _ found move (
        jobs-release_claimant job.claimed_by job.id moment (save_job (cancel_row moment job) t)
        ∙ same)

  pub fail_locked_job-MakesMove :
      (worker_id : Option ℕ) (error_code error_message : Text) (result : Option Object) (moment : ℕ)
      (job : Job) (s : Store)
      → find_job job.id s ≡ some job
      → job.status ≡ JobStatus.running
      → MakesMove job.id s
          (fail_locked_job u utc_now worker_id error_code error_message result moment job s)
  unfolding fail_locked_job fail_row save_job
  fail_locked_job-MakesMove worker_id error_code error_message result moment job s found running =
      MakesMove-bind s (normalize_event_code u error_code) _ (λ code _.
        let message = or_text (sanitize_message u 1000 error_message) code in
        MakesMove-bind s (sanitize_metrics u result) _ (λ clean _.
          let failed = fail_row code message clean moment job in
          logged u utc_now job failed s _ _ _ _ _ _ _ _ _ found
            (Move.fail code message clean moment running)
            (jobs-release_claimant worker_id job.id moment (save_job failed s))))

  pub complete_job-MakesMove :
      (job_id worker_id : ℕ) (result : Option Object) (now : Option DateTime) (s : Store)
      → MakesMove job_id s (complete_job u utc_now job_id worker_id result now s)
  unfolding complete_job complete_row save_job
  complete_job-MakesMove job_id worker_id result now s =
      MakesMove-if_row s (lock_running_job_for_worker job_id worker_id s) _ (λ job e.
        let (found, running, _, at) = locked_job job_id worker_id s job e in
        rekeyed at (
          MakesMove-bind s (resolve_now utc_now now) _ (λ moment _.
            MakesMove-bind s (sanitize_metrics u result) _ (λ clean _.
              let done = complete_row clean moment job in
              logged u utc_now job done s _ _ _ _ _ _ _ _ _ found
                (Move.complete clean moment running)
                (jobs-release_worker_job worker_id job.id moment (save_job done s))))))

  pub fail_job-MakesMove :
      (job_id worker_id : ℕ) (error_code error_message : Text) (result : Option Object)
      (now : Option DateTime) (s : Store)
      → MakesMove job_id s
          (fail_job u utc_now job_id worker_id error_code error_message result now s)
  unfolding fail_job
  fail_job-MakesMove job_id worker_id error_code error_message result now s =
      MakesMove-if_row s (lock_running_job_for_worker job_id worker_id s) _ (λ job e.
        let (found, running, _, at) = locked_job job_id worker_id s job e in
        rekeyed at (
          MakesMove-bind s (resolve_now utc_now now) _ (λ moment _.
            fail_locked_job-MakesMove (some worker_id) error_code error_message result moment job s
              found running)))

  requeue_locked-MakesMove :
      (worker_id retry_at moment : ℕ) (error_code error_message : Text) (job : Job) (s : Store)
      → find_job job.id s ≡ some job
      → job.status ≡ JobStatus.running
      → job.attempt < job.max_attempts
      → job.cancellation_requested_at ≡ none
      → MakesMove job.id s
          (requeue_locked u utc_now worker_id retry_at moment error_code error_message job s)
  unfolding requeue_locked requeue_row save_job
  requeue_locked-MakesMove worker_id retry_at moment error_code error_message job s found running
        left wanted =
      MakesMove-bind s (normalize_event_code u error_code) _ (λ code _.
        let stage = retry_stage (ltb moment retry_at) in
        let message = sanitize_message u 1000 error_message in
        let back = requeue_row stage retry_at code message job in
        logged u utc_now job back s _ _ _ _ _ _ _ _ _ found
          (Move.requeue stage retry_at code message running left wanted)
          (jobs-release_worker_job worker_id job.id moment (save_job back s)))

  pub requeue_job-MakesMove :
      (job_id worker_id : ℕ) (next_attempt_at : DateTime) (error_code error_message : Text)
      (now : Option DateTime) (s : Store)
      → MakesMove job_id s
          (requeue_job u utc_now job_id worker_id next_attempt_at error_code error_message now s)
  unfolding requeue_job
  requeue_job-MakesMove job_id worker_id next_attempt_at error_code error_message now s =
      MakesMove-if_row s (lock_running_job_for_worker job_id worker_id s) _ (λ job e.
        let (found, running, _, at) = locked_job job_id worker_id s job e in
        rekeyed at (
          MakesMove-bind s (resolve_now utc_now now) _ (λ moment _.
            MakesMove-bind s (require_aware next_attempt_at) _ (λ wanted _.
              MakesMove-if s (not (is_none job.cancellation_requested_at)) _ _
                (λ _.
                  cancel_locked_job-MakesMove moment job job s s found refl
                    (Move.cancel moment (rw running)))
                (λ unasked.
                  MakesMove-if s (leb job.max_attempts job.attempt) _ _
                    (λ _. fail_locked_job-MakesMove _ _ _ _ moment job s found running)
                    (λ left.
                      requeue_locked-MakesMove worker_id (max wanted moment) moment error_code
                        error_message job s found running (ground arith) (ground arith)))))))

  -- A job that is not terminal may be cancelled.
  open_cancel :
      (moment : ℕ) (job : Job) (s : Store)
      → find_job job.id s ≡ some job
      → is_terminal job.status ≡ false
      → MakesMove job.id s (cancel_locked_job u utc_now moment job s)
  open_cancel moment job s found live =
      cancel_locked_job-MakesMove moment job job s s found refl (Move.cancel moment live)

  cancel_by_status-MakesMove :
      (st : JobStatus) (worker_id : Option ℕ) (now : Option DateTime) (job : Job) (s : Store)
      → find_job job.id s ≡ some job
      → job.status ≡ st
      → MakesMove job.id s (cancel_by_status u utc_now st worker_id now job s)
  cancel_by_status-MakesMove JobStatus.queued worker_id now job s found e =
      MakesMove-bind s (resolve_now utc_now now) _
        (λ moment _. open_cancel moment job s found (rw e))
  cancel_by_status-MakesMove JobStatus.running worker_id now job s found e =
      MakesMove-if s (is_foreign worker_id job.claimed_by) _ _ (λ _. stays s none)
        (λ _.
          MakesMove-bind s (resolve_now utc_now now) _
            (λ moment _. open_cancel moment job s found (rw e)))
  cancel_by_status-MakesMove JobStatus.completed worker_id now job s found e =
      MakesMove-err s job_queue_state_error
  cancel_by_status-MakesMove JobStatus.failed worker_id now job s found e =
      MakesMove-err s job_queue_state_error
  cancel_by_status-MakesMove JobStatus.cancelled worker_id now job s found e = stays s (some job)

  pub cancel_job-MakesMove :
      (job_id : ℕ) (worker_id : Option ℕ) (now : Option DateTime) (s : Store)
      → MakesMove job_id s (cancel_job u utc_now job_id worker_id now s)
  unfolding cancel_job
  cancel_job-MakesMove job_id worker_id now s = MakesMove-if_row s (find_job job_id s) _ (λ job e.
      rekeyed (find_job_key job_id s job e) (
        cancel_by_status-MakesMove job.status worker_id now job s (find_job_self job_id s job e)
          refl))

  request_locked-MakesMove :
      (moment : ℕ) (job : Job) (s : Store)
      → find_job job.id s ≡ some job
      → is_terminal job.status ≡ false
      → job.cancellable ≡ true
      → job.cancellation_requested_at ≡ none
      → MakesMove job.id s (request_locked u utc_now moment job s)
  unfolding request_locked request_row cancel_row save_job
  request_locked-MakesMove moment job s found live able unasked =
      MakesMove-bind s (log_event u utc_now _ _ _ _ _ _ _ _) _ (λ s' h.
        let same = (log_event_frame u utc_now _ _ _ _ _ _ _ _ s' h).0 in
        MakesMove-if s (cancels_now job.status job.claimed_by) _ _
          (λ _.
            cancel_locked_job-MakesMove moment (request_row moment job) job s s' found
              (rw same (
                put-put job_key (request_row moment job)
                  (cancel_row moment (request_row moment job)) s.jobs refl))
              (Move.cancel_at_request moment live able unasked))
          (λ later.
            saved (some (request_row moment job)) job (request_row moment job) s s' found
              (Move.request moment (ground arith) able unasked) same))

  pub request_job_cancellation-MakesMove :
      (job_id : ℕ) (now : Option DateTime) (s : Store)
      → MakesMove job_id s (request_job_cancellation u utc_now job_id now s)
  unfolding request_job_cancellation
  request_job_cancellation-MakesMove job_id now s =
      MakesMove-if_row s (find_job job_id s) _ (λ job e. rekeyed (find_job_key job_id s job e) (
        MakesMove-if s (is_terminal job.status) _ _ (λ _. stays s (some job))
          (λ live.
            MakesMove-if s (not job.cancellable) _ _ (λ _. MakesMove-err s job_queue_state_error)
              (λ able.
                MakesMove-if s (not (is_none job.cancellation_requested_at)) _ _
                  (λ _. stays s (some job))
                  (λ unasked. MakesMove-bind s (resolve_now utc_now now) _ (λ moment _.
                    request_locked-MakesMove moment job s (find_job_self job_id s job e) live
                      (ground arith) (ground arith)))))))
