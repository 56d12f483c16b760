-- ===== src/Jobs/Moves/Hold.antt =====
-- A claim, a heartbeat and a progress report make one move of the job that they are about.
use praktika.Prelude.{
  ℕ, zero, suc, ◌<◌, ◌≡◌, refl, Bool, true, ◌||◌, Option, none, some, List, [], ◌∷◌, ok,
  job_queue_state_error, arith, ℤ, pos, negsuc, filter,
}
use praktika.Text.{Unicode}
use praktika.Sanitize.{DateTime}
use praktika.Table.{find, least, AreDistinct}
use praktika.Table.Order.{All-filter, All-least, found-All}
use praktika.Jobs.Model.{Job, JobStatus, JobType, Worker, Store, job_key, is_stopped, is_stopping}
use praktika.Jobs.Clock.{resolve_now, positive, optional, non_negative}
use praktika.Jobs.Transitions.{claim_row, heartbeat_row, Progress, progress_row}
use praktika.Jobs.Locks.{find_job, lock_worker, save_job, save_worker, lock_running_job_for_worker}
use praktika.Jobs.Conditions.{
  ProgressUpdate, is_claimable, created_before, is_busy, check_progress, check_checkpoint,
  beat_worker,
}
use praktika.Jobs.Queue.{claim_locked, claim_by, claim_next_job, heartbeat_job, update_job_progress}
use praktika.Jobs.Moves.{Move, MakesMove, IsPercent}
use praktika.Jobs.Moves.Frame.{
  some_move-bind, some_move-if_row, MakesMove-bind, MakesMove-if_row, MakesMove-if, MakesMove-err,
  stays, saved, logged, rekeyed,
}
use praktika.Jobs.Moves.Refine.{locked_job}

pub jobs-beat_worker :
    (worker_id job_id moment : ℕ) (s : Store)
    → (beat_worker worker_id job_id moment s).jobs ≡ s.jobs
unfolding beat_worker save_worker
jobs-beat_worker worker_id job_id moment s = ground arith

positive_pos : (n : ℤ) (m : ℕ) → positive n ≡ ok m → 0 < m
unfolding positive
positive_pos (pos zero) m h = absurd (cc)
positive_pos (pos (suc n)) m h = ground arith
positive_pos (negsuc n) m h = absurd (cc)

percent : (p : Option ℤ) (n : Option ℕ) → check_progress p ≡ ok n → IsPercent n
unfolding check_progress non_negative
percent none n h = ground arith
percent (some (pos k)) n h = ground arith
percent (some (negsuc k)) n h = absurd (cc)

-- A job that may be claimed waits, has an attempt left, and nobody asked to cancel it.
pub claimable :
    (types : List JobType) (locked : ℕ → Bool) (moment : ℕ) (job : Job)
    → is_claimable types locked moment job ≡ true
    → (job.status ≡ JobStatus.queued)
      × (job.attempt < job.max_attempts)
      × (job.cancellation_requested_at ≡ none)
unfolding is_claimable
claimable types locked moment job h = ground arith

-- The job that the query selects is in the table, and may be claimed.
pub selected_job :
    (types : List JobType) (locked : ℕ → Bool) (moment : ℕ) (s : Store) (job : Job)
    → AreDistinct job_key s.jobs
    → least created_before (filter (is_claimable types locked moment) s.jobs) ≡ some job
    → (find_job job.id s ≡ some job) × (is_claimable types locked moment job ≡ true)
unfolding find_job
selected_job types locked moment s job distinct e =
    let (found, passes) =
      All-least
        (λ j.
          (find job_key (job_key j) s.jobs ≡ some j) × (is_claimable types locked moment j ≡ true))
        created_before (filter (is_claimable types locked moment) s.jobs) job
        (All-filter (λ j. find job_key (job_key j) s.jobs ≡ some j)
          (is_claimable types locked moment) s.jobs (found-All job_key s.jobs distinct))
        e in
    (found, passes)

module _ (u : Unicode) (utc_now : ℕ) where
  pub heartbeat_job-MakesMove :
      (job_id worker_id : ℕ) (lease_seconds : ℤ) (now : Option DateTime) (s : Store)
      → MakesMove job_id s (heartbeat_job u utc_now job_id worker_id lease_seconds now s)
  unfolding heartbeat_job heartbeat_row save_job
  heartbeat_job-MakesMove job_id worker_id lease_seconds now s =
      MakesMove-bind s (positive lease_seconds) _ (λ lease p.
        MakesMove-if_row s (lock_running_job_for_worker job_id worker_id s) _ (λ job e.
          let (found, running, _, at) = locked_job job_id worker_id s job e in
          rekeyed at (
            MakesMove-bind s (resolve_now utc_now now) _ (λ moment _.
              let beaten = heartbeat_row lease moment job in
              saved (some beaten) job beaten s _ found
                (Move.beat lease moment running (positive_pos lease_seconds lease p))
                (jobs-beat_worker worker_id job.id moment (save_job beaten s))))))

  pub update_job_progress-MakesMove :
      (job_id worker_id : ℕ) (p : ProgressUpdate) (s : Store)
      → MakesMove job_id s (update_job_progress u utc_now job_id worker_id p s)
  unfolding update_job_progress progress_row save_job
  update_job_progress-MakesMove job_id worker_id p s =
      MakesMove-bind s (check_progress p.progress) _ (λ progress g.
        MakesMove-bind s (optional p.processed_items) _ (λ processed _.
          MakesMove-bind s (optional p.total_items) _ (λ total _.
            MakesMove-bind s (non_negative p.request_count_delta) _ (λ requests _.
              MakesMove-bind s (non_negative p.bytes_received_delta) _ (λ bytes _.
                MakesMove-if_row s (lock_running_job_for_worker job_id worker_id s) _ (λ job e.
                  let (found, running, _, at) = locked_job job_id worker_id s job e in
                  rekeyed at (
                    MakesMove-bind s (check_checkpoint u p.checkpoint) _ (λ check _.
                      let change : Progress = record {
                        progress = progress;
                        processed_items = processed;
                        total_items = total;
                        stage = p.stage;
                        checkpoint = check;
                        request_count_delta = requests;
                        bytes_received_delta = bytes;
                      } in
                      saved (some (progress_row change job)) job (progress_row change job) s _ found
                        (Move.advance change running (percent p.progress progress g)) refl))))))))

  claim_locked-MakesMove :
      (lease moment : ℕ) (job : Job) (worker : Worker) (s : Store)
      → find_job job.id s ≡ some job
      → job.status ≡ JobStatus.queued
      → job.attempt < job.max_attempts
      → job.cancellation_requested_at ≡ none
      → 0 < lease
      → MakesMove job.id s (claim_locked u utc_now lease moment job worker s)
  unfolding claim_locked claim_row save_job save_worker
  claim_locked-MakesMove lease moment job worker s found waits left unasked long =
      MakesMove-if s (is_stopping worker.status || is_stopped worker.status) _ _ (λ _. stays s none)
        (λ _.
          MakesMove-if s (is_busy worker.current_job_id job.id) _ _ (λ _. stays s none)
            (λ _.
              logged u utc_now job (claim_row worker.id lease moment job) s _ _ _ _ _ _ _ _ _ found
                (Move.claim worker.id lease moment waits left unasked long) refl))

  claim_by-MakesMove :
      (lease moment : ℕ) (job : Job) (worker : Option Worker) (s : Store)
      → find_job job.id s ≡ some job
      → job.status ≡ JobStatus.queued
      → job.attempt < job.max_attempts
      → job.cancellation_requested_at ≡ none
      → 0 < lease
      → MakesMove job.id s (claim_by u utc_now worker lease moment job s)
  claim_by-MakesMove lease moment job none s found waits left unasked long =
      MakesMove-err s job_queue_state_error
  claim_by-MakesMove lease moment job (some worker) s found waits left unasked long =
      claim_locked-MakesMove lease moment job worker s found waits left unasked long

  -- The job that is claimed makes its move, and no other job does.
  pub claim_next_job-MakesMove :
      (locked : ℕ → Bool) (worker_id : ℕ) (types : List JobType) (lease_seconds : ℤ)
      (now : Option DateTime) (s : Store)
      → AreDistinct job_key s.jobs
      → (i : ℕ) × MakesMove i s
          (claim_next_job u utc_now locked worker_id types lease_seconds now s)
  unfolding claim_next_job
  claim_next_job-MakesMove locked worker_id [] lease_seconds now s distinct =
      (0, MakesMove-bind s (positive lease_seconds) _ (λ _ _. stays s none))
  claim_next_job-MakesMove locked worker_id (t ∷ ts) lease_seconds now s distinct =
      some_move-bind s (positive lease_seconds) _ (λ lease p.
        some_move-bind s (resolve_now utc_now now) _ (λ moment _.
          some_move-if_row s
            (least created_before (filter (is_claimable (t ∷ ts) locked moment) s.jobs)) _
            (λ job e.
              let (found, passes) = selected_job (t ∷ ts) locked moment s job distinct e in
              let (waits, left, unasked) = claimable (t ∷ ts) locked moment job passes in
              (
                job.id,
                claim_by-MakesMove lease moment job (lock_worker worker_id s) s found waits left
                    unasked (positive_pos lease_seconds lease p),
              ))))
