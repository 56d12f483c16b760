-- ===== src/Jobs/Tests.antt =====
-- The queue on a small table: runs by evaluation, and the theorems at concrete inputs.
use praktika.Jobs.Recovery.{StaleRecoveryResult, recover_stale_jobs, stale_ids}
use praktika.Jobs.Settled.{IsSettled, IsStale, recover_stale_jobs-IsSettled}
use praktika.Table.{AreDistinct}
use praktika.Jobs.Model.{job_key}
use praktika.Prelude.{
  length, ℕ, ◌+◌, ◌≤◌, ◌≡◌, refl, ◌⊎◌, Bool, true, false, none, some, List, [], ◌∷◌, ok, pos, arith,
  All, map,
}
use praktika.Text.{Unicode, codes}
use praktika.Sanitize.{no_fields, aware, normalize_event_code, sanitize_metrics}
use praktika.Table.{find, put, least}
use praktika.Jobs.Model.{JobType, JobStatus, JobStage, WorkerStatus, Job, Worker, Store}
use praktika.Jobs.Clock.{resolve_now, seconds, positive}
use praktika.Jobs.Events.{add_job_event}
use praktika.Jobs.Transitions.{claim_row, heartbeat_row, complete_row, occupy_row, release_row}
use praktika.Jobs.Locks.{
  find_job, lock_worker, lock_running_job_for_worker, save_job, save_worker, release_worker_job,
}
use praktika.Jobs.Conditions.{ProgressUpdate, is_claimable, created_before}
use praktika.Jobs.Queue.{
  claim_next_job, complete_job, fail_job, requeue_job, heartbeat_job, update_job_progress,
  cancel_job, log_event,
}
use praktika.Jobs.Commands.{Command, execute_all}
use praktika.Jobs.Lifecycle.{IsQueue, Advances, execute_all-IsQueue, execute_all-Advances}
use praktika.Jobs.Claim.{IsReady, IsOlder, IsIdle, claim_hands_out_oldest}
use praktika.Jobs.Ownership.{
  RefusesOr, IsWaiting, LeavesAlone, foreign_worker_changes_nothing, heartbeat_keeps_lease,
}

-- No letters beyond ASCII.
abbrev pub ascii : Unicode
ascii = record {
  wide_word = λ _. false;
  wide_upper = λ c. c ∷ [];
  wide_casefold = λ c. c ∷ [];
  wide_digit = λ _. none;
}

abbrev pub waiting : ℕ → ℕ → Job
waiting id created = record {
  id = id;
  job_type = JobType.source_sync;
  status = JobStatus.queued;
  stage = JobStage.preparing;
  progress = 0;
  processed_items = 0;
  total_items = 0;
  source_id = none;
  document_id = none;
  created_by = none;
  retry_of_job_id = none;
  claimed_by = none;
  claimed_at = none;
  lease_expires_at = none;
  heartbeat_at = none;
  attempt = 0;
  max_attempts = 2;
  next_attempt_at = none;
  cancellation_requested_at = none;
  cancellable = true;
  checkpoint = no_fields;
  result = no_fields;
  request_count = 0;
  bytes_received = 0;
  error_code = none;
  error_message = none;
  created_at = created;
  started_at = none;
  finished_at = none;
}

abbrev pub idle : Worker
idle = record {
  id = 7;
  name = codes "worker";
  instance_id = codes "host:1";
  capabilities = [];
  version = codes "1";
  hostname = codes "host";
  pid = 1;
  status = WorkerStatus.running;
  current_job_id = none;
  started_at = 0;
  heartbeat_at = 0;
  stopped_at = none;
}

abbrev store : Store
store = record {
  jobs = waiting 2 20 ∷ waiting 1 10 ∷ waiting 3 10 ∷ [];
  workers = idle ∷ [];
  events = [];
}

abbrev types : List JobType
types = JobType.source_sync ∷ []

abbrev pub unlocked : ℕ → Bool
unlocked _ = false

store-IsQueue : IsQueue store
store-IsQueue = ground arith

abbrev history : List (ℕ × Command)
history =
    (100, Command.claim_next unlocked 7 types (pos 30) none)
    ∷ (101, Command.heartbeat 1 7 (pos 30) none)
    ∷ (102, Command.complete 1 7 none none)
    ∷ (103, Command.cancel 1 none none)
    ∷ []

execute_all-IsQueue_example : IsQueue (execute_all ascii history store)
execute_all-IsQueue_example = execute_all-IsQueue ascii history store store-IsQueue

execute_all-Advances_example :
    (k : Job) × (find_job 1 (execute_all ascii history store) ≡ some k) × Advances (waiting 1 10) k
unfolding find_job find
execute_all-Advances_example =
    execute_all-Advances ascii history store 1 (waiting 1 10) store-IsQueue refl

-- Two jobs of the same age: the smaller id goes first.
oldest : least created_before (store.jobs) ≡ some (waiting 1 10)
unfolding least created_before
oldest = refl

-- Job 1 is claimed, kept and completed; the cancellation that comes too late is refused.
history_run :
    map {B = ℕ × JobStatus} (λ j. (j.id, j.status)) (execute_all ascii history store).jobs
    ≡ (2, JobStatus.queued) ∷ (1, JobStatus.completed) ∷ (3, JobStatus.queued) ∷ []
unfolding execute_all cancel_job find_job find put complete_job lock_running_job_for_worker
    heartbeat_job positive claim_next_job resolve_now least is_claimable created_before lock_worker
    log_event add_job_event normalize_event_code sanitize_metrics save_job save_worker
    release_worker_job release_row claim_row heartbeat_row complete_row occupy_row
history_run = refl

store-IsIdle : IsIdle 7 store
unfolding lock_worker find
store-IsIdle = record { worker = idle; registered = refl; stays = refl; free = refl }

claim_hands_out_oldest_example :
    let answer = claim_next_job ascii 100 unlocked 7 types (pos 30) none store in
    ((answer ≡ ok (none, store)) × All (λ j. ¬ IsReady types unlocked 100 j) store.jobs)
    ⊎ ((j : Job) × (s' : Store) × (find_job j.id store ≡ some j)
        × IsReady types unlocked 100 j
        × All (λ i. (¬ IsReady types unlocked 100 i) ⊎ IsOlder j i) store.jobs
        × (answer ≡ ok (some (claim_row 7 30 100 j), s'))
        × (find_job j.id s' ≡ some (claim_row 7 30 100 j)))
unfolding resolve_now
claim_hands_out_oldest_example =
    claim_hands_out_oldest ascii 100 unlocked 7 JobType.source_sync [] 29 100 none store
      store-IsQueue.distinct store-IsIdle refl

-- Job 5 runs for worker 7 until its lease ends at 90 seconds.
abbrev held : Job
held = claim_row 7 90 0 (waiting 5 1)

abbrev busy_store : Store
unfolding claim_row
busy_store = record { jobs = held ∷ []; workers = idle ∷ []; events = [] }

no_change : ProgressUpdate
no_change = record {
  progress = some (pos 10);
  processed_items = none;
  total_items = none;
  stage = none;
  checkpoint = none;
  request_count_delta = pos 1;
  bytes_received_delta = pos 0;
}

foreign_worker_changes_nothing_example :
    (complete_job ascii 3 5 8 none none busy_store ≡ ok (none, busy_store))
    × (fail_job ascii 3 5 8 (codes "X") (codes "x") none none busy_store ≡ ok (none, busy_store))
    × (requeue_job ascii 3 5 8 (aware 9) (codes "X") (codes "x") none busy_store
        ≡ ok (none, busy_store))
    × (heartbeat_job ascii 3 5 8 (pos 30) none busy_store ≡ ok (none, busy_store))
    × RefusesOr (none, busy_store) (update_job_progress ascii 3 5 8 no_change busy_store)
    × (IsWaiting 5 busy_store
        ⊎ LeavesAlone busy_store (cancel_job ascii 3 5 (some 8) none busy_store))
unfolding find_job find claim_row
foreign_worker_changes_nothing_example =
    foreign_worker_changes_nothing ascii 3 5 8 busy_store none none (codes "X") (codes "x")
      (aware 9) 29 no_change (λ job e r. ground arith)

heartbeat_keeps_lease_example :
    (beat end : ℕ) × (s' : Store) × let kept = record held {
      heartbeat_at = some beat;
      lease_expires_at = some end;
    } in
      (heartbeat_job ascii 40 5 7 (pos 30) none busy_store ≡ ok (some kept, s'))
      × (find_job 5 s' ≡ some kept)
      × (40 ≤ beat)
      × (40 + seconds 30 ≤ end)
      × (seconds 90 ≤ end)
unfolding find_job find claim_row resolve_now
heartbeat_keeps_lease_example =
    heartbeat_keeps_lease ascii 40 5 7 29 40 (seconds 90) none busy_store held refl refl refl refl
      refl

busy_store_distinct : AreDistinct job_key busy_store.jobs
unfolding busy_store
busy_store_distinct = (tt, tt)

-- Ninety seconds later the lease of job 5 is over.
recover_stale_jobs-IsSettled_example :
    (r : StaleRecoveryResult) × (s' : Store) × (recover_stale_jobs ascii 90000001 unlocked
        (pos 5)
        (pos 100)
        none
        busy_store
      ≡ ok (r, s'))
    × All (IsSettled s') (stale_ids unlocked 90000001 100 busy_store.jobs)
    × ((length (stale_ids unlocked 90000001 100 busy_store.jobs) ≡ 100)
        ⊎ All (λ j. (¬ IsStale unlocked 90000001 j) ⊎ IsSettled s' j.id) busy_store.jobs)
unfolding resolve_now
recover_stale_jobs-IsSettled_example =
    recover_stale_jobs-IsSettled ascii 90000001 unlocked 5 99 90000001 none busy_store
      busy_store_distinct (omega arith) refl
