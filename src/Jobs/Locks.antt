-- ===== src/Jobs/Locks.antt =====
-- The row locks of jobs.py, `_lock_worker`, `_lock_running_job_for_worker` and
-- `_release_worker_job`, and the writes to the tables. A locked row is read as it stands.
use praktika.Prelude.{Result, ok, ℕ, ◌&&◌, Option, none, some, if◌then◌else◌}
use praktika.Table.{find, put}
use praktika.Jobs.Model.{Job, Worker, Store, job_key, worker_key, is_running}
use praktika.Jobs.Transitions.{holds, release_row}

unfoldable pub find_job : ℕ → Store → Option Job
find_job job_id s = find job_key job_id s.jobs

unfoldable pub lock_worker : ℕ → Store → Option Worker
lock_worker worker_id s = find worker_key worker_id s.workers

unfoldable pub save_job : Job → Store → Store
save_job job s = record s { jobs = put job_key job s.jobs }

unfoldable pub save_worker : Worker → Store → Store
save_worker worker s = record s { workers = put worker_key worker s.workers }

-- The `WHERE` clause on the job that the worker runs.
abbrev pub runs_for : ℕ → Job → Option Job
runs_for worker_id job =
    if is_running job.status && holds job.claimed_by worker_id then some job else none

unfoldable pub lock_running_job_for_worker : ℕ → ℕ → Store → Option Job
lock_running_job_for_worker job_id worker_id s = elim (find_job job_id s) [
  | none ↦ none
  | some job ↦ runs_for worker_id job
]

unfoldable pub release_worker_job : ℕ → ℕ → ℕ → Store → Store
release_worker_job worker_id job_id moment s = elim (lock_worker worker_id s) [
  | none ↦ s
  | some worker ↦ save_worker (release_row job_id moment worker) s
]

-- `if worker_id is not None: await _release_worker_job(...)`
unfoldable pub release_claimant : Option ℕ → ℕ → ℕ → Store → Store
release_claimant none job_id moment s = s
release_claimant (some worker_id) job_id moment s = release_worker_job worker_id job_id moment s

-- `if row is None: return None`, and the rest of the operation on the row.
abbrev pub if_row :
    {A B : Type 0} → Option A → Store → (A → Result (Option B × Store)) → Result (Option B × Store)
if_row none s f = ok (none, s)
if_row (some a) s f = f a
