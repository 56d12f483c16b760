-- ===== src/Jobs/Ownership.antt =====
-- A job belongs to the worker that holds its lease: calls of any other worker change nothing, and
-- the holder's heartbeat keeps the lease.
use mathlib.Core.Path.{subst}
use praktika.Prelude.{
  ℕ, suc, true, ◌+◌, ◌≤◌, ◌≡◌, refl, ◌∙◌, ◌≢◌, Option, none, some, Option-cases, inl, inr, Result,
  ok, err, ◌>>=◌, bind_ok, arith, pos, Error, ◌⊎◌,
}
use praktika.Text.{Text, Unicode}
use praktika.Sanitize.{DateTime, Object}
use praktika.Jobs.Model.{Job, JobStatus, Store}
use praktika.Jobs.Clock.{resolve_now, positive, later, seconds, optional, non_negative}
use praktika.Jobs.Transitions.{heartbeat_row}
use praktika.Jobs.Locks.{if_row, find_job, lock_running_job_for_worker, save_job}
use praktika.Jobs.Conditions.{ProgressUpdate, check_progress, beat_worker, is_foreign}
use praktika.Jobs.Queue.{
  heartbeat_job, update_job_progress, complete_job, fail_job, requeue_job, cancel_job,
  cancel_by_status,
}
use praktika.Jobs.Moves.Frame.{if_row-some, find_job-saved}
use praktika.Jobs.Moves.Refine.{find_job_self, find_job_key}
use praktika.Jobs.Moves.Hold.{jobs-beat_worker}

-- The worker does not run this job.
abbrev pub IsForeign : ℕ → ℕ → Store → Type 0
IsForeign worker_id job_id s =
    (job : Job)
    → find_job job_id s ≡ some job
    → job.status ≡ JobStatus.running
    → job.claimed_by ≢ some worker_id

nothing_locked :
    (job_id worker_id : ℕ) (s : Store)
    → IsForeign worker_id job_id s
    → lock_running_job_for_worker job_id worker_id s ≡ none
unfolding lock_running_job_for_worker
nothing_locked job_id worker_id s foreign = elim (Option-cases (find_job job_id s)) [
  | inl e ↦ rw (e, lock_running_job_for_worker)
  | inr (job, e) ↦ rw (e, lock_running_job_for_worker) (ground (arith, foreign job e))
]

locked_by_holder :
    (job_id worker_id : ℕ) (s : Store) (job : Job)
    → find_job job_id s ≡ some job
    → job.status ≡ JobStatus.running
    → job.claimed_by ≡ some worker_id
    → lock_running_job_for_worker job_id worker_id s ≡ some job
unfolding lock_running_job_for_worker
locked_by_holder job_id worker_id s job found running mine =
    rw (found, lock_running_job_for_worker) (ground arith)

-- The job is in the queue.
abbrev pub IsWaiting : ℕ → Store → Type 0
IsWaiting job_id s = (job : Job) × (find_job job_id s ≡ some job) × (job.status ≡ JobStatus.queued)

-- The call is refused, or leaves the tables as they were.
abbrev pub LeavesAlone : {A : Type 0} → Store → Result (A × Store) → Type 0
LeavesAlone {A} s r = ((e : Error) × (r ≡ err e)) ⊎ ((a : A) × (r ≡ ok (a, s)))

-- The call is refused, or answers this.
abbrev pub RefusesOr : {A : Type 0} → A → Result A → Type 0
RefusesOr a r = ((e : Error) × (r ≡ err e)) ⊎ (r ≡ ok a)

RefusesOr-bind :
    {A B : Type 0}
    → (r : Result A) (f : A → Result B) (b : B) → ((a : A) → RefusesOr b (f a))
    → RefusesOr b (r >>= f)
RefusesOr-bind (err e) f b h = inl (e, refl)
RefusesOr-bind (ok a) f b h = h a

later_bounds : (t : Option ℕ) (c : ℕ) → c ≤ later t c
unfolding later
later_bounds t c = ground arith

later_old : (t : Option ℕ) (c old : ℕ) → t ≡ some old → old ≤ later t c
unfolding later
later_old t c old e = ground arith

module _ (u : Unicode) (utc_now : ℕ) where
  no_progress :
      (job_id worker_id : ℕ) (s : Store) (p : ProgressUpdate)
      → lock_running_job_for_worker job_id worker_id s ≡ none
      → RefusesOr (none, s) (update_job_progress u utc_now job_id worker_id p s)
  unfolding update_job_progress
  no_progress job_id worker_id s p e =
      RefusesOr-bind (check_progress p.progress) _ (none, s)
        (λ progress.
          RefusesOr-bind (optional p.processed_items) _ (none, s)
            (λ processed.
              RefusesOr-bind (optional p.total_items) _ (none, s)
                (λ total.
                  RefusesOr-bind (non_negative p.request_count_delta) _ (none, s)
                    (λ requests.
                      RefusesOr-bind (non_negative p.bytes_received_delta) _ (none, s)
                        (λ bytes. inr (rw (e, if_row) refl))))))

  cancel-foreign :
      (status : JobStatus) (worker_id : ℕ) (now : Option DateTime) (job : Job) (s : Store)
      → (status ≡ JobStatus.running → is_foreign (some worker_id) job.claimed_by ≡ true)
      → (status ≡ JobStatus.queued)
        ⊎ LeavesAlone s (cancel_by_status u utc_now status (some worker_id) now job s)
  cancel-foreign JobStatus.queued worker_id now job s foreign = inl refl
  cancel-foreign JobStatus.running worker_id now job s foreign =
      inr (inr (none, rw (foreign refl) refl))
  cancel-foreign JobStatus.cancelled worker_id now job s foreign = inr (inr (some job, refl))
  cancel-foreign JobStatus.completed worker_id now job s foreign = inr (inl (_, refl))
  cancel-foreign JobStatus.failed worker_id now job s foreign = inr (inl (_, refl))

  not_cancelled :
      (job_id worker_id : ℕ) (s : Store) (now : Option DateTime)
      → IsForeign worker_id job_id s
      → IsWaiting job_id s ⊎ LeavesAlone s (cancel_job u utc_now job_id (some worker_id) now s)
  unfolding cancel_job
  not_cancelled job_id worker_id s now foreign = elim (Option-cases (find_job job_id s)) [
    | inl missing ↦ inr (inr (none, rw (missing, if_row) refl))
    | inr (job, found) ↦
        elim (cancel-foreign job.status worker_id now job s (claimed_elsewhere job found)) [
          | inl queued ↦ inl (job, found, queued)
          | inr (inl refused) ↦ inr (inl (refused.0, rw (found, if_row) refused.1))
          | inr (inr answered) ↦ inr (inr (answered.0, rw (found, if_row) answered.1))
        ]
  ]
    where
      claimed_elsewhere :
          (job : Job)
          → find_job job_id s ≡ some job
          → job.status ≡ JobStatus.running
          → is_foreign (some worker_id) job.claimed_by ≡ true
      claimed_elsewhere job found running = ground (arith, foreign job found running)

  -- A worker that does not hold a job, such as one whose lease was recovered and given to another,
  -- can neither complete, fail or requeue it nor keep its lease or report progress: the call
  -- answers with no job and leaves the tables as they were, or a bad progress argument is refused.
  -- Its call to cancel the job is refused or leaves the tables as they were, unless the job waits in
  -- the queue, where no worker holds it and any caller may cancel it.
  pub foreign_worker_changes_nothing :
      (job_id worker_id : ℕ) (s : Store) (now : Option DateTime) (result : Option Object)
      (code message : Text) (at : DateTime) (lease : ℕ) (p : ProgressUpdate)
      → IsForeign worker_id job_id s
      → (complete_job u utc_now job_id worker_id result now s ≡ ok (none, s))
        × (fail_job u utc_now job_id worker_id code message result now s ≡ ok (none, s))
        × (requeue_job u utc_now job_id worker_id at code message now s ≡ ok (none, s))
        × (heartbeat_job u utc_now job_id worker_id (pos (suc lease)) now s ≡ ok (none, s))
        × RefusesOr (none, s) (update_job_progress u utc_now job_id worker_id p s)
        × (IsWaiting job_id s ⊎ LeavesAlone s (cancel_job u utc_now job_id (some worker_id) now s))
  unfolding complete_job fail_job requeue_job heartbeat_job positive
  foreign_worker_changes_nothing job_id worker_id s now result code message at lease p foreign =
      let e = nothing_locked job_id worker_id s foreign in
      (
        rw e,
        rw e,
        rw e,
        rw e,
        no_progress job_id worker_id s p e,
        not_cancelled job_id worker_id s now foreign,
      )

  -- The holder's heartbeat is accepted: the lease then ends no earlier than before and no earlier
  -- than the lease time from now, the last sign of life is no earlier than now, the rest of the
  -- row stays, and the tables hold the row.
  pub heartbeat_keeps_lease :
      (job_id worker_id lease moment old : ℕ) (now : Option DateTime) (s : Store) (job : Job)
      → find_job job_id s ≡ some job
      → job.status ≡ JobStatus.running
      → job.claimed_by ≡ some worker_id
      → job.lease_expires_at ≡ some old
      → resolve_now utc_now now ≡ ok moment
      → (beat end : ℕ) × (s' : Store) × let kept = record job {
        heartbeat_at = some beat;
        lease_expires_at = some end;
      } in
          (heartbeat_job u utc_now job_id worker_id (pos (suc lease)) now s ≡ ok (some kept, s'))
          × (find_job job_id s' ≡ some kept)
          × (moment ≤ beat)
          × (moment + seconds (suc lease) ≤ end)
          × (old ≤ end)
  unfolding heartbeat_job positive heartbeat_row save_job
  heartbeat_keeps_lease job_id worker_id lease moment old now s job found running mine leased at =
      let beat = later job.heartbeat_at moment in
      let end = later job.lease_expires_at (moment + seconds (suc lease)) in
      let kept = record job { heartbeat_at = some beat; lease_expires_at = some end } in
      let s' = beat_worker worker_id job.id moment (save_job kept s) in
      (
        beat,
        end,
        s',
        (
          if_row-some (lock_running_job_for_worker job_id worker_id s) s _ job
                (locked_by_holder job_id worker_id s job found running mine)
              ∙ bind_ok (resolve_now utc_now now) _ moment at,
          subst (λ i. find_job i s' ≡ some kept) (find_job_key job_id s job found)
              (find_job-saved job kept s s' (find_job_self job_id s job found)
                (jobs-beat_worker worker_id job.id moment (save_job kept s))),
          ground (arith, later_bounds job.heartbeat_at moment),
          ground (arith, later_bounds job.lease_expires_at (moment + seconds (suc lease))),
          later_old job.lease_expires_at (moment + seconds (suc lease)) old leased,
        ),
      )
