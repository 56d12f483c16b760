-- ===== src/Jobs/Claim.antt =====
-- Which job `claim_next_job` hands out, and when it hands out none.
use mathlib.Core.Path.{subst}
use praktika.Prelude.{
  any, ◌≤◌, ◌<◌, ℕ, suc, ◌≡◌, refl, ◌∙◌, ◌⊎◌, Bool, true, false, ◌||◌, Option, none, some,
  Option-cases, inl, inr, List, ◌∷◌, ok, ◌>>=◌, bind_ok, arith, pos, filter, All, All-weaken,
}
use praktika.Text.{Unicode, codes}
use praktika.Sanitize.{
  DateTime, mapping, entry, uuid, int, no_entries, normalize_event_code, sanitize_metrics,
  is_sensitive_key, sanitize_value, set_field,
}
use praktika.Jobs.Events.{add_job_event}
use praktika.Table.{least, AreDistinct}
use praktika.Table.Rows.{key-find}
use praktika.Table.Order.{IsOrder, least_first, no_least, unfilter}
use praktika.Jobs.Model.{
  JobStage, JobEventLevel, Job, JobType, Worker, Store, job_key, worker_key, same_type, JobStatus,
  is_stopping, is_stopped,
}
use praktika.Jobs.Clock.{resolve_now, positive}
use praktika.Jobs.Transitions.{claim_row, occupy_row}
use praktika.Jobs.Locks.{find_job, lock_worker, save_job, save_worker}
use praktika.Jobs.Conditions.{is_claimable, created_before, is_busy}
use praktika.Jobs.Queue.{log_event, claim_locked, claim_by, claim_next_job}
use praktika.Jobs.Moves.Frame.{log_event_frame, find_job-saved, if_row-some}
use praktika.Jobs.Moves.Hold.{selected_job}

-- The wait of a retry is over.
abbrev pub IsOver : Option ℕ → ℕ → Type 0
IsOver none moment = Unit {0}
IsOver (some t) moment = t ≤ moment

-- A job that a worker for these types may claim now.
pub record IsReady (types : List JobType) (locked : ℕ → Bool) (moment : ℕ) (j : Job) : Type 0 where
  pub queued : j.status ≡ JobStatus.queued
  pub supported : any (same_type j.job_type) types ≡ true
  pub over : IsOver j.next_attempt_at moment
  pub unasked : j.cancellation_requested_at ≡ none
  pub attempts_left : j.attempt < j.max_attempts
  pub unlocked : locked j.id ≡ false

-- Created earlier, or at the same time with a smaller id.
abbrev pub IsOlder : Job → Job → Type 0
IsOlder i j = (i.created_at < j.created_at) ⊎ ((i.created_at ≡ j.created_at) × (i.id ≤ j.id))

is_claimable-IsReady :
    (types : List JobType) (locked : ℕ → Bool) (moment : ℕ) (j : Job)
    → is_claimable types locked moment j ≡ true
    → IsReady types locked moment j
unfolding is_claimable
is_claimable-IsReady types locked moment j e = ground arith

unclaimable_not-IsReady :
    (types : List JobType) (locked : ℕ → Bool) (moment : ℕ) (j : Job)
    → is_claimable types locked moment j ≡ false
    → ¬ IsReady types locked moment j
unfolding is_claimable
unclaimable_not-IsReady types locked moment j e ready = ground arith

created_before-IsOlder : (i j : Job) → created_before i j ≡ false → IsOlder j i
unfolding created_before
created_before-IsOlder i j e = ground arith

created_before-IsOrder : IsOrder created_before
unfolding created_before
created_before-IsOrder = record {
  asym = λ a b h. ground arith;
  neg_trans = λ a b c h k. ground arith;
  irrefl = λ a. ground arith;
}

lock_worker_key :
    (i : ℕ) (s : Store) (worker : Worker) → lock_worker i s ≡ some worker → worker.id ≡ i
unfolding lock_worker
lock_worker_key i s worker e = key-find worker_key i s.workers worker e

-- The event of a claim is always accepted.
claim_logged :
    (u : Unicode) (utc_now : ℕ) (job_id worker_id : ℕ) (stage : JobStage) (attempt moment : ℕ)
    (s : Store)
    → (s' : Store) × (log_event u utc_now job_id JobEventLevel.info stage
          (codes "JOB_CLAIMED")
          (codes "Задание захвачено worker-процессом")
          (some (
            mapping (
              entry
                (codes "workerId")
                (uuid worker_id)
                (entry (codes "attempt") (int (pos attempt)) no_entries))))
          moment
          s
        ≡ ok s')
unfolding log_event add_job_event normalize_event_code sanitize_metrics is_sensitive_key
    sanitize_value set_field resolve_now
claim_logged u utc_now job_id worker_id stage attempt moment s = (_, refl)

-- The worker is registered, is not on its way out, and holds no job.
pub record IsIdle (worker_id : ℕ) (s : Store) : Type 0 where
  pub worker : Worker
  pub registered : lock_worker worker_id s ≡ some worker
  pub stays : (is_stopping worker.status || is_stopped worker.status) ≡ false
  pub free : worker.current_job_id ≡ none

module _ (u : Unicode) (utc_now : ℕ) where
  claim_locked_free :
      (lease moment : ℕ) (job : Job) (worker : Worker) (s : Store)
      → find_job job.id s ≡ some job
      → (is_stopping worker.status || is_stopped worker.status) ≡ false
      → worker.current_job_id ≡ none
      → (s' : Store) × (claim_locked u utc_now lease moment job worker s
          ≡ ok (some (claim_row worker.id lease moment job), s'))
        × (find_job job.id s' ≡ some (claim_row worker.id lease moment job))
  unfolding claim_locked claim_row save_job save_worker
  claim_locked_free lease moment job worker s found stays free =
      let not_busy : is_busy worker.current_job_id job.id ≡ false = ground arith in
      let claimed = claim_row worker.id lease moment job in
      let (s', logged) =
        claim_logged u utc_now job.id worker.id claimed.stage claimed.attempt moment
          (save_worker (occupy_row job.id moment worker) (save_job claimed s)) in
      let same =
        (log_event_frame u utc_now job.id JobEventLevel.info claimed.stage _ _ _ moment
          (save_worker (occupy_row job.id moment worker) (save_job claimed s)) s' logged).0 in
      (
        s',
        rw (stays, not_busy) (bind_ok (log_event u utc_now _ _ _ _ _ _ _ _) _ s' logged),
        find_job-saved job claimed s s' found same,
      )

  -- An idle worker that asks for work of some type is given the oldest job that may be claimed,
  -- ties broken by the id: the job's row is claimed by the worker with one more attempt, a lease
  -- that starts now, and is found so in the tables afterwards. It gets nothing, and nothing changes,
  -- only when no job may be claimed. The call does not raise, if the lease is positive and the
  -- time carries its timezone.
  pub claim_hands_out_oldest :
      (locked : ℕ → Bool) (worker_id : ℕ) (t : JobType) (ts : List JobType) (lease moment : ℕ)
      (now : Option DateTime) (s : Store)
      → AreDistinct job_key s.jobs
      → IsIdle worker_id s
      → resolve_now utc_now now ≡ ok moment
      → let answer = claim_next_job u utc_now locked worker_id (t ∷ ts) (pos (suc lease)) now s in
        ((answer ≡ ok (none, s)) × All (λ j. ¬ IsReady (t ∷ ts) locked moment j) s.jobs)
        ⊎ ((j : Job) × (s' : Store) × (find_job j.id s ≡ some j)
            × IsReady (t ∷ ts) locked moment j
            × All (λ i. (¬ IsReady (t ∷ ts) locked moment i) ⊎ IsOlder j i) s.jobs
            × (answer ≡ ok (some (claim_row worker_id (suc lease) moment j), s'))
            × (find_job j.id s' ≡ some (claim_row worker_id (suc lease) moment j)))
  unfolding claim_next_job positive
  claim_hands_out_oldest locked worker_id t ts lease moment now s distinct idle at =
      let p = is_claimable (t ∷ ts) locked moment in
      elim (Option-cases (least created_before (filter p s.jobs))) [
        | inl nothing ↦ inl (
          rw (at, ◌>>=◌) (rw nothing),
          All-weaken _ _ (λ j never. none_ready j (p j) refl never) s.jobs
              (unfilter (λ _. ⊥) p s.jobs
                (no_least created_before (λ _. ⊥) (filter p s.jobs) nothing)),
        )
        | inr (job, first) ↦
            let (found, passes) = selected_job (t ∷ ts) locked moment s job distinct first in
            let (s', done, kept) =
              claim_locked_free (suc lease) moment job idle.worker s found idle.stays idle.free in
            let named = lock_worker_key worker_id s idle.worker idle.registered in
            let claim_registered : (o : Option Worker) (w : Worker)
                → o ≡ some w
                → claim_by u utc_now o (suc lease) moment job s
                  ≡ claim_locked u utc_now (suc lease) moment job w s =
              λ o w e. rw e in
            inr (
              job,
              s',
              found,
              is_claimable-IsReady (t ∷ ts) locked moment job passes,
              All-weaken _ _ (λ i older. all_older i job (p i) refl older) s.jobs
                  (unfilter (λ i. created_before i job ≡ false) p s.jobs
                    (least_first created_before created_before-IsOrder (filter p s.jobs) job
                      first)),
              bind_ok (resolve_now utc_now now) _ moment at
                  ∙ if_row-some (least created_before (filter p s.jobs)) s _ job first
                  ∙ claim_registered (lock_worker worker_id s) idle.worker idle.registered
                  ∙ subst
                      (λ i.
                        claim_locked u utc_now (suc lease) moment job idle.worker s
                        ≡ ok (some (claim_row i (suc lease) moment job), s'))
                      named done,
              subst (λ i. find_job job.id s' ≡ some (claim_row i (suc lease) moment job)) named
                  kept,
            )
      ]
    where
      none_ready :
          (j : Job) (b : Bool)
          → is_claimable (t ∷ ts) locked moment j ≡ b
          → (b ≡ true → ⊥)
          → ¬ IsReady (t ∷ ts) locked moment j
      none_ready j true e never = absurd (never refl)
      none_ready j false e never = unclaimable_not-IsReady (t ∷ ts) locked moment j e

      all_older :
          (i j : Job) (b : Bool)
          → is_claimable (t ∷ ts) locked moment i ≡ b
          → (b ≡ true → created_before i j ≡ false)
          → (¬ IsReady (t ∷ ts) locked moment i) ⊎ IsOlder j i
      all_older i j true e older = inr (created_before-IsOlder i j (older refl))
      all_older i j false e older = inl (unclaimable_not-IsReady (t ∷ ts) locked moment i e)
