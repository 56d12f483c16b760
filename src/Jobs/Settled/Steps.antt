-- ===== src/Jobs/Settled/Steps.antt =====
-- The recovery of one job, and of one after the other, leaves each without a lease.
use mathlib.Core.Path.{subst}
use praktika.Prelude.{
  ℕ, ◌≡◌, refl, sym, ◌∙◌, ◌≢◌, false, not, Option, none, some, List, [], ◌∷◌, ok, bind_ok, ltb,
  Bool-cases, inl, inr, All,
}
use praktika.Text.{Text, Unicode, codes}
use praktika.Sanitize.{
  normalize_event_code, sanitize_metrics, is_sensitive_key, sanitize_value, set_field,
}
use praktika.Table.{AreDistinct}
use praktika.Jobs.Model.{Job, Store, is_running}
use praktika.Jobs.Clock.{resolve_now}
use praktika.Jobs.Events.{add_job_event}
use praktika.Jobs.Transitions.{cancel_row, fail_row, requeue_row}
use praktika.Jobs.Locks.{find_job, save_job}
use praktika.Jobs.Conditions.{is_none}
use praktika.Jobs.Queue.{log_event, cancel_locked_job, fail_locked_job}
use praktika.Jobs.Recovery.{
  StaleRecoveryResult, add_cancelled, add_requeued, add_failed, recover_requeue, recover_job,
  recover_jobs,
}
use praktika.Jobs.Moves.Frame.{find_job-saved, jobs-release_claimant}
use praktika.Jobs.Moves.Refine.{find_job_self, find_job_key}
use praktika.Jobs.Moves.Recover.{IsRunning, still-IsRunning, recover_job-MakesMove}

-- The job is there, does not run and has no lease.
abbrev pub IsSettled : Store → ℕ → Type 0
IsSettled s i =
    (k : Job) × (find_job i s ≡ some k)
    × (is_running k.status ≡ false)
    × (k.lease_expires_at ≡ none)

-- The written row is found in the tables that hold its write.
written_row-IsSettled :
    (job k : Job) (s s' : Store)
    → k.id ≡ job.id
    → find_job job.id s ≡ some job
    → s'.jobs ≡ (save_job k s).jobs
    → is_running k.status ≡ false
    → k.lease_expires_at ≡ none
    → IsSettled s' job.id
written_row-IsSettled job k s s' same found written stops free = (
  k,
  subst (λ i. find_job i s' ≡ some k) same
      (find_job-saved job k s s' (subst (λ i. find_job i s ≡ some job) (sym same) found) written),
  stops,
  free,
)

module _ (u : Unicode) (utc_now : ℕ) where
  cancel-IsSettled :
      (moment : ℕ) (job : Job) (s : Store)
      → find_job job.id s ≡ some job
      → (a : Option Job × Store) × (cancel_locked_job u utc_now moment job s ≡ ok a)
        × IsSettled a.1 job.id
  unfolding cancel_locked_job cancel_row log_event add_job_event normalize_event_code
      sanitize_metrics resolve_now
  cancel-IsSettled moment job s found = (
    _,
    refl,
    written_row-IsSettled job (cancel_row moment job) s _ refl found
        (jobs-release_claimant job.claimed_by job.id moment (save_job (cancel_row moment job) s))
        refl refl,
  )

  fail-IsSettled :
      (message : Text) (moment : ℕ) (job : Job) (s : Store)
      → find_job job.id s ≡ some job
      → (a : Option Job × Store) × (fail_locked_job u utc_now job.claimed_by
            (codes "WORKER_LEASE_EXPIRED")
            message
            none
            moment
            job
            s
          ≡ ok a)
        × IsSettled a.1 job.id
  unfolding fail_locked_job fail_row log_event add_job_event normalize_event_code sanitize_metrics
      resolve_now sanitize_value is_sensitive_key set_field
  fail-IsSettled message moment job s found = (
    _,
    refl,
    written_row-IsSettled job _ s _ refl found
        (jobs-release_claimant job.claimed_by job.id moment (save_job _ s)) refl refl,
  )

  requeue-IsSettled :
      (delay moment : ℕ) (job : Job) (s : Store)
      → find_job job.id s ≡ some job
      → (s' : Store) × (recover_requeue u utc_now delay moment job s ≡ ok s') × IsSettled s' job.id
  unfolding recover_requeue requeue_row log_event add_job_event normalize_event_code
      sanitize_metrics resolve_now sanitize_value is_sensitive_key set_field
  requeue-IsSettled delay moment job s found = (
    _,
    refl,
    written_row-IsSettled job _ s _ refl found
        (jobs-release_claimant job.claimed_by job.id moment (save_job _ s)) refl refl,
  )

  recover_job-IsSettled :
      (delay moment : ℕ) (job : Job) (r : StaleRecoveryResult) (s : Store)
      → find_job job.id s ≡ some job
      → (a : StaleRecoveryResult × Store) × (recover_job u utc_now delay moment job r s ≡ ok a)
        × IsSettled a.1 job.id
  unfolding recover_job
  recover_job-IsSettled delay moment job r s found =
      elim (Bool-cases (not (is_none job.cancellation_requested_at))) [
        | inl asked ↦
            let (a, e, h) = cancel-IsSettled moment job s found in
            (
              (add_cancelled job.id r, a.1),
              rw asked (bind_ok (cancel_locked_job u utc_now moment job s) _ a e),
              h,
            )
        | inr unasked ↦ elim (Bool-cases (ltb job.attempt job.max_attempts)) [
          | inl left ↦
              let (s', e, h) = requeue-IsSettled delay moment job s found in
              (
                (add_requeued job.id r, s'),
                rw (unasked, left) (bind_ok (recover_requeue u utc_now delay moment job s) _ s' e),
                h,
              )
          | inr none_left ↦
              let (a, e, h) =
                fail-IsSettled (codes "Worker не продлил lease, попытки исчерпаны") moment job s
                  found in
              (
                (add_failed job.id r, a.1),
                rw (unasked, none_left)
                    (bind_ok (fail_locked_job u utc_now job.claimed_by _ _ none moment job s) _ a
                      e),
                h,
              )
        ]
      ]

  -- One job after the other is settled; a job that is done stays so, since the ids differ.
  pub recover_jobs-IsSettled :
      (delay moment : ℕ) (is : List ℕ) (r : StaleRecoveryResult) (s : Store)
      → AreDistinct (λ i. i) is
      → All (IsRunning s) is
      → (a : StaleRecoveryResult × Store) × (recover_jobs u utc_now delay moment is r s ≡ ok a)
        × All (IsSettled a.1) is
        × ((j : ℕ) → All (λ i. i ≢ j) is → find_job j a.1 ≡ find_job j s)
  unfolding recover_jobs
  recover_jobs-IsSettled delay moment [] r s d h = ((r, s), refl, tt, λ j n. refl)
  recover_jobs-IsSettled delay moment (i ∷ is) r s d h =
      let (job, found, running) = h.0 in
      let self = find_job_self i s job found in
      let (a, e, (k, there, stops, free)) = recover_job-IsSettled delay moment job r s self in
      let others = (recover_job-MakesMove u utc_now delay moment job r s self running).others a e in
      let same = find_job_key i s job found in
      let (b, q, settled, kept) =
        recover_jobs-IsSettled delay moment is a.0 a.1 d.1
          (still-IsRunning i is s a.1 d.0 (λ j n. others j (λ p. n (p ∙ same))) h.1) in
      (
        b,
        rw (found, recover_jobs) (bind_ok (recover_job u utc_now delay moment job r s) _ a e ∙ q),
        ((k, kept i d.0 ∙ subst (λ m. find_job m a.1 ≡ some k) same there, stops, free), settled),
        λ j n. kept j n.1 ∙ others j (λ p. n.0 (sym (p ∙ same))),
      )
