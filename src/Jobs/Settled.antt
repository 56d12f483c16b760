-- ===== src/Jobs/Settled.antt =====
-- After `recover_stale_jobs` none of the jobs that it selected runs or holds a lease any more.
mod Steps
pub use Steps.{IsSettled}
use mathlib.Core.Path.{subst}
use praktika.Prelude.{
  ℕ, suc, ◌≤◌, ◌≡◌, sym, ◌∙◌, ◌⊎◌, Bool, true, false, Option, none, some, List, [], ok, arith, ltb,
  Bool-cases, inl, inr, All, All-take, All-weaken, pos, filter, take, length,
}
use praktika.Text.{Unicode}
use praktika.Sanitize.{DateTime}
use praktika.Table.{AreDistinct, sort}
use praktika.Table.{find}
use praktika.Table.Order.{
  All-filter, All-sort, found-All, AreDistinct-filter, AreDistinct-sort, AreDistinct-take,
}
use praktika.Table.Members.{take_all, In-map, length-map, In, All-In, In-filter, In-sort, In-All}
use praktika.Jobs.Model.{Job, JobStatus, Store, job_key}
use praktika.Jobs.Clock.{resolve_now, non_negative, positive}
use praktika.Jobs.Recovery.{
  StaleRecoveryResult, is_stale, expires_before, stale_ids, recover_stale_jobs,
}
use praktika.Jobs.Moves.Recover.{IsRunning, ids_distinct, ids_running, stale_running}
use praktika.Jobs.Settled.Steps.{recover_jobs-IsSettled}

-- A running job whose lease is over, or that has none, and whose row nobody holds.
abbrev IsOverdue : Option ℕ → ℕ → Type 0
IsOverdue none moment = Unit {0}
IsOverdue (some lease) moment = lease ≤ moment

pub record IsStale (locked : ℕ → Bool) (moment : ℕ) (j : Job) : Type 0 where
  pub running : j.status ≡ JobStatus.running
  pub overdue : IsOverdue j.lease_expires_at moment
  pub unlocked : locked j.id ≡ false

not-IsStale :
    (locked : ℕ → Bool) (moment : ℕ) (j : Job)
    → is_stale locked moment j ≡ false
    → ¬ IsStale locked moment j
unfolding is_stale
not-IsStale locked moment j e stale = ground arith

stale_ids-IsRunning :
    (locked : ℕ → Bool) (moment n : ℕ) (s : Store)
    → AreDistinct job_key s.jobs
    → All (IsRunning s) (stale_ids locked moment n s.jobs)
      × AreDistinct (λ i. i) (stale_ids locked moment n s.jobs)
unfolding stale_ids
stale_ids-IsRunning locked moment n s distinct =
    let stale = filter (is_stale locked moment) s.jobs in
    let chosen = take n (sort expires_before stale) in
    (
      ids_running s chosen (
          All-take _ n (sort expires_before stale) (
            All-sort _ expires_before stale (
              All-weaken _ _ (λ j h. (h.0, stale_running locked moment j h.1)) stale
                (All-filter (λ j. find job_key (job_key j) s.jobs ≡ some j) (is_stale locked moment)
                  s.jobs (found-All job_key s.jobs distinct))))),
      ids_distinct chosen (
          AreDistinct-take job_key n (sort expires_before stale) (
            AreDistinct-sort job_key expires_before stale
              (AreDistinct-filter job_key (is_stale locked moment) s.jobs distinct))),
    )

-- Every stale row is among the selected ids, or there are as many of these as asked for.
stale_ids_complete :
    (locked : ℕ → Bool) (moment n : ℕ) (jobs : List Job)
    → (length (stale_ids locked moment n jobs) ≡ n)
      ⊎ ((j : Job)
          → In j jobs
          → is_stale locked moment j ≡ true
          → In j.id (stale_ids locked moment n jobs))
unfolding stale_ids
stale_ids_complete locked moment n jobs =
    let sorted = sort expires_before (filter (is_stale locked moment) jobs) in
    elim (take_all n sorted) [
      | inl all_there ↦ inr (λ j i stale. In-map job_key (take n sorted) j (
          subst (In j) (sym all_there) (
            In-sort expires_before (filter (is_stale locked moment) jobs) j
              (In-filter (is_stale locked moment) jobs j stale i))))
      | inr full ↦ inl (length-map job_key (take n sorted) ∙ full)
    ]

module _ (u : Unicode) (utc_now : ℕ) where
  -- A recovery with a delay that is not negative, a limit from 1 to 1000 and a time with its
  -- timezone returns. Every job that it selected is then in the tables without a lease and does
  -- not run. Either as many jobs were selected as the limit allows, or that holds of every job
  -- that was running with a lease that was over and a row that nobody held.
  pub recover_stale_jobs-IsSettled :
      (locked : ℕ → Bool) (delay count moment : ℕ) (now : Option DateTime) (s : Store)
      → AreDistinct job_key s.jobs
      → suc count ≤ 1000
      → resolve_now utc_now now ≡ ok moment
      → (r : StaleRecoveryResult) × (s' : Store) × (recover_stale_jobs u utc_now locked
            (pos delay)
            (pos (suc count))
            now
            s
          ≡ ok (r, s'))
        × All (IsSettled s') (stale_ids locked moment (suc count) s.jobs)
        × ((length (stale_ids locked moment (suc count) s.jobs) ≡ suc count)
            ⊎ All (λ j. (¬ IsStale locked moment j) ⊎ IsSettled s' j.id) s.jobs)
  unfolding recover_stale_jobs non_negative positive
  recover_stale_jobs-IsSettled locked delay count moment now s distinct le at =
      let ids = stale_ids locked moment (suc count) s.jobs in
      let start : StaleRecoveryResult = record {
        requeued_job_ids = [];
        failed_job_ids = [];
        cancelled_job_ids = [];
      } in
      let (running, apart) = stale_ids-IsRunning locked moment (suc count) s distinct in
      let (a, e, settled, kept) =
        recover_jobs-IsSettled u utc_now delay moment ids start s apart running in
      (
        a.0,
        a.1,
        rw (in_range count le, at) e,
        settled,
        elim (stale_ids_complete locked moment (suc count) s.jobs) [
          | inl full ↦ inl full
          | inr complete ↦ inr (
              All-In _ s.jobs (λ j i. elim (Bool-cases (is_stale locked moment j)) [
                | inl stale ↦ inr (In-All (IsSettled a.1) ids settled j.id (complete j i stale))
                | inr fresh ↦ inl (not-IsStale locked moment j fresh)
              ]))
        ],
      )
    where
      in_range : (n : ℕ) → suc n ≤ 1000 → ltb 1000 (suc n) ≡ false
      in_range n le = ground arith
