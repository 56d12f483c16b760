-- ===== src/Jobs/Moves/Recover.antt =====
-- `recover_stale_jobs` makes one move of each job that it selects, and none of the others.
use praktika.Prelude.{
  ℕ, ◌+◌, ◌<◌, ◌≡◌, refl, ◌∙◌, ◌≢◌, Bool, true, not, Option, none, some, List, [], ◌∷◌, Result, ok,
  err, value_error, ◌>>=◌, raise_if, arith, ℤ, filter, take, map, ltb, All, All-take, All-weaken,
}
use praktika.Text.{Unicode, codes}
use praktika.Sanitize.{DateTime}
use praktika.Table.{find, sort, AreDistinct}
use praktika.Table.Rows.{Each_trans, Each-weaken}
use praktika.Table.Order.{
  All-filter, All-sort, found-All, AreDistinct-filter, AreDistinct-sort, AreDistinct-take,
}
use praktika.Jobs.Model.{Job, JobStatus, Store, job_key}
use praktika.Jobs.Clock.{resolve_now, non_negative, positive, seconds}
use praktika.Jobs.Transitions.{requeue_row}
use praktika.Jobs.Locks.{find_job, save_job}
use praktika.Jobs.Conditions.{is_none, retry_stage}
use praktika.Jobs.Queue.{cancel_locked_job, fail_locked_job}
use praktika.Jobs.Recovery.{
  StaleRecoveryResult, is_stale, expires_before, stale_ids, recover_requeue, recover_job,
  recover_jobs, recover_stale_jobs,
}
use praktika.Jobs.Moves.{Move, Moves, here, then, MakesMove, MakesMoves}
use praktika.Jobs.Moves.Frame.{
  MakesMove-if, MakesMove-ok, MakesMove-err, stays, rekeyed, logged, jobs-release_claimant,
}
use praktika.Jobs.Moves.Refine.{
  cancel_locked_job-MakesMove, fail_locked_job-MakesMove, find_job_self, find_job_key,
}

pub Moves_trans : (x y z : Job) → Moves x y → Moves y z → Moves x z
Moves_trans x y z here m = m
Moves_trans x y z (then {k = k} a r) m = then a (Moves_trans k y z r m)

pub Moves_of_Move : (x y : Job) → Move x y → Moves x y
Moves_of_Move x y m = then m here

pub MakesMoves-of_MakesMove :
    {A : Type 0} {i : ℕ} (s : Store) (r : Result (A × Store)) → MakesMove i s r → MakesMoves s r
MakesMoves-of_MakesMove s r m = record {
  history = λ a q. Each-weaken Move Moves Moves_of_Move s.jobs a.1.jobs (m.moves a q);
}

-- A bookkeeping step after an operation.
MakesMove-map :
    {A B : Type 0} {i : ℕ} (s : Store) (m : Result (A × Store)) (g : A × Store → B)
    → MakesMove i s m
    → MakesMove i s (m >>= λ a. ok (g a, a.1))
MakesMove-map s (ok a) g h = MakesMove-ok s (g a, a.1) (h.moves a refl) (h.others a refl)
MakesMove-map s (err e) g h = MakesMove-err s e

pub MakesMoves-bind :
    {A B : Type 0} (s : Store) (m : Result A) (f : A → Result (B × Store))
    → ((a : A) → m ≡ ok a → MakesMoves s (f a))
    → MakesMoves s (m >>= f)
MakesMoves-bind s (ok a) f h = h a refl
MakesMoves-bind s (err e) f h = record { history = λ a q. absurd (cc) }

abbrev pub IsRunning : Store → ℕ → Type 0
IsRunning s i = (job : Job) × (find_job i s ≡ some job) × (job.status ≡ JobStatus.running)

-- What is left to do after one job still finds the rows as they were.
pub still-IsRunning :
    (i : ℕ) (is : List ℕ) (s t : Store)
    → All (λ j. j ≢ i) is
    → ((j : ℕ) → j ≢ i → find_job j t ≡ find_job j s)
    → All (IsRunning s) is
    → All (IsRunning t) is
still-IsRunning i [] s t n h r = tt
still-IsRunning i (j ∷ js) s t n h r =
    ((r.0.0, h j n.0 ∙ r.0.1, r.0.2), still-IsRunning i js s t n.1 h r.1)

pub stale_running :
    (locked : ℕ → Bool) (moment : ℕ) (job : Job)
    → is_stale locked moment job ≡ true
    → job.status ≡ JobStatus.running
unfolding is_stale
stale_running locked moment job h = ground arith

pub ids_running :
    (s : Store) (js : List Job)
    → All (λ j. (find job_key (job_key j) s.jobs ≡ some j) × (j.status ≡ JobStatus.running)) js
    → All (IsRunning s) (map job_key js)
unfolding find_job
ids_running s [] h = tt
ids_running s (j ∷ js) h = ((j, h.0.0, h.0.1), ids_running s js h.1)

pub ids_distinct : (js : List Job) → AreDistinct job_key js → AreDistinct (λ i. i) (map job_key js)
ids_distinct [] d = tt
ids_distinct (j ∷ js) d = (keys js d.0, ids_distinct js d.1)
  where
    keys :
        (ks : List Job)
        → All (λ k. job_key k ≢ job_key j) ks
        → All (λ i. i ≢ job_key j) (map job_key ks)
    keys [] n = tt
    keys (k ∷ ks) n = (n.0, keys ks n.1)

module _ (u : Unicode) (utc_now : ℕ) where
  recover_requeue-MakesMove :
      {B : Type 0} (retry_delay moment : ℕ) (job : Job) (s : Store) (g : Store → B)
      → find_job job.id s ≡ some job
      → job.status ≡ JobStatus.running
      → job.attempt < job.max_attempts
      → job.cancellation_requested_at ≡ none
      → MakesMove job.id s
          (recover_requeue u utc_now retry_delay moment job s >>= λ s'. ok (g s', s'))
  unfolding recover_requeue requeue_row save_job
  recover_requeue-MakesMove retry_delay moment job s g found running left unasked =
      logged u utc_now job
        (requeue_row (retry_stage (ltb 0 retry_delay)) (moment + seconds retry_delay)
          (codes "STALE_LEASE_RECOVERED")
          (codes "Задание возвращено в очередь после истечения lease") job)
        s _ _ _ _ _ _ _ _ g found (Move.requeue _ _ _ _ running left unasked)
        (jobs-release_claimant job.claimed_by job.id moment _)

  pub recover_job-MakesMove :
      (retry_delay moment : ℕ) (job : Job) (r : StaleRecoveryResult) (s : Store)
      → find_job job.id s ≡ some job
      → job.status ≡ JobStatus.running
      → MakesMove job.id s (recover_job u utc_now retry_delay moment job r s)
  unfolding recover_job
  recover_job-MakesMove retry_delay moment job r s found running =
      MakesMove-if s (not (is_none job.cancellation_requested_at)) _ _
        (λ _. MakesMove-map s (cancel_locked_job u utc_now moment job s) _ (
          cancel_locked_job-MakesMove u utc_now moment job job s s found refl
            (Move.cancel moment (rw running))))
        (λ unasked.
          MakesMove-if s (ltb job.attempt job.max_attempts) _ _
            (λ left.
              recover_requeue-MakesMove retry_delay moment job s _ found running (ground arith)
                (ground arith))
            (λ _.
              MakesMove-map s (fail_locked_job u utc_now job.claimed_by _ _ none moment job s) _ (
                fail_locked_job-MakesMove u utc_now job.claimed_by _ _ none moment job s found
                  running)))

  recover_jobs-MakesMoves :
      (retry_delay moment : ℕ) (is : List ℕ) (r : StaleRecoveryResult) (s : Store)
      → AreDistinct (λ i. i) is
      → All (IsRunning s) is
      → MakesMoves s (recover_jobs u utc_now retry_delay moment is r s)
  unfolding recover_jobs
  recover_jobs-MakesMoves retry_delay moment [] r s d h =
      MakesMoves-of_MakesMove {i = 0} s (ok (r, s)) (stays s r)
  recover_jobs-MakesMoves retry_delay moment (i ∷ is) r s d h =
      let (job, found, running) = h.0 in
      rw (found, recover_jobs)
        (after (recover_job u utc_now retry_delay moment job r s)
          (rekeyed (find_job_key i s job found) (
            recover_job-MakesMove retry_delay moment job r s (find_job_self i s job found) running))
          (λ a others.
            recover_jobs-MakesMoves retry_delay moment is a.0 a.1 d.1
              (still-IsRunning i is s a.1 d.0 others h.1)))
    where
      after :
          (m : Result (StaleRecoveryResult × Store))
          → MakesMove i s m
          → ((a : StaleRecoveryResult × Store)
              → ((j : ℕ) → j ≢ i → find_job j a.1 ≡ find_job j s)
              → MakesMoves a.1 (recover_jobs u utc_now retry_delay moment is a.0 a.1))
          → MakesMoves s (m >>= λ a. recover_jobs u utc_now retry_delay moment is a.0 a.1)
      after (ok a) m k = record {
        history = λ b q.
            Each_trans Moves Moves_trans s.jobs a.1.jobs b.1.jobs
              (Each-weaken Move Moves Moves_of_Move s.jobs a.1.jobs (m.moves a refl))
              ((k a (m.others a refl)).history b q);
      }
      after (err e) m k = record { history = λ b q. absurd (cc) }

  pub recover_stale_jobs-MakesMoves :
      (locked : ℕ → Bool) (retry_delay_seconds limit : ℤ) (now : Option DateTime) (s : Store)
      → AreDistinct job_key s.jobs
      → MakesMoves s (recover_stale_jobs u utc_now locked retry_delay_seconds limit now s)
  unfolding recover_stale_jobs stale_ids
  recover_stale_jobs-MakesMoves locked retry_delay_seconds limit now s distinct =
      MakesMoves-bind s (non_negative retry_delay_seconds) _ (λ delay _.
        MakesMoves-bind s (positive limit) _ (λ count _.
          MakesMoves-bind s (raise_if (ltb 1000 count) value_error) _ (λ _ _.
            MakesMoves-bind s (resolve_now utc_now now) _ (λ moment _.
              let stale = filter (is_stale locked moment) s.jobs in
              let chosen = take count (sort expires_before stale) in
              recover_jobs-MakesMoves delay moment (map job_key chosen) _ s
                (ids_distinct chosen (
                  AreDistinct-take job_key count (sort expires_before stale) (
                    AreDistinct-sort job_key expires_before stale
                      (AreDistinct-filter job_key (is_stale locked moment) s.jobs distinct))))
                (ids_running s chosen (
                  All-take _ count (sort expires_before stale) (
                    All-sort _ expires_before stale (
                      All-weaken _ _ (λ j h. (h.0, stale_running locked moment j h.1)) stale
                        (All-filter (λ j. find job_key (job_key j) s.jobs ≡ some j)
                          (is_stale locked moment) s.jobs
                          (found-All job_key s.jobs distinct))))))))))
