-- ===== src/Jobs/Commands.antt =====
-- The calls that the rest of the program makes to the queue, one constructor for each function of
-- jobs.py that writes, and a history of transactions.
use praktika.Prelude.{ℕ, Bool, Option, List, [], ◌∷◌, ℤ, Result, ok, err, ◌>>=◌}
use praktika.Text.{Text, Unicode}
use praktika.Sanitize.{DateTime, Object}
use praktika.Jobs.Model.{JobType, Store}
use praktika.Jobs.Events.{NewEvent, add_job_event}
use praktika.Jobs.Conditions.{ProgressUpdate}
use praktika.Jobs.Queue.{
  claim_next_job, heartbeat_job, update_job_progress, request_job_cancellation, complete_job,
  fail_job, requeue_job, cancel_job,
}
use praktika.Jobs.Recovery.{recover_stale_jobs}
use praktika.Jobs.Workers.{
  Registration, register_worker_instance, heartbeat_worker_instance, mark_worker_stopping,
  stop_worker_instance,
}

pub data Command : Type 0 where
  add_event : NewEvent → Command
  register : Registration → Option DateTime → Command
  heartbeat_worker mark_stopping stop : ℕ → Option DateTime → Command
  claim_next : (ℕ → Bool) → ℕ → List JobType → ℤ → Option DateTime → Command
  heartbeat : ℕ → ℕ → ℤ → Option DateTime → Command
  report_progress : ℕ → ℕ → ProgressUpdate → Command
  request_cancellation : ℕ → Option DateTime → Command
  complete : ℕ → ℕ → Option Object → Option DateTime → Command
  fail : ℕ → ℕ → Text → Text → Option Object → Option DateTime → Command
  requeue : ℕ → ℕ → DateTime → Text → Text → Option DateTime → Command
  cancel : ℕ → Option ℕ → Option DateTime → Command
  recover_stale : (ℕ → Bool) → ℤ → ℤ → Option DateTime → Command

-- A transaction: the tables after it, or the exception that rolled it back.
unfoldable pub transact : Unicode → ℕ → Command → Store → Result Store
transact u t (add_event e) s = add_job_event u t e s
transact u t (register r now) s = register_worker_instance t r now s >>= λ a. ok a.1
transact u t (heartbeat_worker w now) s = heartbeat_worker_instance t w now s >>= λ a. ok a.1
transact u t (mark_stopping w now) s = mark_worker_stopping t w now s >>= λ a. ok a.1
transact u t (stop w now) s = stop_worker_instance t w now s >>= λ a. ok a.1
transact u t (claim_next locked w types lease now) s =
    claim_next_job u t locked w types lease now s >>= λ a. ok a.1
transact u t (heartbeat j w lease now) s = heartbeat_job u t j w lease now s >>= λ a. ok a.1
transact u t (report_progress j w p) s = update_job_progress u t j w p s >>= λ a. ok a.1
transact u t (request_cancellation j now) s = request_job_cancellation u t j now s >>= λ a. ok a.1
transact u t (complete j w result now) s = complete_job u t j w result now s >>= λ a. ok a.1
transact u t (fail j w code message result now) s =
    fail_job u t j w code message result now s >>= λ a. ok a.1
transact u t (requeue j w at code message now) s =
    requeue_job u t j w at code message now s >>= λ a. ok a.1
transact u t (cancel j w now) s = cancel_job u t j w now s >>= λ a. ok a.1
transact u t (recover_stale locked delay limit now) s =
    recover_stale_jobs u t locked delay limit now s >>= λ a. ok a.1

abbrev pub committed : Store → Result Store → Store
committed s (ok s') = s'
committed s (err e) = s

unfoldable pub execute : Unicode → ℕ → Command → Store → Store
unfolding transact
execute u t c s = committed s (transact u t c s)

-- A history: each command with the clock at its time.
unfoldable pub execute_all : Unicode → List (ℕ × Command) → Store → Store
unfolding execute
execute_all u [] s = s
execute_all u ((t, c) ∷ cs) s = execute_all u cs (execute u t c s)
