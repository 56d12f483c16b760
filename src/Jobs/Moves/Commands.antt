-- ===== src/Jobs/Moves/Commands.antt =====
-- Every command, and every history of commands, makes moves of the jobs.
use praktika.Prelude.{ℕ, ◌≡◌, refl, Option, Result, ok, err, ◌>>=◌, arith}
use praktika.Text.{Unicode}
use praktika.Table.{Each, AreDistinct}
use praktika.Table.Rows.{Each_refl}
use praktika.Jobs.Model.{Store, job_key}
use praktika.Jobs.Events.{NewEvent, add_job_event}
use praktika.Sanitize.{DateTime}
use praktika.Jobs.Locks.{save_worker}
use praktika.Jobs.Workers.{
  Registration, register_worker_instance, heartbeat_worker_instance, mark_worker_stopping,
  stop_worker_instance,
}
use praktika.Jobs.Commands.{Command, transact, execute, committed}
use praktika.Jobs.Moves.{Moves, here, MakesMove, MakesMoves}
use praktika.Jobs.Moves.Refine.{
  complete_job-MakesMove, fail_job-MakesMove, requeue_job-MakesMove, cancel_job-MakesMove,
  request_job_cancellation-MakesMove,
}
use praktika.Jobs.Moves.Hold.{
  heartbeat_job-MakesMove, update_job_progress-MakesMove, claim_next_job-MakesMove,
}
use praktika.Jobs.Moves.Recover.{MakesMoves-of_MakesMove, recover_stale_jobs-MakesMoves}

unmoved : (s t : Store) → t.jobs ≡ s.jobs → Each Moves s.jobs t.jobs
unmoved s t e = rw e (Each_refl Moves (λ z. here) s.jobs)

MovesTo : Store → Result Store → Type 0
MovesTo s r = Each Moves s.jobs (committed s r).jobs

of_result :
    {A : Type 0} (s : Store) (r : Result (A × Store))
    → MakesMoves s r
    → MovesTo s (r >>= λ a. ok a.1)
unfolding MovesTo
of_result s (ok a) m = m.history a refl
of_result s (err e) m = unmoved s s refl

of_move :
    {A : Type 0} {i : ℕ} (s : Store) (r : Result (A × Store))
    → MakesMove i s r
    → MovesTo s (r >>= λ a. ok a.1)
of_move s r m = of_result s r (MakesMoves-of_MakesMove s r m)

of_workers : (s : Store) (r : Result Store) → (committed s r).jobs ≡ s.jobs → MovesTo s r
unfolding MovesTo
of_workers s r e = unmoved s (committed s r) e

event_jobs :
    (u : Unicode) (t : ℕ) (e : NewEvent) (s : Store)
    → (committed s (add_job_event u t e s)).jobs ≡ s.jobs
unfolding add_job_event
event_jobs u t e s = ground arith

register_jobs :
    (t : ℕ) (r : Registration) (now : Option DateTime) (s : Store)
    → (committed s (register_worker_instance t r now s >>= λ a. ok a.1)).jobs ≡ s.jobs
unfolding register_worker_instance save_worker
register_jobs t r now s = ground arith

beat_jobs :
    (t w : ℕ) (now : Option DateTime) (s : Store)
    → (committed s (heartbeat_worker_instance t w now s >>= λ a. ok a.1)).jobs ≡ s.jobs
unfolding heartbeat_worker_instance save_worker
beat_jobs t w now s = ground arith

stopping_jobs :
    (t w : ℕ) (now : Option DateTime) (s : Store)
    → (committed s (mark_worker_stopping t w now s >>= λ a. ok a.1)).jobs ≡ s.jobs
unfolding mark_worker_stopping save_worker
stopping_jobs t w now s = ground arith

stop_jobs :
    (t w : ℕ) (now : Option DateTime) (s : Store)
    → (committed s (stop_worker_instance t w now s >>= λ a. ok a.1)).jobs ≡ s.jobs
unfolding stop_worker_instance save_worker
stop_jobs t w now s = ground arith

-- One transaction leaves every row where some moves lead; at most one, but for `recover_stale`.
pub execute-Moves :
    (u : Unicode) (t : ℕ) (c : Command) (s : Store)
    → AreDistinct job_key s.jobs
    → Each Moves s.jobs (execute u t c s).jobs
unfolding execute MovesTo
execute-Moves u t (Command.add_event e) s d =
    of_workers s (add_job_event u t e s) (event_jobs u t e s)
execute-Moves u t (Command.register r now) s d =
    of_workers s (transact u t (Command.register r now) s) (register_jobs t r now s)
execute-Moves u t (Command.heartbeat_worker w now) s d =
    of_workers s (transact u t (Command.heartbeat_worker w now) s) (beat_jobs t w now s)
execute-Moves u t (Command.mark_stopping w now) s d =
    of_workers s (transact u t (Command.mark_stopping w now) s) (stopping_jobs t w now s)
execute-Moves u t (Command.stop w now) s d =
    of_workers s (transact u t (Command.stop w now) s) (stop_jobs t w now s)
execute-Moves u t (Command.claim_next locked w types lease now) s d =
    of_move s _ (claim_next_job-MakesMove u t locked w types lease now s d).1
execute-Moves u t (Command.heartbeat j w lease now) s d =
    of_move s _ (heartbeat_job-MakesMove u t j w lease now s)
execute-Moves u t (Command.report_progress j w p) s d =
    of_move s _ (update_job_progress-MakesMove u t j w p s)
execute-Moves u t (Command.request_cancellation j now) s d =
    of_move s _ (request_job_cancellation-MakesMove u t j now s)
execute-Moves u t (Command.complete j w result now) s d =
    of_move s _ (complete_job-MakesMove u t j w result now s)
execute-Moves u t (Command.fail j w code message result now) s d =
    of_move s _ (fail_job-MakesMove u t j w code message result now s)
execute-Moves u t (Command.requeue j w at code message now) s d =
    of_move s _ (requeue_job-MakesMove u t j w at code message now s)
execute-Moves u t (Command.cancel j w now) s d = of_move s _ (cancel_job-MakesMove u t j w now s)
execute-Moves u t (Command.recover_stale locked delay limit now) s d =
    of_result s _ (recover_stale_jobs-MakesMoves u t locked delay limit now s d)
