-- ===== src/Jobs/Lifecycle.antt =====
-- What the moves of a job preserve: the invariant of a row, what only grows, and that a finished
-- job never changes; for one transaction and for any history.
use praktika.Prelude.{
  ℕ, ◌≤◌, ◌<◌, ◌≡◌, refl, Bool, true, false, ◌∙◌, Option, none, some, List, [], ◌∷◌, arith, All,
  max,
}
use praktika.Text.{Unicode}
use praktika.Table.{Each, AreDistinct}
use praktika.Table.Rows.{All-Each, AreDistinct-Each, Each_refl, Each_trans, find-Each, All-find}
use praktika.Jobs.Model.{Job, JobStatus, Store, job_key, is_terminal}
use praktika.Jobs.Transitions.{
  claim_row, heartbeat_row, progress_row, request_row, complete_row, fail_row, cancel_row,
  requeue_row,
}
use praktika.Jobs.Locks.{find_job}
use praktika.Jobs.Commands.{Command, execute, execute_all}
use praktika.Jobs.Moves.{Move, Moves, here, then}
use praktika.Jobs.Moves
use praktika.Jobs.Moves.Recover.{Moves_trans}
use praktika.Jobs.Moves.Commands.{execute-Moves}

-- Is there a lease, and does it end after the last sign of life?
abbrev pub IsLeased : Option ℕ → Option ℕ → Type 0
IsLeased (some lease) (some beat) = beat < lease
IsLeased _ _ = ⊥

abbrev pub IsSome : {A : Type 0} → Option A → Type 0
IsSome none = ⊥
IsSome (some a) = Unit {0}

-- The invariant of a row, by its status.
abbrev pub HoldsFor : JobStatus → Job → Type 0
HoldsFor JobStatus.queued j =
    (j.claimed_by ≡ none)
    × (j.lease_expires_at ≡ none)
    × (j.finished_at ≡ none)
    × (j.cancellation_requested_at ≡ none)
HoldsFor JobStatus.running j =
    IsSome j.claimed_by
    × IsLeased j.lease_expires_at j.heartbeat_at
    × IsSome j.started_at
    × (1 ≤ j.attempt)
    × (j.finished_at ≡ none)
    × (j.next_attempt_at ≡ none)
HoldsFor JobStatus.completed j =
    IsSome j.finished_at
    × (j.lease_expires_at ≡ none)
    × (j.next_attempt_at ≡ none)
    × (j.cancellable ≡ false)
    × (j.progress ≡ 100)
HoldsFor JobStatus.failed j =
    IsSome j.finished_at
    × (j.lease_expires_at ≡ none)
    × (j.next_attempt_at ≡ none)
    × (j.cancellable ≡ false)
    × IsSome j.error_code
HoldsFor JobStatus.cancelled j =
    IsSome j.finished_at
    × (j.lease_expires_at ≡ none)
    × (j.next_attempt_at ≡ none)
    × (j.cancellable ≡ false)
    × IsSome j.cancellation_requested_at

pub record IsSound (j : Job) : Type 0 where
  pub progress_bounded : j.progress ≤ 100
  pub attempts_bounded : j.attempt ≤ j.max_attempts
  pub by_status : HoldsFor j.status j

max_bounded : (a b c : ℕ) → a ≤ c → b ≤ c → max a b ≤ c
max_bounded a b c h k = omega arith

Move-IsSound : (j k : Job) → Move j k → IsSound j → IsSound k
unfolding claim_row heartbeat_row progress_row request_row complete_row fail_row cancel_row
    requeue_row
Move-IsSound j k Moves.stay h = h
Move-IsSound j k (Moves.claim w lease moment waits left unasked long) h = ground arith
Move-IsSound j k (Moves.beat lease moment running long) h = ground arith
Move-IsSound j k (Moves.advance p running q) h = ground arith
Move-IsSound j k (Moves.request moment running able unasked) h = ground arith
Move-IsSound j k (Moves.complete result moment running) h = ground arith
Move-IsSound j k (Moves.fail code message result moment running) h = ground arith
Move-IsSound j k (Moves.requeue stage at code message running left unasked) h = ground arith
Move-IsSound j k (Moves.cancel moment live) h = ground arith
Move-IsSound j k (Moves.cancel_at_request moment live able unasked) h = ground arith

Moves-IsSound : (j k : Job) → Moves j k → IsSound j → IsSound k
Moves-IsSound j k here h = h
Moves-IsSound j k (then {k = l} m ms) h = Moves-IsSound l k ms (Move-IsSound j l m h)

-- An instant that is set stays as it is.
abbrev pub StaysSet : Option ℕ → Option ℕ → Type 0
StaysSet none after = Unit {0}
StaysSet (some t) after = after ≡ some t

-- A finished job stays as it is.
abbrev pub StaysFinished : Bool → Job → Job → Type 0
StaysFinished false j k = Unit {0}
StaysFinished true j k = k ≡ j

-- What only grows in the life of a job, and what is written once.
pub record Advances (j k : Job) : Type 0 where
  pub same_id : k.id ≡ j.id
  pub same_limit : k.max_attempts ≡ j.max_attempts
  pub same_birth : k.created_at ≡ j.created_at
  pub attempts : j.attempt ≤ k.attempt
  pub progress : j.progress ≤ k.progress
  pub processed : j.processed_items ≤ k.processed_items
  pub total : j.total_items ≤ k.total_items
  pub requests : j.request_count ≤ k.request_count
  pub bytes : j.bytes_received ≤ k.bytes_received
  pub started : StaysSet j.started_at k.started_at
  pub asked : StaysSet j.cancellation_requested_at k.cancellation_requested_at
  pub frozen : StaysFinished (is_terminal j.status) j k

Move-Advances : (j k : Job) → Move j k → IsSound j → Advances j k
unfolding claim_row heartbeat_row progress_row request_row complete_row fail_row cancel_row
    requeue_row
Move-Advances j k Moves.stay h = ground arith
Move-Advances j k (Moves.claim w lease moment waits left unasked long) h = ground arith
Move-Advances j k (Moves.beat lease moment running long) h = ground arith
Move-Advances j k (Moves.advance p running q) h = ground arith
Move-Advances j k (Moves.request moment running able unasked) h = ground arith
Move-Advances j k (Moves.complete result moment running) h = ground arith
Move-Advances j k (Moves.fail code message result moment running) h = ground arith
Move-Advances j k (Moves.requeue stage at code message running left unasked) h = ground arith
Move-Advances j k (Moves.cancel moment live) h = ground arith
Move-Advances j k (Moves.cancel_at_request moment live able unasked) h = ground arith

StaysSet-trans : (a b c : Option ℕ) → StaysSet a b → StaysSet b c → StaysSet a c
StaysSet-trans none b c h k = tt
StaysSet-trans (some t) none c h k = absurd (cc)
StaysSet-trans (some t) (some v) c h k = k ∙ h

StaysFinished-trans :
    (j k l : Job)
    → StaysFinished (is_terminal j.status) j k
    → StaysFinished (is_terminal k.status) k l
    → StaysFinished (is_terminal j.status) j l
StaysFinished-trans j k l a b = ground arith

Advances-refl : (j : Job) → Advances j j
Advances-refl j = record {
  same_id = refl;
  same_limit = refl;
  same_birth = refl;
  attempts = omega arith;
  progress = omega arith;
  processed = omega arith;
  total = omega arith;
  requests = omega arith;
  bytes = omega arith;
  started = set_refl j.started_at;
  asked = set_refl j.cancellation_requested_at;
  frozen = same_finished (is_terminal j.status);
}
  where
    set_refl : (t : Option ℕ) → StaysSet t t
    set_refl none = tt
    set_refl (some t) = refl

    same_finished : (b : Bool) → StaysFinished b j j
    same_finished false = tt
    same_finished true = refl

Advances-trans : (j k l : Job) → Advances j k → Advances k l → Advances j l
Advances-trans j k l a b = record {
  same_id = b.same_id ∙ a.same_id;
  same_limit = b.same_limit ∙ a.same_limit;
  same_birth = b.same_birth ∙ a.same_birth;
  attempts = omega arith;
  progress = omega arith;
  processed = omega arith;
  total = omega arith;
  requests = omega arith;
  bytes = omega arith;
  started = StaysSet-trans j.started_at k.started_at l.started_at a.started b.started;
  asked =
      StaysSet-trans j.cancellation_requested_at k.cancellation_requested_at
        l.cancellation_requested_at a.asked b.asked;
  frozen = StaysFinished-trans j k l a.frozen b.frozen;
}

Moves-Advances : (j k : Job) → Moves j k → IsSound j → Advances j k
Moves-Advances j k here h = Advances-refl j
Moves-Advances j k (then {k = l} m ms) h =
    Advances-trans j l k (Move-Advances j l m h) (Moves-Advances l k ms (Move-IsSound j l m h))

Move-key : (j k : Job) → Move j k → k.id ≡ j.id
unfolding claim_row heartbeat_row progress_row request_row complete_row fail_row cancel_row
    requeue_row
Move-key j k Moves.stay = refl
Move-key j k (Moves.claim w lease moment waits left unasked long) = refl
Move-key j k _ = refl

Moves-key : (j k : Job) → Moves j k → k.id ≡ j.id
Moves-key j k here = refl
Moves-key j k (then {k = l} m ms) = Moves-key l k ms ∙ Move-key j l m

-- The tables of a queue that works: rows that are sound and have different ids.
pub record IsQueue (s : Store) : Type 0 where
  pub distinct : AreDistinct job_key s.jobs
  pub sound : All IsSound s.jobs

pub execute-IsQueue :
    (u : Unicode) (t : ℕ) (c : Command) (s : Store) → IsQueue s → IsQueue (execute u t c s)
execute-IsQueue u t c s q =
    let moved = execute-Moves u t c s q.distinct in
    record {
      distinct =
          AreDistinct-Each Moves job_key Moves-key s.jobs (execute u t c s).jobs moved q.distinct;
      sound = All-Each Moves IsSound Moves-IsSound s.jobs (execute u t c s).jobs moved q.sound;
    }

execute_all-Moves :
    (u : Unicode) (cs : List (ℕ × Command)) (s : Store)
    → IsQueue s
    → Each Moves s.jobs (execute_all u cs s).jobs
unfolding execute_all
execute_all-Moves u [] s q = Each_refl Moves (λ z. here) s.jobs
execute_all-Moves u ((t, c) ∷ cs) s q =
    Each_trans Moves Moves_trans s.jobs (execute u t c s).jobs
      (execute_all u cs (execute u t c s)).jobs (execute-Moves u t c s q.distinct)
      (execute_all-Moves u cs (execute u t c s) (execute-IsQueue u t c s q))

-- If the rows of the job table have different ids and are sound, they still are after any history
-- of calls, whatever the calls raise. Sound means: progress is at most 100 and the attempts are
-- within their limit; a running job has a claimant, a first start, at least one attempt and a
-- lease that ends after its last heartbeat; a job in the queue has no claimant, no lease, no end
-- and no request to cancel it; a finished one has an end, no lease and cannot be cancelled, a
-- completed one stands at 100, a failed one has an error code, and a cancelled one the request.
pub execute_all-IsQueue :
    (u : Unicode) (cs : List (ℕ × Command)) (s : Store) → IsQueue s → IsQueue (execute_all u cs s)
unfolding execute_all
execute_all-IsQueue u [] s q = q
execute_all-IsQueue u ((t, c) ∷ cs) s q =
    execute_all-IsQueue u cs (execute u t c s) (execute-IsQueue u t c s q)

-- Through any history of calls a job of a sound queue stays in the table, its progress, attempts
-- and counters never fall, its first start and the request to cancel it are never overwritten, and
-- once it is finished its row never changes again.
pub execute_all-Advances :
    (u : Unicode) (cs : List (ℕ × Command)) (s : Store) (i : ℕ) (j : Job)
    → IsQueue s
    → find_job i s ≡ some j
    → (k : Job) × (find_job i (execute_all u cs s) ≡ some k) × Advances j k
unfolding find_job
execute_all-Advances u cs s i j q found =
    let (k, at, moves) =
      find-Each Moves job_key Moves-key i s.jobs (execute_all u cs s).jobs j
        (execute_all-Moves u cs s q) found in
    (k, at, Moves-Advances j k moves (All-find job_key IsSound i s.jobs j q.sound found))
