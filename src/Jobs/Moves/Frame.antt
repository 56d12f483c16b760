-- ===== src/Jobs/Moves/Frame.antt =====
-- What the parts of an operation leave alone.
use mathlib.Core.Path.{subst}
use praktika.Prelude.{
  ℕ, ◌≢◌, ap, ◌∙◌, ◌≡◌, refl, Option, none, some, Bool, true, false, if◌then◌else◌, Error, Result,
  ok, err, ◌>>=◌, arith,
}
use praktika.Text.{Text, Unicode}
use praktika.Sanitize.{Object}
use praktika.Table.{Each, find}
use praktika.Table.Rows.{find-put_self, find-put_ne, Each-put, Each_refl}
use praktika.Jobs.Model.{Job, JobStage, JobEventLevel, Store, job_key}
use praktika.Jobs.Events.{NewEvent, add_job_event}
use praktika.Jobs.Locks.{
  find_job, save_job, save_worker, release_worker_job, release_claimant, if_row,
}
use praktika.Jobs.Queue.{log_event}
use praktika.Jobs.Moves.{Move, stay, MakesMove}

-- An event changes neither the jobs nor the workers.
pub add_job_event_frame :
    (u : Unicode) (utc_now : ℕ) (e : NewEvent) (s s' : Store)
    → add_job_event u utc_now e s ≡ ok s'
    → (s'.jobs ≡ s.jobs) × (s'.workers ≡ s.workers)
unfolding add_job_event
add_job_event_frame u utc_now e s s' h = ground arith

pub log_event_frame :
    (u : Unicode) (utc_now job_id : ℕ) (level : JobEventLevel) (stage : JobStage)
    (code message : Text) (metrics : Option Object) (moment : ℕ) (s s' : Store)
    → log_event u utc_now job_id level stage code message metrics moment s ≡ ok s'
    → (s'.jobs ≡ s.jobs) × (s'.workers ≡ s.workers)
unfolding log_event
log_event_frame u utc_now job_id level stage code message metrics moment s s' h =
    add_job_event_frame u utc_now _ s s' h

pub jobs-release_worker_job :
    (worker_id job_id moment : ℕ) (s : Store)
    → (release_worker_job worker_id job_id moment s).jobs ≡ s.jobs
unfolding release_worker_job save_worker
jobs-release_worker_job worker_id job_id moment s = ground arith

pub jobs-release_claimant :
    (worker_id : Option ℕ) (job_id moment : ℕ) (s : Store)
    → (release_claimant worker_id job_id moment s).jobs ≡ s.jobs
unfolding release_claimant
jobs-release_claimant none job_id moment s = refl
jobs-release_claimant (some w) job_id moment s = jobs-release_worker_job w job_id moment s

ok-injective : {A : Type 0} (a b : A) → ok a ≡ ok b → a ≡ b
ok-injective a b q = cc

-- The chain of an operation: each step may raise, and then nothing is written.
pub MakesMove-bind :
    {A B : Type 0} {i : ℕ} (s : Store) (m : Result A) (f : A → Result (B × Store))
    → ((a : A) → m ≡ ok a → MakesMove i s (f a))
    → MakesMove i s (m >>= f)
MakesMove-bind s (ok a) f h = h a refl
MakesMove-bind s (err e) f h = record {
  moves = λ a q. absurd (cc);
  others = λ a q j n. absurd (cc);
}

pub MakesMove-ok :
    {A : Type 0} {i : ℕ} (s : Store) (a : A × Store)
    → Each Move s.jobs a.1.jobs
    → ((j : ℕ) → j ≢ i → find_job j a.1 ≡ find_job j s)
    → MakesMove i s (ok a)
MakesMove-ok s a h k = record {
  moves = λ b q. subst (λ c. Each Move s.jobs c.1.jobs) (ok-injective a b q) h;
  others = λ b q j n. subst (λ c. find_job j c.1 ≡ find_job j s) (ok-injective a b q) (k j n);
}

pub MakesMove-err : {A : Type 0} {i : ℕ} (s : Store) (e : Error) → MakesMove {A = A} i s (err e)
MakesMove-err {A} {i} s e = record { moves = λ a q. absurd (cc); others = λ a q j n. absurd (cc) }

pub stays : {A : Type 0} {i : ℕ} (s : Store) (a : A) → MakesMove i s (ok (a, s))
stays s a = MakesMove-ok s (a, s) (Each_refl Move (λ z. stay) s.jobs) (λ j n. refl)

pub rekeyed :
    {A : Type 0} {i j : ℕ} {s : Store} {r : Result (A × Store)}
    → i ≡ j
    → MakesMove i s r
    → MakesMove j s r
rekeyed {s = s} {r = r} e m = subst (λ k. MakesMove k s r) e m

pub MakesMove-if_row :
    {A B : Type 0} {i : ℕ} (s : Store) (o : Option A) (f : A → Result (Option B × Store))
    → ((a : A) → o ≡ some a → MakesMove i s (f a))
    → MakesMove i s (if_row o s f)
MakesMove-if_row s none f h = stays s none
MakesMove-if_row s (some a) f h = h a refl

pub MakesMove-if :
    {A : Type 0} {i : ℕ} (s : Store) (b : Bool) (x y : Result (A × Store))
    → (b ≡ true → MakesMove i s x)
    → (b ≡ false → MakesMove i s y)
    → MakesMove i s (if b then x else y)
MakesMove-if s true x y h k = h refl
MakesMove-if s false x y h k = k refl

-- The same chains where the job that moves is only known on the way.
pub some_move-bind :
    {A B : Type 0} (s : Store) (m : Result A) (f : A → Result (B × Store))
    → ((a : A) → m ≡ ok a → (i : ℕ) × MakesMove i s (f a))
    → (i : ℕ) × MakesMove i s (m >>= f)
some_move-bind s (ok a) f h = h a refl
some_move-bind s (err e) f h = (0, MakesMove-err s e)

pub some_move-if_row :
    {A B : Type 0} (s : Store) (o : Option A) (f : A → Result (Option B × Store))
    → ((a : A) → o ≡ some a → (i : ℕ) × MakesMove i s (f a))
    → (i : ℕ) × MakesMove i s (if_row o s f)
some_move-if_row s none f h = (0, stays s none)
some_move-if_row s (some a) f h = h a refl

-- The written row of a job that was found makes its move, and all other jobs stay.
save-Moves :
    (j k : Job) (s : Store)
    → find_job k.id s ≡ some j
    → Move j k
    → Each Move s.jobs (save_job k s).jobs
unfolding find_job save_job
save-Moves j k s found move = Each-put job_key Move (λ z. stay) j k s.jobs found move

find_job-same : (i : ℕ) (s t : Store) → s.jobs ≡ t.jobs → find_job i s ≡ find_job i t
unfolding find_job
find_job-same i s t e = ap (find job_key i) e

-- So it does where a session `r` holds that write and no other.
pub saved :
    {A : Type 0} (x : A) (j k : Job) (s r : Store)
    → find_job k.id s ≡ some j
    → Move j k
    → r.jobs ≡ (save_job k s).jobs
    → MakesMove k.id s (ok (x, r))
unfolding find_job save_job
saved x j k s r found move same =
    MakesMove-ok s (x, r) (rw same (save-Moves j k s found move))
      (λ i n. find_job-same i r (save_job k s) same ∙ find-put_ne job_key i k s.jobs n)

-- The same with the worker's release and the event that follow the write.
pub logged :
    {A : Type 0} (u : Unicode) (utc_now : ℕ) (j k : Job) (s r : Store) (job_id : ℕ)
    (level : JobEventLevel) (stage : JobStage) (code message : Text) (metrics : Option Object)
    (moment : ℕ) (f : Store → A)
    → find_job k.id s ≡ some j
    → Move j k
    → r.jobs ≡ (save_job k s).jobs
    → MakesMove k.id s (
        log_event u utc_now job_id level stage code message metrics moment r >>= λ s'.
        ok (f s', s'))
logged u utc_now j k s r job_id level stage code message metrics moment f found move same =
    MakesMove-bind s _ _ (λ s' h.
      saved (f s') j k s s' found move (
        (log_event_frame u utc_now job_id level stage code message metrics moment r s' h).0 ∙ same))

-- The written row is found in the tables that hold its write.
pub find_job-saved :
    (j k : Job) (s r : Store)
    → find_job k.id s ≡ some j
    → r.jobs ≡ (save_job k s).jobs
    → find_job k.id r ≡ some k
unfolding find_job save_job
find_job-saved j k s r found same =
    find_job-same k.id r (save_job k s) same ∙ find-put_self job_key k.id k s.jobs j refl found

pub if_row-some :
    {A B : Type 0} (o : Option A) (s : Store) (f : A → Result (Option B × Store)) (a : A)
    → o ≡ some a
    → if_row o s f ≡ f a
if_row-some o s f a e = rw e
