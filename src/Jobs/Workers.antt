-- ===== src/Jobs/Workers.antt =====
-- The life of a worker: `register_worker_instance`, `heartbeat_worker_instance`,
-- `mark_worker_stopping` and `stop_worker_instance`.
use praktika.Prelude.{
  ℕ, Option, none, some, List, [], ◌∷◌, ◌++◌, if◌then◌else◌, any, ℤ, Result, ok, ◌>>=◌,
}
use praktika.Text.{Text, text_eq, text_lt}
use praktika.Sanitize.{DateTime}
use praktika.Table.{sort}
use praktika.Jobs.Model.{Worker, WorkerStatus, Store, is_stopped}
use praktika.Jobs.Clock.{resolve_now, later, positive, require_text}
use praktika.Jobs.Locks.{lock_worker, save_worker}

abbrev pub WorkerAnswer : Type 0
WorkerAnswer = Result (Option Worker × Store)

-- `WHERE instance_id = ...`; the column is unique.
unfoldable pub find_instance : Text → List Worker → Option Worker
unfolding text_eq
find_instance instance_id [] = none
find_instance instance_id (w ∷ ws) =
    if text_eq w.instance_id instance_id then some w else find_instance instance_id ws

-- A `set` of texts as the list without its repetitions.
unfoldable pub unique : List Text → List Text
unfolding text_eq
unique [] = []
unique (t ∷ ts) = if any (text_eq t) ts then unique ts else t ∷ unique ts

require_all : List Text → ℕ → Result (List Text)
unfolding require_text
require_all [] maximum = ok []
require_all (t ∷ ts) maximum =
    require_text t maximum >>= λ v. require_all ts maximum >>= λ vs. ok (v ∷ vs)

-- The keyword arguments of `register_worker_instance`, and the id that a new row gets.
pub record Registration : Type 0 where
  pub name : Text
  pub instance_id : Text
  pub capabilities : List Text
  pub version : Text
  pub hostname : Text
  pub pid : ℤ
  pub new_id : ℕ

-- The row of a worker that registers again; `current_job_id` and `started_at` stay.
unfoldable pub revive_row : Text → List Text → Text → Text → ℕ → ℕ → Worker → Worker
unfolding later
revive_row name capabilities version hostname pid moment worker = record worker {
  name = name;
  capabilities = capabilities;
  version = version;
  hostname = hostname;
  pid = pid;
  status = WorkerStatus.running;
  heartbeat_at = later (some worker.heartbeat_at) moment;
  stopped_at = none;
}

module _ (utc_now : ℕ) where
  unfoldable pub register_worker_instance : Registration → Option DateTime → Store → WorkerAnswer
  unfolding require_all
  register_worker_instance r now s = do
    pid ← positive r.pid
    moment ← resolve_now utc_now now
    instance_id ← require_text r.instance_id 200
    clean ← require_all r.capabilities 80
    name ← require_text r.name 200
    version ← require_text r.version 80
    hostname ← require_text r.hostname 255
    let capabilities = sort text_lt (unique clean)
    elim (find_instance instance_id s.workers) [
      | none ↦
          let worker : Worker = record {
            id = r.new_id;
            name = name;
            instance_id = instance_id;
            capabilities = capabilities;
            version = version;
            hostname = hostname;
            pid = pid;
            status = WorkerStatus.running;
            current_job_id = none;
            started_at = moment;
            heartbeat_at = moment;
            stopped_at = none;
          } in
          ok (some worker, record s { workers = s.workers ++ worker ∷ [] })
      | some worker ↦
          let revived = revive_row name capabilities version hostname pid moment worker in
          ok (some revived, save_worker revived s)
    ]

  unfoldable pub heartbeat_worker_instance : ℕ → Option DateTime → Store → WorkerAnswer
  unfolding later
  heartbeat_worker_instance worker_id now s = elim (lock_worker worker_id s) [
    | none ↦ ok (none, s)
    | some worker ↦
        if is_stopped worker.status
        then ok (none, s)
        else (resolve_now utc_now now >>= λ moment.
            let beaten = record worker { heartbeat_at = later (some worker.heartbeat_at) moment } in
            ok (some beaten, save_worker beaten s))
  ]

  unfoldable pub mark_worker_stopping : ℕ → Option DateTime → Store → WorkerAnswer
  unfolding later
  mark_worker_stopping worker_id now s = elim (lock_worker worker_id s) [
    | none ↦ ok (none, s)
    | some worker ↦
        if is_stopped worker.status
        then ok (some worker, s)
        else (resolve_now utc_now now >>= λ moment.
            let leaving = record worker {
              status = WorkerStatus.stopping;
              heartbeat_at = later (some worker.heartbeat_at) moment;
            } in
            ok (some leaving, save_worker leaving s))
  ]

  unfoldable pub stop_worker_instance : ℕ → Option DateTime → Store → WorkerAnswer
  unfolding later
  stop_worker_instance worker_id now s = elim (lock_worker worker_id s) [
    | none ↦ ok (none, s)
    | some worker ↦
        if is_stopped worker.status
        then ok (some worker, s)
        else (resolve_now utc_now now >>= λ moment.
            let gone = record worker {
              status = WorkerStatus.stopped;
              heartbeat_at = later (some worker.heartbeat_at) moment;
              stopped_at = some (later worker.stopped_at moment);
              current_job_id = none;
            } in
            ok (some gone, save_worker gone s))
  ]
