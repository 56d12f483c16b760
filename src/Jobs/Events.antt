-- ===== src/Jobs/Events.antt =====
-- `add_job_event`: every transition of the queue appends one event in the same transaction.
use praktika.Prelude.{ℕ, Option, [], ◌∷◌, ◌++◌, Result, ok, ◌>>=◌}
use praktika.Text.{Text, Unicode}
use praktika.Sanitize.{DateTime, Object, normalize_event_code, sanitize_message, sanitize_metrics}
use praktika.Jobs.Model.{JobEventLevel, JobStage, JobEvent, Store}
use praktika.Jobs.Clock.{resolve_now}

-- The keyword arguments of the call.
pub record NewEvent : Type 0 where
  pub job_id : ℕ
  pub level : JobEventLevel
  pub stage : JobStage
  pub code : Text
  pub message : Text
  pub metrics : Option Object
  pub now : Option DateTime

-- `message or code`
abbrev pub or_text : Text → Text → Text
or_text [] code = code
or_text (c ∷ cs) code = c ∷ cs

unfoldable pub add_job_event : Unicode → ℕ → NewEvent → Store → Result Store
add_job_event u utc_now e s = do
  normalized_code ← normalize_event_code u e.code
  metrics ← sanitize_metrics u e.metrics
  moment ← resolve_now utc_now e.now
  let event : JobEvent = record {
    job_id = e.job_id;
    level = e.level;
    stage = e.stage;
    code = normalized_code;
    message = or_text (sanitize_message u 1000 e.message) normalized_code;
    metrics = metrics;
    created_at = moment;
  }
  ok (record s { events = s.events ++ event ∷ [] })
