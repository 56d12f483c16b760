-- ===== src/Admin/Requests.antt =====
-- The requests of administrators and editors that touch jobs and sources, one constructor for each
-- operation, and a history in which they mix with the calls of the workers to the queue.
use praktika.Prelude.{ℕ, Bool, Option, List, [], ◌∷◌, Result, ok, err, ◌>>=◌}
use praktika.Text.{Unicode}
use praktika.Jobs.Commands.{Command, execute}
use praktika.Runner.{World}
use praktika.Admin.{retry_job, cancel_job, start_full_reindex, enqueue_document_reindex}
use praktika.Admin.Sources.{SourceSyncRequest, start_source_sync, stop_source_sync, update_source}

pub data AdminRequest : Type 0 where
  retry : ℕ → ℕ → ℕ → ℕ → AdminRequest
  cancel : ℕ → AdminRequest
  full_reindex : ℕ → ℕ → ℕ → AdminRequest
  document_reindex : ℕ → Bool → Bool → ℕ → Option ℕ → Option ℕ → ℕ → AdminRequest
  start_sync : ℕ → ℕ → ℕ → ℕ → ℕ → SourceSyncRequest → AdminRequest
  stop_sync : ℕ → AdminRequest
  update : ℕ → Option Bool → AdminRequest

-- A transaction: the tables after it, or the exception that rolled it back.
unfoldable pub serve_request : Unicode → ℕ → AdminRequest → World → Result World
serve_request u t (AdminRequest.retry new_id actor_id max_attempts job_id) w =
    retry_job new_id actor_id max_attempts t job_id w >>= λ a. ok a.1
serve_request u t (AdminRequest.cancel job_id) w = cancel_job u t job_id w >>= λ a. ok a.1
serve_request u t (AdminRequest.full_reindex new_id actor_id max_attempts) w =
    start_full_reindex new_id actor_id max_attempts t w >>= λ a. ok a.1
serve_request u t
      (AdminRequest.document_reindex new_id auto force document_id source_id created_by
        max_attempts)
      w =
    ok (record w {
      queue =
          (enqueue_document_reindex new_id auto force document_id source_id created_by max_attempts
            t w.queue).1;
    })
serve_request u t
      (AdminRequest.start_sync new_id actor_id max_attempts target_documents source_id payload) w =
    start_source_sync new_id actor_id max_attempts target_documents t source_id payload w >>= λ a.
    ok a.1
serve_request u t (AdminRequest.stop_sync source_id) w =
    stop_source_sync u t source_id w >>= λ a. ok a.1
serve_request u t (AdminRequest.update source_id enabled) w = update_source source_id enabled w

pub data Event : Type 0 where
  request : AdminRequest → Event
  queue_call : Command → Event

abbrev pub answered : World → Result World → World
answered w (ok w') = w'
answered w (err e) = w

unfoldable pub happen : Unicode → ℕ → Event → World → World
unfolding serve_request
happen u t (Event.request r) w = answered w (serve_request u t r w)
happen u t (Event.queue_call c) w = record w { queue = execute u t c w.queue }

-- A history: each event with the clock at its time.
unfoldable pub happen_all : Unicode → List (ℕ × Event) → World → World
unfolding happen
happen_all u [] w = w
happen_all u ((t, e) ∷ es) w = happen_all u es (happen u t e w)
