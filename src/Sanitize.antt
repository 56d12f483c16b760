-- ===== src/Sanitize.antt =====
-- What the queue does to text and metrics before it stores them: backend/app/db/repositories/
-- jobs.py, `sanitize_job_event_message`, `sanitize_job_event_value`,
-- `sanitize_job_event_metrics`, `_normalize_event_code`, `_is_sensitive_event_key` and the
-- patterns that they use.
mod Patterns
mod Values
pub mod Clean
pub mod Tests
pub use Patterns.{is_control, bearer_matcher, assignment_matcher}
unfoldable pub use Patterns.{ci_eq, match_word}
unfoldable pub use Values.*
