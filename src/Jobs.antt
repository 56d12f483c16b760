-- ===== src/Jobs.antt =====
-- The durable job queue: backend/app/db/repositories/jobs.py over the tables of
-- backend/app/db/models/operations.py.
pub mod Model
pub mod Clock
pub mod Events
pub mod Transitions
pub mod Locks
pub mod Conditions
pub mod Queue
pub mod Recovery
pub mod Workers
pub mod Commands
pub mod Moves
pub mod Lifecycle
pub mod Claim
pub mod Ownership
pub mod Settled
pub mod Tests
