-- ===== src/Jobs.antt =====
-- The background job queue: backend/src/reconcileflow/persistence/repositories.py and the records of
-- persistence/models.py behind it.
pub mod Records
pub mod Store
pub mod Queue
pub mod Claim
pub mod Completion
pub mod Expiry
pub mod Validity
pub mod Steps
pub mod Effects
pub mod Transitions
pub mod Table
pub mod Recovery
pub mod Priority
pub mod Evolution
pub mod Invariant
pub mod Numbering
pub mod Fairness
mod Tests
pub mod Stranded
